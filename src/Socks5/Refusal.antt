-- ===== src/Socks5/Refusal.antt =====
-- What `connect` of `Socks5Client` leaves behind when it throws.
use undici.Base.{ℕ, ◌≡◌, refl, ap, sym, ◌∙◌, arith, Bool, Bytes, Result, ok, err}
use undici.Socks5.Address.{TypedAddress, AddressError, parse_address}
use undici.Socks5.{
  is_authenticated, is_connecting, authenticated, connecting, Fault, in_progress, Client, thrown,
  send_request, connect,
}

send_request_thrown :
    (c d : Client) (a : Result AddressError TypedAddress) (port : ℕ) (e : Fault)
    → send_request c a port ≡ thrown e d
    → d ≡ c
unfolding send_request
send_request_thrown c d (err x) port e h = ground (arith, h)
send_request_thrown c d (ok a) port e h = ground (arith, h)

connect_when_authenticated :
    (is_ipv4 is_ipv6 : Bytes → Bool) (c : Client) (address : Bytes) (port : ℕ)
    → c.state ≡ authenticated
    → connect is_ipv4 is_ipv6 c address port
      ≡ send_request (record c { state = connecting }) (parse_address is_ipv4 is_ipv6 address) port
unfolding connect
connect_when_authenticated is_ipv4 is_ipv6 c address port h =
    rw (ap is_connecting h, ap is_authenticated h) refl

connect_when_connecting :
    (is_ipv4 is_ipv6 : Bytes → Bool) (c : Client) (address : Bytes) (port : ℕ)
    → c.state ≡ connecting
    → connect is_ipv4 is_ipv6 c address port ≡ thrown in_progress c
unfolding connect
connect_when_connecting is_ipv4 is_ipv6 c address port h = rw (ap is_connecting h) refl

-- When `connect` throws on a client that is authenticated, as it does on a target name of more than 255
-- bytes or a port behind 65535, nothing was written and the client is in CONNECTING all the same:
-- each further `connect`, to whatever target, throws that a connection is in progress.
pub connect-refused :
    (is_ipv4 is_ipv6 : Bytes → Bool) (c d : Client) (address next_address : Bytes)
    (port next_port : ℕ) (e : Fault)
    → c.state ≡ authenticated
    → connect is_ipv4 is_ipv6 c address port ≡ thrown e d
    → (d ≡ record c { state = connecting })
      × (connect is_ipv4 is_ipv6 d next_address next_port ≡ thrown in_progress d)
connect-refused is_ipv4 is_ipv6 c d address next_address port next_port e h k =
    let same =
      send_request_thrown (record c { state = connecting }) d
        (parse_address is_ipv4 is_ipv6 address) port e
        (sym (connect_when_authenticated is_ipv4 is_ipv6 c address port h) ∙ k) in
    (
      same,
      connect_when_connecting is_ipv4 is_ipv6 d next_address next_port (ap (λ x. x.state) same),
    )
