-- ===== src/Socks5/Tests.antt =====
-- The SOCKS5 client on concrete bytes.
use undici.Base.{◌≡◌, refl, arith, Bool, false, List, [], ◌∷◌, Bytes, some, ok, equal}
use undici.Base.Split.{split, join}
use undici.Socks5.Address.{
  parse_address, parse_ipv6, parse_response_address, build_address_buffer, ipv6_text, ipv4_text,
  normalize_address, parse_normalized, at_double_colon, includes, at_last_colon, write_around,
  write_parts, groups, to_hex, parse_decimal, write_uint16, parse_hex, hex_digit, to_decimal,
  read_port,
}
use undici.Socks5.{
  Client, new_client, connecting, authenticated, connected, done, thrown, handshake, on_data,
  connect, in_progress, invalid_port, write, emit_authenticated, deafen, emit_connected,
}
use undici.Socks5.Progress.{IsOrderly, here, next, shake, receive, client_of, Reach-IsOrderly}
use undici.Socks5.Session.{ipv4}
use undici.Socks5.Login.{session, session-login}
use undici.Socks5.Text.{parse_ipv6-ipv6_text}
use undici.Socks5.Refusal.{connect-refused}

-- 127.0.0.1
abbrev localhost : Bytes
localhost = 49 ∷ 50 ∷ 55 ∷ 46 ∷ 48 ∷ 46 ∷ 48 ∷ 46 ∷ 49 ∷ []

abbrev is_localhost : Bytes → Bool
is_localhost = equal localhost

abbrev never : Bytes → Bool
never bytes = false

-- ::1
abbrev loopback : Bytes
loopback = 58 ∷ 58 ∷ 49 ∷ []

-- ::ffff:127.0.0.1
abbrev mapped : Bytes
mapped = 58 ∷ 58 ∷ 102 ∷ 102 ∷ 102 ∷ 102 ∷ 58 ∷ localhost

abbrev loopback_bytes : Bytes
loopback_bytes = 0 ∷ 0 ∷ 0 ∷ 0 ∷ 0 ∷ 0 ∷ 0 ∷ 0 ∷ 0 ∷ 0 ∷ 0 ∷ 0 ∷ 0 ∷ 0 ∷ 0 ∷ 1 ∷ []

loopback_parsed : parse_ipv6 never loopback ≡ some loopback_bytes
unfolding parse_ipv6 parse_normalized at_double_colon normalize_address includes write_around
    write_parts groups split write_uint16 parse_hex hex_digit
loopback_parsed = refl

mapped_parsed :
    parse_ipv6 is_localhost mapped
    ≡ some (0 ∷ 0 ∷ 0 ∷ 0 ∷ 0 ∷ 0 ∷ 0 ∷ 0 ∷ 0 ∷ 0 ∷ 255 ∷ 255 ∷ 127 ∷ 0 ∷ 0 ∷ 1 ∷ [])
unfolding parse_ipv6 parse_normalized at_double_colon normalize_address includes at_last_colon
    write_around write_parts groups split to_hex parse_decimal write_uint16 parse_hex hex_digit
mapped_parsed = refl

localhost_parsed :
    parse_address is_localhost never localhost
    ≡ ok (record { kind = 1; buffer = 127 ∷ 0 ∷ 0 ∷ 1 ∷ [] })
unfolding parse_address split parse_decimal
localhost_parsed = refl

response_parsed :
    parse_response_address (build_address_buffer 1 (127 ∷ 0 ∷ 0 ∷ 1 ∷ []) 8080)
    ≡ ok (record { address = localhost; port = 8080; bytes_read = 7 })
unfolding parse_response_address build_address_buffer read_port ipv4_text to_decimal join
response_parsed = refl

-- the user "u" with the password "p"
abbrev user : Client
user = new_client (117 ∷ []) (112 ∷ [])

abbrev arrived : Client
arrived = record user { state = authenticated }

abbrev greeting : List Bytes
greeting = (5 ∷ []) ∷ (2 ∷ []) ∷ []

abbrev verdict : List Bytes
verdict = (1 ∷ 0 ∷ []) ∷ []

abbrev reply : List Bytes
reply = (5 ∷ 0 ∷ 0 ∷ 1 ∷ 127 ∷ []) ∷ (0 ∷ 0 ∷ 1 ∷ 31 ∷ []) ∷ (144 ∷ []) ∷ []

Reach-IsOrderly_example :
    IsOrderly (on_data (on_data (client_of (handshake user)) (5 ∷ 2 ∷ [])) (1 ∷ 1 ∷ []))
Reach-IsOrderly_example = Reach-IsOrderly is_localhost never (117 ∷ []) (112 ∷ []) (
    next (next (next here (shake user)) (receive (client_of (handshake user)) (5 ∷ 2 ∷ [])))
      (receive (on_data (client_of (handshake user)) (5 ∷ 2 ∷ [])) (1 ∷ 1 ∷ [])))

parse_ipv6-ipv6_text_example : parse_ipv6 never (ipv6_text loopback_bytes) ≡ some loopback_bytes
parse_ipv6-ipv6_text_example = parse_ipv6-ipv6_text never loopback_bytes refl (omega arith)

connect-refused_example :
    (record arrived { state = connecting } ≡ record arrived { state = connecting })
    × (connect never never (record arrived { state = connecting }) localhost 80
        ≡ thrown in_progress (record arrived { state = connecting }))
unfolding connect parse_address
connect-refused_example =
    connect-refused never never arrived (record arrived { state = connecting }) localhost localhost
      65536 80 invalid_port refl refl

session-login_example :
    session is_localhost never user localhost 80 greeting verdict reply
    ≡ done (record {
      state = connected;
      buffer = [];
      username = 117 ∷ [];
      password = 112 ∷ [];
      destroyed = false;
      log =
          write (5 ∷ 2 ∷ 2 ∷ 0 ∷ [])
          ∷ write (1 ∷ 1 ∷ 117 ∷ 1 ∷ 112 ∷ [])
          ∷ emit_authenticated
          ∷ write (5 ∷ 1 ∷ 0 ∷ 1 ∷ 127 ∷ 0 ∷ 0 ∷ 1 ∷ 0 ∷ 80 ∷ [])
          ∷ deafen
          ∷ emit_connected (ipv4_text (127 ∷ 0 ∷ 0 ∷ 1 ∷ [])) 8080
          ∷ [];
    })
session-login_example =
    session-login 117 [] 112 [] is_localhost never localhost 80
      (record { kind = 1; buffer = 127 ∷ 0 ∷ 0 ∷ 1 ∷ [] }) 0 (ipv4 (127 ∷ 0 ∷ 0 ∷ 1 ∷ [])) 8080
      greeting verdict reply (omega arith) (omega arith) localhost_parsed (omega arith) refl refl
      refl refl
