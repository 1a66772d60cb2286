-- ===== src/Socks5/Login.antt =====
-- A whole session with a proxy that asks for the user name and the password.
use undici.Base.{ℕ, ◌≤◌, ◌≡◌, refl, ap, arith, Bool, false, List, [], ◌∷◌, ◌++◌, Bytes, length, ok}
use undici.WebSocket.{uint16_be}
use undici.WebSocket.Consume.{joined}
use undici.Socks5.Address.{TypedAddress, parse_address}
use undici.Socks5.{
  State, handshaking, authenticating, authenticated, connecting, connected, Event, write,
  emit_authenticated, emit_connected, deafen, Client, new_client, Outcome, done, thrown, handshake,
  auth_request, send_auth_request, choose_method, mark_authenticated, handle_handshake_response,
  handle_auth_response, dispatch, settle, on_data, send_request, connect, report,
}
use undici.Socks5.Reply.{Answers, on_chunks, on_chunks-Answers}
use undici.Socks5.Session.{Bound, IsBound, text_of, reply_message, on_chunks-reply}

abbrev and_then : Outcome → (Client → Outcome) → Outcome
and_then (done c) f = f c
and_then (thrown e c) f = thrown e c

-- What socks5-proxy-agent.js does with a client, and the chunks that arrive after each of its requests.
abbrev pub session :
    (Bytes → Bool)
    → (Bytes → Bool)
    → Client
    → Bytes
    → ℕ
    → List Bytes
    → List Bytes
    → List Bytes
    → Outcome
session is_ipv4 is_ipv6 c address port greeting verdict reply = and_then (handshake c) (λ shaken.
    and_then (connect is_ipv4 is_ipv6 (on_chunks (on_chunks shaken greeting) verdict) address port)
      (λ asked. done (on_chunks asked reply)))

-- the request of RFC 1928, section 4
abbrev connect_request : TypedAddress → ℕ → Bytes
connect_request a port = 5 ∷ 1 ∷ 0 ∷ a.kind ∷ (a.buffer ++ uint16_be port)

module _ (x : ℕ) (xs : Bytes) (y : ℕ) (ys : Bytes) where
  abbrev at_stage : State → List Event → Client
  at_stage s events = record {
    state = s;
    buffer = [];
    username = x ∷ xs;
    password = y ∷ ys;
    destroyed = false;
    log = events;
  }

  abbrev first_login : Client
  first_login = at_stage handshaking (write (5 ∷ 2 ∷ 2 ∷ 0 ∷ []) ∷ [])

  abbrev auth_sent : List Event
  auth_sent = write (5 ∷ 2 ∷ 2 ∷ 0 ∷ []) ∷ write (auth_request first_login) ∷ []

  greeting-Answers :
      length (x ∷ xs) ≤ 255
      → length (y ∷ ys) ≤ 255
      → Answers first_login (5 ∷ 2 ∷ []) (at_stage authenticating auth_sent)
  unfolding dispatch handle_handshake_response choose_method send_auth_request settle on_data
  greeting-Answers h k = record {
    early = λ z w e l. ground arith;
    whole = ground arith;
    quiet = refl;
  }

  verdict-Answers :
      Answers
        (at_stage authenticating auth_sent)
        (1 ∷ 0 ∷ [])
        (at_stage authenticated (auth_sent ++ (emit_authenticated ∷ [])))
  unfolding dispatch handle_auth_response mark_authenticated settle on_data
  verdict-Answers = record { early = λ z w e l. ground arith; whole = refl; quiet = refl }

  connect-authenticated :
      (is_ipv4 is_ipv6 : Bytes → Bool) (events : List Event) (address : Bytes) (port : ℕ)
      (a : TypedAddress)
      → parse_address is_ipv4 is_ipv6 address ≡ ok a
      → port ≤ 65535
      → connect is_ipv4 is_ipv6 (at_stage authenticated events) address port
        ≡ done (at_stage connecting (events ++ (write (connect_request a port) ∷ [])))
  unfolding connect send_request
  connect-authenticated is_ipv4 is_ipv6 events address port a e h = rw e (ground arith)

  -- With a user name and a password of 1 to 255 bytes, a target address that `parseAddress` takes and a port
  -- below 2^16: a proxy that asks for the password, accepts it and grants the request is connected
  -- through, however its bytes are cut into chunks. The client has then written the greeting, the
  -- credentials and the request, and announced 'authenticated' and the address and port of the reply, in
  -- this order, and it has done nothing else but to remove its listener.
  pub session-login :
      (is_ipv4 is_ipv6 : Bytes → Bool) (address : Bytes) (port : ℕ) (a : TypedAddress)
      (reserved : ℕ) (b : Bound) (bound_port : ℕ) (greeting verdict reply : List Bytes)
      → length (x ∷ xs) ≤ 255
      → length (y ∷ ys) ≤ 255
      → parse_address is_ipv4 is_ipv6 address ≡ ok a
      → port ≤ 65535
      → IsBound b
      → joined greeting ≡ 5 ∷ 2 ∷ []
      → joined verdict ≡ 1 ∷ 0 ∷ []
      → joined reply ≡ reply_message reserved b bound_port
      → session is_ipv4 is_ipv6 (new_client (x ∷ xs) (y ∷ ys)) address port greeting verdict reply
        ≡ done (
            at_stage connected (
              write (5 ∷ 2 ∷ 2 ∷ 0 ∷ [])
              ∷ write (auth_request first_login)
              ∷ emit_authenticated
              ∷ write (connect_request a port)
              ∷ deafen
              ∷ emit_connected (text_of b) bound_port
              ∷ []))
  unfolding handshake report
  session-login is_ipv4 is_ipv6 address port a reserved b bound_port greeting verdict reply hx hy e
        hp hb g v r =
      rw
        (
          on_chunks-Answers first_login [] (5 ∷ 2 ∷ []) (at_stage authenticating auth_sent) greeting
              (greeting-Answers hx hy) g (omega arith),
          on_chunks-Answers (at_stage authenticating auth_sent) [] (1 ∷ 0 ∷ []) _ verdict
              verdict-Answers v (omega arith),
          connect-authenticated is_ipv4 is_ipv6 (auth_sent ++ (emit_authenticated ∷ [])) address
              port a e hp,
        )
        (ap done (
          on_chunks-reply
            (at_stage connecting
              (auth_sent ++ (emit_authenticated ∷ write (connect_request a port) ∷ [])))
            reserved b bound_port reply hb r))
