-- ===== src/Socks5/Progress.antt =====
-- How far the handshake of `Socks5Client` has come, in every state that events and calls lead to.
use undici.Base.{
  if◌then◌else◌, Result, ok, err, get_or, length, drop, ℕ, suc, ◌+◌, ◌≤◌, ◌≡◌, refl, arith, Bool,
  true, List, [], ◌∷◌, ◌++◌, Bytes,
}
use undici.WebSocket.{uint16_be}
use undici.Socks5.Address.{TypedAddress, AddressError, parse_address}
use undici.Socks5.{
  put, auth_methods, auth_request, State, initial, handshaking, authenticating, authenticated,
  connecting, connected, error, closed, Fault, Event, write, destroy, emit_authenticated,
  emit_close, emit_error, emit_connected, deafen, Client, new_client, Outcome, done, thrown,
  destroy_socket, on_error, on_close, mark_authenticated, handshake, send_auth_request,
  choose_method, handle_handshake_response, handle_auth_response, response_shape, Shape, incomplete,
  unknown_type, complete, report, finish_connect, handle_reply, handle_connect_response, dispatch,
  settle, on_data, send_request, connect,
}

-- one for each event of a kind
abbrev pub authentications : List Event → ℕ
authentications [] = 0
authentications (emit_authenticated ∷ es) = suc (authentications es)
authentications (e ∷ es) = authentications es

abbrev pub connections : List Event → ℕ
connections [] = 0
connections (emit_connected a p ∷ es) = suc (connections es)
connections (e ∷ es) = connections es

abbrev pub destructions : List Event → ℕ
destructions [] = 0
destructions (destroy ∷ es) = suc (destructions es)
destructions (e ∷ es) = destructions es

authentications-append :
    (es fs : List Event) → authentications (es ++ fs) ≡ authentications es + authentications fs
authentications-append [] fs = omega arith
authentications-append (emit_authenticated ∷ es) fs = omega (arith, authentications-append es fs)
authentications-append (e ∷ es) fs = authentications-append es fs

connections-append : (es fs : List Event) → connections (es ++ fs) ≡ connections es + connections fs
connections-append [] fs = omega arith
connections-append (emit_connected a p ∷ es) fs = omega (arith, connections-append es fs)
connections-append (e ∷ es) fs = connections-append es fs

destructions-append :
    (es fs : List Event) → destructions (es ++ fs) ≡ destructions es + destructions fs
destructions-append [] fs = omega arith
destructions-append (destroy ∷ es) fs = omega (arith, destructions-append es fs)
destructions-append (e ∷ es) fs = destructions-append es fs

-- Where a client stands: what it announced, by its state.
abbrev pub Stage : State → ℕ → ℕ → Type 0
Stage initial a n = (a ≡ 0) × (n ≡ 0)
Stage handshaking a n = (a ≡ 0) × (n ≡ 0)
Stage authenticating a n = (a ≡ 0) × (n ≡ 0)
Stage authenticated a n = (a ≡ 1) × (n ≡ 0)
Stage connecting a n = (a ≡ 1) × (n ≡ 0)
Stage connected a n = (a ≡ 1) × (n ≡ 1)
Stage error a n = (n ≤ a) × (a ≤ 1)
Stage closed a n = (n ≤ a) × (a ≤ 1)

-- The stage fits the log, and the client destroyed the socket once at most, and not if the socket stands.
pub record IsOrderly (c : Client) : Type 0 where
  pub stage : Stage c.state (authentications c.log) (connections c.log)
  pub destroyed_once : destructions c.log ≤ (if c.destroyed then 1 else 0)

-- the client at the end of a method
abbrev pub client_of : Outcome → Client
client_of (done c) = c
client_of (thrown e c) = c

ended : (s : State) (a n : ℕ) → Stage s a n → (n ≤ a) × (a ≤ 1)
ended initial a n h = omega arith
ended handshaking a n h = omega arith
ended authenticating a n h = omega arith
ended authenticated a n h = omega arith
ended connecting a n h = omega arith
ended connected a n h = omega arith
ended error a n h = h
ended closed a n h = h

put_counts :
    (c : Client) (e : Event)
    → (authentications (c.log ++ (e ∷ [])) ≡ authentications c.log + authentications (e ∷ []))
      × (connections (c.log ++ (e ∷ [])) ≡ connections c.log + connections (e ∷ []))
      × (destructions (c.log ++ (e ∷ [])) ≡ destructions c.log + destructions (e ∷ []))
put_counts c e = (
  authentications-append c.log (e ∷ []),
  connections-append c.log (e ∷ []),
  destructions-append c.log (e ∷ []),
)

on_close-IsOrderly : (c : Client) → IsOrderly c → IsOrderly (on_close c)
unfolding on_close
on_close-IsOrderly c v = ground (arith, put_counts c emit_close, ended c.state _ _ v.stage)

destroy_socket-IsOrderly : (c : Client) → IsOrderly c → IsOrderly (destroy_socket c)
unfolding destroy_socket
destroy_socket-IsOrderly c v = ground (arith, put_counts c destroy)

on_error-IsOrderly : (c : Client) (e : Fault) → IsOrderly c → IsOrderly (on_error c e)
unfolding on_error
on_error-IsOrderly c e v =
    destroy_socket-IsOrderly (put (record c { state = error }) (emit_error e))
      (ground (arith, put_counts c (emit_error e), ended c.state _ _ v.stage))

-- a write
write-IsOrderly : (c : Client) (bytes : Bytes) → IsOrderly c → IsOrderly (put c (write bytes))
write-IsOrderly c bytes v = ground (arith, put_counts c (write bytes))

handshake-IsOrderly : (c : Client) → IsOrderly c → IsOrderly (client_of (handshake c))
unfolding handshake
handshake-IsOrderly c v =
    ground (arith, put_counts c (write (5 ∷ length (auth_methods c) ∷ auth_methods c)))

send_auth_request-IsOrderly :
    (c : Client) → IsOrderly c → IsOrderly (client_of (send_auth_request c))
unfolding send_auth_request
send_auth_request-IsOrderly c v = ground (arith, write-IsOrderly c (auth_request c) v)

-- A client that is about to authenticate.
mark_authenticated-IsOrderly :
    (c : Client)
    → authentications c.log ≡ 0
    → connections c.log ≡ 0
    → destructions c.log ≤ (if c.destroyed then 1 else 0)
    → IsOrderly (mark_authenticated c)
unfolding mark_authenticated
mark_authenticated-IsOrderly c a n d = ground (arith, put_counts c emit_authenticated)

choose_method-IsOrderly :
    (c : Client) (method : ℕ)
    → c.state ≡ handshaking
    → IsOrderly c
    → IsOrderly (client_of (choose_method c method))
unfolding choose_method
choose_method-IsOrderly c method e v = ground (
  arith,
  mark_authenticated-IsOrderly c,
  send_auth_request-IsOrderly (record c { state = authenticating }),
)

handle_handshake_response-IsOrderly :
    (c : Client)
    → c.state ≡ handshaking
    → IsOrderly c
    → IsOrderly (client_of (handle_handshake_response c))
unfolding handle_handshake_response
handle_handshake_response-IsOrderly c e v =
    ground
      (arith, choose_method-IsOrderly (record c { buffer = drop 2 c.buffer }) (get_or c.buffer 1 0))

handle_auth_response-IsOrderly :
    (c : Client)
    → c.state ≡ authenticating
    → IsOrderly c
    → IsOrderly (client_of (handle_auth_response c))
unfolding handle_auth_response
handle_auth_response-IsOrderly c e v =
    ground (arith, mark_authenticated-IsOrderly (record c { buffer = drop 2 c.buffer }))

report-IsOrderly :
    (c : Client) (address : Bytes) (port : ℕ)
    → c.state ≡ connecting
    → IsOrderly c
    → IsOrderly (report c address port)
unfolding report
report-IsOrderly c address port e v =
    ground (arith, put_counts c deafen, put_counts (put c deafen) (emit_connected address port))

finish_connect-IsOrderly :
    (c : Client) → c.state ≡ connecting → IsOrderly c → IsOrderly (finish_connect c)
unfolding finish_connect
finish_connect-IsOrderly c e v = report-IsOrderly c _ _ e v

handle_reply-IsOrderly :
    (c : Client) (reply : ℕ) (shape : Shape)
    → c.state ≡ connecting
    → IsOrderly c
    → IsOrderly (client_of (handle_reply c reply shape))
unfolding handle_reply
handle_reply-IsOrderly c reply incomplete e v = v
handle_reply-IsOrderly c reply (unknown_type kind) e v = v
handle_reply-IsOrderly c reply (complete n) e v = ground (arith, finish_connect-IsOrderly c e v)

handle_connect_response-IsOrderly :
    (c : Client)
    → c.state ≡ connecting
    → IsOrderly c
    → IsOrderly (client_of (handle_connect_response c))
unfolding handle_connect_response
handle_connect_response-IsOrderly c e v =
    ground (arith, handle_reply-IsOrderly c (get_or c.buffer 1 0) (response_shape c.buffer) e v)

dispatch-IsOrderly :
    (s : State) (c : Client) → c.state ≡ s → IsOrderly c → IsOrderly (client_of (dispatch s c))
unfolding dispatch
dispatch-IsOrderly handshaking c e v = handle_handshake_response-IsOrderly c e v
dispatch-IsOrderly authenticating c e v = handle_auth_response-IsOrderly c e v
dispatch-IsOrderly connecting c e v = handle_connect_response-IsOrderly c e v
dispatch-IsOrderly initial c e v = v
dispatch-IsOrderly authenticated c e v = v
dispatch-IsOrderly connected c e v = v
dispatch-IsOrderly error c e v = v
dispatch-IsOrderly closed c e v = v

settle-IsOrderly : (o : Outcome) → IsOrderly (client_of o) → IsOrderly (settle o)
unfolding settle
settle-IsOrderly (done c) v = v
settle-IsOrderly (thrown e c) v = on_error-IsOrderly c e v

on_data-IsOrderly : (c : Client) (bytes : Bytes) → IsOrderly c → IsOrderly (on_data c bytes)
unfolding on_data
on_data-IsOrderly c bytes v =
    settle-IsOrderly (dispatch c.state (record c { buffer = c.buffer ++ bytes })) (
      dispatch-IsOrderly c.state (record c { buffer = c.buffer ++ bytes }) refl
        (record { stage = v.stage; destroyed_once = v.destroyed_once }))

send_request-IsOrderly :
    (c : Client) (a : Result AddressError TypedAddress) (port : ℕ)
    → IsOrderly c
    → IsOrderly (client_of (send_request c a port))
unfolding send_request
send_request-IsOrderly c (err e) port v = v
send_request-IsOrderly c (ok a) port v =
    ground (arith, write-IsOrderly c (5 ∷ 1 ∷ 0 ∷ a.kind ∷ (a.buffer ++ uint16_be port)) v)

connect-IsOrderly :
    (is_ipv4 is_ipv6 : Bytes → Bool) (c : Client) (address : Bytes) (port : ℕ)
    → IsOrderly c
    → IsOrderly (client_of (connect is_ipv4 is_ipv6 c address port))
unfolding connect
connect-IsOrderly is_ipv4 is_ipv6 c address port v = ground (
  arith,
  send_request-IsOrderly (record c { state = connecting }) (parse_address is_ipv4 is_ipv6 address)
      port,
)

-- What may happen to a client: calls of its methods and events of its socket, in any order.
module _ (is_ipv4 is_ipv6 : Bytes → Bool) where
  pub data Step : Client → Client → Type 0 where
    shake : (c : Client) → Step c (client_of (handshake c))
    receive : (c : Client) (bytes : Bytes) → Step c (on_data c bytes)
    fail : (c : Client) (e : Fault) → Step c (on_error c e)
    close : (c : Client) → Step c (on_close c)
    discard : (c : Client) → Step c (destroy_socket c)
    -- the platform destroys the socket
    lose : (c : Client) → Step c (record c { destroyed = true })
    open_to :
        (c : Client) (address : Bytes) (port : ℕ)
        → Step c (client_of (connect is_ipv4 is_ipv6 c address port))

  pub data Reach (c : Client) : Client → Type 0 where
    here : Reach c c
    next : {d e : Client} → Reach c d → Step d e → Reach c e

  Step-IsOrderly : {c d : Client} → Step c d → IsOrderly c → IsOrderly d
  Step-IsOrderly (shake c) v = handshake-IsOrderly c v
  Step-IsOrderly (receive c bytes) v = on_data-IsOrderly c bytes v
  Step-IsOrderly (fail c e) v = on_error-IsOrderly c e v
  Step-IsOrderly (close c) v = on_close-IsOrderly c v
  Step-IsOrderly (discard c) v = destroy_socket-IsOrderly c v
  Step-IsOrderly (lose c) v = record {
    stage = v.stage;
    destroyed_once = ground (arith, v.destroyed_once);
  }
  Step-IsOrderly (open_to c address port) v = connect-IsOrderly is_ipv4 is_ipv6 c address port v

  -- Whatever calls and socket events a new client meets, in whatever order: it announces 'connected' at
  -- most once and never before 'authenticated', which it announces at most once; in each state but
  -- ERROR and CLOSED it has announced just what the state says; and it destroys the socket at most once.
  pub Reach-IsOrderly : (u p : Bytes) {c : Client} → Reach (new_client u p) c → IsOrderly c
  Reach-IsOrderly u p here = record { stage = (refl, refl); destroyed_once = omega arith }
  Reach-IsOrderly u p (next r s) = Step-IsOrderly s (Reach-IsOrderly u p r)
