-- ===== src/Socks5.antt =====
-- lib/core/socks5-client.js: `Socks5Client`, the client's side of the SOCKS5 handshake.
-- The socket and the listeners are the environment: what the client does to them is the log. The
-- listeners of socks5-proxy-agent.js settle promises, so they call the client back only afterwards.
pub mod Address
pub mod Progress
pub mod Reply
pub mod Session
pub mod Login
pub mod Text
pub mod Refusal
mod Tests
use undici.Base.{
  ℕ, ◌+◌, Bool, true, false, ◌&&◌, ◌||◌, not, Option, none, some, List, [], ◌∷◌, ◌++◌, Bytes,
  length, take, drop, get_or, ltb, ◌==◌, if◌then◌else◌, Result, ok, err,
}
use undici.WebSocket.{uint16_be, read_uint16_be}
use undici.Socks5.Address.{TypedAddress, AddressError, parse_address, ipv4_text, ipv6_text}

-- `STATES`
pub data State : Type 0 where
  initial handshaking authenticating authenticated connecting connected error closed : State

-- the errors: Socks5ProxyError with its code, InvalidArgumentError, and those of the socket
pub data Fault : Type 0 where
  invalid_version auth_method auth_version reply_version addr_type reply_code : ℕ → Fault
  auth_rejected auth_failed credentials_required credentials_long : Fault
  handshake_started in_progress not_authenticated invalid_port : Fault
  bad_address : AddressError → Fault
  socket_error : Fault

pub data Event : Type 0 where
  write : Bytes → Event
  destroy : Event
  emit_authenticated emit_close : Event
  emit_error : Fault → Event
  emit_connected : Bytes → ℕ → Event
  -- removal of the listener on 'data'
  deafen : Event

-- The options are the UTF-8 bytes of the strings, none at all for a missing one. `log` is what the
-- client did, in order.
pub record Client : Type 0 where
  pub state : State
  pub buffer : Bytes
  pub username : Bytes
  pub password : Bytes
  pub destroyed : Bool
  pub log : List Event

abbrev pub put : Client → Event → Client
put c e = record c { log = c.log ++ (e ∷ []) }

abbrev pub is_empty : Bytes → Bool
is_empty [] = true
is_empty (b ∷ bs) = false

-- both are truthy
abbrev pub has_credentials : Client → Bool
has_credentials c = not (is_empty c.username) && not (is_empty c.password)

-- `authMethods` of the constructor
unfoldable pub auth_methods : Client → Bytes
auth_methods c = if has_credentials c then 2 ∷ 0 ∷ [] else 0 ∷ []

-- the constructor
abbrev pub new_client : Bytes → Bytes → Client
new_client username password = record {
  state = initial;
  buffer = [];
  username = username;
  password = password;
  destroyed = false;
  log = [];
}

-- How a method ends: it returns, or it throws and leaves the client as it is then.
pub data Outcome : Type 0 where
  done : Client → Outcome
  thrown : Fault → Client → Outcome

-- `destroy`
unfoldable pub destroy_socket : Client → Client
destroy_socket c = if c.destroyed then c else put (record c { destroyed = true }) destroy

-- `onError`
unfoldable pub on_error : Client → Fault → Client
unfolding destroy_socket
on_error c e = destroy_socket (put (record c { state = error }) (emit_error e))

-- `onClose`
unfoldable pub on_close : Client → Client
on_close c = put (record c { state = closed }) emit_close

unfoldable pub mark_authenticated : Client → Client
mark_authenticated c = put (record c { state = authenticated }) emit_authenticated

-- the states in which `handshake` and `connect` throw
abbrev pub is_initial : State → Bool
is_initial initial = true
is_initial _ = false

abbrev pub is_authenticated : State → Bool
is_authenticated authenticated = true
is_authenticated _ = false

abbrev pub is_connecting : State → Bool
is_connecting connecting = true
is_connecting connected = true
is_connecting _ = false

unfoldable pub handshake : Client → Outcome
unfolding auth_methods
handshake c =
    if is_initial c.state
    then done (
        put (record c { state = handshaking })
          (write (5 ∷ length (auth_methods c) ∷ auth_methods c)))
    else thrown handshake_started c

-- the request of RFC 1929
abbrev pub auth_request : Client → Bytes
auth_request c = 1 ∷ length c.username ∷ (c.username ++ (length c.password ∷ c.password))

unfoldable pub send_auth_request : Client → Outcome
send_auth_request c =
    if not (has_credentials c)
    then thrown credentials_required c
    else if ltb 255 (length c.username) || ltb 255 (length c.password)
    then thrown credentials_long c
    else done (put c (write (auth_request c)))

-- `handleHandshakeResponse` behind its first tests
unfoldable pub choose_method : Client → ℕ → Outcome
unfolding mark_authenticated send_auth_request
choose_method c method =
    if method == 0
    then done (mark_authenticated c)
    else if method == 2
    then send_auth_request (record c { state = authenticating })
    else thrown (auth_method method) c

-- `handleHandshakeResponse`
unfoldable pub handle_handshake_response : Client → Outcome
unfolding choose_method
handle_handshake_response c =
    let version = get_or c.buffer 0 0 in
    let method = get_or c.buffer 1 0 in
    if ltb (length c.buffer) 2
    then done c
    else if not (version == 5)
    then thrown (invalid_version version) c
    else if method == 0xFF
    then thrown auth_rejected c
    else choose_method (record c { buffer = drop 2 c.buffer }) method

-- `handleAuthResponse`
unfoldable pub handle_auth_response : Client → Outcome
unfolding mark_authenticated
handle_auth_response c =
    let version = get_or c.buffer 0 0 in
    let status = get_or c.buffer 1 0 in
    if ltb (length c.buffer) 2
    then done c
    else if not (version == 1)
    then thrown (auth_version version) c
    else if not (status == 0)
    then thrown auth_failed c
    else done (mark_authenticated (record c { buffer = drop 2 c.buffer }))

-- what a CONNECT response looks like so far
pub data Shape : Type 0 where
  incomplete : Shape
  unknown_type : ℕ → Shape
  -- the length of the whole response
  complete : ℕ → Shape

abbrev pub sized : Bytes → ℕ → Shape
sized buffer n = if ltb (length buffer) n then incomplete else complete n

-- `responseLength`, and whether that many bytes are there
unfoldable pub response_shape : Bytes → Shape
response_shape buffer =
    let kind = get_or buffer 3 0 in
    if kind == 1
    then sized buffer 10
    else if kind == 3
    then (if ltb (length buffer) 5 then incomplete else sized buffer (7 + get_or buffer 4 0))
    else if kind == 4
    then sized buffer 22
    else unknown_type kind

-- the address behind the fourth byte, as text, and its length; a domain's text is kept as its bytes
unfoldable pub bound_address : Bytes → Bytes × ℕ
bound_address buffer =
    let kind = get_or buffer 3 0 in
    let rest = drop 4 buffer in
    if kind == 1
    then (ipv4_text (take 4 rest), 4)
    else if kind == 3
    then (take (get_or rest 0 0) (drop 1 rest), 1 + get_or rest 0 0)
    else (ipv6_text (take 16 rest), 16)

-- the client that is connected
unfoldable pub report : Client → Bytes → ℕ → Client
report c address port =
    put (put (record c { buffer = []; state = connected }) deafen) (emit_connected address port)

-- the end of `handleConnectResponse`
unfoldable pub finish_connect : Client → Client
finish_connect c =
    let (address, size) = bound_address c.buffer in
    report c address (read_uint16_be (drop (4 + size) c.buffer))

-- `handleConnectResponse` behind the first tests
unfoldable pub handle_reply : Client → ℕ → Shape → Outcome
unfolding finish_connect
handle_reply c reply incomplete = done c
handle_reply c reply (unknown_type kind) = thrown (addr_type kind) c
handle_reply c reply (complete n) =
    if not (reply == 0) then thrown (reply_code reply) c else done (finish_connect c)

-- `handleConnectResponse`
unfoldable pub handle_connect_response : Client → Outcome
unfolding handle_reply
handle_connect_response c =
    let version = get_or c.buffer 0 0 in
    if ltb (length c.buffer) 4
    then done c
    else if not (version == 5)
    then thrown (reply_version version) c
    else handle_reply c (get_or c.buffer 1 0) (response_shape c.buffer)

-- the `switch` of `onData`
unfoldable pub dispatch : State → Client → Outcome
unfolding handle_handshake_response handle_auth_response handle_connect_response
dispatch handshaking = handle_handshake_response
dispatch authenticating = handle_auth_response
dispatch connecting = handle_connect_response
dispatch _ = done

-- the `catch` of `onData`
unfoldable pub settle : Outcome → Client
unfolding on_error
settle (done c) = c
settle (thrown e c) = on_error c e

-- `onData`
unfoldable pub on_data : Client → Bytes → Client
unfolding dispatch settle
on_data c bytes = settle (dispatch c.state (record c { buffer = c.buffer ++ bytes }))

-- `buildConnectRequest` and the write; the state is CONNECTING by then
unfoldable pub send_request : Client → Result AddressError TypedAddress → ℕ → Outcome
send_request c (err e) port = thrown (bad_address e) c
send_request c (ok a) port =
    if ltb 65535 port
    then thrown invalid_port c
    else done (put c (write (5 ∷ 1 ∷ 0 ∷ a.kind ∷ (a.buffer ++ uint16_be port))))

-- `connect`; `net.isIPv4` and `net.isIPv6` are the platform's
unfoldable pub connect : (Bytes → Bool) → (Bytes → Bool) → Client → Bytes → ℕ → Outcome
unfolding send_request
connect is_ipv4 is_ipv6 c address port =
    if is_connecting c.state
    then thrown in_progress c
    else if not (is_authenticated c.state)
    then thrown not_authenticated c
    else send_request (record c { state = connecting }) (parse_address is_ipv4 is_ipv6 address) port
