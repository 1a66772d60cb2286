-- ===== src/WebSocket/Connection.antt =====
-- lib/web/websocket/connection.js: closing and failing the connection, on the handler that the
-- parser, the WebSocket object and the socket share.
use undici.Base.{
  false, ℕ, Bool, true, not, ◌&&◌, ◌||◌, Option, none, some, List, [], ◌∷◌, ◌++◌, Bytes, length,
  ltb, ◌==◌, if◌then◌else◌, Result, ok, err,
}
use undici.WebSocket.{close_op, uint16_be}

-- `states`
pub data ReadyState : Type 0 where
  connecting open_state closing closed : ReadyState

-- What the code does to the outside, in order. `write` is `socket.write(createFrame(opcode))` of a
-- frame with that body; its mask key is random (see Frame).
pub data Effect : Type 0 where
  write : ℕ → Bytes → Effect
  abort : Effect
  socket_close : Effect
  destroy : Effect
  message : ℕ → Bytes → Effect
  on_ping : Bytes → Effect
  on_pong : Bytes → Effect

-- the handler; `sent` and `received` are the members of `closeState`
pub record Handler : Type 0 where
  pub ready_state : ReadyState
  pub sent : Bool
  pub received : Bool
  pub destroyed : Bool
  pub log : List Effect

abbrev pub emit : Handler → Effect → Handler
emit h e = record h { log = h.log ++ (e ∷ []) }

pub data CloseError : Type 0 where
  invalid_access syntax_error out_of_range : CloseError

-- `validateCloseCodeAndReason`; the reason is given by its UTF-8 bytes
unfoldable pub validate_close : Option ℕ → Bytes → Option CloseError
validate_close none reason = if ltb 123 (length reason) then some syntax_error else none
validate_close (some code) reason =
    if not (code == 1000) && (ltb code 3000 || ltb 4999 code)
    then some invalid_access
    else if ltb 123 (length reason)
    then some syntax_error
    else none

-- the body of the Close frame
unfoldable pub close_body : Option ℕ → Bytes → Bytes
close_body none [] = []
close_body none (c ∷ reason) = uint16_be 1000 ++ (c ∷ reason)
close_body (some code) reason = uint16_be code ++ reason

-- `failWebsocketConnection` past the Close frame
unfoldable pub drop_connection : Handler → Handler
drop_connection h =
    let h' = emit h abort in
    elim h.ready_state [
      | connecting ↦ emit h' socket_close
      | _ ↦ if h.destroyed then h' else emit (record h' { destroyed = true }) destroy
    ]

-- the closing handshake, in the state OPEN
unfoldable pub start_closing : Handler → Option ℕ → Bytes → Handler
unfolding close_body
start_closing h code reason =
    if not h.sent && not h.received
    then (let h' = emit h (write close_op (close_body code reason)) in
        record h' { sent = true; ready_state = closing })
    else record h { ready_state = closing }

-- `closeWebSocketConnection` behind the validation, by the ready state
unfoldable pub close_in : ReadyState → Handler → Option ℕ → Bytes → Handler
unfolding drop_connection start_closing
close_in closing h code reason = h
close_in closed h code reason = h
close_in connecting h code reason = record (drop_connection h) { ready_state = closing }
close_in open_state h code reason = start_closing h code reason

-- whether `writeUInt16BE` is called, and refuses the code
unfoldable pub is_out_of_range : Handler → Option ℕ → Bool
is_out_of_range h none = false
is_out_of_range h (some code) = elim h.ready_state [
  | open_state ↦ not h.sent && not h.received && ltb 65535 code
  | _ ↦ false
]

-- `closeWebSocketConnection`
unfoldable pub close_connection : Handler → Option ℕ → Bytes → Bool → Result CloseError Handler
unfolding validate_close close_in
close_connection h code reason validate =
    elim (if validate then validate_close code reason else none) [
      | some e ↦ err e
      | none ↦
          if is_out_of_range h code
          then err out_of_range
          else ok (close_in h.ready_state h code reason)
    ]

-- `failWebsocketConnection`
unfoldable pub fail_connection : Handler → ℕ → Bytes → Handler
unfolding drop_connection start_closing
fail_connection h code reason =
    drop_connection (elim h.ready_state [ open_state ↦ start_closing h (some code) reason | _ ↦ h ])
