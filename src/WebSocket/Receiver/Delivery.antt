-- ===== src/WebSocket/Receiver/Delivery.antt =====
-- The frames of a server's messages, through the loop of `ByteParser.run`.
use undici.Base.{
  ◌+◌, ◌≤◌, ◌≡◌, inl, inr, refl, sym, ◌∙◌, ap, arith, List, [], ◌∷◌, ◌++◌, Bytes, length,
  append_assoc, append-nil, subst, map, leb, Bool-cases,
}
use undici.WebSocket.{uint16_be}
use undici.WebSocket.Consume.{joined}
use undici.WebSocket.Connection.{Effect, message, Handler}
use undici.WebSocket.Machine.{
  ParserState, info, payload_length_16, payload_length_64, read_data, Settings, Machine, next,
}
use undici.WebSocket.Receiver.{waits, needed_in, handle_in, new_parser, new_machine}
use undici.WebSocket.Receiver.Flat.{flat_wait}
use undici.WebSocket.Receiver.Fuel.{flat, flat-next}
use undici.WebSocket.Receiver.Chunks.{HasFailed, feed, feed-flat, new_parser-IsWaiting}
use undici.WebSocket.Receiver.Messages.{
  DataKind, op_of, uint32_be, server_frame, IsIdle, Fits, headed, delivered, on_info_small,
  on_info_16, on_info_64, on_length_16_of, on_length_64_of, on_payload_of,
}

-- A round, at a state that is known.
flat_round :
    (s : ParserState) (cfg : Settings) (m : Machine) (body rest : Bytes) {m' : Machine}
    → m.state ≡ s
    → length body ≡ needed_in s m
    → handle_in s cfg m body ≡ next m'
    → flat cfg m (body ++ rest) ≡ flat cfg m' rest
flat_round s cfg m body rest {m'} e n h =
    flat-next cfg m body rest (n ∙ ap (λ s. needed_in s m) (sym e))
      (ap (λ s. handle_in s cfg m body) e ∙ h)

module _ (cfg : Settings) (kind : DataKind) (payload rest : Bytes) where
  -- the payload's round
  payload_round :
      (m : Machine)
      → IsIdle m
      → flat cfg (headed m kind read_data (length payload)) (payload ++ rest)
        ≡ flat cfg (delivered m kind payload) rest
  unfolding needed_in handle_in
  payload_round m v =
      flat_round read_data cfg (headed m kind read_data (length payload)) payload rest refl refl
        (on_payload_of cfg m v kind payload)

  message_small :
      (m : Machine)
      → IsIdle m
      → Fits cfg (length payload)
      → length payload ≤ 125
      → flat cfg m (((128 + op_of kind) ∷ length payload ∷ []) ++ (payload ++ rest))
        ≡ flat cfg (delivered m kind payload) rest
  unfolding needed_in handle_in
  message_small m v f h =
      flat_round info cfg m ((128 + op_of kind) ∷ length payload ∷ []) (payload ++ rest) v.at_header
        refl (on_info_small cfg m v kind (length payload) h f)
      ∙ payload_round m v

  message_16 :
      (m : Machine)
      → IsIdle m
      → Fits cfg (length payload)
      → length payload ≤ 65535
      → flat cfg m
          (((128 + op_of kind) ∷ 126 ∷ []) ++ (uint16_be (length payload) ++ (payload ++ rest)))
        ≡ flat cfg (delivered m kind payload) rest
  unfolding needed_in handle_in
  message_16 m v f h =
      flat_round info cfg m ((128 + op_of kind) ∷ 126 ∷ []) _ v.at_header refl
        (on_info_16 cfg m v kind)
      ∙ flat_round payload_length_16 cfg (headed m kind payload_length_16 m.payload_length)
          (uint16_be (length payload)) _ refl refl
          (on_length_16_of cfg m v kind m.payload_length (length payload) h f)
      ∙ payload_round m v

  message_64 :
      (m : Machine)
      → IsIdle m
      → Fits cfg (length payload)
      → flat cfg m (
          ((128 + op_of kind) ∷ 127 ∷ [])
          ++ ((0 ∷ 0 ∷ 0 ∷ 0 ∷ uint32_be (length payload)) ++ (payload ++ rest)))
        ≡ flat cfg (delivered m kind payload) rest
  unfolding needed_in handle_in
  message_64 m v f =
      flat_round info cfg m ((128 + op_of kind) ∷ 127 ∷ []) _ v.at_header refl
        (on_info_64 cfg m v kind)
      ∙ flat_round payload_length_64 cfg (headed m kind payload_length_64 m.payload_length)
          (0 ∷ 0 ∷ 0 ∷ 0 ∷ uint32_be (length payload)) _ refl refl
          (on_length_64_of cfg m v kind m.payload_length (length payload) f)
      ∙ payload_round m v

  message_lem :
      (m : Machine)
      → IsIdle m
      → Fits cfg (length payload)
      → flat cfg m (server_frame kind payload ++ rest) ≡ flat cfg (delivered m kind payload) rest
  message_lem m v f = elim (Bool-cases (leb (length payload) 125)) [
    | inl small ↦ rw small (message_small m v f (ground arith))
    | inr more ↦ elim (Bool-cases (leb (length payload) 65535)) [
      | inl medium ↦ rw (more, medium) (message_16 m v f (ground arith))
      | inr large ↦ rw (more, large) (message_64 m v f)
    ]
  ]

-- The messages that a server sends, one frame each, and what they become.
abbrev pub Message : Type 0
Message = DataKind × Bytes

abbrev pub server_frames : List Message → Bytes
server_frames [] = []
server_frames ((kind, payload) ∷ ms) = server_frame kind payload ++ server_frames ms

abbrev pub AllFit : Settings → List Message → Type 0
AllFit cfg [] = Unit
AllFit cfg ((kind, payload) ∷ ms) = Fits cfg (length payload) × AllFit cfg ms

abbrev pub on_message : Message → Effect
on_message (kind, payload) = message (op_of kind) payload

abbrev pub deliver_all : Machine → List Message → Machine
deliver_all m [] = m
deliver_all m ((kind, payload) ∷ ms) = deliver_all (delivered m kind payload) ms

messages_lem :
    (cfg : Settings) (ms : List Message) (m : Machine)
    → IsIdle m
    → AllFit cfg ms
    → flat cfg m (server_frames ms) ≡ waits (deliver_all m ms, [])
unfolding needed_in
messages_lem cfg [] m v f = flat_wait 1 cfg m [] (rw v.at_header refl)
messages_lem cfg ((kind, payload) ∷ ms) m v f =
    message_lem cfg kind payload (server_frames ms) m v f.0
    ∙ messages_lem cfg ms (delivered m kind payload)
        (record { at_header = refl; no_fragments = refl; no_bytes = refl; plain = refl }) f.1

handler_of-deliver_all :
    (ms : List Message) (m : Machine)
    → (deliver_all m ms).handler ≡ record m.handler { log = m.handler.log ++ map on_message ms }
handler_of-deliver_all [] m = ground (arith, append-nil m.handler.log)
handler_of-deliver_all ((kind, payload) ∷ ms) m = ground (
  arith,
  handler_of-deliver_all ms (delivered m kind payload),
  append_assoc m.handler.log (message (op_of kind) payload ∷ []) (map on_message ms),
)

-- The loop over all the bytes.
whole_lem :
    (cfg : Settings) (h : Handler) (ms : List Message) (cs : List Bytes)
    → AllFit cfg ms
    → joined cs ≡ server_frames ms
    → flat cfg (new_machine h) (joined cs) ≡ waits (deliver_all (new_machine h) ms, [])
whole_lem cfg h ms cs f e =
    ap (flat cfg (new_machine h)) e
    ∙ messages_lem cfg ms (new_machine h)
        (record { at_header = refl; no_fragments = refl; no_bytes = refl; plain = refl }) f

-- A server's text and binary messages, each in one unmasked frame with its length in the form of RFC
-- 6455, cut into chunks in any way, reach `onMessage` whole, in order and with their types; the
-- parser then asks for more and has no byte left. The lengths stay below 2^31, and within
-- `maxPayloadSize` where it is set. Nothing else happens to the handler.
pub feed_messages :
    (cfg : Settings) (h : Handler) (ms : List Message) (cs : List Bytes)
    → AllFit cfg ms
    → joined cs ≡ server_frames ms
    → (m : Machine) × (feed cfg (new_parser h) cs ≡ waits (m, []))
      × (m.handler ≡ record h { log = h.log ++ map on_message ms })
feed_messages cfg h ms cs f e = (
  deliver_all (new_machine h) ms,
  feed-flat cfg cs (new_parser h) refl (new_parser-IsWaiting cfg h)
        (subst (λ r. ¬ HasFailed r) (sym (whole_lem cfg h ms cs f e)) (λ s. s))
      ∙ whole_lem cfg h ms cs f e,
  handler_of-deliver_all ms (new_machine h),
)
