-- ===== src/WebSocket/Closing.antt =====
-- `closeWebSocketConnection` of lib/web/websocket/connection.js: what it leaves of a connection.
use undici.Base.{ℕ, ◌≡◌, refl, arith, Bool, Option, Bytes, ok, inl, inr, ◌⊎◌}
use undici.WebSocket.Connection.{
  ReadyState, connecting, open_state, closing, closed, Handler, start_closing, close_in,
  close_connection,
}
use undici.WebSocket.Receiver.Invariant.{
  IsCoherent, start_closing-IsCoherent, drop_connection-IsCoherent,
}

-- The Close frame is accounted for, and the connection is closing, or was closed before.
pub record IsClosing (h h' : Handler) : Type 0 where
  pub coherent : IsCoherent h'
  pub ended : (h'.ready_state ≡ closing) ⊎ ((h.ready_state ≡ closed) × (h' ≡ h))

ready_state-start_closing :
    (h : Handler) (code : Option ℕ) (reason : Bytes)
    → (start_closing h code reason).ready_state ≡ closing
unfolding start_closing
ready_state-start_closing h code reason = ground arith

close_in-IsClosing :
    (state : ReadyState) (h : Handler) (code : Option ℕ) (reason : Bytes)
    → h.ready_state ≡ state
    → IsCoherent h
    → IsClosing h (close_in state h code reason)
unfolding close_in
close_in-IsClosing closing h code reason e v = record { coherent = v; ended = inl e }
close_in-IsClosing closed h code reason e v = record { coherent = v; ended = inr (e, refl) }
close_in-IsClosing connecting h code reason e v =
    let dropped = drop_connection-IsCoherent h v in
    record {
      coherent = record { one_close = dropped.one_close; open_unclosed = λ c. cc };
      ended = inl refl;
    }
close_in-IsClosing open_state h code reason e v = record {
  coherent = start_closing-IsCoherent h code reason v;
  ended = inl (ready_state-start_closing h code reason);
}

-- Where `closeWebSocketConnection` does not throw, in whatever state the connection is and with or
-- without the validation, the connection is closing behind it, or was closed and is as before; and the
-- Close frame stays coherent with `closeState` (IsCoherent): written once if one was sent, else never.
pub close_connection-IsClosing :
    (h : Handler) (code : Option ℕ) (reason : Bytes) (validate : Bool) {h' : Handler}
    → IsCoherent h
    → close_connection h code reason validate ≡ ok h'
    → IsClosing h h'
unfolding close_connection
close_connection-IsClosing h code reason validate v e =
    ground (arith, close_in-IsClosing h.ready_state h code reason refl v)
