-- ===== src/Socks5/Reply.antt =====
-- The messages of the proxy, however its bytes are cut into chunks.
use undici.Base.{
  ◌<◌, ◌≡◌, inl, inr, refl, sym, ap, ◌∙◌, arith, List, [], ◌∷◌, ◌++◌, Bytes, length, length-append,
  append_assoc, append-nil, lt_or_eq_or_gt,
}
use undici.WebSocket.Consume.{joined}
use undici.Socks5.{Client, done, dispatch, settle, on_data}

-- the events on 'data', one after another
unfoldable pub on_chunks : Client → List Bytes → Client
on_chunks c [] = c
on_chunks c (chunk ∷ chunks) = on_chunks (on_data c chunk) chunks

abbrev pub with_buffer : Client → Bytes → Client
with_buffer c bytes = record c { buffer = bytes }

-- Before the message `m` is whole, nothing happens; and what it leads to is quiet.
pub record Answers (c : Client) (m : Bytes) (r : Client) : Type 0 where
  pub early :
      (x y : Bytes)
      → x ++ y ≡ m
      → length x < length m
      → dispatch c.state (with_buffer c x) ≡ done (with_buffer c x)
  pub whole : settle (dispatch c.state (with_buffer c m)) ≡ r
  pub quiet : on_data r [] ≡ r

on_chunks-quiet :
    (r : Client) (chunks : List Bytes)
    → on_data r [] ≡ r
    → joined chunks ≡ []
    → on_chunks r chunks ≡ r
unfolding on_chunks
on_chunks-quiet r [] q e = refl
on_chunks-quiet r ([] ∷ chunks) q e = rw q (on_chunks-quiet r chunks q e)
on_chunks-quiet r ((x ∷ xs) ∷ chunks) q e = absurd (omega (arith, ap length e))

eq-nil : (xs : Bytes) → length xs ≡ 0 → xs ≡ []
eq-nil [] h = refl
eq-nil (x ∷ xs) h = absurd (omega arith)

on_data-early :
    (c : Client) (x chunk y m : Bytes) (r : Client)
    → Answers c m r
    → (x ++ chunk) ++ y ≡ m
    → length (x ++ chunk) < length m
    → on_data (with_buffer c x) chunk ≡ with_buffer c (x ++ chunk)
unfolding on_data settle
on_data-early c x chunk y m r v e l = ap settle (v.early (x ++ chunk) y e l)

on_data-whole :
    (c : Client) (x chunk m : Bytes) (r : Client)
    → Answers c m r
    → x ++ chunk ≡ m
    → on_data (with_buffer c x) chunk ≡ r
unfolding on_data
on_data-whole c x chunk m r v e = ap (λ z. settle (dispatch c.state (with_buffer c z))) e ∙ v.whole

-- A message that comes in any chunks does what it does in one.
pub on_chunks-Answers :
    (c : Client) (x m : Bytes) (r : Client) (chunks : List Bytes)
    → Answers c m r
    → x ++ joined chunks ≡ m
    → length x < length m
    → on_chunks (with_buffer c x) chunks ≡ r
unfolding on_chunks
on_chunks-Answers c x m r [] v e l = absurd (omega (arith, ap length e, length-append x []))
on_chunks-Answers c x m r (chunk ∷ chunks) v e l =
    let e' : (x ++ chunk) ++ joined chunks ≡ m = append_assoc x chunk (joined chunks) ∙ e in
    let sizes = ap length e' ∙ refl in
    elim (lt_or_eq_or_gt (length (x ++ chunk)) (length m)) [
      | inl short ↦
          rw (on_data-early c x chunk (joined chunks) m r v e' short)
            (on_chunks-Answers c (x ++ chunk) m r chunks v e' short)
      | inr full ↦
          let nothing : joined chunks ≡ [] =
            eq-nil (joined chunks)
              (omega (arith, full, ap length e', length-append (x ++ chunk) (joined chunks))) in
          let same : x ++ chunk ≡ m =
            sym (append-nil (x ++ chunk)) ∙ ap (λ y. (x ++ chunk) ++ y) (sym nothing) ∙ e' in
          rw (on_data-whole c x chunk m r v same) (on_chunks-quiet r chunks v.quiet nothing)
    ]
