-- ===== src/WebSocket/Receiver/Flat.antt =====
-- The loop over one buffer: what one `run` does depends on the buffered bytes, not on their chunks.
use undici.Base.{
  ℕ, zero, suc, ◌-◌, ◌≡◌, inl, inr, refl, ap, arith, true, false, none, some, List, Bytes, length,
  ltb, Bool-cases, take, drop, length-drop, [], ◌∷◌, ◌++◌, append-nil, append_assoc, sym,
}
use undici.WebSocket.Consume.{joined, consume_lem, consume}
use undici.WebSocket.Machine.{Settings, Machine, Outcome, next, callback, stop, inflate, throws}
use undici.WebSocket.Receiver.{
  ByteParser, Run, waits, called, stopped, inflating, thrown, spinning, needed_in, handle_in, go_on,
  run_rounds,
}

-- The machine and the bytes that are not consumed yet.
abbrev pub View : Type 0
View = Machine × Bytes

abbrev pub view : ByteParser → View
view p = (p.machine, joined p.buffers)

abbrev pub map_run : {P Q : Type 0} → (P → Q) → Run P → Run Q
map_run f (waits p) = waits (f p)
map_run f (called p) = called (f p)
map_run f (stopped p) = stopped (f p)
map_run f (inflating p b) = inflating (f p) b
map_run f (thrown p) = thrown (f p)
map_run f (spinning p) = spinning (f p)

map_run-go_on :
    {P Q : Type 0} (f : P → Q) (again : Machine → Run P) (at : Machine → P)
    (again' : Machine → Run Q) (o : Outcome)
    → ((m : Machine) → map_run f (again m) ≡ again' m)
    → map_run f (go_on again at o) ≡ go_on again' (λ m. f (at m)) o
map_run-go_on f again at again' (next m) h = h m
map_run-go_on f again at again' (callback m) h = refl
map_run-go_on f again at again' (stop m) h = refl
map_run-go_on f again at again' (inflate m b) h = refl
map_run-go_on f again at again' (throws m) h = refl

pub flat_rounds : ℕ → Settings → Machine → Bytes → Run View
flat_rounds zero cfg m b = spinning (m, b)
flat_rounds (suc rounds) cfg m b =
    let k = needed_in m.state m in
    elim (ltb (length b) k) [
      | true ↦ waits (m, b)
      | false ↦
          go_on (λ m'. flat_rounds rounds cfg m' (drop k b)) (λ m'. (m', drop k b))
            (handle_in m.state cfg m (take k b))
    ]

-- One round of each loop.
module _ (rounds : ℕ) (cfg : Settings) where
  pub run_wait :
      (p : ByteParser)
      → ltb p.byte_offset (needed_in p.machine.state p.machine) ≡ true
      → run_rounds (suc rounds) cfg p ≡ waits p
  unfolding run_rounds
  run_wait p h = rw (h, run_rounds)

  pub run_throw :
      (p : ByteParser)
      → ltb p.byte_offset (needed_in p.machine.state p.machine) ≡ false
      → consume (needed_in p.machine.state p.machine) p.byte_offset p.buffers ≡ none
      → run_rounds (suc rounds) cfg p ≡ thrown p
  unfolding run_rounds
  run_throw p h c = rw (h, c, run_rounds)

  pub run_go :
      (p : ByteParser) {body : Bytes} {n : ℕ} {left : List Bytes}
      → ltb p.byte_offset (needed_in p.machine.state p.machine) ≡ false
      → consume (needed_in p.machine.state p.machine) p.byte_offset p.buffers ≡ some (body, n, left)
      → run_rounds (suc rounds) cfg p
        ≡ go_on
            (λ m. run_rounds rounds cfg (record { buffers = left; byte_offset = n; machine = m }))
            (λ m. record { buffers = left; byte_offset = n; machine = m })
            (handle_in p.machine.state cfg p.machine body)
  unfolding run_rounds
  run_go p h c = rw (h, c, run_rounds)

  pub flat_wait :
      (m : Machine) (b : Bytes)
      → ltb (length b) (needed_in m.state m) ≡ true
      → flat_rounds (suc rounds) cfg m b ≡ waits (m, b)
  unfolding flat_rounds
  flat_wait m b h = rw (h, flat_rounds)

  pub flat_go :
      (m : Machine) (b : Bytes)
      → ltb (length b) (needed_in m.state m) ≡ false
      → flat_rounds (suc rounds) cfg m b
        ≡ go_on
            (λ m'. flat_rounds rounds cfg m' (drop (needed_in m.state m) b))
            (λ m'. (m', drop (needed_in m.state m) b))
            (handle_in m.state cfg m (take (needed_in m.state m) b))
  unfolding flat_rounds
  flat_go m b h = rw (h, flat_rounds)

pub run_none : (cfg : Settings) (p : ByteParser) → run_rounds zero cfg p ≡ spinning p
unfolding run_rounds
run_none cfg p = refl

-- The count of buffered bytes is right.
abbrev pub IsBuffered : ByteParser → Type 0
IsBuffered p = p.byte_offset ≡ length (joined p.buffers)

pub run_rounds-flat_rounds :
    (rounds : ℕ) (cfg : Settings) (p : ByteParser)
    → IsBuffered p
    → map_run view (run_rounds rounds cfg p) ≡ flat_rounds rounds cfg p.machine (joined p.buffers)
unfolding flat_rounds
run_rounds-flat_rounds zero cfg p e = ap (map_run view) (run_none cfg p)
run_rounds-flat_rounds (suc rounds) cfg p e = elim (Bool-cases (ltb p.byte_offset k)) [
  | inl short ↦ rw (
    run_wait rounds cfg p short,
    flat_wait rounds cfg p.machine (joined p.buffers) (rw e at short),
  )
  | inr long ↦
      let (left, taken, rest) = consume_lem k p.byte_offset p.buffers e (ground arith) in
      let o = handle_in p.machine.state cfg p.machine (take k (joined p.buffers)) in
      rw
        (
          run_go rounds cfg p long taken,
          flat_go rounds cfg p.machine (joined p.buffers) (rw e at long),
          ← rest,
        )
        (map_run-go_on view _ _ _ o (λ m.
          run_rounds-flat_rounds rounds cfg
            (record { buffers = left; byte_offset = p.byte_offset - k; machine = m })
            (omega (arith, e, ap length rest, length-drop k (joined p.buffers)))))
]
  where
    k : ℕ
    k = needed_in p.machine.state p.machine

-- Where `run` asks for more bytes, the parser's count is right and there are too few for a round.
abbrev pub Counted : Run ByteParser → Type 0
Counted (waits p) = IsBuffered p × (ltb p.byte_offset (needed_in p.machine.state p.machine) ≡ true)
Counted _ = Unit

Counted-go_on :
    (again : Machine → Run ByteParser) (at : Machine → ByteParser) (o : Outcome)
    → ((m : Machine) → Counted (again m))
    → Counted (go_on again at o)
Counted-go_on again at (next m) k = k m
Counted-go_on again at (callback m) k = tt
Counted-go_on again at (stop m) k = tt
Counted-go_on again at (inflate m b) k = tt
Counted-go_on again at (throws m) k = tt

pub run_rounds-Counted :
    (rounds : ℕ) (cfg : Settings) (p : ByteParser)
    → IsBuffered p
    → Counted (run_rounds rounds cfg p)
run_rounds-Counted zero cfg p e = rw (run_none cfg p) tt
run_rounds-Counted (suc rounds) cfg p e =
    let k = needed_in p.machine.state p.machine in
    elim (Bool-cases (ltb p.byte_offset k)) [
      | inl short ↦ rw (run_wait rounds cfg p short) (e, short)
      | inr long ↦
          let (left, taken, rest) = consume_lem k p.byte_offset p.buffers e (ground arith) in
          let still : p.byte_offset - k ≡ length (joined left) =
            omega (arith, e, ap length rest, length-drop k (joined p.buffers)) in
          rw (run_go rounds cfg p long taken) (
            Counted-go_on _ _ (handle_in p.machine.state cfg p.machine (take k (joined p.buffers)))
              (λ m. run_rounds-Counted rounds cfg _ still))
    ]

pub joined-concat : (bs : List Bytes) (c : Bytes) → joined (bs ++ (c ∷ [])) ≡ joined bs ++ c
joined-concat [] c = append-nil c
joined-concat (b ∷ bs) c = rw (joined-concat bs c) (sym (append_assoc b (joined bs) c))
