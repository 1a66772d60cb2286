-- ===== src/WebSocket/Receiver/Fuel.antt =====
-- The rounds that `run` is given are enough: each round consumes bytes, or leaves READ_DATA.
use undici.Base.{
  ℕ, zero, suc, ◌+◌, ◌*◌, ◌≤◌, ◌<◌, ◌≡◌, inl, inr, refl, ◌∙◌, arith, false, ◌++◌, Bytes, length,
  ltb, Bool-cases, take, drop, length-drop, length-append, take-append, drop-append,
  take-length-append, drop-length-append,
}
use undici.WebSocket.Machine.{
  ParserState, info, payload_length_16, payload_length_64, read_data, Settings, Machine, Outcome,
  next, callback, stop, inflate, throws,
}
use undici.WebSocket.Payload.{on_payload, add_fragment, finish_fragment, end_control}
use undici.WebSocket.Receiver.{
  Run, waits, called, stopped, inflating, thrown, spinning, needed_in, handle_in, enough, go_on,
}
use undici.WebSocket.Receiver.Flat.{View, flat_rounds, flat_wait, flat_go}

abbrev pub weight : ParserState → ℕ
weight read_data = 1
weight _ = 0

-- What falls from round to round.
abbrev pub measure : Machine → Bytes → ℕ
measure m b = 2 * length b + weight m.state

on_payload_next :
    (cfg : Settings) (m : Machine) (body : Bytes) {m' : Machine}
    → on_payload cfg m body ≡ next m'
    → m'.state ≡ info
unfolding on_payload add_fragment finish_fragment end_control
on_payload_next cfg m body h = ground arith

weight-le : (s : ParserState) → weight s ≤ 1
weight-le read_data = omega arith
weight-le _ = omega arith

measure_in :
    (s : ParserState) (cfg : Settings) (m : Machine) (b : Bytes) {m' : Machine}
    → ltb (length b) (needed_in s m) ≡ false
    → handle_in s cfg m (take (needed_in s m) b) ≡ next m'
    → 2 * length (drop (needed_in s m) b) + weight m'.state < 2 * length b + weight s
unfolding needed_in handle_in
measure_in info cfg m b {m'} long h = ground (arith, weight-le m'.state, length-drop 2 b)
measure_in payload_length_16 cfg m b {m'} long h =
    ground (arith, weight-le m'.state, length-drop 2 b)
measure_in payload_length_64 cfg m b {m'} long h =
    ground (arith, weight-le m'.state, length-drop 8 b)
measure_in read_data cfg m b {m'} long h =
    ground
      (arith, on_payload_next cfg m (take m.payload_length b) h, length-drop m.payload_length b)

go_on_cong :
    {P : Type 0} (again again' : Machine → Run P) (at : Machine → P) (o : Outcome)
    → ((m : Machine) → o ≡ next m → again m ≡ again' m)
    → go_on again at o ≡ go_on again' at o
go_on_cong again again' at (next m) h = h m refl
go_on_cong again again' at (callback m) h = refl
go_on_cong again again' at (stop m) h = refl
go_on_cong again again' at (inflate m b) h = refl
go_on_cong again again' at (throws m) h = refl

-- More rounds than the measure make no difference.
pub rounds_enough :
    (n k : ℕ) (cfg : Settings) (m : Machine) (b : Bytes)
    → measure m b < n
    → measure m b < k
    → flat_rounds n cfg m b ≡ flat_rounds k cfg m b
rounds_enough zero k cfg m b h h' = absurd (omega arith)
rounds_enough (suc n) zero cfg m b h h' = absurd (omega arith)
rounds_enough (suc n) (suc k) cfg m b h h' =
    elim (Bool-cases (ltb (length b) (needed_in m.state m))) [
      | inl short ↦ rw (flat_wait n cfg m b short, flat_wait k cfg m b short)
      | inr long ↦
          rw (flat_go n cfg m b long, flat_go k cfg m b long)
            (go_on_cong _ _ _ _ (λ m' e.
              let less = measure_in m.state cfg m b long e in
              rounds_enough n k cfg m' (drop (needed_in m.state m) b) (omega (arith, less))
                (omega (arith, less))))
    ]

-- The loop with rounds enough for the bytes.
abbrev pub flat : Settings → Machine → Bytes → Run View
flat cfg m b = flat_rounds (enough (length b)) cfg m b

pub measure-lt-enough : (m : Machine) (b : Bytes) → measure m b < enough (length b)
measure-lt-enough m b = omega (arith, weight-le m.state)

-- The run over `b` is continued over `c`.
abbrev pub extend : Settings → Bytes → Run View → Run View
extend cfg c (waits (m, b)) = flat cfg m (b ++ c)
extend cfg c (called (m, b)) = called (m, b ++ c)
extend cfg c (stopped (m, b)) = stopped (m, b ++ c)
extend cfg c (inflating (m, b) body) = inflating (m, b ++ c) body
extend cfg c (thrown (m, b)) = thrown (m, b ++ c)
extend cfg c (spinning (m, b)) = spinning (m, b ++ c)

extend-go_on :
    (cfg : Settings) (c left : Bytes) (again again' : Machine → Run View) (o : Outcome)
    → ((m : Machine) → o ≡ next m → again' m ≡ extend cfg c (again m))
    → go_on again' (λ m. (m, left ++ c)) o ≡ extend cfg c (go_on again (λ m. (m, left)) o)
extend-go_on cfg c left again again' (next m) h = h m refl
extend-go_on cfg c left again again' (callback m) h = refl
extend-go_on cfg c left again again' (stop m) h = refl
extend-go_on cfg c left again again' (inflate m b) h = refl
extend-go_on cfg c left again again' (throws m) h = refl

pub flat-append :
    (rounds : ℕ) (cfg : Settings) (m : Machine) (b c : Bytes)
    → measure m b < rounds
    → flat cfg m (b ++ c) ≡ extend cfg c (flat_rounds rounds cfg m b)
flat-append zero cfg m b c h = absurd (omega arith)
flat-append (suc rounds) cfg m b c h = elim (Bool-cases (ltb (length b) k)) [
  | inl short ↦ rw (flat_wait rounds cfg m b short)
  | inr long ↦
      let fits : k ≤ length b = ground arith in
      rounds_enough total (suc total) cfg m (b ++ c) (measure-lt-enough m (b ++ c))
        (omega (arith, measure-lt-enough m (b ++ c)))
      ∙ rw
          (
            flat_go rounds cfg m b long,
            flat_go total cfg m (b ++ c) (ground (arith, length-append b c)),
            take-append k b c fits,
            drop-append k b c fits,
          )
          (extend-go_on cfg c (drop k b) (λ m'. flat_rounds rounds cfg m' (drop k b))
            (λ m'. flat_rounds total cfg m' (drop k b ++ c)) (handle_in m.state cfg m (take k b))
            (λ m' e.
              let less = measure_in m.state cfg m b long e in
              let sum = length-append (drop k b) c in
              rounds_enough total (enough (length (drop k b ++ c))) cfg m' (drop k b ++ c)
                (omega (arith, less, sum, length-append b c, weight-le m.state))
                (measure-lt-enough m' (drop k b ++ c))
              ∙ flat-append rounds cfg m' (drop k b) c (omega (arith, less))))
]
  where
    k : ℕ
    k = needed_in m.state m

    total : ℕ
    total = enough (length (b ++ c))

-- With rounds enough the loop does not run out of them.
abbrev pub IsSpinning : {P : Type 0} → Run P → Type 0
IsSpinning (spinning p) = Unit
IsSpinning _ = ⊥

not-IsSpinning_on :
    (again : Machine → Run View) (at : Machine → View) (o : Outcome)
    → ((m : Machine) → o ≡ next m → ¬ IsSpinning (again m))
    → ¬ IsSpinning (go_on again at o)
not-IsSpinning_on again at (next m) h = h m refl
not-IsSpinning_on again at (callback m) h = λ s. s
not-IsSpinning_on again at (stop m) h = λ s. s
not-IsSpinning_on again at (inflate m b) h = λ s. s
not-IsSpinning_on again at (throws m) h = λ s. s

pub flat-not-IsSpinning :
    (rounds : ℕ) (cfg : Settings) (m : Machine) (b : Bytes)
    → measure m b < rounds
    → ¬ IsSpinning (flat_rounds rounds cfg m b)
flat-not-IsSpinning zero cfg m b h = absurd (omega arith)
flat-not-IsSpinning (suc rounds) cfg m b h =
    elim (Bool-cases (ltb (length b) (needed_in m.state m))) [
      | inl short ↦ rw (flat_wait rounds cfg m b short) (λ s. s)
      | inr long ↦ rw (flat_go rounds cfg m b long) (
          not-IsSpinning_on _ _ _ (λ m' e.
            let less = measure_in m.state cfg m b long e in
            flat-not-IsSpinning rounds cfg m' (drop (needed_in m.state m) b) (omega (arith, less))))
    ]

-- A round that goes on, on exactly the bytes that it needs: the equation of the loop without fuel.
pub flat-next :
    (cfg : Settings) (m : Machine) (body rest : Bytes) {m' : Machine}
    → length body ≡ needed_in m.state m
    → handle_in m.state cfg m body ≡ next m'
    → flat cfg m (body ++ rest) ≡ flat cfg m' rest
flat-next cfg m body rest {m'} n e =
    let long : ltb (length (body ++ rest)) (needed_in m.state m) ≡ false =
      ground (arith, n, length-append body rest) in
    let less =
      measure_in m.state cfg m (body ++ rest) {m' = m'} long
        (rw (← n, take-length-append body rest) e) in
    let left : length (drop (needed_in m.state m) (body ++ rest)) ≡ length rest =
      rw (← n, drop-length-append body rest) in
    flat_go (2 * length (body ++ rest) + 1) cfg m (body ++ rest) long
    ∙ rw (← n, take-length-append body rest, drop-length-append body rest, e)
        (rounds_enough (2 * length (body ++ rest) + 1) (enough (length rest)) cfg m' rest
          (omega (arith, less, left, weight-le m.state)) (measure-lt-enough m' rest))
