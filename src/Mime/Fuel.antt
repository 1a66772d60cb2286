-- ===== src/Mime/Fuel.antt =====
-- The loop of `parseMIMEType` in lib/web/fetch/data-url.js ends: each round takes a character or more.
use undici.Base.{
  ℕ, zero, suc, ◌≡◌, ◌≤◌, refl, arith, Option, none, some, List, [], ◌∷◌, Bytes, length, ◌==◌,
  if_elim,
}
use undici.Infra.{collect_sequence}
use undici.Infra.Left.{length-collect_fast, length-collect_sequence}
use undici.Mime.{
  is_http_white_space, goes_on, collect_quoted, take_value, end_name, next_parameter,
  parameter_loop,
}

length-collect_quoted : (text : Bytes) → length (collect_quoted text).1 ≤ length text
unfolding collect_quoted
length-collect_quoted [] = omega arith
length-collect_quoted (c ∷ []) =
    if_elim (λ (r : Bytes × Bytes). length r.1 ≤ 1) (c == 0x22) (omega arith) (omega arith)
length-collect_quoted (c ∷ d ∷ text) =
    if_elim (λ (r : Bytes × Bytes). length r.1 ≤ suc (suc (length text))) (c == 0x22) (omega arith)
      (if_elim (λ (r : Bytes × Bytes). length r.1 ≤ suc (suc (length text))) (c == 0x5C)
        (omega (arith, length-collect_quoted text))
        (omega (arith, length-collect_quoted (d ∷ text))))

-- what a round leaves has this length at most
abbrev Leaves : ℕ → Option (List (Bytes × Bytes) × Bytes) → Type 0
Leaves n none = Unit
Leaves n (some (ps, rest)) = length rest ≤ n

take_value-Leaves :
    (n : ℕ) (ps : List (Bytes × Bytes)) (name text : Bytes)
    → length text ≤ n
    → Leaves n (take_value ps name text)
unfolding take_value
take_value-Leaves n ps name [] h = tt
take_value-Leaves n ps name (c ∷ text) h =
    if_elim (Leaves n) (c == 0x22)
      (omega
        (arith, h, length-collect_fast 0x3B (collect_quoted text).1, length-collect_quoted text))
      (omega (arith, h, length-collect_fast 0x3B (c ∷ text)))

end_name-Leaves :
    (n : ℕ) (ps : List (Bytes × Bytes)) (name text : Bytes)
    → length text ≤ n
    → Leaves n (end_name ps name text)
unfolding end_name
end_name-Leaves n ps name [] h = tt
end_name-Leaves n ps name (c ∷ text) h =
    if_elim (Leaves n) (c == 0x3B) h (take_value-Leaves n ps name text (omega (arith, h)))

next_parameter-Leaves :
    (ps : List (Bytes × Bytes)) (text : Bytes) → Leaves (length text) (next_parameter ps text)
unfolding next_parameter
next_parameter-Leaves ps text =
    let behind = (collect_sequence is_http_white_space text).1 in
    end_name-Leaves (length text) ps _ (collect_sequence goes_on behind).1 (
      omega (
        arith,
        length-collect_sequence goes_on behind,
        length-collect_sequence is_http_white_space text,
      ))

later_rounds :
    (n k l : ℕ) (ps : List (Bytes × Bytes)) (o : Option (List (Bytes × Bytes) × Bytes))
    → Leaves n o
    → ((ps' : List (Bytes × Bytes)) (rest : Bytes)
        → length rest ≤ n
        → parameter_loop k ps' rest ≡ parameter_loop l ps' rest)
    → ◌≡◌ {A = List (Bytes × Bytes)}
        (elim o [ none ↦ ps | some (ps', rest) ↦ parameter_loop k ps' rest ])
        (elim o [ none ↦ ps | some (ps', rest) ↦ parameter_loop l ps' rest ])
later_rounds n k l ps none h f = refl
later_rounds n k l ps (some (ps', rest)) h f = f ps' rest h

-- A round for each character is enough for the parameters.
parameter_loop_enough :
    (k l : ℕ) (ps : List (Bytes × Bytes)) (text : Bytes)
    → length text ≤ k
    → length text ≤ l
    → parameter_loop k ps text ≡ parameter_loop l ps text
unfolding parameter_loop
parameter_loop_enough k l ps [] h g = refl
parameter_loop_enough zero l ps (c ∷ text) h g = absurd (omega (arith, h))
parameter_loop_enough (suc k) zero ps (c ∷ text) h g = absurd (omega (arith, g))
parameter_loop_enough (suc k) (suc l) ps (c ∷ text) h g =
    later_rounds (length text) k l ps (next_parameter ps text) (next_parameter-Leaves ps text)
      (λ ps' rest m. parameter_loop_enough k l ps' rest (omega (arith, h, m)) (omega (arith, g, m)))
