-- ===== src/Base/Split.antt =====
-- `String.prototype.split` and `Array.prototype.join` with a separator of one character.
use Prim.Native.Nat.{ℕ}
use mathlib.Core.Path.{◌≡◌, refl, ap, ◌∙◌}
use mathlib.Core.Bool.{false}
use mathlib.Core.List.{List, [], ◌∷◌, ◌++◌}
use native.Mathlib.Omega.{arith}
use undici.Base.Lists.{Bytes}
use undici.Base.Tests.{◌==◌, if◌then◌else◌}

-- A character in front of the first part.
abbrev pub cons_first : ℕ → List Bytes → List Bytes
cons_first c [] = (c ∷ []) ∷ []
cons_first c (part ∷ parts) = (c ∷ part) ∷ parts

unfoldable pub split : ℕ → Bytes → List Bytes
split sep [] = [] ∷ []
split sep (c ∷ cs) = let rest = split sep cs in if c == sep then [] ∷ rest else cons_first c rest

unfoldable pub join : ℕ → List Bytes → Bytes
join sep [] = []
join sep (part ∷ []) = part
join sep (part ∷ next ∷ parts) = part ++ (sep ∷ join sep (next ∷ parts))

-- The separator is not in a part.
abbrev pub Lacks : ℕ → Bytes → Type 0
Lacks sep [] = Unit
Lacks sep (c ∷ cs) = ((c == sep) ≡ false) × Lacks sep cs

abbrev pub AllLack : ℕ → List Bytes → Type 0
AllLack sep [] = Unit
AllLack sep (part ∷ parts) = Lacks sep part × AllLack sep parts

split-Lacks : (sep : ℕ) (part : Bytes) → Lacks sep part → split sep part ≡ part ∷ []
unfolding split
split-Lacks sep [] h = refl
split-Lacks sep (c ∷ cs) (h, hs) = rw (h, split-Lacks sep cs hs)

split-append :
    (sep : ℕ) (part rest : Bytes)
    → Lacks sep part
    → split sep (part ++ (sep ∷ rest)) ≡ part ∷ split sep rest
unfolding split
split-append sep [] rest h = ground arith
split-append sep (c ∷ cs) rest (h, hs) = rw (h, split-append sep cs rest hs)

-- What was joined splits into the same parts, where the separator is in none of them.
pub split-join :
    (sep : ℕ) (part : Bytes) (parts : List Bytes)
    → AllLack sep (part ∷ parts)
    → split sep (join sep (part ∷ parts)) ≡ part ∷ parts
unfolding join
split-join sep part [] (h, _) = split-Lacks sep part h
split-join sep part (next ∷ parts) (h, hs) =
    split-append sep part (join sep (next ∷ parts)) h ∙ ap (◌∷◌ part) (split-join sep next parts hs)
