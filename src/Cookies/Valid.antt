-- ===== src/Cookies/Valid.antt =====
-- What the tests of `stringify` in lib/web/cookies/util.js leave in the parts of a header.
use undici.Base.{
  ℕ, zero, suc, ◌+◌, ◌*◌, ◌-◌, ◌/◌, ◌%◌, ◌^◌, ◌≡◌, ◌≤◌, ◌<◌, refl, sym, ap, ◌∙◌, subst, arith, Bool,
  true, false, ◌&&◌, ◌||◌, not, [], ◌∷◌, ◌++◌, Bytes, Result, ok, err, codes, take, get_or, length,
  ltb, ◌==◌, if◌then◌else◌, Bool-cases, inl, inr, equal, length-append,
}
use native.Mathlib.Omega.{pow_step}
use undici.Cookies.{
  CookieError, invalid_name, invalid_value, invalid_path, invalid_domain, is_name_fault,
  is_value_fault, is_path_fault, is_letter_or_digit, validate_cookie_name, validate_octets,
  validate_cookie_value, validate_cookie_path, validate_labels, validate_cookie_domain, digits,
}
use undici.Cookies.Text.{is_part, is_solid, differs}
use undici.Base.All.{all, all_imp, all-append}
use undici.Cookies.Parse.{number_of, is_digit}

-- a test that passed was not an error
passed :
    (b : Bool) (e : CookieError) (r : Result CookieError (Unit {0}))
    → (if b then err e else r) ≡ ok tt
    → (b ≡ false) × (r ≡ ok tt)
passed true e r h = absurd (ground (arith, h))
passed false e r h = (refl, h)

-- a character of a name
abbrev pub is_name_char : ℕ → Bool
is_name_char c = is_part c && (is_solid c && differs 0x3D c)

name_char : (c : ℕ) → is_name_fault c ≡ false → is_name_char c ≡ true
name_char c h = ground (arith, h)

pub validate_cookie_name-all :
    (name : Bytes) → validate_cookie_name name ≡ ok tt → all is_name_char name ≡ true
unfolding validate_cookie_name all
validate_cookie_name-all [] h = refl
validate_cookie_name-all (c ∷ name) h =
    let (e, k) = passed (is_name_fault c) invalid_name (validate_cookie_name name) h in
    rw (name_char c e) (validate_cookie_name-all name k)

abbrev pub is_value_char : ℕ → Bool
is_value_char c = is_part c && is_solid c

value_char : (c : ℕ) → is_value_fault c ≡ false → is_value_char c ≡ true
value_char c h = ground (arith, h)

validate_octets-all :
    (value : Bytes) → validate_octets value ≡ ok tt → all is_value_char value ≡ true
unfolding validate_octets all
validate_octets-all [] h = refl
validate_octets-all (c ∷ value) h =
    let (e, k) = passed (is_value_fault c) invalid_value (validate_octets value) h in
    rw (value_char c e) (validate_octets-all value k)

pub validate_cookie_path-all :
    (path : Bytes) → validate_cookie_path path ≡ ok tt → all is_part path ≡ true
unfolding validate_cookie_path all
validate_cookie_path-all [] h = refl
validate_cookie_path-all (c ∷ path) h =
    let (e, k) = passed (is_path_fault c) invalid_path (validate_cookie_path path) h in
    let f : is_part c ≡ true = ground (arith, e) in rw f (validate_cookie_path-all path k)

-- a text but for its last character
last_split :
    (value : Bytes)
    → 0 < length value
    → value ≡ take (length value - 1) value ++ (get_or value (length value - 1) 0 ∷ [])
last_split [] h = absurd (omega (arith, h))
last_split (c ∷ []) h = refl
last_split (c ∷ d ∷ value) h =
    let less : suc (suc (length value)) - 1 ≡ suc (length value) = omega arith in
    let less' : suc (length value) - 1 ≡ length value = omega arith in
    rw less (
      ap (◌∷◌ c) (
        subst (λ i. d ∷ value ≡ take i (d ∷ value) ++ (get_or (d ∷ value) i 0 ∷ [])) less'
          (last_split (d ∷ value) (omega arith))))

quote_char : (c : ℕ) → (c == 0x22) ≡ true → is_value_char c ≡ true
quote_char c h = ground (arith, h)

not_both : (n : ℕ) (b : Bool) → (n == 0 || not b) ≡ false → (0 < n) × (b ≡ true)
not_both n true h = (ground (arith, h), refl)
not_both n false h = absurd (ground (arith, h))

-- the value behind a quotation mark
abbrev quoted_value : Bytes → Result CookieError (Unit {0})
quoted_value value =
    if length value == 0 || not (get_or value (length value - 1) 0 == 0x22)
    then err invalid_value
    else validate_octets (take (length value - 1) value)

pub validate_cookie_value-all :
    (value : Bytes) → validate_cookie_value value ≡ ok tt → all is_value_char value ≡ true
unfolding validate_cookie_value all
validate_cookie_value-all [] h = refl
validate_cookie_value-all (c ∷ value) h = elim (Bool-cases (c == 0x22)) [
  | inl e ↦
      let (f, k) =
        passed (length value == 0 || not (get_or value (length value - 1) 0 == 0x22)) invalid_value
          (validate_octets (take (length value - 1) value))
          (ap (λ b. if b then quoted_value value else validate_octets (c ∷ value)) (sym e) ∙ h) in
      let first : is_value_char c ≡ true = quote_char c e in
      let last : is_value_char (get_or value (length value - 1) 0) ≡ true =
        quote_char _ (not_both _ _ f).1 in
      rw first (
        subst (λ v. all is_value_char v ≡ true) (sym (last_split value (not_both _ _ f).0))
          (all-append is_value_char (take (length value - 1) value)
            (get_or value (length value - 1) 0 ∷ [])
            (validate_octets-all (take (length value - 1) value) k) (rw last refl)))
  | inr e ↦
      validate_octets-all (c ∷ value)
        (ap (λ b. if b then quoted_value value else validate_octets (c ∷ value)) (sym e) ∙ h)
]

abbrev pub is_domain_char : ℕ → Bool
is_domain_char c = is_letter_or_digit c || (c == 0x2D || c == 0x2E)

validate_labels-all :
    (n previous : ℕ) (domain : Bytes)
    → validate_labels n previous domain ≡ ok tt
    → all is_domain_char domain ≡ true
unfolding validate_labels all
validate_labels-all n previous [] h = refl
validate_labels-all n previous (c ∷ domain) h = elim (Bool-cases (c == 0x2E)) [
  | inl e ↦
      let (_, k) = passed (n == 0) invalid_domain _ (rw e at h) in
      let (_, l) = passed (previous == 0x2D) invalid_domain _ k in
      let f : is_domain_char c ≡ true = ground (arith, e) in rw f (validate_labels-all 0 c domain l)
  | inr e ↦
      let (_, k) = passed (n == 0 && not (is_letter_or_digit c)) invalid_domain _ (rw e at h) in
      let (g, l) = passed (not (is_letter_or_digit c) && not (c == 0x2D)) invalid_domain _ k in
      let (_, m) = passed (ltb 63 (suc n)) invalid_domain _ l in
      let f : is_domain_char c ≡ true = ground (arith, g) in
      rw f (validate_labels-all (suc n) c domain m)
]

-- a domain does not begin with a dot
pub validate_labels-first :
    (c : ℕ) (domain : Bytes) → validate_labels 0 0 (c ∷ domain) ≡ ok tt → (c == 0x2E) ≡ false
unfolding validate_labels
validate_labels-first c domain h = elim (Bool-cases (c == 0x2E)) [
  | inl e ↦ absurd (ground (arith, (rw e at h)))
  | inr e ↦ e
]

-- digits
pub digits-all : (k n : ℕ) → all is_digit (digits k n) ≡ true
unfolding digits all
digits-all zero n = refl
digits-all (suc k) n = elim (Bool-cases (ltb n 10)) [
  | inl e ↦ let f : is_digit (48 + n) ≡ true = ground (arith, e) in rw (e, f) refl
  | inr e ↦
      let f : is_digit (48 + n % 10) ≡ true = ground arith in
      rw e (
        all-append is_digit (digits k (n / 10)) ((48 + n % 10) ∷ []) (digits-all k (n / 10))
          (rw f refl))
]

number_of-append :
    (n : ℕ) (xs : Bytes) (d : ℕ) → number_of n (xs ++ (d ∷ [])) ≡ number_of n xs * 10 + (d - 48)
unfolding number_of
number_of-append n [] d = refl
number_of-append n (x ∷ xs) d = number_of-append (n * 10 + (x - 48)) xs d

pub number_of-digits : (k n : ℕ) → n < 10 ^ k → 0 < k → number_of 0 (digits k n) ≡ n
unfolding digits number_of
number_of-digits zero n h p = absurd (omega (arith, p))
number_of-digits (suc zero) n h p =
    let one : ltb n 10 ≡ true = ground (arith, h) in rw one (omega arith)
number_of-digits (suc (suc k)) n h p = elim (Bool-cases (ltb n 10)) [
  | inl e ↦ rw e (omega arith)
  | inr e ↦
      let below : n / 10 < 10 ^ suc k = omega (arith, h, pow_step 10 (suc k)) in
      let rest = number_of-digits (suc k) (n / 10) below (omega arith) in
      rw e (number_of-append 0 (digits (suc k) (n / 10)) (48 + n % 10) ∙ (omega (arith, rest)))
]

pub length-digits : (k n : ℕ) → length (digits k n) ≤ k
unfolding digits
length-digits zero n = omega arith
length-digits (suc k) n = elim (Bool-cases (ltb n 10)) [
  | inl e ↦ rw e (omega arith)
  | inr e ↦ rw e (
      omega
        (arith, length-append (digits k (n / 10)) ((48 + n % 10) ∷ []), length-digits k (n / 10)))
]

pub domain_char-value : (c : ℕ) → is_domain_char c ≡ true → is_value_char c ≡ true
domain_char-value c h = ground (arith, h)

abbrev long_domain : Bytes → Result CookieError (Unit {0})
long_domain domain =
    if ltb 255 (length domain) then err invalid_domain else validate_labels 0 0 domain

-- a domain that passed, but for a single space
pub validate_cookie_domain-labels :
    (domain : Bytes)
    → equal domain (codes " ") ≡ false
    → validate_cookie_domain domain ≡ ok tt
    → (length domain ≤ 255) × (validate_labels 0 0 domain ≡ ok tt)
unfolding validate_cookie_domain
validate_cookie_domain-labels domain e h =
    let (f, k) =
      passed (ltb 255 (length domain)) invalid_domain (validate_labels 0 0 domain)
        (ap (λ b. if b then ok tt else long_domain domain) (sym e) ∙ h) in
    (ground (arith, f), k)

pub validate_cookie_domain-all :
    (domain : Bytes) → validate_labels 0 0 domain ≡ ok tt → all is_value_char domain ≡ true
validate_cookie_domain-all domain h =
    all_imp is_domain_char is_value_char domain domain_char-value (validate_labels-all 0 0 domain h)
