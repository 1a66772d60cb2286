-- ===== src/Cookies/Attributes.antt =====
-- The parts of `stringify` in lib/web/cookies/util.js, each taken by `parseUnparsedAttributes` of parse.js.
use undici.Base.{
  ℕ, suc, ◌+◌, ◌^◌, ◌≡◌, ◌≤◌, ◌<◌, refl, sym, ap, ap₂, ◌∙◌, subst, arith, Bool, true, false, ◌&&◌,
  not, List, [], Option, none, some, ◌∷◌, ◌++◌, Bytes, Result, ok, err, bind-eq-ok, codes, length,
  ltb, ◌==◌, equal, if◌then◌else◌, Bool-cases, inl, inr, length-append, ◌/◌, ◌%◌,
}
use undici.Date.Calendar.{UtcDate}
use undici.Cookies.{
  Cookie, CookieError, Age, SameSite, strict, lax, no_restriction, trim, trim_start, trim_end,
  if_true, max_age_part, domain_part, path_part, same_site_part, validate_cookie_path,
  validate_cookie_domain, validate_cookie_max_age, age_text, digits, most_digits,
}
use undici.Infra.{collect_fast}
use undici.Cookies.Parse.{
  to_lower_text, add_attribute, set_attribute, parse_max_age, parse_domain, parse_path,
  parse_same_site, number_of, only_digits, is_digit, max_attribute_value_size, or_else,
}
use undici.Cookies.Text.{
  is_part, is_solid, differs, trim-solid, collect_fast-append, AllParts, add_all,
}
use undici.Base.All.{all, all_imp, all-append, all_first, all_rest}
use undici.Cookies.Valid.{
  validate_cookie_path-all, validate_cookie_domain-labels, validate_cookie_domain-all,
  validate_labels-first, is_value_char, digits-all, number_of-digits, length-digits,
}

-- attributes that are read as they are written
abbrev pub TidyAge : Option Age → Type 0
TidyAge none = Unit
TidyAge (some age) = (age.is_negative ≡ false) × (age.seconds < 10 ^ most_digits)

abbrev pub TidyDomain : Option Bytes → Type 0
TidyDomain none = Unit
TidyDomain (some []) = ⊥
TidyDomain (some (c ∷ domain)) = equal (c ∷ domain) (codes " ") ≡ false

abbrev pub TidyPath : Option Bytes → Type 0
TidyPath none = Unit
TidyPath (some []) = ⊥
TidyPath (some (c ∷ path)) =
    ((c == 0x2F) ≡ true)
    × ((trim (c ∷ path) ≡ c ∷ path) × (length (c ∷ path) ≤ max_attribute_value_size))

pub record IsTidy (c : Cookie) : Type 0 where
  pub fits : length c.name + length c.value ≤ 4096
  pub no_expires : c.expires ≡ none
  pub age_tidy : TidyAge c.max_age
  pub domain_tidy : TidyDomain c.domain
  pub path_tidy : TidyPath c.path
  pub no_unparsed : c.unparsed ≡ []

-- the domain in lower case
abbrev pub lowered : Option Bytes → Option Bytes
lowered none = none
lowered (some domain) = some (to_lower_text domain)

-- a test that gave a value gave the one there is
pub only_ok : (u : Unit {0}) {r : Result CookieError (Unit {0})} → r ≡ ok u → r ≡ ok tt
only_ok tt e = e

pub digit-part : (c : ℕ) → is_digit c ≡ true → is_part c ≡ true
digit-part c h = ground (arith, h)

digit-solid : (c : ℕ) → is_digit c ≡ true → is_solid c ≡ true
digit-solid c h = ground (arith, h)

pub value-part : (c : ℕ) → is_value_char c ≡ true → is_part c ≡ true
value-part c h = ground (arith, h)

pub value-solid : (c : ℕ) → is_value_char c ≡ true → is_solid c ≡ true
value-solid c h = ground (arith, h)

age_text-digits :
    (age : Age) → age.is_negative ≡ false → age_text age ≡ digits most_digits age.seconds
unfolding age_text
age_text-digits age h =
    ap
      (λ b.
        if b && not (age.seconds == 0)
        then 0x2D ∷ digits most_digits age.seconds
        else digits most_digits age.seconds)
      h

only_digits-all : (text : Bytes) → all is_digit text ≡ true → only_digits text ≡ true
unfolding only_digits all
only_digits-all [] h = refl
only_digits-all (c ∷ text) h =
    rw (all_first is_digit c text h) (only_digits-all text (all_rest is_digit c text h))

parse_max_age-number :
    (text : Bytes)
    → all is_digit text ≡ true
    → 0 < length text
    → parse_max_age text ≡ some (record { is_negative = false; seconds = number_of 0 text })
unfolding parse_max_age
parse_max_age-number [] h l = absurd (omega (arith, l))
parse_max_age-number (c ∷ text) h l =
    let first = all_first is_digit c text h in
    let no_sign : (c == 0x2D) ≡ false = ground (arith, first) in
    rw (first, no_sign, only_digits-all text (all_rest is_digit c text h)) refl

some_digits : (k n : ℕ) → 0 < length (digits (suc k) n)
unfolding digits
some_digits k n = elim (Bool-cases (ltb n 10)) [
  | inl e ↦ rw e (omega arith)
  | inr e ↦ rw e (omega (arith, length-append (digits k (n / 10)) ((48 + n % 10) ∷ [])))
]

parse_max_age-digits :
    (age : Age)
    → age.is_negative ≡ false
    → age.seconds < 10 ^ most_digits
    → parse_max_age (digits most_digits age.seconds) ≡ some age
parse_max_age-digits age h l =
    parse_max_age-number (digits most_digits age.seconds) (digits-all most_digits age.seconds)
      (some_digits 20 age.seconds)
    ∙ ap₂ (λ b n. some (record { is_negative = b; seconds = n })) (sym h)
        (number_of-digits most_digits age.seconds l (omega arith))

abbrev pub value_of : Result CookieError (List Bytes) → List Bytes
value_of (ok parts) = parts
value_of (err e) = []

module _ (new_date : Bytes → Option UtcDate) where
  -- an attribute with a value
  take_attribute :
      (c : Cookie) (name value : Bytes)
      → all (differs 0x3D) (0x20 ∷ name) ≡ true
      → trim (0x20 ∷ name) ≡ name
      → trim value ≡ value
      → length value ≤ max_attribute_value_size
      → add_attribute new_date c (0x20 ∷ (name ++ (0x3D ∷ value)))
        ≡ set_attribute new_date c name (to_lower_text name) value
  unfolding add_attribute
  take_attribute c name value h t u l =
      let small : ltb max_attribute_value_size (length value) ≡ false = ground (arith, l) in
      rw (collect_fast-append (0x20 ∷ name) value h, u, small, t) refl

  -- these parts, behind a space each, give this cookie
  abbrev pub Taken : Cookie → List Bytes → Cookie → Type 0
  Taken c parts c' = AllParts parts × (add_all new_date c parts ≡ c')

  pub max_age-Taken :
      (c : Cookie) (o : Option Age) (parts : List Bytes)
      → max_age_part o ≡ ok parts
      → TidyAge o
      → c.max_age ≡ none
      → Taken c parts (record c { max_age = o })
  unfolding max_age_part set_attribute all trim_end trim_start
  max_age-Taken c none parts h t e =
      subst (λ ps. Taken c ps (record c { max_age = none })) (ap value_of h)
        (tt, ap (λ x. record c { max_age = x }) e)
  max_age-Taken c (some age) parts h (t, u) e =
      let (_, _, k) =
        bind-eq-ok (validate_cookie_max_age age) (λ _. ok ((codes "Max-Age=" ++ age_text age) ∷ []))
          h in
      subst (λ ps. Taken c ps (record c { max_age = some age })) (ap value_of k)
        (subst (λ x. Taken c ((codes "Max-Age=" ++ x) ∷ []) (record c { max_age = some age }))
          (sym (age_text-digits age t))
          (
            (
              all-append is_part (codes "Max-Age=") (digits most_digits age.seconds) refl (
                  all_imp is_digit is_part (digits most_digits age.seconds) digit-part
                    (digits-all most_digits age.seconds)),
              tt,
            ),
            take_attribute c (codes "Max-Age") (digits most_digits age.seconds) refl refl
                  (trim-solid (digits most_digits age.seconds) (
                    all_imp is_digit is_solid (digits most_digits age.seconds) digit-solid
                      (digits-all most_digits age.seconds)))
                  (omega (arith, length-digits most_digits age.seconds))
                ∙ ap (λ o. record c { max_age = or_else o c.max_age })
                    (parse_max_age-digits age t u),
          ))

  pub domain-Taken :
      (c : Cookie) (o : Option Bytes) (parts : List Bytes)
      → domain_part o ≡ ok parts
      → TidyDomain o
      → c.domain ≡ none
      → Taken c parts (record c { domain = lowered o })
  unfolding domain_part set_attribute parse_domain all trim_end trim_start
  domain-Taken c none parts h t e =
      subst (λ ps. Taken c ps (record c { domain = none })) (ap value_of h)
        (tt, ap (λ x. record c { domain = x }) e)
  domain-Taken c (some []) parts h t e = absurd t
  domain-Taken c (some (d ∷ domain)) parts h t e =
      let (_, v, k) =
        bind-eq-ok (validate_cookie_domain (d ∷ domain))
          (λ _. ok ((codes "Domain=" ++ (d ∷ domain)) ∷ [])) h in
      let (short, labels) = validate_cookie_domain-labels (d ∷ domain) t (only_ok _ v) in
      let chars = validate_cookie_domain-all (d ∷ domain) labels in
      subst (λ ps. Taken c ps (record c { domain = some (to_lower_text (d ∷ domain)) }))
        (ap value_of k)
        (
          (
            all-append is_part (codes "Domain=") (d ∷ domain) refl
                (all_imp is_value_char is_part (d ∷ domain) value-part chars),
            tt,
          ),
          take_attribute c (codes "Domain") (d ∷ domain) refl refl
                (trim-solid (d ∷ domain)
                  (all_imp is_value_char is_solid (d ∷ domain) value-solid chars))
                (omega (arith, short))
              ∙ ap
                  (λ b. record c {
                    domain = some (to_lower_text (if b then domain else d ∷ domain));
                  })
                  (validate_labels-first d domain labels),
        )

  pub path-Taken :
      (c : Cookie) (o : Option Bytes) (parts : List Bytes)
      → path_part o ≡ ok parts
      → TidyPath o
      → c.path ≡ none
      → Taken c parts (record c { path = o })
  unfolding path_part set_attribute parse_path all trim_end trim_start
  path-Taken c none parts h t e =
      subst (λ ps. Taken c ps (record c { path = none })) (ap value_of h)
        (tt, ap (λ x. record c { path = x }) e)
  path-Taken c (some []) parts h t e = absurd t
  path-Taken c (some (d ∷ path)) parts h (t, (u, l)) e =
      let (_, v, k) =
        bind-eq-ok (validate_cookie_path (d ∷ path)) (λ _. ok ((codes "Path=" ++ (d ∷ path)) ∷ []))
          h in
      let chars = validate_cookie_path-all (d ∷ path) (only_ok _ v) in
      subst (λ ps. Taken c ps (record c { path = some (d ∷ path) })) (ap value_of k)
        (
          (all-append is_part (codes "Path=") (d ∷ path) refl chars, tt),
          take_attribute c (codes "Path") (d ∷ path) refl refl u l
              ∙ ap (λ b. record c { path = some (if not b then codes "/" else d ∷ path) }) t,
        )

  pub same_site-Taken :
      (c : Cookie) (o : Option SameSite)
      → c.same_site ≡ none
      → Taken c (same_site_part o) (record c { same_site = o })
  unfolding all add_attribute set_attribute parse_same_site trim_end trim_start collect_fast
  same_site-Taken c none e = (tt, ap (λ x. record c { same_site = x }) e)
  same_site-Taken c (some strict) e = ((refl, tt), refl)
  same_site-Taken c (some lax) e = ((refl, tt), refl)
  same_site-Taken c (some no_restriction) e = ((refl, tt), refl)

  pub secure-Taken :
      (c : Cookie) (b : Bool)
      → c.secure ≡ false
      → Taken c (if_true b (codes "Secure")) (record c { secure = b })
  unfolding all add_attribute set_attribute trim_end trim_start collect_fast
  secure-Taken c true e = ((refl, tt), refl)
  secure-Taken c false e = (tt, ap (λ x. record c { secure = x }) e)

  pub http_only-Taken :
      (c : Cookie) (b : Bool)
      → c.http_only ≡ false
      → Taken c (if_true b (codes "HttpOnly")) (record c { http_only = b })
  unfolding all add_attribute set_attribute trim_end trim_start collect_fast
  http_only-Taken c true e = ((refl, tt), refl)
  http_only-Taken c false e = (tt, ap (λ x. record c { http_only = x }) e)
