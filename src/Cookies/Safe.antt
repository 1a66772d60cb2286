-- ===== src/Cookies/Safe.antt =====
-- No control character and no semicolon of a cookie gets into a part of the header of `stringify`
-- (lib/web/cookies/util.js).
use undici.Base.{
  ℕ, zero, suc, ◌+◌, ◌*◌, ◌/◌, ◌%◌, ◌≡◌, ◌<◌, refl, sym, ap, ◌∙◌, subst, arith, Bool, true, false,
  ◌&&◌, not, List, [], Option, none, some, ◌∷◌, ◌++◌, Bytes, Result, ok, ◌>>=◌, bind-eq-ok, codes,
  take, drop, ◌==◌, equal, Bool-cases, inl, inr, equal_iff,
}
use undici.Date.Calendar.{UtcDate, weekday_of, days_in_month}
use undici.Date.Print.{IsDate}
use undici.Cookies.{
  Cookie, CookieError, Age, SameSite, strict, lax, no_restriction, with_prefix, is_empty, trim,
  includes, if_true, max_age_part, domain_part, path_part, expires_part, same_site_part,
  unparsed_parts, attribute_parts, stringify, is_ctl_excluding_htab, starts_with,
  validate_cookie_name, validate_cookie_value, validate_cookie_path, validate_cookie_domain,
  validate_cookie_max_age, age_text, digits, most_digits, to_imf_date, padded_number, imf_days,
  imf_months,
}
use undici.Infra.{collect_fast}
use undici.Cookies.Text.{is_part, AllParts, AllParts-append, is_ctl_excluding_htab-parts}
use undici.Base.All.{all, all_imp, all-append, all_first, all_rest}
use undici.Cookies.Valid.{
  validate_cookie_name-all, validate_cookie_value-all, validate_cookie_path-all,
  validate_cookie_domain-labels, validate_cookie_domain-all, is_value_char, is_name_char,
  digits-all,
}
use undici.Cookies.Attributes.{value_of, only_ok, value-part, digit-part}
use undici.Cookies.RoundTrip.{name-part, equals-part, given}
use undici.Cookies.Parse.{is_digit}

all-take : (p : ℕ → Bool) (n : ℕ) (text : Bytes) → all p text ≡ true → all p (take n text) ≡ true
unfolding all
all-take p zero text h = refl
all-take p (suc n) [] h = refl
all-take p (suc n) (c ∷ text) h =
    rw (all_first p c text h) (all-take p n text (all_rest p c text h))

all-drop : (p : ℕ → Bool) (n : ℕ) (text : Bytes) → all p text ≡ true → all p (drop n text) ≡ true
all-drop p zero text h = h
all-drop p (suc n) [] h = h
all-drop p (suc n) (c ∷ text) h = all-drop p n text (all_rest p c text h)

digits-part : (k n : ℕ) → all is_part (digits k n) ≡ true
digits-part k n = all_imp is_digit is_part (digits k n) digit-part (digits-all k n)

padded-part : (n : ℕ) → n < 60 → all is_part (padded_number n) ≡ true
unfolding padded_number all
padded-part n h =
    let tens : is_part (48 + n / 10) ≡ true = ground (arith, h) in
    let units : is_part (48 + n % 10) ≡ true = ground arith in rw (tens, units) refl

-- what comes behind is a part too
then_part :
    (xs ys : Bytes) → all is_part xs ≡ true → all is_part ys ≡ true → all is_part (xs ++ ys) ≡ true
then_part xs ys h k = all-append is_part xs ys h k

names_part :
    (n : ℕ)
    → (all is_part (take 3 (drop n imf_days)) ≡ true)
      × (all is_part (take 3 (drop n imf_months)) ≡ true)
unfolding all
names_part n = (
  all-take is_part 3 (drop n imf_days) (all-drop is_part n imf_days refl),
  all-take is_part 3 (drop n imf_months) (all-drop is_part n imf_months refl),
)

literals :
    (all is_part (codes ", ") ≡ true)
    × ((all is_part (codes " ") ≡ true)
        × ((all is_part (codes ":") ≡ true) × (all is_part (codes " GMT") ≡ true)))
unfolding all
literals = (refl, (refl, (refl, refl)))

to_imf_date-part :
    (t : UtcDate)
    → t.day < 60
    → t.hour < 60
    → t.minute < 60
    → t.second < 60
    → all is_part (to_imf_date t) ≡ true
unfolding to_imf_date
to_imf_date-part t d h m s = then_part _ _ (names_part (3 * weekday_of t)).0 (
    then_part (codes ", ") _ literals.0 (
      then_part _ _ (padded-part t.day d) (
        then_part (codes " ") _ literals.1.0 (
          then_part _ _ (names_part (3 * t.month)).1 (
            then_part (codes " ") _ literals.1.0 (
              then_part _ _ (digits-part most_digits t.year) (
                then_part (codes " ") _ literals.1.0 (
                  then_part _ _ (padded-part t.hour h) (
                    then_part (codes ":") _ literals.1.1.0 (
                      then_part _ _ (padded-part t.minute m) (
                        then_part (codes ":") _ literals.1.1.0
                          (then_part _ _ (padded-part t.second s) literals.1.1.1))))))))))))

-- a date of the calendar, where there is one
abbrev pub IsDated : Option UtcDate → Type 0
IsDated none = Unit
IsDated (some t) = IsDate t

month_days : (year month : ℕ) → days_in_month year month < 60
unfolding days_in_month
month_days year month = ground arith

expires_part-AllParts : (o : Option UtcDate) → IsDated o → AllParts (expires_part o)
unfolding all
expires_part-AllParts none h = tt
expires_part-AllParts (some t) h = (
  then_part (codes "Expires=") (to_imf_date t) refl (
      to_imf_date-part t (omega (arith, h.day_to, month_days t.year t.month))
        (omega (arith, h.hour_below)) h.minute_below h.second_below),
  tt,
)

same_site_part-AllParts : (o : Option SameSite) → AllParts (same_site_part o)
unfolding all
same_site_part-AllParts none = tt
same_site_part-AllParts (some strict) = (refl, tt)
same_site_part-AllParts (some lax) = (refl, tt)
same_site_part-AllParts (some no_restriction) = (refl, tt)

if_true-AllParts : (b : Bool) (part : Bytes) → all is_part part ≡ true → AllParts (if_true b part)
if_true-AllParts true part h = (h, tt)
if_true-AllParts false part h = tt

-- one part, where the test gave a value
passed_part :
    (r : Result CookieError (Unit {0})) (part : Bytes) (parts : List Bytes)
    → (r ≡ ok tt → all is_part part ≡ true)
    → (r >>= λ _. ok (part ∷ [])) ≡ ok parts
    → AllParts parts
passed_part r part parts f h =
    let (u, e, k) = bind-eq-ok r _ h in subst AllParts (ap value_of k) (f (only_ok u e), tt)

age_text-part :
    (age : Age) → validate_cookie_max_age age ≡ ok tt → all is_part (age_text age) ≡ true
unfolding validate_cookie_max_age age_text
age_text-part age h = elim (Bool-cases (age.is_negative && not (age.seconds == 0))) [
  | inl e ↦ absurd (ground (arith, (rw e at h)))
  | inr e ↦ rw e (digits-part most_digits age.seconds)
]

domain-part : (domain : Bytes) → validate_cookie_domain domain ≡ ok tt → all is_part domain ≡ true
unfolding all
domain-part domain h = elim (Bool-cases (equal domain (codes " "))) [
  | inl e ↦ subst (λ d. all is_part d ≡ true) (sym ((equal_iff domain (codes " ")).0 e)) refl
  | inr e ↦
      all_imp is_value_char is_part domain value-part
        (validate_cookie_domain-all domain (validate_cookie_domain-labels domain e h).1)
]

max_age_part-AllParts :
    (o : Option Age) (parts : List Bytes) → max_age_part o ≡ ok parts → AllParts parts
unfolding max_age_part all
max_age_part-AllParts none parts h = subst AllParts (ap value_of h) tt
max_age_part-AllParts (some age) parts h =
    passed_part (validate_cookie_max_age age) (codes "Max-Age=" ++ age_text age) parts
      (λ e. then_part (codes "Max-Age=") (age_text age) refl (age_text-part age e)) h

domain_part-AllParts :
    (o : Option Bytes) (parts : List Bytes) → domain_part o ≡ ok parts → AllParts parts
unfolding domain_part all
domain_part-AllParts none parts h = subst AllParts (ap value_of h) tt
domain_part-AllParts (some []) parts h = subst AllParts (ap value_of h) tt
domain_part-AllParts (some (c ∷ domain)) parts h =
    passed_part (validate_cookie_domain (c ∷ domain)) (codes "Domain=" ++ (c ∷ domain)) parts
      (λ e. then_part (codes "Domain=") (c ∷ domain) refl (domain-part (c ∷ domain) e)) h

path_part-AllParts :
    (o : Option Bytes) (parts : List Bytes) → path_part o ≡ ok parts → AllParts parts
unfolding path_part all
path_part-AllParts none parts h = subst AllParts (ap value_of h) tt
path_part-AllParts (some []) parts h = subst AllParts (ap value_of h) tt
path_part-AllParts (some (c ∷ path)) parts h =
    passed_part (validate_cookie_path (c ∷ path)) (codes "Path=" ++ (c ∷ path)) parts
      (λ e. then_part (codes "Path=") (c ∷ path) refl (validate_cookie_path-all (c ∷ path) e)) h

name_value-part :
    (name value : Bytes)
    → validate_cookie_name name ≡ ok tt
    → validate_cookie_value value ≡ ok tt
    → all is_part (name ++ (0x3D ∷ value)) ≡ true
name_value-part name value h k =
    then_part name (0x3D ∷ value)
      (all_imp is_name_char is_part name name-part (validate_cookie_name-all name h))
      (then_part (0x3D ∷ []) value equals-part
        (all_imp is_value_char is_part value value-part (validate_cookie_value-all value k)))

unparsed_parts-AllParts :
    (unparsed parts : List Bytes) → unparsed_parts unparsed ≡ ok parts → AllParts parts
unfolding unparsed_parts
unparsed_parts-AllParts [] parts h = subst AllParts (ap value_of h) tt
unparsed_parts-AllParts (part ∷ unparsed) parts h = elim (Bool-cases (includes 0x3D part)) [
  | inl e ↦
      let (u, en, h1) =
        bind-eq-ok (validate_cookie_name (trim (collect_fast 0x3D part).0)) _ (rw e at h) in
      let (w, ev, h2) =
        bind-eq-ok (validate_cookie_value (drop 1 (collect_fast 0x3D part).1)) _ h1 in
      let (rest, er, h3) = bind-eq-ok (unparsed_parts unparsed) _ h2 in
      subst AllParts (ap value_of h3) (
        name_value-part _ _ (only_ok u en) (only_ok w ev),
        unparsed_parts-AllParts unparsed rest er,
      )
  | inr e ↦ absurd (ground (arith, (rw e at h)))
]

flags : (all is_part (codes "Secure") ≡ true) × (all is_part (codes "HttpOnly") ≡ true)
unfolding all
flags = (refl, refl)

attribute_parts-AllParts :
    (c : Cookie) (parts : List Bytes)
    → IsDated c.expires
    → attribute_parts c ≡ ok parts
    → AllParts parts
unfolding attribute_parts
attribute_parts-AllParts c parts date h =
    let (m, em, h1) = bind-eq-ok (max_age_part c.max_age) _ h in
    let (d, ed, h2) = bind-eq-ok (domain_part c.domain) _ h1 in
    let (p, ep, h3) = bind-eq-ok (path_part c.path) _ h2 in
    let (u, eu, h4) = bind-eq-ok (unparsed_parts c.unparsed) _ h3 in
    subst AllParts (ap value_of h4) (
      AllParts-append (if_true c.secure (codes "Secure")) _
        (if_true-AllParts c.secure (codes "Secure") flags.0)
        (AllParts-append (if_true c.http_only (codes "HttpOnly")) _
          (if_true-AllParts c.http_only (codes "HttpOnly") flags.1)
          (AllParts-append m _ (max_age_part-AllParts c.max_age m em) (
            AllParts-append d _ (domain_part-AllParts c.domain d ed) (
              AllParts-append p _ (path_part-AllParts c.path p ep) (
                AllParts-append (expires_part c.expires) _ (expires_part-AllParts c.expires date) (
                  AllParts-append (same_site_part c.same_site) u
                    (same_site_part-AllParts c.same_site)
                    (unparsed_parts-AllParts c.unparsed u eu))))))))

with_prefix-expires : (c : Cookie) → (with_prefix c).expires ≡ c.expires
unfolding with_prefix
with_prefix-expires c = elim (Bool-cases (starts_with c.name (codes "__Secure-"))) [
  | inl e ↦ elim (Bool-cases (starts_with c.name (codes "__Host-"))) [
    | inl f ↦ rw (e, f) refl
    | inr f ↦ rw (e, f) refl
  ]
  | inr e ↦ elim (Bool-cases (starts_with c.name (codes "__Host-"))) [
    | inl f ↦ rw (e, f) refl
    | inr f ↦ rw (e, f) refl
  ]
]

-- Whatever a cookie holds, its `Set-Cookie` header has no control character but the tab, so that no line end gets
-- into the headers: a cookie that would need one is an error. An expiry date is a date of the calendar.
pub stringify-is_ctl_excluding_htab :
    (c : Cookie) (header : Bytes)
    → IsDated c.expires
    → stringify c ≡ ok (some header)
    → is_ctl_excluding_htab header ≡ false
unfolding stringify
stringify-is_ctl_excluding_htab c header date h = elim (Bool-cases (is_empty c.name)) [
  | inl e ↦ absurd (ground (arith, ap given (rw e at h)))
  | inr e ↦
      let (u, en, h1) = bind-eq-ok (validate_cookie_name c.name) _ (rw e at h) in
      let (w, ev, h2) = bind-eq-ok (validate_cookie_value c.value) _ h1 in
      let (parts, ep, h3) = bind-eq-ok (attribute_parts (with_prefix c)) _ h2 in
      ap (λ x. elim x [ none ↦ false | some text ↦ is_ctl_excluding_htab text ]) (sym (ap given h3))
      ∙ is_ctl_excluding_htab-parts (c.name ++ (0x3D ∷ c.value)) parts
          (name_value-part c.name c.value (only_ok u en) (only_ok w ev))
          (attribute_parts-AllParts (with_prefix c) parts
            (subst IsDated (sym (with_prefix-expires c)) date) ep)
]
