-- ===== src/Cookies/RoundTrip.antt =====
-- What `stringify` of lib/web/cookies/util.js writes, `parseSetCookie` of lib/web/cookies/parse.js reads.
use undici.Base.{
  ℕ, ◌+◌, ◌≡◌, ◌≤◌, refl, sym, ap, ap₂, ◌∙◌, subst, arith, true, false, List, [], Option, none,
  some, ◌∷◌, ◌++◌, Bytes, Result, ok, err, bind-eq-ok, codes, length, ltb, if◌then◌else◌,
  Bool-cases, inl, inr, if_elim,
}
use undici.Date.Calendar.{UtcDate}
use undici.Cookies.{
  Cookie, CookieError, with_prefix, starts_with, is_empty, join_parts, trim_start, trim_end,
  if_true, max_age_part, domain_part, path_part, expires_part, same_site_part, unparsed_parts,
  attribute_parts, stringify, validate_cookie_name, validate_cookie_value,
}
use undici.Cookies.Parse.{plain_cookie, parse_set_cookie}
use undici.Cookies.Text.{
  is_part, is_solid, differs, trim-solid, collect_fast-join_parts, collect_fast-append,
  includes-append, AllParts-append, is_ctl_excluding_htab-parts, add_all, add_all-append,
  parse_unparsed_attributes-join_parts,
}
use undici.Base.All.{all, all_imp, all-append}
use undici.Cookies.Valid.{
  validate_cookie_name-all, validate_cookie_value-all, is_value_char, is_name_char,
}
use undici.Cookies.Attributes.{
  value-part, value-solid, only_ok, IsTidy, lowered, Taken, value_of, max_age-Taken, domain-Taken,
  path-Taken, same_site-Taken, secure-Taken, http_only-Taken,
}

pub name-part : (c : ℕ) → is_name_char c ≡ true → is_part c ≡ true
name-part c h = ground (arith, h)

name-solid : (c : ℕ) → is_name_char c ≡ true → is_solid c ≡ true
name-solid c h = ground (arith, h)

name-differs : (c : ℕ) → is_name_char c ≡ true → differs 0x3D c ≡ true
name-differs c h = ground (arith, h)

pub equals-part : all is_part (0x3D ∷ []) ≡ true
unfolding all
equals-part = refl

-- what a result holds
abbrev pub given : Result CookieError (Option Bytes) → Option Bytes
given (ok text) = text
given (err e) = none

-- a cookie of the same name and value whose attributes are tidy
Keeps : Cookie → Cookie → Type 0
Keeps c c' = IsTidy c' × ((c'.name ≡ c.name) × (c'.value ≡ c.value))

host-Keeps :
    (c c' : Cookie)
    → Keeps c c'
    → Keeps c (
        if starts_with c'.name (codes "__Host-")
        then record c' { secure = true; domain = none; path = some (codes "/") }
        else c')
unfolding Keeps trim_start trim_end
host-Keeps c c' (t, (n, v)) =
    if_elim (λ x. Keeps c x) (starts_with c'.name (codes "__Host-"))
      (
        record {
          fits = t.fits;
          no_expires = t.no_expires;
          age_tidy = t.age_tidy;
          domain_tidy = tt;
          path_tidy = (refl, (refl, omega arith));
          no_unparsed = t.no_unparsed;
        },
        (n, v),
      )
      (t, (n, v))

with_prefix-Keeps : (c : Cookie) → IsTidy c → Keeps c (with_prefix c)
unfolding with_prefix Keeps
with_prefix-Keeps c t =
    host-Keeps c (if starts_with c.name (codes "__Secure-") then record c { secure = true } else c)
      (if_elim (λ x. Keeps c x) (starts_with c.name (codes "__Secure-"))
        (
          record {
            fits = t.fits;
            no_expires = t.no_expires;
            age_tidy = t.age_tidy;
            domain_tidy = t.domain_tidy;
            path_tidy = t.path_tidy;
            no_unparsed = t.no_unparsed;
          },
          (refl, refl),
        )
        (t, (refl, refl)))

module _ (new_date : Bytes → Option UtcDate) where
  -- The attributes of a cookie are read back one after another.
  Taken-append :
      (c c' c'' : Cookie) (xs ys : List Bytes)
      → Taken new_date c xs c'
      → Taken new_date c' ys c''
      → Taken new_date c (xs ++ ys) c''
  Taken-append c c' c'' xs ys (h, e) (k, f) = (
    AllParts-append xs ys h k,
    add_all-append new_date c xs ys ∙ (ap (λ d. add_all new_date d ys) e ∙ f),
  )

  attribute_parts-Taken :
      (c : Cookie) (parts : List Bytes)
      → attribute_parts c ≡ ok parts
      → IsTidy c
      → Taken new_date (plain_cookie c.name c.value) parts (record c { domain = lowered c.domain })
  unfolding attribute_parts unparsed_parts
  attribute_parts-Taken c parts h t =
      let (m, em, h1) = bind-eq-ok (max_age_part c.max_age) _ h in
      let (d, ed, h2) = bind-eq-ok (domain_part c.domain) _ h1 in
      let (p, ep, h3) = bind-eq-ok (path_part c.path) _ h2 in
      let (u, eu, h4) = bind-eq-ok (unparsed_parts c.unparsed) _ h3 in
      let joined_parts : List Bytes → List Bytes → List Bytes = λ x y.
        if_true c.secure (codes "Secure")
        ++ (if_true c.http_only (codes "HttpOnly")
            ++ (m ++ (d ++ (p ++ (x ++ (same_site_part c.same_site ++ y)))))) in
      let none_unparsed : [] ≡ u = ap value_of (ap unparsed_parts (sym t.no_unparsed) ∙ eu) in
      let no_date : [] ≡ expires_part c.expires = ap expires_part (sym t.no_expires) in
      let c1 = record (plain_cookie c.name c.value) { secure = c.secure } in
      let c2 = record c1 { http_only = c.http_only } in
      let c3 = record c2 { max_age = c.max_age } in
      let c4 = record c3 { domain = lowered c.domain } in
      let c5 = record c4 { path = c.path } in
      let c6 = record c5 { same_site = c.same_site } in
      let same : c6 ≡ record c { domain = lowered c.domain } =
        ap₂ (λ x y. record c6 { expires = x; unparsed = y }) (sym t.no_expires)
          (sym t.no_unparsed) in
      subst
        (λ ps.
          Taken new_date (plain_cookie c.name c.value) ps (record c { domain = lowered c.domain }))
        (ap₂ joined_parts no_date none_unparsed ∙ ap value_of h4)
        (subst (λ r. Taken new_date (plain_cookie c.name c.value) (joined_parts [] []) r) same
          (Taken-append _ c1 c6 _ _
            (secure-Taken new_date (plain_cookie c.name c.value) c.secure refl)
            (Taken-append c1 c2 c6 _ _ (http_only-Taken new_date c1 c.http_only refl) (
              Taken-append c2 c3 c6 _ _ (max_age-Taken new_date c2 c.max_age m em t.age_tidy refl) (
                Taken-append c3 c4 c6 _ _
                  (domain-Taken new_date c3 c.domain d ed t.domain_tidy refl)
                  (Taken-append c4 c5 c6 _ _ (path-Taken new_date c4 c.path p ep t.path_tidy refl) (
                    Taken-append c5 c6 c6 _ [] (same_site-Taken new_date c5 c.same_site refl)
                      (tt, refl))))))))

  -- the name and the value
  parse_set_cookie-parts :
      (name value : Bytes) (parts : List Bytes) (c : Cookie)
      → all is_name_char name ≡ true
      → all is_value_char value ≡ true
      → length name + length value ≤ 4096
      → Taken new_date (plain_cookie name value) parts c
      → parse_set_cookie new_date ((name ++ (0x3D ∷ value)) ++ join_parts parts) ≡ some c
  unfolding parse_set_cookie
  parse_set_cookie-parts name value parts c h k l (ps, e) =
      let part : all is_part (name ++ (0x3D ∷ value)) ≡ true =
        all-append is_part name (0x3D ∷ value) (all_imp is_name_char is_part name name-part h) (
          all-append is_part (0x3D ∷ []) value equals-part
            (all_imp is_value_char is_part value value-part k)) in
      let small : ltb 4096 (length name + length value) ≡ false = ground (arith, l) in
      rw
        (
          collect_fast-join_parts (name ++ (0x3D ∷ value)) parts part,
          collect_fast-append name value (all_imp is_name_char (differs 0x3D) name name-differs h),
          includes-append name value,
          trim-solid name (all_imp is_name_char is_solid name name-solid h),
          trim-solid value (all_imp is_value_char is_solid value value-solid k),
          is_ctl_excluding_htab-parts (name ++ (0x3D ∷ value)) parts part ps,
          small,
        )
        (ap some
          (parse_unparsed_attributes-join_parts new_date (plain_cookie name value) parts ps ∙ e))

  -- What `setCookie` writes for a cookie is read as this cookie, with what its name's prefix asks for and its
  -- domain in lower case: a cookie whose name and value have 4096 characters at most, without an expiry date
  -- and attributes of other names, whose age is below 10^21, whose domain is not a space, and whose
  -- path begins with a slash, has no white space around it and 1024 characters at most.
  pub parse_set_cookie-stringify :
      (c : Cookie) (header : Bytes)
      → IsTidy c
      → stringify c ≡ ok (some header)
      → parse_set_cookie new_date header
        ≡ some (record (with_prefix c) { domain = lowered (with_prefix c).domain })
  unfolding stringify Keeps
  parse_set_cookie-stringify c header t h = elim (Bool-cases (is_empty c.name)) [
    | inl e ↦ absurd (ground (arith, ap given (rw e at h)))
    | inr e ↦
        let (u, en, h1) = bind-eq-ok (validate_cookie_name c.name) _ (rw e at h) in
        let (w, ev, h2) = bind-eq-ok (validate_cookie_value c.value) _ h1 in
        let (parts, ep, h3) = bind-eq-ok (attribute_parts (with_prefix c)) _ h2 in
        let (tidy, (n, v)) = with_prefix-Keeps c t in
        let taken = attribute_parts-Taken (with_prefix c) parts ep tidy in
        ap (λ x. elim x [ none ↦ none | some text ↦ parse_set_cookie new_date text ])
          (sym (ap given h3))
        ∙ parse_set_cookie-parts c.name c.value parts _
            (validate_cookie_name-all c.name (only_ok u en))
            (validate_cookie_value-all c.value (only_ok w ev)) t.fits
            (subst
              (λ x.
                Taken new_date x parts
                  (record (with_prefix c) { domain = lowered (with_prefix c).domain }))
              (ap₂ plain_cookie n v) taken)
  ]
