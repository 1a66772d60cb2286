-- ===== src/Cookies/Parse.antt =====
-- lib/web/cookies/parse.js: `parseSetCookie`. `new Date` of a string is a parameter, as ECMAScript leaves the
-- formats open that it takes. `toLowerCase` is that of strings of code units below 256, as header values are.
use undici.Base.{
  ℕ, zero, suc, ◌+◌, ◌*◌, ◌-◌, Bool, true, false, ◌&&◌, ◌||◌, not, Option, none, some, [], ◌∷◌,
  ◌++◌, Bytes, codes, length, drop, leb, ltb, map, ◌==◌, equal, if◌then◌else◌,
}
use undici.Date.Calendar.{UtcDate}
use undici.Cookies.{
  Cookie, Age, SameSite, strict, lax, no_restriction, is_ctl_excluding_htab, includes, trim,
}
use undici.Infra.{collect_fast}

-- `maxAttributeValueSize` and `maxNameValuePairSize`
abbrev pub max_attribute_value_size : ℕ
max_attribute_value_size = 1024

abbrev pub max_name_value_pair_size : ℕ
max_name_value_pair_size = 4096

abbrev pub lower_unit : ℕ → ℕ
lower_unit code =
    if (leb 0x41 code && leb code 0x5A) || (leb 0xC0 code && (leb code 0xDE && not (code == 0xD7)))
    then code + 0x20
    else code

abbrev pub to_lower_text : Bytes → Bytes
to_lower_text = map lower_unit

-- a cookie without attributes
abbrev pub plain_cookie : Bytes → Bytes → Cookie
plain_cookie name value = record {
  name = name;
  value = value;
  expires = none;
  max_age = none;
  domain = none;
  path = none;
  secure = false;
  http_only = false;
  same_site = none;
  unparsed = [];
}

abbrev pub is_digit : ℕ → Bool
is_digit code = leb 0x30 code && leb code 0x39

-- `!/[^\d]/.test`
unfoldable pub only_digits : Bytes → Bool
only_digits [] = true
only_digits (code ∷ text) = if is_digit code then only_digits text else false

-- `Number` of decimal digits
unfoldable pub number_of : ℕ → Bytes → ℕ
number_of n [] = n
number_of n (code ∷ text) = number_of (n * 10 + (code - 48)) text

-- the attribute `Max-Age`; none where it is ignored
unfoldable pub parse_max_age : Bytes → Option Age
parse_max_age [] = none
parse_max_age (code ∷ text) =
    if not (is_digit code) && not (code == 0x2D && ltb 0 (length text))
    then none
    else if not (only_digits text)
    then none
    else if code == 0x2D
    then some (record { is_negative = true; seconds = number_of 0 text })
    else some (record { is_negative = false; seconds = number_of 0 (code ∷ text) })

-- the attribute `Domain`
unfoldable pub parse_domain : Bytes → Bytes
parse_domain [] = []
parse_domain (code ∷ text) = to_lower_text (if code == 0x2E then text else code ∷ text)

-- the attribute `Path`
unfoldable pub parse_path : Bytes → Bytes
parse_path [] = codes "/"
parse_path (code ∷ text) = if not (code == 0x2F) then codes "/" else code ∷ text

-- the attribute `SameSite`
unfoldable pub parse_same_site : Bytes → Option SameSite → Option SameSite
parse_same_site lower same_site =
    if equal lower (codes "none")
    then some no_restriction
    else if equal lower (codes "strict")
    then some strict
    else if equal lower (codes "lax")
    then some lax
    else same_site

-- the one or the other
abbrev pub or_else {ℓ} : {A : Type ℓ} → Option A → Option A → Option A
or_else none o = o
or_else (some a) o = some a

module _ (new_date : Bytes → Option UtcDate) where
  -- step 7 of `parseUnparsedAttributes`
  unfoldable pub set_attribute : Cookie → Bytes → Bytes → Bytes → Cookie
  set_attribute c name lower value =
      if equal lower (codes "expires")
      then record c { expires = or_else (new_date value) c.expires }
      else if equal lower (codes "max-age")
      then record c { max_age = or_else (parse_max_age value) c.max_age }
      else if equal lower (codes "domain")
      then record c { domain = some (parse_domain value) }
      else if equal lower (codes "path")
      then record c { path = some (parse_path value) }
      else if equal lower (codes "secure")
      then record c { secure = true }
      else if equal lower (codes "httponly")
      then record c { http_only = true }
      else if equal lower (codes "samesite")
      then record c { same_site = parse_same_site (to_lower_text value) c.same_site }
      else record c { unparsed = c.unparsed ++ ((name ++ (0x3D ∷ value)) ∷ []) }

  -- steps 4 to 7 on `cookieAv`
  unfoldable pub add_attribute : Cookie → Bytes → Cookie
  add_attribute c cookie_av =
      let (name, rest) = collect_fast 0x3D cookie_av in
      let value = trim (drop 1 rest) in
      if ltb max_attribute_value_size (length value)
      then c
      else set_attribute c (trim name) (to_lower_text (trim name)) value

  -- the loop of `parseUnparsedAttributes`, with rounds to go
  unfoldable pub attribute_loop : ℕ → Cookie → Bytes → Cookie
  attribute_loop rounds c [] = c
  attribute_loop zero c (code ∷ text) = c
  attribute_loop (suc rounds) c (code ∷ text) =
      let (cookie_av, unparsed) = collect_fast 0x3B text in
      attribute_loop rounds (add_attribute c cookie_av) unparsed

  -- A round takes a semicolon or more.
  abbrev pub parse_unparsed_attributes : Bytes → Cookie → Cookie
  parse_unparsed_attributes unparsed c = attribute_loop (length unparsed) c unparsed

  -- `parseSetCookie`
  unfoldable pub parse_set_cookie : Bytes → Option Cookie
  parse_set_cookie header =
      let (name_value_pair, unparsed) = collect_fast 0x3B header in
      let (front, back) = collect_fast 0x3D name_value_pair in
      let name = if includes 0x3D name_value_pair then trim front else [] in
      let value = trim (if includes 0x3D name_value_pair then drop 1 back else name_value_pair) in
      if is_ctl_excluding_htab header
      then none
      else if ltb max_name_value_pair_size (length name + length value)
      then none
      else some (parse_unparsed_attributes unparsed (plain_cookie name value))
