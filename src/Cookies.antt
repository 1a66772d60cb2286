-- ===== src/Cookies.antt =====
-- lib/web/cookies/util.js: what `setCookie` makes of a cookie. Strings are the lists of their code units.
pub mod Parse
pub mod Text
pub mod Valid
pub mod Attributes
pub mod RoundTrip
pub mod Safe
mod Tests
use undici.Base.{
  ℕ, zero, suc, ◌+◌, ◌*◌, ◌-◌, ◌/◌, ◌%◌, ◌≡◌, Bool, true, false, ◌&&◌, ◌||◌, not, Option, none,
  some, List, [], ◌∷◌, ◌++◌, Bytes, Result, ok, err, ◌>>=◌, codes, length, take, drop, get_or, leb,
  ltb, ◌==◌, equal, if◌then◌else◌,
}
use undici.Infra.{collect_fast}
use undici.Date.Calendar.{UtcDate, weekday_of}

pub data CookieError : Type 0 where
  invalid_name invalid_value invalid_path invalid_domain invalid_max_age invalid_unparsed :
      CookieError

pub data SameSite : Type 0 where
  strict lax no_restriction : SameSite

-- a number of seconds, which may be below 0
pub record Age : Type 0 where
  pub is_negative : Bool
  pub seconds : ℕ

-- `Cookie` of types/cookies.d.ts: an attribute that is absent is none, or false; a time has its UTC fields
pub record Cookie : Type 0 where
  pub name : Bytes
  pub value : Bytes
  pub expires : Option UtcDate
  pub max_age : Option Age
  pub domain : Option Bytes
  pub path : Option Bytes
  pub secure : Bool
  pub http_only : Bool
  pub same_site : Option SameSite
  pub unparsed : List Bytes

-- the test of `isCTLExcludingHtab` on a character
abbrev pub is_ctl : ℕ → Bool
is_ctl code = leb code 0x08 || ((leb 0x0A code && leb code 0x1F) || code == 0x7F)

-- `isCTLExcludingHtab`
unfoldable pub is_ctl_excluding_htab : Bytes → Bool
is_ctl_excluding_htab [] = false
is_ctl_excluding_htab (code ∷ text) = if is_ctl code then true else is_ctl_excluding_htab text

-- the test of `validateCookieName` on a character
abbrev pub is_name_fault : ℕ → Bool
is_name_fault code =
    ltb code 0x21
    || (ltb 0x7E code
        || (code == 0x22
            || (code == 0x28
                || (code == 0x29
                    || (code == 0x3C
                        || (code == 0x3E
                            || (code == 0x40
                                || (code == 0x2C
                                    || (code == 0x3B
                                        || (code == 0x3A
                                            || (code == 0x5C
                                                || (code == 0x2F
                                                    || (code == 0x5B
                                                        || (code == 0x5D
                                                            || (code == 0x3F
                                                            || (code == 0x3D
                                                            || (code == 0x7B
                                                            || code == 0x7D)))))))))))))))))

-- `validateCookieName`
unfoldable pub validate_cookie_name : Bytes → Result CookieError (Unit {0})
validate_cookie_name [] = ok tt
validate_cookie_name (code ∷ name) =
    if is_name_fault code then err invalid_name else validate_cookie_name name

-- the test of `validateCookieValue` on a character
abbrev pub is_value_fault : ℕ → Bool
is_value_fault code =
    ltb code 0x21
    || (ltb 0x7E code || (code == 0x22 || (code == 0x2C || (code == 0x3B || code == 0x5C))))

-- its loop
unfoldable pub validate_octets : Bytes → Result CookieError (Unit {0})
validate_octets [] = ok tt
validate_octets (code ∷ value) =
    if is_value_fault code then err invalid_value else validate_octets value

-- `validateCookieValue`, which may be wrapped in quotation marks
unfoldable pub validate_cookie_value : Bytes → Result CookieError (Unit {0})
validate_cookie_value [] = ok tt
validate_cookie_value (code ∷ value) =
    if code == 0x22
    then if length value == 0 || not (get_or value (length value - 1) 0 == 0x22)
      then err invalid_value
      else validate_octets (take (length value - 1) value)
    else validate_octets (code ∷ value)

-- the test of `validateCookiePath` on a character
abbrev pub is_path_fault : ℕ → Bool
is_path_fault code = ltb code 0x20 || (ltb 0x7E code || code == 0x3B)

-- `validateCookiePath`
unfoldable pub validate_cookie_path : Bytes → Result CookieError (Unit {0})
validate_cookie_path [] = ok tt
validate_cookie_path (code ∷ path) =
    if is_path_fault code then err invalid_path else validate_cookie_path path

-- `isLetterOrDigit`
abbrev pub is_letter_or_digit : ℕ → Bool
is_letter_or_digit code =
    (leb 0x30 code && leb code 0x39)
    || ((leb 0x41 code && leb code 0x5A) || (leb 0x61 code && leb code 0x7A))

-- the loop of `validateCookieDomain`, with `labelLength` and the character before
unfoldable pub validate_labels : ℕ → ℕ → Bytes → Result CookieError (Unit {0})
validate_labels label_length previous [] =
    if label_length == 0 || previous == 0x2D then err invalid_domain else ok tt
validate_labels label_length previous (code ∷ domain) =
    let dotted = code == 0x2E in
    let rest = validate_labels (if dotted then 0 else suc label_length) code domain in
    if dotted
    then if label_length == 0
      then err invalid_domain
      else if previous == 0x2D
      then err invalid_domain
      else rest
    else if label_length == 0 && not (is_letter_or_digit code)
    then err invalid_domain
    else if not (is_letter_or_digit code) && not (code == 0x2D)
    then err invalid_domain
    else if ltb 63 (suc label_length)
    then err invalid_domain
    else rest

-- `validateCookieDomain`
unfoldable pub validate_cookie_domain : Bytes → Result CookieError (Unit {0})
validate_cookie_domain domain =
    if equal domain (codes " ")
    then ok tt
    else if ltb 255 (length domain)
    then err invalid_domain
    else validate_labels 0 0 domain

-- `validateCookieMaxAge`
unfoldable pub validate_cookie_max_age : Age → Result CookieError (Unit {0})
validate_cookie_max_age age =
    if age.is_negative && not (age.seconds == 0) then err invalid_max_age else ok tt

-- the decimal digits of a number, as many as are given at most
unfoldable pub digits : ℕ → ℕ → Bytes
digits zero n = []
digits (suc k) n =
    let rest = digits k (n / 10) in if ltb n 10 then (48 + n) ∷ [] else rest ++ ((48 + n % 10) ∷ [])

-- a number in a template literal: JavaScript writes one below 10^21 with all its digits
abbrev pub most_digits : ℕ
most_digits = 21

unfoldable pub age_text : Age → Bytes
age_text age =
    if age.is_negative && not (age.seconds == 0)
    then 0x2D ∷ digits most_digits age.seconds
    else digits most_digits age.seconds

-- `IMFDays`, `IMFMonths` and `IMFPaddedNumbers`
abbrev pub imf_days : Bytes
imf_days = codes "SunMonTueWedThuFriSat"

abbrev pub imf_months : Bytes
imf_months = codes "JanFebMarAprMayJunJulAugSepOctNovDec"

unfoldable pub padded_number : ℕ → Bytes
padded_number n = (48 + n / 10) ∷ (48 + n % 10) ∷ []

-- `toIMFDate`, whose year has as many digits as it needs
unfoldable pub to_imf_date : UtcDate → Bytes
to_imf_date t =
    take 3 (drop (3 * weekday_of t) imf_days)
    ++ (codes ", "
        ++ (padded_number t.day
            ++ (codes " "
                ++ (take 3 (drop (3 * t.month) imf_months)
                    ++ (codes " "
                        ++ (digits most_digits t.year
                            ++ (codes " "
                                ++ (padded_number t.hour
                                    ++ (codes ":"
                                        ++ (padded_number t.minute
                                            ++ (codes ":"
                                                ++ (padded_number t.second
                                                    ++ codes " GMT"))))))))))))

-- `name.startsWith`
unfoldable pub starts_with : Bytes → Bytes → Bool
starts_with text [] = true
starts_with [] (p ∷ prefix) = false
starts_with (c ∷ text) (p ∷ prefix) = if c == p then starts_with text prefix else false

-- `trim` of a string: the white space and the line ends of ECMAScript
abbrev pub is_white_space : ℕ → Bool
is_white_space code =
    (leb 0x09 code && leb code 0x0D)
    || (code == 0x20
        || (code == 0xA0
            || (code == 0x1680
                || ((leb 0x2000 code && leb code 0x200A)
                    || (code == 0x2028
                        || (code == 0x2029
                            || (code == 0x202F
                                || (code == 0x205F || (code == 0x3000 || code == 0xFEFF)))))))))

unfoldable pub trim_start : Bytes → Bytes
trim_start [] = []
trim_start (code ∷ text) =
    let rest = trim_start text in if is_white_space code then rest else code ∷ text

abbrev pub cons_unless_blank : ℕ → Bytes → Bytes
cons_unless_blank code [] = if is_white_space code then [] else code ∷ []
cons_unless_blank code (c ∷ text) = code ∷ c ∷ text

unfoldable pub trim_end : Bytes → Bytes
trim_end [] = []
trim_end (code ∷ text) = cons_unless_blank code (trim_end text)

abbrev pub trim : Bytes → Bytes
trim text = trim_end (trim_start text)

-- `includes`
unfoldable pub includes : ℕ → Bytes → Bool
includes char [] = false
includes char (code ∷ text) = if code == char then true else includes char text

-- `__Secure-` and `__Host-`
unfoldable pub with_prefix : Cookie → Cookie
with_prefix c =
    let c' = if starts_with c.name (codes "__Secure-") then record c { secure = true } else c in
    if starts_with c'.name (codes "__Host-")
    then record c' { secure = true; domain = none; path = some (codes "/") }
    else c'

abbrev pub if_true : Bool → Bytes → List Bytes
if_true true part = part ∷ []
if_true false part = []

unfoldable pub max_age_part : Option Age → Result CookieError (List Bytes)
max_age_part none = ok []
max_age_part (some age) = do
  _ ← validate_cookie_max_age age
  ok ((codes "Max-Age=" ++ age_text age) ∷ [])

unfoldable pub domain_part : Option Bytes → Result CookieError (List Bytes)
domain_part none = ok []
domain_part (some []) = ok []
domain_part (some (code ∷ domain)) = do
  _ ← validate_cookie_domain (code ∷ domain)
  ok ((codes "Domain=" ++ (code ∷ domain)) ∷ [])

unfoldable pub path_part : Option Bytes → Result CookieError (List Bytes)
path_part none = ok []
path_part (some []) = ok []
path_part (some (code ∷ path)) = do
  _ ← validate_cookie_path (code ∷ path)
  ok ((codes "Path=" ++ (code ∷ path)) ∷ [])

abbrev pub expires_part : Option UtcDate → List Bytes
expires_part none = []
expires_part (some t) = (codes "Expires=" ++ to_imf_date t) ∷ []

abbrev pub same_site_text : SameSite → Bytes
same_site_text strict = codes "Strict"
same_site_text lax = codes "Lax"
same_site_text no_restriction = codes "None"

abbrev pub same_site_part : Option SameSite → List Bytes
same_site_part none = []
same_site_part (some s) = (codes "SameSite=" ++ same_site_text s) ∷ []

-- the loop over `unparsed`
unfoldable pub unparsed_parts : List Bytes → Result CookieError (List Bytes)
unparsed_parts [] = ok []
unparsed_parts (part ∷ parts) =
    let (key, value) = collect_fast 0x3D part in
    if not (includes 0x3D part) then err invalid_unparsed else do
      _ ← validate_cookie_name (trim key)
      _ ← validate_cookie_value (drop 1 value)
      rest ← unparsed_parts parts
      ok ((trim key ++ (0x3D ∷ drop 1 value)) ∷ rest)

-- `out.join('; ')` behind the first part
unfoldable pub join_parts : List Bytes → Bytes
join_parts [] = []
join_parts (part ∷ parts) = codes "; " ++ (part ++ join_parts parts)

-- the attributes of `stringify`
unfoldable pub attribute_parts : Cookie → Result CookieError (List Bytes)
attribute_parts c = do
  max_age ← max_age_part c.max_age
  domain ← domain_part c.domain
  path ← path_part c.path
  unparsed ← unparsed_parts c.unparsed
  ok (
      if_true c.secure (codes "Secure")
      ++ (if_true c.http_only (codes "HttpOnly")
          ++ (max_age
              ++ (domain
                  ++ (path
                      ++ (expires_part c.expires ++ (same_site_part c.same_site ++ unparsed)))))))

abbrev pub is_empty : Bytes → Bool
is_empty [] = true
is_empty (code ∷ text) = false

-- `stringify`; none where it returns null
unfoldable pub stringify : Cookie → Result CookieError (Option Bytes)
stringify c = if is_empty c.name then ok none else do
  _ ← validate_cookie_name c.name
  _ ← validate_cookie_value c.value
  parts ← attribute_parts (with_prefix c)
  ok (some ((c.name ++ (0x3D ∷ c.value)) ++ join_parts parts))
