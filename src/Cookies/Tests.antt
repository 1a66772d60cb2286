-- ===== src/Cookies/Tests.antt =====
-- Cookies on concrete texts.
use undici.Base.{◌≡◌, refl, arith, [], ◌∷◌, none, some, codes, ok, err, true, false, Option, Bytes}
use undici.Date.Calendar.{UtcDate, weekday_of, days_before_year, days_before_month}
use undici.Cookies.{
  Cookie, invalid_value, lax, stringify, attribute_parts, with_prefix, starts_with, max_age_part,
  domain_part, path_part, unparsed_parts, validate_cookie_name, validate_cookie_value,
  validate_octets, validate_cookie_path, validate_labels, validate_cookie_domain,
  validate_cookie_max_age, age_text, digits, join_parts, to_imf_date, padded_number,
  is_ctl_excluding_htab, trim_start, trim_end, includes,
}
use undici.Infra.{collect_fast}
use undici.Cookies.Parse.{plain_cookie, parse_set_cookie, attribute_loop}
use undici.Cookies.RoundTrip.{parse_set_cookie-stringify}
use undici.Cookies.Safe.{stringify-is_ctl_excluding_htab}

abbrev session : Cookie
session = record (plain_cookie (codes "__Host-id") (codes "a=b")) {
  max_age = some (record { is_negative = false; seconds = 60 });
  domain = some (codes "Example.org");
  path = some (codes "/x");
  http_only = true;
  same_site = some lax;
}

abbrev session_header : Bytes
session_header = codes "__Host-id=a=b; Secure; HttpOnly; Max-Age=60; Path=/; SameSite=Lax"

-- a date is left out where it is not read
abbrev no_date : Bytes → Option UtcDate
no_date text = none

session_text : stringify session ≡ ok (some session_header)
unfolding stringify attribute_parts with_prefix starts_with max_age_part domain_part path_part
    unparsed_parts validate_cookie_name validate_cookie_value validate_octets validate_cookie_path
    validate_labels validate_cookie_domain validate_cookie_max_age age_text digits join_parts
session_text = refl

bad_value : stringify (plain_cookie (codes "a") (codes "x;y")) ≡ err invalid_value
unfolding stringify validate_cookie_name validate_cookie_value validate_octets
bad_value = refl

-- a year has no more digits than it needs
short_year :
    to_imf_date (record { year = 645; month = 0; day = 1; hour = 0; minute = 0; second = 0 })
    ≡ codes "Wed, 01 Jan 645 00:00:00 GMT"
unfolding to_imf_date padded_number digits weekday_of days_before_year days_before_month
short_year = refl

-- white space that is none in a header is taken away too
no_break_space :
    parse_set_cookie no_date (0x61 ∷ 0x3D ∷ 0xA0 ∷ []) ≡ some (plain_cookie (codes "a") [])
unfolding parse_set_cookie collect_fast includes trim_start trim_end is_ctl_excluding_htab
    attribute_loop
no_break_space = refl

parse_set_cookie-stringify_example :
    parse_set_cookie no_date session_header
    ≡ some (record session { secure = true; domain = none; path = some (codes "/") })
unfolding with_prefix starts_with trim_start trim_end
parse_set_cookie-stringify_example =
    parse_set_cookie-stringify no_date session session_header
      (record {
        fits = omega arith;
        no_expires = refl;
        age_tidy = (refl, omega arith);
        domain_tidy = refl;
        path_tidy = (refl, (refl, omega arith));
        no_unparsed = refl;
      })
      session_text

stringify-is_ctl_excluding_htab_example : is_ctl_excluding_htab session_header ≡ false
stringify-is_ctl_excluding_htab_example =
    stringify-is_ctl_excluding_htab session session_header tt session_text
