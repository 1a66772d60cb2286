-- ===== src/Mime/Tests.antt =====
-- MIME types on concrete texts.
use undici.Base.{◌≡◌, refl, [], ◌∷◌, ◌++◌, none, some, codes, Bytes}
use undici.Base.All.{all}
use undici.Infra.{collect_fast, collect_sequence, remove_leading, remove_trailing}
use undici.Mime.{
  MimeType, parse_mime_type, parse_trimmed, parameter_loop, next_parameter, end_name, take_value,
  set_parameter, has, collect_quoted, serialize_a_mime_type, parameters_text, value_text, escaped,
}
use undici.Mime.RoundTrip.{IsMimeType, parse_mime_type-serialize_a_mime_type}
use undici.Mime.Sound.{IsProper, parse_mime_type-IsMimeType}

-- a value with a quotation mark and a semicolon
abbrev test_type : MimeType
test_type = record {
  kind = codes "text";
  subtype = codes "html";
  parameters = (codes "charset", codes "utf-8") ∷ (codes "a", 0x22 ∷ codes "; b") ∷ [];
}

abbrev test_text : Bytes
test_text =
    codes " Text/HTML;Charset=utf-8 ;a="
    ++ (0x22 ∷ 0x5C ∷ 0x22 ∷ (codes "; b" ++ (0x22 ∷ codes "x;charset=b")))

-- case, white space, what follows a quoted string and a name that comes again
read_text : parse_mime_type test_text ≡ some test_type
unfolding parse_mime_type parse_trimmed parameter_loop next_parameter end_name take_value
    set_parameter has collect_quoted collect_fast collect_sequence remove_leading remove_trailing
    all
read_text = refl

no_slash : parse_mime_type (codes "text") ≡ none
unfolding parse_mime_type parse_trimmed collect_fast remove_leading remove_trailing all
no_slash = refl

parse_mime_type-serialize_a_mime_type_example :
    parse_mime_type
      (codes "text/html;charset=utf-8;a=" ++ (0x22 ∷ 0x5C ∷ 0x22 ∷ (codes "; b" ++ (0x22 ∷ []))))
    ≡ some test_type
unfolding serialize_a_mime_type parameters_text value_text escaped all has
parse_mime_type-serialize_a_mime_type_example = parse_mime_type-serialize_a_mime_type test_type (
  (refl, refl),
  ((refl, refl), ((refl, refl), (refl, (refl, ((refl, refl), (refl, (refl, tt))))))),
)

parse_mime_type-IsMimeType_example : IsMimeType test_type × IsProper test_type
parse_mime_type-IsMimeType_example = parse_mime_type-IsMimeType test_text test_type read_text
