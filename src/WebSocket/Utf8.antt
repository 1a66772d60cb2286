-- ===== src/WebSocket/Utf8.antt =====
-- `utf8Decode` of lib/web/websocket/util.js: a fatal TextDecoder, which refuses what is no UTF-8.
-- The steps are those of the Encoding Standard's decoder; the text itself is kept as its bytes.
use undici.Base.{
  ℕ, ◌-◌, Bool, false, ◌&&◌, Option, none, some, [], ◌∷◌, Bytes, leb, ◌==◌, if◌then◌else◌,
}

-- how many more bytes the character needs, and the range of the next one
pub record Utf8State : Type 0 where
  pub needed : ℕ
  pub lower : ℕ
  pub upper : ℕ

abbrev pub utf8_start : Utf8State
utf8_start = record { needed = 0; lower = 0x80; upper = 0xbf }

abbrev within : ℕ → ℕ → ℕ → Bool
within lo hi b = leb lo b && leb b hi

unfoldable pub utf8_next : Utf8State → ℕ → Option Utf8State
utf8_next s b =
    if s.needed == 0
    then (if leb b 0x7f
        then some utf8_start
        else if within 0xc2 0xdf b
        then some (record { needed = 1; lower = 0x80; upper = 0xbf })
        else if within 0xe0 0xef b
        then some (record {
          needed = 2;
          lower = if b == 0xe0 then 0xa0 else 0x80;
          upper = if b == 0xed then 0x9f else 0xbf;
        })
        else if within 0xf0 0xf4 b
        then some (record {
          needed = 3;
          lower = if b == 0xf0 then 0x90 else 0x80;
          upper = if b == 0xf4 then 0x8f else 0xbf;
        })
        else none)
    else if within s.lower s.upper b
    then some (record { needed = s.needed - 1; lower = 0x80; upper = 0xbf })
    else none

unfoldable pub is_utf8_from : Utf8State → Bytes → Bool
unfolding utf8_next
is_utf8_from s [] = s.needed == 0
is_utf8_from s (b ∷ bs) = elim (utf8_next s b) [ none ↦ false | some s' ↦ is_utf8_from s' bs ]

unfoldable pub is_utf8 : Bytes → Bool
unfolding is_utf8_from
is_utf8 = is_utf8_from utf8_start

-- bytes without a byte order mark in front
unfoldable pub without_bom : Bytes → Bytes
without_bom (a ∷ b ∷ c ∷ rest) =
    if a == 0xEF && b == 0xBB && c == 0xBF then rest else a ∷ b ∷ c ∷ rest
without_bom bytes = bytes

-- `utf8Decode` of a platform with ICU: its decoder drops a byte order mark itself, and `none` is its
-- TypeError.
unfoldable pub utf8_decode : Bytes → Option Bytes
unfolding is_utf8 without_bom
utf8_decode buffer = if is_utf8 buffer then some (without_bom buffer) else none
