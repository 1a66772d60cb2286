-- ===== src/Socks5/Text.antt =====
-- The texts and buffers of SOCKS5 addresses read back as what they stand for.
use undici.Base.{
  ℕ, zero, suc, ◌+◌, ◌*◌, ◌/◌, ◌%◌, ◌-◌, ◌≤◌, ◌<◌, ◌≡◌, ◌⊎◌, inl, inr, refl, ap, ap₂, ◌∙◌, sym,
  arith, Bool, false, none, some, get_or, length-append, append-nil, append_assoc,
  take-length-append, drop-append_ge, Bool-cases, ltb→lt, if_elim, List, [], ◌∷◌, ◌++◌, Bytes, map,
  length, take, drop, ltb, ◌==◌, ◌||◌,
}
use undici.Base.Split.{split, join, split-join, Lacks, AllLack}
use undici.WebSocket.{uint16_be, read_uint16_be}
use undici.WebSocket.Frame.Decode.{AllBytes}
use undici.Socks5.Address.{
  hex_digit, parse_hex, hex_char, to_hex, includes, at_double_colon, normalize_address,
  parse_normalized, parse_ipv6, write_parts, write_uint16, zeros, write_around, groups, ipv6_text,
  read_groups,
}

hex_digit-hex_char : (d : ℕ) → d < 16 → hex_digit (hex_char d) ≡ some d
unfolding hex_digit
hex_digit-hex_char d h = ground arith

parse_hex_step :
    (n c d : ℕ) (cs : Bytes)
    → hex_digit c ≡ some d
    → parse_hex n (c ∷ cs) ≡ parse_hex (n * 16 + d) cs
unfolding parse_hex
parse_hex_step n c d cs e = ap (λ o. elim o [ none ↦ n | some d' ↦ parse_hex (n * 16 + d') cs ]) e

parse_hex_digit :
    (n d : ℕ) (cs : Bytes) → d < 16 → parse_hex n (hex_char d ∷ cs) ≡ parse_hex (n * 16 + d) cs
parse_hex_digit n d cs h = parse_hex_step n (hex_char d) d cs (hex_digit-hex_char d h)

hex_char-ne : (d c : ℕ) → d < 16 → (c ≡ 58) ⊎ (c ≡ 46) → (hex_char d == c) ≡ false
hex_char-ne d c h k = ground arith

parse_hex_first : (d : ℕ) (cs : Bytes) → d < 16 → parse_hex 0 (hex_char d ∷ cs) ≡ parse_hex d cs
parse_hex_first d cs h =
    parse_hex_digit 0 d cs h ∙ ap (λ n. parse_hex n cs) {x = 0 * 16 + d} {y = d} (omega arith)

parse_two : (d e : ℕ) → d < 16 → e < 16 → parse_hex 0 (hex_char d ∷ hex_char e ∷ []) ≡ d * 16 + e
unfolding parse_hex
parse_two d e h k = parse_hex_first d (hex_char e ∷ []) h ∙ parse_hex_digit d e [] k

parse_three :
    (c d e : ℕ)
    → c < 16
    → d < 16
    → e < 16
    → parse_hex 0 (hex_char c ∷ hex_char d ∷ hex_char e ∷ []) ≡ (c * 16 + d) * 16 + e
unfolding parse_hex
parse_three c d e g h k =
    parse_hex_first c (hex_char d ∷ hex_char e ∷ []) g
    ∙ parse_hex_digit c d (hex_char e ∷ []) h
    ∙ parse_hex_digit (c * 16 + d) e [] k

parse_four :
    (b c d e : ℕ)
    → b < 16
    → c < 16
    → d < 16
    → e < 16
    → parse_hex 0 (hex_char b ∷ hex_char c ∷ hex_char d ∷ hex_char e ∷ [])
      ≡ ((b * 16 + c) * 16 + d) * 16 + e
unfolding parse_hex
parse_four b c d e f g h k =
    parse_hex_first b (hex_char c ∷ hex_char d ∷ hex_char e ∷ []) f
    ∙ parse_hex_digit b c (hex_char d ∷ hex_char e ∷ []) g
    ∙ parse_hex_digit (b * 16 + c) d (hex_char e ∷ []) h
    ∙ parse_hex_digit ((b * 16 + c) * 16 + d) e [] k

mod_16 : (n : ℕ) → n % 16 < 16
mod_16 n = omega arith

parse_hex_one : (n : ℕ) → n < 16 → parse_hex 0 (hex_char (n % 16) ∷ []) ≡ n
unfolding parse_hex
parse_hex_one n h = parse_hex_first (n % 16) [] (mod_16 n) ∙ omega arith

-- A number of 16 bits reads back from its hexadecimal digits.
parse_hex-to_hex : (n : ℕ) → n < 65536 → parse_hex 0 (to_hex n) ≡ n
unfolding to_hex
parse_hex-to_hex n h = elim (Bool-cases (ltb n 16)) [
  | inl e ↦ rw e (parse_hex_one n (ltb→lt n 16 e))
  | inr e ↦ rw e (elim (Bool-cases (ltb n 256)) [
    | inl f ↦ rw f (parse_two (n / 16 % 16) (n % 16) (mod_16 (n / 16)) (mod_16 n) ∙ ground arith)
    | inr f ↦ rw f (elim (Bool-cases (ltb n 4096)) [
      | inl g ↦ rw g (
          parse_three (n / 256 % 16) (n / 16 % 16) (n % 16) (mod_16 (n / 256)) (mod_16 (n / 16))
            (mod_16 n)
          ∙ ground arith)
      | inr g ↦ rw g (
          parse_four (n / 4096 % 16) (n / 256 % 16) (n / 16 % 16) (n % 16) (mod_16 (n / 4096))
            (mod_16 (n / 256)) (mod_16 (n / 16)) (mod_16 n)
          ∙ omega arith)
    ])
  ])
]

-- Neither separator is a hexadecimal digit.
to_hex-Lacks : (n c : ℕ) → (c ≡ 58) ⊎ (c ≡ 46) → Lacks c (to_hex n)
unfolding to_hex
to_hex-Lacks n c k =
    let d0 = hex_char-ne (n % 16) c (mod_16 n) k in
    let d1 = hex_char-ne (n / 16 % 16) c (mod_16 (n / 16)) k in
    let d2 = hex_char-ne (n / 256 % 16) c (mod_16 (n / 256)) k in
    let d3 = hex_char-ne (n / 4096 % 16) c (mod_16 (n / 4096)) k in
    if_elim (Lacks c) (ltb n 16) (d0, tt)
      (if_elim (Lacks c) (ltb n 256) (d1, (d0, tt))
        (if_elim (Lacks c) (ltb n 4096) (d2, (d1, (d0, tt))) (d3, (d2, (d1, (d0, tt))))))

-- Parts with no colon and at least one byte, and the part that a text begins with.
abbrev AllGroups : List Bytes → Type 0
AllGroups [] = Unit
AllGroups (part ∷ parts) = (Lacks 58 part × (0 < length part)) × AllGroups parts

at_double_colon-append :
    (part rest : Bytes)
    → Lacks 58 part
    → at_double_colon rest ≡ none
    → at_double_colon (part ++ rest) ≡ none
unfolding at_double_colon
at_double_colon-append [] rest h e = e
at_double_colon-append (c ∷ []) [] h e = refl
at_double_colon-append (c ∷ []) (d ∷ rest) (h, _) e = rw (h, e) refl
at_double_colon-append (c ∷ d ∷ cs) rest (h, hs) e =
    rw (h, at_double_colon-append (d ∷ cs) rest hs e) refl

at_double_colon_colon :
    (s : Bytes)
    → (get_or s 0 0 == 58) ≡ false
    → at_double_colon s ≡ none
    → at_double_colon (58 ∷ s) ≡ none
unfolding at_double_colon
at_double_colon_colon [] h e = refl
at_double_colon_colon (c ∷ cs) h e = rw (h, e) refl

first_of_join :
    (part : Bytes) (parts : List Bytes)
    → AllGroups (part ∷ parts)
    → (get_or (join 58 (part ∷ parts)) 0 0 == 58) ≡ false
unfolding join
first_of_join [] parts ((h, l), hs) = ground arith
first_of_join (c ∷ cs) [] (((h, _), l), hs) = h
first_of_join (c ∷ cs) (next ∷ parts) (((h, _), l), hs) = h

at_double_colon-join :
    (part : Bytes) (parts : List Bytes)
    → AllGroups (part ∷ parts)
    → at_double_colon (join 58 (part ∷ parts)) ≡ none
unfolding join at_double_colon
at_double_colon-join part [] ((h, l), hs) =
    ap at_double_colon (sym (append-nil part)) ∙ at_double_colon-append part [] h refl
at_double_colon-join part (next ∷ parts) ((h, l), hs) =
    at_double_colon-append part (58 ∷ join 58 (next ∷ parts)) h (
      at_double_colon_colon (join 58 (next ∷ parts)) (first_of_join next parts hs)
        (at_double_colon-join next parts hs))

includes-append : (c : ℕ) (a b : Bytes) → includes c (a ++ b) ≡ (includes c a || includes c b)
unfolding includes
includes-append c [] b = refl
includes-append c (x ∷ a) b = ground (arith, includes-append c a b)

includes-Lacks : (c : ℕ) (a : Bytes) → Lacks c a → includes c a ≡ false
unfolding includes
includes-Lacks c [] h = refl
includes-Lacks c (x ∷ a) (h, hs) = rw (h, includes-Lacks c a hs) refl

includes-join :
    (part : Bytes) (parts : List Bytes)
    → AllLack 46 (part ∷ parts)
    → includes 46 (join 58 (part ∷ parts)) ≡ false
unfolding join includes
includes-join part [] (h, _) = includes-Lacks 46 part h
includes-join part (next ∷ parts) (h, hs) =
    includes-append 46 part (58 ∷ join 58 (next ∷ parts))
    ∙ rw (includes-Lacks 46 part h, includes-join next parts hs) refl

write_group :
    (n offset : ℕ) (part : Bytes) (parts : List Bytes) (buffer : Bytes)
    → parse_hex 0 part ≡ n
    → n < 65536
    → offset + 2 ≤ 16
    → write_parts (part ∷ parts) offset buffer
      ≡ write_parts parts
          (offset + 2)
          (take offset buffer ++ (uint16_be n ++ drop (offset + 2) buffer))
unfolding write_parts write_uint16
write_group n offset part parts buffer e h k =
    ap
      (λ m. elim (write_uint16 buffer m offset) [
        | none ↦ none
        | some buffer' ↦ write_parts parts (offset + 2) buffer'
      ])
      e
    ∙ ground arith

-- One group is written.
write_parts-group :
    (n offset : ℕ) (parts : List Bytes) (buffer : Bytes)
    → n < 65536
    → offset + 2 ≤ 16
    → write_parts (to_hex n ∷ parts) offset buffer
      ≡ write_parts parts
          (offset + 2)
          (take offset buffer ++ (uint16_be n ++ drop (offset + 2) buffer))
unfolding write_parts write_uint16
write_parts-group n offset parts buffer h k =
    write_group n offset (to_hex n) parts buffer (parse_hex-to_hex n h) h k

to_hex_long : (n : ℕ) → 0 < length (to_hex n)
unfolding to_hex
to_hex_long n = ground arith

groups-AllGroups : (ns : List ℕ) → AllGroups (map to_hex ns)
groups-AllGroups [] = tt
groups-AllGroups (n ∷ ns) = ((to_hex-Lacks n 58 (inl refl), to_hex_long n), groups-AllGroups ns)

groups-AllLack : (ns : List ℕ) (c : ℕ) → (c ≡ 58) ⊎ (c ≡ 46) → AllLack c (map to_hex ns)
groups-AllLack [] c k = tt
groups-AllLack (n ∷ ns) c k = (to_hex-Lacks n c k, groups-AllLack ns c k)

written :
    (before rest : Bytes) (a b y z : ℕ)
    → a < 256
    → b < 256
    → take (length before) (before ++ (y ∷ z ∷ rest))
        ++ (uint16_be (a * 256 + b) ++ drop (length before + 2) (before ++ (y ∷ z ∷ rest)))
      ≡ (before ++ (a ∷ b ∷ [])) ++ rest
written before rest a b y z h k =
    let high : (a * 256 + b) / 256 ≡ a = omega arith in
    let low : (a * 256 + b) % 256 ≡ b = omega arith in
    rw
      (
        take-length-append before (y ∷ z ∷ rest),
        drop-append_ge (length before + 2) before (y ∷ z ∷ rest) (omega arith),
        append_assoc before (a ∷ b ∷ []) rest,
      )
      (ap (λ cs. before ++ cs)
        (rw
          (
            high,
            low,
            ap (λ n. drop n (y ∷ z ∷ rest)) {x = length before + 2 - length before} {y = 2}
                (omega arith),
          )
          refl))

-- The groups of a text fill the rest of the buffer.
write_parts-groups :
    (k : ℕ) (before bytes rest : Bytes)
    → length before + 2 * k ≡ 16
    → length bytes ≡ 2 * k
    → length rest ≡ 2 * k
    → AllBytes bytes
    → write_parts (map to_hex (read_groups k bytes)) (length before) (before ++ rest)
      ≡ some (before ++ bytes)
unfolding read_groups write_parts
write_parts-groups zero before [] [] h l m v = refl
write_parts-groups zero before (a ∷ bytes) rest h l m v = absurd (omega arith)
write_parts-groups zero before [] (a ∷ rest) h l m v = absurd (omega arith)
write_parts-groups (suc k) before (a ∷ b ∷ bytes) (y ∷ z ∷ rest) h l m (va, (vb, v)) =
    write_parts-group (a * 256 + b) (length before) (map to_hex (read_groups k bytes))
      (before ++ (y ∷ z ∷ rest)) (omega arith) (omega arith)
    ∙ (ap₂ (write_parts (map to_hex (read_groups k bytes)))
          (ground (arith, length-append before (a ∷ b ∷ []))) (written before rest a b y z va vb)
        ∙ (write_parts-groups k (before ++ (a ∷ b ∷ [])) bytes rest
              (ground (arith, length-append before (a ∷ b ∷ []))) (omega arith) (omega arith) v
            ∙ ap some (append_assoc before (a ∷ b ∷ []) bytes)))
write_parts-groups (suc k) before [] rest h l m v = absurd (omega arith)
write_parts-groups (suc k) before (a ∷ []) rest h l m v = absurd (omega arith)
write_parts-groups (suc k) before (a ∷ b ∷ bytes) [] h l m v = absurd (omega arith)
write_parts-groups (suc k) before (a ∷ b ∷ bytes) (y ∷ []) h l m v = absurd (omega arith)

normalize_address_plain :
    (is_ipv4 : Bytes → Bool) (address : Bytes)
    → includes 46 address ≡ false
    → normalize_address is_ipv4 address ≡ address
unfolding normalize_address
normalize_address_plain is_ipv4 address e = rw e refl

parse_normalized_plain :
    (address : Bytes)
    → at_double_colon address ≡ none
    → parse_normalized address ≡ write_parts (split 58 address) 0 zeros
unfolding parse_normalized
parse_normalized_plain address e =
    ap
      (λ o. elim o [
        | some (before, after) ↦ write_around (groups before) (groups after)
        | none ↦ write_parts (split 58 address) 0 zeros
      ])
      e

-- The text that the parser of responses gives for an IPv6 address, its eight groups in hexadecimal,
-- is parsed to the sixteen bytes that were read, whatever the platform takes for an IPv4 address.
pub parse_ipv6-ipv6_text :
    (is_ipv4 : Bytes → Bool) (bytes : Bytes)
    → length bytes ≡ 16
    → AllBytes bytes
    → parse_ipv6 is_ipv4 (ipv6_text bytes) ≡ some bytes
unfolding parse_ipv6 ipv6_text read_groups
parse_ipv6-ipv6_text is_ipv4 bytes l v =
    let ns = read_groups 7 (drop 2 bytes) in
    let parts = map to_hex ns in
    let n = read_uint16_be bytes in
    let plain = includes-join (to_hex n) parts (groups-AllLack (n ∷ ns) 46 (inr refl)) in
    let single = at_double_colon-join (to_hex n) parts (groups-AllGroups (n ∷ ns)) in
    ap parse_normalized (normalize_address_plain is_ipv4 (ipv6_text bytes) plain)
    ∙ (parse_normalized_plain (ipv6_text bytes) single
        ∙ (ap (λ p. write_parts p 0 zeros)
              (split-join 58 (to_hex n) parts (groups-AllLack (n ∷ ns) 58 (inl refl)))
            ∙ write_parts-groups 8 [] bytes zeros refl l refl v))
