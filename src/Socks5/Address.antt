-- ===== src/Socks5/Address.antt =====
-- lib/core/socks5-utils.js: the address forms of SOCKS5. A string is the list of its UTF-8 bytes.
-- `net.isIPv4` and `net.isIPv6` are the platform's and come as arguments.
use undici.Base.{
  ℕ, zero, suc, ◌+◌, ◌-◌, ◌*◌, ◌/◌, ◌%◌, Bool, false, ◌&&◌, ◌||◌, Option, none, some, List, [], ◌∷◌,
  ◌++◌, Bytes, length, take, drop, get_or, ltb, leb, ◌==◌, if◌then◌else◌, map, Result, ok, err,
}
use undici.Base.Split.{split, join}
use undici.WebSocket.{uint16_be, read_uint16_be}

pub data AddressError : Type 0 where
  domain_too_long no_type short_ipv4 short_length short_domain short_ipv6 short_port : AddressError
  invalid_type : ℕ → AddressError
  -- the RangeError of a write behind the buffer's end, or of a number that does not fit
  out_of_range : AddressError

pub record TypedAddress : Type 0 where
  pub kind : ℕ
  pub buffer : Bytes

-- `Number` of decimal digits
unfoldable pub parse_decimal : ℕ → Bytes → ℕ
parse_decimal n [] = n
parse_decimal n (c ∷ cs) = parse_decimal (n * 10 + (c - 48)) cs

abbrev within : ℕ → ℕ → ℕ → Bool
within lo hi c = leb lo c && leb c hi

-- the value of a hexadecimal digit
unfoldable pub hex_digit : ℕ → Option ℕ
hex_digit c =
    if within 48 57 c
    then some (c - 48)
    else if within 97 102 c
    then some (c - 87)
    else if within 65 70 c
    then some (c - 55)
    else none

-- `parseInt(part, 16)`, up to the first other character; its NaN is written as 0
unfoldable pub parse_hex : ℕ → Bytes → ℕ
parse_hex n [] = n
parse_hex n (c ∷ cs) = elim (hex_digit c) [ none ↦ n | some d ↦ parse_hex (n * 16 + d) cs ]

-- `buffer.writeUInt16BE(value, offset)` into 16 bytes
unfoldable pub write_uint16 : Bytes → ℕ → ℕ → Option Bytes
write_uint16 buffer value offset =
    if leb value 65535 && leb (offset + 2) 16
    then some (take offset buffer ++ (uint16_be value ++ drop (offset + 2) buffer))
    else none

-- the loops over the parts, from an offset on
unfoldable pub write_parts : List Bytes → ℕ → Bytes → Option Bytes
write_parts [] offset buffer = some buffer
write_parts (part ∷ parts) offset buffer = elim (write_uint16 buffer (parse_hex 0 part) offset) [
  | none ↦ none
  | some buffer' ↦ write_parts parts (offset + 2) buffer'
]

-- the split at the first `::`
unfoldable pub at_double_colon : Bytes → Option (Bytes × Bytes)
at_double_colon [] = none
at_double_colon (c ∷ []) = none
at_double_colon (c ∷ d ∷ rest) =
    if c == 58 && d == 58 then some ([], rest) else elim (at_double_colon (d ∷ rest)) [
      | none ↦ none
      | some (before, after) ↦ some (c ∷ before, after)
    ]

unfoldable pub includes : ℕ → Bytes → Bool
includes c [] = false
includes c (x ∷ xs) = x == c || includes c xs

-- the split at the last colon, which every IPv6 address has
unfoldable pub at_last_colon : Bytes → Bytes × Bytes
at_last_colon [] = ([], [])
at_last_colon (c ∷ cs) =
    let (before, after) = at_last_colon cs in
    if includes 58 cs then (c ∷ before, after) else if c == 58 then ([], cs) else ([], c ∷ cs)

-- `toString(16)` of a number below 2 ^ 16
abbrev pub hex_char : ℕ → ℕ
hex_char d = if ltb d 10 then 48 + d else 87 + d

unfoldable pub to_hex : ℕ → Bytes
to_hex n =
    let d3 = hex_char (n / 4096 % 16) in
    let d2 = hex_char (n / 256 % 16) in
    let d1 = hex_char (n / 16 % 16) in
    let d0 = hex_char (n % 16) in
    if ltb n 16
    then d0 ∷ []
    else if ltb n 256
    then d1 ∷ d0 ∷ []
    else if ltb n 4096
    then d2 ∷ d1 ∷ d0 ∷ []
    else d3 ∷ d2 ∷ d1 ∷ d0 ∷ []

-- the octets of an embedded IPv4 tail, as two groups
abbrev ipv4_groups : List Bytes → Bytes
ipv4_groups octets =
    let at : ℕ → ℕ = λ i. parse_decimal 0 (get_or octets i []) in
    to_hex (at 0 * 256 + at 1) ++ (58 ∷ to_hex (at 2 * 256 + at 3))

-- `normalizedAddress`
unfoldable pub normalize_address : (Bytes → Bool) → Bytes → Bytes
normalize_address is_ipv4 address =
    let (before, tail) = at_last_colon address in
    if includes 46 address && is_ipv4 tail
    then before ++ (58 ∷ ipv4_groups (split 46 tail))
    else address

-- `before === '' ? [] : before.split(':')`
unfoldable pub groups : Bytes → List Bytes
groups [] = []
groups (c ∷ cs) = split 58 (c ∷ cs)

abbrev pub zeros : Bytes
zeros = 0 ∷ 0 ∷ 0 ∷ 0 ∷ 0 ∷ 0 ∷ 0 ∷ 0 ∷ 0 ∷ 0 ∷ 0 ∷ 0 ∷ 0 ∷ 0 ∷ 0 ∷ 0 ∷ []

-- the parts in front of the `::`, and those behind it at the end of the buffer
unfoldable pub write_around : List Bytes → List Bytes → Option Bytes
write_around before after = elim (write_parts before 0 zeros) [
  | none ↦ none
  | some buffer ↦
      if leb (length after) 8 then write_parts after (16 - length after * 2) buffer else none
]

unfoldable pub parse_normalized : Bytes → Option Bytes
parse_normalized address = elim (at_double_colon address) [
  | some (before, after) ↦ write_around (groups before) (groups after)
  | none ↦ write_parts (split 58 address) 0 zeros
]

-- `parseIPv6`; `none` is a RangeError
unfoldable pub parse_ipv6 : (Bytes → Bool) → Bytes → Option Bytes
parse_ipv6 is_ipv4 address = parse_normalized (normalize_address is_ipv4 address)

-- `parseAddress`
unfoldable pub parse_address :
    (Bytes → Bool) → (Bytes → Bool) → Bytes → Result AddressError TypedAddress
parse_address is_ipv4 is_ipv6 address =
    if is_ipv4 address
    then ok
        (record { kind = 1; buffer = map (λ part. parse_decimal 0 part % 256) (split 46 address) })
    else if is_ipv6 address
    then elim (parse_ipv6 is_ipv4 address) [
      | none ↦ err out_of_range
      | some buffer ↦ ok (record { kind = 4; buffer = buffer })
    ]
    else if ltb 255 (length address)
    then err domain_too_long
    else ok (record { kind = 3; buffer = length address ∷ address })

-- `buildAddressBuffer`, for a port below 2 ^ 16
unfoldable pub build_address_buffer : ℕ → Bytes → ℕ → Bytes
build_address_buffer kind address port = kind ∷ (address ++ uint16_be port)

-- the decimal digits of a byte
unfoldable pub to_decimal : ℕ → Bytes
to_decimal n =
    if ltb n 10
    then (48 + n) ∷ []
    else if ltb n 100
    then (48 + n / 10) ∷ (48 + n % 10) ∷ []
    else (48 + n / 100) ∷ (48 + n / 10 % 10) ∷ (48 + n % 10) ∷ []

-- `Array.from(…).join('.')`
unfoldable pub ipv4_text : Bytes → Bytes
ipv4_text bytes = join 46 (map to_decimal bytes)

-- the eight groups that `readUInt16BE` reads
unfoldable pub read_groups : ℕ → Bytes → List ℕ
read_groups zero bytes = []
read_groups (suc n) bytes = read_uint16_be bytes ∷ read_groups n (drop 2 bytes)

-- `parts.join(':')`
unfoldable pub ipv6_text : Bytes → Bytes
ipv6_text bytes = join 58 (map to_hex (read_groups 8 bytes))

pub record ResponseAddress : Type 0 where
  pub address : Bytes
  pub port : ℕ
  pub bytes_read : ℕ

-- the port behind the address, which ends `size` bytes behind the type
unfoldable pub read_port : Bytes → ℕ → Bytes → Result AddressError ResponseAddress
read_port address size rest =
    if ltb (length rest) (size + 2)
    then err short_port
    else ok (record {
      address = address;
      port = read_uint16_be (drop size rest);
      bytes_read = size + 3;
    })

-- The domain behind its length. Its text is kept as its bytes.
unfoldable pub read_domain : Bytes → Result AddressError ResponseAddress
read_domain [] = err short_length
read_domain (n ∷ rest) =
    if ltb (length rest) (n + 2)
    then err short_domain
    else read_port (take n rest) (n + 1) (n ∷ rest)

-- `parseResponseAddress` on the bytes from `offset` on
unfoldable pub parse_response_address : Bytes → Result AddressError ResponseAddress
parse_response_address [] = err no_type
parse_response_address (kind ∷ rest) =
    if kind == 1
    then (if ltb (length rest) 6
        then err short_ipv4
        else read_port (ipv4_text (take 4 rest)) 4 rest)
    else if kind == 3
    then read_domain rest
    else if kind == 4
    then (if ltb (length rest) 18
        then err short_ipv6
        else read_port (ipv6_text (take 16 rest)) 16 rest)
    else err (invalid_type kind)
