-- ===== src/WebSocket/Frame/Decode.antt =====
-- A client's frame read as RFC 6455, section 5.2 says, and that the frames of lib/web/websocket/frame.js
-- read back as what was sent.
use Prim.Native.Nat.{bit_and, bit_or, bit_xor}
use undici.Base.{
  ℕ, suc, ◌+◌, ◌-◌, ◌*◌, ◌/◌, ◌%◌, ◌^◌, ◌<◌, ◌≡◌, refl, ◌∙◌, ap, ap₂, arith, Bool, true, false,
  ◌&&◌, Option, none, some, [], ◌∷◌, ◌++◌, Bytes, length, take, drop, ltb, leb, ◌==◌, ==_iff,
  append_assoc, take-length-append, drop-length-append, if◌then◌else◌, Bool-cases, inl, inr,
}
use undici.Base.Bits.{passes_below, passes_below_lem, bit_and-three}
use undici.WebSocket.{text_op}
use undici.WebSocket.Frame.{
  MaskKey, key_byte, mask_from, payload_code, extended_length, key_bytes, create_frame,
  create_fast_text_frame,
}

-- A frame as its reader sees it: the payload unmasked, and the bytes behind the frame.
pub record Frame : Type 0 where
  pub fin : Bool
  pub opcode : ℕ
  pub payload : Bytes
  pub rest : Bytes

-- "octet i of the transformed data is the XOR of octet i of the original data with octet at index i
-- modulo 4 of the masking key"
abbrev pub key_octet : Bytes → ℕ → ℕ
key_octet (a ∷ b ∷ c ∷ d ∷ _) i =
    if i % 4 == 0 then a else if i % 4 == 1 then b else if i % 4 == 2 then c else d
key_octet _ i = 0

pub unmask : Bytes → ℕ → Bytes → Bytes
unmask key i [] = []
unmask key i (b ∷ bs) = bit_xor b (key_octet key i) ∷ unmask key (i + 1) bs

-- a number of bytes, the most significant first
abbrev pub big_endian : ℕ → Bytes → ℕ
big_endian acc [] = acc
big_endian acc (b ∷ bs) = big_endian (acc * 256 + b) bs

-- behind the first two bytes, which have said fin, the opcode and the size of the extended length
abbrev pub decode_from : Bool → ℕ → ℕ → Bytes → Frame
decode_from fin opcode n b = record {
  fin = fin;
  opcode = opcode;
  payload = unmask (take 4 b) 0 (take n (drop 4 b));
  rest = drop n (drop 4 b);
}

-- by the seven bits of length in the second byte
pub decode_by : Bool → ℕ → ℕ → Bytes → Frame
decode_by fin opcode code b =
    if code == 126
    then decode_from fin opcode (big_endian 0 (take 2 b)) (drop 2 b)
    else if code == 127
    then decode_from fin opcode (big_endian 0 (take 8 b)) (drop 8 b)
    else decode_from fin opcode code b

-- A masked frame with clear reserved bits; `none` for any other.
pub decode_frame : Bytes → Option Frame
decode_frame (b0 ∷ b1 ∷ b) =
    if leb 128 b1 && (b0 / 16 % 8 == 0)
    then some (decode_by (leb 128 b0) (b0 % 16) (b1 - 128) b)
    else none
decode_frame _ = none

abbrev pub AllBytes : Bytes → Type 0
AllBytes [] = Unit
AllBytes (b ∷ bs) = (b < 256) × AllBytes bs

pub record IsKey (k : MaskKey) : Type 0 where
  pub k0_in : k.k0 < 256
  pub k1_in : k.k1 < 256
  pub k2_in : k.k2 < 256
  pub k3_in : k.k3 < 256

xor_table : passes_below 256 (λ k. passes_below 256 (λ b. bit_xor (bit_xor b k) k == b)) ≡ true
unfolding passes_below
xor_table = refl

xor_twice : (b k : ℕ) → b < 256 → k < 256 → bit_xor (bit_xor b k) k ≡ b
xor_twice b k hb hk = (==_iff _ _).0 (
    passes_below_lem 256 _ b
      (passes_below_lem 256 (λ k. passes_below 256 (λ b. bit_xor (bit_xor b k) k == b)) k xor_table
        hk)
      hb)

xor_below_table : passes_below 256 (λ k. passes_below 256 (λ b. ltb (bit_xor b k) 256)) ≡ true
unfolding passes_below
xor_below_table = refl

xor_below : (b k : ℕ) → b < 256 → k < 256 → bit_xor b k < 256
xor_below b k hb hk =
    let t =
      passes_below_lem 256 _ b
        (passes_below_lem 256 (λ k. passes_below 256 (λ b. ltb (bit_xor b k) 256)) k xor_below_table
          hk)
        hb in
    ground (arith, t)

key_byte-key_octet : (k : MaskKey) (i : ℕ) → key_byte k (bit_and i 3) ≡ key_octet (key_bytes k) i
unfolding key_byte
key_byte-key_octet k i = ground (arith, bit_and-three i)

key_octet-lt : (k : MaskKey) (i : ℕ) → IsKey k → key_octet (key_bytes k) i < 256
key_octet-lt k i v = ground arith

unmask-mask_from :
    (k : MaskKey) (i : ℕ) (body : Bytes)
    → IsKey k
    → AllBytes body
    → unmask (key_bytes k) i (mask_from k i body) ≡ body
unfolding unmask mask_from
unmask-mask_from k i [] v h = refl
unmask-mask_from k i (b ∷ bs) v h =
    ap₂ ◌∷◌ (rw (key_byte-key_octet k i) (xor_twice b _ h.0 (key_octet-lt k i v)))
      (unmask-mask_from k (i + 1) bs v h.1)

AllBytes-append : (a b : Bytes) → AllBytes a → AllBytes b → AllBytes (a ++ b)
AllBytes-append [] b h k = k
AllBytes-append (x ∷ a) b h k = (h.0, AllBytes-append a b h.1 k)

AllBytes-mask_from :
    (k : MaskKey) (i : ℕ) (body : Bytes) → IsKey k → AllBytes body → AllBytes (mask_from k i body)
unfolding mask_from
AllBytes-mask_from k i [] v h = tt
AllBytes-mask_from k i (b ∷ bs) v h = (
  rw (key_byte-key_octet k i) (xor_below b _ h.0 (key_octet-lt k i v)),
  AllBytes-mask_from k (i + 1) bs v h.1,
)

-- The length goes into the bytes there are for it.
AllBytes-extended_length : (n : ℕ) → AllBytes (extended_length n)
unfolding extended_length payload_code
AllBytes-extended_length n = elim (Bool-cases (ltb 65535 n)) [
  | inl large ↦ rw large (ground arith)
  | inr fits ↦ elim (Bool-cases (ltb 125 n)) [
    | inl medium ↦ rw (fits, medium) (ground (arith, fits))
    | inr small ↦
        let not_126 : (n == 126) ≡ false = ground arith in
        let not_127 : (n == 127) ≡ false = ground arith in rw (fits, small, not_126, not_127) tt
  ]
]

length-mask_from : (k : MaskKey) (i : ℕ) (body : Bytes) → length (mask_from k i body) ≡ length body
unfolding mask_from
length-mask_from k i [] = refl
length-mask_from k i (b ∷ bs) = ap suc (length-mask_from k (i + 1) bs)

mask_bit_table : passes_below 128 (λ c. bit_or c 0x80 == c + 128) ≡ true
unfolding passes_below
mask_bit_table = refl

mask_bit : (n : ℕ) → bit_or (payload_code n) 0x80 ≡ payload_code n + 128
unfolding payload_code
mask_bit n = (==_iff _ _).0 (
    passes_below_lem 128 (λ c. bit_or c 0x80 == c + 128) (payload_code n) mask_bit_table
      (ground arith))

decode_from_lem :
    (k : MaskKey) (opcode : ℕ) (body rest : Bytes)
    → IsKey k
    → AllBytes body
    → decode_from true opcode (length body) (key_bytes k ++ (mask_from k 0 body ++ rest))
      ≡ record { fin = true; opcode = opcode; payload = body; rest = rest }
decode_from_lem k opcode body rest v h = rw (
  ← length-mask_from k 0 body,
  take-length-append (mask_from k 0 body) rest,
  drop-length-append (mask_from k 0 body) rest,
  unmask-mask_from k 0 body v h,
)

decode_head :
    (opcode code : ℕ) (b : Bytes)
    → opcode < 16
    → decode_frame ((128 + opcode) ∷ (code + 128) ∷ b) ≡ some (decode_by true opcode code b)
unfolding decode_frame
decode_head opcode code b h =
    let test : (leb 128 (code + 128) && ((128 + opcode) / 16 % 8 == 0)) ≡ true = ground arith in
    let fin : leb 128 (128 + opcode) ≡ true = ground arith in
    let low : (128 + opcode) % 16 ≡ opcode = omega arith in
    let rest : code + 128 - 128 ≡ code = omega arith in rw (test, fin, low, rest)

decode_length :
    (opcode n : ℕ) (b : Bytes)
    → n < 2 ^ 48
    → decode_by true opcode (payload_code n) (extended_length n ++ b) ≡ decode_from true opcode n b
unfolding decode_by extended_length payload_code
decode_length opcode n b h = elim (Bool-cases (ltb 65535 n)) [
  | inl large ↦ rw large (ap (λ k. decode_from true opcode k b) (omega arith))
  | inr fits ↦ elim (Bool-cases (ltb 125 n)) [
    | inl medium ↦ rw (fits, medium) (ap (λ k. decode_from true opcode k b) (omega arith))
    | inr small ↦
        let not_126 : (n == 126) ≡ false = ground arith in
        let not_127 : (n == 127) ≡ false = ground arith in rw (fits, small, not_126, not_127)
  ]
]

payload_code-lt : (n : ℕ) → payload_code n < 128
unfolding payload_code
payload_code-lt n = ground arith

AllBytes-create_frame :
    (k : MaskKey) (opcode : ℕ) (body : Bytes)
    → IsKey k
    → AllBytes body
    → opcode < 16
    → AllBytes (create_frame k opcode body)
unfolding create_frame
AllBytes-create_frame k opcode body v h o =
    let code : payload_code (length body) < 128 = payload_code-lt (length body) in
    rw (mask_bit (length body)) (
      omega (arith, o),
      (
        omega (arith, code),
        AllBytes-append (extended_length (length body)) _ (AllBytes-extended_length (length body))
            (v.k0_in, (v.k1_in, (v.k2_in, (v.k3_in, AllBytes-mask_from k 0 body v h)))),
      ),
    )

decode_frame_lem :
    (k : MaskKey) (opcode : ℕ) (body rest : Bytes)
    → IsKey k
    → AllBytes body
    → opcode < 16
    → length body < 2 ^ 48
    → decode_frame (create_frame k opcode body ++ rest)
      ≡ some (record { fin = true; opcode = opcode; payload = body; rest = rest })
unfolding create_frame
decode_frame_lem k opcode body rest v h o l =
    let n = length body in
    rw (mask_bit n) (
      ap (λ (x : Bytes). decode_frame ((128 + opcode) ∷ (payload_code n + 128) ∷ x))
        (append_assoc (extended_length n) (key_bytes k ++ mask_from k 0 body) rest)
      ∙ decode_head opcode (payload_code n) _ o
      ∙ ap some (decode_length opcode n _ l ∙ decode_from_lem k opcode body rest v h))

-- Every frame that the client sends consists of bytes. Read as RFC 6455 says, it is whole, masked, has
-- the given opcode, and unmasks to the body; the reader stops behind it. The opcode is below 16, the
-- key and the body are bytes, and the body is shorter than 2^48 bytes.
pub decode_frame-create_frame :
    (k : MaskKey) (opcode : ℕ) (body rest : Bytes)
    → IsKey k
    → AllBytes body
    → opcode < 16
    → length body < 2 ^ 48
    → AllBytes (create_frame k opcode body)
      × (decode_frame (create_frame k opcode body ++ rest)
          ≡ some (record { fin = true; opcode = opcode; payload = body; rest = rest }))
decode_frame-create_frame k opcode body rest v h o l =
    (AllBytes-create_frame k opcode body v h o, decode_frame_lem k opcode body rest v h o l)

-- The fast path for text gives the bytes that `createFrame` gives for a text frame.
pub create_fast_text_frame-create_frame :
    (k : MaskKey) (body : Bytes)
    → (create_fast_text_frame k body).0 ++ (create_fast_text_frame k body).1
      ≡ create_frame k text_op body
unfolding create_frame create_fast_text_frame
create_fast_text_frame-create_frame k body =
    ap (λ (x : Bytes). 129 ∷ bit_or (payload_code (length body)) 0x80 ∷ x)
      (append_assoc (extended_length (length body)) (key_bytes k) (mask_from k 0 body))
