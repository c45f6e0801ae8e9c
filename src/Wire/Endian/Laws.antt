-- ===== src/Wire/Endian/Laws.antt =====
-- Each encoder stores the little-endian bytes of its number over what was there and leaves the rest;
-- each decoder reads the little-endian value; the two undo one another.
use tri_drishti_chrono_cap.Common.{
  ℕ, ◌+◌, ◌*◌, ◌%◌, ◌^◌, ◌≤◌, ◌<◌, bit_and, bit_or, ◌≡◌, refl, ap, sym, ◌∙◌, arith, List, [], ◌∷◌,
  ◌++◌, length, drop, All, mod-eq_of_lt,
}
use tri_drishti_chrono_cap.Common.Bits.{bit_and_mask, bit_or_shift}
use tri_drishti_chrono_cap.Wire.Endian.{
  encode_u16, decode_u16, encode_u32, decode_u32, encode_u64, decode_u64,
}
use tri_drishti_chrono_cap.Wire.Endian.Bytes.{
  IsByte, IsU16, IsU32, IsU64, le_bytes, le_value, le_bytes-IsByte,
}

low_byte : (v : ℕ) → bit_and v 0xff ≡ v % 256
low_byte = bit_and_mask 8

-- The encoders over any buffer with room for them.
pub encode_u16_lem :
    (out : List ℕ) (v : ℕ) → 2 ≤ length out → encode_u16 out v ≡ le_bytes 2 v ++ drop 2 out
unfolding encode_u16
encode_u16_lem (a ∷ b ∷ r) v h = simp low_byte (ground arith)
encode_u16_lem _ v h = absurd (omega arith)

pub encode_u32_lem :
    (out : List ℕ) (v : ℕ) → 4 ≤ length out → encode_u32 out v ≡ le_bytes 4 v ++ drop 4 out
unfolding encode_u32
encode_u32_lem (a ∷ b ∷ c ∷ d ∷ r) v h = simp low_byte (ground arith)
encode_u32_lem _ v h = absurd (omega arith)

pub encode_u64_lem :
    (out : List ℕ) (v : ℕ) → 8 ≤ length out → encode_u64 out v ≡ le_bytes 8 v ++ drop 8 out
unfolding encode_u64
encode_u64_lem (a ∷ b ∷ c ∷ d ∷ e ∷ f ∷ g ∷ k ∷ r) v h = simp low_byte (ground arith)
encode_u64_lem _ v h = absurd (omega arith)

-- The decoders over any bytes.
pub decode_u16_lem :
    (bs rest : List ℕ) → length bs ≡ 2 → All IsByte bs → decode_u16 (bs ++ rest) ≡ le_value bs
unfolding decode_u16
decode_u16_lem (a ∷ b ∷ []) r e h = ground (arith, bit_or_shift 8 b a)
decode_u16_lem _ r e h = absurd (omega arith)

pub decode_u32_lem :
    (bs rest : List ℕ) → length bs ≡ 4 → All IsByte bs → decode_u32 (bs ++ rest) ≡ le_value bs
unfolding decode_u32
decode_u32_lem (a ∷ b ∷ c ∷ d ∷ []) r e h = ground (
  arith,
  bit_or_shift 8 b a,
  bit_or_shift 16 c (a + 256 * b),
  bit_or_shift 24 d (a + 256 * b + 65536 * c),
)
decode_u32_lem _ r e h = absurd (omega arith)

-- One round of `decode_u64`'s loop adds a byte above the `k` bits read so far.
next_byte :
    (k v b : ℕ) → v < 2 ^ k → b * 2 ^ k < 2 ^ 64 → bit_or v (b * 2 ^ k % 2 ^ 64) ≡ v + b * 2 ^ k
next_byte k v b hv hb = rw (mod-eq_of_lt hb) (bit_or_shift k b v hv)

pub decode_u64_lem :
    (bs rest : List ℕ) → length bs ≡ 8 → All IsByte bs → decode_u64 (bs ++ rest) ≡ le_value bs
unfolding decode_u64
decode_u64_lem (a ∷ b ∷ c ∷ d ∷ p ∷ q ∷ r ∷ s ∷ []) rest e h = ground (
  arith,
  next_byte 0 0 a,
  next_byte 8 a b,
  next_byte 16 (a + 256 * b) c,
  next_byte 24 (a + 256 * b + 2 ^ 16 * c) d,
  next_byte 32 (a + 256 * b + 2 ^ 16 * c + 2 ^ 24 * d) p,
  next_byte 40 (a + 256 * b + 2 ^ 16 * c + 2 ^ 24 * d + 2 ^ 32 * p) q,
  next_byte 48 (a + 256 * b + 2 ^ 16 * c + 2 ^ 24 * d + 2 ^ 32 * p + 2 ^ 40 * q) r,
  next_byte 56 (a + 256 * b + 2 ^ 16 * c + 2 ^ 24 * d + 2 ^ 32 * p + 2 ^ 40 * q + 2 ^ 48 * r) s,
)
decode_u64_lem _ rest e h = absurd (omega arith)

pub le_bytes-le_value : (bs : List ℕ) → All IsByte bs → le_bytes (length bs) (le_value bs) ≡ bs
le_bytes-le_value [] h = refl
le_bytes-le_value (b ∷ bs) h = ground (arith, le_bytes-le_value bs h.1)

-- Reading a number back from its bytes, whatever follows them.
pub decode_u16-le_bytes : (v : ℕ) (rest : List ℕ) → IsU16 v → decode_u16 (le_bytes 2 v ++ rest) ≡ v
decode_u16-le_bytes v rest h =
    decode_u16_lem (le_bytes 2 v) rest refl (le_bytes-IsByte 2 v) ∙ omega arith

pub decode_u32-le_bytes : (v : ℕ) (rest : List ℕ) → IsU32 v → decode_u32 (le_bytes 4 v ++ rest) ≡ v
decode_u32-le_bytes v rest h =
    decode_u32_lem (le_bytes 4 v) rest refl (le_bytes-IsByte 4 v) ∙ omega arith

pub decode_u64-le_bytes : (v : ℕ) (rest : List ℕ) → IsU64 v → decode_u64 (le_bytes 8 v ++ rest) ≡ v
decode_u64-le_bytes v rest h =
    decode_u64_lem (le_bytes 8 v) rest refl (le_bytes-IsByte 8 v) ∙ omega arith

-- At each width, what an encoder stored of a number that fits it the decoder reads back, over any
-- buffer of 8 bytes or more.
pub decode-encode :
    (out : List ℕ) (a b c : ℕ)
    → IsU16 a
    → IsU32 b
    → IsU64 c
    → 8 ≤ length out
    → (decode_u16 (encode_u16 out a) ≡ a)
      × (decode_u32 (encode_u32 out b) ≡ b)
      × (decode_u64 (encode_u64 out c) ≡ c)
decode-encode out a b c ha hb hc room = (
  rw (encode_u16_lem out a (omega arith)) (decode_u16-le_bytes a (drop 2 out) ha),
  rw (encode_u32_lem out b (omega arith)) (decode_u32-le_bytes b (drop 4 out) hb),
  rw (encode_u64_lem out c room) (decode_u64-le_bytes c (drop 8 out) hc),
)

-- Storing the number that was decoded from eight bytes, over any buffer of eight bytes or more,
-- reproduces them and leaves the rest of the buffer.
pub encode_u64-decode_u64 :
    (bs rest out : List ℕ)
    → length bs ≡ 8
    → All IsByte bs
    → 8 ≤ length out
    → encode_u64 out (decode_u64 (bs ++ rest)) ≡ bs ++ drop 8 out
encode_u64-decode_u64 bs rest out e h room =
    encode_u64_lem out (decode_u64 (bs ++ rest)) room
    ∙ ap (λ v. le_bytes 8 v ++ drop 8 out) (decode_u64_lem bs rest e h)
    ∙ ap (λ k. le_bytes k (le_value bs) ++ drop 8 out) (sym e)
    ∙ ap (λ l. l ++ drop 8 out) (le_bytes-le_value bs h)
