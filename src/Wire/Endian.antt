-- ===== src/Wire/Endian.antt =====
-- include/chrono_cap/wire_format.hpp, lines 20 to 72: the little-endian helpers.
-- A `std::uint8_t*` is the list of the bytes from the pointer on. A write returns the bytes as they
-- are afterwards; a store outside the list changes nothing and a load outside it gives 0, and the
-- theorems state the room that a call needs.
pub mod Bytes
pub mod Laws
pub mod Range
use tri_drishti_chrono_cap.Common.{
  ℕ, zero, suc, ◌+◌, ◌*◌, ◌/◌, ◌%◌, ◌^◌, bit_and, bit_or, List, set, get_or,
}

-- `out[i] = static_cast<std::uint8_t>((v >> shift) & 0xFF)`
abbrev pub put_byte : List ℕ → ℕ → ℕ → ℕ → List ℕ
put_byte out i v shift = set out i (bit_and (v / 2 ^ shift) 0xff % 256)

-- `in[i]`
abbrev pub byte : List ℕ → ℕ → ℕ
byte inp i = get_or inp i 0

unfoldable pub encode_u16 : List ℕ → ℕ → List ℕ
encode_u16 out v = put_byte (put_byte out 0 v 0) 1 v 8

unfoldable pub decode_u16 : List ℕ → ℕ
decode_u16 inp = bit_or (byte inp 0) (byte inp 1 * 2 ^ 8 % 2 ^ 16)

unfoldable pub encode_u32 : List ℕ → ℕ → List ℕ
encode_u32 out v = put_byte (put_byte (put_byte (put_byte out 0 v 0) 1 v 8) 2 v 16) 3 v 24

unfoldable pub decode_u32 : List ℕ → ℕ
decode_u32 inp =
    bit_or
      (bit_or (bit_or (byte inp 0) (byte inp 1 * 2 ^ 8 % 2 ^ 32)) (byte inp 2 * 2 ^ 16 % 2 ^ 32))
      (byte inp 3 * 2 ^ 24 % 2 ^ 32)

-- `for (int i = 0; i < 8; ++i)`: the first number is the rounds left.
unfoldable pub encode_u64_loop : ℕ → ℕ → List ℕ → ℕ → List ℕ
encode_u64_loop zero i out v = out
encode_u64_loop (suc n) i out v = encode_u64_loop n (i + 1) (put_byte out i v (8 * i)) v

unfoldable pub encode_u64 : List ℕ → ℕ → List ℕ
unfolding encode_u64_loop
encode_u64 out v = encode_u64_loop 8 0 out v

unfoldable pub decode_u64_loop : ℕ → ℕ → ℕ → List ℕ → ℕ
decode_u64_loop zero i v inp = v
decode_u64_loop (suc n) i v inp =
    decode_u64_loop n (i + 1) (bit_or v (byte inp i * 2 ^ (8 * i) % 2 ^ 64)) inp

unfoldable pub decode_u64 : List ℕ → ℕ
unfolding decode_u64_loop
decode_u64 inp = decode_u64_loop 8 0 0 inp
