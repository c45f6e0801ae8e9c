-- ===== src/Wire/Endian/Range.antt =====
-- Whatever bytes a decoder reads, its result fits its C type.
use tri_drishti_chrono_cap.Common.{ℕ, ◌≤◌, refl, arith, List, [], ◌∷◌, length, All}
use tri_drishti_chrono_cap.Wire.Endian.{decode_u16, decode_u32, decode_u64}
use tri_drishti_chrono_cap.Wire.Endian.Bytes.{IsByte, IsU16, IsU32, IsU64}
use tri_drishti_chrono_cap.Wire.Endian.Laws.{decode_u16_lem, decode_u32_lem, decode_u64_lem}

pub decode_u16-IsU16 : (inp : List ℕ) → 2 ≤ length inp → All IsByte inp → IsU16 (decode_u16 inp)
decode_u16-IsU16 (a ∷ b ∷ rest) h (ha, (hb, r)) =
    omega (arith, decode_u16_lem (a ∷ b ∷ []) rest refl (ha, (hb, tt)))
decode_u16-IsU16 _ h bytes = absurd (omega arith)

pub decode_u32-IsU32 : (inp : List ℕ) → 4 ≤ length inp → All IsByte inp → IsU32 (decode_u32 inp)
decode_u32-IsU32 (a ∷ b ∷ c ∷ d ∷ rest) h (ha, (hb, (hc, (hd, r)))) =
    omega (arith, decode_u32_lem (a ∷ b ∷ c ∷ d ∷ []) rest refl (ha, (hb, (hc, (hd, tt)))))
decode_u32-IsU32 _ h bytes = absurd (omega arith)

pub decode_u64-IsU64 : (inp : List ℕ) → 8 ≤ length inp → All IsByte inp → IsU64 (decode_u64 inp)
decode_u64-IsU64 (a ∷ b ∷ c ∷ d ∷ e ∷ f ∷ g ∷ k ∷ rest) h
      (ha, (hb, (hc, (hd, (he, (hf, (hg, (hk, r)))))))) =
    omega (
      arith,
      decode_u64_lem (a ∷ b ∷ c ∷ d ∷ e ∷ f ∷ g ∷ k ∷ []) rest refl
          (ha, (hb, (hc, (hd, (he, (hf, (hg, (hk, tt)))))))),
    )
decode_u64-IsU64 _ h bytes = absurd (omega arith)
