-- ===== src/Wire/Memory.antt =====
-- The C memory functions that the format's code calls, on lists of bytes that start at the pointer.
use tri_drishti_chrono_cap.Common.{
  ℕ, suc, ◌==◌, if◌then◌else◌, Bool, true, false, ◌&&◌, Option, none, some, List, [], ◌∷◌, ◌++◌,
  take, drop, replicate,
}

-- `f(out + k)`: a write that begins `k` bytes into the buffer.
abbrev pub at : ℕ → (List ℕ → List ℕ) → List ℕ → List ℕ
at k f out = take k out ++ f (drop k out)

-- `memcpy(out, src, n)`
abbrev pub memcpy : List ℕ → List ℕ → ℕ → List ℕ
memcpy out src n = take n src ++ drop n out

-- `memset(out, 0, n)`
abbrev pub zero_fill : List ℕ → ℕ → List ℕ
zero_fill out n = replicate n 0 ++ drop n out

-- `memcmp(a, b, length of b) == 0`; bytes that `a` lacks differ.
unfoldable pub starts_with : List ℕ → List ℕ → Bool
starts_with a [] = true
starts_with [] (y ∷ b) = false
starts_with (x ∷ a) (y ∷ b) = (x == y) && starts_with a b

-- `strlen`: `none` where no NUL stands in the array, a read past its end.
unfoldable pub strlen : List ℕ → Option ℕ
strlen [] = none
strlen (c ∷ s) =
    if c == 0 then some 0 else (elim (strlen s) [ none ↦ none | some n ↦ some (suc n) ])

-- The characters before the first NUL, or all of them: `c_str()` as a C function reads it.
unfoldable pub c_str : List ℕ → List ℕ
c_str [] = []
c_str (c ∷ s) = if c == 0 then [] else c ∷ c_str s
