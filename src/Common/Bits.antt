-- ===== src/Common/Bits.antt =====
-- `&` with a mask of low bits and `|` of disjoint fields, as arithmetic.
use Prim.Native.Nat.{
  ℕ, zero, suc, ◌+◌, ◌-◌, ◌*◌, ◌/◌, ◌%◌, ◌^◌, ◌≤◌, ◌<◌, min, max, bit_and, bit_or, digits,
  bit_and-bitwise, bit_or-bitwise,
}
use mathlib.Core.Path.{◌≡◌, refl, ap, ◌≡⟨◌⟩◌, ◌∎}
use native.Mathlib.Nat.{
  pow-suc, one-le-pow, mul-add-mod_self_left, mod-eq_of_lt, mod-lt, div-add-mod,
}
use native.Mathlib.Omega.{arith}

-- The digit recursion that a native bit operation stands for, with its fuel.
module _ (left : ℕ → ℕ) (op : ℕ → ℕ → ℕ) where
  abbrev by_digits : ℕ → ℕ → ℕ → ℕ
  by_digits = digits left op

  -- A number needs no more rounds than itself, so any two supplies of that many agree.
  enough_rounds :
      (y x rounds others : ℕ)
      → x ≤ rounds × x ≤ others
      → by_digits rounds x y ≡ by_digits others x y
  enough_rounds y zero zero zero fit = refl
  enough_rounds y zero zero (suc others) fit = refl
  enough_rounds y zero (suc rounds) zero fit = refl
  enough_rounds y zero (suc rounds) (suc others) fit = refl
  enough_rounds y (suc x) zero others (few, _) = absurd (omega arith)
  enough_rounds y (suc x) (suc rounds) zero (_, few) = absurd (omega arith)
  enough_rounds y (suc x) (suc rounds) (suc others) (l, r) =
      let halves = enough_rounds (y / 2) (suc x / 2) rounds others (omega arith, omega arith) in
      omega arith

and_zero : (b : ℕ) → bit_and 0 b ≡ 0
and_zero b = bit_and-bitwise 0 b

or_zero : (b : ℕ) → bit_or 0 b ≡ b
or_zero b = bit_or-bitwise 0 b

-- One binary digit of `&` and of `|`.
pub and_digit : (a b : ℕ) → bit_and a b ≡ bit_and (a / 2) (b / 2) * 2 + min (a % 2) (b % 2)
and_digit zero b = omega (arith, and_zero b, and_zero (b / 2))
and_digit (suc a) b = omega (
  arith,
  bit_and-bitwise (suc a) b,
  bit_and-bitwise (suc a / 2) (b / 2),
  enough_rounds (λ _. 0) min (b / 2) (suc a / 2) a (suc a / 2) (omega arith, omega arith),
)

or_digit : (a b : ℕ) → bit_or a b ≡ bit_or (a / 2) (b / 2) * 2 + max (a % 2) (b % 2)
or_digit zero b = omega (arith, or_zero b, or_zero (b / 2))
or_digit (suc a) b = omega (
  arith,
  bit_or-bitwise (suc a) b,
  bit_or-bitwise (suc a / 2) (b / 2),
  enough_rounds (λ b. b) max (b / 2) (suc a / 2) a (suc a / 2) (omega arith, omega arith),
)

pub and_none : (n a : ℕ) → a ≤ n → bit_and a 0 ≡ 0
and_none n zero h = refl
and_none zero (suc a) h = absurd (omega arith)
and_none (suc n) (suc a) h =
    omega (arith, and_digit (suc a) 0, and_none n (suc a / 2) (omega arith))

-- The remainder by `2 * p` from the half of `a` and its last bit.
mod_double : (a p : ℕ) → 0 < p → a % (p * 2) ≡ a / 2 % p * 2 + a % 2
mod_double a p h =
    a % (p * 2)
    ≡⟨ ap (λ t. t % (p * 2)) split ⟩ (p * 2 * (a / 2 / p) + low) % (p * 2)
    ≡⟨ mul-add-mod_self_left (p * 2) (a / 2 / p) low ⟩ low % (p * 2)
    ≡⟨ mod-eq_of_lt (omega (arith, mod-lt (a / 2) h)) ⟩ low ∎
  where
    low : ℕ
    low = a / 2 % p * 2 + a % 2

    split : a ≡ p * 2 * (a / 2 / p) + low
    split = omega (arith, div-add-mod (a / 2) p)

-- `a & (2 ^ k - 1)` keeps the low `k` bits.
pub bit_and_mask : (k a : ℕ) → bit_and a (2 ^ k - 1) ≡ a % 2 ^ k
bit_and_mask zero a = omega (arith, and_none a a (omega arith))
bit_and_mask (suc k) a = rw pow-suc (
    ground (
      arith,
      and_digit a (2 ^ k * 2 - 1),
      halved,
      mod_double a (2 ^ k) (one-le-pow k 2 (omega arith)),
      bit_and_mask k (a / 2),
      one-le-pow k 2,
    ))
  where
    halved : (2 ^ k * 2 - 1) / 2 ≡ 2 ^ k - 1
    halved = omega arith

-- `r | (q << k)` is a sum where `r` fits in `k` bits.
pub bit_or_shift : (k q r : ℕ) → r < 2 ^ k → bit_or r (q * 2 ^ k) ≡ r + q * 2 ^ k
bit_or_shift zero q zero h = omega (arith, or_zero (q * 1))
bit_or_shift zero q (suc r) h = absurd (omega arith)
bit_or_shift (suc k) q r h = ground (
  arith,
  or_digit r (q * 2 ^ suc k),
  pow-suc 2 k,
  ap (λ (t : ℕ). q * t) (pow-suc 2 k),
  bit_or_shift k q (r / 2),
)
