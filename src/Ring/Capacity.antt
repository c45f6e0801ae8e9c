-- ===== src/Ring/Capacity.antt =====
-- The capacity: `static_assert((Capacity & (Capacity - 1)) == 0)`, and `idx & (Capacity - 1)` as a
-- remainder, also for an index that wrapped at 2 ^ 64.
use tri_drishti_chrono_cap.Common.{
  ℕ, zero, suc, ◌+◌, ◌-◌, ◌*◌, ◌/◌, ◌%◌, ◌^◌, ◌≤◌, ◌<◌, bit_and, ◌≡◌, ◌↔◌, refl, ap, ◌∙◌, arith,
  ◌==◌, mod-mod_of_dvd, Bool, true, ==_iff, ◌≢◌, ℕ_discrete,
}
use tri_drishti_chrono_cap.Common.Bits.{bit_and_mask, and_digit}
use native.Mathlib.Nat.{pow-suc, pow-zero, mod_self}

pow-add : (a i j : ℕ) → a ^ (i + j) ≡ a ^ i * a ^ j
pow-add a i zero = let e : i + zero ≡ i = omega arith in rw (e, pow-zero a) (omega arith)
pow-add a i (suc j) =
    let e : i + suc j ≡ suc (i + j) = omega arith in
    rw (e, pow-suc a (i + j), pow-suc a j, pow-add a i j) (omega arith)

-- The size divides the range of a 64-bit index.
pub mod-u64 : (k a : ℕ) → k ≤ 64 → a % 2 ^ 64 % 2 ^ k ≡ a % 2 ^ k
mod-u64 k a h = mod-mod_of_dvd (2 ^ k) a ∣ (2 ^ (64 - k), split) ∣₁
  where
    split : 2 ^ 64 ≡ 2 ^ k * 2 ^ (64 - k)
    split = let e : 64 ≡ k + (64 - k) = omega arith in ap (λ n. 2 ^ n) e ∙ pow-add 2 k (64 - k)

-- The class's static_assert, in `size_t`.
unfoldable pub capacity_ok : ℕ → Bool
capacity_ok capacity = bit_and capacity ((capacity + 2 ^ 64 - 1) % 2 ^ 64) == 0

bit_and_self : (n a : ℕ) → a ≤ n → bit_and a a ≡ a
bit_and_self n zero h = refl
bit_and_self zero (suc a) h = absurd (omega arith)
bit_and_self (suc n) (suc a) h =
    omega (arith, and_digit (suc a) (suc a), bit_and_self n (suc a / 2) (omega arith))

-- `n` bounds the number of halvings.
power_of_mask : (n c : ℕ) → c ≤ n → 0 < c → bit_and c (c - 1) ≡ 0 → (k : ℕ) × (c ≡ 2 ^ k)
power_of_mask zero c h pos e = absurd (omega arith)
power_of_mask (suc n) c h pos e = elim (ℕ_discrete (c % 2) 0) [
  | yes even ↦
      let m : ℕ = c / 2 in
      let e' : bit_and m (m - 1) ≡ 0 = rw (← half_even even) (omega (arith, and_digit c (c - 1))) in
      let (j, p) = power_of_mask n m (omega arith) (omega arith) e' in
      (suc j, omega (arith, pow-suc 2 j))
  | no odd ↦ (
    0,
    omega (arith, and_digit c (c - 1), bit_and_self (c / 2) (c / 2) (omega arith), half_odd odd),
  )
]
  where
    half_even : c % 2 ≡ 0 → (c - 1) / 2 ≡ c / 2 - 1
    half_even even = omega arith

    half_odd : c % 2 ≢ 0 → bit_and (c / 2) ((c - 1) / 2) ≡ bit_and (c / 2) (c / 2)
    half_odd odd = ap (λ x. bit_and (c / 2) x) (omega arith)

-- Of the 64-bit capacities that are not 0, the static_assert accepts exactly the powers of two.
pub capacity_ok_iff :
    (capacity : ℕ)
    → 0 < capacity
    → capacity < 2 ^ 64
    → (capacity_ok capacity ≡ true) ↔ ((k : ℕ) × (capacity ≡ 2 ^ k))
unfolding capacity_ok
capacity_ok_iff c pos h = rw wrapped (to, from)
  where
    wrapped : (c + 2 ^ 64 - 1) % 2 ^ 64 ≡ c - 1
    wrapped = omega arith

    to : (bit_and c (c - 1) == 0) ≡ true → (k : ℕ) × (c ≡ 2 ^ k)
    to t = power_of_mask c c (omega arith) pos ((==_iff _ 0).0 t)

    from : (k : ℕ) × (c ≡ 2 ^ k) → (bit_and c (c - 1) == 0) ≡ true
    from (k, e) = (==_iff _ 0).1 (rw (e, bit_and_mask, mod_self))
