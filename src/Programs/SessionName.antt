-- ===== src/Programs/SessionName.antt =====
-- src/i2wRecorder.cpp, `MakeSessionBaseName`: the file's name, from what localtime_r gives.
use tri_drishti_chrono_cap.Common.{
  ℕ, zero, suc, ◌+◌, ◌-◌, ◌*◌, ◌/◌, ◌%◌, ◌^◌, ◌<◌, ltb, ltb_of_lt, ltb_of_le, ◌≡◌, refl, ap, sym,
  ◌∙◌, arith, if◌then◌else◌, Bool, List, [], ◌∷◌, ◌++◌, append_assoc, length, take, drop, replicate,
  length-append, dec_lt,
}
use native.Mathlib.Nat.{pow-suc}

-- `std::tm`; its year counts from 1900, its month from 0. The flag of daylight saving time is set where
-- `tm_isdst` is positive; the days of the week and of the year follow from the date.
pub record Tm : Type 0 where
  pub tm_year : ℕ
  pub tm_mon : ℕ
  pub tm_mday : ℕ
  pub tm_hour : ℕ
  pub tm_min : ℕ
  pub tm_sec : ℕ
  pub tm_isdst : Bool

abbrev pub digit : ℕ → ℕ
digit d = b'0' + d

-- The decimal digits of a number; `suc n` rounds are more than it has digits.
unfoldable pub digits : ℕ → ℕ → List ℕ
digits zero n = []
digits (suc fuel) n =
    let front = digits fuel (n / 10) in
    if ltb n 10 then digit n ∷ [] else front ++ (digit (n % 10) ∷ [])

-- `%0wd`
unfoldable pub print_padded : ℕ → ℕ → List ℕ
print_padded width n = let ds = digits (suc n) n in replicate (width - length ds) (digit 0) ++ ds

abbrev prefix : List ℕ
prefix = b'r' ∷ b'e' ∷ b'c' ∷ b'o' ∷ b'r' ∷ b'd' ∷ b'i' ∷ b'n' ∷ b'g' ∷ b'_' ∷ []

-- snprintf stores at most 63 characters and a NUL in the 64 bytes.
unfoldable pub make_session_base_name : Tm → List ℕ
make_session_base_name tm = take 63 (
    prefix
    ++ print_padded 4 (tm.tm_year + 1900)
    ++ print_padded 2 (tm.tm_mon + 1)
    ++ print_padded 2 tm.tm_mday
    ++ (b'_' ∷ [])
    ++ print_padded 2 tm.tm_hour
    ++ print_padded 2 tm.tm_min
    ++ print_padded 2 tm.tm_sec)

-- The ranges that localtime_r documents, up to the year 9999.
pub record IsTm (tm : Tm) : Type 0 where
  pub year : tm.tm_year + 1900 < 10000
  pub mon : tm.tm_mon < 12
  pub mday : tm.tm_mday < 32
  pub hour : tm.tm_hour < 24
  pub min : tm.tm_min < 60
  pub sec : tm.tm_sec < 61

-- A number in exactly so many digits, and a run of digits read as a number.
abbrev pub fixed : ℕ → ℕ → List ℕ
fixed zero n = []
fixed (suc w) n = fixed w (n / 10) ++ (digit (n % 10) ∷ [])

abbrev pub number : ℕ → List ℕ → ℕ
number acc [] = acc
number acc (c ∷ cs) = number (acc * 10 + (c - b'0')) cs

-- What a reader of the name takes from its positions.
abbrev pub read_field : ℕ → ℕ → List ℕ → ℕ
read_field at width name = number 0 (take width (drop at name))

-- The time in a name, by a reader who is told of the daylight saving time.
abbrev pub read_tm : Bool → List ℕ → Tm
read_tm isdst name = record {
  tm_year = read_field 10 4 name - 1900;
  tm_mon = read_field 14 2 name - 1;
  tm_mday = read_field 16 2 name;
  tm_hour = read_field 19 2 name;
  tm_min = read_field 21 2 name;
  tm_sec = read_field 23 2 name;
  tm_isdst = isdst;
}

fixed-zero : (w : ℕ) → fixed w 0 ≡ replicate w (digit 0)
fixed-zero zero = refl
fixed-zero (suc w) = ap (λ l. l ++ (digit 0 ∷ [])) (fixed-zero w) ∙ last w
  where
    last : (w : ℕ) → replicate w (digit 0) ++ (digit 0 ∷ []) ≡ digit 0 ∷ replicate w (digit 0)
    last zero = refl
    last (suc w) = ap (λ l. digit 0 ∷ l) (last w)

padded_one :
    (w fuel n : ℕ)
    → n < 10
    → replicate (suc w - length (digits (suc fuel) n)) (digit 0) ++ digits (suc fuel) n
      ≡ fixed (suc w) n
unfolding digits
padded_one w fuel n one =
    let front : n / 10 ≡ 0 = omega arith in
    let last : n % 10 ≡ n = omega arith in
    let less : suc w - 1 ≡ w = omega arith in
    rw (ltb_of_lt one, front, last, fixed-zero w, less) refl

-- Padded printing of a number with at most `w + 1` digits.
padded :
    (w fuel n : ℕ)
    → n < fuel
    → n < 10 ^ suc w
    → replicate (suc w - length (digits fuel n)) (digit 0) ++ digits fuel n ≡ fixed (suc w) n
unfolding digits
padded w zero n h small = absurd (omega arith)
padded zero (suc fuel) n h small = padded_one zero fuel n (omega arith)
padded (suc w) (suc fuel) n h small =
    let ds = digits fuel (n / 10) in
    let c = digit (n % 10) ∷ [] in
    elim (dec_lt n 10) [
      | yes one ↦ padded_one (suc w) fuel n one
      | no more ↦ rw (ltb_of_le {a = n} {b = 10} (omega arith)) (
          ap (λ m. replicate m (digit 0) ++ (ds ++ c)) (omega (arith, length-append ds c))
          ∙ sym (append_assoc (replicate (suc w - length ds) (digit 0)) ds c)
          ∙ ap (λ l. l ++ c)
              (padded w fuel (n / 10) (omega arith) (omega (arith, pow-suc 10 (suc w)))))
    ]

pub print_padded_lem : (w n : ℕ) → n < 10 ^ suc w → print_padded (suc w) n ≡ fixed (suc w) n
unfolding print_padded
print_padded_lem w n small = padded w (suc n) n (omega arith) small

number-fixed_two : (n : ℕ) → n < 100 → number 0 (fixed 2 n) ≡ n
number-fixed_two n h = omega arith

number-fixed_four : (n : ℕ) → n < 10000 → number 0 (fixed 4 n) ≡ n
number-fixed_four n h = omega arith

same_tm :
    (a b : Tm)
    → a.tm_year ≡ b.tm_year
    → a.tm_mon ≡ b.tm_mon
    → a.tm_mday ≡ b.tm_mday
    → a.tm_hour ≡ b.tm_hour
    → a.tm_min ≡ b.tm_min
    → a.tm_sec ≡ b.tm_sec
    → a.tm_isdst ≡ b.tm_isdst
    → a ≡ b
same_tm a b y mo d h mi s dst = cc

-- For the times that localtime_r gives, up to the year 9999: the name has 25 characters, fewer than the
-- buffer's 63, and the year, month, day, hour, minute and second can be read back from their places in
-- it. The name does not say whether daylight saving time is in force: with the flag as it is or the
-- other way round the name is the same, so that two moments an hour apart share one when it ends.
pub session_name_read_back :
    (tm : Tm)
    → IsTm tm
    → (length (make_session_base_name tm) ≡ 25)
      × (read_tm tm.tm_isdst (make_session_base_name tm) ≡ tm)
      × ((isdst : Bool)
          → make_session_base_name (record tm { tm_isdst = isdst }) ≡ make_session_base_name tm)
unfolding make_session_base_name
session_name_read_back tm ok =
    rw
      (
        print_padded_lem 3 (tm.tm_year + 1900) (omega (arith, ok.year)),
        print_padded_lem 1 (tm.tm_mon + 1) (omega (arith, ok.mon)),
        print_padded_lem 1 tm.tm_mday (omega (arith, ok.mday)),
        print_padded_lem 1 tm.tm_hour (omega (arith, ok.hour)),
        print_padded_lem 1 tm.tm_min (omega (arith, ok.min)),
        print_padded_lem 1 tm.tm_sec (omega (arith, ok.sec)),
      )
      (
        refl,
        same_tm _ tm (omega (arith, number-fixed_four (tm.tm_year + 1900) ok.year))
            (omega (arith, number-fixed_two (tm.tm_mon + 1) (omega (arith, ok.mon))))
            (number-fixed_two tm.tm_mday (omega (arith, ok.mday)))
            (number-fixed_two tm.tm_hour (omega (arith, ok.hour)))
            (number-fixed_two tm.tm_min (omega (arith, ok.min)))
            (number-fixed_two tm.tm_sec (omega (arith, ok.sec))) refl,
        λ isdst. refl,
      )
