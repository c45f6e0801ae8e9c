-- ===== src/Programs/LogFile/ReadBack.antt =====
-- What the log's path says: the names in it, its length, and the time.
use tri_drishti_chrono_cap.Common.{
  ℕ, zero, suc, ◌+◌, ◌-◌, ◌/◌, ◌%◌, ◌^◌, ◌≤◌, ◌<◌, ltb_of_lt, ltb_of_le, ◌≡◌, refl, ap, sym, ◌∙◌,
  arith, Bool, List, [], ◌∷◌, ◌++◌, append_assoc, length, take, drop, length-append, length-drop,
  drop-drop, drop-append, All,
}
use native.Mathlib.Nat.{pow-suc}
use tri_drishti_chrono_cap.Programs.SessionName.{
  Tm, IsTm, digits, print_padded, make_session_base_name, fixed, print_padded_lem, number,
  read_field, read_tm, session_name_read_back,
}
use tri_drishti_chrono_cap.Programs.LogFile.{
  codes, months, name_in, month_name, time_stamp, date_name, log_dir, log_file,
}

length-name_in :
    (names : List (List ℕ)) (m : ℕ)
    → All (λ s. length s ≡ 3) names
    → m < length names
    → length (name_in names m) ≡ 3
length-name_in [] m a h = absurd (omega arith)
length-name_in (s ∷ names) zero (e, a) h = e
length-name_in (s ∷ names) (suc m) (e, a) h = length-name_in names m a (omega arith)

ten_pow_pos : (w : ℕ) → 0 < 10 ^ w
ten_pow_pos zero = omega arith
ten_pow_pos (suc w) = omega (arith, pow-suc 10 w, ten_pow_pos w)

three_chars : (l : List ℕ) → length l ≡ 3 → (a : ℕ) × (b : ℕ) × (c : ℕ) × (l ≡ a ∷ b ∷ c ∷ [])
three_chars [] e = absurd (omega arith)
three_chars (a ∷ []) e = absurd (omega arith)
three_chars (a ∷ b ∷ []) e = absurd (omega arith)
three_chars (a ∷ b ∷ c ∷ []) e = (a, b, c, refl)
three_chars (a ∷ b ∷ c ∷ d ∷ l) e = absurd (omega arith)

-- A number of `w + 1` digits prints as those digits.
digits-fixed :
    (w fuel n : ℕ) → n < fuel → 10 ^ w ≤ n → n < 10 ^ suc w → digits fuel n ≡ fixed (suc w) n
unfolding digits
digits-fixed w zero n h big small = absurd (omega arith)
digits-fixed zero (suc fuel) n h big small =
    let last : n % 10 ≡ n = omega arith in rw (ltb_of_lt {a = n} {b = 10} (omega arith), last) refl
digits-fixed (suc w) (suc fuel) n h big small =
    let front =
      digits-fixed w fuel (n / 10) (omega arith) (omega (arith, pow-suc 10 w))
        (omega (arith, pow-suc 10 (suc w))) in
    rw (ltb_of_le {a = n} {b = 10} (omega (arith, pow-suc 10 w, ten_pow_pos w)), front) refl

-- What is printed of a time, in digits of known number.
record Printed (tm : Tm) : Type 0 where
  year : digits (suc (tm.tm_year + 1900)) (tm.tm_year + 1900) ≡ fixed 4 (tm.tm_year + 1900)
  same_year : print_padded 4 (tm.tm_year + 1900) ≡ fixed 4 (tm.tm_year + 1900)
  mon : print_padded 2 (tm.tm_mon + 1) ≡ fixed 2 (tm.tm_mon + 1)
  mday : print_padded 2 tm.tm_mday ≡ fixed 2 tm.tm_mday
  hour : print_padded 2 tm.tm_hour ≡ fixed 2 tm.tm_hour
  min : print_padded 2 tm.tm_min ≡ fixed 2 tm.tm_min
  sec : print_padded 2 tm.tm_sec ≡ fixed 2 tm.tm_sec

IsTm-Printed : (tm : Tm) → IsTm tm → 1000 ≤ tm.tm_year + 1900 → Printed tm
IsTm-Printed tm ok big = record {
  year =
      digits-fixed 3 _ (tm.tm_year + 1900) (omega arith) (omega (arith, big))
        (omega (arith, ok.year));
  same_year = print_padded_lem 3 (tm.tm_year + 1900) (omega (arith, ok.year));
  mon = print_padded_lem 1 (tm.tm_mon + 1) (omega (arith, ok.mon));
  mday = print_padded_lem 1 tm.tm_mday (omega (arith, ok.mday));
  hour = print_padded_lem 1 tm.tm_hour (omega (arith, ok.hour));
  min = print_padded_lem 1 tm.tm_min (omega (arith, ok.min));
  sec = print_padded_lem 1 tm.tm_sec (omega (arith, ok.sec));
}

-- The stamp is the session's name without its prefix.
time_stamp-make_session_base_name :
    (tm : Tm) → Printed tm → time_stamp tm ≡ drop 10 (make_session_base_name tm)
unfolding time_stamp make_session_base_name
time_stamp-make_session_base_name tm p =
    rw (p.year, p.same_year, p.mon, p.mday, p.hour, p.min, p.sec) refl

-- What stands behind HOME: 36 characters, the stamp, and ".log".
log_file-home :
    (home : List ℕ) (tm : Tm)
    → Printed tm
    → tm.tm_mon < 12
    → (front : List ℕ) × (length front ≡ 36)
      × (log_file home tm ≡ home ++ (front ++ (time_stamp tm ++ codes ".log")))
unfolding log_file log_dir date_name
log_file-home home tm p mon =
    let (a, b, c, e) = three_chars (month_name tm.tm_mon) (
      length-name_in months tm.tm_mon
        (
          refl,
          (
            refl,
            (refl, (refl, (refl, (refl, (refl, (refl, (refl, (refl, (refl, (refl, tt)))))))))),
          ),
        )
        mon) in
    (
      codes "/logs/chronoCapRecorder/" ++ (date_name tm ++ codes "/"),
      rw (p.year, p.mday, e) refl,
      let pre = codes "/logs/chronoCapRecorder/" in
          append_assoc home (pre ++ date_name tm) (codes "/" ++ (time_stamp tm ++ codes ".log"))
          ∙ ap (λ l. home ++ l)
              (append_assoc pre (date_name tm) (codes "/" ++ (time_stamp tm ++ codes ".log"))
                ∙ ap (λ l. pre ++ l)
                    (sym
                      (append_assoc (date_name tm) (codes "/") (time_stamp tm ++ codes ".log")))),
    )

take-drop-append :
    (j w : ℕ) (xs ys : List ℕ) → j + w ≤ length xs → take w (drop j (xs ++ ys)) ≡ take w (drop j xs)
take-drop-append zero zero xs ys h = refl
take-drop-append zero (suc w) [] ys h = absurd (omega arith)
take-drop-append zero (suc w) (x ∷ xs) ys h =
    ap (λ l. x ∷ l) (take-drop-append zero w xs ys (omega arith))
take-drop-append (suc j) w [] ys h = absurd (omega arith)
take-drop-append (suc j) w (x ∷ xs) ys h = take-drop-append j w xs ys (omega arith)

-- A field of the stamp reads the same in the path and in the session's name.
read_field-log_file :
    (home : List ℕ) (tm : Tm) (front rest : List ℕ)
    → length front ≡ 36
    → log_file home tm ≡ home ++ (front ++ (time_stamp tm ++ rest))
    → time_stamp tm ≡ drop 10 (make_session_base_name tm)
    → (j w : ℕ) → j + w ≤ length (time_stamp tm)
    → read_field (10 + j) w (drop (length home + 26) (log_file home tm))
      ≡ read_field (10 + j) w (make_session_base_name tm)
read_field-log_file home tm front rest whole at_home stamp j w h =
    let path = log_file home tm in
    let size : length (home ++ front) ≡ length home + 36 =
      omega (arith, length-append home front, whole) in
    let moved : length home + 26 + (10 + j) ≡ length home + 36 + j = omega arith in
    let in_path : drop (10 + j) (drop (length home + 26) path) ≡ drop j (time_stamp tm ++ rest) =
      drop-drop (10 + j) (length home + 26) path
      ∙ ap (λ n. drop n path) moved
      ∙ sym (drop-drop j (length home + 36) path)
      ∙ ap (λ l. drop j (drop (length home + 36) l))
          (at_home ∙ sym (append_assoc home front (time_stamp tm ++ rest)))
      ∙ ap (drop j) (drop-append (length home + 36) (home ++ front) (time_stamp tm ++ rest) size) in
    ap (λ l. number 0 (take w l)) in_path
    ∙ ap (number 0) (take-drop-append j w (time_stamp tm) rest h)
    ∙ ap (λ l. number 0 (take w (drop j l))) stamp
    ∙ ap (λ l. number 0 (take w l)) (drop-drop j 10 (make_session_base_name tm))

-- For the times that localtime_r gives in the years 1000 to 9999 the log's file stands in the log's
-- directory, its name is the name of a session of the same moment without "recording_", the path is 55
-- characters longer than HOME, and the year, month, day, hour, minute and second can be read back from it.
-- The path does not say whether daylight saving time is in force: with the flag either way it is the
-- same, so that two logs that are started an hour apart share a file when it ends.
pub log_file_read_back :
    (home : List ℕ) (tm : Tm)
    → IsTm tm
    → 1000 ≤ tm.tm_year + 1900
    → (log_file home tm
        ≡ log_dir home tm ++ (codes "/" ++ (drop 10 (make_session_base_name tm) ++ codes ".log")))
      × (length (log_file home tm) ≡ length home + 55)
      × (read_tm tm.tm_isdst (drop (length home + 26) (log_file home tm)) ≡ tm)
      × ((isdst : Bool) → log_file home (record tm { tm_isdst = isdst }) ≡ log_file home tm)
unfolding log_file log_dir date_name time_stamp
log_file_read_back home tm ok big =
    let p = IsTm-Printed tm ok big in
    let stamp = time_stamp-make_session_base_name tm p in
    let (front, whole, at_home) = log_file-home home tm p ok.mon in
    let (size, back, same_name) = session_name_read_back tm ok in
    let many : length (time_stamp tm) ≡ 15 =
      ap length stamp ∙ omega (arith, length-drop 10 (make_session_base_name tm), size) in
    let same_field = read_field-log_file home tm front (codes ".log") whole at_home stamp in
    (
      ap (λ l. log_dir home tm ++ (codes "/" ++ (l ++ codes ".log"))) stamp,
      ap length at_home
          ∙ omega (
            arith,
            length-append home (front ++ (time_stamp tm ++ codes ".log")),
            length-append front (time_stamp tm ++ codes ".log"),
            length-append (time_stamp tm) (codes ".log"),
            whole,
            ap length stamp,
            length-drop 10 (make_session_base_name tm),
            size,
          ),
      (λ i. record {
        tm_year = same_field 0 4 (omega (arith, many)) i - 1900;
        tm_mon = same_field 4 2 (omega (arith, many)) i - 1;
        tm_mday = same_field 6 2 (omega (arith, many)) i;
        tm_hour = same_field 9 2 (omega (arith, many)) i;
        tm_min = same_field 11 2 (omega (arith, many)) i;
        tm_sec = same_field 13 2 (omega (arith, many)) i;
        tm_isdst = tm.tm_isdst;
      })
          ∙ back,
      λ isdst. refl,
    )
