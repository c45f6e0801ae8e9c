-- ===== src/Programs/LogFile.antt =====
-- src/i2wRecorder.cpp, `configerLogger`: the log's directory and file, from HOME and the local time. What
-- create_directories does is a parameter; the logger itself is outside the repository.
pub mod ReadBack
use Prim.Native.Char.{code}
use Prim.Native.String.{String}
use tri_drishti_chrono_cap.Common.{
  ℕ, zero, suc, ◌+◌, ◌-◌, ◌*◌, ◌/◌, ◌%◌, ◌^◌, ◌≤◌, ◌<◌, ltb, ltb_of_lt, ltb_of_le, ◌≡◌, refl, ap,
  sym, ◌∙◌, arith, if◌then◌else◌, Bool, not, Option, none, some, List, [], ◌∷◌, ◌++◌, append_assoc,
  length, take, drop, length-append, length-drop, drop-drop, drop-append, get_elem?, All,
}
use native.Mathlib.Nat.{pow-suc}
use tri_drishti_chrono_cap.Programs.SessionName.{
  Tm, IsTm, digit, digits, print_padded, make_session_base_name, fixed, print_padded_lem, number,
  read_field, read_tm, session_name_read_back,
}

-- The characters of a text.
abbrev pub codes : String → List ℕ
codes String.[] = []
codes (String.◌∷◌ c s) = code c ∷ codes s

abbrev months : List (List ℕ)
months =
    codes "Jan"
    ∷ codes "Feb"
    ∷ codes "Mar"
    ∷ codes "Apr"
    ∷ codes "May"
    ∷ codes "Jun"
    ∷ codes "Jul"
    ∷ codes "Aug"
    ∷ codes "Sep"
    ∷ codes "Oct"
    ∷ codes "Nov"
    ∷ codes "Dec"
    ∷ []

abbrev name_in : List (List ℕ) → ℕ → List ℕ
name_in names m = elim (get_elem? names m) [ none ↦ codes "?" | some name ↦ name ]

-- `%b` in the "C" locale, with what is printed for a month that there is not.
abbrev pub month_name : ℕ → List ℕ
month_name m = name_in months m

-- `%Y%m%d_%H%M%S`
unfoldable pub time_stamp : Tm → List ℕ
time_stamp tm =
    digits (suc (tm.tm_year + 1900)) (tm.tm_year + 1900)
    ++ print_padded 2 (tm.tm_mon + 1)
    ++ print_padded 2 tm.tm_mday
    ++ codes "_"
    ++ print_padded 2 tm.tm_hour
    ++ print_padded 2 tm.tm_min
    ++ print_padded 2 tm.tm_sec

-- `%d_%b_%Y`
unfoldable pub date_name : Tm → List ℕ
date_name tm =
    print_padded 2 tm.tm_mday
    ++ codes "_"
    ++ month_name tm.tm_mon
    ++ codes "_"
    ++ digits (suc (tm.tm_year + 1900)) (tm.tm_year + 1900)

unfoldable pub log_dir : List ℕ → Tm → List ℕ
log_dir home tm = home ++ (codes "/logs/chronoCapRecorder/" ++ date_name tm)

unfoldable pub log_file : List ℕ → Tm → List ℕ
log_file home tm = log_dir home tm ++ (codes "/" ++ (time_stamp tm ++ codes ".log"))

-- How `configerLogger` ends: with the path that the logger is configured with, in `std::string` of a null
-- pointer, or with the exception of create_directories.
pub data LogSetup : Type 0 where
  configured : List ℕ → LogSetup
  no_home : LogSetup
  not_created : LogSetup

-- `getenv("HOME")` may give no string; opening the file is not tested.
unfoldable pub configer_logger : Option (List ℕ) → Tm → (List ℕ → Bool) → LogSetup
configer_logger none tm creates = no_home
configer_logger (some home) tm creates =
    if creates (log_dir home tm) then configured (log_file home tm) else not_created
