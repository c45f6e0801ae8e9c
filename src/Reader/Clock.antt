-- ===== src/Reader/Clock.antt =====
-- src/core/record_reader.cpp, the clock: `MonotonicNowNs` and `SleepUntilAbsoluteNs`. The calls of
-- clock_gettime and clock_nanosleep are the kernel's.
use tri_drishti_chrono_cap.Common.{
  ℕ, zero, suc, ◌+◌, ◌*◌, ◌/◌, ◌%◌, ◌^◌, ◌≤◌, ◌<◌, ◌==◌, ==_iff, ◌≡◌, ◌≢◌, refl, subst, arith, inl,
  inr, ◌⊎◌, if◌then◌else◌, Bool-cases, Option, none, some,
}

pub record Timespec : Type 0 where
  pub tv_sec : ℕ
  pub tv_nsec : ℕ

-- `EINTR`
abbrev pub interrupted : ℕ
interrupted = 4

unfoldable pub timespec_of : ℕ → Timespec
timespec_of ns = record { tv_sec = ns / 1000000000; tv_nsec = ns % 1000000000 }

-- `MonotonicNowNs`, on what clock_gettime stores.
unfoldable pub monotonic_now_ns : Timespec → ℕ
monotonic_now_ns ts = (ts.tv_sec * 1000000000 % 2 ^ 64 + ts.tv_nsec) % 2 ^ 64

-- One call of clock_nanosleep: what it returns, and the clock when it does.
pub record Wake : Type 0 where
  pub result : ℕ
  pub now : Timespec

-- The calls by number.
abbrev pub Timer : Type 0
Timer = ℕ → Timespec → Wake

-- The loop from a call on: the clock at its end. `none`: the last of the calls was interrupted too.
unfoldable pub sleep_until : Timer → ℕ → ℕ → ℕ → Option Timespec
sleep_until timer zero call target_ns = none
sleep_until timer (suc calls) call target_ns =
    let wake = timer call (timespec_of target_ns) in
    let rest = sleep_until timer calls (suc call) target_ns in
    if wake.result == interrupted then rest else some wake.now

-- A request that clock_nanosleep accepts: no more nanoseconds than a second has.
abbrev pub IsRequest : Timespec → Type 0
IsRequest ts = ts.tv_nsec < 1000000000

-- clock_nanosleep with TIMER_ABSTIME: an accepted request ends with 0 or EINTR; with 0, the clock, which
-- counts fewer than 2 ^ 64 nanoseconds, has reached the request.
pub record IsTimer (timer : Timer) : Type 0 where
  pub accepts :
      (call : ℕ) (ts : Timespec)
      → IsRequest ts
      → ((timer call ts).result ≡ 0) ⊎ ((timer call ts).result ≡ interrupted)
  pub reaches :
      (call : ℕ) (ts : Timespec)
      → (timer call ts).result ≡ 0
      → ts.tv_sec * 1000000000 + ts.tv_nsec
        ≤ (timer call ts).now.tv_sec * 1000000000 + (timer call ts).now.tv_nsec
  pub range :
      (call : ℕ) (ts : Timespec)
      → (timer call ts).now.tv_sec * 1000000000 + (timer call ts).now.tv_nsec < 2 ^ 64

-- Every 64-bit count of nanoseconds becomes a request that clock_nanosleep accepts, in a `time_t` of
-- 64 bits, and `MonotonicNowNs` of it gives the count back.
pub timespec_bounds :
    (ns : ℕ)
    → ns < 2 ^ 64
    → ((timespec_of ns).tv_nsec < 1000000000)
      × ((timespec_of ns).tv_sec < 2 ^ 63)
      × (monotonic_now_ns (timespec_of ns) ≡ ns)
unfolding timespec_of monotonic_now_ns
timespec_bounds ns h = (omega arith, omega arith, omega arith)

-- A call that is not interrupted ends at the deadline or later.
wake_lem :
    (timer : Timer) (call target_ns : ℕ)
    → IsTimer timer
    → target_ns < 2 ^ 64
    → (timer call (timespec_of target_ns)).result ≢ interrupted
    → target_ns ≤ monotonic_now_ns (timer call (timespec_of target_ns)).now
unfolding timespec_of monotonic_now_ns
wake_lem timer call target_ns law h ends =
    elim (law.accepts call (timespec_of target_ns) (omega arith)) [
      | inl slept ↦ omega (
        arith,
        law.reaches call (timespec_of target_ns) slept,
        law.range call (timespec_of target_ns),
      )
      | inr signal ↦ absurd (ends signal)
    ]

sleep_stops :
    (timer : Timer) (calls call target_ns : ℕ)
    → IsTimer timer
    → target_ns < 2 ^ 64
    → (timer call (timespec_of target_ns)).result ≢ interrupted
    → (now : Timespec) × (sleep_until timer (suc calls) call target_ns ≡ some now)
      × (target_ns ≤ monotonic_now_ns now)
unfolding sleep_until
sleep_stops timer calls call target_ns law h ends =
    elim (Bool-cases ((timer call (timespec_of target_ns)).result == interrupted)) [
      | inr stop ↦ (
        (timer call (timespec_of target_ns)).now,
        rw stop refl,
        wake_lem timer call target_ns law h ends,
      )
      | inl again ↦ absurd (ends ((==_iff _ interrupted).0 again))
    ]

-- For a 64-bit deadline, where the call that is `calls` calls after the first one is not interrupted: the
-- loop ends, with that call or before, and `MonotonicNowNs` has then reached the deadline.
pub sleep_until_reaches :
    (timer : Timer) (calls call target_ns : ℕ)
    → IsTimer timer
    → target_ns < 2 ^ 64
    → (timer (call + calls) (timespec_of target_ns)).result ≢ interrupted
    → (now : Timespec) × (sleep_until timer (suc calls) call target_ns ≡ some now)
      × (target_ns ≤ monotonic_now_ns now)
unfolding sleep_until
sleep_until_reaches timer zero call target_ns law h ends =
    let e : call + 0 ≡ call = omega arith in
    sleep_stops timer 0 call target_ns law h
      (subst (λ n. (timer n (timespec_of target_ns)).result ≢ interrupted) e ends)
sleep_until_reaches timer (suc n) call target_ns law h ends =
    let e : call + suc n ≡ suc call + n = omega arith in
    let rest =
      sleep_until_reaches timer n (suc call) target_ns law h
        (subst (λ n. (timer n (timespec_of target_ns)).result ≢ interrupted) e ends) in
    elim (Bool-cases ((timer call (timespec_of target_ns)).result == interrupted)) [
      | inr stop ↦
          sleep_stops timer (suc n) call target_ns law h
            (λ q. let t = (==_iff _ interrupted).1 q in cc)
      | inl again ↦ rw again rest
    ]
