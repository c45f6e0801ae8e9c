-- ===== src/Reader/Timed.antt =====
-- src/core/record_reader.cpp, `Run` with the clock: `MonotonicNowNs` at the first record, and
-- `SleepUntilAbsoluteNs` before each call of the callback.
use tri_drishti_chrono_cap.Common.{
  ℕ, zero, suc, ◌+◌, ◌%◌, ◌^◌, ◌≤◌, ◌<◌, ◌≡◌, ◌≢◌, refl, ap, sym, subst, arith, inl, inr,
  Bool-cases, Option-cases, ltb, if◌then◌else◌, Option, none, some, List, [], ◌∷◌, map, take, drop,
  All,
}
use tri_drishti_chrono_cap.Wire.Header.{record_header_wire_size, deserialize_record_header}
use tri_drishti_chrono_cap.Reader.{
  RecordReader, Played, file_size, find, elapsed_ns, target, first_stamp, and_then, run_loop, run,
}
use tri_drishti_chrono_cap.Reader.Clock.{
  Timespec, Timer, IsTimer, interrupted, timespec_of, monotonic_now_ns, sleep_until,
  sleep_until_reaches,
}
use tri_drishti_chrono_cap.Reader.Total.{run-total}

-- A call of the callback, with the clock when it is made.
pub record Heard : Type 0 where
  pub played : Played
  pub at : Timespec

-- `t0_ns` and `replay_start_monotonic_ns` once a record has been seen.
pub record Started : Type 0 where
  pub t0_ns : ℕ
  pub start_ns : ℕ

-- `none`: the sleep before this call has not ended, or what comes behind it has not.
abbrev pub heard_then : Played → Option Timespec → Option (List Heard) → Option (List Heard)
heard_then p none rest = none
heard_then p (some now) none = none
heard_then p (some now) (some hs) = some (record { played = p; at = now } ∷ hs)

abbrev pub begin : Timespec → ℕ → Option Started → Started
begin now stamp_ns none = record { t0_ns = stamp_ns; start_ns = monotonic_now_ns now }
begin now stamp_ns (some s) = s

-- `now` is what clock_gettime stores at the first record; the n-th record's sleep meets the n-th timer,
-- and `calls` bounds the calls of one sleep.
module _ (r : RecordReader) (now : Timespec) (timers : ℕ → Timer) (calls : ℕ) where
  unfoldable pub timed_loop : ℕ → ℕ → Option Started → ℕ → Option (List Heard)
  timed_loop zero n have_t0 offset = none
  timed_loop (suc fuel) n have_t0 offset =
      let hdr = deserialize_record_header (drop offset r.base) in
      let payload_offset = offset + record_header_wire_size in
      let s = begin now hdr.stamp_ns have_t0 in
      let target_ns = (s.start_ns + elapsed_ns s.t0_ns hdr.stamp_ns) % 2 ^ 64 in
      if ltb (file_size r) (offset + record_header_wire_size)
      then some []
      else (elim (find hdr.topic_id r.by_id) [
        | none ↦ some []
        | some topic ↦
            let rest = timed_loop fuel (suc n) (some s) (payload_offset + topic.wire_size) in
            if ltb (file_size r) (payload_offset + topic.wire_size)
            then some []
            else heard_then
                (record {
                  topic_id = hdr.topic_id;
                  stamp_ns = hdr.stamp_ns;
                  seq = hdr.seq;
                  payload = take topic.wire_size (drop payload_offset r.base);
                  len = topic.wire_size;
                  target_ns = some target_ns;
                })
                (sleep_until (timers n) calls 0 target_ns) rest
      ])

  unfoldable pub timed_run : Option (List Heard)
  timed_run = timed_loop (suc (file_size r)) 0 none r.records_start_offset

-- The call is made when its deadline has come, not before.
pub record OnTime (h : Heard) : Type 0 where
  pub deadline : ℕ
  pub is_target : h.played.target_ns ≡ some deadline
  pub reached : deadline ≤ monotonic_now_ns h.at

-- The timers keep their law, and in every sleep the call behind the first `calls` is not interrupted.
pub record Wakes (timers : ℕ → Timer) (calls : ℕ) : Type 0 where
  pub law : (n : ℕ) → IsTimer (timers n)
  pub ends :
      (n target_ns : ℕ)
      → target_ns < 2 ^ 64
      → (timers n calls (timespec_of target_ns)).result ≢ interrupted

-- The clocked loop makes the calls of the other one, on time.
abbrev Keeps : Option (List Played) → Option (List Heard) → Type 0
Keeps none o = Unit
Keeps (some ps) o =
    (hs : List Heard) × (o ≡ some hs) × (map (λ h. h.played) hs ≡ ps) × All OnTime hs

Keeps-and_then :
    (timer : Timer) (calls deadline : ℕ) (p : Played) (ps : Option (List Played))
    (o : Option (List Heard))
    → IsTimer timer
    → (timer calls (timespec_of deadline)).result ≢ interrupted
    → deadline < 2 ^ 64
    → p.target_ns ≡ some deadline
    → Keeps ps o
    → Keeps (and_then p ps) (heard_then p (sleep_until timer (suc calls) 0 deadline) o)
Keeps-and_then timer calls deadline p none o law ends h is k = tt
Keeps-and_then timer calls deadline p (some ps) o law ends h is (hs, e, same, on) =
    let zero_more : 0 + calls ≡ calls = omega arith in
    let (now, woke, reached) =
      sleep_until_reaches timer calls 0 deadline law h
        (subst (λ k. (timer k (timespec_of deadline)).result ≢ interrupted) (sym zero_more) ends) in
    (
      record { played = p; at = now } ∷ hs,
      rw (woke, e) refl,
      ap (λ l. p ∷ l) same,
      (record { deadline = deadline; is_target = is; reached = reached }, on),
    )

module _ (r : RecordReader) (now : Timespec) (timers : ℕ → Timer) (calls : ℕ) where
  abbrev started : Option ℕ → Option Started
  started none = none
  started (some t0) = some (record { t0_ns = t0; start_ns = monotonic_now_ns now })

  begin-started :
      (stamp : ℕ) (t0 : Option ℕ)
      → begin now stamp (started t0)
        ≡ record { t0_ns = first_stamp t0 stamp; start_ns = monotonic_now_ns now }
  begin-started stamp none = refl
  begin-started stamp (some t0) = refl

  timed_loop-Keeps :
      Wakes timers calls
      → (fuel n : ℕ) (t0 : Option ℕ) (offset : ℕ)
      → Keeps
          (run_loop r fuel (monotonic_now_ns now) t0 offset)
          (timed_loop r now timers (suc calls) fuel n (started t0) offset)
  unfolding run_loop timed_loop
  timed_loop-Keeps w zero n t0 offset = tt
  timed_loop-Keeps w (suc fuel) n t0 offset =
      let hdr = deserialize_record_header (drop offset r.base) in
      elim (Bool-cases (ltb (file_size r) (offset + 18))) [
        | inl cut ↦ rw (cut) ([], refl, refl, tt)
        | inr fits ↦ elim (Option-cases (find hdr.topic_id r.by_id)) [
          | inl e ↦ rw (fits, e) ([], refl, refl, tt)
          | inr (t, e) ↦ elim (Bool-cases (ltb (file_size r) (offset + 18 + t.wire_size))) [
            | inl cut ↦ rw (fits, e, cut) ([], refl, refl, tt)
            | inr whole ↦
                rw (fits, e, whole, begin-started hdr.stamp_ns t0)
                  (let deadline =
                      target (monotonic_now_ns now) (first_stamp t0 hdr.stamp_ns) hdr.stamp_ns in
                    Keeps-and_then (timers n) calls deadline _ _ _ (w.law n)
                      (w.ends n deadline (omega arith)) (omega arith) refl
                      (timed_loop-Keeps w fuel (suc n) (some (first_stamp t0 hdr.stamp_ns)) _))
          ]
        ]
      ]

  -- `Run` with the clock, on any file: where no more than `calls` calls of clock_nanosleep in a row are
  -- interrupted, it ends, makes the calls that `run` says, from the clock at the first record on, in that
  -- order, and makes none before its deadline.
  pub timed_run_lem :
      Wakes timers calls
      → (plays : List Played) × (hs : List Heard) × (run r (monotonic_now_ns now) ≡ some plays)
        × (timed_run r now timers (suc calls) ≡ some hs)
        × (map (λ h. h.played) hs ≡ plays)
        × All OnTime hs
  unfolding timed_run run
  timed_run_lem w =
      by_run (run r (monotonic_now_ns now)) refl
        (timed_loop-Keeps w (suc (file_size r)) 0 none r.records_start_offset)
    where
      by_run :
          (o : Option (List Played))
          → run r (monotonic_now_ns now) ≡ o
          → Keeps o (timed_run r now timers (suc calls))
          → (plays : List Played) × (hs : List Heard) × (run r (monotonic_now_ns now) ≡ some plays)
            × (timed_run r now timers (suc calls) ≡ some hs)
            × (map (λ h. h.played) hs ≡ plays)
            × All OnTime hs
      by_run none e k = absurd (run-total r (monotonic_now_ns now) e)
      by_run (some ps) e (hs, t, same, on) = (ps, hs, e, t, same, on)
