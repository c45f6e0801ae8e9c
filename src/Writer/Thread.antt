-- ===== src/Writer/Thread.antt =====
-- src/core/record_writer.cpp, `WriterThreadMain`: the writer thread as a machine that makes one call
-- per step, between which producers may push. Orders weaker than one total order of the calls are
-- not modelled.
pub mod Inv
pub mod Flush
pub mod Pops
pub mod Steps
pub mod Pushed
pub mod Pieces
pub mod Dry
pub mod Failing
use tri_drishti_chrono_cap.Common.{
  ℕ, if◌then◌else◌, Bool, true, false, Option, none, some, List, [], ◌∷◌, ◌++◌, ◌≤◌, ◌≡◌,
}
use tri_drishti_chrono_cap.Ring.{PoppedRecord, Sample, try_pop}
use tri_drishti_chrono_cap.Ring.Queue.{Item, item_of_sample, IsSample}
use tri_drishti_chrono_cap.Writer.{RecordWriter, ring_bits, writer_push, write_record, maybe_flush}
use tri_drishti_chrono_cap.Writer.Output.{Descriptor}

-- Where the thread is: before the test of `shutdown_`, before `TryPop` (with `drained_any`), before
-- `WriteRecord`, before `MaybeFlush`, before the sleep, and the same in the drain behind the loop.
pub data Pc : Type 0 where
  at_check : Pc
  at_pop : Bool → Pc
  at_write : Pc
  at_flush : Pc
  at_idle : Pc
  at_final_pop : Pc
  at_final_write : Pc
  at_final_flush : Pc
  exited : Pc

-- The writer with the thread's place and its local `rec`.
pub record Session : Type 0 where
  pub writer : RecordWriter
  pub pc : Pc
  pub rec : PoppedRecord

-- One `TryPop` of the thread: where it goes with a record, and without.
abbrev pub pop_step : RecordWriter → PoppedRecord → Pc → Pc → Session
pop_step w rec got empty =
    let (ring', rec', done) = try_pop ring_bits w.ring rec in
    record { writer = record w { ring = ring' }; pc = if done then got else empty; rec = rec' }

-- What happens to a session: a producer's `Push`, or a step of the thread at a time.
pub data Event : Type 0 where
  produce : Sample → Event
  tick : ℕ → Event

abbrev pub push_step : Session → Sample → Session
push_step s x = record s { writer = (writer_push s.writer x).0 }

module _ (fd : Descriptor) where
  -- One `WriteRecord` of the thread, which passes over its result.
  abbrev pub write_step : RecordWriter → PoppedRecord → Pc → Option Session
  write_step w rec next = elim (write_record fd w rec) [
    | none ↦ none
    | some (w', ok) ↦ some (record { writer = w'; pc = next; rec = rec })
  ]

  -- A step of the thread at the time `now`; `none` where a call does not return.
  unfoldable pub step_at : Pc → ℕ → RecordWriter → PoppedRecord → Option Session
  step_at at_check now w rec =
      some
        (record { writer = w; pc = if w.shutdown then at_final_pop else at_pop false; rec = rec })
  step_at (at_pop drained_any) now w rec =
      some (pop_step w rec at_write (if drained_any then at_flush else at_idle))
  step_at at_write now w rec = write_step w rec (at_pop true)
  step_at at_flush now w rec =
      some (record { writer = maybe_flush now w; pc = at_check; rec = rec })
  step_at at_idle now w rec = some (record { writer = w; pc = at_check; rec = rec })
  step_at at_final_pop now w rec = some (pop_step w rec at_final_write at_final_flush)
  step_at at_final_write now w rec = write_step w rec at_final_pop
  step_at at_final_flush now w rec =
      some (record { writer = maybe_flush now w; pc = exited; rec = rec })
  step_at exited now w rec = some (record { writer = w; pc = exited; rec = rec })

  abbrev pub thread_step : ℕ → Session → Option Session
  thread_step now s = step_at s.pc now s.writer s.rec

  -- An interleaving of producers and thread.
  unfoldable pub run_events : Session → List Event → Option Session
  run_events s [] = some s
  run_events s (produce x ∷ events) = run_events (push_step s x) events
  run_events s (tick now ∷ events) = elim (thread_step now s) [
    | none ↦ none
    | some s' ↦ run_events s' events
  ]

  -- The records that producers were told were taken, in the order of their pushes.
  unfoldable pub taken : Session → List Event → List Item
  taken s [] = []
  taken s (produce x ∷ events) =
      let rest = taken (push_step s x) events in
      if (writer_push s.writer x).1 then item_of_sample x ∷ rest else rest
  taken s (tick now ∷ events) = elim (thread_step now s) [ none ↦ [] | some s' ↦ taken s' events ]

  -- Each push passes as many bytes as it says, and none that fits a slot is turned down.
  abbrev pub NoneDropped : Session → List Event → Type 0
  NoneDropped s [] = Unit
  NoneDropped s (produce x ∷ events) =
      IsSample x
      × (x.len ≤ 64 → (writer_push s.writer x).1 ≡ true)
      × NoneDropped (push_step s x) events
  NoneDropped s (tick now ∷ events) =
      (s' : Session) → thread_step now s ≡ some s' → NoneDropped s' events
