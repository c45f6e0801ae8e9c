-- ===== src/Writer/Lifecycle.antt =====
-- src/core/record_writer.cpp, `Open` and `Close`.
pub mod Drain
pub mod Lossless
pub mod Succeeds
pub mod Closed
pub mod AnyDisk
pub mod Emptied
pub mod AnyClose
pub mod Cut
pub mod Beside
pub mod Overlap
use tri_drishti_chrono_cap.Common.{
  ℕ, zero, suc, ◌+◌, ◌*◌, ◌^◌, if◌then◌else◌, Bool, true, false, not, Option, none, some, List, [],
}
use tri_drishti_chrono_cap.Ring.{empty_record}
use tri_drishti_chrono_cap.Writer.{
  RecordWriter, TopicInfo, ring_bits, sync, write_file_header_and_metadata,
}
use tri_drishti_chrono_cap.Writer.Output.{Descriptor, Disk}
use tri_drishti_chrono_cap.Writer.Thread.{
  Pc, at_check, exited, Session, Event, thread_step, run_events,
}

abbrev pub has_exited : Pc → Bool
has_exited exited = true
has_exited _ = false

-- `fsync`, `close` and `bin_fd_ = -1`, for a file that is open.
abbrev pub close_file : RecordWriter → RecordWriter
close_file w = if w.is_open then record (sync w) { is_open = false } else w

-- `shutdown_` is set.
abbrev pub stopping : Session → Session
stopping s = record s { writer = record s.writer { shutdown = true } }

-- A full ring takes two steps for each of its records, and six more suffice.
abbrev pub close_fuel : ℕ
close_fuel = 7 + 2 * 2 ^ ring_bits

module _ (fd : Descriptor) where
  -- `Open`, where `created` says whether open(2) gave a descriptor. `none`: a write does not return,
  -- or the assignment of a thread to one that still runs ends the program.
  unfoldable pub open_session : Bool → ℕ → ℕ → Session → List TopicInfo → Option (Session × Bool)
  open_session created now steady_now s topics =
      let emptied : Disk = record { bytes = []; calls = s.writer.disk.calls } in
      let opened = record s.writer { is_open = true; disk = emptied; synced = 0 } in
      if not created
      then some (record s { writer = record s.writer { is_open = false } }, false)
      else (elim (write_file_header_and_metadata fd now opened topics) [
        | none ↦ none
        | some (w, ok) ↦
            if not ok
            then some (record s { writer = w }, false)
            else (if w.joinable
                then none
                else some (
                  record {
                    writer = record w {
                      last_flush = steady_now;
                      shutdown = false;
                      joinable = true;
                    };
                    pc = at_check;
                    rec = empty_record;
                  },
                  true,
                ))
      ])

  -- The thread on its own until it exits; the clock tells the time of each step. `none`: the fuel ran
  -- out, or a write does not return.
  unfoldable pub drive : ℕ → (ℕ → ℕ) → Session → Option Session
  drive zero clock s = none
  drive (suc fuel) clock s = elim (thread_step fd (clock fuel) s) [
    | none ↦ none
    | some s' ↦ let rest = drive fuel clock s' in if has_exited s.pc then some s else rest
  ]

  -- What `Close` does after the join.
  abbrev pub finish : Option Session → Option Session
  finish none = none
  finish (some s) = some (record s { writer = close_file (record s.writer { joinable = false }) })

  -- `Close`, with no push beside it: `join` lets the thread run to its end.
  unfoldable pub close : (ℕ → ℕ) → Session → Option Session
  close clock s =
      if s.writer.joinable
      then finish
          (drive close_fuel clock (record s { writer = record s.writer { shutdown = true } }))
      else some (record s { writer = close_file s.writer })

  -- `Close` with pushes beside it, each of them one step (Writer.Split has them in their parts): `join` waits through an interleaving of pushes and steps of the thread,
  -- and, once nothing more is pushed, until the thread has exited.
  unfoldable pub close_beside : (ℕ → ℕ) → List Event → Session → Option Session
  close_beside clock events s =
      if s.writer.joinable
      then (elim (run_events fd (stopping s) events) [
        | none ↦ none
        | some s' ↦ finish (drive close_fuel clock s')
      ])
      else some (record s { writer = close_file s.writer })
