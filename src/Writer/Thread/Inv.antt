-- ===== src/Writer/Thread/Inv.antt =====
-- What ties the file, the thread's `rec` and the ring to the records that were taken, at every step.
use tri_drishti_chrono_cap.Common.{
  ℕ, ◌*◌, ◌+◌, ◌<◌, ◌≡◌, ◌≢◌, Bool, true, false, List, [], ◌∷◌, ◌++◌,
}
use tri_drishti_chrono_cap.Ring.{PoppedRecord}
use tri_drishti_chrono_cap.Ring.Queue.{Item, item_of_record}
use tri_drishti_chrono_cap.Ring.Fifo.{Holds}
use tri_drishti_chrono_cap.Writer.{RecordWriter}
use tri_drishti_chrono_cap.Writer.Format.{items_bytes}
use tri_drishti_chrono_cap.Writer.Records.{IsRecord}
use tri_drishti_chrono_cap.Writer.Thread.{
  Pc, at_check, at_pop, at_write, at_flush, at_idle, at_final_pop, at_final_write, at_final_flush,
  exited, Session,
}

-- The record that the thread has popped and not yet written.
abbrev pub in_hand : Pc → PoppedRecord → List Item
in_hand at_write rec = item_of_record rec ∷ []
in_hand at_final_write rec = item_of_record rec ∷ []
in_hand _ rec = []

pub record Inv (front : List ℕ) (accepted : List Item) (s : Session) : Type 0 where
  pub written : List Item
  pub queued : List Item
  pub holds : Holds 12 0 s.writer.ring queued
  pub bytes : s.writer.disk.bytes ≡ front ++ items_bytes written
  pub all : accepted ≡ written ++ (in_hand s.pc s.rec ++ queued)
  pub is_open : s.writer.is_open ≡ true
  pub record_ok : IsRecord s.rec

-- A bound on the steps to the end, with so many records in the ring, once `shutdown_` is set.
abbrev pub rank : Pc → ℕ → ℕ
rank exited n = 0
rank at_final_flush n = 1
rank at_final_pop n = 2 + 2 * n
rank at_final_write n = 3 + 2 * n
rank at_check n = 3 + 2 * n
rank at_flush n = 4 + 2 * n
rank at_idle n = 4 + 2 * n
rank (at_pop drained_any) n = 5 + 2 * n
rank at_write n = 6 + 2 * n

-- The places behind the loop.
abbrev pub final : Pc → Bool
final at_final_pop = true
final at_final_write = true
final at_final_flush = true
final exited = true
final _ = false

-- The places behind the last `TryPop`.
abbrev pub drained : Pc → Bool
drained at_final_flush = true
drained exited = true
drained _ = false

-- Before `shutdown_` is set the thread is in its loop; after it, and without further pushes, the ring
-- is empty behind the last `TryPop`.
abbrev pub Live : Bool → Pc → ℕ → Type 0
Live false pc n = final pc ≡ false
Live true pc n = drained pc ≡ true → n ≡ 0

pub Live-loop :
    (b : Bool) (then_at : Pc) (m : ℕ)
    → final then_at ≡ false
    → drained then_at ≡ false
    → Live b then_at m
Live-loop true then_at m f d = λ e. absurd cc
Live-loop false then_at m f d = f

pub Live-end :
    (b : Bool) (pc then_at : Pc) (n m : ℕ)
    → final pc ≡ true
    → (Live true pc n → Live true then_at m)
    → Live b pc n
    → Live b then_at m
Live-end true pc then_at n m f h l = h l
Live-end false pc then_at n m f h l = absurd cc

-- What a step of the thread does besides, from a place with `n` records in the ring.
pub record Moved (w : RecordWriter) (pc : Pc) (n : ℕ) (s : Session) (n' : ℕ) : Type 0 where
  pub shutdown : s.writer.shutdown ≡ w.shutdown
  pub joinable : s.writer.joinable ≡ w.joinable
  pub lower : w.shutdown ≡ true → pc ≢ exited → rank s.pc n' < rank pc n
  pub live : Live w.shutdown pc n → Live w.shutdown s.pc n'
