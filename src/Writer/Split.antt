-- ===== src/Writer/Split.antt =====
-- The writer with `Push` split at its accesses to the ring's memory: any number of producers inside
-- `TryPush`, as in Ring.Threads, beside the writer thread, whose calls are steps, and a `Close` that may
-- begin while producers are inside.
pub mod Inv
pub mod Steps
pub mod Moves
pub mod Runs
pub mod Closing
use tri_drishti_chrono_cap.Common.{ℕ, if◌then◌else◌, ◌≡◌, Option, none, some, List, [], ◌∷◌, ◌++◌}
use tri_drishti_chrono_cap.Ring.{Sample}
use tri_drishti_chrono_cap.Ring.Queue.{Item}
use tri_drishti_chrono_cap.Ring.Threads.{
  Producer, polling, System, Action, enter, advance, act, claim, HasRoom,
}
use tri_drishti_chrono_cap.Writer.Output.{Descriptor}
use tri_drishti_chrono_cap.Writer.Thread.{Session, thread_step}
use tri_drishti_chrono_cap.Writer.Lifecycle.{close_file, close_fuel, drive, finish, stopping}

-- The writer's session with the producers inside `TryPush`.
pub record Shared : Type 0 where
  pub session : Session
  pub producers : ℕ → Producer

-- The ring with its producers; between the thread's steps its `TryPop` has returned.
abbrev pub view : Shared → System
view s = record {
  ring = s.session.writer.ring;
  producers = s.producers;
  phase = polling;
  out = s.session.rec;
}

-- What a producer's step leaves.
abbrev pub put : Shared → System → Shared
put s u = record {
  session = record s.session { writer = record s.session.writer { ring = u.ring } };
  producers = u.producers;
}

-- A producer enters `TryPush` or goes on in it, or the thread makes a step at a time.
pub data Move : Type 0 where
  entering : ℕ → Sample → Move
  advancing : ℕ → Move
  ticking : ℕ → Move

abbrev pub producing : Shared → Action → Shared
producing s a = put s (act 12 (view s) a)

-- `shutdown_` is set.
abbrev pub halting : Shared → Shared
halting s = record s { session = stopping s.session }

module _ (fd : Descriptor) where
  unfoldable pub run_moves : Shared → List Move → Option Shared
  run_moves s [] = some s
  run_moves s (entering i x ∷ moves) = run_moves (producing s (enter i x)) moves
  run_moves s (advancing i ∷ moves) = run_moves (producing s (advance i)) moves
  run_moves s (ticking now ∷ moves) = elim (thread_step fd now s.session) [
    | none ↦ none
    | some t ↦ run_moves (record s { session = t }) moves
  ]

  -- `Close` beside moves of the producers and the thread; `join` waits for the thread's end.
  unfoldable pub close_split : (ℕ → ℕ) → List Move → Shared → Option Session
  close_split clock moves s =
      if s.session.writer.joinable
      then (elim (run_moves (halting s) moves) [
        | none ↦ none
        | some s' ↦ finish fd (drive fd close_fuel clock s'.session)
      ])
      else some (record s.session { writer = close_file s.session.writer })

  -- The records that producers claim an index for, in the order of the claims.
  unfoldable pub claimed_in : Shared → List Move → List Item
  claimed_in s [] = []
  claimed_in s (entering i x ∷ moves) =
      claim 12 (view s) (enter i x) ++ claimed_in (producing s (enter i x)) moves
  claimed_in s (advancing i ∷ moves) = claimed_in (producing s (advance i)) moves
  claimed_in s (ticking now ∷ moves) = elim (thread_step fd now s.session) [
    | none ↦ []
    | some t ↦ claimed_in (record s { session = t }) moves
  ]

  -- Whoever enters passes as many bytes as it says and claims less than a round ahead of the thread.
  abbrev pub HaveRoom : Shared → List Move → Type 0
  HaveRoom s [] = Unit
  HaveRoom s (entering i x ∷ moves) =
      HasRoom 12 (view s) (enter i x) × HaveRoom (producing s (enter i x)) moves
  HaveRoom s (advancing i ∷ moves) = HaveRoom (producing s (advance i)) moves
  HaveRoom s (ticking now ∷ moves) =
      (t : Session)
      → thread_step fd now s.session ≡ some t
      → HaveRoom (record s { session = t }) moves
