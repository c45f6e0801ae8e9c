-- ===== src/Writer/Split/Moves.antt =====
-- Each step of a producer keeps what holds.
use tri_drishti_chrono_cap.Common.{
  ℕ, ◌+◌, ◌^◌, ◌≤◌, ◌<◌, ◌≡◌, refl, ap, sym, subst, ◌∙◌, arith, if◌then◌else◌, Bool, Bool-cases,
  inl, inr, some, List, [], ◌++◌, take,
}
use tri_drishti_chrono_cap.Ring.Queue.{Item}
use tri_drishti_chrono_cap.Ring.Threads.{Producer, System}
use tri_drishti_chrono_cap.Ring.Threads.Inv.{holding}
use tri_drishti_chrono_cap.Ring.Threads.Inv
use tri_drishti_chrono_cap.Writer.Split.{Shared, view}
use tri_drishti_chrono_cap.Writer.Split.Inv.{IsSettled, IsDone, Kept}
use tri_drishti_chrono_cap.Ring.{Sample}
use tri_drishti_chrono_cap.Ring.Threads.{
  Stage, idle, claimed, tested, stored, Action, enter, advance, act, enter_push, advance_push,
  claim, HasRoom, update, cell,
}
use tri_drishti_chrono_cap.Ring.Threads.Inv.{index_of}
use tri_drishti_chrono_cap.Ring.Threads.Run.{act-Goes}
use tri_drishti_chrono_cap.Common.{ltb, ◌==◌, take-append_le}
use tri_drishti_chrono_cap.Writer.Split.{producing}

-- What a producer's step leaves of the consumer, and of the claims in flight below the next index.
record Beside (s t : System) : Type 0 where
  phase : t.phase ≡ s.phase
  out : t.out ≡ s.out
  read_index : t.ring.read_index ≡ s.ring.read_index
  later : s.ring.write_index ≤ t.ring.write_index
  held :
      (m : ℕ)
      → m ≤ s.ring.write_index
      → ((i j : ℕ) → holding (s.producers i) ≡ some j → m ≤ j)
      → (i j : ℕ) → holding (t.producers i) ≡ some j
      → m ≤ j

-- A producer whose claim, if it has one, is not below `m`.
held_update :
    (ps : ℕ → Producer) (i : ℕ) (p : Producer) (m : ℕ)
    → ((j : ℕ) → holding p ≡ some j → m ≤ j)
    → ((i j : ℕ) → holding (ps i) ≡ some j → m ≤ j)
    → (i' j : ℕ) → holding (update ps i p i') ≡ some j
    → m ≤ j
held_update ps i p m own others i' j h = elim (Bool-cases (i' == i)) [
  | inl t ↦ own j (ap (λ (b : Bool). holding (if b then p else ps i')) (sym t) ∙ h)
  | inr f ↦ others i' j (ap (λ (b : Bool). holding (if b then p else ps i')) (sym f) ∙ h)
]

module _ (s : System) where
  same-Beside : Beside s s
  same-Beside = record {
    phase = refl;
    out = refl;
    read_index = refl;
    later = omega arith;
    held = λ m le h. h;
  }

  enter-Beside :
      (i : ℕ) (x : Sample) (st : Stage)
      → s.ring.write_index + 1 < 2 ^ 64
      → Beside s (enter_push 12 s i x st)
  unfolding enter_push
  enter-Beside i x idle narrow = elim (Bool-cases (ltb 64 x.len)) [
    | inl big ↦ rw big same-Beside
    | inr small ↦ rw small (record {
      phase = refl;
      out = refl;
      read_index = refl;
      later = omega arith;
      held = λ m le h.
          held_update s.producers i _ m
            (λ j e. let q : s.ring.write_index ≡ j = cc in omega (arith, q, le)) h;
    })
  ]
  enter-Beside i x claimed narrow = same-Beside
  enter-Beside i x tested narrow = same-Beside
  enter-Beside i x stored narrow = same-Beside

  -- A producer that goes on to a stage keeps its claim or gives it back.
  to_stage-held :
      (i : ℕ) (st next_stage : Stage)
      → (s.producers i).stage ≡ st
      → ((j : ℕ)
          → index_of next_stage (s.producers i).idx ≡ some j
          → index_of st (s.producers i).idx ≡ some j)
      → (m : ℕ) → ((i' j : ℕ) → holding (s.producers i') ≡ some j → m ≤ j)
      → (i' j : ℕ)
      → holding (update s.producers i (record (s.producers i) { stage = next_stage }) i') ≡ some j
      → m ≤ j
  to_stage-held i st next_stage e keeps m h =
      held_update s.producers i _ m
        (λ j q. h i j (ap (λ st. index_of st (s.producers i).idx) e ∙ keeps j q)) h

  advance-Beside :
      (i : ℕ) (st : Stage) → (s.producers i).stage ≡ st → Beside s (advance_push 12 s i st)
  unfolding advance_push
  advance-Beside i idle e = same-Beside
  advance-Beside i claimed e = elim (Bool-cases (cell 12 s.ring (s.producers i).idx).ready) [
    | inl full ↦ rw full (record {
      phase = refl;
      out = refl;
      read_index = refl;
      later = omega arith;
      held = λ m le h. to_stage-held i claimed idle e (λ j q. absurd cc) m h;
    })
    | inr free ↦ rw free (record {
      phase = refl;
      out = refl;
      read_index = refl;
      later = omega arith;
      held = λ m le h. to_stage-held i claimed tested e (λ j q. q) m h;
    })
  ]
  advance-Beside i tested e = record {
    phase = refl;
    out = refl;
    read_index = refl;
    later = omega arith;
    held = λ m le h. to_stage-held i tested stored e (λ j q. q) m h;
  }
  advance-Beside i stored e = record {
    phase = refl;
    out = refl;
    read_index = refl;
    later = omega arith;
    held = λ m le h. to_stage-held i stored idle e (λ j q. absurd cc) m h;
  }

-- What a producer's step leaves of a session.
pub record Produced (front : List ℕ) (log : List Item) (s t : Shared) : Type 0 where
  pub kept : Kept front log t
  pub settled : (m : ℕ) → IsSettled m s → IsSettled m t
  pub done : (m : ℕ) → IsDone m s.session → IsDone m t.session

produced :
    {front : List ℕ} {log : List Item} (s : Shared) (a : Action)
    → Kept front log s
    → HasRoom 12 (view s) a
    → Beside (view s) (act 12 (view s) a)
    → Produced front (log ++ claim 12 (view s) a) s (producing s a)
produced {front} {log} s a v room b =
    let u = act 12 (view s) a in
    let goes = act-Goes 12 v.ring_ok a room in
    let same : u ≡ view (producing s a) =
      λ i. record { ring = u.ring; producers = u.producers; phase = b.phase i; out = b.out i } in
    record {
      kept = record {
        ring_ok = subst (λ x. Inv.Inv 12 (log ++ claim 12 (view s) a) x) same goes.inv;
        written = v.written;
        bytes = v.bytes;
        all =
            v.all
            ∙ sym (
                ap (λ n. take n (log ++ claim 12 (view s) a)) b.read_index
                ∙ take-append_le s.session.writer.ring.read_index log (claim 12 (view s) a)
                    (omega (arith, v.ring_ok.behind, v.ring_ok.recorded)));
        is_open = v.is_open;
        record_ok = v.record_ok;
        synced = v.synced;
      };
      settled = λ m st. record {
        made = omega (arith, st.made, b.later);
        published = b.held m st.made st.published;
      };
      done = λ m p e. subst (λ r. m ≤ r) (sym b.read_index) (p e);
    }

pub entering-Produced :
    {front : List ℕ} {log : List Item} (s : Shared) (i : ℕ) (x : Sample)
    → Kept front log s
    → HasRoom 12 (view s) (enter i x)
    → Produced front (log ++ claim 12 (view s) (enter i x)) s (producing s (enter i x))
unfolding act
entering-Produced s i x v room =
    produced s (enter i x) v room (enter-Beside (view s) i x (s.producers i).stage room.2)

pub advancing-Produced :
    {front : List ℕ} {log : List Item} (s : Shared) (i : ℕ)
    → Kept front log s
    → Produced front (log ++ []) s (producing s (advance i))
unfolding act
advancing-Produced s i v =
    produced s (advance i) v tt (advance-Beside (view s) i (s.producers i).stage refl)
