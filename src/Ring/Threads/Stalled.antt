-- ===== src/Ring/Threads/Stalled.antt =====
-- The ring is not wait-free for its consumer: a producer that stops inside `TryPush` holds up everything
-- behind its claim.
use tri_drishti_chrono_cap.Common.{
  ℕ, ◌≡◌, ◌≢◌, refl, ap, sym, ◌∙◌, Bool-cases, inl, inr, false, none, some, List, [], ◌∷◌, ◌++◌,
  ltb,
}
use tri_drishti_chrono_cap.Ring.{Sample, PoppedRecord}
use tri_drishti_chrono_cap.Ring.Queue.{Item}
use tri_drishti_chrono_cap.Ring.Threads.{
  Stage, idle, claimed, tested, stored, Producer, Phase, polling, copying, releasing, System,
  Action, enter, advance, consume, cell, enter_push, advance_push, advance_pop, act, act_all,
  delivery_of, delivery, deliveries, Spaced,
}
use tri_drishti_chrono_cap.Ring.Threads.Inv.{index_of, holding, Copied, Inv}
use tri_drishti_chrono_cap.Ring.Threads.Run.{act-Goes}
use tri_drishti_chrono_cap.Ring.Threads.Frame.{update_ne}
use tri_drishti_chrono_cap.Ring.Threads.Safety.{start, NoneInside, went}

-- No action of these is the producer's.
abbrev pub IsStopped : ℕ → List Action → Type 0
IsStopped i [] = Unit
IsStopped i (enter j x ∷ actions) = IsStopped i actions
IsStopped i (advance j ∷ actions) = (i ≢ j) × IsStopped i actions
IsStopped i (consume ∷ actions) = IsStopped i actions

module _ (k i : ℕ) where
  -- The producer and the consumer's index are where they were.
  record Stays (s t : System) : Type 0 where
    producer : t.producers i ≡ s.producers i
    read_index : t.ring.read_index ≡ s.ring.read_index

  abbrev IsHolding : System → Type 0
  IsHolding s = holding (s.producers i) ≡ some s.ring.read_index

  holding-ne : (s : System) (j : ℕ) → IsHolding s → (s.producers j).stage ≡ idle → i ≢ j
  holding-ne s j held out e =
      let q : holding (s.producers i) ≡ none =
        ap (λ n. holding (s.producers n)) e ∙ ap (λ st. index_of st (s.producers j).idx) out in
      let p = sym q ∙ held in cc

  enter-Stays :
      (s : System) (j : ℕ) (x : Sample) (st : Stage)
      → IsHolding s
      → (s.producers j).stage ≡ st
      → Stays s (enter_push k s j x st)
  unfolding enter_push
  enter-Stays s j x idle held e = elim (Bool-cases (ltb 64 x.len)) [
    | inl big ↦ rw big (record { producer = refl; read_index = refl })
    | inr small ↦ rw small (record {
      producer = update_ne s.producers j i _ (holding-ne s j held e);
      read_index = refl;
    })
  ]
  enter-Stays s j x claimed held e = record { producer = refl; read_index = refl }
  enter-Stays s j x tested held e = record { producer = refl; read_index = refl }
  enter-Stays s j x stored held e = record { producer = refl; read_index = refl }

  advance-Stays : (s : System) (j : ℕ) (st : Stage) → i ≢ j → Stays s (advance_push k s j st)
  unfolding advance_push
  advance-Stays s j idle ne = record { producer = refl; read_index = refl }
  advance-Stays s j claimed ne = elim (Bool-cases (cell k s.ring (s.producers j).idx).ready) [
    | inl full ↦ rw full (record { producer = update_ne s.producers j i _ ne; read_index = refl })
    | inr free ↦ rw free (record { producer = update_ne s.producers j i _ ne; read_index = refl })
  ]
  advance-Stays s j tested ne = record {
    producer = update_ne s.producers j i _ ne;
    read_index = refl;
  }
  advance-Stays s j stored ne = record {
    producer = update_ne s.producers j i _ ne;
    read_index = refl;
  }

  consume-Stays :
      (s : System) (ph : Phase)
      → (cell k s.ring s.ring.read_index).ready ≡ false
      → (x : Item) → Copied ph (cell k s.ring s.ring.read_index) x
      → Stays s (advance_pop k s ph) × (delivery_of k s ph ≡ [])
  unfolding advance_pop
  consume-Stays s polling free x c = rw free (record { producer = refl; read_index = refl }, refl)
  consume-Stays s copying free x c = absurd (let q = sym free ∙ c in cc)
  consume-Stays s releasing free x c = absurd (let q = sym free ∙ c.0 in cc)

  act-Stays :
      (s : System) (a : Action) (log : List Item)
      → Inv k log s
      → IsHolding s
      → IsStopped i (a ∷ [])
      → Stays s (act k s a) × (delivery k s a ≡ [])
  unfolding act
  act-Stays s (enter j x) log v held ne = (enter-Stays s j x (s.producers j).stage held refl, refl)
  act-Stays s (advance j) log v held (ne, u) = (advance-Stays s j (s.producers j).stage ne, refl)
  act-Stays s consume log v held u =
      consume-Stays s s.phase (v.claims_ok i s.ring.read_index held).free _ v.copied

  IsStopped-first :
      (a : Action) (actions : List Action)
      → IsStopped i (a ∷ actions)
      → IsStopped i (a ∷ []) × IsStopped i actions
  IsStopped-first (enter j x) actions u = (tt, u)
  IsStopped-first (advance j) actions (ne, u) = ((ne, tt), u)
  IsStopped-first consume actions u = (tt, u)

  stalled :
      (actions : List Action) (s : System) (log : List Item)
      → Inv k log s
      → IsHolding s
      → IsStopped i actions
      → Spaced k s actions
      → (deliveries k s actions ≡ []) × ((act_all k s actions).ring.read_index ≡ s.ring.read_index)
  unfolding deliveries act_all
  stalled [] s log v held u sp = (refl, refl)
  stalled (a ∷ actions) s log v held u (room, sp) =
      let (first, u') = IsStopped-first a actions u in
      let (stays, nothing) = act-Stays s a log v held first in
      let (none_later, same) =
        stalled actions (act k s a) _ (act-Goes k v a room).inv
          (ap holding stays.producer ∙ held ∙ ap (λ n. some n) (sym stays.read_index)) u' sp in
      (
        ap (λ l. l ++ deliveries k (act k s a) actions) nothing ∙ none_later,
        same ∙ stays.read_index,
      )

-- After any interleaving from a new ring in which each claim is less than a round ahead of the consumer and
-- below 2 ^ 64: while a producer that holds the claim of the consumer's next index takes no step, no
-- interleaving of the others' steps, in which the claims stay as near, hands the consumer anything,
-- however many records behind that claim have been published.
pub stalled_blocks :
    (k i : ℕ) (producers : ℕ → Producer) (out : PoppedRecord) (before actions : List Action)
    → NoneInside producers
    → Spaced k (start k producers out) before
    → let s = act_all k (start k producers out) before in
      holding (s.producers i) ≡ some s.ring.read_index
      → IsStopped i actions
      → Spaced k s actions
      → (deliveries k s actions ≡ []) × ((act_all k s actions).ring.read_index ≡ s.ring.read_index)
stalled_blocks k i producers out before actions none_inside spaced held stopped more =
    stalled k i actions _ _ (went k producers out before none_inside spaced).inv held stopped more
