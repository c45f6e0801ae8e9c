-- ===== src/Ring/Threads/Safety.antt =====
-- The ring with any number of producers and one consumer, under every schedule.
use tri_drishti_chrono_cap.Common.{
  ℕ, ◌%◌, subst, dec_lt, ◌+◌, ◌^◌, ◌≤◌, ◌≡◌, ◌≢◌, refl, ap, sym, ◌∙◌, arith, true, false, none,
  some, List, [], ◌∷◌, take, take_all, length, length-replicate,
}
use tri_drishti_chrono_cap.Ring.{Slot, Sample, PoppedRecord, empty_slot, slot_at, slot_index, fresh}
use tri_drishti_chrono_cap.Ring.Queue.{Item}
use tri_drishti_chrono_cap.Ring.Threads.{
  Stage, idle, claimed, tested, stored, Producer, Phase, polling, copying, releasing, System,
  Action, enter, advance, to_stage, cell, act, act_all, claims, deliveries, Spaced,
}
use tri_drishti_chrono_cap.Ring.Threads.Inv.{
  index_of, holding, Stored, Copied, Inv, cell_index, cell_index-ne,
}
use tri_drishti_chrono_cap.Ring.Threads.Run.{Goes, act_all-Goes}
use tri_drishti_chrono_cap.Ring.Steps.{IsSlot}
use tri_drishti_chrono_cap.Ring.Refine.{get_or-replicate, empty_slot-IsSlot}
use tri_drishti_chrono_cap.Ring.Threads.Frame.{update_self, update_ne}
use tri_drishti_chrono_cap.Ring.Threads.Alone.{
  claimed_by, act-enter, act-test_free, claimed_by_self,
}
use native.Mathlib.Nat.{add-mod_right}

-- A new ring, no producer inside `TryPush`, the consumer outside `TryPop`.
abbrev pub start : ℕ → (ℕ → Producer) → PoppedRecord → System
start k producers out = record { ring = fresh k; producers = producers; phase = polling; out = out }

abbrev pub NoneInside : (ℕ → Producer) → Type 0
NoneInside producers = (i : ℕ) → (producers i).stage ≡ idle

-- Between its test and its publication a producer owns the slot, and between its test and its release
-- the consumer does.
abbrev pub IsStoring : Stage → Type 0
IsStoring idle = ⊥
IsStoring claimed = ⊥
IsStoring tested = Unit
IsStoring stored = Unit

abbrev pub IsReading : Phase → Type 0
IsReading polling = ⊥
IsReading copying = Unit
IsReading releasing = Unit

holding-IsStoring : (p : Producer) → IsStoring p.stage → holding p ≡ some p.idx
holding-IsStoring p h = by_stage p.stage h
  where
    by_stage : (st : Stage) → IsStoring st → index_of st p.idx ≡ some p.idx
    by_stage idle h = absurd h
    by_stage claimed h = absurd h
    by_stage tested h = refl
    by_stage stored h = refl

ready-IsReading :
    (ph : Phase) (slot : Slot) (x : Item) → IsReading ph → Copied ph slot x → slot.ready ≡ true
ready-IsReading polling slot x h c = absurd h
ready-IsReading copying slot x h c = c
ready-IsReading releasing slot x h c = c.0

module _ (k : ℕ) where
  pub start-Inv :
      (producers : ℕ → Producer) (out : PoppedRecord)
      → NoneInside producers
      → Inv k [] (start k producers out)
  unfolding fresh
  start-Inv producers out none_inside = record {
    size = length-replicate (2 ^ k) empty_slot;
    behind = omega arith;
    near = omega arith;
    narrow = omega arith;
    recorded = refl;
    slots_ok =
        λ i. subst (λ s. IsSlot s) (sym (get_or-replicate (2 ^ k) i empty_slot)) empty_slot-IsSlot;
    published = λ j lo hi t. absurd (omega arith);
    unclaimed = λ j lo hi.
        ap (λ (s : Slot). s.ready) (get_or-replicate (2 ^ k) (slot_index k j) empty_slot);
    owned = λ j lo hi f. absurd (omega arith);
    claims_ok = λ i j h. absurd (let q = sym (outside i) ∙ h in cc);
    fields_ok = λ i.
        subst (λ st. Stored st (cell k (fresh k) (producers i).idx) (producers i).sample)
          (sym (none_inside i)) tt;
    unique = λ i i' j h. absurd (let q = sym (outside i) ∙ h in cc);
    copied = tt;
  }
    where
      outside : (i : ℕ) → holding (producers i) ≡ none
      outside i = ap (λ st. index_of st (producers i).idx) (none_inside i)

  module _ (producers : ℕ → Producer) (out : PoppedRecord) (actions : List Action)
      (none_inside : NoneInside producers) (spaced : Spaced k (start k producers out) actions) where
    abbrev at_end : System
    at_end = act_all k (start k producers out) actions

    pub went :
        Goes k []
          (start k producers out)
          (claims k (start k producers out) actions)
          (deliveries k (start k producers out) actions)
          at_end
    went = act_all-Goes k actions (start-Inv producers out none_inside) spaced

    -- From a new ring, with any number of producers and any interleaving of their steps and the
    -- consumer's, where each claim is less than a round ahead of the consumer and below 2 ^ 64: no push
    -- is dropped, and the records handed to the consumer are the records of the first claims, as many
    -- as the read index says, in the order of the claims, each once and intact.
    pub deliveries_in_order :
        (deliveries k (start k producers out) actions
          ≡ take at_end.ring.read_index (claims k (start k producers out) actions))
        × (at_end.ring.read_index ≤ length (claims k (start k producers out) actions))
        × (at_end.ring.dropped_count ≡ 0)
    unfolding fresh
    deliveries_in_order =
        (sym went.in_order, omega (arith, went.inv.recorded, went.inv.behind), went.kept)

    -- From a new ring and no producer inside, under any interleaving in which each claim is less than a
    -- round ahead of the consumer and below 2 ^ 64: no two producers are between their test and their publication with the
    -- same slot: their plain stores do not race.
    pub producers_apart :
        (i i' : ℕ)
        → IsStoring (at_end.producers i).stage
        → IsStoring (at_end.producers i').stage
        → i ≢ i'
        → slot_index k (at_end.producers i).idx ≢ slot_index k (at_end.producers i').idx
    producers_apart i i' h h' ne =
        let v = went.inv in
        let held = holding-IsStoring (at_end.producers i) h in
        let held' = holding-IsStoring (at_end.producers i') h' in
        let c = v.claims_ok i _ held in
        let c' = v.claims_ok i' _ held' in
        cell_index-ne k at_end.ring.read_index _ _ c.low (omega (arith, c.high, v.near)) c'.low
          (omega (arith, c'.high, v.near))
          (λ e. ne (v.unique i i' (at_end.producers i').idx (held ∙ ap (λ n. some n) e) held'))

    -- From a new ring and no producer inside, under any interleaving in which each claim is less than a
    -- round ahead of the consumer and below 2 ^ 64: no producer is between its test and its publication with the slot that the
    -- consumer is between its test and its release with: the copy does not race with the stores.
    pub consumer_apart :
        (i : ℕ)
        → IsStoring (at_end.producers i).stage
        → IsReading at_end.phase
        → slot_index k (at_end.producers i).idx ≢ slot_index k at_end.ring.read_index
    consumer_apart i h reading =
        let v = went.inv in
        let c = v.claims_ok i _ (holding-IsStoring (at_end.producers i) h) in
        let t = ready-IsReading at_end.phase _ _ reading v.copied in
        cell_index-ne k at_end.ring.read_index _ _ c.low (omega (arith, c.high, v.near))
          (omega arith) (omega (arith, c.low, c.high, v.near))
          (λ e. let f = ap (λ n. (cell k at_end.ring n).ready) e in let g = c.free in cc)

    -- From a new ring and no producer inside, under any interleaving in which each claim is less than a
    -- round ahead of the consumer and below 2 ^ 64: once every producer has left `TryPush` and the consumer's test finds
    -- nothing, every record that was claimed has been handed over.
    pub quiet_delivers_all :
        NoneInside at_end.producers
        → (cell k at_end.ring at_end.ring.read_index).ready ≡ false
        → deliveries k (start k producers out) actions ≡ claims k (start k producers out) actions
    unfolding fresh
    quiet_delivers_all quiet empty =
        let v = went.inv in
        let caught_up : at_end.ring.write_index ≤ at_end.ring.read_index =
          elim (dec_lt at_end.ring.read_index at_end.ring.write_index) [
            | yes lt ↦
                let (i, h) = v.owned at_end.ring.read_index (omega arith) lt empty in
                absurd (
                  let q = sym (ap (λ st. index_of st (at_end.producers i).idx) (quiet i)) ∙ h in cc)
            | no ge ↦ omega arith
          ] in
        sym went.in_order ∙ take_all at_end.ring.read_index _ (omega (arith, v.recorded))

    -- The limit of a round is needed. After any such interleaving from a new ring, let a producer be between its test and its
    -- publication, and let the next claim be exactly one round behind its own: a second producer that then
    -- enters with a payload that fits claims the same slot, finds it free, and both are about to store into it.
    pub lap_shares_slot :
        (i i' : ℕ) (x : Sample)
        → IsStoring (at_end.producers i).stage
        → (at_end.producers i').stage ≡ idle
        → x.len ≤ 64
        → at_end.ring.write_index ≡ (at_end.producers i).idx + 2 ^ k
        → let t = act_all k at_end (enter i' x ∷ advance i' ∷ []) in
          IsStoring (t.producers i).stage
          × IsStoring (t.producers i').stage
          × (slot_index k (t.producers i).idx ≡ slot_index k (t.producers i').idx)
    unfolding act_all
    lap_shares_slot i i' x h out_of small round =
        let v = went.inv in
        let c = v.claims_ok i _ (holding-IsStoring (at_end.producers i) h) in
        let same : slot_index k at_end.ring.write_index ≡ slot_index k (at_end.producers i).idx =
          cell_index k at_end.ring.write_index
          ∙ ap (λ n. n % 2 ^ k) round
          ∙ add-mod_right (at_end.producers i).idx (2 ^ k)
          ∙ sym (cell_index k (at_end.producers i).idx) in
        let t = claimed_by k at_end i' x in
        let at_claim = claimed_by_self k at_end i' x in
        let free =
          ap (λ (p : Producer). (cell k at_end.ring p.idx).ready) at_claim
          ∙ ap (λ n. (slot_at at_end.ring n).ready) same
          ∙ c.free in
        let run : act_all k at_end (enter i' x ∷ advance i' ∷ [])
            ≡ record t { producers = to_stage t i' tested } =
          ap (λ u. act k u (advance i')) (act-enter k at_end i' x out_of small)
          ∙ act-test_free k t i' (ap (λ (p : Producer). p.stage) at_claim) free in
        let ne : i ≢ i' =
          λ e. subst IsStoring (ap (λ n. (at_end.producers n).stage) e ∙ out_of) h in
        let mine = update_ne t.producers i' i _ ne ∙ update_ne at_end.producers i' i _ ne in
        let theirs =
          update_self t.producers i' _
          ∙ ap (λ (p : Producer). record p { stage = tested }) at_claim in
        (
          subst (λ (u : System). IsStoring (u.producers i).stage) (sym run)
              (subst (λ (p : Producer). IsStoring p.stage) (sym mine) h),
          subst (λ (u : System). IsStoring (u.producers i').stage) (sym run)
              (subst (λ (p : Producer). IsStoring p.stage) (sym theirs) tt),
          ap (λ (u : System). slot_index k (u.producers i).idx) run
              ∙ ap (λ (p : Producer). slot_index k p.idx) mine
              ∙ sym same
              ∙ sym (ap (λ (p : Producer). slot_index k p.idx) theirs)
              ∙ sym (ap (λ (u : System). slot_index k (u.producers i').idx) run),
        )
