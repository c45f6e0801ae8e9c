-- ===== src/Ring/Threads/Publish.antt =====
-- The publication of a slot.
use tri_drishti_chrono_cap.Common.{
  ℕ, ◌≤◌, ◌<◌, ◌≡◌, ◌≢◌, ap, sym, subst, ◌∙◌, arith, true, false, none, some, List, get_elem?,
  length-set, ℕ_discrete,
}
use tri_drishti_chrono_cap.Ring.{Slot}
use tri_drishti_chrono_cap.Ring.Queue.{Item, item_of_sample, item_of_slot}
use tri_drishti_chrono_cap.Ring.Steps.{IsSlot, set-IsSlot}
use tri_drishti_chrono_cap.Ring.Threads.{idle, Producer, System, to_stage, cell, set_cell}
use tri_drishti_chrono_cap.Ring.Threads.Inv.{holding, Stored, IsClaim, Inv, cell-inside}
use tri_drishti_chrono_cap.Ring.Threads.Frame.{
  mine, cell_other, cell_self, other_undisturbed, other_fields_ok, reading_kept, published_ok,
  unclaimed_ok, moved_self, moved_ne, after_store,
}

module _ (k : ℕ) {log : List Item} {s : System} (v : Inv k log s) (i j : ℕ)
    (has : holding (s.producers i) ≡ some j) where
  left_holding : holding (to_stage s i idle i) ≡ none
  left_holding = ap holding (moved_self k v i j has idle)

  -- Who still holds an index has not moved.
  still_holding :
      (i' j' : ℕ)
      → holding (to_stage s i idle i') ≡ some j'
      → (i' ≢ i) × (holding (s.producers i') ≡ some j')
  still_holding i' j' h = elim (ℕ_discrete i' i) [
    | yes e ↦
        absurd
          (let q = sym (left_holding) ∙ ap (λ n. holding (to_stage s i idle n)) (sym e) ∙ h in cc)
    | no ne ↦ (ne, ap holding (sym (moved_ne k v i j has idle i' ne)) ∙ h)
  ]

  module _ (slot : Slot) (ok : IsSlot slot) (shown : slot.ready ≡ true)
      (content : item_of_slot slot ≡ item_of_sample (s.producers i).sample) where
    at_slot : (j' : ℕ) → j' ≡ j → cell k (set_cell k s.ring j slot) j' ≡ slot
    at_slot j' e = ap (cell k (set_cell k s.ring j slot)) e ∙ cell_self k v i j has slot

    publish_published :
        (j' : ℕ)
        → s.ring.read_index ≤ j'
        → j' < s.ring.write_index
        → (cell k (set_cell k s.ring j slot) j').ready ≡ true
        → get_elem? log j' ≡ some (item_of_slot (cell k (set_cell k s.ring j slot) j'))
    publish_published j' lo hi t = elim (ℕ_discrete j' j) [
      | yes e ↦
          ap (get_elem? log) e
          ∙ (mine k v i j has).logged
          ∙ ap (λ x. some x) (sym content ∙ ap item_of_slot (sym (at_slot j' e)))
      | no ne ↦ published_ok k v i j has slot j' lo hi ne t
    ]

    publish_owned :
        (j' : ℕ)
        → s.ring.read_index ≤ j'
        → j' < s.ring.write_index
        → (cell k (set_cell k s.ring j slot) j').ready ≡ false
        → (i' : ℕ) × (holding (to_stage s i idle i') ≡ some j')
    publish_owned j' lo hi f = elim (ℕ_discrete j' j) [
      | yes e ↦ absurd (let q = ap (λ (c : Slot). c.ready) (at_slot j' e) in cc)
      | no ne ↦
          let same = cell_other k v i j has slot j' lo (omega (arith, v.near)) ne in
          let (i', h) = v.owned j' lo hi (ap (λ (x : Slot). x.ready) (sym same) ∙ f) in
          (
            i',
            ap holding (
                  moved_ne k v i j has idle i'
                    (λ e. ne (let q = sym h ∙ ap (λ n. holding (s.producers n)) e ∙ has in cc)))
                ∙ h,
          )
    ]

    publish_claims :
        (i' j' : ℕ)
        → holding (to_stage s i idle i') ≡ some j'
        → IsClaim log s.ring.read_index s.ring.write_index
            (cell k (set_cell k s.ring j slot) j')
            (to_stage s i idle i').sample
            j'
    publish_claims i' j' h =
        let (ne, h') = still_holding i' j' h in
        subst
          (λ (p : Producer).
            IsClaim log s.ring.read_index s.ring.write_index (cell k (set_cell k s.ring j slot) j')
              p.sample j')
          (sym (moved_ne k v i j has idle i' ne)) (other_undisturbed k v i j has slot i' j' ne h')

    publish_fields :
        (i' : ℕ)
        → Stored
            (to_stage s i idle i').stage
            (cell k (set_cell k s.ring j slot) (to_stage s i idle i').idx)
            (to_stage s i idle i').sample
    publish_fields i' = elim (ℕ_discrete i' i) [
      | yes e ↦
          subst
            (λ (p : Producer). Stored p.stage (cell k (set_cell k s.ring j slot) p.idx) p.sample)
            (sym (ap (to_stage s i idle) e ∙ moved_self k v i j has idle)) tt
      | no ne ↦
          subst
            (λ (p : Producer). Stored p.stage (cell k (set_cell k s.ring j slot) p.idx) p.sample)
            (sym (moved_ne k v i j has idle i' ne)) (other_fields_ok k v i j has slot i' ne)
    ]

    pub publish-Inv : Inv k log (after_store k v i j has slot idle)
    publish-Inv = record {
      size = length-set s.ring.slots _ _ ∙ v.size;
      behind = v.behind;
      near = v.near;
      narrow = v.narrow;
      recorded = v.recorded;
      slots_ok = set-IsSlot s.ring _ _ v.slots_ok ok (cell-inside k s.ring j v.size);
      published = publish_published;
      unclaimed = unclaimed_ok k v i j has slot;
      owned = publish_owned;
      claims_ok = publish_claims;
      fields_ok = publish_fields;
      unique = λ a c j' h g. v.unique a c j' (still_holding a j' h).1 (still_holding c j' g).1;
      copied = reading_kept k v i j has slot;
    }
