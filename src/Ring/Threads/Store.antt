-- ===== src/Ring/Threads/Store.antt =====
-- A step of a producer that keeps its claim.
use tri_drishti_chrono_cap.Common.{
  ℕ, ◌≤◌, ◌<◌, ◌≡◌, ap, sym, subst, ◌∙◌, arith, false, some, List, length-set, ℕ_discrete,
}
use tri_drishti_chrono_cap.Ring.{Slot}
use tri_drishti_chrono_cap.Ring.Queue.{Item}
use tri_drishti_chrono_cap.Ring.Steps.{IsSlot, set-IsSlot}
use tri_drishti_chrono_cap.Ring.Threads.{Stage, Producer, System, to_stage, cell, set_cell}
use tri_drishti_chrono_cap.Ring.Threads.Inv.{index_of, holding, Stored, IsClaim, Inv, cell-inside}
use tri_drishti_chrono_cap.Ring.Threads.Frame.{
  mine, at_j, cell_other, cell_self, other_undisturbed, other_fields_ok, reading_kept, published_ok,
  unclaimed_ok, moved_self, moved_ne, after_store,
}

module _ (k : ℕ) {log : List Item} {s : System} (v : Inv k log s) (i j : ℕ)
    (has : holding (s.producers i) ≡ some j) where
  -- A step that keeps the claim.
  module _ (slot : Slot) (b : Stage) (keeps : index_of b (s.producers i).idx ≡ some j) where
    same_holding : (i' : ℕ) → holding (to_stage s i b i') ≡ holding (s.producers i')
    same_holding i' = elim (ℕ_discrete i' i) [
      | yes e ↦
          ap (λ n. holding (to_stage s i b n)) e
          ∙ ap holding (moved_self k v i j has b)
          ∙ keeps
          ∙ sym has
          ∙ ap (λ n. holding (s.producers n)) (sym e)
      | no ne ↦ ap holding (moved_ne k v i j has b i' ne)
    ]

    pub keep-Inv :
        IsSlot slot
        → slot.ready ≡ false
        → Stored b slot (s.producers i).sample
        → Inv k log (after_store k v i j has slot b)
    keep-Inv ok closed st = record {
      size = length-set s.ring.slots _ _ ∙ v.size;
      behind = v.behind;
      near = v.near;
      narrow = v.narrow;
      recorded = v.recorded;
      slots_ok = set-IsSlot s.ring _ _ v.slots_ok ok (cell-inside k s.ring j v.size);
      published = λ j' lo hi t.
          published_ok k v i j has slot j' lo hi
            (λ e.
              let q =
                ap (λ n. (cell k (set_cell k s.ring j slot) n).ready) e
                ∙ ap (λ (x : Slot). x.ready) (cell_self k v i j has slot) in
              cc)
            t;
      unclaimed = unclaimed_ok k v i j has slot;
      owned = owned_ok;
      claims_ok = claims_ok_ok;
      fields_ok = fields_ok_ok;
      unique = λ a c j' h g. v.unique a c j' (sym (same_holding a) ∙ h) (sym (same_holding c) ∙ g);
      copied = reading_kept k v i j has slot;
    }
      where
        owned_ok :
            (j' : ℕ)
            → s.ring.read_index ≤ j'
            → j' < s.ring.write_index
            → (cell k (set_cell k s.ring j slot) j').ready ≡ false
            → (i' : ℕ) × (holding (to_stage s i b i') ≡ some j')
        owned_ok j' lo hi f = elim (ℕ_discrete j' j) [
          | yes e ↦ (i, same_holding i ∙ has ∙ ap (λ n. some n) (sym e))
          | no ne ↦
              let (i', h) = v.owned j' lo hi (
                ap (λ (x : Slot). x.ready)
                  (sym (cell_other k v i j has slot j' lo (omega (arith, v.near)) ne))
                ∙ f) in
              (i', same_holding i' ∙ h)
        ]

        claims_ok_ok :
            (i' j' : ℕ)
            → holding (to_stage s i b i') ≡ some j'
            → IsClaim log s.ring.read_index s.ring.write_index
                (cell k (set_cell k s.ring j slot) j')
                (to_stage s i b i').sample
                j'
        claims_ok_ok i' j' h = elim (ℕ_discrete i' i) [
          | yes e ↦
              let g : j ≡ j' =
                let q =
                  sym has ∙ ap (λ n. holding (s.producers n)) (sym e) ∙ sym (same_holding i') ∙ h in
                cc in
              let c = mine k v i j has in
              subst
                (λ n.
                  IsClaim log s.ring.read_index s.ring.write_index
                    (cell k (set_cell k s.ring j slot) n) (to_stage s i b i').sample n)
                g
                (subst
                  (λ (p : Producer).
                    IsClaim log s.ring.read_index s.ring.write_index
                      (cell k (set_cell k s.ring j slot) j) p.sample j)
                  (sym (ap (to_stage s i b) e ∙ moved_self k v i j has b))
                  (record {
                    low = c.low;
                    high = c.high;
                    free = ap (λ (x : Slot). x.ready) (cell_self k v i j has slot) ∙ closed;
                    logged = c.logged;
                    enough = c.enough;
                    small = c.small;
                  }))
          | no ne ↦
              subst
                (λ (p : Producer).
                  IsClaim log s.ring.read_index s.ring.write_index
                    (cell k (set_cell k s.ring j slot) j') p.sample j')
                (sym (moved_ne k v i j has b i' ne))
                (other_undisturbed k v i j has slot i' j' ne (sym (same_holding i') ∙ h))
        ]

        fields_ok_ok :
            (i' : ℕ)
            → Stored
                (to_stage s i b i').stage
                (cell k (set_cell k s.ring j slot) (to_stage s i b i').idx)
                (to_stage s i b i').sample
        fields_ok_ok i' = elim (ℕ_discrete i' i) [
          | yes e ↦
              subst
                (λ (p : Producer).
                  Stored p.stage (cell k (set_cell k s.ring j slot) p.idx) p.sample)
                (sym (ap (to_stage s i b) e ∙ moved_self k v i j has b))
                (subst (λ (c : Slot). Stored b c (s.producers i).sample)
                  (sym (
                    ap (cell k (set_cell k s.ring j slot)) (at_j k v i j has)
                    ∙ cell_self k v i j has slot))
                  st)
          | no ne ↦
              subst
                (λ (p : Producer).
                  Stored p.stage (cell k (set_cell k s.ring j slot) p.idx) p.sample)
                (sym (moved_ne k v i j has b i' ne)) (other_fields_ok k v i j has slot i' ne)
        ]
