-- ===== src/Ring/Threads/Frame.antt =====
-- What a producer's store into the slot that it has claimed leaves alone.
use tri_drishti_chrono_cap.Common.{
  ℕ, ◌+◌, ◌^◌, ◌≤◌, ◌<◌, ◌==◌, ==_iff, ◌≡◌, ◌≢◌, refl, ap, sym, ◌∙◌, arith, inl, inr, Bool-cases,
  true, false, some, List, get_elem?,
}
use tri_drishti_chrono_cap.Ring.{Slot, Sample}
use tri_drishti_chrono_cap.Ring.Queue.{Item, item_of_record, item_of_slot}
use tri_drishti_chrono_cap.Ring.Threads.{
  Stage, idle, claimed, tested, stored, Phase, polling, copying, releasing, System, update,
  to_stage, cell, set_cell,
}
use tri_drishti_chrono_cap.Ring.Threads.Inv.{
  index_of, holding, Stored, Copied, IsClaim, Inv, cell-set_self, cell-set_ne,
}

pub update_self {ℓ} : {A : Type ℓ} (f : ℕ → A) (i : ℕ) (a : A) → update f i a i ≡ a
update_self f i a = let t : (i == i) ≡ true = (==_iff i i).1 refl in rw t refl

pub update_ne {ℓ} : {A : Type ℓ} (f : ℕ → A) (i j : ℕ) (a : A) → j ≢ i → update f i a j ≡ f j
update_ne f i j a ne = elim (Bool-cases (j == i)) [
  | inl t ↦ absurd (ne ((==_iff j i).0 t))
  | inr n ↦ rw n refl
]

pub Stored-subst :
    (st : Stage) (idx : ℕ) {slot slot' : Slot} (x : Sample)
    → (index_of st idx ≡ some idx → slot' ≡ slot)
    → Stored st slot x
    → Stored st slot' x
Stored-subst idle idx x e h = tt
Stored-subst claimed idx x e h = tt
Stored-subst tested idx x e h = tt
Stored-subst stored idx x e h = ap item_of_slot (e refl) ∙ h

Copied-subst :
    (ph : Phase) {slot slot' : Slot} (x : Item)
    → (slot.ready ≡ true → slot' ≡ slot)
    → Copied ph slot x
    → Copied ph slot' x
Copied-subst polling x e h = tt
Copied-subst copying x e h = ap (λ (c : Slot). c.ready) (e h) ∙ h
Copied-subst releasing x e (h, g) =
    (ap (λ (c : Slot). c.ready) (e h) ∙ h, g ∙ sym (ap item_of_slot (e h)))

index_of-idx : (st : Stage) {idx j : ℕ} → index_of st idx ≡ some j → idx ≡ j
index_of-idx idle e = absurd cc
index_of-idx claimed e = cc
index_of-idx tested e = cc
index_of-idx stored e = cc

module _ (k : ℕ) {log : List Item} {s : System} (v : Inv k log s) (i j : ℕ)
    (has : holding (s.producers i) ≡ some j) where
  pub mine :
      IsClaim log s.ring.read_index s.ring.write_index (cell k s.ring j) (s.producers i).sample j
  mine = v.claims_ok i j has

  pub at_j : (s.producers i).idx ≡ j
  at_j = index_of-idx (s.producers i).stage has

  -- Another index of the round has another slot.
  pub cell_other :
      (slot : Slot) (j' : ℕ)
      → s.ring.read_index ≤ j'
      → j' < s.ring.read_index + 2 ^ k
      → j' ≢ j
      → cell k (set_cell k s.ring j slot) j' ≡ cell k s.ring j'
  cell_other slot j' lo hi ne =
      cell-set_ne k s.ring s.ring.read_index j j' slot mine.low (omega (arith, mine.high, v.near))
        lo hi (λ e. ne (sym e))

  pub cell_self : (slot : Slot) → cell k (set_cell k s.ring j slot) j ≡ slot
  cell_self slot = cell-set_self k s.ring j slot v.size

  other_claim : (i' j' : ℕ) → i' ≢ i → holding (s.producers i') ≡ some j' → j' ≢ j
  other_claim i' j' ne h e = ne (v.unique i' i j' h (has ∙ ap (λ n. some n) (sym e)))

  ready-ne : (j' : ℕ) → (cell k s.ring j').ready ≡ true → j' ≢ j
  ready-ne j' t e = let f = mine.free in let q = ap (λ n. (cell k s.ring n).ready) e in cc

  -- A claim of another producer does not see the step.
  pub other_undisturbed :
      (slot : Slot) (i' j' : ℕ)
      → i' ≢ i
      → holding (s.producers i') ≡ some j'
      → IsClaim log s.ring.read_index s.ring.write_index
          (cell k (set_cell k s.ring j slot) j')
          (s.producers i').sample
          j'
  other_undisturbed slot i' j' ne h =
      let c = v.claims_ok i' j' h in
      let same =
        cell_other slot j' c.low (omega (arith, c.high, v.near)) (other_claim i' j' ne h) in
      record {
        low = c.low;
        high = c.high;
        free = ap (λ (x : Slot). x.ready) same ∙ c.free;
        logged = c.logged;
        enough = c.enough;
        small = c.small;
      }

  pub other_fields_ok :
      (slot : Slot) (i' : ℕ)
      → i' ≢ i
      → Stored
          (s.producers i').stage
          (cell k (set_cell k s.ring j slot) (s.producers i').idx)
          (s.producers i').sample
  other_fields_ok slot i' ne =
      Stored-subst (s.producers i').stage (s.producers i').idx _
        (λ h.
          let c = v.claims_ok i' (s.producers i').idx h in
          cell_other slot (s.producers i').idx c.low (omega (arith, c.high, v.near))
            (other_claim i' (s.producers i').idx ne h))
        (v.fields_ok i')

  pub reading_kept :
      (slot : Slot)
      → Copied s.phase (cell k (set_cell k s.ring j slot) s.ring.read_index) (item_of_record s.out)
  reading_kept slot =
      Copied-subst s.phase _
        (λ t.
          cell_other slot s.ring.read_index (omega arith)
            (omega (arith, mine.low, mine.high, v.near)) (ready-ne s.ring.read_index t))
        v.copied

  pub published_ok :
      (slot : Slot) (j' : ℕ)
      → s.ring.read_index ≤ j'
      → j' < s.ring.write_index
      → j' ≢ j
      → (cell k (set_cell k s.ring j slot) j').ready ≡ true
      → get_elem? log j' ≡ some (item_of_slot (cell k (set_cell k s.ring j slot) j'))
  published_ok slot j' lo hi ne t =
      let same = cell_other slot j' lo (omega (arith, v.near)) ne in
      v.published j' lo hi (ap (λ (x : Slot). x.ready) (sym same) ∙ t)
      ∙ ap (λ (x : Slot). some (item_of_slot x)) (sym same)

  pub unclaimed_ok :
      (slot : Slot) (j' : ℕ)
      → s.ring.write_index ≤ j'
      → j' < s.ring.read_index + 2 ^ k
      → (cell k (set_cell k s.ring j slot) j').ready ≡ false
  unclaimed_ok slot j' lo hi =
      ap (λ (x : Slot). x.ready)
        (cell_other slot j' (omega (arith, v.behind)) hi (omega (arith, mine.high)))
      ∙ v.unclaimed j' lo hi

  pub moved_self : (b : Stage) → to_stage s i b i ≡ record (s.producers i) { stage = b }
  moved_self b = update_self s.producers i _

  pub moved_ne : (b : Stage) (i' : ℕ) → i' ≢ i → to_stage s i b i' ≡ s.producers i'
  moved_ne b i' ne = update_ne s.producers i i' _ ne

  -- The system after a store into the claimed slot, with the producer at a stage.
  abbrev pub after_store : Slot → Stage → System
  after_store slot b = record s { ring = set_cell k s.ring j slot; producers = to_stage s i b }
