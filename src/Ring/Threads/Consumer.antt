-- ===== src/Ring/Threads/Consumer.antt =====
-- The consumer's steps keep the invariant: the test, the copy, the release.
use tri_drishti_chrono_cap.Common.{
  ℕ, ◌+◌, ◌^◌, ◌≤◌, ◌<◌, ◌≡◌, ap, sym, subst, ◌∙◌, arith, inl, inr, Bool-cases, true, false, some,
  List, get_elem?, length-set, ℕ_discrete, mod-eq_of_lt,
}
use tri_drishti_chrono_cap.Ring.{
  Slot, PoppedRecord, MpscRingBuffer, slot_at, slot_index, increment, read_slot,
}
use tri_drishti_chrono_cap.Ring.Queue.{Item, item_of_record, item_of_slot}
use tri_drishti_chrono_cap.Ring.Steps.{set-IsSlot, item-read_slot}
use tri_drishti_chrono_cap.Ring.Threads.{
  Phase, polling, copying, releasing, System, set_ready, cell, set_cell, advance_pop,
}
use tri_drishti_chrono_cap.Ring.Threads.Inv.{
  holding, Copied, IsClaim, Inv, cell_index, cell-set_self, cell-set_ne, cell-inside,
}
use tri_drishti_chrono_cap.Ring.Threads.Frame.{Stored-subst}
use native.Mathlib.Nat.{one-le-pow, add-mod_right}

module _ (k : ℕ) {log : List Item} {s : System} (v : Inv k log s) where
  -- The oldest slot is published only where a record waits.
  ready_below :
      (cell k s.ring s.ring.read_index).ready ≡ true → s.ring.read_index < s.ring.write_index
  ready_below t = elim (ℕ_discrete s.ring.read_index s.ring.write_index) [
    | yes e ↦ absurd (
        let f =
          v.unclaimed s.ring.read_index (omega arith)
            (omega (arith, one-le-pow k 2 (omega arith))) in
        cc)
    | no ne ↦ omega (arith, v.behind)
  ]

  -- A change of the consumer's own state.
  local-Inv :
      (ph : Phase) (out : PoppedRecord)
      → Copied ph (cell k s.ring s.ring.read_index) (item_of_record out)
      → Inv k log (record s { phase = ph; out = out })
  local-Inv ph out c = record {
    size = v.size;
    behind = v.behind;
    near = v.near;
    narrow = v.narrow;
    recorded = v.recorded;
    slots_ok = v.slots_ok;
    published = v.published;
    unclaimed = v.unclaimed;
    owned = v.owned;
    claims_ok = v.claims_ok;
    fields_ok = v.fields_ok;
    unique = v.unique;
    copied = c;
  }

  pub poll-Inv : Inv k log (advance_pop k s polling)
  unfolding advance_pop
  poll-Inv = elim (Bool-cases (cell k s.ring s.ring.read_index).ready) [
    | inl t ↦ rw t (local-Inv copying s.out t)
    | inr f ↦ rw f v
  ]

  pub copy-Inv : s.phase ≡ copying → Inv k log (advance_pop k s copying)
  unfolding advance_pop
  copy-Inv e =
      let t : (cell k s.ring s.ring.read_index).ready ≡ true =
        subst (λ ph. Copied ph (cell k s.ring s.ring.read_index) (item_of_record s.out)) e
          v.copied in
      local-Inv releasing (read_slot (cell k s.ring s.ring.read_index) s.out)
        (t, item-read_slot (cell k s.ring s.ring.read_index) s.out (v.slots_ok _))

  module _ (e : s.phase ≡ releasing) where
    here : (cell k s.ring s.ring.read_index).ready ≡ true
    here =
        (subst (λ ph. Copied ph (cell k s.ring s.ring.read_index) (item_of_record s.out)) e
          v.copied).0

    -- The record that is handed over is the oldest one of the log that was not.
    pub released_item : get_elem? log s.ring.read_index ≡ some (item_of_record s.out)
    released_item =
        v.published s.ring.read_index (omega arith) (ready_below here) here
        ∙ ap (λ x. some x)
            (sym
              (subst (λ ph. Copied ph (cell k s.ring s.ring.read_index) (item_of_record s.out)) e
                v.copied).1)

    abbrev freed : MpscRingBuffer
    freed = set_cell k s.ring s.ring.read_index (set_ready false (cell k s.ring s.ring.read_index))

    pub next_index : increment s.ring.read_index ≡ s.ring.read_index + 1
    next_index = mod-eq_of_lt (omega (arith, ready_below here, v.narrow))

    freed_other :
        (j' : ℕ)
        → s.ring.read_index + 1 ≤ j'
        → j' < s.ring.read_index + 2 ^ k
        → cell k freed j' ≡ cell k s.ring j'
    freed_other j' lo hi =
        cell-set_ne k s.ring s.ring.read_index s.ring.read_index j' _ (omega arith)
          (omega (arith, one-le-pow k 2 (omega arith))) (omega arith) hi (omega arith)

    freed_self : (cell k freed s.ring.read_index).ready ≡ false
    freed_self = ap (λ (c : Slot). c.ready) (cell-set_self k s.ring s.ring.read_index _ v.size)

    -- The slot comes round for the claim that is one round later.
    freed_round : (cell k freed (s.ring.read_index + 2 ^ k)).ready ≡ false
    freed_round =
        ap (λ i. (slot_at freed i).ready)
          (cell_index k (s.ring.read_index + 2 ^ k)
            ∙ add-mod_right s.ring.read_index (2 ^ k)
            ∙ sym (cell_index k s.ring.read_index))
        ∙ freed_self

    released_unclaimed :
        (j' : ℕ)
        → s.ring.write_index ≤ j'
        → j' < increment s.ring.read_index + 2 ^ k
        → (cell k freed j').ready ≡ false
    released_unclaimed j' lo hi = elim (ℕ_discrete j' (s.ring.read_index + 2 ^ k)) [
      | yes same ↦ ap (λ n. (cell k freed n).ready) same ∙ freed_round
      | no ne ↦
          let under : j' < s.ring.read_index + 2 ^ k = omega (arith, next_index) in
          ap (λ (c : Slot). c.ready) (freed_other j' (omega (arith, ready_below here)) under)
          ∙ v.unclaimed j' lo under
    ]

    claim_other :
        (i' j' : ℕ)
        → holding (s.producers i') ≡ some j'
        → (s.ring.read_index + 1 ≤ j') × (cell k freed j' ≡ cell k s.ring j')
    claim_other i' j' h =
        let c = v.claims_ok i' j' h in
        let lo : s.ring.read_index + 1 ≤ j' = elim (ℕ_discrete s.ring.read_index j') [
          | yes same ↦
              absurd (
                let f = c.free in let t = ap (λ n. (cell k s.ring n).ready) (sym same) ∙ here in cc)
          | no ne ↦ omega (arith, c.low)
        ] in
        (lo, freed_other j' lo (omega (arith, c.high, v.near)))

    released_claims :
        (i' j' : ℕ)
        → holding (s.producers i') ≡ some j'
        → IsClaim log
            (increment s.ring.read_index)
            s.ring.write_index
            (cell k freed j')
            (s.producers i').sample
            j'
    released_claims i' j' h =
        let c = v.claims_ok i' j' h in
        let (lo, same) = claim_other i' j' h in
        record {
          low = omega (arith, next_index);
          high = c.high;
          free = ap (λ (x : Slot). x.ready) same ∙ c.free;
          logged = c.logged;
          enough = c.enough;
          small = c.small;
        }

    pub release-Inv : Inv k log (advance_pop k s releasing)
    unfolding advance_pop
    release-Inv = record {
      size = length-set s.ring.slots _ _ ∙ v.size;
      behind = omega (arith, next_index, ready_below here);
      near = omega (arith, next_index, v.near);
      narrow = v.narrow;
      recorded = v.recorded;
      slots_ok =
          set-IsSlot s.ring _ _ v.slots_ok
            (let ok = v.slots_ok (slot_index k s.ring.read_index) in
              record { sized = ok.sized; fits = ok.fits })
            (cell-inside k s.ring s.ring.read_index v.size);
      published = λ j' lo hi t.
          let same = freed_other j' (omega (arith, next_index)) (omega (arith, v.near)) in
          v.published j' (omega (arith, next_index)) hi (ap (λ (x : Slot). x.ready) (sym same) ∙ t)
          ∙ ap (λ (x : Slot). some (item_of_slot x)) (sym same);
      unclaimed = released_unclaimed;
      owned = λ j' lo hi f.
          let same = freed_other j' (omega (arith, next_index)) (omega (arith, v.near)) in
          v.owned j' (omega (arith, next_index)) hi (ap (λ (x : Slot). x.ready) (sym same) ∙ f);
      claims_ok = released_claims;
      fields_ok = λ i'.
          Stored-subst (s.producers i').stage (s.producers i').idx _
            (λ h. (claim_other i' (s.producers i').idx h).1) (v.fields_ok i');
      unique = v.unique;
      copied = tt;
    }
