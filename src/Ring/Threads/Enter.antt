-- ===== src/Ring/Threads/Enter.antt =====
-- A producer that enters `TryPush` and claims an index keeps the invariant, with the record in the log.
use tri_drishti_chrono_cap.Common.{
  ℕ, ◌+◌, ◌≤◌, ◌<◌, ◌≡◌, ◌≢◌, refl, ap, sym, subst, ◌∙◌, arith, true, false, some, List, [], ◌∷◌,
  ◌++◌, get_elem?, length-append, get_elem?-append_last, get_elem?-append_ne, ℕ_discrete,
  mod-eq_of_lt,
}
use tri_drishti_chrono_cap.Ring.{Sample, increment}
use tri_drishti_chrono_cap.Ring.Queue.{Item, item_of_sample, item_of_slot}
use tri_drishti_chrono_cap.Ring.Threads.{
  idle, claimed, Producer, System, update, cell, HasRoom, enter,
}
use tri_drishti_chrono_cap.Ring.Threads.Inv.{holding, Stored, IsClaim, Inv}
use tri_drishti_chrono_cap.Ring.Threads.Frame.{update_self, update_ne}

module _ (k : ℕ) {log : List Item} {s : System} (v : Inv k log s) (i : ℕ) (x : Sample)
    (out : (s.producers i).stage ≡ idle) (small : x.len ≤ 64) (room : HasRoom k s (enter i x)) where
  abbrev entered : ℕ → Producer
  entered = update s.producers i (record { stage = claimed; idx = s.ring.write_index; sample = x })

  abbrev pub after_enter : System
  after_enter = record s {
    ring = record s.ring { write_index = increment s.ring.write_index };
    producers = entered;
  }

  next_claim : increment s.ring.write_index ≡ s.ring.write_index + 1
  next_claim = mod-eq_of_lt room.2

  -- The log keeps what it had.
  logged_before :
      (j : ℕ)
      → j < s.ring.write_index
      → get_elem? (log ++ (item_of_sample x ∷ [])) j ≡ get_elem? log j
  logged_before j lt = get_elem?-append_ne log (item_of_sample x) j (omega (arith, v.recorded))

  logged_now :
      get_elem? (log ++ (item_of_sample x ∷ [])) s.ring.write_index ≡ some (item_of_sample x)
  logged_now =
      ap (get_elem? (log ++ (item_of_sample x ∷ []))) (sym v.recorded)
      ∙ get_elem?-append_last log (item_of_sample x)

  free_now : (cell k s.ring s.ring.write_index).ready ≡ false
  free_now = v.unclaimed s.ring.write_index (omega arith) room.1

  entered_self :
      (i' : ℕ)
      → i' ≡ i
      → entered i' ≡ record { stage = claimed; idx = s.ring.write_index; sample = x }
  entered_self i' e = ap entered e ∙ update_self s.producers i _

  entered_ne : (i' : ℕ) → i' ≢ i → entered i' ≡ s.producers i'
  entered_ne i' ne = update_ne s.producers i i' _ ne

  -- Who holds an index is the newcomer with the new one, or was there before with an earlier one.
  data Holder (i' j : ℕ) : Type 0 where
    newcomer : i' ≡ i → s.ring.write_index ≡ j → Holder i' j
    earlier : i' ≢ i → holding (s.producers i') ≡ some j → j < s.ring.write_index → Holder i' j

  who_holds : (i' j : ℕ) → holding (entered i') ≡ some j → Holder i' j
  who_holds i' j h = elim (ℕ_discrete i' i) [
    | yes e ↦ newcomer e (let q = sym (ap holding (entered_self i' e)) ∙ h in cc)
    | no ne ↦
        let g = ap holding (sym (entered_ne i' ne)) ∙ h in earlier ne g (v.claims_ok i' j g).high
  ]

  enter_published :
      (j : ℕ)
      → s.ring.read_index ≤ j
      → j < increment s.ring.write_index
      → (cell k s.ring j).ready ≡ true
      → get_elem? (log ++ (item_of_sample x ∷ [])) j ≡ some (item_of_slot (cell k s.ring j))
  enter_published j lo hi t = elim (ℕ_discrete j s.ring.write_index) [
    | yes e ↦ absurd (let q = ap (λ n. (cell k s.ring n).ready) e in let f = free_now in cc)
    | no ne ↦
        let lt : j < s.ring.write_index = omega (arith, next_claim) in
        logged_before j lt ∙ v.published j lo lt t
  ]

  enter_owned :
      (j : ℕ)
      → s.ring.read_index ≤ j
      → j < increment s.ring.write_index
      → (cell k s.ring j).ready ≡ false
      → (i' : ℕ) × (holding (entered i') ≡ some j)
  enter_owned j lo hi f = elim (ℕ_discrete j s.ring.write_index) [
    | yes e ↦ (i, ap holding (entered_self i refl) ∙ ap (λ n. some n) (sym e))
    | no ne ↦
        let (i', h) = v.owned j lo (omega (arith, next_claim)) f in
        (
          i',
          ap holding (
                entered_ne i'
                  (λ e. let q = sym (ap (λ n. holding (s.producers n)) e) ∙ h in let o = out in cc))
              ∙ h,
        )
  ]

  enter_claims :
      (i' j : ℕ)
      → holding (entered i') ≡ some j
      → IsClaim
          (log ++ (item_of_sample x ∷ []))
          s.ring.read_index
          (increment s.ring.write_index)
          (cell k s.ring j)
          (entered i').sample
          j
  enter_claims i' j h = elim (who_holds i' j h) [
    | newcomer e at ↦
        subst
          (λ (p : Producer).
            IsClaim (log ++ (item_of_sample x ∷ [])) s.ring.read_index
              (increment s.ring.write_index) (cell k s.ring j) p.sample j)
          (sym (entered_self i' e))
          (record {
            low = omega (arith, v.behind);
            high = omega (arith, next_claim);
            free = subst (λ n. (cell k s.ring n).ready ≡ false) at free_now;
            logged = ap (get_elem? (log ++ (item_of_sample x ∷ []))) (sym at) ∙ logged_now;
            enough = room.0;
            small = small;
          })
    | earlier ne g lt ↦
        let c = v.claims_ok i' j g in
        subst
          (λ (p : Producer).
            IsClaim (log ++ (item_of_sample x ∷ [])) s.ring.read_index
              (increment s.ring.write_index) (cell k s.ring j) p.sample j)
          (sym (entered_ne i' ne))
          (record {
            low = c.low;
            high = omega (arith, next_claim);
            free = c.free;
            logged = logged_before j lt ∙ c.logged;
            enough = c.enough;
            small = c.small;
          })
  ]

  enter_unique : (a b j : ℕ) → holding (entered a) ≡ some j → holding (entered b) ≡ some j → a ≡ b
  enter_unique a b j h g = elim (who_holds a j h) [
    | newcomer e at ↦ elim (who_holds b j g) [
      | newcomer e' at' ↦ e ∙ sym e'
      | earlier ne' g' lt' ↦ absurd (omega arith)
    ]
    | earlier ne h' lt ↦ elim (who_holds b j g) [
      | newcomer e' at' ↦ absurd (omega arith)
      | earlier ne' g' lt' ↦ v.unique a b j h' g'
    ]
  ]

  enter_fields :
      (i' : ℕ) → Stored (entered i').stage (cell k s.ring (entered i').idx) (entered i').sample
  enter_fields i' = elim (ℕ_discrete i' i) [
    | yes e ↦
        subst (λ (p : Producer). Stored p.stage (cell k s.ring p.idx) p.sample)
          (sym (entered_self i' e)) tt
    | no ne ↦
        subst (λ (p : Producer). Stored p.stage (cell k s.ring p.idx) p.sample)
          (sym (entered_ne i' ne)) (v.fields_ok i')
  ]

  pub enter-Inv : Inv k (log ++ (item_of_sample x ∷ [])) after_enter
  enter-Inv = record {
    size = v.size;
    behind = omega (arith, next_claim, v.behind);
    near = omega (arith, next_claim, room.1);
    narrow = omega (arith, next_claim, room.2);
    recorded = omega (arith, length-append log (item_of_sample x ∷ []), v.recorded, next_claim);
    slots_ok = v.slots_ok;
    published = enter_published;
    unclaimed = λ j lo hi. v.unclaimed j (omega (arith, next_claim)) hi;
    owned = enter_owned;
    claims_ok = enter_claims;
    fields_ok = enter_fields;
    unique = enter_unique;
    copied = v.copied;
  }
