-- ===== src/Ring/Fifo.antt =====
-- The invariant that ties a ring to the queue of its records, and its preservation by `TryPush` and
-- `TryPop`, on every branch and for indices that wrap at 2 ^ 64.
use tri_drishti_chrono_cap.Common.{
  ℕ, suc, ◌+◌, ◌%◌, ◌^◌, ◌≤◌, ◌<◌, ◌≡◌, ◌≢◌, sym, ap, ◌∙◌, arith, false, none, List, [], ◌∷◌, ◌++◌,
  length, get_elem?, length-set, length-append, get_or-set_self, get_or-set_ne,
  get_elem?-append_last, get_elem?-append_ne, get_elem?-ge, mod-add-mod, mod-eq_of_lt, dec_lt,
  ℕ_discrete,
}
use tri_drishti_chrono_cap.Common.Bits.{bit_and_mask}
use tri_drishti_chrono_cap.Common.Order.{add-mod-ne}
use tri_drishti_chrono_cap.Ring.{Sample, MpscRingBuffer, empty_slot, slot_at, slot_index, increment}
use tri_drishti_chrono_cap.Ring.Capacity.{mod-u64}
use tri_drishti_chrono_cap.Ring.Queue.{Item, item_of_sample, waiting, IsSample}
use tri_drishti_chrono_cap.Ring.Steps.{
  IsSlot, waiting-fill_slot, fill_slot-IsSlot, set-IsSlot, claimed, next, stored, popped,
}
use native.Mathlib.Nat.{mod-lt, one-le-pow, add-mod_right}

module _ (k : ℕ) where
  -- `q` is what the ring holds, oldest first: the slots from the read index on, round the array,
  -- hold its records, and the others are free. The write index stands `gap` claims past the last
  -- record: claims of pushes that were rejected.
  pub record Holds (gap : ℕ) (r : MpscRingBuffer) (q : List Item) : Type 0 where
    pub size : length r.slots ≡ 2 ^ k
    pub few : length q ≤ 2 ^ k
    pub narrow : r.read_index < 2 ^ 64
    pub ahead : r.write_index ≡ (r.read_index + (length q + gap)) % 2 ^ 64
    pub slots_ok : (i : ℕ) → IsSlot (slot_at r i)
    pub cells :
        (i : ℕ) → i < 2 ^ k → waiting (slot_at r ((r.read_index + i) % 2 ^ k)) ≡ get_elem? q i

  index-lt : (a : ℕ) → a % 2 ^ k < 2 ^ k
  index-lt a = mod-lt a (one-le-pow k 2 (omega arith))

  -- The slot of an index that may have wrapped.
  slot_index_lem : k ≤ 64 → (a : ℕ) → slot_index k (a % 2 ^ 64) ≡ a % 2 ^ k
  slot_index_lem h a = bit_and_mask k (a % 2 ^ 64) ∙ mod-u64 k a h

  module _ {gap : ℕ} {r : MpscRingBuffer} {q : List Item} (kk : k ≤ 64) (v : Holds gap r q) where
    -- Producer and consumer look at the two ends of the queue.
    pub write_slot : slot_index k r.write_index ≡ (r.read_index + (length q + gap)) % 2 ^ k
    write_slot =
        ap (λ a. slot_index k a) v.ahead ∙ slot_index_lem kk (r.read_index + (length q + gap))

    pub read_slot_index : slot_index k r.read_index ≡ (r.read_index + 0) % 2 ^ k
    read_slot_index =
        ap (λ a. slot_index k a) (sym (mod-eq_of_lt v.narrow) ∙ ap (λ a. a % 2 ^ 64) (omega arith))
        ∙ slot_index_lem kk (r.read_index + 0)

    pub waiting-next : waiting (next k r) ≡ get_elem? q 0
    waiting-next =
        ap (λ i. waiting (slot_at r i)) read_slot_index ∙ v.cells 0 (one-le-pow k 2 (omega arith))

    -- A free slot is claimed where the claim stands behind the records and within one round.
    pub waiting-claimed : length q + gap < 2 ^ k → waiting (claimed k r) ≡ none
    waiting-claimed room =
        ap (λ i. waiting (slot_at r i)) write_slot
        ∙ v.cells (length q + gap) room
        ∙ get_elem?-ge q (length q + gap) (omega arith)

    -- With every slot taken the producer comes round to the oldest record.
    pub waiting-claimed_full : length q + gap ≡ 2 ^ k → waiting (claimed k r) ≡ get_elem? q 0
    waiting-claimed_full full =
        ap (λ i. waiting (slot_at r i)) (write_slot ∙ round)
        ∙ v.cells 0 (one-le-pow k 2 (omega arith))
      where
        round : (r.read_index + (length q + gap)) % 2 ^ k ≡ (r.read_index + 0) % 2 ^ k
        round = rw full (add-mod_right r.read_index (2 ^ k) ∙ ap (λ a. a % 2 ^ k) (omega arith))

    pub write_inside : slot_index k r.write_index < length r.slots
    write_inside = rw write_slot (omega (arith, index-lt (r.read_index + (length q + gap)), v.size))

    read_inside : slot_index k r.read_index < length r.slots
    read_inside = rw read_slot_index (omega (arith, index-lt (r.read_index + 0), v.size))

    -- The read index after one step, also where it wraps.
    read_shift : (i : ℕ) → (increment r.read_index + i) % 2 ^ k ≡ (r.read_index + suc i) % 2 ^ k
    read_shift i =
        sym (mod-add-mod (increment r.read_index) (2 ^ k) i)
        ∙ ap (λ a. (a + i) % 2 ^ k) (mod-u64 k (r.read_index + 1) kk)
        ∙ mod-add-mod (r.read_index + 1) (2 ^ k) i
        ∙ ap (λ a. a % 2 ^ k) (omega arith)

    popped_cells :
        (x : Item) (q' : List Item)
        → q ≡ x ∷ q'
        → (i : ℕ) → i < 2 ^ k
        → waiting (slot_at (popped k r) ((increment r.read_index + i) % 2 ^ k)) ≡ get_elem? q' i
    popped_cells x q' e i hi = elim (dec_lt (suc i) (2 ^ k)) [
      | yes lt ↦
          ap (λ j. waiting (slot_at (popped k r) j)) (read_shift i)
          ∙ ap waiting (get_or-set_ne r.slots _ _ _ empty_slot (apart lt))
          ∙ v.cells (suc i) lt
          ∙ ap (λ l. get_elem? l (suc i)) e
      | no ge ↦
          ap (λ j. waiting (slot_at (popped k r) j)) (read_shift i ∙ round ge)
          ∙ ap waiting (get_or-set_self r.slots _ _ empty_slot read_inside)
          ∙ sym (get_elem?-ge q' i (omega (arith, v.few, ap length e)))
    ]
      where
        apart : suc i < 2 ^ k → slot_index k r.read_index ≢ (r.read_index + suc i) % 2 ^ k
        apart lt p =
            add-mod-ne r.read_index (2 ^ k) 0 (suc i) (omega arith) lt (omega arith)
              (sym read_slot_index ∙ p)

        round : ¬ (suc i < 2 ^ k) → (r.read_index + suc i) % 2 ^ k ≡ slot_index k r.read_index
        round ge =
            ap (λ n. (r.read_index + n) % 2 ^ k) (omega arith)
            ∙ add-mod_right r.read_index (2 ^ k)
            ∙ ap (λ a. a % 2 ^ k) (omega arith)
            ∙ sym read_slot_index

    pub popped-Holds : (x : Item) (q' : List Item) → q ≡ x ∷ q' → Holds gap (popped k r) q'
    popped-Holds x q' e = record {
      size = length-set r.slots _ _ ∙ v.size;
      few = omega (arith, v.few, ap length e);
      narrow = omega arith;
      ahead = omega (arith, v.ahead, ap length e);
      slots_ok = set-IsSlot r _ _ v.slots_ok freed read_inside;
      cells = popped_cells x q' e;
    }
      where
        freed : IsSlot (record (next k r) { ready = false })
        freed =
            let w : IsSlot (next k r) = v.slots_ok _ in record { sized = w.sized; fits = w.fits }

  module _ {r : MpscRingBuffer} {q : List Item} (kk : k ≤ 64) (v : Holds 0 r q) where
    behind : slot_index k r.write_index ≡ (r.read_index + length q) % 2 ^ k
    behind = write_slot kk v ∙ ap (λ n. (r.read_index + n) % 2 ^ k) (omega arith)

    -- Storing behind the queue extends it by the record, in every slot.
    stored_cells :
        (s : Sample)
        → IsSample s
        → length q < 2 ^ k
        → (i : ℕ) → i < 2 ^ k
        → waiting (slot_at (stored k r s) ((r.read_index + i) % 2 ^ k))
          ≡ get_elem? (q ++ (item_of_sample s ∷ [])) i
    stored_cells s h room i hi = elim (ℕ_discrete i (length q)) [
      | yes e ↦
          ap (λ j. waiting (slot_at (stored k r s) j))
            (ap (λ n. (r.read_index + n) % 2 ^ k) e ∙ sym behind)
          ∙ ap waiting (get_or-set_self r.slots _ _ empty_slot (write_inside kk v))
          ∙ waiting-fill_slot _ s h
          ∙ sym (
              ap (get_elem? (q ++ (item_of_sample s ∷ []))) e
              ∙ get_elem?-append_last q (item_of_sample s))
      | no ne ↦
          ap waiting (get_or-set_ne r.slots _ _ _ empty_slot (apart ne))
          ∙ v.cells i hi
          ∙ sym (get_elem?-append_ne q (item_of_sample s) i ne)
    ]
      where
        apart : i ≢ length q → slot_index k r.write_index ≢ (r.read_index + i) % 2 ^ k
        apart ne e = add-mod-ne r.read_index (2 ^ k) i (length q) hi room ne (sym e ∙ behind)

    pub stored-Holds :
        (s : Sample)
        → IsSample s
        → s.len ≤ 64
        → length q < 2 ^ k
        → Holds 0 (stored k r s) (q ++ (item_of_sample s ∷ []))
    stored-Holds s h small room = record {
      size = length-set r.slots _ _ ∙ v.size;
      few = omega (arith, length-append q (item_of_sample s ∷ []));
      narrow = v.narrow;
      ahead = omega (arith, v.ahead, length-append q (item_of_sample s ∷ []));
      slots_ok =
          set-IsSlot r _ _ v.slots_ok (fill_slot-IsSlot _ s (v.slots_ok _) h small)
            (write_inside kk v);
      cells = stored_cells s h room;
    }
