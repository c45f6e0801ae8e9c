-- ===== src/Ring/Conserve.antt =====
-- On every ring, also after rejected pushes: each accepted record is delivered at most once and
-- unchanged, and what is not delivered still stands in a slot.
use tri_drishti_chrono_cap.Common.{
  ℕ, zero, suc, ◌^◌, ◌≤◌, ◌<◌, ◌≡◌, refl, ◌∙◌, sym, subst, arith, dec_lt, Bool, true, false,
  if◌then◌else◌, Bool-cases, inl, inr, none, some, List, [], ◌∷◌, ◌++◌, length, get_or, set,
  length-set,
}
use tri_drishti_chrono_cap.Common.Bits.{bit_and_mask}
use tri_drishti_chrono_cap.Ring.{
  Slot, Sample, PoppedRecord, MpscRingBuffer, empty_slot, slot_at, slot_index, fill_slot, read_slot,
  try_push, try_pop,
}
use tri_drishti_chrono_cap.Ring.Queue.{
  Item, item_of_sample, item_of_record, item_of_slot, waiting, IsSample,
}
use tri_drishti_chrono_cap.Ring.Steps.{
  IsSlot, ready_of_waiting, item_of_waiting, waiting-fill_slot, fill_slot-IsSlot, set-IsSlot,
  claimed, next, stored, popped, try_push-too_large, try_push-full, try_push-free, try_pop-none,
  try_pop-some, item-read_slot,
}
use tri_drishti_chrono_cap.Ring.Runs.{Call, push, pop, Reply, pushed, run, after}
use tri_drishti_chrono_cap.Ring.Runs
use mathlib.Core.List.{Perm, perm_middle}
use mathlib.Core.List.Perm
use native.Mathlib.Nat.{mod-lt, one-le-pow}

-- The records that wait in the slots, in the slots' order.
abbrev pub held : List Slot → List Item
held [] = []
held (s ∷ slots) = if s.ready then item_of_slot s ∷ held slots else held slots

-- The records that a sequence of calls hands in, of the pushes that were accepted, and out.
abbrev pub accepted : List Call → List Reply → List Item
accepted (push s ∷ calls) (Runs.pushed done ∷ replies) =
    if done then item_of_sample s ∷ accepted calls replies else accepted calls replies
accepted (_ ∷ calls) (_ ∷ replies) = accepted calls replies
accepted _ _ = []

abbrev pub delivered : List Reply → List Item
delivered [] = []
delivered (Runs.pushed _ ∷ replies) = delivered replies
delivered (Runs.popped none ∷ replies) = delivered replies
delivered (Runs.popped (some x) ∷ replies) = x ∷ delivered replies

-- Filling a free slot adds its record; freeing a slot takes it away.
held-set_filled :
    (slots : List Slot) (i : ℕ) (v : Slot)
    → i < length slots
    → (get_or slots i empty_slot).ready ≡ false
    → v.ready ≡ true
    → Perm (item_of_slot v ∷ held slots) (held (set slots i v))
held-set_filled [] i v h e f = absurd (omega arith)
held-set_filled (s ∷ slots) zero v h e f = rw (e, f) (Perm.refl _)
held-set_filled (s ∷ slots) (suc i) v h e f = elim (Bool-cases s.ready) [
  | inl t ↦
      rw t
        (Perm.trans (Perm.swap _ _ _) (Perm.cons _ (held-set_filled slots i v (omega arith) e f)))
  | inr n ↦ rw n (held-set_filled slots i v (omega arith) e f)
]

held-set_freed :
    (slots : List Slot) (i : ℕ) (v : Slot)
    → i < length slots
    → (get_or slots i empty_slot).ready ≡ true
    → v.ready ≡ false
    → Perm (item_of_slot (get_or slots i empty_slot) ∷ held (set slots i v)) (held slots)
held-set_freed [] i v h e f = absurd (omega arith)
held-set_freed (s ∷ slots) zero v h e f = rw (e, f) (Perm.refl _)
held-set_freed (s ∷ slots) (suc i) v h e f = elim (Bool-cases s.ready) [
  | inl t ↦
      rw t (Perm.trans (Perm.swap _ _ _) (Perm.cons _ (held-set_freed slots i v (omega arith) e f)))
  | inr n ↦ rw n (held-set_freed slots i v (omega arith) e f)
]

-- One call in front of a sequence.
after_push :
    (done : Bool) (x : Item) (out before now acc : List Item)
    → Perm now (if done then x ∷ before else before)
    → Perm out (acc ++ now)
    → Perm out ((if done then x ∷ acc else acc) ++ before)
after_push true x out before now acc p ih =
    Perm.trans ih (Perm.trans (Perm.append_left acc p) (perm_middle acc before))
after_push false x out before now acc p ih = Perm.trans ih (Perm.append_left acc p)

after_pop :
    (done : Bool) (x : Item) (before now rest acc : List Item) (replies : List Reply)
    → Perm before (if done then x ∷ now else now)
    → Perm (delivered replies ++ rest) (acc ++ now)
    → Perm
        (delivered (Runs.popped (if done then some x else none) ∷ replies) ++ rest)
        (acc ++ before)
after_pop true x before now rest acc replies p ih =
    Perm.trans (Perm.cons x ih)
      (Perm.trans (Perm.symm (perm_middle acc now)) (Perm.append_left acc (Perm.symm p)))
after_pop false x before now rest acc replies p ih =
    Perm.trans ih (Perm.append_left acc (Perm.symm p))

-- Each push passes as many bytes as it says.
abbrev pub Samples : List Call → Type 0
Samples [] = Unit
Samples (push s ∷ calls) = IsSample s × Samples calls
Samples (pop ∷ calls) = Samples calls

module _ (k : ℕ) where
  -- The array has its size and every slot its 64 bytes: all that conservation needs.
  pub record IsRing (r : MpscRingBuffer) : Type 0 where
    pub size : length r.slots ≡ 2 ^ k
    pub slots_ok : (i : ℕ) → IsSlot (slot_at r i)

  slot_index-lt : (r : MpscRingBuffer) (a : ℕ) → IsRing r → slot_index k a < length r.slots
  slot_index-lt r a v = rw (v.size, bit_and_mask) (mod-lt a (one-le-pow k 2 (omega arith)))

  pub push_conserve :
      (r : MpscRingBuffer) (s : Sample)
      → IsRing r
      → IsSample s
      → let (r', done) = try_push k r s in
        IsRing r'
        × Perm (held r'.slots) (if done then item_of_sample s ∷ held r.slots else held r.slots)
  push_conserve r s v h = elim (dec_lt 64 s.len) [
    | yes large ↦ rw (try_push-too_large k r s large) (v, Perm.refl _)
    | no small ↦ elim (Bool-cases (claimed k r).ready) [
      | inl full ↦
          rw (try_push-full k r s (omega arith) full)
            (record { size = v.size; slots_ok = v.slots_ok }, Perm.refl _)
      | inr free ↦ rw (try_push-free k r s (omega arith) free) (kept (omega arith), filled free)
    ]
  ]
    where
      filled_item : waiting (fill_slot (claimed k r) s) ≡ some (item_of_sample s)
      filled_item = waiting-fill_slot (claimed k r) s h

      filled :
          (claimed k r).ready ≡ false
          → Perm (held (stored k r s).slots) (item_of_sample s ∷ held r.slots)
      filled free =
          subst (λ x. Perm (held (stored k r s).slots) (x ∷ held r.slots))
            (item_of_waiting _ filled_item)
            (Perm.symm (
              held-set_filled r.slots _ _ (slot_index-lt r r.write_index v) free
                (ready_of_waiting _ filled_item)))

      kept : s.len ≤ 64 → IsRing (stored k r s)
      kept small = record {
        size = length-set r.slots _ _ ∙ v.size;
        slots_ok =
            set-IsSlot r _ _ v.slots_ok (fill_slot-IsSlot _ s (v.slots_ok _) h small)
              (slot_index-lt r r.write_index v);
      }

  pub pop_conserve :
      (r : MpscRingBuffer) (out : PoppedRecord)
      → IsRing r
      → let (r', out', done) = try_pop k r out in
        IsRing r'
        × Perm (held r.slots) (if done then item_of_record out' ∷ held r'.slots else held r'.slots)
  pop_conserve r out v = elim (Bool-cases (next k r).ready) [
    | inl full ↦ rw (try_pop-some k r out full) (kept, given full)
    | inr free ↦ rw (try_pop-none k r out free) (v, Perm.refl _)
  ]
    where
      given :
          (next k r).ready ≡ true
          → Perm
              (held r.slots)
              (item_of_record (read_slot (next k r) out) ∷ held (popped k r).slots)
      given full =
          subst (λ x. Perm (held r.slots) (x ∷ held (popped k r).slots))
            (sym (item-read_slot (next k r) out (v.slots_ok _)))
            (Perm.symm (held-set_freed r.slots _ _ (slot_index-lt r r.read_index v) full refl))

      freed : IsSlot (record (next k r) { ready = false })
      freed = let w : IsSlot (next k r) = v.slots_ok _ in record { sized = w.sized; fits = w.fits }

      kept : IsRing (popped k r)
      kept = record {
        size = length-set r.slots _ _ ∙ v.size;
        slots_ok = set-IsSlot r _ _ v.slots_ok freed (slot_index-lt r r.read_index v);
      }

  -- On any ring with slots of the right shape, also after rejected pushes, and any sequence of
  -- calls whose pushes pass as many bytes as they say: what was delivered together with what still
  -- waits in slots is, up to order, what waited before together with what was accepted.
  pub run_conserve :
      (calls : List Call) (r : MpscRingBuffer) (out : PoppedRecord)
      → IsRing r
      → Samples calls
      → let replies = run k r out calls in
        Perm
          (delivered replies ++ held (after k r out calls).slots)
          (accepted calls replies ++ held r.slots)
  unfolding run after
  run_conserve [] r out v f = Perm.refl _
  run_conserve (push s ∷ calls) r out v f =
      let (v', p) = push_conserve r s v f.0 in
      after_push (try_push k r s).1 (item_of_sample s) _ _ _ _ p
        (run_conserve calls (try_push k r s).0 out v' f.1)
  run_conserve (pop ∷ calls) r out v f =
      let (v', p) = pop_conserve r out v in
      after_pop (try_pop k r out).2 (item_of_record (try_pop k r out).1) _ _ _ _ _ p
        (run_conserve calls (try_pop k r out).0 (try_pop k r out).1 v' f)
