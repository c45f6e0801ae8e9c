-- ===== src/Ring/Steps.antt =====
-- One equation for each branch of `TryPush` and `TryPop`, and what a slot holds before and after.
use tri_drishti_chrono_cap.Common.{
  ℕ, ◌≤◌, ◌<◌, ◌≡◌, sym, ap, ◌∙◌, arith, subst, ltb_of_lt, ltb_of_le, true, false, none, some, List,
  length, take, drop, get_or, set, length-take, length-drop, length-append, get_or-set_self,
  get_or-set_ne, take-append, ℕ_discrete,
}
use tri_drishti_chrono_cap.Wire.Memory.{memcpy}
use tri_drishti_chrono_cap.Ring.{
  Slot, Sample, PoppedRecord, MpscRingBuffer, empty_slot, slot_at, slot_index, increment, fill_slot,
  read_slot, try_push, try_pop,
}
use tri_drishti_chrono_cap.Ring.Queue.{
  Item, item_of_sample, item_of_record, item_of_slot, waiting, IsSample,
}

-- A slot's array has its 64 bytes and the length stays inside it.
pub record IsSlot (s : Slot) : Type 0 where
  pub sized : length s.payload ≡ 64
  pub fits : s.payload_len ≤ 64

-- The bytes of a copy, and its length.
pub take-memcpy :
    (out src : List ℕ) (n : ℕ) → n ≤ length src → take n (memcpy out src n) ≡ take n src
take-memcpy out src n h = take-append n (take n src) (drop n out) (omega (arith, length-take n src))

pub length-memcpy :
    (out src : List ℕ) (n : ℕ)
    → n ≤ length src
    → n ≤ length out
    → length (memcpy out src n) ≡ length out
length-memcpy out src n h g =
    length-append (take n src) (drop n out) ∙ omega (arith, length-take n src, length-drop n out)

pub fill_slot-IsSlot :
    (slot : Slot) (s : Sample) → IsSlot slot → IsSample s → s.len ≤ 64 → IsSlot (fill_slot slot s)
unfolding fill_slot
fill_slot-IsSlot slot s v h small = record {
  sized = length-memcpy slot.payload s.bytes s.len h (omega arith) ∙ v.sized;
  fits = small;
}

pub waiting-fill_slot :
    (slot : Slot) (s : Sample) → IsSample s → waiting (fill_slot slot s) ≡ some (item_of_sample s)
unfolding fill_slot
waiting-fill_slot slot s h =
    ap (λ (b : List ℕ). some (record (item_of_sample s) { bytes = b }))
      (take-memcpy slot.payload s.bytes s.len h)

pub ready_of_waiting : (s : Slot) {x : Item} → waiting s ≡ some x → s.ready ≡ true
ready_of_waiting s e = ground arith

pub item_of_waiting : (s : Slot) {x : Item} → waiting s ≡ some x → item_of_slot s ≡ x
item_of_waiting s e = ground arith

pub free_of_waiting : (s : Slot) → waiting s ≡ none → s.ready ≡ false
free_of_waiting s e = ground arith

-- Storing a slot changes the slots at that index only.
pub set-IsSlot :
    (r : MpscRingBuffer) (i : ℕ) (v : Slot)
    → ((j : ℕ) → IsSlot (slot_at r j))
    → IsSlot v
    → i < length r.slots
    → (j : ℕ) → IsSlot (get_or (set r.slots i v) j empty_slot)
set-IsSlot r i v all ok h j = elim (ℕ_discrete i j) [
  | yes e ↦
      subst (λ x. IsSlot (get_or (set r.slots i v) x empty_slot)) e
        (subst (λ s. IsSlot s) (sym (get_or-set_self r.slots i v empty_slot h)) ok)
  | no ne ↦ subst (λ s. IsSlot s) (sym (get_or-set_ne r.slots i j v empty_slot ne)) (all j)
]

-- The ring after a push that was rejected for want of room.
abbrev pub rejected : MpscRingBuffer → MpscRingBuffer
rejected r = record r {
  write_index = increment r.write_index;
  dropped_count = increment r.dropped_count;
}

module _ (k : ℕ) where
  -- The slot that `TryPush` claims and the one that `TryPop` looks at.
  abbrev pub claimed : MpscRingBuffer → Slot
  claimed r = slot_at r (slot_index k r.write_index)

  abbrev pub next : MpscRingBuffer → Slot
  next r = slot_at r (slot_index k r.read_index)

  -- The ring after a push that was stored, and after a pop.
  abbrev pub stored : MpscRingBuffer → Sample → MpscRingBuffer
  stored r s = record r {
    slots = set r.slots (slot_index k r.write_index) (fill_slot (claimed r) s);
    write_index = increment r.write_index;
  }

  abbrev pub popped : MpscRingBuffer → MpscRingBuffer
  popped r = record r {
    slots = set r.slots (slot_index k r.read_index) (record (next r) { ready = false });
    read_index = increment r.read_index;
  }

  pub try_push-too_large :
      (r : MpscRingBuffer) (s : Sample) → 64 < s.len → try_push k r s ≡ (r, false)
  unfolding try_push
  try_push-too_large r s h = rw (ltb_of_lt h)

  pub try_push-full :
      (r : MpscRingBuffer) (s : Sample)
      → s.len ≤ 64
      → (claimed r).ready ≡ true
      → try_push k r s ≡ (rejected r, false)
  unfolding try_push
  try_push-full r s h e = rw (ltb_of_le h, e)

  pub try_push-free :
      (r : MpscRingBuffer) (s : Sample)
      → s.len ≤ 64
      → (claimed r).ready ≡ false
      → try_push k r s ≡ (stored r s, true)
  unfolding try_push
  try_push-free r s h e = rw (ltb_of_le h, e)

  pub try_pop-none :
      (r : MpscRingBuffer) (out : PoppedRecord)
      → (next r).ready ≡ false
      → try_pop k r out ≡ (r, out, false)
  unfolding try_pop
  try_pop-none r out e = rw e

  pub try_pop-some :
      (r : MpscRingBuffer) (out : PoppedRecord)
      → (next r).ready ≡ true
      → try_pop k r out ≡ (popped r, read_slot (next r) out, true)
  unfolding try_pop
  try_pop-some r out e = rw e

-- What is read from a slot is its record, whatever `out` held before.
pub item-read_slot :
    (slot : Slot) (out : PoppedRecord)
    → IsSlot slot
    → item_of_record (read_slot slot out) ≡ item_of_slot slot
item-read_slot slot out v =
    ap (λ (b : List ℕ). record (item_of_slot slot) { bytes = b })
      (take-memcpy out.payload slot.payload slot.payload_len (omega arith))
