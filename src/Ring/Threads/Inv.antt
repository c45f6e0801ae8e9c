-- ===== src/Ring/Threads/Inv.antt =====
-- What holds at every step of producers and consumer: the claims in flight, the published slots and the
-- consumer's position agree with the log of all claims.
use tri_drishti_chrono_cap.Common.{
  ℕ, ◌+◌, ◌-◌, ◌%◌, ◌^◌, ◌≤◌, ◌<◌, ◌≡◌, ◌≢◌, ap, sym, ◌∙◌, arith, true, false, Option, none, some,
  List, length, get_elem?, get_or-set_self, get_or-set_ne,
}
use tri_drishti_chrono_cap.Common.Bits.{bit_and_mask}
use tri_drishti_chrono_cap.Common.Order.{add-mod-ne}
use tri_drishti_chrono_cap.Ring.{Slot, Sample, MpscRingBuffer, empty_slot, slot_at, slot_index}
use tri_drishti_chrono_cap.Ring.Queue.{Item, item_of_sample, item_of_record, item_of_slot, IsSample}
use tri_drishti_chrono_cap.Ring.Steps.{IsSlot}
use tri_drishti_chrono_cap.Ring.Threads.{
  Stage, idle, claimed, tested, stored, Producer, Phase, polling, copying, releasing, System, cell,
  set_cell,
}
use native.Mathlib.Nat.{mod-lt, one-le-pow}

-- The index that a producer has claimed and not given back.
abbrev pub index_of : Stage → ℕ → Option ℕ
index_of idle idx = none
index_of claimed idx = some idx
index_of tested idx = some idx
index_of stored idx = some idx

abbrev pub holding : Producer → Option ℕ
holding p = index_of p.stage p.idx

-- What a stage says of the claimed slot.
abbrev pub Stored : Stage → Slot → Sample → Type 0
Stored idle slot x = Unit
Stored claimed slot x = Unit
Stored tested slot x = Unit
Stored stored slot x = item_of_slot slot ≡ item_of_sample x

abbrev pub Copied : Phase → Slot → Item → Type 0
Copied polling slot x = Unit
Copied copying slot x = slot.ready ≡ true
Copied releasing slot x = (slot.ready ≡ true) × (x ≡ item_of_slot slot)

-- A claim in flight: the index, in terms of the log.
pub record IsClaim (log : List Item) (r w : ℕ) (slot : Slot) (x : Sample) (j : ℕ) : Type 0 where
  pub low : r ≤ j
  pub high : j < w
  pub free : slot.ready ≡ false
  pub logged : get_elem? log j ≡ some (item_of_sample x)
  pub enough : IsSample x
  pub small : x.len ≤ 64

module _ (k : ℕ) where
  pub record Inv (log : List Item) (s : System) : Type 0 where
    pub size : length s.ring.slots ≡ 2 ^ k
    pub behind : s.ring.read_index ≤ s.ring.write_index
    pub near : s.ring.write_index ≤ s.ring.read_index + 2 ^ k
    pub narrow : s.ring.write_index < 2 ^ 64
    pub recorded : length log ≡ s.ring.write_index
    pub slots_ok : (i : ℕ) → IsSlot (slot_at s.ring i)
    pub published :
        (j : ℕ)
        → s.ring.read_index ≤ j
        → j < s.ring.write_index
        → (cell k s.ring j).ready ≡ true
        → get_elem? log j ≡ some (item_of_slot (cell k s.ring j))
    pub unclaimed :
        (j : ℕ)
        → s.ring.write_index ≤ j
        → j < s.ring.read_index + 2 ^ k
        → (cell k s.ring j).ready ≡ false
    pub owned :
        (j : ℕ)
        → s.ring.read_index ≤ j
        → j < s.ring.write_index
        → (cell k s.ring j).ready ≡ false
        → (i : ℕ) × (holding (s.producers i) ≡ some j)
    pub claims_ok :
        (i j : ℕ)
        → holding (s.producers i) ≡ some j
        → IsClaim log s.ring.read_index s.ring.write_index
            (cell k s.ring j)
            (s.producers i).sample
            j
    pub fields_ok :
        (i : ℕ)
        → Stored (s.producers i).stage (cell k s.ring (s.producers i).idx) (s.producers i).sample
    pub unique :
        (i i' j : ℕ) → holding (s.producers i) ≡ some j → holding (s.producers i') ≡ some j → i ≡ i'
    pub copied : Copied s.phase (cell k s.ring s.ring.read_index) (item_of_record s.out)

  pub cell_index : (j : ℕ) → slot_index k j ≡ j % 2 ^ k
  cell_index j = bit_and_mask k j

  cell_index-lt : (j : ℕ) → slot_index k j < 2 ^ k
  cell_index-lt j = rw (cell_index j) (mod-lt j (one-le-pow k 2 (omega arith)))

  -- Indices of one round have slots of their own.
  pub cell_index-ne :
      (r j j' : ℕ)
      → r ≤ j
      → j < r + 2 ^ k
      → r ≤ j'
      → j' < r + 2 ^ k
      → j ≢ j'
      → slot_index k j ≢ slot_index k j'
  cell_index-ne r j j' lo hi lo' hi' ne e =
      add-mod-ne r (2 ^ k) (j - r) (j' - r) (omega arith) (omega arith) (omega arith) (
        ap (λ n. n % 2 ^ k) (omega arith)
        ∙ sym (cell_index j)
        ∙ e
        ∙ cell_index j'
        ∙ ap (λ n. n % 2 ^ k) (omega arith))

  pub cell-set_self :
      (m : MpscRingBuffer) (j : ℕ) (v : Slot)
      → length m.slots ≡ 2 ^ k
      → cell k (set_cell k m j v) j ≡ v
  cell-set_self m j v e = get_or-set_self m.slots _ v empty_slot (omega (arith, cell_index-lt j))

  pub cell-set_ne :
      (m : MpscRingBuffer) (r j j' : ℕ) (v : Slot)
      → r ≤ j
      → j < r + 2 ^ k
      → r ≤ j'
      → j' < r + 2 ^ k
      → j ≢ j'
      → cell k (set_cell k m j v) j' ≡ cell k m j'
  cell-set_ne m r j j' v lo hi lo' hi' ne =
      get_or-set_ne m.slots _ _ v empty_slot (cell_index-ne r j j' lo hi lo' hi' ne)

  pub cell-inside :
      (m : MpscRingBuffer) (j : ℕ) → length m.slots ≡ 2 ^ k → slot_index k j < length m.slots
  cell-inside m j e = omega (arith, cell_index-lt j)
