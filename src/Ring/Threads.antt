-- ===== src/Ring/Threads.antt =====
-- include/chrono_cap/mpsc_ring_buffer.hpp, the calls split at their accesses to shared memory: any
-- number of producers inside `TryPush`, one consumer inside `TryPop`, interleaved in any order. Atomics
-- are sequentially consistent. The plain stores into a slot are one step, the count of a drop goes with
-- the test before it, and the consumer's own read index with the release before it.
pub mod Inv
pub mod Frame
pub mod Store
pub mod Publish
pub mod Consumer
pub mod Enter
pub mod Run
pub mod Alone
pub mod Safety
pub mod Stalled
use tri_drishti_chrono_cap.Common.{
  ℕ, ◌+◌, ◌^◌, ◌<◌, ltb, ◌==◌, if◌then◌else◌, Bool, true, false, Option, none, some, List, [], ◌∷◌,
  ◌++◌, set,
}
use tri_drishti_chrono_cap.Wire.Header.{max_payload_bytes}
use tri_drishti_chrono_cap.Wire.Memory.{memcpy}
use tri_drishti_chrono_cap.Ring.{
  PoppedRecord, Slot, Sample, MpscRingBuffer, increment, slot_at, slot_index, read_slot,
}
use tri_drishti_chrono_cap.Ring.Queue.{Item, item_of_sample, item_of_record, IsSample}

-- Where a producer stands: outside, or behind `fetch_add`, the test, the stores.
pub data Stage : Type 0 where
  idle : Stage
  claimed : Stage
  tested : Stage
  stored : Stage

-- A producer's local `idx` and its arguments.
pub record Producer : Type 0 where
  pub stage : Stage
  pub idx : ℕ
  pub sample : Sample

-- Where the consumer stands: before the test, the copy, the release.
pub data Phase : Type 0 where
  polling : Phase
  copying : Phase
  releasing : Phase

-- Producers are numbered, and `out` is the consumer's.
pub record System : Type 0 where
  pub ring : MpscRingBuffer
  pub producers : ℕ → Producer
  pub phase : Phase
  pub out : PoppedRecord

-- A producer enters `TryPush`, a producer goes on, the consumer goes on.
pub data Action : Type 0 where
  enter : ℕ → Sample → Action
  advance : ℕ → Action
  consume : Action

abbrev pub update {ℓ} : {A : Type ℓ} → (ℕ → A) → ℕ → A → ℕ → A
update f i a j = if j == i then a else f j

-- The plain stores of `TryPush`; the flag stays.
abbrev pub store_fields : Slot → Sample → Slot
store_fields slot x = record slot {
  topic_id = x.topic_id;
  stamp_ns = x.stamp_ns;
  seq = x.seq;
  payload_len = x.len;
  payload = memcpy slot.payload x.bytes x.len;
}

abbrev pub set_ready : Bool → Slot → Slot
set_ready b slot = record slot { ready = b }

-- A producer that leaves, or goes on to a stage.
abbrev pub to_stage : System → ℕ → Stage → ℕ → Producer
to_stage s i stage = update s.producers i (record (s.producers i) { stage = stage })

module _ (k : ℕ) where
  -- The slot of an index.
  abbrev pub cell : MpscRingBuffer → ℕ → Slot
  cell r idx = slot_at r (slot_index k idx)

  abbrev pub set_cell : MpscRingBuffer → ℕ → Slot → MpscRingBuffer
  set_cell r idx v = record r { slots = set r.slots (slot_index k idx) v }

  -- The length check and `fetch_add`. A producer that is inside cannot enter.
  unfoldable pub enter_push : System → ℕ → Sample → Stage → System
  enter_push s i x idle = if ltb max_payload_bytes x.len then s else record s {
    ring = record s.ring { write_index = increment s.ring.write_index };
    producers =
        update s.producers i (record { stage = claimed; idx = s.ring.write_index; sample = x });
  }
  enter_push s i x _ = s

  -- The test with the drop, the stores, the publication.
  unfoldable pub advance_push : System → ℕ → Stage → System
  advance_push s i idle = s
  advance_push s i claimed =
      if (cell s.ring (s.producers i).idx).ready
      then record s {
        ring = record s.ring { dropped_count = increment s.ring.dropped_count };
        producers = to_stage s i idle;
      }
      else record s { producers = to_stage s i tested }
  advance_push s i tested =
      let p = s.producers i in
      record s {
        ring = set_cell s.ring p.idx (store_fields (cell s.ring p.idx) p.sample);
        producers = to_stage s i stored;
      }
  advance_push s i stored =
      let p = s.producers i in
      record s {
        ring = set_cell s.ring p.idx (set_ready true (cell s.ring p.idx));
        producers = to_stage s i idle;
      }

  unfoldable pub advance_pop : System → Phase → System
  advance_pop s polling =
      if (cell s.ring s.ring.read_index).ready then record s { phase = copying } else s
  advance_pop s copying = record s {
    out = read_slot (cell s.ring s.ring.read_index) s.out;
    phase = releasing;
  }
  advance_pop s releasing =
      let r = s.ring in
      record s {
        ring = record (set_cell r r.read_index (set_ready false (cell r r.read_index))) {
          read_index = increment r.read_index;
        };
        phase = polling;
      }

  unfoldable pub act : System → Action → System
  act s (enter i x) = enter_push s i x (s.producers i).stage
  act s (advance i) = advance_push s i (s.producers i).stage
  act s consume = advance_pop s s.phase

  unfoldable pub act_all : System → List Action → System
  act_all s [] = s
  act_all s (a ∷ actions) = act_all (act s a) actions

  -- The record that an action claims an index for, and the one that it hands to the consumer's caller.
  abbrev pub claim_of : Sample → Stage → List Item
  claim_of x idle = if ltb max_payload_bytes x.len then [] else item_of_sample x ∷ []
  claim_of x _ = []

  abbrev pub claim : System → Action → List Item
  claim s (enter i x) = claim_of x (s.producers i).stage
  claim s _ = []

  abbrev pub delivery_of : System → Phase → List Item
  delivery_of s releasing = item_of_record s.out ∷ []
  delivery_of s _ = []

  abbrev pub delivery : System → Action → List Item
  delivery s consume = delivery_of s s.phase
  delivery s _ = []

  unfoldable pub claims : System → List Action → List Item
  claims s [] = []
  claims s (a ∷ actions) = claim s a ++ claims (act s a) actions

  unfoldable pub deliveries : System → List Action → List Item
  deliveries s [] = []
  deliveries s (a ∷ actions) = delivery s a ++ deliveries (act s a) actions

  -- Whoever enters passes as many bytes as it says, finds fewer than `2 ^ k` claims ahead of the
  -- consumer, and makes a claim that is not the last below `2 ^ 64`.
  abbrev pub HasRoom : System → Action → Type 0
  HasRoom s (enter i x) =
      IsSample x
      × (s.ring.write_index < s.ring.read_index + 2 ^ k)
      × (s.ring.write_index + 1 < 2 ^ 64)
  HasRoom s _ = Unit

  abbrev pub Spaced : System → List Action → Type 0
  Spaced s [] = Unit
  Spaced s (a ∷ actions) = HasRoom s a × Spaced (act s a) actions
