-- ===== src/Ring.antt =====
-- include/chrono_cap/mpsc_ring_buffer.hpp: the bounded multi-producer ring buffer, each call as one
-- step. A payload array is a list of 64 bytes and a slot's atomic flag is a Bool; the capacity is
-- `2 ^ k`, the form that the class's static_assert asks for (`Ring.Capacity`).
pub mod Capacity
pub mod Queue
pub mod Steps
pub mod Fifo
pub mod Runs
pub mod Refine
pub mod Overflow
pub mod Conserve
pub mod Threads
use tri_drishti_chrono_cap.Common.{
  ℕ, ◌+◌, ◌-◌, ◌%◌, ◌^◌, bit_and, ltb, if◌then◌else◌, Bool, true, false, List, take, drop,
  replicate, get_or, set,
}
use tri_drishti_chrono_cap.Wire.Header.{max_payload_bytes}
use tri_drishti_chrono_cap.Wire.Memory.{memcpy}

pub record PoppedRecord : Type 0 where
  pub topic_id : ℕ
  pub stamp_ns : ℕ
  pub seq : ℕ
  pub payload_len : ℕ
  pub payload : List ℕ

pub record Slot : Type 0 where
  pub ready : Bool
  pub topic_id : ℕ
  pub stamp_ns : ℕ
  pub seq : ℕ
  pub payload_len : ℕ
  pub payload : List ℕ

pub record MpscRingBuffer : Type 0 where
  pub slots : List Slot
  pub write_index : ℕ
  pub read_index : ℕ
  pub dropped_count : ℕ

-- The default values of the fields.
abbrev pub empty_slot : Slot
empty_slot = record {
  ready = false;
  topic_id = 0;
  stamp_ns = 0;
  seq = 0;
  payload_len = 0;
  payload = replicate 64 0;
}

abbrev pub empty_record : PoppedRecord
empty_record = record {
  topic_id = 0;
  stamp_ns = 0;
  seq = 0;
  payload_len = 0;
  payload = replicate 64 0;
}

-- What a producer hands over: the arguments of `TryPush`, with `data` the bytes from the pointer on.
pub record Sample : Type 0 where
  pub topic_id : ℕ
  pub stamp_ns : ℕ
  pub seq : ℕ
  pub bytes : List ℕ
  pub len : ℕ

-- A 64-bit increment.
abbrev pub increment : ℕ → ℕ
increment n = (n + 1) % 2 ^ 64

-- `slots_[i]`, for an index below the capacity.
abbrev pub slot_at : MpscRingBuffer → ℕ → Slot
slot_at r i = get_or r.slots i empty_slot

-- The fields that `TryPush` stores before it publishes the slot.
unfoldable pub fill_slot : Slot → Sample → Slot
fill_slot slot s = record {
  ready = true;
  topic_id = s.topic_id;
  stamp_ns = s.stamp_ns;
  seq = s.seq;
  payload_len = s.len;
  payload = memcpy slot.payload s.bytes s.len;
}

-- The fields that `TryPop` copies into `out`.
abbrev pub read_slot : Slot → PoppedRecord → PoppedRecord
read_slot slot out = record {
  topic_id = slot.topic_id;
  stamp_ns = slot.stamp_ns;
  seq = slot.seq;
  payload_len = slot.payload_len;
  payload = memcpy out.payload slot.payload slot.payload_len;
}

module _ (k : ℕ) where
  unfoldable pub fresh : MpscRingBuffer
  fresh = record {
    slots = replicate (2 ^ k) empty_slot;
    write_index = 0;
    read_index = 0;
    dropped_count = 0;
  }

  -- `idx & (Capacity - 1)`
  abbrev pub slot_index : ℕ → ℕ
  slot_index idx = bit_and idx (2 ^ k - 1)

  unfoldable pub try_push : MpscRingBuffer → Sample → MpscRingBuffer × Bool
  try_push r s =
      let idx = r.write_index in
      let claimed = record r { write_index = increment idx } in
      let slot = slot_at claimed (slot_index idx) in
      if ltb max_payload_bytes s.len
      then (r, false)
      else (if slot.ready
          then (record claimed { dropped_count = increment r.dropped_count }, false)
          else (record claimed { slots = set r.slots (slot_index idx) (fill_slot slot s) }, true))

  -- `out` is filled in on success and else left as it was.
  unfoldable pub try_pop : MpscRingBuffer → PoppedRecord → MpscRingBuffer × PoppedRecord × Bool
  try_pop r out =
      let i = slot_index r.read_index in
      let slot = slot_at r i in
      if slot.ready
      then (
        record r {
          slots = set r.slots i (record slot { ready = false });
          read_index = increment r.read_index;
        },
        read_slot slot out,
        true,
      )
      else (r, out, false)
