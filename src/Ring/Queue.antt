-- ===== src/Ring/Queue.antt =====
-- What the ring promises while no push has been rejected for want of room: a first-in first-out
-- queue of at most `capacity` records.
use tri_drishti_chrono_cap.Common.{ℕ, ◌≤◌, if◌then◌else◌, Option, none, some, List, length, take}
use tri_drishti_chrono_cap.Ring.{Slot, Sample, PoppedRecord}

-- A record as producer and consumer mean it: its header fields and exactly its payload bytes.
pub record Item : Type 0 where
  pub topic_id : ℕ
  pub stamp_ns : ℕ
  pub seq : ℕ
  pub bytes : List ℕ

abbrev pub item_of_sample : Sample → Item
item_of_sample s = record {
  topic_id = s.topic_id;
  stamp_ns = s.stamp_ns;
  seq = s.seq;
  bytes = take s.len s.bytes;
}

abbrev pub item_of_record : PoppedRecord → Item
item_of_record p = record {
  topic_id = p.topic_id;
  stamp_ns = p.stamp_ns;
  seq = p.seq;
  bytes = take p.payload_len p.payload;
}

abbrev pub item_of_slot : Slot → Item
item_of_slot s = record {
  topic_id = s.topic_id;
  stamp_ns = s.stamp_ns;
  seq = s.seq;
  bytes = take s.payload_len s.payload;
}

-- The record that waits in a slot, if one does.
abbrev pub waiting : Slot → Option Item
waiting s = if s.ready then some (item_of_slot s) else none

-- `data` points to `len` bytes at least, as `TryPush` asks of its caller.
abbrev pub IsSample : Sample → Type 0
IsSample s = s.len ≤ length s.bytes
