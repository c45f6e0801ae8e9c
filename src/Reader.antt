-- ===== src/Reader.antt =====
-- include/chrono_cap/record_reader.hpp and src/core/record_reader.cpp: the reader that maps a .bin
-- file, checks its header and table, and walks its records. The mapped memory is the list of the
-- file's bytes, and `file_size_` its length, as after an `Open` that mapped a file; Reader.Handles has
-- what becomes of the two members when a later `Open` fails. Offsets are below 2 ^ 64, so their sums do not wrap.

pub mod Clock
pub mod Handles
pub mod Timed
pub mod Open
pub mod Total
pub mod Table
pub mod Delivered
pub mod Bounds
pub mod Playback
pub mod Prefix
pub mod Parse
use tri_drishti_chrono_cap.Common.{
  ℕ, zero, suc, ◌+◌, ◌-◌, ◌%◌, ◌^◌, ltb, leb, ◌==◌, if◌then◌else◌, Bool, true, false, not, Option,
  none, some, List, [], ◌∷◌, ◌++◌, length, take, drop,
}
use tri_drishti_chrono_cap.Wire.Memory.{strlen, c_str}
use tri_drishti_chrono_cap.Wire.Header.{
  FileHeader, TopicMetaEntry, RecordHeader, format_version, file_header_wire_size,
  topic_meta_wire_size, record_header_wire_size, deserialize_file_header, deserialize_topic_meta,
  deserialize_record_header,
}

pub record ResolvedTopic : Type 0 where
  pub topic_id : ℕ
  pub wire_size : ℕ
  pub name : List ℕ

-- `std::unordered_map<std::uint16_t, ResolvedTopic>`
abbrev pub TopicMap : Type 0
TopicMap = List (ℕ × ResolvedTopic)

unfoldable pub find : ℕ → TopicMap → Option ResolvedTopic
find id [] = none
find id ((j, t) ∷ m) = if j == id then some t else find id m

-- `by_id_[id] = t`
unfoldable pub assign : ℕ → ResolvedTopic → TopicMap → TopicMap
assign id t [] = (id, t) ∷ []
assign id t ((j, u) ∷ m) = if j == id then (id, t) ∷ m else (j, u) ∷ assign id t m

pub record RecordReader : Type 0 where
  pub base : List ℕ
  pub records_start_offset : ℕ
  pub topics : List ResolvedTopic
  pub by_id : TopicMap

abbrev pub file_size : RecordReader → ℕ
file_size r = length r.base

-- How `ParseHeaderAndMetadata` ends: true, false, or in a read past `entry.name`, which has no NUL.
pub data Parsed : Type 0 where
  parsed : RecordReader → Parsed
  refused : Parsed
  overrun : Parsed

abbrev pub resolve : TopicMetaEntry → ResolvedTopic
resolve e = record { topic_id = e.topic_id; wire_size = e.struct_size; name = c_str e.name }

abbrev pub add_topic : RecordReader → ResolvedTopic → RecordReader
add_topic r t = record r { topics = r.topics ++ (t ∷ []); by_id = assign t.topic_id t r.by_id }

-- The loop over the table: the first number is the entries left.
unfoldable pub parse_topics : ℕ → RecordReader → ℕ → Parsed
parse_topics zero r offset = parsed (record r { records_start_offset = offset })
parse_topics (suc n) r offset =
    let entry = deserialize_topic_meta (drop offset r.base) in
    let rest = parse_topics n (add_topic r (resolve entry)) (offset + topic_meta_wire_size) in
    if ltb (file_size r) (offset + topic_meta_wire_size)
    then refused
    else (elim (strlen entry.name) [ none ↦ overrun | some _ ↦ rest ])

unfoldable pub parse_header_and_metadata : RecordReader → Parsed
parse_header_and_metadata r =
    if ltb (file_size r) file_header_wire_size
    then refused
    else (elim (deserialize_file_header r.base) [
      | none ↦ refused
      | some header ↦
          if not (header.version == format_version)
          then refused
          else parse_topics header.topic_count r file_header_wire_size
    ])

-- One call of the callback, with the moment that the reader slept until (`none`: no sleep).
pub record Played : Type 0 where
  pub topic_id : ℕ
  pub stamp_ns : ℕ
  pub seq : ℕ
  pub payload : List ℕ
  pub len : ℕ
  pub target_ns : Option ℕ

-- The clamped offset from the first record, and the deadline for it.
abbrev pub elapsed_ns : ℕ → ℕ → ℕ
elapsed_ns t0 stamp = if leb t0 stamp then stamp - t0 else 0

abbrev pub target : ℕ → ℕ → ℕ → ℕ
target start t0 stamp = (start + elapsed_ns t0 stamp) % 2 ^ 64

-- `t0_ns` once a record has been seen.
abbrev pub first_stamp : Option ℕ → ℕ → ℕ
first_stamp none stamp = stamp
first_stamp (some t0) stamp = t0

abbrev pub and_then : Played → Option (List Played) → Option (List Played)
and_then p none = none
and_then p (some rest) = some (p ∷ rest)

module _ (r : RecordReader) where
  -- The loop of `Run`; `start` is what `MonotonicNowNs` gives at the first record. `none`: the fuel
  -- ran out.
  unfoldable pub run_loop : ℕ → ℕ → Option ℕ → ℕ → Option (List Played)
  run_loop zero start t0 offset = none
  run_loop (suc fuel) start t0 offset =
      let hdr = deserialize_record_header (drop offset r.base) in
      let payload_offset = offset + record_header_wire_size in
      let t0' = first_stamp t0 hdr.stamp_ns in
      if ltb (file_size r) (offset + record_header_wire_size)
      then some []
      else (elim (find hdr.topic_id r.by_id) [
        | none ↦ some []
        | some topic ↦
            let rest = run_loop fuel start (some t0') (payload_offset + topic.wire_size) in
            if ltb (file_size r) (payload_offset + topic.wire_size)
            then some []
            else and_then
                (record {
                  topic_id = hdr.topic_id;
                  stamp_ns = hdr.stamp_ns;
                  seq = hdr.seq;
                  payload = take topic.wire_size (drop payload_offset r.base);
                  len = topic.wire_size;
                  target_ns = some (target start t0' hdr.stamp_ns);
                })
                rest
      ])

  -- A record takes 18 bytes at least, so the file's length bounds the rounds.
  unfoldable pub run : ℕ → Option (List Played)
  run start = run_loop (suc (file_size r)) start none r.records_start_offset

  -- The loop of `Walk`. `t0` stays `none` without timing.
  unfoldable pub walk_loop : Bool → ℕ → ℕ → Option ℕ → ℕ → Option (List Played)
  walk_loop with_timing zero start t0 offset = none
  walk_loop with_timing (suc fuel) start t0 offset =
      let hdr = deserialize_record_header (drop offset r.base) in
      let payload_offset = offset + record_header_wire_size in
      let t0' = first_stamp t0 hdr.stamp_ns in
      if ltb (file_size r) (offset + record_header_wire_size)
      then some []
      else (elim (find hdr.topic_id r.by_id) [
        | none ↦ some []
        | some topic ↦
            let rest =
              walk_loop with_timing fuel start (if with_timing then some t0' else t0)
                (payload_offset + topic.wire_size) in
            if ltb (file_size r) (payload_offset + topic.wire_size)
            then some []
            else and_then
                (record {
                  topic_id = hdr.topic_id;
                  stamp_ns = hdr.stamp_ns;
                  seq = hdr.seq;
                  payload = take topic.wire_size (drop payload_offset r.base);
                  len = topic.wire_size;
                  target_ns = if with_timing then some (target start t0' hdr.stamp_ns) else none;
                })
                rest
      ])

  unfoldable pub walk : Bool → ℕ → Option (List Played)
  walk with_timing start =
      walk_loop with_timing (suc (file_size r)) start none r.records_start_offset
