-- ===== src/Wire/Header/RoundTrip.antt =====
-- Each structure is read back from the bytes that its `Serialize` wrote, whatever follows them and
-- whatever stood in the buffer; a header is refused exactly where its first eight bytes differ.
use tri_drishti_chrono_cap.Common.{
  ℕ, ◌≤◌, ◌<◌, drop, ◌≡◌, ◌↔◌, ap, ◌∙◌, arith, none, some, List, [], ◌++◌, length, take,
  take-append, replicate, false, append-nil,
}
use tri_drishti_chrono_cap.Wire.Endian.Bytes.{IsU16, IsU32, IsU64, le_bytes}
use tri_drishti_chrono_cap.Wire.Endian.Laws.{
  decode_u16-le_bytes, decode_u32-le_bytes, decode_u64-le_bytes,
}
use tri_drishti_chrono_cap.Wire.Memory.{starts_with}
use tri_drishti_chrono_cap.Wire.Header.{
  magic, FileHeader, TopicMetaEntry, RecordHeader, IndexEntry, deserialize_file_header,
  deserialize_topic_meta, deserialize_record_header, deserialize_index_entry, serialize_file_header,
  serialize_topic_meta, serialize_record_header, serialize_index_entry,
}
use tri_drishti_chrono_cap.Wire.Header.Layout.{
  file_header_bytes, topic_meta_bytes, record_header_bytes, index_entry_bytes,
  serialize_file_header_lem, serialize_record_header_lem, serialize_index_entry_lem,
}
use tri_drishti_chrono_cap.Wire.Header.Names.{
  HasNoNul, padded, length-padded, c_str-padded, serialize_topic_meta_lem,
}
use tri_drishti_chrono_cap.Wire.Memory.{c_str}
use mathlib.Core.Option

-- The fields fit their C types.
pub record FitsFileHeader (h : FileHeader) : Type 0 where
  pub version : IsU32 h.version
  pub topic_count : IsU32 h.topic_count
  pub created_at_ns : IsU64 h.created_at_ns

pub record FitsRecordHeader (h : RecordHeader) : Type 0 where
  pub topic_id : IsU16 h.topic_id
  pub stamp_ns : IsU64 h.stamp_ns
  pub seq : IsU64 h.seq

pub record FitsIndexEntry (e : IndexEntry) : Type 0 where
  pub stamp_ns : IsU64 e.stamp_ns
  pub byte_offset : IsU64 e.byte_offset
  pub topic_id : IsU16 e.topic_id

pub record FitsTopicMeta (e : TopicMetaEntry) : Type 0 where
  pub topic_id : IsU16 e.topic_id
  pub struct_size : IsU32 e.struct_size
  pub name : length e.name ≡ 32

pub file_header_roundtrip :
    (h : FileHeader) (rest : List ℕ)
    → FitsFileHeader h
    → deserialize_file_header (file_header_bytes h ++ rest) ≡ some h
unfolding deserialize_file_header starts_with
file_header_roundtrip h rest f = ap some (λ i. record {
  version =
      decode_u32-le_bytes h.version
        (le_bytes 4 h.topic_count ++ (le_bytes 8 h.created_at_ns ++ (replicate 8 0 ++ rest)))
        f.version i;
  topic_count =
      decode_u32-le_bytes h.topic_count (le_bytes 8 h.created_at_ns ++ (replicate 8 0 ++ rest))
        f.topic_count i;
  created_at_ns = decode_u64-le_bytes h.created_at_ns (replicate 8 0 ++ rest) f.created_at_ns i;
})

pub record_header_roundtrip :
    (h : RecordHeader) (rest : List ℕ)
    → FitsRecordHeader h
    → deserialize_record_header (record_header_bytes h ++ rest) ≡ h
unfolding deserialize_record_header
record_header_roundtrip h rest f = λ i. record {
  topic_id =
      decode_u16-le_bytes h.topic_id (le_bytes 8 h.stamp_ns ++ (le_bytes 8 h.seq ++ rest))
        f.topic_id i;
  stamp_ns = decode_u64-le_bytes h.stamp_ns (le_bytes 8 h.seq ++ rest) f.stamp_ns i;
  seq = decode_u64-le_bytes h.seq rest f.seq i;
}

pub index_entry_roundtrip :
    (e : IndexEntry) (rest : List ℕ)
    → FitsIndexEntry e
    → deserialize_index_entry (index_entry_bytes e ++ rest) ≡ e
unfolding deserialize_index_entry
index_entry_roundtrip e rest f = λ i. record {
  stamp_ns =
      decode_u64-le_bytes e.stamp_ns (le_bytes 8 e.byte_offset ++ (le_bytes 2 e.topic_id ++ rest))
        f.stamp_ns i;
  byte_offset = decode_u64-le_bytes e.byte_offset (le_bytes 2 e.topic_id ++ rest) f.byte_offset i;
  topic_id = decode_u16-le_bytes e.topic_id rest f.topic_id i;
}

pub topic_meta_roundtrip :
    (e : TopicMetaEntry) (rest : List ℕ)
    → FitsTopicMeta e
    → deserialize_topic_meta (topic_meta_bytes e ++ rest) ≡ e
unfolding deserialize_topic_meta
topic_meta_roundtrip e rest f = λ i. record {
  topic_id =
      decode_u16-le_bytes e.topic_id (le_bytes 4 e.struct_size ++ (e.name ++ rest)) f.topic_id i;
  struct_size = decode_u32-le_bytes e.struct_size (e.name ++ rest) f.struct_size i;
  name = name_back i;
}
  where
    name_back : take 32 (e.name ++ rest) ++ [] ≡ e.name
    name_back = append-nil _ ∙ take-append 32 e.name rest f.name

-- The magic check: a header is read exactly where the bytes begin with the magic.
pub deserialize_file_header-none :
    (inp : List ℕ) → (deserialize_file_header inp ≡ none) ↔ (starts_with inp magic ≡ false)
unfolding deserialize_file_header
deserialize_file_header-none inp = ground arith

-- A file header whose fields fit their C types, written by `Serialize` over any buffer of 32 bytes
-- or more, is read back.
pub file_header_read_back :
    (h : FileHeader) (out : List ℕ)
    → FitsFileHeader h
    → 32 ≤ length out
    → deserialize_file_header (serialize_file_header h out) ≡ some h
file_header_read_back h out f room =
    rw (serialize_file_header_lem h out room) (file_header_roundtrip h (drop 32 out) f)

-- A record header and an index entry whose fields fit their C types, written by `Serialize` over
-- any buffer of 18 bytes or more, are read back.
pub entries_read_back :
    (h : RecordHeader) (e : IndexEntry) (out : List ℕ)
    → FitsRecordHeader h
    → FitsIndexEntry e
    → 18 ≤ length out
    → (deserialize_record_header (serialize_record_header h out) ≡ h)
      × (deserialize_index_entry (serialize_index_entry e out) ≡ e)
entries_read_back h e out f g room = (
  rw (serialize_record_header_lem h out room) (record_header_roundtrip h (drop 18 out) f),
  rw (serialize_index_entry_lem e out room) (index_entry_roundtrip e (drop 18 out) g),
)

-- A metadata entry whose numbers fit their C types and whose name has at most 31 characters, none
-- of them NUL, is written without a read past the name, over any buffer of 38 bytes or more, and
-- is read back with its name.
pub topic_meta_read_back :
    (id size : ℕ) (chars out : List ℕ)
    → IsU16 id
    → IsU32 size
    → HasNoNul chars
    → length chars < 32
    → 38 ≤ length out
    → let e : TopicMetaEntry = record { topic_id = id; struct_size = size; name = padded chars } in
      (Option.map deserialize_topic_meta (serialize_topic_meta e out) ≡ some e)
      × (c_str e.name ≡ chars)
topic_meta_read_back id size chars out hi hs h short room = (
  rw (serialize_topic_meta_lem id size chars out h short room) (
      ap some (
        topic_meta_roundtrip _ (drop 38 out)
          (record { topic_id = hi; struct_size = hs; name = length-padded chars (omega arith) }))),
  c_str-padded chars h short,
)
