-- ===== src/Wire/Header/Layout.antt =====
-- The bytes that each `Serialize` leaves in a buffer with room for them: all of its bytes are
-- written, whatever stood in the buffer, and what follows is kept.
use tri_drishti_chrono_cap.Common.{
  ℕ, ◌≤◌, ◌≡◌, arith, List, ◌++◌, length, drop, length-drop, drop-drop, replicate,
}
use tri_drishti_chrono_cap.Wire.Endian.Bytes.{le_bytes}
use tri_drishti_chrono_cap.Wire.Endian.Laws.{encode_u16_lem, encode_u32_lem, encode_u64_lem}
use tri_drishti_chrono_cap.Wire.Header.{
  magic, FileHeader, TopicMetaEntry, RecordHeader, IndexEntry, serialize_file_header,
  serialize_record_header, serialize_index_entry,
}

-- The 32 bytes of a file header, and the 18 of a record header and of an index entry.
abbrev pub file_header_bytes : FileHeader → List ℕ
file_header_bytes h =
    magic
    ++ (le_bytes 4 h.version
        ++ (le_bytes 4 h.topic_count ++ (le_bytes 8 h.created_at_ns ++ replicate 8 0)))

abbrev pub record_header_bytes : RecordHeader → List ℕ
record_header_bytes h = le_bytes 2 h.topic_id ++ (le_bytes 8 h.stamp_ns ++ le_bytes 8 h.seq)

abbrev pub index_entry_bytes : IndexEntry → List ℕ
index_entry_bytes e = le_bytes 8 e.stamp_ns ++ (le_bytes 8 e.byte_offset ++ le_bytes 2 e.topic_id)

abbrev pub topic_meta_bytes : TopicMetaEntry → List ℕ
topic_meta_bytes e = le_bytes 2 e.topic_id ++ (le_bytes 4 e.struct_size ++ e.name)

pub serialize_file_header_lem :
    (h : FileHeader) (out : List ℕ)
    → 32 ≤ length out
    → serialize_file_header h out ≡ file_header_bytes h ++ drop 32 out
unfolding serialize_file_header
serialize_file_header_lem h out room = rw (
  encode_u32_lem (drop 8 out) h.version (omega (arith, length-drop 8 out)),
  drop-drop 4 8 out,
  encode_u32_lem (drop 12 out) h.topic_count (omega (arith, length-drop 12 out)),
  drop-drop 4 12 out,
  encode_u64_lem (drop 16 out) h.created_at_ns (omega (arith, length-drop 16 out)),
  drop-drop 8 16 out,
  drop-drop 8 24 out,
)

pub serialize_record_header_lem :
    (h : RecordHeader) (out : List ℕ)
    → 18 ≤ length out
    → serialize_record_header h out ≡ record_header_bytes h ++ drop 18 out
unfolding serialize_record_header
serialize_record_header_lem h out room = rw (
  encode_u16_lem out h.topic_id (omega arith),
  encode_u64_lem (drop 2 out) h.stamp_ns (omega (arith, length-drop 2 out)),
  drop-drop,
  encode_u64_lem (drop 10 out) h.seq (omega (arith, length-drop 10 out)),
  drop-drop,
)

pub serialize_index_entry_lem :
    (e : IndexEntry) (out : List ℕ)
    → 18 ≤ length out
    → serialize_index_entry e out ≡ index_entry_bytes e ++ drop 18 out
unfolding serialize_index_entry
serialize_index_entry_lem e out room = rw (
  encode_u64_lem out e.stamp_ns (omega arith),
  encode_u64_lem (drop 8 out) e.byte_offset (omega (arith, length-drop 8 out)),
  drop-drop,
  encode_u16_lem (drop 16 out) e.topic_id (omega (arith, length-drop 16 out)),
  drop-drop,
)
