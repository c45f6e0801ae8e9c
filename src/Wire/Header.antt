-- ===== src/Wire/Header.antt =====
-- include/chrono_cap/wire_format.hpp, lines 74 to 223: the constants and the four structures that
-- go to disk. `char name[32]` is a list of 32 bytes.
pub mod Layout
pub mod Names
pub mod RoundTrip
pub mod Range
use tri_drishti_chrono_cap.Common.{
  ℕ, ◌+◌, ◌-◌, Bool, ltb, if◌then◌else◌, Option, none, some, List, [], ◌∷◌, take, drop, replicate,
}
use tri_drishti_chrono_cap.Wire.Endian.{
  encode_u16, decode_u16, encode_u32, decode_u32, encode_u64, decode_u64,
}
use tri_drishti_chrono_cap.Wire.Memory.{at, memcpy, zero_fill, starts_with, strlen}

-- "I2WLOG\0\0"
abbrev pub magic : List ℕ
magic = b'I' ∷ b'2' ∷ b'W' ∷ b'L' ∷ b'O' ∷ b'G' ∷ 0 ∷ 0 ∷ []

abbrev pub format_version : ℕ
format_version = 1

abbrev pub file_header_wire_size : ℕ
file_header_wire_size = 8 + 4 + 4 + 8 + 8

abbrev pub topic_meta_wire_size : ℕ
topic_meta_wire_size = 2 + 4 + 32

abbrev pub record_header_wire_size : ℕ
record_header_wire_size = 2 + 8 + 8

abbrev pub index_entry_wire_size : ℕ
index_entry_wire_size = 8 + 8 + 2

abbrev pub max_payload_bytes : ℕ
max_payload_bytes = 64

pub record FileHeader : Type 0 where
  pub version : ℕ
  pub topic_count : ℕ
  pub created_at_ns : ℕ

pub record TopicMetaEntry : Type 0 where
  pub topic_id : ℕ
  pub struct_size : ℕ
  pub name : List ℕ

pub record RecordHeader : Type 0 where
  pub topic_id : ℕ
  pub stamp_ns : ℕ
  pub seq : ℕ

pub record IndexEntry : Type 0 where
  pub stamp_ns : ℕ
  pub byte_offset : ℕ
  pub topic_id : ℕ

-- `FileHeader::Serialize` and `Deserialize`; `none` is the result false.
unfoldable pub serialize_file_header : FileHeader → List ℕ → List ℕ
serialize_file_header h out =
    let out1 = memcpy out magic 8 in
    let out2 = at 8 (λ p. encode_u32 p h.version) out1 in
    let out3 = at 12 (λ p. encode_u32 p h.topic_count) out2 in
    let out4 = at 16 (λ p. encode_u64 p h.created_at_ns) out3 in at 24 (λ p. zero_fill p 8) out4

unfoldable pub deserialize_file_header : List ℕ → Option FileHeader
deserialize_file_header inp =
    if starts_with inp magic
    then some (record {
      version = decode_u32 (drop 8 inp);
      topic_count = decode_u32 (drop 12 inp);
      created_at_ns = decode_u64 (drop 16 inp);
    })
    else none

-- `TopicMetaEntry::Serialize`; `none` is the read past `name` where it holds no NUL.
unfoldable pub serialize_topic_meta : TopicMetaEntry → List ℕ → Option (List ℕ)
serialize_topic_meta e out =
    let out1 = encode_u16 out e.topic_id in
    let out2 = at 2 (λ p. encode_u32 p e.struct_size) out1 in
    let out3 = at 6 (λ p. zero_fill p 32) out2 in
    elim (strlen e.name) [
      | none ↦ none
      | some len ↦ some (at 6 (λ p. memcpy p e.name (if ltb len 32 then len else 31)) out3)
    ]

unfoldable pub deserialize_topic_meta : List ℕ → TopicMetaEntry
deserialize_topic_meta inp = record {
  topic_id = decode_u16 inp;
  struct_size = decode_u32 (drop 2 inp);
  name = memcpy (zero_fill (replicate 32 0) 32) (drop 6 inp) 32;
}

unfoldable pub serialize_record_header : RecordHeader → List ℕ → List ℕ
serialize_record_header h out =
    let out1 = encode_u16 out h.topic_id in
    let out2 = at 2 (λ p. encode_u64 p h.stamp_ns) out1 in at 10 (λ p. encode_u64 p h.seq) out2

unfoldable pub deserialize_record_header : List ℕ → RecordHeader
deserialize_record_header inp = record {
  topic_id = decode_u16 inp;
  stamp_ns = decode_u64 (drop 2 inp);
  seq = decode_u64 (drop 10 inp);
}

unfoldable pub serialize_index_entry : IndexEntry → List ℕ → List ℕ
serialize_index_entry e out =
    let out1 = encode_u64 out e.stamp_ns in
    let out2 = at 8 (λ p. encode_u64 p e.byte_offset) out1 in
    at 16 (λ p. encode_u16 p e.topic_id) out2

unfoldable pub deserialize_index_entry : List ℕ → IndexEntry
deserialize_index_entry inp = record {
  stamp_ns = decode_u64 inp;
  byte_offset = decode_u64 (drop 8 inp);
  topic_id = decode_u16 (drop 16 inp);
}
