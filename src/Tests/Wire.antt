-- ===== src/Tests/Wire.antt =====
-- Witnesses for the wire format and the payload codec.
use tri_drishti_chrono_cap.Common.{ℕ, arith, ◌≡◌, some, List, [], ◌∷◌, replicate}
use tri_drishti_chrono_cap.Wire.Endian.{
  encode_u16, decode_u16, encode_u32, decode_u32, encode_u64, decode_u64,
}
use tri_drishti_chrono_cap.Wire.Endian.Laws.{decode-encode}
use tri_drishti_chrono_cap.Wire.Memory.{c_str}
use tri_drishti_chrono_cap.Wire.Header.{
  FileHeader, TopicMetaEntry, RecordHeader, IndexEntry, serialize_topic_meta,
  deserialize_topic_meta,
}
use tri_drishti_chrono_cap.Wire.Header.Names.{padded}
use tri_drishti_chrono_cap.Wire.Header.RoundTrip.{topic_meta_read_back}
use tri_drishti_chrono_cap.Payload.{encode_joy, decode_joy}
use tri_drishti_chrono_cap.Payload.RoundTrip.{joy_read_back}
use tri_drishti_chrono_cap.Tests.Data.{pressed, bare_joy}
use mathlib.Core.Option

abbrev buffer : List ℕ
buffer = replicate 64 255

decode-encode_example :
    (decode_u16 (encode_u16 buffer 513) ≡ 513)
    × (decode_u32 (encode_u32 buffer 70000) ≡ 70000)
    × (decode_u64 (encode_u64 buffer 5000000000) ≡ 5000000000)
decode-encode_example =
    decode-encode buffer 513 70000 5000000000 (omega arith) (omega arith) (omega arith)
      (omega arith)

abbrev stamp_bytes : List ℕ
stamp_bytes = 1 ∷ 2 ∷ 3 ∷ 4 ∷ 5 ∷ 6 ∷ 7 ∷ 255 ∷ []

abbrev header : FileHeader
header = record { version = 1; topic_count = 3; created_at_ns = 5000000000 }

abbrev record_header : RecordHeader
record_header = record { topic_id = 1; stamp_ns = 5000000000; seq = 300 }

abbrev index_entry : IndexEntry
index_entry = record { stamp_ns = 5000000000; byte_offset = 70; topic_id = 1 }

abbrev joy_name : List ℕ
joy_name = b'j' ∷ b'o' ∷ b'y' ∷ []

abbrev joy_entry : TopicMetaEntry
joy_entry = record { topic_id = 1; struct_size = 22; name = padded joy_name }

topic_meta_read_back_example :
    (Option.map deserialize_topic_meta (serialize_topic_meta joy_entry buffer) ≡ some joy_entry)
    × (c_str joy_entry.name ≡ joy_name)
topic_meta_read_back_example =
    topic_meta_read_back 1 22 joy_name buffer (omega arith) (omega arith)
      (omega arith, (omega arith, (omega arith, tt))) (omega arith) (omega arith)

joy_read_back_example : decode_joy bare_joy (encode_joy bare_joy pressed buffer) pressed ≡ pressed
joy_read_back_example =
    joy_read_back bare_joy pressed pressed buffer
      (record { timestamp = omega arith; axis0 = omega arith; axis2 = omega arith }) (omega arith)
