-- ===== src/Writer/Format.antt =====
-- The bytes of a .bin file, as a plain description: a header, a metadata entry for each topic, and
-- the records one behind the other.
use tri_drishti_chrono_cap.Common.{ℕ, ◌%◌, ◌^◌, List, [], ◌∷◌, ◌++◌, length, take}
use tri_drishti_chrono_cap.Wire.Memory.{c_str}
use tri_drishti_chrono_cap.Wire.Header.{FileHeader, TopicMetaEntry, RecordHeader, format_version}
use tri_drishti_chrono_cap.Wire.Header.Layout.{
  file_header_bytes, topic_meta_bytes, record_header_bytes,
}
use tri_drishti_chrono_cap.Wire.Header.Names.{padded}
use tri_drishti_chrono_cap.Ring.Queue.{Item}
use tri_drishti_chrono_cap.Writer.{TopicInfo}

abbrev pub item_header : Item → RecordHeader
item_header x = record { topic_id = x.topic_id; stamp_ns = x.stamp_ns; seq = x.seq }

-- A record: 18 bytes of header, then the payload, with no length.
abbrev pub item_bytes : Item → List ℕ
item_bytes x = record_header_bytes (item_header x) ++ x.bytes

abbrev pub items_bytes : List Item → List ℕ
items_bytes [] = []
items_bytes (x ∷ xs) = item_bytes x ++ items_bytes xs

-- The name as the file keeps it: up to the first NUL, and at most 31 characters.
abbrev pub short_name : TopicInfo → List ℕ
short_name t = take 31 (c_str t.name)

abbrev pub topic_entry : TopicInfo → TopicMetaEntry
topic_entry t = record {
  topic_id = t.topic_id;
  struct_size = t.wire_size;
  name = padded (short_name t);
}

abbrev pub topics_bytes : List TopicInfo → List ℕ
topics_bytes [] = []
topics_bytes (t ∷ ts) = topic_meta_bytes (topic_entry t) ++ topics_bytes ts

abbrev pub session_header : ℕ → List TopicInfo → FileHeader
session_header now topics = record {
  version = format_version;
  topic_count = length topics % 2 ^ 32;
  created_at_ns = now % 2 ^ 64;
}

abbrev pub file_bytes : ℕ → List TopicInfo → List Item → List ℕ
file_bytes now topics items =
    file_header_bytes (session_header now topics) ++ (topics_bytes topics ++ items_bytes items)
