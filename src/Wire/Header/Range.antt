-- ===== src/Wire/Header/Range.antt =====
-- Whatever bytes a structure is read from, its fields fit their C types.
use tri_drishti_chrono_cap.Common.{ℕ, ◌≤◌, arith, List, length, length-drop, drop, All, All-drop}
use tri_drishti_chrono_cap.Wire.Endian.Bytes.{IsByte, IsU16, IsU32}
use tri_drishti_chrono_cap.Wire.Endian.Range.{decode_u16-IsU16, decode_u32-IsU32, decode_u64-IsU64}
use tri_drishti_chrono_cap.Wire.Header.{deserialize_topic_meta, deserialize_record_header}
use tri_drishti_chrono_cap.Wire.Header.RoundTrip.{FitsRecordHeader}

pub deserialize_record_header-FitsRecordHeader :
    (inp : List ℕ)
    → 18 ≤ length inp
    → All IsByte inp
    → FitsRecordHeader (deserialize_record_header inp)
unfolding deserialize_record_header
deserialize_record_header-FitsRecordHeader inp h bytes = record {
  topic_id = decode_u16-IsU16 inp (omega arith) bytes;
  stamp_ns =
      decode_u64-IsU64 (drop 2 inp) (omega (arith, length-drop 2 inp))
        (All-drop IsByte 2 inp bytes);
  seq =
      decode_u64-IsU64 (drop 10 inp) (omega (arith, length-drop 10 inp))
        (All-drop IsByte 10 inp bytes);
}

pub deserialize_topic_meta-fits :
    (inp : List ℕ)
    → 38 ≤ length inp
    → All IsByte inp
    → IsU16 (deserialize_topic_meta inp).topic_id × IsU32 (deserialize_topic_meta inp).struct_size
unfolding deserialize_topic_meta
deserialize_topic_meta-fits inp h bytes = (
  decode_u16-IsU16 inp (omega arith) bytes,
  decode_u32-IsU32 (drop 2 inp) (omega (arith, length-drop 2 inp)) (All-drop IsByte 2 inp bytes),
)
