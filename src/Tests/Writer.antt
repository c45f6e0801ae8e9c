-- ===== src/Tests/Writer.antt =====
-- Witnesses for the writer.
use tri_drishti_chrono_cap.Common.{
  ℕ, arith, ◌≡◌, refl, Bool, true, false, some, List, [], ◌∷◌, ◌++◌, length,
}
use tri_drishti_chrono_cap.Wire.Header.Layout.{file_header_bytes}
use tri_drishti_chrono_cap.Wire.Endian.{encode_u16, encode_u32, encode_u64, encode_u64_loop}
use tri_drishti_chrono_cap.Wire.Memory.{strlen, c_str}
use tri_drishti_chrono_cap.Wire.Header.{serialize_file_header, serialize_topic_meta}
use tri_drishti_chrono_cap.Ring.{empty_record}
use tri_drishti_chrono_cap.Ring.Queue.{item_of_record}
use tri_drishti_chrono_cap.Ring.Runs.{queue_push}
use tri_drishti_chrono_cap.Ring.Refine.{push_refines, fresh-Holds}
use tri_drishti_chrono_cap.Writer.{
  RecordWriter, print_name, writer_push, write_record, write_metadata,
  write_file_header_and_metadata,
}
use tri_drishti_chrono_cap.Writer.Output.{Disk, Wrote, write_loop, write_all, write_all_lem}
use tri_drishti_chrono_cap.Writer.Format.{topics_bytes, session_header, file_bytes}
use tri_drishti_chrono_cap.Writer.Records.{Recorded, write_record_lem}
use tri_drishti_chrono_cap.Writer.Thread.{
  Session, Event, produce, tick, at_check, exited, run_events, taken, NoneDropped,
}
use tri_drishti_chrono_cap.Writer.Lifecycle.{open_session, close}
use tri_drishti_chrono_cap.Ring.Steps.{next}
use tri_drishti_chrono_cap.Writer.Lifecycle.Lossless.{Opened, open_session_lem, lossless}
use tri_drishti_chrono_cap.Writer.Lifecycle.Closed.{close_twice}
use tri_drishti_chrono_cap.Writer.Lifecycle.AnyDisk.{attempts, any_disk}
use tri_drishti_chrono_cap.Writer.Lifecycle.AnyClose.{any_disk_closes}
use tri_drishti_chrono_cap.Ring.Queue.{Item}
use tri_drishti_chrono_cap.Writer.Thread.Pieces.{Pieces}
use tri_drishti_chrono_cap.Writer.Thread.Inv.{in_hand}
use tri_drishti_chrono_cap.Ring.Conserve.{held, IsRing}
use tri_drishti_chrono_cap.Writer.Output.{Descriptor, IsRegularFile}
use mathlib.Core.List.{Perm}
use tri_drishti_chrono_cap.Common.{ap, none, min, ltb, if◌then◌else◌, ◌≤◌, ◌<◌}
use tri_drishti_chrono_cap.Tests.Data.{taken_of}
use tri_drishti_chrono_cap.Tests.Data.{
  joy, first_sample, second_sample, first_record, five_at_once, five_at_once-IsRegularFile,
  five_at_once-IsReliable, idle_writer, open_writer,
}

abbrev empty_disk : Disk
empty_disk = record { bytes = []; calls = 0 }

abbrev seven_bytes : List ℕ
seven_bytes = 1 ∷ 2 ∷ 3 ∷ 4 ∷ 5 ∷ 6 ∷ 7 ∷ []

write_all_lem_example :
    (d : Disk) × (ok : Bool) × (write_all five_at_once empty_disk seven_bytes 7 ≡ some (d, ok))
    × Wrote empty_disk seven_bytes 7 d ok
write_all_lem_example =
    write_all_lem five_at_once-IsRegularFile empty_disk seven_bytes 7 (omega arith)

write_record_lem_example :
    (w : RecordWriter) × (ok : Bool) × (write_record five_at_once open_writer first_record
      ≡ some (w, ok))
    × Recorded open_writer (item_of_record first_record) w ok
write_record_lem_example =
    write_record_lem five_at_once-IsRegularFile open_writer first_record refl
      (record { sized = refl; fits = omega arith })

abbrev pub idle : Session
idle = record { writer = idle_writer; pc = exited; rec = empty_record }

open_session_lem_example :
    (s0 : Session) × (done : Bool) × (open_session five_at_once true 5 6 idle (joy ∷ [])
      ≡ some (s0, done))
    × Opened 5 (joy ∷ []) idle s0 done
open_session_lem_example = open_session_lem five_at_once-IsRegularFile 5 6 idle (joy ∷ []) refl

-- The session after `Open`: 70 bytes in 15 calls of write(2).
abbrev pub begun : Session
begun = record {
  writer = record idle_writer {
    joinable = true;
    is_open = true;
    last_flush = 6;
    disk = record {
      bytes = file_header_bytes (session_header 5 (joy ∷ [])) ++ topics_bytes (joy ∷ []);
      calls = 15;
    };
  };
  pc = at_check;
  rec = empty_record;
}

pub begun_lem : open_session five_at_once true 5 6 idle (joy ∷ []) ≡ some (begun, true)
unfolding open_session write_file_header_and_metadata write_metadata write_all write_loop
    serialize_file_header serialize_topic_meta print_name encode_u16 encode_u32 encode_u64
    encode_u64_loop strlen c_str
begun_lem = refl

abbrev events : List Event
events = produce first_sample ∷ produce second_sample ∷ tick 7 ∷ tick 8 ∷ tick 9 ∷ []

events-NoneDropped : NoneDropped five_at_once begun events
unfolding writer_push queue_push
events-NoneDropped =
    let (e1, h1) =
      push_refines 12 (omega arith) first_sample (fresh-Holds 12) (omega arith)
        (λ _. omega arith) in
    let (e2, h2) =
      push_refines 12 (omega arith) second_sample h1 (omega arith) (λ _. omega arith) in
    (omega arith, λ _. e1, (omega arith, λ _. e2, λ s1 _ s2 _ s3 _. tt))

lossless_example :
    (s1 : Session) × (s2 : Session) × (run_events five_at_once begun events ≡ some s1)
    × (close five_at_once (λ n. 10) s1 ≡ some s2)
    × (s2.writer.disk.bytes ≡ file_bytes 5 (joy ∷ []) (taken five_at_once begun events))
    × (s2.writer.synced ≡ length s2.writer.disk.bytes)
    × (s2.writer.is_open ≡ false)
    × (s2.writer.joinable ≡ false)
lossless_example =
    lossless five_at_once-IsReliable 5 6 (λ n. 10) idle begun (joy ∷ []) events refl []
      (fresh-Holds 12) begun_lem events-NoneDropped

-- A session with an open file and no thread.
abbrev half_open : Session
half_open = record { writer = open_writer; pc = exited; rec = empty_record }

abbrev shut : Session
shut = record half_open { writer = record open_writer { is_open = false } }

half_open_lem : close five_at_once (λ n. 10) half_open ≡ some shut
unfolding close
half_open_lem = refl

close_twice_example :
    (shut.writer.is_open ≡ false)
    × (shut.writer.joinable ≡ false)
    × (close five_at_once (λ n. 11) shut ≡ some shut)
close_twice_example = close_twice five_at_once (λ n. 10) (λ n. 11) half_open shut half_open_lem

-- A disk that takes five bytes at a time, and nothing from its eighteenth call on.
abbrev full_disk : Descriptor
full_disk = record { write = λ call count. if ltb call 17 then some (min 5 count) else none }

full_disk-IsRegularFile : IsRegularFile full_disk
full_disk-IsRegularFile = record {
  bounded = λ call count n e. bounded (ltb call 17) count n e;
  progress = λ call count n pos e. progress (ltb call 17) count n pos e;
}
  where
    bounded :
        (b : Bool) (count n : ℕ) → (if b then some (min 5 count) else none) ≡ some n → n ≤ count
    bounded true count n e = let h : min 5 count ≡ n = ap taken_of e in omega arith
    bounded false count n e = absurd cc

    progress :
        (b : Bool) (count n : ℕ)
        → 0 < count
        → (if b then some (min 5 count) else none) ≡ some n
        → 0 < n
    progress true count n pos e = let h : min 5 count ≡ n = ap taken_of e in omega arith
    progress false count n pos e = absurd cc

full_lem : open_session full_disk true 5 6 idle (joy ∷ []) ≡ some (begun, true)
unfolding open_session write_file_header_and_metadata write_metadata write_all write_loop
    serialize_file_header serialize_topic_meta print_name encode_u16 encode_u32 encode_u64
    encode_u64_loop strlen c_str
full_lem = refl

fresh-IsRing : IsRing 12 idle_writer.ring
fresh-IsRing = let h = fresh-Holds 12 in record { size = h.size; slots_ok = h.slots_ok }

any_disk_example :
    (s1 : Session) × (behind : List ℕ) × (run_events full_disk begun events ≡ some s1)
    × (s1.writer.disk.bytes
        ≡ (file_header_bytes (session_header 5 (joy ∷ [])) ++ topics_bytes (joy ∷ [])) ++ behind)
    × Pieces (attempts full_disk begun events) behind
    × (s1.writer.synced ≤ length s1.writer.disk.bytes)
    × Perm
        (taken full_disk begun events ++ held idle_writer.ring.slots)
        (attempts full_disk begun events ++ (in_hand s1.pc s1.rec ++ held s1.writer.ring.slots))
any_disk_example =
    any_disk full_disk-IsRegularFile 5 6 idle begun (joy ∷ []) events refl fresh-IsRing full_lem
      (omega arith, (omega arith, tt))

any_disk_closes_example :
    (s1 : Session) × (s2 : Session) × (more : List Item) × (behind : List ℕ) × (run_events full_disk
        begun events
      ≡ some s1)
    × (close full_disk (λ n. 10) s1 ≡ some s2)
    × (s2.writer.disk.bytes
        ≡ (file_header_bytes (session_header 5 (joy ∷ [])) ++ topics_bytes (joy ∷ [])) ++ behind)
    × Pieces (attempts full_disk begun events ++ more) behind
    × (s2.writer.synced ≡ length s2.writer.disk.bytes)
    × (s2.writer.is_open ≡ false)
    × (s2.writer.joinable ≡ false)
    × Perm
        (taken full_disk begun events ++ held idle_writer.ring.slots)
        ((attempts full_disk begun events ++ more) ++ held s2.writer.ring.slots)
    × ((next 12 s2.writer.ring).ready ≡ false)
any_disk_closes_example =
    any_disk_closes full_disk-IsRegularFile 5 6 (λ n. 10) idle begun (joy ∷ []) events refl
      fresh-IsRing full_lem (omega arith, (omega arith, tt))
