-- ===== src/Tests/Data.antt =====
-- A topic with two-byte payloads, two records of it, and a disk that takes at most five bytes at once.
use tri_drishti_chrono_cap.Common.{
  ℕ, min, arith, ◌≡◌, refl, ap, true, false, Option, none, some, [], ◌∷◌, replicate,
}
use tri_drishti_chrono_cap.Ring.{Sample, PoppedRecord, fresh}
use tri_drishti_chrono_cap.Ring.Queue.{Item}
use tri_drishti_chrono_cap.Payload.{JoyFields, JoyMsgs}
use tri_drishti_chrono_cap.Writer.{TopicInfo, RecordWriter}
use tri_drishti_chrono_cap.Writer.Output.{Descriptor, IsRegularFile, IsReliable}
use tri_drishti_chrono_cap.Reader.Parse.{FitsTopic}

abbrev pub joy : TopicInfo
joy = record { topic_id = 1; wire_size = 2; name = b'j' ∷ b'o' ∷ b'y' ∷ [] }

abbrev pub first_sample : Sample
first_sample = record { topic_id = 1; stamp_ns = 50; seq = 0; bytes = 7 ∷ 8 ∷ []; len = 2 }

abbrev pub second_sample : Sample
second_sample = record { topic_id = 1; stamp_ns = 90; seq = 1; bytes = 9 ∷ 10 ∷ []; len = 2 }

abbrev pub first_item : Item
first_item = record { topic_id = 1; stamp_ns = 50; seq = 0; bytes = 7 ∷ 8 ∷ [] }

abbrev pub second_item : Item
second_item = record { topic_id = 1; stamp_ns = 90; seq = 1; bytes = 9 ∷ 10 ∷ [] }

abbrev pub first_record : PoppedRecord
first_record = record {
  topic_id = 1;
  stamp_ns = 50;
  seq = 0;
  payload_len = 2;
  payload = 7 ∷ 8 ∷ replicate 62 0;
}

abbrev pub five_at_once : Descriptor
five_at_once = record { write = λ call count. some (min 5 count) }

abbrev pub taken_of : Option ℕ → ℕ
taken_of none = 0
taken_of (some n) = n

pub five_at_once-IsRegularFile : IsRegularFile five_at_once
five_at_once-IsRegularFile = record {
  bounded = λ call count n e. let h : min 5 count ≡ n = ap taken_of e in omega arith;
  progress = λ call count n pos e. let h : min 5 count ≡ n = ap taken_of e in omega arith;
}

pub five_at_once-IsReliable : IsReliable five_at_once
five_at_once-IsReliable = record { law = five_at_once-IsRegularFile; succeeds = λ call count e. cc }

-- A writer before its first session.
abbrev pub idle_writer : RecordWriter
idle_writer = record {
  ring = fresh 12;
  shutdown = false;
  joinable = false;
  is_open = false;
  pending_since_flush = 0;
  last_flush = 0;
  flush_interval = 100000000;
  disk = record { bytes = []; calls = 0 };
  synced = 0;
}

abbrev pub open_writer : RecordWriter
open_writer = record idle_writer { is_open = true }

pub joy-FitsTopic : FitsTopic joy
joy-FitsTopic = record { topic_id = omega arith; wire_size = omega arith }

abbrev pub pressed : JoyFields
pressed = record {
  timestamp = 5000000000;
  axis0 = 1065353216;
  axis2 = 0;
  button0 = true;
  button1 = false;
  button3 = false;
  button4 = true;
  button5 = false;
  button6 = true;
}

-- A struct of the nine members and no other.
abbrev pub bare_joy : JoyMsgs
bare_joy = record {
  T = JoyFields;
  fields = λ v. v;
  assign = λ f v. f;
  initial = pressed;
  fields-assign = λ f v. refl;
}
