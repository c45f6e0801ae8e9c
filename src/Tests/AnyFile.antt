-- ===== src/Tests/AnyFile.antt =====
-- Witnesses for the reader and the replayer on a file that no recorder wrote.
use tri_drishti_chrono_cap.Common.{
  ℕ, ◌+◌, ◌*◌, ◌≤◌, ◌≡◌, refl, arith, true, some, List, [], ◌∷◌, ◌++◌, map, length, All,
}
use tri_drishti_chrono_cap.Wire.Endian.Bytes.{IsByte}
use tri_drishti_chrono_cap.Wire.Memory.{c_str}
use tri_drishti_chrono_cap.Wire.Header.Layout.{file_header_bytes}
use tri_drishti_chrono_cap.Writer.Format.{topics_bytes, session_header}
use tri_drishti_chrono_cap.Reader.{RecordReader, Played, run}
use tri_drishti_chrono_cap.Reader.Open.{opened, open_reader, hook_all-All, open_reader-parsed}
use tri_drishti_chrono_cap.Reader.Parse.{resolved_of, table, parse_header_and_metadata_lem}
use tri_drishti_chrono_cap.Reader.Bounds.{IsAccepted, callback_in_bounds}
use tri_drishti_chrono_cap.Reader.Delivered.{Delivered, records_size}
use tri_drishti_chrono_cap.Systems.{all_topics, on_topic_found}
use tri_drishti_chrono_cap.Systems.Callbacks.{Publication}
use tri_drishti_chrono_cap.Programs.Replayer.{Playback, new_reader, replayer_main}
use tri_drishti_chrono_cap.Programs.Replayer
use tri_drishti_chrono_cap.Programs.AnyFile.{Decodable, replayer_in_bounds}
use tri_drishti_chrono_cap.Programs.EndToEnd.Record.{joy_table}
use tri_drishti_chrono_cap.Programs.EndToEnd.Sent.{on_topic_found-joy}
use tri_drishti_chrono_cap.Tests.Data.{bare_joy}

-- A table of one topic, and behind it a header of the topic with 22 bytes, and a header cut short: none
-- of it as the writer would leave it.
abbrev odd_bytes : List ℕ
odd_bytes =
    4 ∷ 0 ∷ 255 ∷ 255 ∷ 255 ∷ 255 ∷ 255 ∷ 255 ∷ 255 ∷ 255 ∷ 9 ∷ 9 ∷ 9 ∷ 9 ∷ 9 ∷ 9 ∷ 9 ∷ 9 ∷ 7 ∷ 7
    ∷ 7 ∷ 7 ∷ 7 ∷ 7 ∷ 7 ∷ 7 ∷ 7 ∷ 7 ∷ 7 ∷ 7 ∷ 7 ∷ 7 ∷ 7 ∷ 7 ∷ 7 ∷ 7 ∷ 7 ∷ 7 ∷ 7 ∷ 7 ∷ 4 ∷ 0 ∷ 1 ∷ []

abbrev odd_file : List ℕ
odd_file = file_header_bytes (session_header 5 joy_table) ++ (topics_bytes joy_table ++ odd_bytes)

abbrev odd_reader : RecordReader
odd_reader = record {
  base = odd_file;
  records_start_offset = 32 + 38 * 1;
  topics = map resolved_of joy_table;
  by_id = table joy_table;
}

odd_file-opened :
    open_reader (some odd_file) (some (on_topic_found (λ t. true) all_topics)) new_reader
    ≡ opened odd_reader
odd_file-opened =
    open_reader-parsed odd_file (on_topic_found (λ t. true) all_topics) new_reader odd_reader
      (parse_header_and_metadata_lem 5 4 joy_table odd_bytes
        (record { topic_id = omega arith; wire_size = omega arith }, tt) (omega arith)).0
      (hook_all-All (on_topic_found (λ t. true) all_topics) odd_reader.topics
        (on_topic_found-joy (λ t. true) refl, tt))

odd_file-IsByte : All IsByte odd_file
unfolding c_str
odd_file-IsByte = omega arith

callback_in_bounds_example :
    (plays : List Played) × (run odd_reader 1000 ≡ some plays)
    × All (Delivered (IsAccepted (on_topic_found (λ t. true) all_topics) odd_reader.topics)) plays
    × (32 + 38 * 1 + records_size plays ≤ length odd_file)
callback_in_bounds_example =
    callback_in_bounds (on_topic_found (λ t. true) all_topics) odd_file 1000 odd_reader
      odd_file-IsByte odd_file-opened

abbrev odd_world : Playback
odd_world = record {
  argc = 2;
  setup_ok = true;
  advertise = λ t. true;
  file = some odd_file;
  start = 1000;
}

replayer_in_bounds_example :
    (plays : List Played) × (pubs : List (Publication bare_joy)) × (run odd_reader 1000
      ≡ some plays)
    × All Decodable plays
    × (replayer_main bare_joy odd_world ≡ some (Replayer.returned 0 pubs))
    × (length pubs ≡ length plays)
    × (32 + 38 * 1 + 40 * length plays ≤ length odd_file)
replayer_in_bounds_example =
    replayer_in_bounds bare_joy odd_world odd_file odd_reader (omega arith) refl refl
      odd_file-IsByte odd_file-opened
