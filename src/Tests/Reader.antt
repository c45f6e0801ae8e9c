-- ===== src/Tests/Reader.antt =====
-- Witnesses for the reader, and for the reader on the writer's file.
use tri_drishti_chrono_cap.Common.{
  ℕ, zero, suc, ◌+◌, ◌*◌, ◌≤◌, ◌<◌, arith, ◌≡◌, ◌≢◌, ◌⊎◌, refl, true, false, none, some, List, [],
  ◌∷◌, ◌++◌, map, length, take,
}
use mathlib.Core.Option
use tri_drishti_chrono_cap.Wire.Header.Layout.{file_header_bytes, record_header_bytes}
use tri_drishti_chrono_cap.Recovery.Mixed.{mixed, torn_mixes}
use tri_drishti_chrono_cap.Ring.Queue.{Item}
use tri_drishti_chrono_cap.Writer.{TopicInfo}
use tri_drishti_chrono_cap.Writer.Format.{
  item_header, items_bytes, item_bytes, topics_bytes, session_header, file_bytes,
}
use tri_drishti_chrono_cap.Reader.{
  RecordReader, Played, find, assign, parsed, parse_header_and_metadata, run, walk,
}
use tri_drishti_chrono_cap.Reader.Parse.{
  mapped, resolved_of, table, last_with, parse_header_and_metadata_lem,
}
use tri_drishti_chrono_cap.Reader.Playback.{Known, plays}
use tri_drishti_chrono_cap.Reader.Total.{untimed_all, run-walk}
use tri_drishti_chrono_cap.Recovery.{Consistent, preamble, crash_read_back, open_read_back}
use tri_drishti_chrono_cap.Reader.Open.{opened, open_reader}
use tri_drishti_chrono_cap.Reader.Handles.{
  Calls, Handles, Unmap, IsUnmap, is_sized, is_mapped, open_all, destroy, open_then_destroy,
}
use tri_drishti_chrono_cap.Reader.Timed.{Heard, Wakes, OnTime, timed_run, timed_run_lem}
use tri_drishti_chrono_cap.Reader.Clock.{
  Timespec, Timer, IsTimer, IsRequest, interrupted, timespec_of, monotonic_now_ns, sleep_until,
  sleep_until_reaches,
}
use tri_drishti_chrono_cap.Common.{
  zero, suc, ◌⊎◌, inr, All, ◌≢◌, ltb, if◌then◌else◌, ◌+◌, ◌*◌, ◌^◌, ◌<◌, ◌≤◌,
}
use tri_drishti_chrono_cap.Tests.Data.{joy, joy-FitsTopic, first_item, second_item}

abbrev topics : List TopicInfo
topics = joy ∷ []

abbrev items : List Item
items = first_item ∷ second_item ∷ []

first-Known : Known (table topics) first_item
unfolding find assign
first-Known = record {
  fits = record { topic_id = omega arith; stamp_ns = omega arith; seq = omega arith };
  topic = resolved_of joy;
  found = refl;
  sized = refl;
}

second-Known : Known (table topics) second_item
unfolding find assign
second-Known = record {
  fits = record { topic_id = omega arith; stamp_ns = omega arith; seq = omega arith };
  topic = resolved_of joy;
  found = refl;
  sized = refl;
}

items-Consistent : Consistent topics items
items-Consistent = record {
  fits = (joy-FitsTopic, tt);
  few = omega arith;
  known = (first-Known, (second-Known, tt));
}

-- A reader of a file of 25 bytes: the first record, and five bytes of the second.
abbrev cut_reader : RecordReader
cut_reader = record {
  base = items_bytes (first_item ∷ []) ++ take 5 (item_bytes second_item);
  records_start_offset = 0;
  topics = resolved_of joy ∷ [];
  by_id = table topics;
}

run-walk_example :
    (run cut_reader 1000 ≢ none)
    × ((run cut_reader 1000 ≡ walk cut_reader true 1000)
        × (untimed_all (run cut_reader 1000) ≡ walk cut_reader false 1000))
run-walk_example = run-walk cut_reader 1000

abbrev table_file : List ℕ
table_file = file_header_bytes (session_header 5 topics) ++ (topics_bytes topics ++ [])

parse_header_and_metadata_lem_example :
    (parse_header_and_metadata (mapped table_file)
      ≡ parsed (record {
        base = table_file;
        records_start_offset = 32 + 38 * 1;
        topics = map resolved_of topics;
        by_id = table topics;
      }))
    × (find 1 (table topics) ≡ Option.map resolved_of (last_with 1 topics))
parse_header_and_metadata_lem_example =
    parse_header_and_metadata_lem 5 1 topics [] (joy-FitsTopic, tt) (omega arith)

crash_read_back_example :
    (kept : ℕ) × (r : RecordReader) × (parse_header_and_metadata
        (mapped (take (length (preamble 5 topics) + 25) (file_bytes 5 topics items)))
      ≡ parsed r)
    × (r.topics ≡ map resolved_of topics)
    × (run r 1000 ≡ some (plays 1000 (take kept items)))
    × (length (items_bytes (take kept items)) ≤ 25)
    × ((kept ≡ length items) ⊎ (25 < length (items_bytes (take (suc kept) items))))
crash_read_back_example = crash_read_back 5 1000 25 topics items items-Consistent

open_read_back_example :
    (r : RecordReader) × (open_reader
        (some (file_bytes 5 topics items))
        (some (λ t. true))
        (mapped [])
      ≡ opened r)
    × (r.topics ≡ map resolved_of topics)
    × (run r 1000 ≡ some (plays 1000 items))
open_read_back_example = open_read_back 5 1000 topics items (λ t. true) items-Consistent (refl, tt)

-- A timer whose first call is interrupted two seconds before time, and whose others end in time.
abbrev late_signal : Timer
late_signal zero ts = record { result = 4; now = record { tv_sec = 3; tv_nsec = 0 } }
late_signal (suc call) ts =
    if ltb (ts.tv_sec * 1000000000 + ts.tv_nsec) (2 ^ 64)
    then record { result = 0; now = ts }
    else record { result = 4; now = record { tv_sec = 0; tv_nsec = 0 } }

late_signal-IsTimer : IsTimer late_signal
late_signal-IsTimer = record { accepts = accepts; reaches = reaches; range = range }
  where
    accepts :
        (call : ℕ) (ts : Timespec)
        → IsRequest ts
        → ((late_signal call ts).result ≡ 0) ⊎ ((late_signal call ts).result ≡ interrupted)
    accepts zero ts h = inr refl
    accepts (suc call) ts h = ground arith

    reaches :
        (call : ℕ) (ts : Timespec)
        → (late_signal call ts).result ≡ 0
        → ts.tv_sec * 1000000000 + ts.tv_nsec
          ≤ (late_signal call ts).now.tv_sec * 1000000000 + (late_signal call ts).now.tv_nsec
    reaches zero ts e = absurd (omega arith)
    reaches (suc call) ts e = ground arith

    range :
        (call : ℕ) (ts : Timespec)
        → (late_signal call ts).now.tv_sec * 1000000000 + (late_signal call ts).now.tv_nsec < 2 ^ 64
    range zero ts = omega arith
    range (suc call) ts = ground arith

abbrev one_second : Timespec
one_second = record { tv_sec = 1; tv_nsec = 0 }

second_call : (late_signal 1 (timespec_of 5000000007)).result ≢ interrupted
unfolding timespec_of
second_call = omega arith

sleep_until_reaches_example :
    (now : Timespec) × (sleep_until late_signal 2 0 5000000007 ≡ some now)
    × (5000000007 ≤ monotonic_now_ns now)
sleep_until_reaches_example =
    sleep_until_reaches late_signal 1 0 5000000007 late_signal-IsTimer (omega arith) second_call

late_signal-Wakes : Wakes (λ n. late_signal) 1
unfolding timespec_of
late_signal-Wakes = record { law = λ n. late_signal-IsTimer; ends = λ n target_ns h. ground arith }

-- The clock stands at one second when the first record is read.
timed_run_lem_example :
    (ps : List Played) × (hs : List Heard) × (run cut_reader (monotonic_now_ns one_second)
      ≡ some ps)
    × (timed_run cut_reader one_second (λ n. late_signal) 2 ≡ some hs)
    × (map (λ h. h.played) hs ≡ ps)
    × All OnTime hs
timed_run_lem_example = timed_run_lem cut_reader one_second (λ n. late_signal) 1 late_signal-Wakes

-- The first record without its second byte, and the second record behind it.
torn_mixes_example :
    (r : RecordReader) × (ps : List Played) × (parse_header_and_metadata (
        mapped (
          preamble 5 topics
          ++ ([]
              ++ (record_header_bytes (item_header first_item) ++ (7 ∷ item_bytes second_item)))))
      ≡ parsed r)
    × (run r 1000 ≡ some (plays 1000 (mixed first_item 1 (item_bytes second_item) ∷ []) ++ ps))
    × ((mixed first_item 1 (item_bytes second_item)).bytes ≡ 7 ∷ 1 ∷ [])
torn_mixes_example =
    torn_mixes 5 1000 1 topics [] first_item (item_bytes second_item)
      (record { fits = (joy-FitsTopic, tt); few = omega arith; known = (first-Known, tt) })
      (omega arith) (omega arith)

-- An `Open` whose fstat fails, one that maps a file, and one of an empty file.
abbrev two_opens : List Calls
two_opens =
    record { opens = true; stats = false; maps = false; file = [] }
    ∷ record { opens = true; stats = true; maps = true; file = table_file }
    ∷ []

abbrev empty_open : Calls
empty_open = record { opens = true; stats = true; maps = false; file = [] }

abbrev at_start : Handles
at_start = record { descriptors = 3; mappings = 5; base = none; file_size = 0 }

-- A munmap that gives all of a mapping back for every length but 0, as for one of at most a page.
abbrev if_any : Unmap
if_any n zero = false
if_any n (suc m) = true

if_any-IsUnmap : IsUnmap if_any
if_any-IsUnmap = record { whole = whole; empty = empty }
  where
    whole : (n : ℕ) → 0 < n → if_any n n ≡ true
    whole zero h = absurd (omega arith)
    whole (suc n) h = refl

    empty : (n : ℕ) → if_any n 0 ≡ false
    empty n = refl

open_then_destroy_example :
    let gone =
      destroy if_any (open_all none (mapped []) (two_opens ++ (empty_open ∷ [])) at_start) in
    (gone.descriptors ≡ 3)
    × (is_mapped empty_open ≡ true → gone.mappings ≡ 5 + 1)
    × (is_sized empty_open ≡ false
        → gone ≡ destroy if_any (open_all none (mapped []) two_opens at_start))
    × (is_sized empty_open ≡ true → length empty_open.file ≡ 0 → gone.mappings ≡ 5 + 1)
open_then_destroy_example =
    open_then_destroy none (mapped []) if_any-IsUnmap two_opens empty_open at_start (λ e. refl)
