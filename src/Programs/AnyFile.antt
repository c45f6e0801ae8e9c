-- ===== src/Programs/AnyFile.antt =====
-- The replayer on any file: src/i2wReplayer.cpp over record_reader.cpp and generic_replayer.hpp.
use tri_drishti_chrono_cap.Common.{
  ℕ, ◌+◌, ◌*◌, ◌≤◌, ◌≡◌, refl, sym, ◌∙◌, arith, ltb_of_le, Bool, true, some, List, [], ◌∷◌, length,
  length-append, All,
}
use tri_drishti_chrono_cap.Payload.{JoyMsgs, decode_joy}
use tri_drishti_chrono_cap.Wire.Endian.Bytes.{IsByte, IsU64}
use tri_drishti_chrono_cap.Reader.{ResolvedTopic, RecordReader, Played, run}
use tri_drishti_chrono_cap.Reader.Open.{opened, open_reader}
use tri_drishti_chrono_cap.Reader.Bounds.{IsAccepted, callback_in_bounds}
use tri_drishti_chrono_cap.Reader.Delivered.{Delivered, records_size}
use tri_drishti_chrono_cap.Systems.{
  TopicTraits, joy_traits, all_topics, try_advertise, advertise_all, on_topic_found,
}
use tri_drishti_chrono_cap.Systems.Callbacks.{Publication, dispatch_one, on_record, replay}
use tri_drishti_chrono_cap.Programs.Replayer.{
  Playback, returned, new_reader, play_all, replayer_main,
}

-- A topic that the replayer accepts is the one that it can decode.
on_topic_found-joy_traits :
    (advertise : TopicTraits → Bool) (t : ResolvedTopic)
    → on_topic_found advertise all_topics t ≡ true
    → (t.topic_id ≡ 4) × (t.wire_size ≡ 22)
unfolding on_topic_found advertise_all try_advertise
on_topic_found-joy_traits advertise t e = (ground arith, ground arith)

-- A call of the callback that `DecodePayload` can read: the topic's id, and all of its bytes; and a stamp
-- that fits its C type.
pub record Decodable (p : Played) : Type 0 where
  pub id : p.topic_id ≡ 4
  pub whole : length p.payload ≡ 22
  pub bytes : All IsByte p.payload
  pub stamp_ns : IsU64 p.stamp_ns

Delivered-Decodable :
    (advertise : TopicTraits → Bool) (topics : List ResolvedTopic) (p : Played)
    → Delivered (IsAccepted (on_topic_found advertise all_topics) topics) p
    → Decodable p
Delivered-Decodable advertise topics p d =
    let (id, size) = on_topic_found-joy_traits advertise d.topic d.known.0 in
    record {
      id = sym d.id ∙ id;
      whole = d.whole ∙ d.len ∙ size;
      bytes = d.bytes;
      stamp_ns = d.stamp_ns;
    }

All-Decodable :
    (advertise : TopicTraits → Bool) (topics : List ResolvedTopic) (ps : List Played)
    → All (Delivered (IsAccepted (on_topic_found advertise all_topics) topics)) ps
    → All Decodable ps
All-Decodable advertise topics [] a = tt
All-Decodable advertise topics (p ∷ ps) (d, a) =
    (Delivered-Decodable advertise topics p d, All-Decodable advertise topics ps a)

records_size-Decodable : (ps : List Played) → All Decodable ps → records_size ps ≡ 40 * length ps
records_size-Decodable [] a = refl
records_size-Decodable (p ∷ ps) (d, a) = omega (arith, d.whole, records_size-Decodable ps a)

-- In a table of no topics nothing can be played.
none-Delivered :
    (advertise : TopicTraits → Bool) (ps : List Played)
    → All (Delivered (IsAccepted (on_topic_found advertise all_topics) [])) ps
    → ps ≡ []
none-Delivered advertise [] a = refl
none-Delivered advertise (p ∷ ps) (d, a) = absurd d.known.1

module _ (m : JoyMsgs) where
  abbrev published_one : Played → Publication m
  published_one p = record {
    topic_name = joy_traits.topic_name;
    value = decode_joy m p.payload m.initial;
    stamp_ns = p.stamp_ns;
  }

  length-replay :
      (ps : List Played) (sent : List (Publication m))
      → All Decodable ps
      → length (replay m all_topics ps sent) ≡ length sent + length ps
  unfolding replay on_record dispatch_one
  length-replay [] sent a = omega arith
  length-replay (p ∷ ps) sent (d, a) =
      rw (d.id, dispatch_one)
        (length-replay ps _ a ∙ omega (arith, length-append sent (published_one p ∷ [])))

  play_all_lem :
      (world : Playback) (r : RecordReader) (plays : List Played) (topics : List ResolvedTopic)
      → r.topics ≡ topics
      → run r world.start ≡ some plays
      → All (Delivered (IsAccepted (on_topic_found world.advertise all_topics) topics)) plays
      → play_all m world r ≡ some (returned 0 (replay m all_topics plays []))
  unfolding play_all replay
  play_all_lem world r plays [] e ran a = rw (e, none-Delivered world.advertise plays a) refl
  play_all_lem world r plays (t ∷ ts) e ran a = rw (ran, e) refl

  -- The replayer on any file of bytes that it opens, complete, broken or hostile, with an argument and a
  -- runtime that sets up: `Run` ends, and every call of the callback has the one topic's id, the 22 bytes
  -- that `DecodePayload` reads, and a stamp below 2 ^ 64; `main` returns 0 and has published one message
  -- for each call; and the header, the table and the records of 40 bytes fit into the file.
  pub replayer_in_bounds :
      (world : Playback) (bytes : List ℕ) (r : RecordReader)
      → 2 ≤ world.argc
      → world.setup_ok ≡ true
      → world.file ≡ some bytes
      → All IsByte bytes
      → open_reader (some bytes) (some (on_topic_found world.advertise all_topics)) new_reader
        ≡ opened r
      → (plays : List Played) × (pubs : List (Publication m)) × (run r world.start ≡ some plays)
        × All Decodable plays
        × (replayer_main m world ≡ some (returned 0 pubs))
        × (length pubs ≡ length plays)
        × (32 + 38 * length r.topics + 40 * length plays ≤ length bytes)
  unfolding replayer_main
  replayer_in_bounds world bytes r args up file all_bytes e =
      let (plays, ran, delivered, room) =
        callback_in_bounds (on_topic_found world.advertise all_topics) bytes world.start r all_bytes
          e in
      let decodable = All-Decodable world.advertise r.topics plays delivered in
      let size = records_size-Decodable plays decodable in
      (
        plays,
        replay m all_topics plays [],
        ran,
        decodable,
        rw (ltb_of_le args, up, file, e, replayer_main)
            (play_all_lem world r plays r.topics refl ran delivered),
        length-replay plays [] decodable ∙ omega arith,
        omega (arith, room, size),
      )
