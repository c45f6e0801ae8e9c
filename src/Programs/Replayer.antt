-- ===== src/Programs/Replayer.antt =====
-- src/i2wReplayer.cpp, `main`: `Open` with the hook that advertises, then `Run` with the callback that
-- publishes.
use tri_drishti_chrono_cap.Common.{
  ℕ, ltb, if◌then◌else◌, Bool, true, false, not, Option, none, some, List, [], ◌∷◌,
}
use tri_drishti_chrono_cap.Payload.{JoyMsgs}
use tri_drishti_chrono_cap.Reader.{ResolvedTopic, RecordReader, run}
use tri_drishti_chrono_cap.Reader.Open.{opened, failed, overran, open_reader}
use tri_drishti_chrono_cap.Systems.{TopicTraits, all_topics, on_topic_found}
use tri_drishti_chrono_cap.Systems.Callbacks.{Publication, replay}

-- What `main` meets: the number of arguments, the runtime, the mapped file (`none` where open, fstat or
-- mmap fails), and the clock at the first record.
pub record Playback : Type 0 where
  pub argc : ℕ
  pub setup_ok : Bool
  pub advertise : TopicTraits → Bool
  pub file : Option (List ℕ)
  pub start : ℕ

-- A reader as it is constructed.
abbrev pub new_reader : RecordReader
new_reader = record { base = []; records_start_offset = 0; topics = []; by_id = [] }

abbrev pub no_topics : List ResolvedTopic → Bool
no_topics [] = true
no_topics (t ∷ ts) = false

module _ (m : JoyMsgs) where
  -- It returns a code, with what it published, or it reads past a topic's name in the file.
  pub data ReplayExit : Type 0 where
    returned : ℕ → List (Publication m) → ReplayExit
    read_past : ReplayExit

  -- From `Open`'s success on; `none`: `Run` does not end.
  unfoldable pub play_all : Playback → RecordReader → Option ReplayExit
  play_all world r =
      if no_topics r.topics then some (returned 0 []) else (elim (run r world.start) [
        | none ↦ none
        | some plays ↦ some (returned 0 (replay m all_topics plays []))
      ])

  unfoldable pub replayer_main : Playback → Option ReplayExit
  replayer_main world =
      if ltb world.argc 2
      then some (returned 1 [])
      else (if not world.setup_ok
          then some (returned 1 [])
          else (elim (open_reader world.file (some (on_topic_found world.advertise all_topics))
              new_reader) [
                | failed ↦ some (returned 1 [])
                | overran ↦ some read_past
                | opened r ↦ play_all world r
              ]))
