-- ===== src/Programs/EndToEnd.antt =====
-- The two programs one after the other: what the recorder was sent, the replayer publishes.
pub mod Sent
pub mod Loop
pub mod Record
use tri_drishti_chrono_cap.Common.{
  ℕ, suc, ap₂, ◌+◌, ◌≤◌, ◌<◌, ◌^◌, ◌≡◌, ◌≢◌, refl, ap, subst, sym, ◌∙◌, arith, if◌then◌else◌, Bool,
  true, false, not, Option, none, some, List, [], ◌∷◌, ◌++◌, append-nil, map, length, All,
}
use mathlib.Core.List.{map-append}
use tri_drishti_chrono_cap.Payload.{JoyMsgs}
use tri_drishti_chrono_cap.Config.{loaded, load_from_file, is_enabled}
use tri_drishti_chrono_cap.Ring.{Sample}
use tri_drishti_chrono_cap.Ring.Queue.{Item, item_of_sample, IsSample}
use tri_drishti_chrono_cap.Ring.Refine.{fresh-Holds}
use tri_drishti_chrono_cap.Writer.{TopicInfo, writer_push}
use tri_drishti_chrono_cap.Writer.Output.{Descriptor, IsReliable}
use tri_drishti_chrono_cap.Writer.Format.{file_bytes}
use tri_drishti_chrono_cap.Writer.Thread.{Session, push_step, run_events, taken, NoneDropped}
use tri_drishti_chrono_cap.Writer.Thread.Pushed.{pushes, items_of, AllFit, taken-pushes}
use tri_drishti_chrono_cap.Writer.Lifecycle.{open_session, close}
use tri_drishti_chrono_cap.Writer.Lifecycle.Lossless.{lossless, Opened}
use tri_drishti_chrono_cap.Writer.Lifecycle.Succeeds.{open_session-true}
use tri_drishti_chrono_cap.Writer.Lifecycle.Closed.{IsClosed, close_twice, close-IsClosed}
use tri_drishti_chrono_cap.Reader.{run}
use tri_drishti_chrono_cap.Reader.Open.{opened, open_reader}
use tri_drishti_chrono_cap.Reader.Parse.{resolved_of}
use tri_drishti_chrono_cap.Reader.Playback.{plays}
use tri_drishti_chrono_cap.Recovery.{open_read_back}
use tri_drishti_chrono_cap.Systems.{
  TopicTraits, joy_traits, all_topics, info_of, on_setup, on_topic_found,
}
use tri_drishti_chrono_cap.Systems.Callbacks.{Message, Publication, replay}
use tri_drishti_chrono_cap.Systems.Callbacks.Republish.{
  item_of_message, seen, published, replay-plays,
}
use tri_drishti_chrono_cap.Programs.LogFile.{log_dir, configer_logger}
use tri_drishti_chrono_cap.Programs.Recorder.{
  World, returned, push_all, main_loop, return_with, record_session, run_system, recorder_main,
  configure_system, file_created, new_session, new_writer,
}
use tri_drishti_chrono_cap.Programs.Replayer.{
  Playback, ReplayExit, new_reader, play_all, replayer_main,
}
use tri_drishti_chrono_cap.Programs.Replayer
use tri_drishti_chrono_cap.Programs.EndToEnd.Sent.{
  on_setup-joy, on_topic_found-joy, FitsMessage, samples, items_of-samples, samples-AllFit,
  samples-IsSample, FitsMessage-AllJoy, messages-Consistent,
}
use tri_drishti_chrono_cap.Programs.EndToEnd.Loop.{
  ends, events_of, main_loop-run_events, push_all-Holds,
}
use tri_drishti_chrono_cap.Programs.EndToEnd.Record.{joy_table, Recording, recorder_main-file}

-- The replayer on the file of a session with messages' records publishes the messages.
replayer_main-file :
    (m : JoyMsgs) (advertise : TopicTraits → Bool) (now start : ℕ) (xs : List (Message m))
    → All (FitsMessage m) xs
    → advertise joy_traits ≡ true
    → (pubs : List (Publication m)) × (replayer_main m (record {
      argc = 2;
      setup_ok = true;
      advertise = advertise;
      file = some (file_bytes now joy_table (map (item_of_message m) xs));
      start = start;
    })
        ≡ some (Replayer.returned 0 pubs))
      × (map (published m) pubs ≡ map (seen m) xs)
unfolding replayer_main play_all
replayer_main-file m advertise now start xs fits up =
    let items = map (item_of_message m) xs in
    let (r, parse, names, plays_them) =
      open_read_back now start joy_table items (on_topic_found advertise all_topics)
        (messages-Consistent m xs fits) (on_topic_found-joy advertise up, tt) in
    (
      replay m all_topics (plays start items) [],
      rw (parse, replayer_main, play_all, names, plays_them) refl,
      replay-plays m start xs (FitsMessage-AllJoy m xs fits),
    )

All-append {ℓ κ} :
    {A : Type ℓ} (P : A → Type κ) (xs ys : List A) → All P xs → All P ys → All P (xs ++ ys)
All-append P [] ys f g = g
All-append P (x ∷ xs) ys (p, f) g = (p, All-append P xs ys f g)

All-front {ℓ κ} : {A : Type ℓ} (P : A → Type κ) (xs ys : List A) → All P (xs ++ ys) → All P xs
All-front P [] ys f = tt
All-front P (x ∷ xs) ys (p, f) = (p, All-front P xs ys f)

-- Record, then replay. Let nothing fail in the recording: HOME is set and the log's directory made, the
-- configuration loads and enables the topic, the runtime sets up, subscribes and ends the loop, the file
-- is created on a disk that takes all bytes, in any number of parts, the messages' members fit their C
-- types, the writer's ring has room for what arrives before `Open`, and is full at no later push; and let the replayer's runtime set up and
-- advertise. Then for any interleaving of the messages' callbacks and the steps of the writer's thread,
-- the recorder's `main` returns 0; and the replayer's `main`, on the file that it leaves, returns 0 and
-- has published every message that arrived before `Close`, before `Open` or after, and then a first part
-- of those that arrived beside `Close`, each once, in order of arrival, with its stamp and the nine
-- members that the codec handles; and none of the messages whose callbacks run after `Close`, whatever
-- they are.
pub record_then_replay :
    (m : JoyMsgs) (fd : Descriptor) (world : World) (before during beside : List (Message m))
    (advertise : TopicTraits → Bool) (start : ℕ)
    → IsReliable fd
    → Recording m fd world before during beside
    → advertise joy_traits ≡ true
    → (s2 : Session) × (pubs : List (Publication m)) × (first lost : List (Message m))
      × (recorder_main fd world ≡ some (returned 0 s2))
      × (replayer_main m (record {
        argc = 2;
        setup_ok = true;
        advertise = advertise;
        file = some s2.writer.disk.bytes;
        start = start;
      })
          ≡ some (Replayer.returned 0 pubs))
      × (beside ≡ first ++ lost)
      × (map (published m) pubs ≡ map (seen m) ((before ++ during) ++ first))
record_then_replay m fd world before during beside advertise start ok r up =
    let (s2, first, lost, e, cut, bytes) = recorder_main-file ok r in
    let fits = All-append (FitsMessage m) (before ++ during) first r.fits (
      All-front (FitsMessage m) first lost
        (subst (λ l. All (FitsMessage m) l) cut r.fits_beside)) in
    let (pubs, e', same) =
      replayer_main-file m advertise world.now start ((before ++ during) ++ first) fits up in
    (
      s2,
      pubs,
      first,
      lost,
      e,
      subst
          (λ b.
            replayer_main m (record {
              argc = 2;
              setup_ok = true;
              advertise = advertise;
              file = some b;
              start = start;
            })
            ≡ some (Replayer.returned 0 pubs))
          (sym bytes) e',
      cut,
      same,
    )
