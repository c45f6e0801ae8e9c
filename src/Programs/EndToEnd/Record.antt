-- ===== src/Programs/EndToEnd/Record.antt =====
-- A recording in which nothing fails: what the recorder's `main` returns and leaves in the file.
use tri_drishti_chrono_cap.Common.{
  ℕ, suc, ap₂, ◌≤◌, ◌^◌, ◌≡◌, refl, ap, subst, sym, ◌∙◌, arith, true, some, List, [], ◌∷◌, ◌++◌,
  map, length, All,
}
use mathlib.Core.List.{map-append}
use tri_drishti_chrono_cap.Payload.{JoyMsgs}
use tri_drishti_chrono_cap.Config.{loaded, load_from_file, is_enabled}
use tri_drishti_chrono_cap.Ring.{Sample}
use tri_drishti_chrono_cap.Ring.Queue.{IsSample}
use tri_drishti_chrono_cap.Ring.Refine.{fresh-Holds}
use tri_drishti_chrono_cap.Writer.{TopicInfo, writer_push}
use tri_drishti_chrono_cap.Writer.Output.{Descriptor, IsReliable}
use tri_drishti_chrono_cap.Writer.Format.{file_bytes}
use tri_drishti_chrono_cap.Writer.Thread.{Session, push_step, run_events, taken, NoneDropped}
use tri_drishti_chrono_cap.Writer.Thread.Pushed.{pushes, items_of, AllFit, taken-pushes}
use tri_drishti_chrono_cap.Writer.Lifecycle.{open_session, close, stopping, close_beside}
use tri_drishti_chrono_cap.Writer.Lifecycle.Overlap.{lossless_beside}
use tri_drishti_chrono_cap.Writer.Lifecycle.Succeeds.{open_session-true}
use tri_drishti_chrono_cap.Writer.Lifecycle.Closed.{IsClosed, close-IsClosed}
use tri_drishti_chrono_cap.Systems.{joy_traits, all_topics, info_of, on_setup}
use tri_drishti_chrono_cap.Systems.Callbacks.{Message}
use tri_drishti_chrono_cap.Systems.Callbacks.Republish.{item_of_message}
use tri_drishti_chrono_cap.Programs.LogFile.{log_dir, configer_logger}
use tri_drishti_chrono_cap.Programs.Recorder.{
  running, World, returned, push_all, main_loop, return_with, record_session, run_system,
  recorder_main, configure_system, file_created, new_session, new_writer,
}
use tri_drishti_chrono_cap.Programs.EndToEnd.Sent.{
  on_setup-joy, FitsMessage, samples, items_of-samples, samples-AllFit, samples-IsSample,
}
use tri_drishti_chrono_cap.Programs.EndToEnd.Loop.{
  ends, events_of, main_loop-run_events, push_all-Holds,
}

-- The table of a session with the one topic.
abbrev pub joy_table : List TopicInfo
joy_table = info_of joy_traits ∷ []

-- A recording in which nothing fails: the log's directory is there, the configuration loads and enables the topic, the runtime
-- subscribes, the file is created, the loop ends. `before`, `during` and `beside` are the messages that
-- arrive before `Open`, behind it, and beside `Close`; at `Open` the ring has room for the first, and no
-- later push meets a full ring.
pub record Recording (m : JoyMsgs) (fd : Descriptor) (world : World)
    (before during beside : List (Message m)) : Type 0 where
  pub home : List ℕ
  pub at_home : world.home ≡ some home
  pub creates : world.creates (log_dir home world.log_time) ≡ true
  pub loads : (load_from_file [] world.document).1 ≡ loaded
  pub enabled : is_enabled (load_from_file [] world.document).0 joy_traits.topic_name 4 ≡ true
  pub subscribed : world.subscribe joy_traits ≡ true
  pub setup : world.setup_result true ≡ true
  pub created : file_created world ≡ true
  pub early : world.early ≡ samples m before
  pub room : length before ≤ 2 ^ 12
  pub ended : ends (running world) world.rounds ≡ true
  pub sent : pushes (events_of (running world) world.rounds) ≡ samples m during
  pub sent_beside : pushes world.closing ≡ samples m beside
  pub fits : All (FitsMessage m) (before ++ during)
  pub fits_beside : All (FitsMessage m) beside
  pub kept :
      (s0 : Session)
      → open_session fd true world.now world.steady_now (push_all new_session world.early) joy_table
        ≡ some (s0, true)
      → NoneDropped fd s0 (events_of (running world) world.rounds)
  pub kept_beside :
      (s0 s1 : Session)
      → open_session fd true world.now world.steady_now (push_all new_session world.early) joy_table
        ≡ some (s0, true)
      → run_events fd s0 (events_of (running world) world.rounds) ≡ some s1
      → NoneDropped fd (stopping s1) world.closing

-- The path through `main` on which every step succeeds.
recorder_main_path :
    (fd : Descriptor) (world : World) (home : List ℕ) (s0 s1 s2 : Session)
    → world.home ≡ some home
    → world.creates (log_dir home world.log_time) ≡ true
    → (load_from_file [] world.document).1 ≡ loaded
    → on_setup world.subscribe (load_from_file [] world.document).0 all_topics
      ≡ record { enabled_topics = joy_table; ok = true }
    → world.setup_result true ≡ true
    → open_session fd
        (file_created world)
        world.now
        world.steady_now
        (push_all new_session world.early)
        joy_table
      ≡ some (s0, true)
    → main_loop fd (running world) s0 world.rounds ≡ some s1
    → close_beside fd world.clock world.closing s1 ≡ some s2
    → close fd world.clock (push_all s2 world.late) ≡ some (push_all s2 world.late)
    → recorder_main fd world ≡ some (returned 0 (push_all s2 world.late))
unfolding recorder_main configure_system run_system record_session return_with configer_logger
recorder_main_path fd world home s0 s1 s2 at_home creates loads setup ok begun loop shut again =
    rw
      (
        at_home, configer_logger, creates, recorder_main, loads, configure_system, run_system,
        setup, ok, record_session, begun, loop, shut, return_with, again,
      )
      refl

length-samples : (m : JoyMsgs) (xs : List (Message m)) → length (samples m xs) ≡ length xs
length-samples m [] = refl
length-samples m (x ∷ xs) = ap (λ n. suc n) (length-samples m xs)

-- Pushes behind `Close` stay in the ring.
push_all-IsClosed :
    (xs : List Sample) (s : Session)
    → IsClosed s
    → ((push_all s xs).writer.disk.bytes ≡ s.writer.disk.bytes) × IsClosed (push_all s xs)
unfolding push_all writer_push
push_all-IsClosed [] s c = (refl, c)
push_all-IsClosed (x ∷ xs) s c =
    push_all-IsClosed xs (push_step s x) (record { is_open = c.is_open; joinable = c.joinable })

-- A cut of the images is the images of a cut.
map-cut {ℓ ℓ'} :
    {A : Type ℓ} {B : Type ℓ'} (f : A → B) (xs : List A) (ys zs : List B)
    → map f xs ≡ ys ++ zs
    → (front back : List A) × (xs ≡ front ++ back) × (map f front ≡ ys)
map-cut f xs [] zs e = ([], xs, refl, refl)
map-cut f [] (y ∷ ys) zs e = absurd cc
map-cut f (x ∷ xs) (y ∷ ys) zs e =
    let same : f x ≡ y = cc in
    let rest : map f xs ≡ ys ++ zs = cc in
    let (front, back, g, h) = map-cut f xs ys zs rest in
    (x ∷ front, back, ap (λ l. x ∷ l) g, ap₂ (λ a l. a ∷ l) same h)

-- The recording returns 0 and leaves the file of a session with the records of the messages,
-- of those that arrive beside `Close` a first part.
pub recorder_main-file :
    {m : JoyMsgs} {fd : Descriptor} {world : World} {before during beside : List (Message m)}
    → IsReliable fd
    → Recording m fd world before during beside
    → (s2 : Session) × (first lost : List (Message m)) × (recorder_main fd world
        ≡ some (returned 0 s2))
      × (beside ≡ first ++ lost)
      × (s2.writer.disk.bytes
          ≡ file_bytes world.now joy_table (map (item_of_message m) ((before ++ during) ++ first)))
unfolding new_writer
recorder_main-file {m} {fd} {world} {before} {during} {beside} ok r =
    let (held, idle) =
      push_all-Holds world.early new_session [] (fresh-Holds 12)
        (subst (λ l. All IsSample l) (sym r.early) (samples-IsSample m before))
        (subst AllFit (sym r.early) (samples-AllFit m before))
        (omega (arith, r.room, ap length r.early, length-samples m before)) in
    let (s0, e0, o) =
      open_session-true ok world.now world.steady_now (push_all new_session world.early) joy_table
        idle in
    let events = events_of (running world) world.rounds in
    let (
      s1, s2, first_items, lost_items, e1, e2, bytes, split, runs, held2, synced, closed, joined,
    ) =
      lossless_beside ok world.now world.steady_now world.clock (push_all new_session world.early)
        s0 joy_table events world.closing idle (items_of world.early) held e0 (r.kept s0 e0)
        (λ s1 e1. r.kept_beside s0 s1 e0 e1) in
    let took : taken fd s0 events ≡ items_of (samples m during) =
      taken-pushes fd events s0 (λ n. let q = sym e1 ∙ n in cc) (r.kept s0 e0)
        (subst AllFit (sym r.sent) (samples-AllFit m during))
      ∙ ap items_of r.sent in
    let took_beside : map (item_of_message m) beside ≡ first_items ++ lost_items =
      sym (
        taken-pushes fd world.closing (stopping s1) runs (r.kept_beside s0 s1 e0 e1)
          (subst AllFit (sym r.sent_beside) (samples-AllFit m beside))
        ∙ ap items_of r.sent_beside
        ∙ items_of-samples m beside)
      ∙ split in
    let (first, lost, cut, first_lem) =
      map-cut (item_of_message m) beside first_items lost_items took_beside in
    let (kept, c) =
      push_all-IsClosed world.late s2 (record { is_open = closed; joinable = joined }) in
    (
      push_all s2 world.late,
      first,
      lost,
      recorder_main_path fd world r.home s0 s1 s2 r.at_home r.creates r.loads
          (on_setup-joy world.subscribe (load_from_file [] world.document).0 r.enabled r.subscribed)
          r.setup
          (subst
            (λ b.
              open_session fd b world.now world.steady_now (push_all new_session world.early)
                joy_table
              ≡ some (s0, true))
            (sym r.created) e0)
          (main_loop-run_events fd (running world) world.rounds s0 r.ended ∙ e1) e2
          (close-IsClosed fd world.clock _ c),
      cut,
      kept
          ∙ bytes
          ∙ ap (file_bytes world.now joy_table) (
              ap₂ (λ a b. a ++ b)
                (ap₂ (λ a b. a ++ b) (ap items_of r.early ∙ items_of-samples m before)
                    (took ∙ items_of-samples m during)
                  ∙ sym (map-append (item_of_message m) before during))
                (sym first_lem)
              ∙ sym (map-append (item_of_message m) (before ++ during) first)),
    )
