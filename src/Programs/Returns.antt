-- ===== src/Programs/Returns.antt =====
-- The recorder's `main` ends, whatever the disk does, once its loop does.
use tri_drishti_chrono_cap.Common.{
  ℕ, ◌≡◌, refl, ap, ◌∙◌, subst, Bool-cases, inl, inr, true, false, Option, some, List, [], ◌∷◌, All,
}
use tri_drishti_chrono_cap.Config.{LoadResult, loaded, failed, threw, ConfigMap, load_from_file}
use tri_drishti_chrono_cap.Systems.{Setup, all_topics, on_setup}
use tri_drishti_chrono_cap.Ring.{Sample}
use tri_drishti_chrono_cap.Ring.Queue.{IsSample}
use tri_drishti_chrono_cap.Ring.Conserve.{IsRing, push_conserve}
use tri_drishti_chrono_cap.Ring.Refine.{fresh-Holds}
use tri_drishti_chrono_cap.Writer.{writer_push}
use tri_drishti_chrono_cap.Writer.Output.{Descriptor, IsRegularFile}
use tri_drishti_chrono_cap.Writer.Thread.{Session, push_step}
use tri_drishti_chrono_cap.Writer.Lifecycle.{open_session, close, close_file}
use tri_drishti_chrono_cap.Writer.Lifecycle.Lossless.{Begun, open_session_lem}
use tri_drishti_chrono_cap.Writer.Lifecycle.AnyDisk.{Pushes}
use tri_drishti_chrono_cap.Writer.Lifecycle.AnyClose.{close_beside_returns}
use tri_drishti_chrono_cap.Programs.LogFile.{
  LogSetup, configured, no_home, not_created, configer_logger,
}
use tri_drishti_chrono_cap.Programs.Recorder.{
  running, World, Exit, returned, aborted, push_all, return_with, record_session, run_system,
  configure_system, recorder_main, file_created, new_session, new_writer,
}
use tri_drishti_chrono_cap.Programs.EndToEnd.Loop.{ends, events_of, main_loop-run_events}

push_all-IsRing :
    (xs : List Sample) (s : Session)
    → All IsSample xs
    → IsRing 12 s.writer.ring
    → IsRing 12 (push_all s xs).writer.ring
unfolding push_all writer_push
push_all-IsRing [] s a v = v
push_all-IsRing (x ∷ xs) s (i, a) v =
    push_all-IsRing xs (push_step s x) a (push_conserve 12 s.writer.ring x v i).0

push_all-joinable :
    (xs : List Sample) (s : Session) → (push_all s xs).writer.joinable ≡ s.writer.joinable
unfolding push_all writer_push
push_all-joinable [] s = refl
push_all-joinable (x ∷ xs) s = push_all-joinable xs (push_step s x)

module _ (fd : Descriptor) where
  -- Without a thread there is nothing to wait for.
  close-joinable :
      (clock : ℕ → ℕ) (s : Session)
      → s.writer.joinable ≡ false
      → (s' : Session) × (close fd clock s ≡ some s')
  unfolding close
  close-joinable clock s j = (record s { writer = close_file s.writer }, rw j refl)

  abbrev Ends : Option Exit → Type 0
  Ends o = (exit : Exit) × (o ≡ some exit)

  return_with-Ends :
      (world : World) (code : ℕ) (s : Session)
      → s.writer.joinable ≡ false
      → Ends (return_with fd world code s)
  unfolding return_with
  return_with-Ends world code s j =
      let (s', e) =
        close-joinable world.clock (push_all s world.late) (push_all-joinable world.late s ∙ j) in
      (returned code s', rw (e, return_with) refl)

  module _ (law : IsRegularFile fd) (world : World)
      (over : ends (running world) world.rounds ≡ true)
      (pushes : Pushes (events_of (running world) world.rounds)) (last : Pushes world.closing) where
    record_session-Ends :
        (setup : Setup) (s : Session)
        → s.writer.joinable ≡ false
        → IsRing 12 s.writer.ring
        → Ends (record_session fd world setup s)
    unfolding record_session open_session
    record_session-Ends setup s j ring = elim (Bool-cases (file_created world)) [
      | inr missing ↦ rw (missing, record_session) (return_with-Ends world 1 _ j)
      | inl made ↦
          let (s0, done, opens, o) =
            open_session_lem law world.now world.steady_now s setup.enabled_topics j in
          elim (Bool-cases done) [
            | inr short ↦
                rw (made, opens, short, record_session)
                  (return_with-Ends world 1 s0 (subst (λ b. Begun b s0) short o.started))
            | inl whole ↦
                let begun : open_session fd true world.now world.steady_now s setup.enabled_topics
                    ≡ some (s0, true) =
                  opens ∙ ap (λ b. some (s0, b)) whole in
                let (s1, s2, runs, shuts, joined) =
                  close_beside_returns law world.now world.steady_now world.clock s s0
                    setup.enabled_topics (events_of (running world) world.rounds) world.closing j
                    ring begun pushes last in
                let loop = main_loop-run_events fd (running world) world.rounds s0 over ∙ runs in
                rw (made, begun, record_session, loop, shuts) (return_with-Ends world 0 s2 joined)
          ]
    ]

    run_system-Ends :
        (config : ConfigMap) (s : Session)
        → All IsSample world.early
        → s.writer.joinable ≡ false
        → IsRing 12 s.writer.ring
        → Ends (run_system fd world config s)
    unfolding run_system
    run_system-Ends config s early j ring =
        elim (Bool-cases (world.setup_result (on_setup world.subscribe config all_topics).ok)) [
          | inr f ↦ rw (f, run_system) (return_with-Ends world 1 s j)
          | inl t ↦
              rw (t, run_system)
                (record_session-Ends (on_setup world.subscribe config all_topics)
                  (push_all s world.early) (push_all-joinable world.early s ∙ j)
                  (push_all-IsRing world.early s early ring))
        ]

    configure_system-Ends :
        (s : Session)
        → All IsSample world.early
        → s.writer.joinable ≡ false
        → IsRing 12 s.writer.ring
        → Ends (configure_system fd world s)
    unfolding configure_system
    configure_system-Ends s early j ring = by_result (load_from_file [] world.document).1
      where
        by_result :
            (result : LoadResult)
            → Ends (elim result [
              | loaded ↦ run_system fd world (load_from_file [] world.document).0 s
              | failed ↦ some (returned 1 s)
              | threw ↦ some aborted
            ])
        by_result loaded = run_system-Ends _ s early j ring
        by_result failed = (returned 1 s, refl)
        by_result threw = (aborted, refl)

-- The recorder's `main` ends, by a return or by an exception, once its loop of ticks does, whatever HOME, the
-- configuration, the runtime and open(2) give, on a regular file whose writes may be short or fail at any
-- call, under any interleaving of the callbacks and the writer's thread, in which each push passes as
-- many bytes as it says, and whichever pushes are turned down.
pub recorder_main_returns :
    (fd : Descriptor) (world : World)
    → IsRegularFile fd
    → ends (running world) world.rounds ≡ true
    → All IsSample world.early
    → Pushes (events_of (running world) world.rounds)
    → Pushes world.closing
    → (exit : Exit) × (recorder_main fd world ≡ some exit)
unfolding recorder_main new_writer
recorder_main_returns fd world law over early pushes last =
    by_log (configer_logger world.home world.log_time world.creates)
  where
    by_log :
        (o : LogSetup)
        → Ends fd (elim o [
          | configured path ↦ configure_system fd world new_session
          | no_home ↦ some aborted
          | not_created ↦ some aborted
        ])
    by_log (configured path) =
        let h = fresh-Holds 12 in
        configure_system-Ends fd law world over pushes last new_session early refl
          (record { size = h.size; slots_ok = h.slots_ok })
    by_log no_home = (aborted, refl)
    by_log not_created = (aborted, refl)
