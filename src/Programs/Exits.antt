-- ===== src/Programs/Exits.antt =====
-- The recorder leaves nothing open, whichever way it returns.
use tri_drishti_chrono_cap.Common.{
  ℕ, ◌≡◌, refl, subst, if◌then◌else◌, Bool, Bool-cases, inl, inr, true, false, not, Option, none,
  some, [],
}
use tri_drishti_chrono_cap.Config.{LoadResult, loaded, failed, threw, ConfigMap, load_from_file}
use tri_drishti_chrono_cap.Systems.{Setup, all_topics, on_setup}
use tri_drishti_chrono_cap.Writer.Output.{Descriptor}
use tri_drishti_chrono_cap.Writer.Thread.{Session}
use tri_drishti_chrono_cap.Writer.Lifecycle.{open_session, close, close_beside}
use tri_drishti_chrono_cap.Writer.Lifecycle.Closed.{IsClosed, Closes, close-Closes}
use tri_drishti_chrono_cap.Programs.LogFile.{
  LogSetup, configured, no_home, not_created, configer_logger,
}
use tri_drishti_chrono_cap.Programs.Recorder.{
  running, World, Exit, returned, aborted, push_all, main_loop, return_with, record_session,
  run_system, configure_system, recorder_main, file_created, new_session, new_writer,
}

abbrev Leaves : Option Exit → Type 0
Leaves none = Unit
Leaves (some aborted) = Unit
Leaves (some (returned code s)) = IsClosed s

module _ (fd : Descriptor) where
  return_with-Leaves :
      (world : World) (code : ℕ) (s : Session) → Leaves (return_with fd world code s)
  unfolding return_with
  return_with-Leaves world code s =
      let at_end = push_all s world.late in
      by_close (close fd world.clock at_end) (close-Closes fd world.clock at_end)
    where
      by_close :
          (o : Option Session)
          → Closes o
          → Leaves (elim o [ none ↦ none | some s' ↦ some (returned code s') ])
      by_close none c = tt
      by_close (some s') c = c

  record_session-Leaves :
      (world : World) (setup : Setup) (s : Session) → Leaves (record_session fd world setup s)
  unfolding record_session
  record_session-Leaves world setup s =
      by_open
        (open_session fd (file_created world) world.now world.steady_now s setup.enabled_topics)
    where
      by_second :
          (o : Option Session)
          → Leaves (elim o [ none ↦ none | some s2 ↦ return_with fd world 0 s2 ])
      by_second none = tt
      by_second (some s2) = return_with-Leaves world 0 s2

      by_loop :
          (o : Option Session)
          → Leaves (elim o [
            | none ↦ none
            | some s1 ↦ (elim (close_beside fd world.clock world.closing s1) [
              | none ↦ none
              | some s2 ↦ return_with fd world 0 s2
            ])
          ])
      by_loop none = tt
      by_loop (some s1) = by_second (close_beside fd world.clock world.closing s1)

      by_open :
          (o : Option (Session × Bool))
          → Leaves (elim o [
            | none ↦ none
            | some (s0, ok) ↦
                if not ok
                then return_with fd world 1 s0
                else (elim (main_loop fd (running world) s0 world.rounds) [
                  | none ↦ none
                  | some s1 ↦ (elim (close_beside fd world.clock world.closing s1) [
                    | none ↦ none
                    | some s2 ↦ return_with fd world 0 s2
                  ])
                ])
          ])
      by_open none = tt
      by_open (some (s0, true)) = by_loop (main_loop fd (running world) s0 world.rounds)
      by_open (some (s0, false)) = return_with-Leaves world 1 s0

  run_system-Leaves :
      (world : World) (config : ConfigMap) (s : Session) → Leaves (run_system fd world config s)
  unfolding run_system
  run_system-Leaves world config s =
      elim (Bool-cases (world.setup_result (on_setup world.subscribe config all_topics).ok)) [
        | inl t ↦ rw t (record_session-Leaves world _ _)
        | inr f ↦ rw f (return_with-Leaves world 1 s)
      ]

  configure_system-Leaves :
      (world : World) (s : Session) → IsClosed s → Leaves (configure_system fd world s)
  unfolding configure_system
  configure_system-Leaves world s c = by_result (load_from_file [] world.document).1
    where
      by_result :
          (result : LoadResult)
          → Leaves (elim result [
            | loaded ↦ run_system fd world (load_from_file [] world.document).0 s
            | failed ↦ some (returned 1 s)
            | threw ↦ some aborted
          ])
      by_result loaded = run_system-Leaves world _ s
      by_result failed = c
      by_result threw = tt

  recorder_main-Leaves : (world : World) → Leaves (recorder_main fd world)
  unfolding recorder_main new_writer
  recorder_main-Leaves world = by_log (configer_logger world.home world.log_time world.creates)
    where
      by_log :
          (o : LogSetup)
          → Leaves (elim o [
            | configured path ↦ configure_system fd world new_session
            | no_home ↦ some aborted
            | not_created ↦ some aborted
          ])
      by_log (configured path) =
          configure_system-Leaves world new_session (record { is_open = refl; joinable = refl })
      by_log no_home = tt
      by_log not_created = tt

-- However the recorder's `main` returns, on an error or at the end, whatever the disk and the callbacks
-- did, the writer's file is closed and its thread joined.
pub recorder_main_closes :
    (fd : Descriptor) (world : World) (s : Session) (code : ℕ)
    → recorder_main fd world ≡ some (returned code s)
    → (s.writer.is_open ≡ false) × (s.writer.joinable ≡ false)
recorder_main_closes fd world s code e =
    let closed : IsClosed s = subst Leaves e (recorder_main-Leaves fd world) in
    (closed.is_open, closed.joinable)
