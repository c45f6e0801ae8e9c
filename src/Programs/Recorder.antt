-- ===== src/Programs/Recorder.antt =====
-- src/i2wRecorder.cpp, `main`: the log, the configuration, set-up, `Open`, the loop of ticks, `Close`.
use tri_drishti_chrono_cap.Common.{
  ℕ, ◌==◌, if◌then◌else◌, Bool, true, false, not, Option, none, some, List, [], ◌∷◌, ◌++◌, ◌*◌,
}
use tri_drishti_chrono_cap.Config.{Document, loaded, failed, threw, ConfigMap, load_from_file}
use tri_drishti_chrono_cap.Systems.{TopicTraits, Setup, all_topics, on_setup}
use tri_drishti_chrono_cap.Ring.{Sample, empty_record, fresh}
use tri_drishti_chrono_cap.Writer.{RecordWriter, ring_bits}
use tri_drishti_chrono_cap.Writer.Output.{Descriptor}
use tri_drishti_chrono_cap.Writer.Thread.{Session, exited, Event, push_step, run_events}
use tri_drishti_chrono_cap.Writer.Lifecycle.{open_session, close, close_beside}
use tri_drishti_chrono_cap.Programs.SessionName.{Tm, make_session_base_name}
use tri_drishti_chrono_cap.Programs.LogFile.{configured, no_home, not_created, configer_logger}

-- `SIGINT`
abbrev pub sigint : ℕ
sigint = 2

-- `SignalHandler`: the new value of `g_running`.
unfoldable pub signal_handler : Bool → ℕ → Bool
signal_handler running signal = if signal == sigint then false else running

unfoldable pub signal_all : Bool → List ℕ → Bool
signal_all running [] = running
signal_all running (signal ∷ signals) = signal_all (signal_handler running signal) signals

-- One round of the loop: what `Tick` gives, and what happens in it and until `g_running` is read again,
-- or until the loop's `break`.
pub record Round : Type 0 where
  pub tick_ok : Bool
  pub events : List Event
  pub signals : List ℕ

-- What `main` meets: HOME and create_directories for the log, the configuration file, the runtime,
-- open(2) for a path, the clocks, the pushes of callbacks between the set-up and `Open`, the
-- signals that come before the loop, the rounds, what happens beside the loop's `Close`, and the pushes between it, or the call that
-- failed, and the end of the system, which goes before the writer does.
pub record World : Type 0 where
  pub home : Option (List ℕ)
  pub log_time : Tm
  pub creates : List ℕ → Bool
  pub document : Document
  pub subscribe : TopicTraits → Bool
  pub setup_result : Bool → Bool
  pub session_time : Tm
  pub created : List ℕ → Bool
  pub now : ℕ
  pub steady_now : ℕ
  pub clock : ℕ → ℕ
  pub early : List Sample
  pub signals : List ℕ
  pub rounds : List Round
  pub closing : List Event
  pub late : List Sample

-- `g_running` when the loop first reads it.
abbrev pub running : World → Bool
running world = signal_all true world.signals

-- `session_base + ".bin"` in `Open`
abbrev pub bin_path : List ℕ → List ℕ
bin_path session_base = session_base ++ (b'.' ∷ b'b' ∷ b'i' ∷ b'n' ∷ [])

-- Whether `Open` gets a descriptor for the session's file.
abbrev pub file_created : World → Bool
file_created world = world.created (bin_path (make_session_base_name world.session_time))

-- A writer as it is constructed, with a flush interval of 100 milliseconds.
unfoldable pub new_writer : RecordWriter
new_writer = record {
  ring = fresh ring_bits;
  shutdown = false;
  joinable = false;
  is_open = false;
  pending_since_flush = 0;
  last_flush = 0;
  flush_interval = 100 * 1000000;
  disk = record { bytes = []; calls = 0 };
  synced = 0;
}

abbrev pub new_session : Session
new_session = record { writer = new_writer; pc = exited; rec = empty_record }

-- How `main` ends: it returns a code and leaves the writer destroyed, or an exception ends it.
pub data Exit : Type 0 where
  returned : ℕ → Session → Exit
  aborted : Exit

unfoldable pub push_all : Session → List Sample → Session
push_all s [] = s
push_all s (x ∷ xs) = push_all (push_step s x) xs

module _ (fd : Descriptor) where
  -- The loop on `g_running`; `none`: it has not ended with the last round, or a write does not return.
  unfoldable pub main_loop : Bool → Session → List Round → Option Session
  main_loop false s rounds = some s
  main_loop true s [] = none
  main_loop true s (r ∷ rounds) = elim (run_events fd s r.events) [
    | none ↦ none
    | some s' ↦
        let rest = main_loop (signal_all true r.signals) s' rounds in
        if not r.tick_ok then some s' else rest
  ]

  -- A return from `main`: the system ends, then the writer's destructor closes it.
  unfoldable pub return_with : World → ℕ → Session → Option Exit
  return_with world code s = elim (close fd world.clock (push_all s world.late)) [
    | none ↦ none
    | some s' ↦ some (returned code s')
  ]

  -- From `Open` on.
  unfoldable pub record_session : World → Setup → Session → Option Exit
  record_session world setup s =
      elim (open_session fd (file_created world) world.now world.steady_now s
        setup.enabled_topics) [
          | none ↦ none
          | some (s0, ok) ↦
              if not ok
              then return_with world 1 s0
              else (elim (main_loop (running world) s0 world.rounds) [
                | none ↦ none
                | some s1 ↦ (elim (close_beside fd world.clock world.closing s1) [
                  | none ↦ none
                  | some s2 ↦ return_with world 0 s2
                ])
              ])
        ]

  -- From the set-up on.
  unfoldable pub run_system : World → ConfigMap → Session → Option Exit
  run_system world config s =
      let setup = on_setup world.subscribe config all_topics in
      if not (world.setup_result setup.ok)
      then return_with world 1 s
      else record_session world setup (push_all s world.early)

  -- From the configuration on.
  unfoldable pub configure_system : World → Session → Option Exit
  configure_system world s =
      let (config, result) = load_from_file [] world.document in
      elim result [
        | loaded ↦ run_system world config s
        | failed ↦ some (returned 1 s)
        | threw ↦ some aborted
      ]

  -- Without HOME, or with an exception of create_directories, `main` does not get further.
  unfoldable pub recorder_main : World → Option Exit
  recorder_main world = elim (configer_logger world.home world.log_time world.creates) [
    | configured path ↦ configure_system world new_session
    | no_home ↦ some aborted
    | not_created ↦ some aborted
  ]
