-- ===== src/Tests/Programs.antt =====
-- Witnesses for the two programs, and for what they do with a message.
use tri_drishti_chrono_cap.Common.{
  Bool, ◌≡◌, refl, arith, true, false, some, List, [], ◌∷◌, ◌++◌, map, length, drop, ◌+◌,
}
use tri_drishti_chrono_cap.Config.{load_from_file, load_entries}
use tri_drishti_chrono_cap.Writer.Thread.{Session}
use tri_drishti_chrono_cap.Writer.Lifecycle.{close}
use tri_drishti_chrono_cap.Systems.Callbacks.{Message, Publication}
use tri_drishti_chrono_cap.Systems.Callbacks.Republish.{sample_of-IsSample, seen, published}
use tri_drishti_chrono_cap.Programs.Recorder.{
  World, Exit, returned, push_all, return_with, run_system, configure_system, recorder_main,
  new_session, new_writer,
}
use tri_drishti_chrono_cap.Programs.Replayer.{Playback, replayer_main}
use tri_drishti_chrono_cap.Programs.Replayer
use tri_drishti_chrono_cap.Programs.Exits.{recorder_main_closes}
use tri_drishti_chrono_cap.Programs.EndToEnd.{record_then_replay}
use tri_drishti_chrono_cap.Programs.Returns.{recorder_main_returns}
use tri_drishti_chrono_cap.Programs.SessionName.{
  make_session_base_name, read_tm, session_name_read_back,
}
use tri_drishti_chrono_cap.Programs.LogFile.{log_dir, log_file, configer_logger, codes}
use tri_drishti_chrono_cap.Programs.LogFile.ReadBack.{log_file_read_back}
use tri_drishti_chrono_cap.Tests.Data.{
  bare_joy, five_at_once, five_at_once-IsRegularFile, five_at_once-IsReliable,
}
use tri_drishti_chrono_cap.Tests.OneRound.{
  new_year, new_year-IsTm, first_message, second_message, third_message, one_round,
  one_round-Recording, one_round-ends, one_round-Pushes,
}

session_name_read_back_example :
    (length (make_session_base_name new_year) ≡ 25)
    × (read_tm false (make_session_base_name new_year) ≡ new_year)
    × ((isdst : Bool)
        → make_session_base_name (record new_year { tm_isdst = isdst })
          ≡ make_session_base_name new_year)
session_name_read_back_example = session_name_read_back new_year new_year-IsTm

record_then_replay_example :
    (s2 : Session) × (pubs : List (Publication bare_joy)) × (first : List (Message bare_joy))
    × (lost : List (Message bare_joy)) × (recorder_main five_at_once one_round
        ≡ some (returned 0 s2))
    × (replayer_main bare_joy (record {
      argc = 2;
      setup_ok = true;
      advertise = λ t. true;
      file = some s2.writer.disk.bytes;
      start = 1000;
    })
        ≡ some (Replayer.returned 0 pubs))
    × ((third_message ∷ []) ≡ first ++ lost)
    × (map (published bare_joy) pubs
        ≡ map (seen bare_joy) (((first_message ∷ []) ++ (second_message ∷ [])) ++ first))
record_then_replay_example =
    record_then_replay bare_joy five_at_once one_round (first_message ∷ []) (second_message ∷ [])
      (third_message ∷ []) (λ t. true) 1000 five_at_once-IsReliable one_round-Recording refl

-- A runtime whose set-up fails.
abbrev no_setup : World
no_setup = record one_round {
  setup_result = λ ok. false;
  early = [];
  rounds = [];
  closing = [];
  late = [];
}

no_setup_lem : recorder_main five_at_once no_setup ≡ some (returned 1 new_session)
unfolding recorder_main configure_system run_system return_with push_all load_from_file load_entries
    close configer_logger new_writer
no_setup_lem = refl

recorder_main_closes_example :
    (new_session.writer.is_open ≡ false) × (new_session.writer.joinable ≡ false)
recorder_main_closes_example = recorder_main_closes five_at_once no_setup new_session 1 no_setup_lem

log_file_read_back_example :
    (log_file (b'/' ∷ b'r' ∷ []) new_year
      ≡ log_dir (b'/' ∷ b'r' ∷ []) new_year
        ++ (codes "/" ++ (drop 10 (make_session_base_name new_year) ++ codes ".log")))
    × (length (log_file (b'/' ∷ b'r' ∷ []) new_year) ≡ 2 + 55)
    × (read_tm false (drop (2 + 26) (log_file (b'/' ∷ b'r' ∷ []) new_year)) ≡ new_year)
    × ((isdst : Bool)
        → log_file (b'/' ∷ b'r' ∷ []) (record new_year { tm_isdst = isdst })
          ≡ log_file (b'/' ∷ b'r' ∷ []) new_year)
log_file_read_back_example =
    log_file_read_back (b'/' ∷ b'r' ∷ []) new_year new_year-IsTm (omega arith)

recorder_main_returns_example : (exit : Exit) × (recorder_main five_at_once one_round ≡ some exit)
recorder_main_returns_example =
    recorder_main_returns five_at_once one_round five_at_once-IsRegularFile one_round-ends
      (sample_of-IsSample bare_joy first_message, tt) one_round-Pushes
      (sample_of-IsSample bare_joy third_message, tt)
