-- ===== src/Tests/OneRound.antt =====
-- A recording of one round, with a message before `Open`, one in the round, one beside `Close` and one
-- behind it.
use tri_drishti_chrono_cap.Common.{
  ◌≡◌, refl, arith, ◌∙◌, ap, subst, sym, if◌then◌else◌, true, false, Option, none, some, [], ◌∷◌,
  ◌++◌,
}
use tri_drishti_chrono_cap.Payload.RoundTrip.{FitsJoy}
use tri_drishti_chrono_cap.Config.{load_from_file, load_entries, lookup, is_enabled}
use tri_drishti_chrono_cap.Ring.Fifo.{Holds}
use tri_drishti_chrono_cap.Ring.Refine.{push_refines, fresh-Holds}
use tri_drishti_chrono_cap.Ring.Runs.{queue_push}
use tri_drishti_chrono_cap.Writer.{writer_push}
use tri_drishti_chrono_cap.Writer.Thread.{
  Session, produce, tick, at_check, at_pop, at_final_pop, push_step, step_at, run_events,
  NoneDropped,
}
use tri_drishti_chrono_cap.Writer.Thread.Pushed.{items_of}
use tri_drishti_chrono_cap.Writer.Lifecycle.{open_session, stopping}
use tri_drishti_chrono_cap.Writer.Lifecycle.Lossless.{opened_lem}
use tri_drishti_chrono_cap.Systems.{joy_traits}
use tri_drishti_chrono_cap.Systems.Callbacks.{Message, sample_of}
use tri_drishti_chrono_cap.Systems.Callbacks.Republish.{sample_of-IsSample}
use tri_drishti_chrono_cap.Programs.Recorder.{
  running, World, signal_handler, signal_all, push_all, new_session, new_writer,
}
use tri_drishti_chrono_cap.Programs.EndToEnd.Record.{Recording, joy_table}
use tri_drishti_chrono_cap.Programs.EndToEnd.Sent.{samples}
use tri_drishti_chrono_cap.Programs.EndToEnd.Loop.{ends, events_of, push_all-Holds}
use tri_drishti_chrono_cap.Writer.Lifecycle.AnyDisk.{Pushes}
use tri_drishti_chrono_cap.Programs.SessionName.{Tm, IsTm}
use tri_drishti_chrono_cap.Tests.Data.{pressed, bare_joy, five_at_once, five_at_once-IsRegularFile}

abbrev pub new_year : Tm
new_year = record {
  tm_year = 126;
  tm_mon = 0;
  tm_mday = 1;
  tm_hour = 0;
  tm_min = 0;
  tm_sec = 7;
  tm_isdst = false;
}

pub new_year-IsTm : IsTm new_year
new_year-IsTm = record {
  year = omega arith;
  mon = omega arith;
  mday = omega arith;
  hour = omega arith;
  min = omega arith;
  sec = omega arith;
}

abbrev pub first_message : Message bare_joy
first_message = record { stamp_ns = 100; seq = 0; value = pressed }

abbrev pub second_message : Message bare_joy
second_message = record { stamp_ns = 250; seq = 1; value = record pressed { axis2 = 7 } }

abbrev pub third_message : Message bare_joy
third_message = record { stamp_ns = 300; seq = 2; value = pressed }

pub pressed-FitsJoy : FitsJoy pressed
pressed-FitsJoy = record { timestamp = omega arith; axis0 = omega arith; axis2 = omega arith }

pub second-FitsJoy : FitsJoy second_message.value
second-FitsJoy = record { timestamp = omega arith; axis0 = omega arith; axis2 = omega arith }

-- No entry in the configuration, one message before `Open`, one in the only round, then the signal,
-- one beside `Close` and one behind it.
abbrev pub one_round : World
one_round = record {
  home = some (b'/' ∷ b'r' ∷ []);
  log_time = new_year;
  creates = λ path. true;
  document = record { opens = true; parses = true; entries = some [] };
  subscribe = λ t. true;
  setup_result = λ ok. ok;
  session_time = record new_year { tm_sec = 9 };
  created = λ path. true;
  now = 5;
  steady_now = 6;
  clock = λ n. 10;
  early = sample_of bare_joy joy_traits first_message ∷ [];
  signals = 1 ∷ [];
  rounds =
      record {
        tick_ok = true;
        events = produce (sample_of bare_joy joy_traits second_message) ∷ tick 7 ∷ [];
        signals = 2 ∷ [];
      }
      ∷ [];
  closing = produce (sample_of bare_joy joy_traits third_message) ∷ tick 8 ∷ [];
  late = sample_of bare_joy joy_traits second_message ∷ [];
}

early_held :
    Holds 12 0 (push_all new_session one_round.early).writer.ring ([] ++ items_of one_round.early)
    × ((push_all new_session one_round.early).writer.joinable ≡ false)
unfolding sample_of new_writer
early_held =
    push_all-Holds one_round.early new_session [] (fresh-Holds 12)
      (sample_of-IsSample bare_joy first_message, tt) (omega arith, tt) (omega arith)

second_held :
    (s0 : Session)
    → open_session five_at_once true 5 6 (push_all new_session one_round.early) joy_table
      ≡ some (s0, true)
    → (s0.pc ≡ at_check)
      × ((writer_push s0.writer (sample_of bare_joy joy_traits second_message)).1 ≡ true)
      × Holds 12 0
          (push_step s0 (sample_of bare_joy joy_traits second_message)).writer.ring
          (items_of (samples bare_joy (first_message ∷ second_message ∷ [])))
unfolding writer_push queue_push sample_of
second_held s0 e =
    let (held, idle) = early_held in
    let o =
      opened_lem five_at_once-IsRegularFile 5 6 (push_all new_session one_round.early) s0 joy_table
        idle e in
    let (pc, rec, sh, jn) = o.started in
    let (took, h) =
      push_refines 12 (omega arith) (sample_of bare_joy joy_traits second_message)
        (subst (λ r. Holds 12 0 r ([] ++ items_of one_round.early)) (sym o.ring) held)
        (sample_of-IsSample bare_joy second_message) (λ _. omega arith) in
    (pc, took, h)

one_round-NoneDropped :
    (s0 : Session)
    → open_session five_at_once true 5 6 (push_all new_session one_round.early) joy_table
      ≡ some (s0, true)
    → NoneDropped five_at_once s0
        (produce (sample_of bare_joy joy_traits second_message) ∷ tick 7 ∷ [])
one_round-NoneDropped s0 e =
    let (pc, took, h) = second_held s0 e in
    (sample_of-IsSample bare_joy second_message, λ _. took, λ s1 _. tt)

closing-NoneDropped :
    (s0 s1 : Session)
    → open_session five_at_once true 5 6 (push_all new_session one_round.early) joy_table
      ≡ some (s0, true)
    → run_events five_at_once s0
        (produce (sample_of bare_joy joy_traits second_message) ∷ tick 7 ∷ [])
      ≡ some s1
    → NoneDropped five_at_once (stopping s1) one_round.closing
unfolding writer_push queue_push sample_of run_events step_at
closing-NoneDropped s0 s1 e e1 =
    let (pc, took, h) = second_held s0 e in
    let pushed = push_step s0 (sample_of bare_joy joy_traits second_message) in
    let ran : run_events five_at_once s0
          (produce (sample_of bare_joy joy_traits second_message) ∷ tick 7 ∷ [])
        ≡ some
            (record pushed { pc = if pushed.writer.shutdown then at_final_pop else at_pop false }) =
      ap
        (λ p. elim (step_at five_at_once p 7 pushed.writer pushed.rec) [
          | none ↦ none
          | some s' ↦ some s'
        ])
        pc in
    let same : pushed.writer.ring ≡ s1.writer.ring =
      ap (λ (o : Option Session). elim o [ none ↦ s1.writer.ring | some t ↦ t.writer.ring ])
        (sym ran ∙ e1) in
    let (took_third, h3) =
      push_refines 12 (omega arith) (sample_of bare_joy joy_traits third_message)
        (subst
          (λ r. Holds 12 0 r (items_of (samples bare_joy (first_message ∷ second_message ∷ []))))
          same h)
        (sample_of-IsSample bare_joy third_message) (λ _. omega arith) in
    (sample_of-IsSample bare_joy third_message, λ _. took_third, λ s2 _. tt)

pub one_round-Recording :
    Recording bare_joy five_at_once one_round
      (first_message ∷ [])
      (second_message ∷ [])
      (third_message ∷ [])
unfolding load_from_file load_entries is_enabled lookup signal_handler signal_all
one_round-Recording = record {
  home = b'/' ∷ b'r' ∷ [];
  at_home = refl;
  creates = refl;
  loads = refl;
  enabled = refl;
  subscribed = refl;
  setup = refl;
  created = refl;
  early = refl;
  room = omega arith;
  ended = refl;
  sent = refl;
  sent_beside = refl;
  fits_beside = (record { stamp_ns = omega arith; seq = omega arith; value = pressed-FitsJoy }, tt);
  fits = (
    record { stamp_ns = omega arith; seq = omega arith; value = pressed-FitsJoy },
    (record { stamp_ns = omega arith; seq = omega arith; value = second-FitsJoy }, tt),
  );
  kept = one_round-NoneDropped;
  kept_beside = closing-NoneDropped;
}

pub one_round-ends : ends (running one_round) one_round.rounds ≡ true
unfolding signal_handler signal_all
one_round-ends = refl

pub one_round-Pushes : Pushes (events_of (running one_round) one_round.rounds)
unfolding signal_handler signal_all
one_round-Pushes = (sample_of-IsSample bare_joy second_message, tt)
