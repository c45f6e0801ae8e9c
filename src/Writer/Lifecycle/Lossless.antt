-- ===== src/Writer/Lifecycle/Lossless.antt =====
-- A whole session of the writer: what is in the file when `Close` returns.
use tri_drishti_chrono_cap.Common.{
  ℕ, ◌≡◌, refl, ap, sym, subst, ◌∙◌, arith, Bool, Bool-cases, inl, inr, true, false, Option, none,
  some, List, [], ◌++◌, append-nil, append_assoc, length,
}
use tri_drishti_chrono_cap.Ring.{empty_record}
use tri_drishti_chrono_cap.Ring.Queue.{Item}
use tri_drishti_chrono_cap.Ring.Fifo.{Holds}
use tri_drishti_chrono_cap.Wire.Header.Layout.{file_header_bytes}
use tri_drishti_chrono_cap.Writer.{TopicInfo}
use tri_drishti_chrono_cap.Writer.Output.{Descriptor, IsReliable, IsRegularFile}
use tri_drishti_chrono_cap.Writer.Format.{topics_bytes, session_header, file_bytes}
use tri_drishti_chrono_cap.Writer.Records.{IsRecord}
use tri_drishti_chrono_cap.Writer.Header.{Extended, all, write_file_header_and_metadata_lem}
use tri_drishti_chrono_cap.Writer.Thread.{at_check, Session, Event, run_events, taken, NoneDropped}
use tri_drishti_chrono_cap.Writer.Thread.Inv.{in_hand, Inv, final}
use tri_drishti_chrono_cap.Writer.Lifecycle.{open_session, close}
use tri_drishti_chrono_cap.Writer.Lifecycle.Drain.{run_events-Inv, close-Inv}

-- Where `Open` gave true, the thread stands at its start and has not been told to stop.
abbrev pub Begun : Bool → Session → Type 0
Begun true s0 =
    (s0.pc ≡ at_check)
    × (s0.rec ≡ empty_record)
    × (s0.writer.shutdown ≡ false)
    × (s0.writer.joinable ≡ true)
Begun false s0 = s0.writer.joinable ≡ false

-- What `Open` leaves: in the file, and in the session.
pub record Opened (now : ℕ) (topics : List TopicInfo) (s s0 : Session) (done : Bool) : Type 0 where
  pub file :
      Extended []
        (file_header_bytes (session_header now topics) ++ topics_bytes topics)
        s0.writer.disk.bytes
        done
  pub is_open : s0.writer.is_open ≡ true
  pub ring : s0.writer.ring ≡ s.writer.ring
  pub synced : s0.writer.synced ≡ 0
  pub started : Begun done s0

-- `Open` on a regular file that open(2) gave, with no thread running, returns. True: the file is
-- the header and the table, and the thread stands at its start; false: the file is a proper part
-- of them, and there is still no thread. The ring is as it was.
pub open_session_lem :
    {fd : Descriptor}
    → IsRegularFile fd
    → (now steady : ℕ) (s : Session) (topics : List TopicInfo) → s.writer.joinable ≡ false
    → (s0 : Session) × (done : Bool) × (open_session fd true now steady s topics ≡ some (s0, done))
      × Opened now topics s s0 done
unfolding open_session
open_session_lem {fd} law now steady s topics j =
    let opened = record s.writer {
      is_open = true;
      disk = record { bytes = []; calls = s.writer.disk.calls };
      synced = 0;
    } in
    let (d, done, e, x) = write_file_header_and_metadata_lem law now opened topics in
    elim (Bool-cases done) [
      | inl yes_done ↦ (
        record {
          writer = record opened {
            disk = d;
            last_flush = steady;
            shutdown = false;
            joinable = true;
          };
          pc = at_check;
          rec = empty_record;
        },
        true,
        rw (e, yes_done, j, open_session) refl,
        record {
          file =
              subst
                (λ b.
                  Extended [] (file_header_bytes (session_header now topics) ++ topics_bytes topics)
                    d.bytes b)
                yes_done x;
          is_open = refl;
          ring = refl;
          synced = refl;
          started = (refl, refl, refl, refl);
        },
      )
      | inr no_done ↦ (
        record s { writer = record opened { disk = d } },
        false,
        rw (e, no_done, open_session) refl,
        record {
          file =
              subst
                (λ b.
                  Extended [] (file_header_bytes (session_header now topics) ++ topics_bytes topics)
                    d.bytes b)
                no_done x;
          is_open = refl;
          ring = refl;
          synced = refl;
          started = j;
        },
      )
    ]

pub opened_bytes : {bs after : List ℕ} → Extended [] bs after true → after ≡ bs
opened_bytes (all e) = e

-- What a successful `Open` left.
pub opened_lem :
    {fd : Descriptor}
    → IsRegularFile fd
    → (now steady : ℕ) (s s0 : Session) (topics : List TopicInfo) → s.writer.joinable ≡ false
    → open_session fd true now steady s topics ≡ some (s0, true)
    → Opened now topics s s0 true
opened_lem {fd} law now steady s s0 topics j opened =
    let (x, done, e, o) = open_session_lem law now steady s topics j in
    subst (λ (p : Session × Bool). Opened now topics s p.0 p.1)
      (ap (λ (r : Option (Session × Bool)). elim r [ none ↦ (x, done) | some p ↦ p ])
        (sym e ∙ opened))
      o

-- Where the thread and the file stand behind an `Open` that gave true.
pub Opened-Inv :
    {now : ℕ} {topics : List TopicInfo} {s s0 : Session} {early : List Item}
    → Opened now topics s s0 true
    → Holds 12 0 s.writer.ring early
    → ((final s0.pc ≡ false)
        × (s0.rec ≡ empty_record)
        × (s0.writer.shutdown ≡ false)
        × (s0.writer.joinable ≡ true))
      × Inv (file_header_bytes (session_header now topics) ++ topics_bytes topics) early s0
Opened-Inv {s} {s0} {early} result h =
    let (pc, rec, sh, jn) = result.started in
    (
      (ap final pc, rec, sh, jn),
      record {
        written = [];
        queued = early;
        holds = subst (λ r. Holds 12 0 r early) (sym result.ring) h;
        bytes = opened_bytes result.file ∙ sym (append-nil _);
        all = ap (λ p. in_hand p s0.rec ++ early) (sym pc);
        is_open = result.is_open;
        record_ok = subst IsRecord (sym rec) (record { sized = refl; fits = omega arith });
      },
    )

-- A session whose `Open` gave true, on a disk whose writes do not fail (each may take a part of the
-- bytes only), with no thread at first and a ring in good order: whatever the interleaving of pushes and
-- steps of the thread, if no push that fits a slot was turned down, the thread never stops short,
-- `Close` then returns, and the file is the header, the table, the records that stood in the ring
-- already, and every record that a push took, in the order of the pushes, each once, all of it synced.
pub lossless :
    {fd : Descriptor}
    → IsReliable fd
    → (now steady : ℕ) (clock : ℕ → ℕ) (s s0 : Session) (topics : List TopicInfo)
      (events : List Event)
    → s.writer.joinable ≡ false
    → (early : List Item) → Holds 12 0 s.writer.ring early
    → open_session fd true now steady s topics ≡ some (s0, true)
    → NoneDropped fd s0 events
    → (s1 s2 : Session) × (run_events fd s0 events ≡ some s1)
      × (close fd clock s1 ≡ some s2)
      × (s2.writer.disk.bytes ≡ file_bytes now topics (early ++ taken fd s0 events))
      × (s2.writer.synced ≡ length s2.writer.disk.bytes)
      × (s2.writer.is_open ≡ false)
      × (s2.writer.joinable ≡ false)
lossless {fd} ok now steady clock s s0 topics events j early h opened d =
    let front = file_header_bytes (session_header now topics) ++ topics_bytes topics in
    let (begun, v) = Opened-Inv (opened_lem ok.law now steady s s0 topics j opened) h in
    let (pc, rec, sh, jn) = begun in
    let (s1, e1, j1, v1, l1) = run_events-Inv ok front events early s0 v pc sh jn d in
    let (s2, e2, b, synced, o, j2) =
      close-Inv ok front clock (early ++ taken fd s0 events) s1 v1 l1 j1 in
    (
      s1,
      s2,
      e1,
      e2,
      b ∙ append_assoc (file_header_bytes (session_header now topics)) (topics_bytes topics) _,
      synced,
      o,
      j2,
    )
