-- ===== src/Writer/Lifecycle/Overlap.antt =====
-- A whole session of the writer whose `Close` runs beside pushes, each of them one step; Writer.Split has
-- the pushes in their parts.
use tri_drishti_chrono_cap.Common.{
  ℕ, ◌≡◌, ◌≢◌, ◌∙◌, false, true, none, some, List, ◌++◌, append_assoc, length,
}
use tri_drishti_chrono_cap.Ring.Queue.{Item}
use tri_drishti_chrono_cap.Ring.Fifo.{Holds}
use tri_drishti_chrono_cap.Wire.Header.Layout.{file_header_bytes}
use tri_drishti_chrono_cap.Writer.{TopicInfo}
use tri_drishti_chrono_cap.Writer.Output.{Descriptor, IsReliable}
use tri_drishti_chrono_cap.Writer.Format.{topics_bytes, session_header, file_bytes}
use tri_drishti_chrono_cap.Writer.Thread.{Session, Event, run_events, taken, NoneDropped}
use tri_drishti_chrono_cap.Writer.Lifecycle.{open_session, stopping, close_beside}
use tri_drishti_chrono_cap.Writer.Lifecycle.Drain.{run_events-Inv}
use tri_drishti_chrono_cap.Writer.Lifecycle.Lossless.{opened_lem, Opened-Inv}
use tri_drishti_chrono_cap.Writer.Lifecycle.Beside.{close_beside-Inv}

-- Where every `Push` is one step, so that none is under way as `Close` begins: a session whose `Open` gave
-- true, on a disk whose writes do not fail, with no thread at first and a ring in good order, where no
-- push that fits a slot is turned down. Whatever is pushed beside `Close`, no write hangs, it returns,
-- and its file is the header, the table, every record that was taken before `Close`, and a first part of
-- those that were taken since, in order, each once. The other ones, for which `Push` gave true too, are
-- in no file: they stand in the ring, in order.
pub lossless_beside :
    {fd : Descriptor}
    → IsReliable fd
    → (now steady : ℕ) (clock : ℕ → ℕ) (s s0 : Session) (topics : List TopicInfo)
      (events during : List Event)
    → s.writer.joinable ≡ false
    → (early : List Item) → Holds 12 0 s.writer.ring early
    → open_session fd true now steady s topics ≡ some (s0, true)
    → NoneDropped fd s0 events
    → ((s1 : Session) → run_events fd s0 events ≡ some s1 → NoneDropped fd (stopping s1) during)
    → (s1 s2 : Session) × (first lost : List Item) × (run_events fd s0 events ≡ some s1)
      × (close_beside fd clock during s1 ≡ some s2)
      × (s2.writer.disk.bytes ≡ file_bytes now topics ((early ++ taken fd s0 events) ++ first))
      × (taken fd (stopping s1) during ≡ first ++ lost)
      × (run_events fd (stopping s1) during ≢ none)
      × Holds 12 0 s2.writer.ring lost
      × (s2.writer.synced ≡ length s2.writer.disk.bytes)
      × (s2.writer.is_open ≡ false)
      × (s2.writer.joinable ≡ false)
lossless_beside {fd} ok now steady clock s s0 topics events during j early h opened d later =
    let front = file_header_bytes (session_header now topics) ++ topics_bytes topics in
    let (begun, v) = Opened-Inv (opened_lem ok.law now steady s s0 topics j opened) h in
    let (pc, rec, sh, jn) = begun in
    let (s1, e1, j1, v1, l1) = run_events-Inv ok front events early s0 v pc sh jn d in
    let (s2, first, lost, e2, b, split, runs, held, synced, o, j2) =
      close_beside-Inv ok front (early ++ taken fd s0 events) clock during s1 v1 l1 j1
        (later s1 e1) in
    (
      s1,
      s2,
      first,
      lost,
      e1,
      e2,
      b ∙ append_assoc (file_header_bytes (session_header now topics)) (topics_bytes topics) _,
      split,
      runs,
      held,
      synced,
      o,
      j2,
    )
