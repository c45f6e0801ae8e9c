-- ===== src/Writer/Lifecycle/Succeeds.antt =====
-- Where no write fails, `Open` gives true.
use tri_drishti_chrono_cap.Common.{
  ℕ, ◌≡◌, ◌≢◌, ap, subst, ◌∙◌, Bool, Bool-cases, true, false, Option, Option-cases, inl, inr, none,
  some, List, [], ◌∷◌,
}
use tri_drishti_chrono_cap.Wire.Header.{serialize_topic_meta, topic_meta_wire_size}
use tri_drishti_chrono_cap.Writer.{
  RecordWriter, TopicInfo, print_name, scratch, write_then, write_metadata,
  write_file_header_and_metadata,
}
use tri_drishti_chrono_cap.Writer.Output.{
  Descriptor, IsReliable, WritesSucceed, write_all, writes-WritesSucceed,
}
use tri_drishti_chrono_cap.Writer.Thread.{Session}
use tri_drishti_chrono_cap.Writer.Lifecycle.{open_session}
use tri_drishti_chrono_cap.Writer.Lifecycle.Lossless.{Opened, open_session_lem}

-- The run does not end with false.
abbrev Succeeds : Option (RecordWriter × Bool) → Type 0
Succeeds run = (w : RecordWriter) → run ≢ some (w, false)

module _ (fd : Descriptor) (never : WritesSucceed fd) where
  write_then-Succeeds :
      (w : RecordWriter) (p : List ℕ) (len : ℕ) (next : RecordWriter → Option (RecordWriter × Bool))
      → ((w' : RecordWriter) → Succeeds (next w'))
      → Succeeds (write_then fd w p len next)
  write_then-Succeeds w p len next h w' = elim (Option-cases (write_all fd w.disk p len)) [
    | inl stuck ↦ rw (stuck, write_then) (λ e. cc)
    | inr (r, e) ↦ elim (Bool-cases r.1) [
      | inl t ↦ rw (e, write_then, t) (h (record w { disk = r.0 }) w')
      | inr f ↦ absurd (never w.disk p len r.0 (e ∙ ap (λ (b : Bool). some (r.0, b)) f))
    ]
  ]

  write_metadata-Succeeds :
      (topics : List TopicInfo) (w : RecordWriter) → Succeeds (write_metadata fd w topics)
  unfolding write_metadata
  write_metadata-Succeeds [] w w' = λ e. cc
  write_metadata-Succeeds (t ∷ topics) w w' =
      elim (Option-cases (
        serialize_topic_meta
          (record { topic_id = t.topic_id; struct_size = t.wire_size; name = print_name t.name })
          (scratch topic_meta_wire_size))) [
            | inl stuck ↦ rw (stuck, write_metadata) (λ e. cc)
            | inr (buf, e) ↦
                rw (e, write_metadata)
                  (write_then-Succeeds w buf topic_meta_wire_size
                    (λ w1. write_metadata fd w1 topics) (λ w1. write_metadata-Succeeds topics w1)
                    w')
          ]

  write_file_header_and_metadata-Succeeds :
      (now : ℕ) (w : RecordWriter) (topics : List TopicInfo)
      → Succeeds (write_file_header_and_metadata fd now w topics)
  unfolding write_file_header_and_metadata
  write_file_header_and_metadata-Succeeds now w topics =
      write_then-Succeeds w _ _ (λ w1. write_metadata fd w1 topics) (write_metadata-Succeeds topics)

-- `Open` of a file that open(2) gave does not give false.
open_session-not_false :
    (fd : Descriptor)
    → WritesSucceed fd
    → (now steady : ℕ) (s s0 : Session) (topics : List TopicInfo) → s.writer.joinable ≡ false
    → open_session fd true now steady s topics ≢ some (s0, false)
unfolding open_session
open_session-not_false fd never now steady s s0 topics j =
    let opened = record s.writer {
      is_open = true;
      disk = record { bytes = []; calls = s.writer.disk.calls };
      synced = 0;
    } in
    elim (Option-cases (write_file_header_and_metadata fd now opened topics)) [
      | inl stuck ↦ rw (stuck, open_session) (λ e. cc)
      | inr (r, e) ↦ elim (Bool-cases r.1) [
        | inr f ↦ absurd (
            write_file_header_and_metadata-Succeeds fd never now opened topics r.0
              (e ∙ ap (λ (b : Bool). some (r.0, b)) f))
        | inl t ↦ elim (Bool-cases r.0.joinable) [
          | inl running ↦ rw (e, open_session, t, running) (λ h. cc)
          | inr idle ↦
              rw (e, open_session, t, idle)
                (λ h.
                  let q =
                    ap (λ (o : Option (Session × Bool)). elim o [ none ↦ true | some p ↦ p.1 ]) h in
                  cc)
        ]
      ]
    ]

-- `Open` on a disk whose writes do not fail, with no thread running, gives true.
pub open_session-true :
    {fd : Descriptor}
    → IsReliable fd
    → (now steady : ℕ) (s : Session) (topics : List TopicInfo) → s.writer.joinable ≡ false
    → (s0 : Session) × (open_session fd true now steady s topics ≡ some (s0, true))
      × Opened now topics s s0 true
open_session-true {fd} ok now steady s topics j =
    let (s0, done, e, o) = open_session_lem ok.law now steady s topics j in
    elim (Bool-cases done) [
      | inl t ↦ (s0, e ∙ ap (λ b. some (s0, b)) t, subst (λ b. Opened now topics s s0 b) t o)
      | inr f ↦ absurd (
          open_session-not_false fd (writes-WritesSucceed ok.succeeds) now steady s s0 topics j
            (e ∙ ap (λ (b : Bool). some (s0, b)) f))
    ]
