-- ===== src/Writer/Lifecycle/AnyDisk.antt =====
-- A session on a disk that may fail at any call, with pushes that may be turned down.
use tri_drishti_chrono_cap.Common.{
  ℕ, ◌≤◌, ◌≡◌, refl, ap, sym, subst, ◌∙◌, arith, if◌then◌else◌, Bool, true, false, Option, none,
  some, List, [], ◌∷◌, ◌++◌, append-nil, append_assoc, length,
}
use mathlib.Core.List.{Perm, perm_middle}
use mathlib.Core.List.Perm
use tri_drishti_chrono_cap.Ring.{MpscRingBuffer, Sample}
use tri_drishti_chrono_cap.Ring.Queue.{Item, item_of_sample, IsSample}
use tri_drishti_chrono_cap.Ring.Conserve.{held, IsRing, push_conserve}
use tri_drishti_chrono_cap.Wire.Header.Layout.{file_header_bytes}
use tri_drishti_chrono_cap.Writer.{TopicInfo, writer_push}
use tri_drishti_chrono_cap.Writer.Output.{Descriptor, IsRegularFile}
use tri_drishti_chrono_cap.Writer.Format.{topics_bytes, session_header}
use tri_drishti_chrono_cap.Writer.Records.{IsRecord}
use tri_drishti_chrono_cap.Writer.Thread.{
  Session, Event, produce, tick, push_step, thread_step, run_events, taken,
}
use tri_drishti_chrono_cap.Writer.Thread.Inv.{in_hand}
use tri_drishti_chrono_cap.Writer.Thread.Pieces.{Pieces, nothing, Sound}
use tri_drishti_chrono_cap.Writer.Thread.Failing.{at-Steps}
use tri_drishti_chrono_cap.Writer.Thread.Dry.{IfSome, IsLooping, step-IsLooping}
use tri_drishti_chrono_cap.Writer.Lifecycle.{open_session}
use tri_drishti_chrono_cap.Writer.Lifecycle.Lossless.{Opened, opened_lem, opened_bytes}

-- The records that the thread has passed to `WriteRecord`, in order.
abbrev pub attempts : Descriptor → Session → List Event → List Item
attempts fd s [] = []
attempts fd s (produce x ∷ events) = attempts fd (push_step s x) events
attempts fd s (tick now ∷ events) =
    in_hand s.pc s.rec
    ++ (elim (thread_step fd now s) [ none ↦ [] | some t ↦ attempts fd t events ])

-- Each push passes as many bytes as it says.
abbrev pub Pushes : List Event → Type 0
Pushes [] = Unit
Pushes (produce x ∷ events) = IsSample x × Pushes events
Pushes (tick now ∷ events) = Pushes events

-- What a session still has: the record in hand and those in the ring.
abbrev pub left : Session → List Item
left s = in_hand s.pc s.rec ++ held s.writer.ring.slots

pub perm_across {ℓ} : {A : Type ℓ} (a b c : List A) → Perm (a ++ (b ++ c)) (b ++ (a ++ c))
perm_across a [] c = Perm.refl _
perm_across a (x ∷ b) c = Perm.trans (perm_middle a (b ++ c)) (Perm.cons x (perm_across a b c))

-- One push.
push_left :
    (s : Session) (x : Sample) (done : Bool) (rest out : List Item)
    → Perm
        (held (push_step s x).writer.ring.slots)
        (if done then item_of_sample x ∷ held s.writer.ring.slots else held s.writer.ring.slots)
    → Perm (rest ++ left (push_step s x)) out
    → Perm ((if done then item_of_sample x ∷ rest else rest) ++ left s) out
push_left s x true rest out p ih =
    Perm.trans
      (Perm.symm (
        Perm.trans
          (Perm.append_left rest (
            Perm.trans (Perm.append_left (in_hand s.pc s.rec) p)
              (perm_middle (in_hand s.pc s.rec) _)))
          (perm_middle rest _)))
      ih
push_left s x false rest out p ih =
    Perm.trans (Perm.append_left rest (Perm.append_left (in_hand s.pc s.rec) (Perm.symm p))) ih

module _ {fd : Descriptor} (law : IsRegularFile fd) (front : List ℕ) where
  -- Where a run ends: a sound session that has tried these records more, and nothing lost or made up.
  abbrev pub Ends : Session → List Item → List Event → Option Session → Type 0
  Ends s tried events run =
      (t : Session) × (run ≡ some t)
      × Sound front (tried ++ attempts fd s events) t
      × Perm (taken fd s events ++ left s) (attempts fd s events ++ left t)
      × (t.writer.joinable ≡ s.writer.joinable)
      × (t.writer.shutdown ≡ s.writer.shutdown)
      × (s.writer.shutdown ≡ false → IsLooping s → IsLooping t)

  pub run-Ends :
      (events : List Event) (tried : List Item) (s : Session)
      → Pushes events
      → Sound front tried s
      → Ends s tried events (run_events fd s events)
  unfolding run_events taken writer_push
  run-Ends [] tried s f v = (
    s,
    refl,
    subst (λ l. Sound front l s) (sym (append-nil tried)) v,
    Perm.refl _,
    refl,
    refl,
    λ _ l. l,
  )
  run-Ends (produce x ∷ events) tried s (i, f) v =
      let (ring_ok, p) = push_conserve 12 s.writer.ring x v.ring_ok i in
      let v' : Sound front tried (push_step s x) = record {
        ring_ok = ring_ok;
        record_ok = v.record_ok;
        is_open = v.is_open;
        behind = v.behind;
        bytes = v.bytes;
        pieces = v.pieces;
        synced = v.synced;
      } in
      let (t, e, vt, q, jn, sh, looping) = run-Ends events tried (push_step s x) f v' in
      (t, e, vt, push_left s x _ _ _ p q, jn, sh, looping)
  run-Ends (tick now ∷ events) tried s f v =
      let (u, e, vu, p, near) = at-Steps law now s.pc s.writer s.rec v in
      let (t, e', vt, q, jn, sh, looping) = run-Ends events (tried ++ in_hand s.pc s.rec) u f vu in
      let ih = in_hand s.pc s.rec in
      rw (e, run_events, taken)
        (
          t,
          e',
          subst (λ l. Sound front l t) (append_assoc tried ih _) vt,
          subst (λ l. Perm (taken fd u events ++ left s) l)
              (sym (append_assoc ih (attempts fd u events) (left t)))
              (Perm.trans (perm_across (taken fd u events) ih (held s.writer.ring.slots))
                (Perm.append_left ih (Perm.trans (Perm.append_left (taken fd u events) p) q))),
          jn ∙ near.joinable,
          sh ∙ near.shutdown,
          λ off l.
              looping (near.shutdown ∙ off)
                (subst (IfSome IsLooping) e (step-IsLooping fd s.pc now s.writer s.rec off l)),
        )

pub Opened-Sound :
    {now : ℕ} {topics : List TopicInfo} {s s0 : Session}
    → Opened now topics s s0 true
    → IsRing 12 s.writer.ring
    → Sound (file_header_bytes (session_header now topics) ++ topics_bytes topics) [] s0
Opened-Sound {s0} o ring =
    let (pc, rec, sh, jn) = o.started in
    record {
      ring_ok = subst (IsRing 12) (sym o.ring) ring;
      record_ok = subst IsRecord (sym rec) (record { sized = refl; fits = omega arith });
      is_open = o.is_open;
      behind = [];
      bytes = opened_bytes o.file ∙ sym (append-nil _);
      pieces = nothing;
      synced = omega (arith, o.synced);
    }

-- A session whose `Open` gave true, on a regular file whose writes may be short or fail at any call, with
-- any interleaving of pushes, which may be turned down, and steps of the thread: no call hangs. The file
-- is the header and the table, untouched, and behind them, in order, of each record that the thread
-- tried to write all bytes or a front part; the part that was synced is not longer than the file; and
-- the records that were taken, with those that stood in the ring before, are up to order those that the
-- thread tried to write, the one in its hand and those still in the ring.
pub any_disk :
    {fd : Descriptor}
    → IsRegularFile fd
    → (now steady : ℕ) (s s0 : Session) (topics : List TopicInfo) (events : List Event)
    → s.writer.joinable ≡ false
    → IsRing 12 s.writer.ring
    → open_session fd true now steady s topics ≡ some (s0, true)
    → Pushes events
    → (s1 : Session) × (behind : List ℕ) × (run_events fd s0 events ≡ some s1)
      × (s1.writer.disk.bytes
          ≡ (file_header_bytes (session_header now topics) ++ topics_bytes topics) ++ behind)
      × Pieces (attempts fd s0 events) behind
      × (s1.writer.synced ≤ length s1.writer.disk.bytes)
      × Perm
          (taken fd s0 events ++ held s.writer.ring.slots)
          (attempts fd s0 events ++ (in_hand s1.pc s1.rec ++ held s1.writer.ring.slots))
any_disk {fd} law now steady s s0 topics events j ring opened f =
    let o = opened_lem law now steady s s0 topics j opened in
    let (pc, rec, sh, jn) = o.started in
    let (t, e, v, p, same, sh, looping) =
      run-Ends law (file_header_bytes (session_header now topics) ++ topics_bytes topics) events []
        s0 f (Opened-Sound o ring) in
    (
      t,
      v.behind,
      e,
      v.bytes,
      v.pieces,
      v.synced,
      subst (λ (l : List Item). Perm (taken fd s0 events ++ l) (attempts fd s0 events ++ left t))
          (ap (λ q. in_hand q s0.rec ++ held s0.writer.ring.slots) pc
            ∙ ap (λ (r : MpscRingBuffer). held r.slots) o.ring)
          p,
    )
