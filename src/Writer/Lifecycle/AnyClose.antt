-- ===== src/Writer/Lifecycle/AnyClose.antt =====
-- `Close` returns on a disk that may fail at any call, also where pushes were turned down.
use tri_drishti_chrono_cap.Common.{
  ℕ, zero, suc, ◌+◌, ◌≤◌, ◌<◌, ◌≡◌, refl, ap, sym, subst, ◌∙◌, arith, Bool-cases, inl, inr, true,
  false, some, List, [], ◌∷◌, ◌++◌, append-nil, append_assoc, length, length-append,
}
use mathlib.Core.List.{Perm}
use mathlib.Core.List.Perm
use mathlib.Core.List
use tri_drishti_chrono_cap.Ring.{Slot, MpscRingBuffer}
use tri_drishti_chrono_cap.Ring.Queue.{Item}
use tri_drishti_chrono_cap.Ring.Conserve.{held, IsRing}
use tri_drishti_chrono_cap.Wire.Header.Layout.{file_header_bytes}
use tri_drishti_chrono_cap.Writer.{TopicInfo, sync}
use tri_drishti_chrono_cap.Writer.Output.{Descriptor, IsRegularFile}
use tri_drishti_chrono_cap.Writer.Format.{topics_bytes, session_header}
use tri_drishti_chrono_cap.Writer.Thread.{exited, Session, Event, run_events, taken}
use tri_drishti_chrono_cap.Writer.Thread.Inv.{in_hand, rank, final}
use tri_drishti_chrono_cap.Writer.Thread.Dry.{IfSome}
use tri_drishti_chrono_cap.Ring.Steps.{next}
use tri_drishti_chrono_cap.Writer.Thread.Pieces.{Pieces, Sound}
use tri_drishti_chrono_cap.Writer.Thread.Failing.{at-Steps}
use tri_drishti_chrono_cap.Writer.Lifecycle.{
  open_session, drive, close, close_beside, stopping, close_fuel, has_exited,
}
use tri_drishti_chrono_cap.Writer.Lifecycle.Drain.{
  has_exited-exited, not_exited, rank_le, close_beside_path,
}
use tri_drishti_chrono_cap.Writer.Lifecycle.Emptied.{IsEmptied, close-IsEmptied}
use tri_drishti_chrono_cap.Writer.Lifecycle.Lossless.{opened_lem}
use tri_drishti_chrono_cap.Writer.Lifecycle.AnyDisk.{attempts, Pushes, left, Opened-Sound, run-Ends}

same_length : (xs ys : List Item) → List.length xs ≡ List.length ys → length xs ≡ length ys
same_length [] [] e = refl
same_length [] (y ∷ ys) e = absurd cc
same_length (x ∷ xs) [] e = absurd cc
same_length (x ∷ xs) (y ∷ ys) e = ap (λ n. suc n) (same_length xs ys cc)

length-Perm : {xs ys : List Item} → Perm xs ys → length xs ≡ length ys
length-Perm {xs} {ys} p = same_length xs ys (Perm.length-eq p)

pub length-held : (slots : List Slot) → length (held slots) ≤ length slots
length-held [] = omega arith
length-held (s ∷ slots) = elim (Bool-cases s.ready) [
  | inl t ↦ rw t (omega (arith, length-held slots))
  | inr f ↦ rw f (omega (arith, length-held slots))
]

module _ {fd : Descriptor} (law : IsRegularFile fd) (front : List ℕ) where
  pub drive-Sound :
      (fuel : ℕ) (clock : ℕ → ℕ) (tried : List Item) (s : Session)
      → Sound front tried s
      → s.writer.shutdown ≡ true
      → rank s.pc (length (held s.writer.ring.slots)) < fuel
      → (t : Session) × (more : List Item) × (drive fd fuel clock s ≡ some t)
        × Sound front (tried ++ more) t
        × Perm (left s) (more ++ left t)
        × (t.pc ≡ exited)
  unfolding drive
  drive-Sound zero clock tried s v sh h = absurd (omega arith)
  drive-Sound (suc fuel) clock tried s v sh h =
      let (u, e, vu, p, near) = at-Steps law (clock fuel) s.pc s.writer s.rec v in
      elim (Bool-cases (has_exited s.pc)) [
        | inl done ↦ (
          s,
          [],
          rw (e, done, drive) refl,
          subst (λ l. Sound front l s) (sym (append-nil tried)) v,
          Perm.refl _,
          has_exited-exited s.pc done,
        )
        | inr going ↦
            let held_now = length (held u.writer.ring.slots) in
            let count : length (held s.writer.ring.slots) ≡ length (in_hand u.pc u.rec) + held_now =
              length-Perm p ∙ length-append (in_hand u.pc u.rec) (held u.writer.ring.slots) in
            let less : rank u.pc held_now < rank s.pc (length (held s.writer.ring.slots)) =
              subst (λ n. rank u.pc held_now < rank s.pc n) (sym count)
                (near.lower sh (not_exited s.pc going) held_now) in
            let (t, more, run, vt, q, out) =
              drive-Sound fuel clock (tried ++ in_hand s.pc s.rec) u vu (near.shutdown ∙ sh)
                (omega arith) in
            (
              t,
              in_hand s.pc s.rec ++ more,
              rw (e, going, drive) run,
              subst (λ l. Sound front l t) (append_assoc tried (in_hand s.pc s.rec) more) vt,
              subst (λ l. Perm (left s) l) (sym (append_assoc (in_hand s.pc s.rec) more (left t)))
                  (Perm.append_left (in_hand s.pc s.rec) (Perm.trans p q)),
              out,
            )
      ]

  close_beside-Sound :
      (clock : ℕ → ℕ) (events : List Event) (tried : List Item) (s : Session)
      → Sound front tried s
      → s.writer.joinable ≡ true
      → Pushes events
      → (t : Session) × (more : List Item) × (behind : List ℕ) × (close_beside fd clock events s
          ≡ some t)
        × (t.writer.disk.bytes ≡ front ++ behind)
        × Pieces (tried ++ more) behind
        × (t.writer.synced ≡ length t.writer.disk.bytes)
        × (t.writer.is_open ≡ false)
        × (t.writer.joinable ≡ false)
        × Perm (taken fd (stopping s) events ++ left s) (more ++ held t.writer.ring.slots)
  close_beside-Sound clock events tried s v j f =
      let vs : Sound front tried (stopping s) = record {
        ring_ok = v.ring_ok;
        record_ok = v.record_ok;
        is_open = v.is_open;
        behind = v.behind;
        bytes = v.bytes;
        pieces = v.pieces;
        synced = v.synced;
      } in
      let (s1, e1, v1, p, jn, sh, looping) = run-Ends law front events tried (stopping s) f vs in
      let during = attempts fd (stopping s) events in
      let (t, more, e, vt, q, out) = drive-Sound close_fuel clock (tried ++ during) s1 v1 sh (
        omega (
          arith,
          rank_le s1.pc (length (held s1.writer.ring.slots)),
          length-held s1.writer.ring.slots,
          v1.ring_ok.size,
        )) in
      (
        record t { writer = record (sync t.writer) { joinable = false; is_open = false } },
        during ++ more,
        vt.behind,
        close_beside_path fd clock events s s1 t j e1 e vt.is_open,
        vt.bytes,
        subst (λ l. Pieces l vt.behind) (append_assoc tried during more) vt.pieces,
        refl,
        refl,
        refl,
        subst (λ l. Perm (taken fd (stopping s) events ++ left s) l)
            (sym (append_assoc during more (held t.writer.ring.slots)))
            (Perm.trans p (
              Perm.append_left during (
                subst
                  (λ pc. Perm (left s1) (more ++ (in_hand pc t.rec ++ held t.writer.ring.slots)))
                  out q))),
      )

  close-Sound :
      (clock : ℕ → ℕ) (tried : List Item) (s : Session)
      → Sound front tried s
      → s.writer.joinable ≡ true
      → (t : Session) × (more : List Item) × (behind : List ℕ) × (close fd clock s ≡ some t)
        × (t.writer.disk.bytes ≡ front ++ behind)
        × Pieces (tried ++ more) behind
        × (t.writer.synced ≡ length t.writer.disk.bytes)
        × (t.writer.is_open ≡ false)
        × (t.writer.joinable ≡ false)
        × Perm (left s) (more ++ held t.writer.ring.slots)
  unfolding close close_beside run_events taken
  close-Sound clock tried s v j = close_beside-Sound clock [] tried s v j tt

-- A session whose `Open` gave true, on a regular file whose writes may be short or fail at any call, with
-- any interleaving of pushes, which may be turned down, and steps of the thread: `Close` then returns,
-- with the thread joined, the file closed and all of it synced. The file is the header and the table,
-- untouched, and behind them, in order, all bytes or a front part of each record that the thread tried to
-- write before `Close`, and of more that it tried in `Close`. Up to order these records and those that
-- still stand in the ring are the ones that were taken and those that stood in it before; and the
-- next `TryPop` would find nothing, so that all that the consumer could reach was tried.
pub any_disk_closes :
    {fd : Descriptor}
    → IsRegularFile fd
    → (now steady : ℕ) (clock : ℕ → ℕ) (s s0 : Session) (topics : List TopicInfo)
      (events : List Event)
    → s.writer.joinable ≡ false
    → IsRing 12 s.writer.ring
    → open_session fd true now steady s topics ≡ some (s0, true)
    → Pushes events
    → (s1 s2 : Session) × (more : List Item) × (behind : List ℕ) × (run_events fd s0 events
        ≡ some s1)
      × (close fd clock s1 ≡ some s2)
      × (s2.writer.disk.bytes
          ≡ (file_header_bytes (session_header now topics) ++ topics_bytes topics) ++ behind)
      × Pieces (attempts fd s0 events ++ more) behind
      × (s2.writer.synced ≡ length s2.writer.disk.bytes)
      × (s2.writer.is_open ≡ false)
      × (s2.writer.joinable ≡ false)
      × Perm
          (taken fd s0 events ++ held s.writer.ring.slots)
          ((attempts fd s0 events ++ more) ++ held s2.writer.ring.slots)
      × ((next 12 s2.writer.ring).ready ≡ false)
any_disk_closes {fd} law now steady clock s s0 topics events j ring opened f =
    let front = file_header_bytes (session_header now topics) ++ topics_bytes topics in
    let o = opened_lem law now steady s s0 topics j opened in
    let (pc, rec, sh, jn) = o.started in
    let (s1, e1, v, p, same, sh1, looping) =
      run-Ends law front events [] s0 f (Opened-Sound o ring) in
    let (s2, more, behind, e2, bytes, pieces, synced, shut, joined, q) =
      close-Sound law front clock (attempts fd s0 events) s1 v (same ∙ jn) in
    let from_ring : left s0 ≡ held s.writer.ring.slots =
      ap (λ q. in_hand q s0.rec ++ held s0.writer.ring.slots) pc
      ∙ ap (λ (r : MpscRingBuffer). held r.slots) o.ring in
    (
      s1,
      s2,
      more,
      behind,
      e1,
      e2,
      bytes,
      pieces,
      synced,
      shut,
      joined,
      subst
          (λ l.
            Perm (taken fd s0 events ++ l)
              ((attempts fd s0 events ++ more) ++ held s2.writer.ring.slots))
          from_ring
          (subst (λ l. Perm (taken fd s0 events ++ left s0) l)
            (sym (append_assoc (attempts fd s0 events) more (held s2.writer.ring.slots)))
            (Perm.trans p (Perm.append_left (attempts fd s0 events) q))),
      subst (IfSome IsEmptied) e2
          (close-IsEmptied fd clock s1 (same ∙ jn) (looping sh (ap final pc))),
    )

-- The same with pushes beside `Close`: it returns.
pub close_beside_returns :
    {fd : Descriptor}
    → IsRegularFile fd
    → (now steady : ℕ) (clock : ℕ → ℕ) (s s0 : Session) (topics : List TopicInfo)
      (events during : List Event)
    → s.writer.joinable ≡ false
    → IsRing 12 s.writer.ring
    → open_session fd true now steady s topics ≡ some (s0, true)
    → Pushes events
    → Pushes during
    → (s1 s2 : Session) × (run_events fd s0 events ≡ some s1)
      × (close_beside fd clock during s1 ≡ some s2)
      × (s2.writer.joinable ≡ false)
close_beside_returns {fd} law now steady clock s s0 topics events during j ring opened f g =
    let front = file_header_bytes (session_header now topics) ++ topics_bytes topics in
    let o = opened_lem law now steady s s0 topics j opened in
    let (pc, rec, sh, jn) = o.started in
    let (s1, e1, v, p, same, sh1, looping) =
      run-Ends law front events [] s0 f (Opened-Sound o ring) in
    let (s2, more, behind, e2, bytes, pieces, synced, shut, joined, q) =
      close_beside-Sound law front clock during (attempts fd s0 events) s1 v (same ∙ jn) g in
    (s1, s2, e1, e2, joined)
