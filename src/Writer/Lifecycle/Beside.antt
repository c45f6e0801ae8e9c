-- ===== src/Writer/Lifecycle/Beside.antt =====
-- `Close` while callbacks push: what was taken before is in the file, and a first part of what was taken
-- since.
use tri_drishti_chrono_cap.Common.{
  ℕ, zero, suc, ◌<◌, ◌≡◌, ◌≢◌, refl, ap, sym, subst, ◌∙◌, arith, if◌then◌else◌, Bool-cases, inl,
  inr, true, false, Option, none, some, List, [], ◌∷◌, ◌++◌, append-nil, append_assoc, length,
  length-append,
}
use tri_drishti_chrono_cap.Ring.{PoppedRecord}
use tri_drishti_chrono_cap.Ring.Queue.{Item, item_of_sample}
use tri_drishti_chrono_cap.Ring.Fifo.{Holds}
use tri_drishti_chrono_cap.Writer.{RecordWriter, sync, writer_push}
use tri_drishti_chrono_cap.Writer.Output.{Descriptor, IsReliable}
use tri_drishti_chrono_cap.Writer.Format.{items_bytes}
use tri_drishti_chrono_cap.Writer.Thread.{
  Pc, at_final_flush, exited, Session, Event, produce, tick, push_step, step_at, run_events, taken,
  NoneDropped,
}
use tri_drishti_chrono_cap.Writer.Thread.Flush.{maybe_flush-disk}
use tri_drishti_chrono_cap.Writer.Thread.Inv.{in_hand, Inv, rank, drained, Live}
use tri_drishti_chrono_cap.Writer.Thread.Pops.{push_step-Inv}
use tri_drishti_chrono_cap.Writer.Thread.Steps.{step_at-Inv}
use tri_drishti_chrono_cap.Writer.Lifecycle.{has_exited, stopping, drive, close_beside, close_fuel}
use tri_drishti_chrono_cap.Writer.Lifecycle.Drain.{
  has_exited-exited, not_exited, nil_of_length, taken_cons, rank_le, Live-switch, close_beside_path,
}
use tri_drishti_chrono_cap.Writer.Lifecycle.Cut.{items_bytes-split, continues}

drained-in_hand : (pc : Pc) (rec : PoppedRecord) → drained pc ≡ true → in_hand pc rec ≡ []
drained-in_hand at_final_flush rec e = refl
drained-in_hand exited rec e = refl
drained-in_hand _ rec e = absurd cc

module _ {fd : Descriptor} (ok : IsReliable fd) (front : List ℕ) (before : List Item) where
  -- Behind the last `TryPop` all records from before are in the file.
  abbrev IsKept : Session → Type 0
  IsKept s =
      drained s.pc ≡ true
      → (more : List ℕ) × (s.writer.disk.bytes ≡ front ++ (items_bytes before ++ more))

  abbrev SameDisk : RecordWriter → Option Session → Type 0
  SameDisk w none = Unit
  SameDisk w (some s) = s.writer.disk ≡ w.disk

  drained-SameDisk :
      (pc : Pc) (now : ℕ) (w : RecordWriter) (rec : PoppedRecord)
      → drained pc ≡ true
      → SameDisk w (step_at fd pc now w rec)
  unfolding step_at
  drained-SameDisk at_final_flush now w rec e = maybe_flush-disk now w
  drained-SameDisk exited now w rec e = refl
  drained-SameDisk _ now w rec e = absurd cc

  -- With an empty ring and nothing in hand, all that was taken is in the file.
  empty-IsKept :
      (since : List Item) (s : Session) (v : Inv front (before ++ since) s)
      → (drained s.pc ≡ true → length v.queued ≡ 0)
      → IsKept s
  empty-IsKept since s v empty d =
      let same : before ++ since ≡ v.written =
        v.all
        ∙ ap (λ l. v.written ++ (l ++ v.queued)) (drained-in_hand s.pc s.rec d)
        ∙ ap (λ l. v.written ++ l) (nil_of_length v.queued (empty d))
        ∙ append-nil v.written in
      (
        items_bytes since,
        v.bytes ∙ ap (λ l. front ++ l) (ap items_bytes (sym same) ∙ items_bytes-split before since),
      )

  -- A step of the thread, with the invariant.
  step-IsKept :
      (now : ℕ) (since : List Item) (s : Session) (v : Inv front (before ++ since) s)
      → s.writer.shutdown ≡ true
      → IsKept s
      → (t : Session) × (step_at fd s.pc now s.writer s.rec ≡ some t)
        × (v' : Inv front (before ++ since) t) × (t.writer.shutdown ≡ true)
        × (t.writer.joinable ≡ s.writer.joinable)
        × (s.pc ≢ exited → rank t.pc (length v'.queued) < rank s.pc (length v.queued))
        × IsKept t
  step-IsKept now since s v sh kept =
      let (t, e, v', m) = step_at-Inv ok front (before ++ since) s.pc now s.writer s.rec v in
      (
        t,
        e,
        v',
        m.shutdown ∙ sh,
        m.joinable,
        m.lower sh,
        elim (Bool-cases (drained s.pc)) [
          | inl last ↦
              let same : t.writer.disk ≡ s.writer.disk =
                subst (SameDisk s.writer) e (drained-SameDisk s.pc now s.writer s.rec last) in
              λ d. let (more, b) = kept last in (more, ap (λ k. k.bytes) same ∙ b)
          | inr going ↦ empty-IsKept since t v' (
              subst (λ b. Live b t.pc (length v'.queued)) sh
                (m.live (subst (λ b. Live b s.pc (length v.queued)) (sym sh) (λ d. absurd cc))))
        ],
      )

  -- Where the thread stands after an interleaving with pushes, once `shutdown_` is set.
  record Later (since : List Item) (t : Session) : Type 0 where
    inv : Inv front (before ++ since) t
    shutdown : t.writer.shutdown ≡ true
    kept : IsKept t

  run_events-Later :
      (events : List Event) (since : List Item) (s : Session)
      → Later since s
      → NoneDropped fd s events
      → (t : Session) × (run_events fd s events ≡ some t) × Later (since ++ taken fd s events) t
  unfolding run_events taken writer_push
  run_events-Later [] since s l d = (s, refl, subst (λ a. Later a s) (sym (append-nil since)) l)
  run_events-Later (produce x ∷ events) since s l (h, took, d) =
      let b = (writer_push s.writer x).1 in
      let now_taken = if b then item_of_sample x ∷ [] else [] in
      let v1 = push_step-Inv front (before ++ since) s x l.inv h took in
      let l1 : Later (since ++ now_taken) (push_step s x) = record {
        inv = subst (λ a. Inv front a (push_step s x)) (append_assoc before since now_taken) v1;
        shutdown = l.shutdown;
        kept = l.kept;
      } in
      let (t, e, l2) = run_events-Later events (since ++ now_taken) (push_step s x) l1 d in
      (
        t,
        e,
        subst (λ a. Later a t)
            (append_assoc since now_taken (taken fd (push_step s x) events)
              ∙ ap (λ r. since ++ r)
                  (taken_cons b (item_of_sample x) (taken fd (push_step s x) events)))
            l2,
      )
  run_events-Later (tick now ∷ events) since s l d =
      let (s1, e1, v1, sh, j, lower, kept) = step-IsKept now since s l.inv l.shutdown l.kept in
      rw (e1, run_events, taken)
        (run_events-Later events since s1 (record { inv = v1; shutdown = sh; kept = kept })
          (d s1 e1))

  drive-Later :
      (fuel : ℕ) (clock : ℕ → ℕ) (since : List Item) (s : Session) (l : Later since s)
      → rank s.pc (length l.inv.queued) < fuel
      → (t : Session) × (drive fd fuel clock s ≡ some t) × Later since t × (t.pc ≡ exited)
  unfolding drive
  drive-Later zero clock since s l h = absurd (omega arith)
  drive-Later (suc fuel) clock since s l h =
      let (s1, e1, v1, sh, j, lower, kept) =
        step-IsKept (clock fuel) since s l.inv l.shutdown l.kept in
      elim (Bool-cases (has_exited s.pc)) [
        | inl done ↦ (s, rw (e1, done, drive) refl, l, has_exited-exited s.pc done)
        | inr going ↦
            let less = lower (not_exited s.pc going) in
            let (t, e, l', out) =
              drive-Later fuel clock since s1 (record { inv = v1; shutdown = sh; kept = kept })
                (omega arith) in
            (t, rw (e1, going, drive) e, l', out)
      ]

  -- `Close` from a thread in its loop.
  pub close_beside-Inv :
      (clock : ℕ → ℕ) (events : List Event) (s : Session)
      → (v : Inv front before s) → Live false s.pc (length v.queued)
      → s.writer.joinable ≡ true
      → NoneDropped fd (stopping s) events
      → (t : Session) × (first lost : List Item) × (close_beside fd clock events s ≡ some t)
        × (t.writer.disk.bytes ≡ front ++ items_bytes (before ++ first))
        × (taken fd (stopping s) events ≡ first ++ lost)
        × (run_events fd (stopping s) events ≢ none)
        × Holds 12 0 t.writer.ring lost
        × (t.writer.synced ≡ length t.writer.disk.bytes)
        × (t.writer.is_open ≡ false)
        × (t.writer.joinable ≡ false)
  close_beside-Inv clock events s v live j d =
      let v0 : Inv front (before ++ []) (stopping s) = record {
        written = v.written;
        queued = v.queued;
        holds = v.holds;
        bytes = v.bytes;
        all = append-nil before ∙ v.all;
        is_open = v.is_open;
        record_ok = v.record_ok;
      } in
      let l0 : Later [] (stopping s) = record {
        inv = v0;
        shutdown = refl;
        kept = empty-IsKept [] (stopping s) v0 (Live-switch s.pc (length v.queued) live);
      } in
      let (s1, e1, l1) = run_events-Later events [] (stopping s) l0 d in
      let (t, e2, l2, out) =
        drive-Later close_fuel clock (taken fd (stopping s) events) s1 l1
          (omega (arith, rank_le s1.pc (length l1.inv.queued), l1.inv.holds.few)) in
      let w = l2.inv in
      let (bytes_more, in_file) = l2.kept (ap drained out) in
      let all_of : before ++ taken fd (stopping s) events ≡ w.written ++ w.queued =
        w.all ∙ ap (λ pc. w.written ++ (in_hand pc t.rec ++ w.queued)) out in
      let (first, written, rest) =
        continues before (taken fd (stopping s) events) w.written w.queued all_of (
          omega (
            arith,
            ap length (sym w.bytes ∙ in_file),
            length-append front (items_bytes w.written),
            length-append front (items_bytes before ++ bytes_more),
            length-append (items_bytes before) bytes_more,
          )) in
      (
        record t { writer = record (sync t.writer) { joinable = false; is_open = false } },
        first,
        w.queued,
        close_beside_path fd clock events s s1 t j e1 e2 w.is_open,
        w.bytes ∙ ap (λ l. front ++ items_bytes l) written,
        rest,
        (λ n. let q = sym e1 ∙ n in cc),
        w.holds,
        refl,
        refl,
        refl,
      )
