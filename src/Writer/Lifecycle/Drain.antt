-- ===== src/Writer/Lifecycle/Drain.antt =====
-- Runs of the writer thread: any interleaving with pushes, and the run to the end that `Close` waits for.
use tri_drishti_chrono_cap.Common.{
  ℕ, zero, suc, ◌+◌, ◌*◌, ◌≤◌, ◌<◌, ◌≡◌, ◌≢◌, refl, ap, sym, subst, ◌∙◌, arith, if◌then◌else◌, Bool,
  Bool-cases, inl, inr, true, false, Option, none, some, List, [], ◌∷◌, ◌++◌, append-nil,
  append_assoc, length,
}
use tri_drishti_chrono_cap.Ring.Queue.{Item, item_of_sample}
use tri_drishti_chrono_cap.Writer.{sync, writer_push}
use tri_drishti_chrono_cap.Writer.Output.{Descriptor, IsReliable}
use tri_drishti_chrono_cap.Writer.Format.{items_bytes}
use tri_drishti_chrono_cap.Writer.Thread.{
  Pc, at_check, at_pop, at_write, at_flush, at_idle, at_final_pop, at_final_write, at_final_flush,
  exited, Session, Event, produce, tick, push_step, run_events, taken, NoneDropped,
}
use tri_drishti_chrono_cap.Writer.Thread.Inv.{in_hand, Inv, rank, final, drained, Live}
use tri_drishti_chrono_cap.Writer.Thread.Pops.{push_step-Inv}
use tri_drishti_chrono_cap.Writer.Thread.Steps.{step_at-Inv}
use tri_drishti_chrono_cap.Writer.Lifecycle.{
  has_exited, close_file, stopping, drive, close, close_beside, close_fuel, finish,
}

pub has_exited-exited : (pc : Pc) → has_exited pc ≡ true → pc ≡ exited
has_exited-exited exited e = refl
has_exited-exited _ e = absurd cc

pub not_exited : (pc : Pc) → has_exited pc ≡ false → pc ≢ exited
not_exited pc e h = let t = ap has_exited h in cc

pub nil_of_length : (q : List Item) → length q ≡ 0 → q ≡ []
nil_of_length [] e = refl
nil_of_length (x ∷ q) e = absurd (omega arith)

pub taken_cons :
    (b : Bool) (x : Item) (rest : List Item)
    → (if b then x ∷ [] else []) ++ rest ≡ (if b then x ∷ rest else rest)
taken_cons true x rest = refl
taken_cons false x rest = refl

pub Live-switch : (pc : Pc) (n : ℕ) → final pc ≡ false → Live true pc n
Live-switch at_final_flush n e = absurd cc
Live-switch exited n e = absurd cc
Live-switch _ n e = λ d. absurd cc

pub rank_le : (pc : Pc) (n : ℕ) → rank pc n ≤ 6 + 2 * n
rank_le exited n = omega arith
rank_le at_final_flush n = omega arith
rank_le at_final_pop n = omega arith
rank_le at_final_write n = omega arith
rank_le at_check n = omega arith
rank_le at_flush n = omega arith
rank_le at_idle n = omega arith
rank_le (at_pop drained_any) n = omega arith
rank_le at_write n = omega arith

-- `Close` beside pushes, on the path to a thread that has exited with the file open.
pub close_beside_path :
    (fd : Descriptor) (clock : ℕ → ℕ) (events : List Event) (s s1 t : Session)
    → s.writer.joinable ≡ true
    → run_events fd (stopping s) events ≡ some s1
    → drive fd close_fuel clock s1 ≡ some t
    → t.writer.is_open ≡ true
    → close_beside fd clock events s
      ≡ some (record t { writer = record (sync t.writer) { joinable = false; is_open = false } })
unfolding close_beside
close_beside_path fd clock events s s1 t j e1 e2 o =
    let closed : close_file (record t.writer { joinable = false })
        ≡ record (sync t.writer) { joinable = false; is_open = false } =
      ap
        (λ (b : Bool).
          if b
          then record (sync t.writer) { joinable = false; is_open = false }
          else record t.writer { joinable = false })
        o in
    ap
      (λ (b : Bool).
        if b
        then (elim (run_events fd (stopping s) events) [
          | none ↦ none
          | some s' ↦ finish fd (drive fd close_fuel clock s')
        ])
        else some (record s { writer = close_file s.writer }))
      j
    ∙ ap
        (λ (o : Option Session). elim o [
          | none ↦ none
          | some s' ↦ finish fd (drive fd close_fuel clock s')
        ])
        e1
    ∙ ap (finish fd) e2
    ∙ ap (λ x. some (record t { writer = x })) closed

module _ {fd : Descriptor} (ok : IsReliable fd) (front : List ℕ) where
  -- Any interleaving of pushes and steps of the thread, before `shutdown_` is set.
  pub run_events-Inv :
      (events : List Event) (accepted : List Item) (s : Session)
      → (v : Inv front accepted s) → Live false s.pc (length v.queued)
      → s.writer.shutdown ≡ false
      → s.writer.joinable ≡ true
      → NoneDropped fd s events
      → (s' : Session) × (run_events fd s events ≡ some s')
        × (s'.writer.joinable ≡ true)
        × (v' : Inv front (accepted ++ taken fd s events) s') × Live false s'.pc (length v'.queued)
  unfolding run_events taken writer_push
  run_events-Inv [] accepted s v l sh j d =
      (s, refl, j, subst (λ a. Inv front a s) (sym (append-nil accepted)) v, l)
  run_events-Inv (produce x ∷ events) accepted s v l sh j (h, took, d) =
      let b = (writer_push s.writer x).1 in
      let now_taken = if b then item_of_sample x ∷ [] else [] in
      let v1 = push_step-Inv front accepted s x v h took in
      let (s', e, j', v', l') =
        run_events-Inv events (accepted ++ now_taken) (push_step s x) v1 l sh j d in
      (
        s',
        e,
        j',
        subst (λ a. Inv front a s')
            (append_assoc accepted now_taken (taken fd (push_step s x) events)
              ∙ ap (λ t. accepted ++ t)
                  (taken_cons b (item_of_sample x) (taken fd (push_step s x) events)))
            v',
        l',
      )
  run_events-Inv (tick now ∷ events) accepted s v l sh j d =
      let (s1, e1, v1, m) = step_at-Inv ok front accepted s.pc now s.writer s.rec v in
      let l0 : Live s.writer.shutdown s.pc (length v.queued) = rw sh l in
      let l1 : Live false s1.pc (length v1.queued) =
        subst (λ b. Live b s1.pc (length v1.queued)) sh (m.live l0) in
      rw (e1, run_events, taken)
        (run_events-Inv events accepted s1 v1 l1 (m.shutdown ∙ sh) (m.joinable ∙ j) (d s1 e1))

  drive-Inv :
      (fuel : ℕ) (clock : ℕ → ℕ) (accepted : List Item) (s : Session)
      → (v : Inv front accepted s) → Live true s.pc (length v.queued)
      → s.writer.shutdown ≡ true
      → rank s.pc (length v.queued) < fuel
      → (s' : Session) × (drive fd fuel clock s ≡ some s')
        × (s'.writer.disk.bytes ≡ front ++ items_bytes accepted)
        × (s'.writer.is_open ≡ true)
  unfolding drive
  drive-Inv zero clock accepted s v l sh h = absurd (omega arith)
  drive-Inv (suc fuel) clock accepted s v l sh h =
      let (s1, e1, v1, m) = step_at-Inv ok front accepted s.pc (clock fuel) s.writer s.rec v in
      elim (Bool-cases (has_exited s.pc)) [
        | inl done ↦
            let (b, o) = exited_Inv s v (has_exited-exited s.pc done) l in
            (s, rw (e1, done, drive) refl, b, o)
        | inr going ↦
            let l0 : Live s.writer.shutdown s.pc (length v.queued) = rw sh l in
            let l1 : Live true s1.pc (length v1.queued) =
              subst (λ b. Live b s1.pc (length v1.queued)) sh (m.live l0) in
            let less : rank s1.pc (length v1.queued) < rank s.pc (length v.queued) =
              m.lower sh (not_exited s.pc going) in
            let (s', e, b, o) =
              drive-Inv fuel clock accepted s1 v1 l1 (m.shutdown ∙ sh) (omega arith) in
            (s', rw (e1, going, drive) e, b, o)
      ]
    where
      exited_Inv :
          (s : Session) (v : Inv front accepted s)
          → s.pc ≡ exited
          → Live true s.pc (length v.queued)
          → (s.writer.disk.bytes ≡ front ++ items_bytes accepted) × (s.writer.is_open ≡ true)
      exited_Inv s v e l =
          let none_left : v.queued ≡ [] = nil_of_length v.queued (l (ap drained e)) in
          let same : accepted ≡ v.written =
            v.all
            ∙ ap (λ p. v.written ++ (in_hand p s.rec ++ v.queued)) e
            ∙ ap (λ q. v.written ++ q) none_left
            ∙ append-nil v.written in
          (v.bytes ∙ ap (λ l. front ++ items_bytes l) (sym same), v.is_open)

  -- `Close` returns, with every record that was taken in the file, and all of the file synced.
  pub close-Inv :
      (clock : ℕ → ℕ) (accepted : List Item) (s : Session)
      → (v : Inv front accepted s) → Live false s.pc (length v.queued)
      → s.writer.joinable ≡ true
      → (s' : Session) × (close fd clock s ≡ some s')
        × (s'.writer.disk.bytes ≡ front ++ items_bytes accepted)
        × (s'.writer.synced ≡ length s'.writer.disk.bytes)
        × (s'.writer.is_open ≡ false)
        × (s'.writer.joinable ≡ false)
  unfolding close
  close-Inv clock accepted s v l j =
      let stopping : Session = record s { writer = record s.writer { shutdown = true } } in
      let v1 : Inv front accepted stopping = record {
        written = v.written;
        queued = v.queued;
        holds = v.holds;
        bytes = v.bytes;
        all = v.all;
        is_open = v.is_open;
        record_ok = v.record_ok;
      } in
      let (s', e, b, o) =
        drive-Inv close_fuel clock accepted stopping v1 (Live-switch s.pc _ l) refl
          (omega (arith, rank_le s.pc (length v.queued), v.holds.few)) in
      let closed : close_file (record s'.writer { joinable = false })
          ≡ record (sync s'.writer) { joinable = false; is_open = false } =
        ap
          (λ (b : Bool).
            if b
            then record (sync s'.writer) { joinable = false; is_open = false }
            else record s'.writer { joinable = false })
          o in
      (
        record s' { writer = record (sync s'.writer) { joinable = false; is_open = false } },
        ap
              (λ (b : Bool).
                if b
                then finish fd (drive fd close_fuel clock stopping)
                else some (record s { writer = close_file s.writer }))
              j
            ∙ ap (finish fd) e
            ∙ ap (λ w. some (record s' { writer = w })) closed,
        b,
        refl,
        refl,
        refl,
      )
