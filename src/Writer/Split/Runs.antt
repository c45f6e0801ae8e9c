-- ===== src/Writer/Split/Runs.antt =====
-- Any row of moves, and the thread's run to its end, keep what holds.
use tri_drishti_chrono_cap.Common.{
  ℕ, zero, suc, ◌≤◌, ◌≡◌, refl, sym, subst, ◌∙◌, Bool-cases, inl, inr, false, some, List, [], ◌∷◌,
  ◌++◌, append-nil, append_assoc,
}
use tri_drishti_chrono_cap.Ring.Queue.{Item}
use tri_drishti_chrono_cap.Ring.Threads.{Producer}
use tri_drishti_chrono_cap.Writer.Output.{Descriptor, IsReliable}
use tri_drishti_chrono_cap.Writer.Thread.{Session}
use tri_drishti_chrono_cap.Writer.Thread.Inv.{final}
use tri_drishti_chrono_cap.Ring.Threads.{enter, advance, claim}
use tri_drishti_chrono_cap.Writer.Thread.Dry.{IfSome, IsLooping, step-IsLooping}
use tri_drishti_chrono_cap.Writer.Lifecycle.{has_exited, drive}
use tri_drishti_chrono_cap.Writer.Split.{
  Shared, view, Move, entering, advancing, ticking, producing, run_moves, claimed_in, HaveRoom,
}
use tri_drishti_chrono_cap.Writer.Split.Inv.{IsSettled, IsDone, Kept}
use tri_drishti_chrono_cap.Writer.Split.Steps.{Stepped, step_at-Steps}
use tri_drishti_chrono_cap.Writer.Split.Moves.{Produced, entering-Produced, advancing-Produced}

-- What moves leave: what holds, with their claims in the log.
pub record Ran (front : List ℕ) (log : List Item) (s t : Shared) : Type 0 where
  pub kept : Kept front log t
  pub joinable : t.session.writer.joinable ≡ s.session.writer.joinable
  pub shutdown : t.session.writer.shutdown ≡ s.session.writer.shutdown
  pub looping : s.session.writer.shutdown ≡ false → IsLooping s.session → IsLooping t.session
  pub settled : (m : ℕ) → IsSettled m s → IsSettled m t
  pub done : (m : ℕ) → IsSettled m s → IsDone m s.session → IsDone m t.session

module _ {fd : Descriptor} (ok : IsReliable fd) (front : List ℕ) where
  -- Moves behind a producer's step, and behind the thread's.
  Produced-then :
      {log claimed : List Item} {s t u : Shared}
      → Produced front log s t
      → t.session.writer.joinable ≡ s.session.writer.joinable
      → t.session.writer.shutdown ≡ s.session.writer.shutdown
      → t.session.pc ≡ s.session.pc
      → Ran front claimed t u
      → Ran front claimed s u
  Produced-then p j sh pc r = record {
    kept = r.kept;
    joinable = r.joinable ∙ j;
    shutdown = r.shutdown ∙ sh;
    looping = λ off l. r.looping (sh ∙ off) (subst (λ q. final q ≡ false) (sym pc) l);
    settled = λ m st. r.settled m (p.settled m st);
    done = λ m st d. r.done m (p.settled m st) (p.done m d);
  }

  IsSettled-step :
      {log : List Item} (s : Shared) (t : Session) (m : ℕ)
      → Stepped front log s t
      → IsSettled m s
      → IsSettled m (record { session = t; producers = s.producers })
  IsSettled-step s t m p st = record {
    made = subst (λ n. m ≤ n) (sym p.claims) st.made;
    published = st.published;
  }

  Stepped-then :
      {log claimed : List Item} (s : Shared) (t : Session) {u : Shared}
      → Stepped front log s t
      → (s.session.writer.shutdown ≡ false → IsLooping s.session → IsLooping t)
      → Ran front claimed (record { session = t; producers = s.producers }) u
      → Ran front claimed s u
  Stepped-then s t p l r = record {
    kept = r.kept;
    joinable = r.joinable ∙ p.joinable;
    shutdown = r.shutdown ∙ p.shutdown;
    looping = λ off at. r.looping (p.shutdown ∙ off) (l off at);
    settled = λ m st. r.settled m (IsSettled-step s t m p st);
    done = λ m st d. r.done m (IsSettled-step s t m p st) (p.done m st d);
  }

  pub run-Ran :
      (moves : List Move) (log : List Item) (s : Shared)
      → Kept front log s
      → HaveRoom fd s moves
      → (t : Shared) × (run_moves fd s moves ≡ some t)
        × Ran front (log ++ claimed_in fd s moves) s t
  unfolding run_moves claimed_in
  run-Ran [] log s v room = (
    s,
    refl,
    record {
      kept = subst (λ l. Kept front l s) (sym (append-nil log)) v;
      joinable = refl;
      shutdown = refl;
      looping = λ off l. l;
      settled = λ m st. st;
      done = λ m st d. d;
    },
  )
  run-Ran (entering i x ∷ moves) log s v (room, later) =
      let p = entering-Produced s i x v room in
      let next_s = producing s (enter i x) in
      let (t, e, r) = run-Ran moves (log ++ claim 12 (view s) (enter i x)) next_s p.kept later in
      (
        t,
        e,
        subst (λ l. Ran front l s t)
            (append_assoc log (claim 12 (view s) (enter i x)) (claimed_in fd next_s moves))
            (Produced-then p refl refl refl r),
      )
  run-Ran (advancing i ∷ moves) log s v later =
      let p = advancing-Produced s i v in
      let next_s = producing s (advance i) in
      let (t, e, r) = run-Ran moves (log ++ []) next_s p.kept later in
      (
        t,
        e,
        subst (λ l. Ran front l s t) (append_assoc log [] (claimed_in fd next_s moves))
            (Produced-then p refl refl refl r),
      )
  run-Ran (ticking now ∷ moves) log s v later =
      let w = s.session in
      let (u, e, p) = step_at-Steps ok front log s.producers w.pc now w.writer w.rec v in
      let (t, e', r) =
        run-Ran moves log (record { session = u; producers = s.producers }) p.kept (later u e) in
      rw (e, run_moves, claimed_in)
        (
          t,
          e',
          Stepped-then s u p
              (λ off l.
                subst (IfSome IsLooping) e (step-IsLooping fd w.pc now w.writer w.rec off l))
              r,
        )

  -- The thread on its own to its end.
  abbrev pub Ended : List Item → (ℕ → Producer) → ℕ → Session → Type 0
  Ended log producers m t =
      Kept front log (record { session = t; producers = producers }) × IsDone m t

  pub drive-Ended :
      (fuel : ℕ) (clock : ℕ → ℕ) (log : List Item) (producers : ℕ → Producer) (m : ℕ) (s : Session)
      → Kept front log (record { session = s; producers = producers })
      → IsSettled m (record { session = s; producers = producers })
      → IsDone m s
      → IfSome (Ended log producers m) (drive fd fuel clock s)
  unfolding drive
  drive-Ended zero clock log producers m s v st d = tt
  drive-Ended (suc fuel) clock log producers m s v st d =
      let (u, e, p) = step_at-Steps ok front log producers s.pc (clock fuel) s.writer s.rec v in
      let shared : Shared = record { session = s; producers = producers } in
      let ih =
        drive-Ended fuel clock log producers m u p.kept (IsSettled-step shared u m p st)
          (p.done m st d) in
      elim (Bool-cases (has_exited s.pc)) [
        | inl out ↦ rw (e, out, drive) (v, d)
        | inr going ↦ rw (e, going, drive) ih
      ]
