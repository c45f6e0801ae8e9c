-- ===== src/Programs/EndToEnd/Loop.antt =====
-- The recorder's loop of ticks, as the interleaving that it lets happen; and the pushes before it.
use tri_drishti_chrono_cap.Common.{
  ◌+◌, ◌≤◌, ◌<◌, ◌^◌, ◌≡◌, refl, ◌∙◌, subst, sym, arith, if◌then◌else◌, Bool, not, true, false,
  Option, none, some, List, [], ◌∷◌, ◌++◌, append-nil, append_assoc, length, length-append, All,
  ltb_of_le, ltb_of_lt,
}
use tri_drishti_chrono_cap.Ring.{Sample}
use tri_drishti_chrono_cap.Ring.Queue.{Item, item_of_sample, IsSample}
use tri_drishti_chrono_cap.Ring.Runs.{queue_push}
use tri_drishti_chrono_cap.Ring.Fifo.{Holds}
use tri_drishti_chrono_cap.Ring.Refine.{push_refines}
use tri_drishti_chrono_cap.Writer.{writer_push}
use tri_drishti_chrono_cap.Writer.Output.{Descriptor}
use tri_drishti_chrono_cap.Writer.Thread.{
  Session, Event, produce, tick, push_step, thread_step, run_events,
}
use tri_drishti_chrono_cap.Writer.Thread.Pushed.{items_of, AllFit}
use tri_drishti_chrono_cap.Programs.Recorder.{Round, signal_all, push_all, main_loop}

-- Whether the loop ends in these rounds, and what happens until then.
abbrev pub ends : Bool → List Round → Bool
ends false rounds = true
ends true [] = false
ends true (r ∷ rounds) = if r.tick_ok then ends (signal_all true r.signals) rounds else true

abbrev pub events_of : Bool → List Round → List Event
events_of false rounds = []
events_of true [] = []
events_of true (r ∷ rounds) =
    r.events ++ (if r.tick_ok then events_of (signal_all true r.signals) rounds else [])

module _ (fd : Descriptor) where
  abbrev then_run : Option Session → List Event → Option Session
  then_run none events = none
  then_run (some s) events = run_events fd s events

  run_events-append :
      (before events : List Event) (s : Session)
      → run_events fd s (before ++ events) ≡ then_run (run_events fd s before) events
  unfolding run_events
  run_events-append [] events s = refl
  run_events-append (produce x ∷ before) events s = run_events-append before events (push_step s x)
  run_events-append (tick now ∷ before) events s =
      by_step (run_events-append before events) (thread_step fd now s)
    where
      by_step :
          ((s' : Session)
            → run_events fd s' (before ++ events) ≡ then_run (run_events fd s' before) events)
          → (o : Option Session)
          → (elim o [ none ↦ none | some s' ↦ run_events fd s' (before ++ events) ])
            ≡ then_run (elim o [ none ↦ none | some s' ↦ run_events fd s' before ]) events
      by_step ih none = refl
      by_step ih (some s') = ih s'

  -- A loop that ends has run its interleaving.
  pub main_loop-run_events :
      (running : Bool) (rounds : List Round) (s : Session)
      → ends running rounds ≡ true
      → main_loop fd running s rounds ≡ run_events fd s (events_of running rounds)
  unfolding main_loop run_events
  main_loop-run_events false rounds s e = refl
  main_loop-run_events true [] s e = absurd cc
  main_loop-run_events true (r ∷ rounds) s e =
      by_round r.tick_ok
        (λ going s'.
          let e' : ends (signal_all true r.signals) rounds ≡ true = rw going at e in
          main_loop-run_events (signal_all true r.signals) rounds s' e')
        (run_events fd s r.events)
      ∙ sym (run_events-append r.events _ s)
    where
      by_round :
          (ok : Bool)
          → (ok ≡ true
              → (s' : Session)
              → main_loop fd (signal_all true r.signals) s' rounds
                ≡ run_events fd s' (events_of (signal_all true r.signals) rounds))
          → (o : Option Session)
          → (elim o [
            | none ↦ none
            | some s' ↦
                if not ok then some s' else main_loop fd (signal_all true r.signals) s' rounds
          ])
            ≡ then_run o (if ok then events_of (signal_all true r.signals) rounds else [])
      by_round ok ih none = refl
      by_round true ih (some s') = ih refl s'
      by_round false ih (some s') = refl

queue_push-room :
    (q : List Item) (x : Sample)
    → x.len ≤ 64
    → length q < 2 ^ 12
    → queue_push (2 ^ 12) q x ≡ (q ++ (item_of_sample x ∷ []), true)
unfolding queue_push
queue_push-room q x small room = rw (ltb_of_le {a = 64} {b = x.len} small, ltb_of_lt room) refl

-- Pushes of payloads that fit, while the ring has room, all wait in it, and nothing else has changed.
pub push_all-Holds :
    (xs : List Sample) (s : Session) (q : List Item)
    → Holds 12 0 s.writer.ring q
    → All IsSample xs
    → AllFit xs
    → length q + length xs ≤ 2 ^ 12
    → Holds 12 0 (push_all s xs).writer.ring (q ++ items_of xs)
      × ((push_all s xs).writer.joinable ≡ s.writer.joinable)
unfolding push_all writer_push
push_all-Holds [] s q h ok f room =
    (subst (λ l. Holds 12 0 s.writer.ring l) (sym (append-nil q)) h, refl)
push_all-Holds (x ∷ xs) s q h (i, ok) (small, f) room =
    let (e, h') = push_refines 12 (omega arith) x h i (λ _. omega arith) in
    let h1 : Holds 12 0 (push_step s x).writer.ring (q ++ (item_of_sample x ∷ [])) =
      subst (λ (p : List Item × Bool). Holds 12 0 (push_step s x).writer.ring p.0)
        (queue_push-room q x small (omega arith)) h' in
    let (rest, j) =
      push_all-Holds xs (push_step s x) (q ++ (item_of_sample x ∷ [])) h1 ok f
        (omega (arith, length-append q (item_of_sample x ∷ []))) in
    (
      subst (λ l. Holds 12 0 (push_all (push_step s x) xs).writer.ring l)
          (append_assoc q (item_of_sample x ∷ []) (items_of xs)) rest,
      j,
    )
