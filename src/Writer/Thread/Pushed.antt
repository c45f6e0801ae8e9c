-- ===== src/Writer/Thread/Pushed.antt =====
-- Where no push that fits is turned down, the records that were taken are the records that were
-- pushed.
use tri_drishti_chrono_cap.Common.{
  ◌≤◌, ◌≡◌, ◌≢◌, refl, ap, Option-cases, inl, inr, none, List, [], ◌∷◌,
}
use tri_drishti_chrono_cap.Ring.{Sample}
use tri_drishti_chrono_cap.Ring.Queue.{Item, item_of_sample}
use tri_drishti_chrono_cap.Writer.Output.{Descriptor}
use tri_drishti_chrono_cap.Writer.Thread.{
  Session, Event, produce, tick, push_step, thread_step, run_events, taken, NoneDropped,
}

-- The samples of the pushes in an interleaving, in their order.
abbrev pub pushes : List Event → List Sample
pushes [] = []
pushes (produce x ∷ events) = x ∷ pushes events
pushes (tick now ∷ events) = pushes events

abbrev pub items_of : List Sample → List Item
items_of [] = []
items_of (x ∷ xs) = item_of_sample x ∷ items_of xs

-- Every payload fits a slot.
abbrev pub AllFit : List Sample → Type 0
AllFit [] = Unit
AllFit (x ∷ xs) = (x.len ≤ 64) × AllFit xs

pub taken-pushes :
    (fd : Descriptor) (events : List Event) (s : Session)
    → run_events fd s events ≢ none
    → NoneDropped fd s events
    → AllFit (pushes events)
    → taken fd s events ≡ items_of (pushes events)
unfolding run_events taken
taken-pushes fd [] s r d f = refl
taken-pushes fd (produce x ∷ events) s r (h, took, d) (fit, f) =
    rw (took fit) (ap (λ l. item_of_sample x ∷ l) (taken-pushes fd events (push_step s x) r d f))
taken-pushes fd (tick now ∷ events) s r d f = elim (Option-cases (thread_step fd now s)) [
  | inl stuck ↦ absurd (r (rw (stuck, run_events) refl))
  | inr (s', e) ↦
      rw (e, taken) (taken-pushes fd events s' (λ n. r (rw (e, run_events) n)) (d s' e) f)
]
