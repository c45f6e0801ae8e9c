-- ===== src/Writer/Thread/Dry.antt =====
-- The thread leaves its loop only once `shutdown_` is set, and its last drain only where `TryPop` finds
-- nothing.
use tri_drishti_chrono_cap.Common.{
  ℕ, ◌≡◌, refl, ap, sym, ◌∙◌, if◌then◌else◌, Bool, Bool-cases, inl, inr, true, false, Option, none,
  some,
}
use tri_drishti_chrono_cap.Ring.{PoppedRecord, MpscRingBuffer, try_pop}
use tri_drishti_chrono_cap.Ring.Steps.{next, try_pop-none, try_pop-some}
use tri_drishti_chrono_cap.Writer.{RecordWriter, ring_bits, write_record}
use tri_drishti_chrono_cap.Writer.Output.{Descriptor}
use tri_drishti_chrono_cap.Writer.Thread.{
  Pc, at_check, at_pop, at_write, at_flush, at_idle, at_final_pop, at_final_write, at_final_flush,
  exited, Session, pop_step, write_step, step_at,
}
use tri_drishti_chrono_cap.Writer.Thread.Inv.{final, drained}
use tri_drishti_chrono_cap.Writer.Thread.Flush.{maybe_flush-ring}

abbrev pub IfSome : (Session → Type 0) → Option Session → Type 0
IfSome P none = Unit
IfSome P (some s) = P s

-- Behind the last `TryPop` the next slot is not ready.
abbrev pub IsDry : Session → Type 0
IsDry s = drained s.pc ≡ true → (next 12 s.writer.ring).ready ≡ false

abbrev pub IsLooping : Session → Type 0
IsLooping s = final s.pc ≡ false

pop_drained :
    (got any : Bool)
    → drained (if got then at_write else (if any then at_flush else at_idle)) ≡ false
pop_drained true any = refl
pop_drained false true = refl
pop_drained false false = refl

pop_final :
    (got any : Bool) → final (if got then at_write else (if any then at_flush else at_idle)) ≡ false
pop_final true any = refl
pop_final false true = refl
pop_final false false = refl

module _ (fd : Descriptor) where
  write_step-IfSome :
      (P : Session → Type 0) (w : RecordWriter) (rec : PoppedRecord) (then_at : Pc)
      → ((w' : RecordWriter) → P (record { writer = w'; pc = then_at; rec = rec }))
      → IfSome P (write_step fd w rec then_at)
  write_step-IfSome P w rec then_at p = by_result (write_record fd w rec)
    where
      by_result :
          (o : Option (RecordWriter × Bool))
          → IfSome P (elim o [
            | none ↦ none
            | some (w', ok) ↦ some (record { writer = w'; pc = then_at; rec = rec })
          ])
      by_result none = tt
      by_result (some (w', ok)) = p w'

  pop_step-IsDry :
      (w : RecordWriter) (rec : PoppedRecord) → IsDry (pop_step w rec at_final_write at_final_flush)
  pop_step-IsDry w rec = elim (Bool-cases (next 12 w.ring).ready) [
    | inl full ↦ rw (try_pop-some 12 w.ring rec full) (λ d. absurd cc)
    | inr free ↦ rw (try_pop-none 12 w.ring rec free) (λ d. free)
  ]

  pub step-IsDry :
      (pc : Pc) (now : ℕ) (w : RecordWriter) (rec : PoppedRecord)
      → IsDry (record { writer = w; pc = pc; rec = rec })
      → IfSome IsDry (step_at fd pc now w rec)
  unfolding step_at
  step-IsDry at_check now w rec dry = elim (Bool-cases w.shutdown) [
    | inl t ↦ rw t (λ d. absurd cc)
    | inr f ↦ rw f (λ d. absurd cc)
  ]
  step-IsDry (at_pop any) now w rec dry =
      λ d. absurd (let q = sym (pop_drained (try_pop ring_bits w.ring rec).2 any) ∙ d in cc)
  step-IsDry at_write now w rec dry =
      write_step-IfSome IsDry w rec (at_pop true) (λ w' d. absurd cc)
  step-IsDry at_flush now w rec dry = λ d. absurd cc
  step-IsDry at_idle now w rec dry = λ d. absurd cc
  step-IsDry at_final_pop now w rec dry = pop_step-IsDry w rec
  step-IsDry at_final_write now w rec dry =
      write_step-IfSome IsDry w rec at_final_pop (λ w' d. absurd cc)
  step-IsDry at_final_flush now w rec dry =
      λ d. ap (λ (r : MpscRingBuffer). (next 12 r).ready) (maybe_flush-ring now w) ∙ dry refl
  step-IsDry exited now w rec dry = dry

  pub step-IsLooping :
      (pc : Pc) (now : ℕ) (w : RecordWriter) (rec : PoppedRecord)
      → w.shutdown ≡ false
      → final pc ≡ false
      → IfSome IsLooping (step_at fd pc now w rec)
  unfolding step_at
  step-IsLooping at_check now w rec sh l = rw sh refl
  step-IsLooping (at_pop any) now w rec sh l = pop_final (try_pop ring_bits w.ring rec).2 any
  step-IsLooping at_write now w rec sh l =
      write_step-IfSome IsLooping w rec (at_pop true) (λ w'. refl)
  step-IsLooping at_flush now w rec sh l = refl
  step-IsLooping at_idle now w rec sh l = refl
  step-IsLooping _ now w rec sh l = absurd cc
