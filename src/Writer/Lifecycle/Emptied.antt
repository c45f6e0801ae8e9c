-- ===== src/Writer/Lifecycle/Emptied.antt =====
-- `Close` drains the ring as far as the consumer can reach.
use tri_drishti_chrono_cap.Common.{
  ℕ, zero, suc, ◌≡◌, refl, ap, sym, subst, ◌∙◌, Bool-cases, inl, inr, true, false, some,
}
use tri_drishti_chrono_cap.Common.{if◌then◌else◌, Bool, Option, none}
use tri_drishti_chrono_cap.Writer.Output.{Descriptor}
use tri_drishti_chrono_cap.Writer.Thread.{Pc, at_final_flush, exited, Session, step_at}
use tri_drishti_chrono_cap.Writer.Thread.Inv.{final, drained}
use tri_drishti_chrono_cap.Writer.Thread.Dry.{IfSome, IsDry, IsLooping, step-IsDry}
use tri_drishti_chrono_cap.Ring.Steps.{next}
use tri_drishti_chrono_cap.Writer.Lifecycle.{
  drive, close, stopping, close_fuel, finish, close_file, has_exited,
}
use tri_drishti_chrono_cap.Writer.Lifecycle.Drain.{has_exited-exited}

-- The next `TryPop` would find nothing.
abbrev pub IsEmptied : Session → Type 0
IsEmptied s = (next 12 s.writer.ring).ready ≡ false

module _ (fd : Descriptor) where
  drive-IsDry :
      (fuel : ℕ) (clock : ℕ → ℕ) (s : Session) → IsDry s → IfSome IsEmptied (drive fd fuel clock s)
  unfolding drive
  drive-IsDry zero clock s dry = tt
  drive-IsDry (suc fuel) clock s dry =
      by_step (step_at fd s.pc (clock fuel) s.writer s.rec)
        (step-IsDry fd s.pc (clock fuel) s.writer s.rec dry) (λ s'. drive-IsDry fuel clock s')
    where
      by_step :
          (o : Option Session)
          → IfSome IsDry o
          → ((s' : Session) → IsDry s' → IfSome IsEmptied (drive fd fuel clock s'))
          → IfSome IsEmptied (elim o [
            | none ↦ none
            | some s' ↦
                let rest = drive fd fuel clock s' in if has_exited s.pc then some s else rest
          ])
      by_step none d ih = tt
      by_step (some s') d ih = elim (Bool-cases (has_exited s.pc)) [
        | inl done ↦ rw done (dry (ap drained (has_exited-exited s.pc done)))
        | inr going ↦ rw going (ih s' d)
      ]

  finish-IsEmptied : (o : Option Session) → IfSome IsEmptied o → IfSome IsEmptied (finish fd o)
  finish-IsEmptied none d = tt
  finish-IsEmptied (some s) d = elim (Bool-cases s.writer.is_open) [
    | inl t ↦ rw t d
    | inr f ↦ rw f d
  ]

  -- From the loop, `Close` ends where `TryPop` finds nothing.
  pub close-IsEmptied :
      (clock : ℕ → ℕ) (s : Session)
      → s.writer.joinable ≡ true
      → IsLooping s
      → IfSome IsEmptied (close fd clock s)
  unfolding close
  close-IsEmptied clock s j l =
      subst
        (λ (b : Bool). IfSome IsEmptied (
          if b
          then finish fd (drive fd close_fuel clock (stopping s))
          else some (record s { writer = close_file s.writer })))
        (sym j)
        (finish-IsEmptied (drive fd close_fuel clock (stopping s)) (
          drive-IsDry close_fuel clock (stopping s)
            (λ d. absurd (let q = sym (not_drained s.pc l) ∙ d in cc))))
    where
      not_drained : (pc : Pc) → final pc ≡ false → drained pc ≡ false
      not_drained at_final_flush e = absurd cc
      not_drained exited e = absurd cc
      not_drained _ e = refl
