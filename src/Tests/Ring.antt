-- ===== src/Tests/Ring.antt =====
-- Witnesses for the ring.
use tri_drishti_chrono_cap.Ring.Capacity.{capacity_ok, capacity_ok_iff}
use tri_drishti_chrono_cap.Common.{
  ℕ, ◌↔◌, ◌^◌, arith, ◌≡◌, refl, true, false, none, some, List, [], ◌∷◌, ◌++◌, map, replicate,
}
use tri_drishti_chrono_cap.Ring.{fresh, empty_record, MpscRingBuffer}
use tri_drishti_chrono_cap.Ring.Runs.{
  Call, push, pop, pushed, run, after, queue_push, queue_pop, queue_run, NeverFull,
}
use tri_drishti_chrono_cap.Ring.Runs
use tri_drishti_chrono_cap.Ring.Fifo.{Holds, stored-Holds}
use tri_drishti_chrono_cap.Ring.Steps.{stored}
use tri_drishti_chrono_cap.Ring.Refine.{run_refines, fresh-Holds}
use tri_drishti_chrono_cap.Ring.Conserve.{held, accepted, delivered, run_conserve}
use tri_drishti_chrono_cap.Ring.Overflow.{overflow_strands}
use tri_drishti_chrono_cap.Tests.Data.{first_sample, second_sample, first_item, second_item}
use mathlib.Core.List.{Perm}

abbrev calls : List Call
calls = push first_sample ∷ pop ∷ push second_sample ∷ push first_sample ∷ pop ∷ pop ∷ pop ∷ []

calls-NeverFull : NeverFull 2 [] calls
unfolding queue_push queue_pop
calls-NeverFull = (
  omega arith,
  λ _. omega arith,
  (omega arith, λ _. omega arith, (omega arith, λ _. omega arith, tt)),
)

run_refines_example : run 1 (fresh 1) empty_record calls ≡ queue_run 2 [] calls
run_refines_example = run_refines 1 (omega arith) calls empty_record (fresh-Holds 1) calls-NeverFull

run_conserve_example :
    Perm
      (delivered (run 1 (fresh 1) empty_record calls)
        ++ held (after 1 (fresh 1) empty_record calls).slots)
      (accepted calls (run 1 (fresh 1) empty_record calls) ++ held (fresh 1).slots)
run_conserve_example =
    run_conserve 1 calls (fresh 1) empty_record
      (record { size = (fresh-Holds 1).size; slots_ok = (fresh-Holds 1).slots_ok })
      (omega arith, (omega arith, (omega arith, tt)))

-- A ring of two slots with two records in it.
abbrev full_ring : MpscRingBuffer
full_ring = stored 1 (stored 1 (fresh 1) first_sample) second_sample

full_ring-Holds : Holds 1 0 full_ring (first_item ∷ second_item ∷ [])
full_ring-Holds =
    stored-Holds 1 (omega arith)
      (stored-Holds 1 (omega arith) (fresh-Holds 1) first_sample (omega arith) (omega arith)
        (omega arith))
      second_sample (omega arith) (omega arith) (omega arith)

overflow_strands_example :
    run 1 full_ring empty_record
      (push first_sample ∷ (replicate 2 pop ++ (push second_sample ∷ pop ∷ [])))
    ≡ pushed false
      ∷ (map (λ x. Runs.popped (some x)) (first_item ∷ second_item ∷ [])
          ++ (pushed true ∷ Runs.popped none ∷ []))
overflow_strands_example =
    overflow_strands 1 (omega arith) first_sample second_sample empty_record (omega arith)
      full_ring-Holds refl (omega arith) (omega arith) (omega arith)

capacity_ok_iff_example : (capacity_ok 4096 ≡ true) ↔ ((k : ℕ) × (4096 ≡ 2 ^ k))
capacity_ok_iff_example = capacity_ok_iff 4096 (omega arith) (omega arith)
