-- ===== src/Ring/Refine.antt =====
-- While no push meets a full ring, the ring answers every sequence of calls as the bounded
-- first-in first-out queue does.
use tri_drishti_chrono_cap.Common.{
  ℕ, zero, suc, ◌^◌, ◌≤◌, ◌<◌, ◌≡◌, refl, ap, ap₂, ◌∙◌, sym, arith, dec_lt, ltb_of_lt, ltb_of_le,
  if◌then◌else◌, none, some, List, [], ◌∷◌, length, replicate, get_or, length-replicate, subst,
}
use tri_drishti_chrono_cap.Ring.{
  Sample, PoppedRecord, MpscRingBuffer, empty_slot, fresh, try_push, try_pop,
}
use tri_drishti_chrono_cap.Ring.Queue.{Item, item_of_record, waiting, IsSample}
use tri_drishti_chrono_cap.Ring.Steps.{
  IsSlot, ready_of_waiting, item_of_waiting, free_of_waiting, try_push-too_large, try_push-free,
  try_pop-none, try_pop-some, item-read_slot,
}
use tri_drishti_chrono_cap.Ring.Fifo.{
  Holds, waiting-next, waiting-claimed, stored-Holds, popped-Holds,
}
use tri_drishti_chrono_cap.Ring.Runs.{
  Call, push, pop, Reply, pushed, run, queue_push, queue_pop, queue_run, NeverFull,
}
use tri_drishti_chrono_cap.Ring.Runs

module _ (k : ℕ) (kk : k ≤ 64) where
  -- A push with room, or of a payload that is too large, is the queue's.
  pub push_refines :
      {r : MpscRingBuffer} {q : List Item} (s : Sample)
      → Holds k 0 r q
      → IsSample s
      → (s.len ≤ 64 → length q < 2 ^ k)
      → let (r', done) = try_push k r s in
        let (q', done') = queue_push (2 ^ k) q s in (done ≡ done') × Holds k 0 r' q'
  unfolding queue_push
  push_refines {r} {q} s v h room = elim (dec_lt 64 s.len) [
    | yes large ↦ rw (try_push-too_large k r s large, ltb_of_lt large) (refl, v)
    | no small ↦
        rw
          (
            try_push-free k r s (omega arith)
                (free_of_waiting _ (waiting-claimed k kk v (omega (arith, room (omega arith))))),
            ltb_of_le {a = 64} {b = s.len} (omega arith),
            ltb_of_lt (room (omega arith)),
          )
          (refl, stored-Holds k kk v s h (omega arith) (room (omega arith)))
  ]

  -- A pop hands over the oldest record and frees its slot; from an empty ring it changes nothing.
  pub pop_refines :
      {gap : ℕ} {r : MpscRingBuffer} {q : List Item} (out : PoppedRecord)
      → Holds k gap r q
      → let (r', out', done) = try_pop k r out in
        let (q', x) = queue_pop q in
        ((if done then some (item_of_record out') else none) ≡ x) × Holds k gap r' q'
  unfolding queue_pop
  pop_refines {gap} {r} {q = []} out v =
      rw (try_pop-none k r out (free_of_waiting _ (waiting-next k kk v))) (refl, v)
  pop_refines {gap} {r} {q = x ∷ q} out v =
      rw (try_pop-some k r out (ready_of_waiting _ (waiting-next k kk v))) (
        ap some (item-read_slot _ out (v.slots_ok _) ∙ item_of_waiting _ (waiting-next k kk v)),
        popped-Holds k kk v x q refl,
      )

  -- From a ring of at most 2 ^ 64 slots that holds the records of a queue, with no stray claim, at any indices: every
  -- reply to a sequence of pushes and pops is the bounded first-in first-out queue's, so long as
  -- each push passes as many bytes as it says and none of a payload that fits meets a full queue.
  pub run_refines :
      (calls : List Call) {r : MpscRingBuffer} {q : List Item} (out : PoppedRecord)
      → Holds k 0 r q
      → NeverFull (2 ^ k) q calls
      → run k r out calls ≡ queue_run (2 ^ k) q calls
  unfolding run queue_run
  run_refines [] out v f = refl
  run_refines (push s ∷ calls) out v f =
      let (e, v') = push_refines s v f.0 f.1 in
      ap₂ (λ b l. pushed b ∷ l) e (run_refines calls out v' f.2)
  run_refines (pop ∷ calls) {r} out v f =
      let (e, v') = pop_refines out v in
      ap₂ (λ x l. Runs.popped x ∷ l) e (run_refines calls (try_pop k r out).1 v' f)

-- A slot of a new ring.
pub get_or-replicate {ℓ} : {A : Type ℓ} (n i : ℕ) (a : A) → get_or (replicate n a) i a ≡ a
get_or-replicate zero i a = refl
get_or-replicate (suc n) zero a = refl
get_or-replicate (suc n) (suc i) a = get_or-replicate n i a

pub empty_slot-IsSlot : IsSlot empty_slot
empty_slot-IsSlot = record { sized = refl; fits = omega arith }

-- A new ring holds nothing.
pub fresh-Holds : (k : ℕ) → Holds k 0 (fresh k) []
unfolding fresh
fresh-Holds k = record {
  size = length-replicate (2 ^ k) empty_slot;
  few = omega arith;
  narrow = omega arith;
  ahead = refl;
  slots_ok =
      λ i. subst (λ s. IsSlot s) (sym (get_or-replicate (2 ^ k) i empty_slot)) empty_slot-IsSlot;
  cells = λ i h. ap waiting (get_or-replicate (2 ^ k) _ empty_slot);
}
