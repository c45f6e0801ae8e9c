-- ===== src/Ring/Overflow.antt =====
-- A push that meets a full ring is rejected after it has claimed an index, and the claim is never
-- taken back. From then on producers store one slot ahead of the slot that the consumer waits for.
use tri_drishti_chrono_cap.Common.{
  ℕ, ◌+◌, ◌^◌, ◌≤◌, ◌<◌, ◌≡◌, ◌≢◌, refl, ap, ap₂, ◌∙◌, sym, arith, true, false, none, some, List,
  [], ◌∷◌, ◌++◌, map, length, replicate, get_or-set_ne,
}
use tri_drishti_chrono_cap.Common.Order.{add-mod-ne}
use tri_drishti_chrono_cap.Ring.{
  Sample, PoppedRecord, MpscRingBuffer, empty_slot, slot_index, try_push, try_pop,
}
use tri_drishti_chrono_cap.Ring.Queue.{Item, waiting, IsSample}
use tri_drishti_chrono_cap.Ring.Steps.{
  ready_of_waiting, free_of_waiting, next, stored, rejected, try_push-full, try_push-free,
  try_pop-none,
}
use tri_drishti_chrono_cap.Ring.Fifo.{
  Holds, write_slot, read_slot_index, waiting-next, waiting-claimed, waiting-claimed_full,
}
use tri_drishti_chrono_cap.Ring.Runs.{push, pop, pushed, popped, Call, run, queue_pop}
use tri_drishti_chrono_cap.Ring.Refine.{pop_refines}
use native.Mathlib.Nat.{one-le-pow, pow-le-pow_right}

module _ (k : ℕ) (kk : k ≤ 64) where
  -- The rejected push changes nothing but the two counters, and leaves a claim of no record.
  pub rejected-Holds :
      {r : MpscRingBuffer} {q : List Item} → Holds k 0 r q → Holds k 1 (rejected r) q
  rejected-Holds v = record {
    size = v.size;
    few = v.few;
    narrow = v.narrow;
    ahead = omega (arith, v.ahead);
    slots_ok = v.slots_ok;
    cells = v.cells;
  }

  pub push_full :
      {r : MpscRingBuffer} {q : List Item} (s : Sample)
      → Holds k 0 r q
      → length q ≡ 2 ^ k
      → s.len ≤ 64
      → (try_push k r s ≡ (rejected r, false)) × Holds k 1 (rejected r) q
  push_full {r} {q = []} s v full small = absurd (omega (arith, one-le-pow k 2))
  push_full {r} {q = x ∷ q} s v full small = (
    try_push-full k r s small (ready_of_waiting _ (waiting-claimed_full k kk v (omega arith))),
    rejected-Holds v,
  )

  -- The consumer drains the queue in order, whatever claims stand behind it.
  drain :
      (q : List Item) {gap : ℕ} {r : MpscRingBuffer} (out : PoppedRecord) (calls : List Call)
      → Holds k gap r q
      → (r' : MpscRingBuffer) × (out' : PoppedRecord) × (run k r out
            (replicate (length q) pop ++ calls)
          ≡ map (λ x. popped (some x)) q ++ run k r' out' calls)
        × Holds k gap r' []
  unfolding run queue_pop
  drain [] {gap} {r} out calls v = (r, out, refl, v)
  drain (x ∷ q) {gap} {r} out calls v =
      let (e, v') = pop_refines k kk out v in
      let (r', out', run_rest, v'') = drain q (try_pop k r out).1 calls v' in
      (r', out', ap₂ (λ x l. popped x ∷ l) e run_rest, v'')

  -- With one dead claim in front, a record that is stored cannot be popped.
  stranded :
      {r : MpscRingBuffer} (t : Sample) (out : PoppedRecord)
      → 1 ≤ k
      → Holds k 1 r []
      → IsSample t
      → t.len ≤ 64
      → run k r out (push t ∷ pop ∷ []) ≡ pushed true ∷ popped none ∷ []
  unfolding run
  stranded {r} t out big v h small = rw (
    try_push-free k r t small (free_of_waiting _ (waiting-claimed k kk v two)),
    try_pop-none k (stored k r t) out (free_of_waiting _ unseen),
  )
    where
      two : 0 + 1 < 2 ^ k
      two = pow-le-pow_right {n = 2} (omega arith) big

      -- The record stands one slot behind the one that the consumer looks at.
      apart : slot_index k r.write_index ≢ slot_index k r.read_index
      apart e =
          add-mod-ne r.read_index (2 ^ k) 1 0 two (omega (arith, two)) (omega arith)
            (sym (write_slot k kk v) ∙ e ∙ read_slot_index k kk v)

      unseen : waiting (next k (stored k r t)) ≡ none
      unseen = ap waiting (get_or-set_ne r.slots _ _ _ empty_slot apart) ∙ waiting-next k kk v

  -- In a ring of 2 to 2 ^ 64 slots that is full and has no stray claim: a push that fits a slot is
  -- rejected, the consumer then pops all records in order, and a further push that fits is
  -- accepted, but the pop behind it finds nothing.
  pub overflow_strands :
      {r : MpscRingBuffer} {q : List Item} (s t : Sample) (out : PoppedRecord)
      → 1 ≤ k
      → Holds k 0 r q
      → length q ≡ 2 ^ k
      → s.len ≤ 64
      → IsSample t
      → t.len ≤ 64
      → run k r out (push s ∷ (replicate (length q) pop ++ (push t ∷ pop ∷ [])))
        ≡ pushed false ∷ (map (λ x. popped (some x)) q ++ (pushed true ∷ popped none ∷ []))
  unfolding run
  overflow_strands {r} {q} s t out big v full small ht hsmall =
      let (e, v') = push_full s v full small in
      let (r', out', drained, v'') = drain q out (push t ∷ pop ∷ []) v' in
      rw e (
        ap (λ l. pushed false ∷ l)
          (drained
            ∙ ap (λ l. map (λ x. popped (some x)) q ++ l) (stranded t out' big v'' ht hsmall)))
