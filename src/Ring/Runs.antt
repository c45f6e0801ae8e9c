-- ===== src/Ring/Runs.antt =====
-- Sequences of calls on the ring, with what each returns, and the same calls on the queue.
use tri_drishti_chrono_cap.Common.{
  ℕ, ◌≤◌, ◌<◌, ltb, if◌then◌else◌, Bool, true, false, Option, none, some, List, [], ◌∷◌, ◌++◌,
  length,
}
use tri_drishti_chrono_cap.Ring.{Sample, PoppedRecord, MpscRingBuffer, try_push, try_pop}
use tri_drishti_chrono_cap.Ring.Queue.{Item, item_of_sample, item_of_record, IsSample}

pub data Call : Type 0 where
  push : Sample → Call
  pop : Call

pub data Reply : Type 0 where
  pushed : Bool → Reply
  popped : Option Item → Reply

-- The consumer passes the same `PoppedRecord` to each `TryPop`.
unfoldable pub run : ℕ → MpscRingBuffer → PoppedRecord → List Call → List Reply
run k r out [] = []
run k r out (push s ∷ calls) = let (r', done) = try_push k r s in pushed done ∷ run k r' out calls
run k r out (pop ∷ calls) =
    let (r', out', done) = try_pop k r out in
    popped (if done then some (item_of_record out') else none) ∷ run k r' out' calls

-- The ring after a sequence of calls.
unfoldable pub after : ℕ → MpscRingBuffer → PoppedRecord → List Call → MpscRingBuffer
after k r out [] = r
after k r out (push s ∷ calls) = after k (try_push k r s).0 out calls
after k r out (pop ∷ calls) = let (r', out', done) = try_pop k r out in after k r' out' calls

-- A queue of at most `cap` records, oldest first, that takes payloads of at most 64 bytes.
unfoldable pub queue_push : ℕ → List Item → Sample → List Item × Bool
queue_push cap q s =
    if ltb 64 s.len
    then (q, false)
    else (if ltb (length q) cap then (q ++ (item_of_sample s ∷ []), true) else (q, false))

unfoldable pub queue_pop : List Item → List Item × Option Item
queue_pop [] = ([], none)
queue_pop (x ∷ q) = (q, some x)

unfoldable pub queue_run : ℕ → List Item → List Call → List Reply
queue_run cap q [] = []
queue_run cap q (push s ∷ calls) =
    let (q', done) = queue_push cap q s in pushed done ∷ queue_run cap q' calls
queue_run cap q (pop ∷ calls) = let (q', x) = queue_pop q in popped x ∷ queue_run cap q' calls

-- No push of the sequence meets a full queue, and each passes as many bytes as it says.
abbrev pub NeverFull : ℕ → List Item → List Call → Type 0
NeverFull cap q [] = Unit
NeverFull cap q (push s ∷ calls) =
    IsSample s × (s.len ≤ 64 → length q < cap) × NeverFull cap (queue_push cap q s).0 calls
NeverFull cap q (pop ∷ calls) = NeverFull cap (queue_pop q).0 calls
