-- ===== src/Writer/Thread/Failing.antt =====
-- The thread on a disk that may fail at any call: each of its steps returns and goes on.
use tri_drishti_chrono_cap.Common.{
  ℕ, ◌≢◌, ◌<◌, ◌+◌, ◌≡◌, refl, ap, sym, subst, ◌∙◌, arith, if◌then◌else◌, Bool, Bool-cases, inl,
  inr, true, false, Option, some, List, [], ◌∷◌, ◌++◌, length,
}
use tri_drishti_chrono_cap.Ring.{slot_index, PoppedRecord, MpscRingBuffer, read_slot}
use tri_drishti_chrono_cap.Ring.Queue.{Item, item_of_record}
use tri_drishti_chrono_cap.Ring.Steps.{next, popped, try_pop-none, try_pop-some, length-memcpy}
use tri_drishti_chrono_cap.Ring.Conserve.{held, IsRing, pop_conserve}
use mathlib.Core.List.{Perm}
use mathlib.Core.List.Perm
use tri_drishti_chrono_cap.Writer.{RecordWriter, maybe_flush}
use tri_drishti_chrono_cap.Writer.Output.{Descriptor, Disk, IsRegularFile}
use tri_drishti_chrono_cap.Writer.Records.{IsRecord, write_record_lem}
use tri_drishti_chrono_cap.Writer.Thread.{
  Pc, at_check, at_pop, at_write, at_flush, at_idle, at_final_pop, at_final_write, at_final_flush,
  exited, Session, pop_step, write_step, step_at,
}
use tri_drishti_chrono_cap.Writer.Thread.Inv.{in_hand, rank}
use tri_drishti_chrono_cap.Writer.Thread.Flush.{
  maybe_flush-shutdown, maybe_flush-joinable, maybe_flush-ring, maybe_flush-disk,
  maybe_flush-is_open,
}
use tri_drishti_chrono_cap.Writer.Thread.Pieces.{
  Sound, maybe_flush-synced, Sound-same, Sound-Recorded,
}

-- A step keeps the thread's flags, and with `shutdown_` set it is one step less to the end, also where
-- the ring holds records that a pop does not find.
pub record Nearer (s t : Session) : Type 0 where
  pub shutdown : t.writer.shutdown ≡ s.writer.shutdown
  pub joinable : t.writer.joinable ≡ s.writer.joinable
  pub lower :
      s.writer.shutdown ≡ true
      → s.pc ≢ exited
      → (n : ℕ) → rank t.pc n < rank s.pc (length (in_hand t.pc t.rec) + n)

-- What a step leaves: a sound session, and in hand and in the ring what was in the ring.
abbrev pub Steps : List ℕ → List Item → Session → Option Session → Type 0
Steps front tried s run =
    (t : Session) × (run ≡ some t)
    × Sound front (tried ++ in_hand s.pc s.rec) t
    × Perm (held s.writer.ring.slots) (in_hand t.pc t.rec ++ held t.writer.ring.slots)
    × Nearer s t

read-IsRecord :
    {s : Session} {front : List ℕ} {tried : List Item}
    → Sound front tried s
    → IsRecord (read_slot (next 12 s.writer.ring) s.rec)
read-IsRecord {s} v =
    let slot_ok = v.ring_ok.slots_ok (slot_index 12 s.writer.ring.read_index) in
    record {
      sized =
          length-memcpy s.rec.payload (next 12 s.writer.ring).payload
            (next 12 s.writer.ring).payload_len (omega (arith, slot_ok.sized, slot_ok.fits))
            (omega (arith, v.record_ok.sized, slot_ok.fits))
          ∙ v.record_ok.sized;
      fits = slot_ok.fits;
    }

-- A pop from a place without a record in hand.
pop_step-Sound :
    {front : List ℕ} {tried : List Item} {s : Session} (got empty : Pc)
    → Sound front tried s
    → ((r : PoppedRecord) → in_hand got r ≡ item_of_record r ∷ [])
    → ((r : PoppedRecord) → in_hand empty r ≡ [])
    → ((n : ℕ) → rank got n < rank s.pc (1 + n))
    → ((n : ℕ) → rank empty n < rank s.pc (0 + n))
    → Sound front (tried ++ []) (pop_step s.writer s.rec got empty)
      × Perm (held s.writer.ring.slots) (
          in_hand (pop_step s.writer s.rec got empty).pc (pop_step s.writer s.rec got empty).rec
          ++ held (pop_step s.writer s.rec got empty).writer.ring.slots)
      × Nearer s (pop_step s.writer s.rec got empty)
pop_step-Sound {front} {tried} {s} got empty v hg he lg le =
    let (ring_ok, p) = pop_conserve 12 s.writer.ring s.rec v.ring_ok in
    elim (Bool-cases (next 12 s.writer.ring).ready) [
      | inl full ↦
          let run = try_pop-some 12 s.writer.ring s.rec full in
          let ok : IsRing 12 (popped 12 s.writer.ring) = rw run at ring_ok in
          let q = rw run at p in
          let some_in_hand = hg (read_slot (next 12 s.writer.ring) s.rec) in
          rw (run, some_in_hand)
            (
              Sound-same v ok (read-IsRecord v) v.is_open refl v.synced,
              q,
              record {
                shutdown = refl;
                joinable = refl;
                lower = λ _ _ n.
                    subst (λ l. rank got n < rank s.pc (length l + n)) (sym some_in_hand) (lg n);
              },
            )
      | inr free ↦
          rw (try_pop-none 12 s.writer.ring s.rec free, he s.rec)
            (
              Sound-same v v.ring_ok v.record_ok v.is_open refl v.synced,
              Perm.refl _,
              record {
                shutdown = refl;
                joinable = refl;
                lower = λ _ _ n.
                    subst (λ l. rank empty n < rank s.pc (length l + n)) (sym (he s.rec)) (le n);
              },
            )
    ]

flush-Perm :
    (now : ℕ) (w : RecordWriter) → Perm (held w.ring.slots) (held (maybe_flush now w).ring.slots)
flush-Perm now w =
    subst (λ (r : MpscRingBuffer). Perm (held w.ring.slots) (held r.slots))
      (sym (maybe_flush-ring now w)) (Perm.refl _)

in_hand-if :
    (b : Bool) (one other : Pc) (rec : PoppedRecord)
    → in_hand one rec ≡ []
    → in_hand other rec ≡ []
    → in_hand (if b then one else other) rec ≡ []
in_hand-if true one other rec e f = e
in_hand-if false one other rec e f = f

after_pop :
    (drained_any : Bool) (n : ℕ)
    → rank (if drained_any then at_flush else at_idle) n < rank (at_pop drained_any) (0 + n)
after_pop true n = omega arith
after_pop false n = omega arith

-- A step after which the thread has no record in hand.
Nearer-empty :
    (s : Session) (w : RecordWriter) (then_at : Pc) (rec : PoppedRecord)
    → w.shutdown ≡ s.writer.shutdown
    → w.joinable ≡ s.writer.joinable
    → ((r : PoppedRecord) → in_hand then_at r ≡ [])
    → ((n : ℕ) → rank then_at n < rank s.pc (0 + n))
    → Nearer s (record { writer = w; pc = then_at; rec = rec })
Nearer-empty s w then_at rec sh jn he le = record {
  shutdown = sh;
  joinable = jn;
  lower = λ _ _ n. subst (λ l. rank then_at n < rank s.pc (length l + n)) (sym (he rec)) (le n);
}

module _ {fd : Descriptor} (law : IsRegularFile fd) {front : List ℕ} {tried : List Item} where
  -- A `WriteRecord` of the record in hand.
  write_step-Steps :
      {s : Session} (then_at : Pc)
      → Sound front tried s
      → ((r : PoppedRecord) → in_hand then_at r ≡ [])
      → ((n : ℕ) → rank then_at n < rank s.pc (0 + n))
      → (t : Session) × (write_step fd s.writer s.rec then_at ≡ some t)
        × Sound front (tried ++ (item_of_record s.rec ∷ [])) t
        × Perm (held s.writer.ring.slots) (in_hand t.pc t.rec ++ held t.writer.ring.slots)
        × Nearer s t
  write_step-Steps {s} then_at v he le =
      let (w', ok, e, r) = write_record_lem law s.writer s.rec v.is_open v.record_ok in
      let (v', same, sh, jn) = Sound-Recorded then_at w' ok v r in
      (
        record { writer = w'; pc = then_at; rec = s.rec },
        rw (e, write_step) refl,
        v',
        rw (he s.rec, same) (Perm.refl _),
        Nearer-empty s w' then_at s.rec sh jn he le,
      )

  -- A flush changes the flush's own fields.
  flush-Steps :
      {s : Session} (now : ℕ) (then_at : Pc)
      → Sound front tried s
      → ((r : PoppedRecord) → in_hand then_at r ≡ [])
      → ((n : ℕ) → rank then_at n < rank s.pc (0 + n))
      → let t : Session = record { writer = maybe_flush now s.writer; pc = then_at; rec = s.rec } in
        Sound front (tried ++ []) t
        × Perm (held s.writer.ring.slots) (in_hand then_at s.rec ++ held t.writer.ring.slots)
        × Nearer s t
  flush-Steps {s} now then_at v he le = (
    Sound-same v (subst (IsRing 12) (sym (maybe_flush-ring now s.writer)) v.ring_ok) v.record_ok
        (maybe_flush-is_open now s.writer ∙ v.is_open)
        (ap (λ (d : Disk). d.bytes) (maybe_flush-disk now s.writer))
        (maybe_flush-synced now s.writer v.synced),
    rw (he s.rec) (flush-Perm now s.writer),
    Nearer-empty s (maybe_flush now s.writer) then_at s.rec (maybe_flush-shutdown now s.writer)
        (maybe_flush-joinable now s.writer) he le,
  )

  -- Each step of the thread returns, and leaves a sound session one step nearer to the end.
  pub at-Steps :
      (now : ℕ) (pc : Pc) (w : RecordWriter) (rec : PoppedRecord)
      → let s : Session = record { writer = w; pc = pc; rec = rec } in
        Sound front tried s → Steps front tried s (step_at fd pc now w rec)
  unfolding step_at
  at-Steps now at_check w rec v = (
    _,
    refl,
    Sound-same v v.ring_ok v.record_ok v.is_open refl v.synced,
    rw (in_hand-if w.shutdown at_final_pop (at_pop false) rec refl refl) (Perm.refl _),
    record { shutdown = refl; joinable = refl; lower = λ sh _ n. rw sh (omega arith) },
  )
  at-Steps now (at_pop drained_any) w rec v =
      let (v', p, near) =
        pop_step-Sound at_write (if drained_any then at_flush else at_idle) v (λ r. refl)
          (λ r. in_hand-if drained_any at_flush at_idle r refl refl) (λ n. omega arith)
          (λ n. after_pop drained_any n) in
      (_, refl, v', p, near)
  at-Steps now at_write w rec v = write_step-Steps (at_pop true) v (λ r. refl) (λ n. omega arith)
  at-Steps now at_flush w rec v =
      let (v', p, near) = flush-Steps now at_check v (λ r. refl) (λ n. omega arith) in
      (_, refl, v', p, near)
  at-Steps now at_idle w rec v = (
    _,
    refl,
    Sound-same v v.ring_ok v.record_ok v.is_open refl v.synced,
    Perm.refl _,
    record { shutdown = refl; joinable = refl; lower = λ _ _ n. omega arith },
  )
  at-Steps now at_final_pop w rec v =
      let (v', p, near) =
        pop_step-Sound at_final_write at_final_flush v (λ r. refl) (λ r. refl) (λ n. omega arith)
          (λ n. omega arith) in
      (_, refl, v', p, near)
  at-Steps now at_final_write w rec v =
      write_step-Steps at_final_pop v (λ r. refl) (λ n. omega arith)
  at-Steps now at_final_flush w rec v =
      let (v', p, near) = flush-Steps now exited v (λ r. refl) (λ n. omega arith) in
      (_, refl, v', p, near)
  at-Steps now exited w rec v = (
    _,
    refl,
    Sound-same v v.ring_ok v.record_ok v.is_open refl v.synced,
    Perm.refl _,
    record { shutdown = refl; joinable = refl; lower = λ _ ne. absurd (ne refl) },
  )
