-- ===== src/Writer/Split/Inv.antt =====
-- What holds at every step: the file is the records of the first claims.
use tri_drishti_chrono_cap.Common.{
  ℕ, suc, ◌≤◌, ◌<◌, ◌≡◌, refl, ap, sym, subst, ◌∙◌, arith, dec_lt, Bool-cases, inl, inr, true, some,
  List, [], ◌∷◌, ◌++◌, append-nil, length, take,
}
use tri_drishti_chrono_cap.Ring.{Slot, PoppedRecord, MpscRingBuffer, read_slot, increment}
use tri_drishti_chrono_cap.Ring.Queue.{Item, item_of_record}
use tri_drishti_chrono_cap.Ring.Steps.{
  IsSlot, next, popped, try_pop-none, try_pop-some, item-read_slot, length-memcpy,
}
use tri_drishti_chrono_cap.Ring.Threads.{Producer, consume, claims, act_all}
use tri_drishti_chrono_cap.Ring.Threads.Inv.{holding}
use tri_drishti_chrono_cap.Ring.Threads.Inv
use tri_drishti_chrono_cap.Ring.Threads.Run.{act_all-Goes, take-suc}
use tri_drishti_chrono_cap.Ring.Threads.Alone.{consume-found}
use tri_drishti_chrono_cap.Writer.{RecordWriter, maybe_flush}
use tri_drishti_chrono_cap.Writer.Format.{items_bytes}
use tri_drishti_chrono_cap.Writer.Records.{IsRecord}
use tri_drishti_chrono_cap.Writer.Thread.{Pc, Session, pop_step}
use tri_drishti_chrono_cap.Writer.Thread.Inv.{in_hand, drained}
use tri_drishti_chrono_cap.Writer.Thread.Pieces.{maybe_flush-synced}
use tri_drishti_chrono_cap.Writer.Thread.Flush.{
  maybe_flush-ring, maybe_flush-disk, maybe_flush-is_open,
}
use tri_drishti_chrono_cap.Writer.Split.{Shared, view}

read_slot-IsRecord :
    (slot : Slot) (rec : PoppedRecord) → IsSlot slot → IsRecord rec → IsRecord (read_slot slot rec)
read_slot-IsRecord slot rec v r = record {
  sized =
      length-memcpy rec.payload slot.payload slot.payload_len (omega (arith, v.sized, v.fits))
        (omega (arith, r.sized, v.fits))
      ∙ r.sized;
  fits = v.fits;
}

-- The claims below `m` have been made, and none of them is in flight.
pub record IsSettled (m : ℕ) (s : Shared) : Type 0 where
  pub made : m ≤ s.session.writer.ring.write_index
  pub published : (i j : ℕ) → holding (s.producers i) ≡ some j → m ≤ j

-- Behind the last `TryPop` the claims below `m` have been taken.
abbrev pub IsDone : ℕ → Session → Type 0
IsDone m s = drained s.pc ≡ true → m ≤ s.writer.ring.read_index

pub record Kept (front : List ℕ) (log : List Item) (s : Shared) : Type 0 where
  pub ring_ok : Inv.Inv 12 log (view s)
  pub written : List Item
  pub bytes : s.session.writer.disk.bytes ≡ front ++ items_bytes written
  pub all :
      written ++ in_hand s.session.pc s.session.rec ≡ take s.session.writer.ring.read_index log
  pub is_open : s.session.writer.is_open ≡ true
  pub record_ok : IsRecord s.session.rec
  pub synced : s.session.writer.synced ≤ length s.session.writer.disk.bytes

module _ (front : List ℕ) (log : List Item) (producers : ℕ → Producer) where
  abbrev pub at : RecordWriter → Pc → PoppedRecord → Shared
  at w pc rec = record {
    session = record { writer = w; pc = pc; rec = rec };
    producers = producers;
  }

  pub move-Kept :
      (w : RecordWriter) (pc then_at : Pc) (rec : PoppedRecord)
      → in_hand then_at rec ≡ in_hand pc rec
      → Kept front log (at w pc rec)
      → Kept front log (at w then_at rec)
  move-Kept w pc then_at rec h v = record {
    ring_ok = v.ring_ok;
    written = v.written;
    bytes = v.bytes;
    all = ap (λ l. v.written ++ l) h ∙ v.all;
    is_open = v.is_open;
    record_ok = v.record_ok;
    synced = v.synced;
  }

  pub flush-Kept :
      (now : ℕ) (w : RecordWriter) (pc then_at : Pc) (rec : PoppedRecord)
      → in_hand then_at rec ≡ in_hand pc rec
      → Kept front log (at w pc rec)
      → Kept front log (at (maybe_flush now w) then_at rec)
  flush-Kept now w pc then_at rec h v = record {
    ring_ok =
        subst (λ r. Inv.Inv 12 log (record (view (at w pc rec)) { ring = r }))
          (sym (maybe_flush-ring now w)) v.ring_ok;
    written = v.written;
    bytes = ap (λ d. d.bytes) (maybe_flush-disk now w) ∙ v.bytes;
    all =
        ap (λ l. v.written ++ l) h
        ∙ v.all
        ∙ ap (λ (r : MpscRingBuffer). take r.read_index log) (sym (maybe_flush-ring now w));
    is_open = maybe_flush-is_open now w ∙ v.is_open;
    record_ok = v.record_ok;
    synced = maybe_flush-synced now w v.synced;
  }

  -- A `TryPop` that finds a record takes the next claim of the log.
  pop-ring :
      (w : RecordWriter) (pc : Pc) (rec : PoppedRecord)
      → Inv.Inv 12 log (view (at w pc rec))
      → (next 12 w.ring).ready ≡ true
      → Inv.Inv 12 log (record (view (at w pc rec)) {
        ring = popped 12 w.ring;
        out = read_slot (next 12 w.ring) rec;
      })
        × (take (popped 12 w.ring).read_index log
            ≡ take w.ring.read_index log ++ (item_of_record (read_slot (next 12 w.ring) rec) ∷ []))
  unfolding claims
  pop-ring w pc rec v full =
      let u = view (at w pc rec) in
      let three = act_all-Goes 12 (consume ∷ consume ∷ consume ∷ []) v (tt, (tt, (tt, tt))) in
      let lt : w.ring.read_index < w.ring.write_index =
        elim (dec_lt w.ring.read_index w.ring.write_index) [
          | yes h ↦ h
          | no h ↦
              let free = v.unclaimed w.ring.read_index (omega arith) (omega arith) in
              absurd (let q = sym free ∙ full in cc)
        ] in
      let logged = v.published w.ring.read_index (omega arith) lt full in
      let same = item-read_slot (next 12 w.ring) rec (v.slots_ok _) in
      let succ : increment w.ring.read_index ≡ suc w.ring.read_index = omega (arith, v.narrow) in
      (
        subst (λ x. Inv.Inv 12 log x) (consume-found 12 u refl full)
            (subst (λ l. Inv.Inv 12 l (act_all 12 u (consume ∷ consume ∷ consume ∷ [])))
              (append-nil log) three.inv),
        ap (λ n. take n log) succ
            ∙ take-suc w.ring.read_index log logged
            ∙ ap (λ x. take w.ring.read_index log ++ (x ∷ [])) (sym same),
      )

  pub pop-Kept :
      (w : RecordWriter) (pc got empty : Pc) (rec : PoppedRecord)
      → in_hand pc rec ≡ []
      → ((r : PoppedRecord) → in_hand got r ≡ item_of_record r ∷ [])
      → in_hand empty rec ≡ []
      → Kept front log (at w pc rec)
      → Kept front log (record { session = pop_step w rec got empty; producers = producers })
  pop-Kept w pc got empty rec hp hg he v = elim (Bool-cases (next 12 w.ring).ready) [
    | inr free ↦ rw (try_pop-none 12 w.ring rec free) (move-Kept w pc empty rec (he ∙ sym hp) v)
    | inl full ↦
        let (ring_ok, taken_one) = pop-ring w pc rec v.ring_ok full in
        rw (try_pop-some 12 w.ring rec full) (record {
          ring_ok = ring_ok;
          written = v.written;
          bytes = v.bytes;
          all =
              ap (λ l. v.written ++ l) (hg (read_slot (next 12 w.ring) rec))
              ∙ ap (λ l. l ++ (item_of_record (read_slot (next 12 w.ring) rec) ∷ []))
                  (sym (append-nil v.written) ∙ ap (λ l. v.written ++ l) (sym hp) ∙ v.all)
              ∙ sym taken_one;
          is_open = v.is_open;
          record_ok = read_slot-IsRecord (next 12 w.ring) rec (v.ring_ok.slots_ok _) v.record_ok;
          synced = v.synced;
        })
  ]
