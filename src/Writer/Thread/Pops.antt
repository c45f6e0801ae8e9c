-- ===== src/Writer/Thread/Pops.antt =====
-- A pop of the thread, and a push, keep the invariant.
use tri_drishti_chrono_cap.Common.{
  ℕ, suc, ◌^◌, ◌≤◌, ◌<◌, ◌≡◌, refl, ap, sym, ◌∙◌, arith, dec_lt, if◌then◌else◌, true, List, [], ◌∷◌,
  ◌++◌, append-nil, append_assoc, length,
}
use tri_drishti_chrono_cap.Ring.{PoppedRecord, Sample, read_slot, try_push}
use tri_drishti_chrono_cap.Ring.Queue.{Item, item_of_sample, item_of_record, IsSample}
use tri_drishti_chrono_cap.Ring.Steps.{
  length-memcpy, next, ready_of_waiting, item_of_waiting, free_of_waiting, try_push-too_large,
  try_push-free, try_pop-none, try_pop-some, item-read_slot,
}
use tri_drishti_chrono_cap.Ring.Fifo.{
  Holds, waiting-next, waiting-claimed, stored-Holds, popped-Holds,
}
use tri_drishti_chrono_cap.Ring.Overflow.{push_full}
use tri_drishti_chrono_cap.Writer.{RecordWriter, writer_push}
use tri_drishti_chrono_cap.Writer.Format.{items_bytes}
use tri_drishti_chrono_cap.Writer.Records.{IsRecord}
use tri_drishti_chrono_cap.Writer.Thread.{Pc, Session, pop_step, push_step}
use tri_drishti_chrono_cap.Writer.Thread.Inv.{in_hand, Inv, rank, Live, Moved}

module _ (front : List ℕ) (accepted : List Item) where
  -- A pop of the thread, from a place where it has no record in hand.
  pub pop_step-Inv :
      (w : RecordWriter) (rec : PoppedRecord) (got empty : Pc) (written q : List Item)
      → ((r : PoppedRecord) → in_hand got r ≡ item_of_record r ∷ [])
      → ((r : PoppedRecord) → in_hand empty r ≡ [])
      → Holds 12 0 w.ring q
      → w.disk.bytes ≡ front ++ items_bytes written
      → accepted ≡ written ++ q
      → w.is_open ≡ true
      → IsRecord rec
      → (pc : Pc) → ((n : ℕ) → rank got n < rank pc (suc n))
      → rank empty 0 < rank pc 0
      → ((n m : ℕ) → Live w.shutdown pc n → Live w.shutdown got m)
      → (Live w.shutdown pc 0 → Live w.shutdown empty 0)
      → (v : Inv front accepted (pop_step w rec got empty)) × Moved w pc
          (length q)
          (pop_step w rec got empty)
          (length v.queued)
  pop_step-Inv w rec got empty written [] hg he v b all o ok pc lg le vg ve =
      rw (try_pop-none 12 w.ring rec (free_of_waiting _ (waiting-next 12 (omega arith) v))) (
        record {
          written = written;
          queued = [];
          holds = v;
          bytes = b;
          all = all ∙ ap (λ l. written ++ (l ++ [])) (sym (he rec));
          is_open = o;
          record_ok = ok;
        },
        record { shutdown = refl; joinable = refl; lower = λ _ _. le; live = ve },
      )
  pop_step-Inv w rec got empty written (x ∷ q) hg he v b all o ok pc lg le vg ve =
      let slot = next 12 w.ring in
      let slot_ok = v.slots_ok _ in
      let same : item_of_record (read_slot slot rec) ≡ x =
        item-read_slot slot rec slot_ok ∙ item_of_waiting _ (waiting-next 12 (omega arith) v) in
      rw (try_pop-some 12 w.ring rec (ready_of_waiting _ (waiting-next 12 (omega arith) v))) (
        record {
          written = written;
          queued = q;
          holds = popped-Holds 12 (omega arith) v x q refl;
          bytes = b;
          all =
              all
              ∙ ap (λ y. written ++ (y ∷ q)) (sym same)
              ∙ ap (λ l. written ++ (l ++ q)) (sym (hg (read_slot slot rec)));
          is_open = o;
          record_ok = record {
            sized =
                length-memcpy rec.payload slot.payload slot.payload_len
                  (omega (arith, slot_ok.sized, slot_ok.fits))
                  (omega (arith, slot_ok.fits, ok.sized))
                ∙ ok.sized;
            fits = slot_ok.fits;
          };
        },
        record {
          shutdown = refl;
          joinable = refl;
          lower = λ _ _. lg (length q);
          live = vg (suc (length q)) (length q);
        },
      )

  -- A push, taken or too large.
  pub push_step-Inv :
      (s : Session) (x : Sample)
      → Inv front accepted s
      → IsSample x
      → (x.len ≤ 64 → (writer_push s.writer x).1 ≡ true)
      → Inv front
          (accepted ++ (if (writer_push s.writer x).1 then item_of_sample x ∷ [] else []))
          (push_step s x)
  unfolding writer_push
  push_step-Inv s x v h took = elim (dec_lt 64 x.len) [
    | yes large ↦ rw (try_push-too_large 12 s.writer.ring x large) (record {
      written = v.written;
      queued = v.queued;
      holds = v.holds;
      bytes = v.bytes;
      all = append-nil accepted ∙ v.all;
      is_open = v.is_open;
      record_ok = v.record_ok;
    })
    | no small ↦
        let room : length v.queued < 2 ^ 12 = room_of (omega arith) in
        rw
          (try_push-free 12 s.writer.ring x (omega arith)
            (free_of_waiting _ (waiting-claimed 12 (omega arith) v.holds (omega arith))))
          (record {
            written = v.written;
            bytes = v.bytes;
            is_open = v.is_open;
            record_ok = v.record_ok;
            queued = v.queued ++ (item_of_sample x ∷ []);
            holds = stored-Holds 12 (omega arith) v.holds x h (omega arith) room;
            all =
                ap (λ l. l ++ (item_of_sample x ∷ [])) v.all
                ∙ append_assoc v.written (in_hand s.pc s.rec ++ v.queued) _
                ∙ ap (λ l. v.written ++ l) (append_assoc (in_hand s.pc s.rec) v.queued _);
          })
  ]
    where
      room_of : x.len ≤ 64 → length v.queued < 2 ^ 12
      room_of small = elim (dec_lt (length v.queued) (2 ^ 12)) [
        | yes lt ↦ lt
        | no full ↦
            let turned : try_push 12 s.writer.ring x ≡ _ =
              (push_full 12 (omega arith) x v.holds (omega (arith, v.holds.few)) small).0 in
            absurd (let e = took small in let e' = ap (λ r. r.1) turned in cc)
      ]
