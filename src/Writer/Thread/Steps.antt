-- ===== src/Writer/Thread/Steps.antt =====
-- Each step of the thread keeps the invariant.
use tri_drishti_chrono_cap.Common.{
  ℕ, ◌*◌, Bool-cases, inl, inr, ◌+◌, ◌<◌, ◌≡◌, refl, ap, sym, subst, ◌∙◌, arith, if◌then◌else◌,
  true, false, some, List, [], ◌∷◌, ◌++◌, append_assoc, length,
}
use tri_drishti_chrono_cap.Ring.{PoppedRecord}
use tri_drishti_chrono_cap.Ring.Queue.{Item, item_of_record}
use tri_drishti_chrono_cap.Ring.Fifo.{Holds}
use tri_drishti_chrono_cap.Writer.{RecordWriter, maybe_flush}
use tri_drishti_chrono_cap.Writer.Output.{Descriptor, IsReliable, writes-WritesSucceed}
use tri_drishti_chrono_cap.Writer.Format.{item_bytes, items_bytes}
use tri_drishti_chrono_cap.Writer.Records.{IsRecord, counted, write_record-true}
use tri_drishti_chrono_cap.Writer.Thread.{
  Pc, at_check, at_pop, at_write, at_flush, at_idle, at_final_pop, at_final_write, at_final_flush,
  exited, Session, step_at, write_step,
}
use tri_drishti_chrono_cap.Writer.Thread.Inv.{in_hand, Inv, rank, Live, Live-loop, Live-end, Moved}
use tri_drishti_chrono_cap.Writer.Thread.Flush.{
  items_bytes-append, maybe_flush-ring, maybe_flush-disk, maybe_flush-shutdown,
  maybe_flush-joinable, maybe_flush-is_open,
}
use tri_drishti_chrono_cap.Writer.Thread.Pops.{pop_step-Inv}

module _ {fd : Descriptor} (ok : IsReliable fd) (front : List ℕ) (accepted : List Item) where
  write_step-Inv :
      (w : RecordWriter) (rec : PoppedRecord) (then_at : Pc) (written q : List Item)
      → in_hand then_at rec ≡ []
      → Holds 12 0 w.ring q
      → w.disk.bytes ≡ front ++ items_bytes written
      → accepted ≡ written ++ (item_of_record rec ∷ q)
      → w.is_open ≡ true
      → IsRecord rec
      → (pc : Pc) → rank then_at (length q) < rank pc (length q)
      → (Live w.shutdown pc (length q) → Live w.shutdown then_at (length q))
      → (s : Session) × (write_step fd w rec then_at ≡ some s)
        × (v : Inv front accepted s) × Moved w pc (length q) s (length v.queued)
  write_step-Inv w rec then_at written q hn v b all o rec_ok pc lt lv =
      let x = item_of_record rec in
      let (d, e, b') = write_record-true ok.law w rec (writes-WritesSucceed ok.succeeds) o rec_ok in
      (
        record { writer = counted w d; pc = then_at; rec = rec },
        rw (e, write_step) refl,
        record {
          written = written ++ (x ∷ []);
          queued = q;
          holds = v;
          bytes =
              b'
              ∙ ap (λ l. l ++ item_bytes x) b
              ∙ append_assoc front (items_bytes written) (item_bytes x)
              ∙ ap (λ l. front ++ l) (sym (items_bytes-append written x));
          all =
              all
              ∙ sym (append_assoc written (x ∷ []) q)
              ∙ ap (λ l. (written ++ (x ∷ [])) ++ (l ++ q)) (sym hn);
          is_open = o;
          record_ok = rec_ok;
        },
        record { shutdown = refl; joinable = refl; lower = λ _ _. lt; live = lv },
      )

  move_step-Inv :
      (w : RecordWriter) (pc then_at : Pc) (rec : PoppedRecord)
      → in_hand then_at rec ≡ in_hand pc rec
      → Inv front accepted (record { writer = w; pc = pc; rec = rec })
      → Inv front accepted (record { writer = w; pc = then_at; rec = rec })
  move_step-Inv w pc then_at rec h v = record {
    written = v.written;
    queued = v.queued;
    holds = v.holds;
    bytes = v.bytes;
    all = v.all ∙ ap (λ l. v.written ++ (l ++ v.queued)) (sym h);
    is_open = v.is_open;
    record_ok = v.record_ok;
  }

  flush_step-Inv :
      (now : ℕ) (w : RecordWriter) (pc then_at : Pc) (rec : PoppedRecord)
      → in_hand then_at rec ≡ in_hand pc rec
      → Inv front accepted (record { writer = w; pc = pc; rec = rec })
      → Inv front accepted (record { writer = maybe_flush now w; pc = then_at; rec = rec })
  flush_step-Inv now w pc then_at rec h v =
      move_step-Inv (maybe_flush now w) pc then_at rec h (record {
        written = v.written;
        queued = v.queued;
        holds = subst (λ r. Holds 12 0 r v.queued) (sym (maybe_flush-ring now w)) v.holds;
        bytes = ap (λ d. d.bytes) (maybe_flush-disk now w) ∙ v.bytes;
        all = v.all;
        is_open = maybe_flush-is_open now w ∙ v.is_open;
        record_ok = v.record_ok;
      })

  -- Every step of the thread returns and keeps the invariant.
  pub step_at-Inv :
      (pc : Pc) (now : ℕ) (w : RecordWriter) (rec : PoppedRecord)
      (v : Inv front accepted (record { writer = w; pc = pc; rec = rec }))
      → (s : Session) × (step_at fd pc now w rec ≡ some s)
        × (v' : Inv front accepted s) × Moved w pc (length v.queued) s (length v'.queued)
  unfolding step_at move_step-Inv flush_step-Inv
  step_at-Inv at_check now w rec v = elim (Bool-cases w.shutdown) [
    | inl e ↦ (
      record { writer = w; pc = at_final_pop; rec = rec },
      rw (e, step_at) refl,
      move_step-Inv w at_check at_final_pop rec refl v,
      record {
        shutdown = refl;
        joinable = refl;
        lower = λ _ _. omega arith;
        live = λ l. rw e (λ d. absurd cc);
      },
    )
    | inr e ↦ (
      record { writer = w; pc = at_pop false; rec = rec },
      rw (e, step_at) refl,
      move_step-Inv w at_check (at_pop false) rec refl v,
      record {
        shutdown = refl;
        joinable = refl;
        lower = λ t _. absurd (cc);
        live = λ l. Live-loop w.shutdown (at_pop false) _ refl refl;
      },
    )
  ]
  step_at-Inv (at_pop drained_any) now w rec v =
      let (v', m) =
        pop_step-Inv front accepted w rec at_write (if drained_any then at_flush else at_idle)
          v.written v.queued (λ r. refl)
          (λ r. elim drained_any as (λ b. in_hand (if b then at_flush else at_idle) r ≡ []) [
            | true ↦ refl
            | false ↦ refl
          ])
          v.holds v.bytes v.all v.is_open v.record_ok (at_pop drained_any) (λ n. omega arith)
          (elim drained_any as (λ b. rank (if b then at_flush else at_idle) 0 < 5 + 2 * 0) [
            | true ↦ omega arith
            | false ↦ omega arith
          ])
          (λ n m l. Live-loop w.shutdown at_write m refl refl)
          (λ l. elim drained_any as (λ b. Live w.shutdown (if b then at_flush else at_idle) 0) [
            | true ↦ Live-loop w.shutdown at_flush 0 refl refl
            | false ↦ Live-loop w.shutdown at_idle 0 refl refl
          ]) in
      (_, refl, v', m)
  step_at-Inv at_write now w rec v =
      write_step-Inv w rec (at_pop true) v.written v.queued refl v.holds v.bytes v.all v.is_open
        v.record_ok at_write (omega arith) (λ l. Live-loop w.shutdown (at_pop true) _ refl refl)
  step_at-Inv at_flush now w rec v = (
    _,
    refl,
    flush_step-Inv now w at_flush at_check rec refl v,
    record {
      shutdown = maybe_flush-shutdown now w;
      joinable = maybe_flush-joinable now w;
      lower = λ _ _. omega arith;
      live = λ l. Live-loop w.shutdown at_check _ refl refl;
    },
  )
  step_at-Inv at_idle now w rec v = (
    _,
    refl,
    move_step-Inv w at_idle at_check rec refl v,
    record {
      shutdown = refl;
      joinable = refl;
      lower = λ _ _. omega arith;
      live = λ l. Live-loop w.shutdown at_check _ refl refl;
    },
  )
  step_at-Inv at_final_pop now w rec v =
      let (v', m) =
        pop_step-Inv front accepted w rec at_final_write at_final_flush v.written v.queued
          (λ r. refl) (λ r. refl) v.holds v.bytes v.all v.is_open v.record_ok at_final_pop
          (λ n. omega arith) (omega arith)
          (λ n m l. Live-end w.shutdown at_final_pop at_final_write n m refl (λ _ d. absurd cc) l)
          (Live-end w.shutdown at_final_pop at_final_flush 0 0 refl (λ _ d. refl)) in
      (_, refl, v', m)
  step_at-Inv at_final_write now w rec v =
      write_step-Inv w rec at_final_pop v.written v.queued refl v.holds v.bytes v.all v.is_open
        v.record_ok at_final_write (omega arith)
        (Live-end w.shutdown at_final_write at_final_pop _ _ refl (λ _ d. absurd cc))
  step_at-Inv at_final_flush now w rec v = (
    _,
    refl,
    flush_step-Inv now w at_final_flush exited rec refl v,
    record {
      shutdown = maybe_flush-shutdown now w;
      joinable = maybe_flush-joinable now w;
      lower = λ _ _. omega arith;
      live = Live-end w.shutdown at_final_flush exited _ _ refl (λ l d. l refl);
    },
  )
  step_at-Inv exited now w rec v = (
    _,
    refl,
    v,
    record { shutdown = refl; joinable = refl; lower = λ _ ne. absurd (ne refl); live = λ l. l },
  )
