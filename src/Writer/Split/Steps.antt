-- ===== src/Writer/Split/Steps.antt =====
-- Each step of the writer thread keeps what holds, also where producers stand inside `TryPush`.
use tri_drishti_chrono_cap.Common.{
  ℕ, ◌≤◌, ◌≡◌, refl, ap, sym, subst, ◌∙◌, arith, dec_lt, Bool-cases, inl, inr, true, false, Option,
  some, List, [], ◌∷◌, ◌++◌, append-nil, append_assoc, length, length-append,
}
use tri_drishti_chrono_cap.Ring.{PoppedRecord, MpscRingBuffer}
use tri_drishti_chrono_cap.Ring.Queue.{Item, item_of_record}
use tri_drishti_chrono_cap.Ring.Steps.{next, try_pop-none, try_pop-some}
use tri_drishti_chrono_cap.Ring.Threads.{Producer}
use tri_drishti_chrono_cap.Writer.{RecordWriter, maybe_flush}
use tri_drishti_chrono_cap.Writer.Output.{Descriptor, IsReliable, writes-WritesSucceed}
use tri_drishti_chrono_cap.Writer.Format.{item_bytes, items_bytes}
use tri_drishti_chrono_cap.Writer.Records.{counted, write_record-true}
use tri_drishti_chrono_cap.Writer.Thread.{
  Pc, at_check, at_pop, at_write, at_flush, at_idle, at_final_pop, at_final_write, at_final_flush,
  exited, Session, pop_step, step_at, write_step,
}
use tri_drishti_chrono_cap.Writer.Thread.Inv.{in_hand, drained}
use tri_drishti_chrono_cap.Writer.Thread.Flush.{
  items_bytes-append, maybe_flush-ring, maybe_flush-shutdown, maybe_flush-joinable,
}
use tri_drishti_chrono_cap.Writer.Split.{Shared}
use tri_drishti_chrono_cap.Writer.Split.Inv.{
  IsSettled, IsDone, Kept, at, move-Kept, flush-Kept, pop-Kept,
}

-- What a step leaves: what holds, the thread's flags, the number of claims, and the claims below `m` taken.
pub record Stepped (front : List ℕ) (log : List Item) (s : Shared) (t : Session) : Type 0 where
  pub kept : Kept front log (record { session = t; producers = s.producers })
  pub shutdown : t.writer.shutdown ≡ s.session.writer.shutdown
  pub joinable : t.writer.joinable ≡ s.session.writer.joinable
  pub claims : t.writer.ring.write_index ≡ s.session.writer.ring.write_index
  pub done : (m : ℕ) → IsSettled m s → IsDone m s.session → IsDone m t

abbrev pub Steps : List ℕ → List Item → Shared → Option Session → Type 0
Steps front log s run = (t : Session) × (run ≡ some t) × Stepped front log s t

module _ {fd : Descriptor} (ok : IsReliable fd) (front : List ℕ) (log : List Item)
    (producers : ℕ → Producer) where
  -- A step to a place with the same in hand, before the last `TryPop`.
  move-Steps :
      (w : RecordWriter) (pc then_at : Pc) (rec : PoppedRecord)
      → in_hand then_at rec ≡ in_hand pc rec
      → drained then_at ≡ false
      → Kept front log (at front log producers w pc rec)
      → Stepped front log
          (at front log producers w pc rec)
          (record { writer = w; pc = then_at; rec = rec })
  move-Steps w pc then_at rec h d v = record {
    kept = move-Kept front log producers w pc then_at rec h v;
    shutdown = refl;
    joinable = refl;
    claims = refl;
    done = λ m s p e. absurd (let q = sym d ∙ e in cc);
  }

  flush-Steps :
      (now : ℕ) (w : RecordWriter) (pc then_at : Pc) (rec : PoppedRecord)
      → in_hand then_at rec ≡ in_hand pc rec
      → (drained then_at ≡ true → drained pc ≡ true)
      → Kept front log (at front log producers w pc rec)
      → Stepped front log
          (at front log producers w pc rec)
          (record { writer = maybe_flush now w; pc = then_at; rec = rec })
  flush-Steps now w pc then_at rec h d v = record {
    kept = flush-Kept front log producers now w pc then_at rec h v;
    shutdown = maybe_flush-shutdown now w;
    joinable = maybe_flush-joinable now w;
    claims = ap (λ (r : MpscRingBuffer). r.write_index) (maybe_flush-ring now w);
    done = λ m s p e.
        subst (λ (r : MpscRingBuffer). m ≤ r.read_index) (sym (maybe_flush-ring now w)) (p (d e));
  }

  write-Steps :
      (w : RecordWriter) (pc then_at : Pc) (rec : PoppedRecord)
      → in_hand then_at rec ≡ []
      → in_hand pc rec ≡ item_of_record rec ∷ []
      → drained then_at ≡ false
      → Kept front log (at front log producers w pc rec)
      → Steps front log (at front log producers w pc rec) (write_step fd w rec then_at)
  write-Steps w pc then_at rec hn hp dr v =
      let x = item_of_record rec in
      let (d, e, b) =
        write_record-true ok.law w rec (writes-WritesSucceed ok.succeeds) v.is_open v.record_ok in
      (
        record { writer = counted w d; pc = then_at; rec = rec },
        rw (e, write_step) refl,
        record {
          kept = record {
            ring_ok = v.ring_ok;
            written = v.written ++ (x ∷ []);
            bytes =
                b
                ∙ ap (λ l. l ++ item_bytes x) v.bytes
                ∙ append_assoc front (items_bytes v.written) (item_bytes x)
                ∙ ap (λ l. front ++ l) (sym (items_bytes-append v.written x));
            all =
                ap (λ l. (v.written ++ (x ∷ [])) ++ l) hn
                ∙ append-nil (v.written ++ (x ∷ []))
                ∙ ap (λ l. v.written ++ l) (sym hp)
                ∙ v.all;
            is_open = v.is_open;
            record_ok = v.record_ok;
            synced =
                omega (arith, v.synced, ap length b, length-append w.disk.bytes (item_bytes x));
          };
          shutdown = refl;
          joinable = refl;
          claims = refl;
          done = λ m s p e. absurd (let q = sym dr ∙ e in cc);
        },
      )

  -- A pop that finds nothing has all claims below `m` behind it.
  settled_empty :
      (w : RecordWriter) (pc : Pc) (rec : PoppedRecord) (m : ℕ)
      → Kept front log (at front log producers w pc rec)
      → IsSettled m (at front log producers w pc rec)
      → (next 12 w.ring).ready ≡ false
      → m ≤ w.ring.read_index
  settled_empty w pc rec m v settled free = elim (dec_lt w.ring.read_index m) [
    | no h ↦ omega arith
    | yes h ↦
        let (i, held) =
          v.ring_ok.owned w.ring.read_index (omega arith) (omega (arith, settled.made)) free in
        omega (arith, settled.published i w.ring.read_index held)
  ]

  pop-Steps :
      (w : RecordWriter) (pc got empty : Pc) (rec : PoppedRecord)
      → in_hand pc rec ≡ []
      → ((r : PoppedRecord) → in_hand got r ≡ item_of_record r ∷ [])
      → in_hand empty rec ≡ []
      → drained got ≡ false
      → Kept front log (at front log producers w pc rec)
      → Stepped front log (at front log producers w pc rec) (pop_step w rec got empty)
  pop-Steps w pc got empty rec hp hg he dr v =
      let kept = pop-Kept front log producers w pc got empty rec hp hg he v in
      elim (Bool-cases (next 12 w.ring).ready) [
        | inl full ↦
            let run = try_pop-some 12 w.ring rec full in
            record {
              kept = kept;
              shutdown = refl;
              joinable = refl;
              claims = rw run refl;
              done = λ m s p. rw run (λ e. absurd (let q = sym dr ∙ e in cc));
            }
        | inr free ↦
            let run = try_pop-none 12 w.ring rec free in
            record {
              kept = kept;
              shutdown = refl;
              joinable = refl;
              claims = rw run refl;
              done = λ m s p. rw run (λ e. settled_empty w pc rec m v s free);
            }
      ]

  pub step_at-Steps :
      (pc : Pc) (now : ℕ) (w : RecordWriter) (rec : PoppedRecord)
      → Kept front log (at front log producers w pc rec)
      → Steps front log (at front log producers w pc rec) (step_at fd pc now w rec)
  unfolding step_at
  step_at-Steps at_check now w rec v = elim (Bool-cases w.shutdown) [
    | inl t ↦ (
      record { writer = w; pc = at_final_pop; rec = rec },
      rw (t, step_at) refl,
      move-Steps w at_check at_final_pop rec refl refl v,
    )
    | inr f ↦ (
      record { writer = w; pc = at_pop false; rec = rec },
      rw (f, step_at) refl,
      move-Steps w at_check (at_pop false) rec refl refl v,
    )
  ]
  step_at-Steps (at_pop true) now w rec v =
      (_, refl, pop-Steps w (at_pop true) at_write at_flush rec refl (λ r. refl) refl refl v)
  step_at-Steps (at_pop false) now w rec v =
      (_, refl, pop-Steps w (at_pop false) at_write at_idle rec refl (λ r. refl) refl refl v)
  step_at-Steps at_write now w rec v = write-Steps w at_write (at_pop true) rec refl refl refl v
  step_at-Steps at_flush now w rec v =
      (_, refl, flush-Steps now w at_flush at_check rec refl (λ e. absurd cc) v)
  step_at-Steps at_idle now w rec v = (_, refl, move-Steps w at_idle at_check rec refl refl v)
  step_at-Steps at_final_pop now w rec v = (
    _,
    refl,
    pop-Steps w at_final_pop at_final_write at_final_flush rec refl (λ r. refl) refl refl v,
  )
  step_at-Steps at_final_write now w rec v =
      write-Steps w at_final_write at_final_pop rec refl refl refl v
  step_at-Steps at_final_flush now w rec v =
      (_, refl, flush-Steps now w at_final_flush exited rec refl (λ e. refl) v)
  step_at-Steps exited now w rec v = (
    _,
    refl,
    record { kept = v; shutdown = refl; joinable = refl; claims = refl; done = λ m s p. p },
  )
