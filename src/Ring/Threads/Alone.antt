-- ===== src/Ring/Threads/Alone.antt =====
-- A producer's steps with nothing between them are `TryPush`, and the consumer's are `TryPop`.
use tri_drishti_chrono_cap.Common.{
  ℕ, zero, suc, ◌^◌, ◌≤◌, ◌<◌, ltb_of_lt, ltb_of_le, ◌≡◌, refl, ap, sym, ◌∙◌, arith, inl, inr, Bool,
  Bool-cases, true, false, List, [], ◌∷◌, length, set, dec_lt,
}
use tri_drishti_chrono_cap.Ring.{
  Sample, MpscRingBuffer, increment, fill_slot, read_slot, try_push, try_pop,
}
use tri_drishti_chrono_cap.Ring.Threads.{
  Stage, idle, claimed, tested, stored, Producer, Phase, polling, copying, System, Action, enter,
  advance, consume, update, to_stage, store_fields, set_ready, cell, set_cell, enter_push,
  advance_push, advance_pop, act, act_all,
}
use tri_drishti_chrono_cap.Ring.Steps.{
  try_push-too_large, try_push-full, popped, try_push-free, try_pop-none, try_pop-some,
}
use tri_drishti_chrono_cap.Ring.Threads.Inv.{cell-set_self}
use tri_drishti_chrono_cap.Ring.Threads.Frame.{update_self}

set-set {ℓ} : {A : Type ℓ} (xs : List A) (i : ℕ) (a b : A) → set (set xs i a) i b ≡ set xs i b
set-set [] i a b = refl
set-set (x ∷ xs) zero a b = refl
set-set (x ∷ xs) (suc i) a b = ap (λ l. x ∷ l) (set-set xs i a b)

module _ (k : ℕ) where
  abbrev pub claimed_by : System → ℕ → Sample → System
  claimed_by s i x = record s {
    ring = record s.ring { write_index = increment s.ring.write_index };
    producers =
        update s.producers i (record { stage = claimed; idx = s.ring.write_index; sample = x });
  }

  pub act-enter :
      (s : System) (i : ℕ) (x : Sample)
      → (s.producers i).stage ≡ idle
      → x.len ≤ 64
      → act k s (enter i x) ≡ claimed_by s i x
  unfolding act enter_push
  act-enter s i x e small = rw (e, enter_push, ltb_of_le {a = 64} {b = x.len} small) refl

  pub act-advance :
      (s : System) (i : ℕ) (st : Stage)
      → (s.producers i).stage ≡ st
      → act k s (advance i) ≡ advance_push k s i st
  unfolding act
  act-advance s i st e = ap (advance_push k s i) e

  pub act-test_free :
      (s : System) (i : ℕ)
      → (s.producers i).stage ≡ claimed
      → (cell k s.ring (s.producers i).idx).ready ≡ false
      → act k s (advance i) ≡ record s { producers = to_stage s i tested }
  unfolding advance_push
  act-test_free s i e free = act-advance s i claimed e ∙ rw free refl

  stays_idle : (s : System) (i : ℕ) → (s.producers i).stage ≡ idle → act k s (advance i) ≡ s
  unfolding advance_push
  stays_idle s i e = act-advance s i idle e

  act-test_full :
      (s : System) (i : ℕ)
      → (s.producers i).stage ≡ claimed
      → (cell k s.ring (s.producers i).idx).ready ≡ true
      → act k s (advance i) ≡ record s {
        ring = record s.ring { dropped_count = increment s.ring.dropped_count };
        producers = to_stage s i idle;
      }
  unfolding advance_push
  act-test_full s i e full = act-advance s i claimed e ∙ rw full refl

  act-enter_large :
      (s : System) (i : ℕ) (x : Sample)
      → (s.producers i).stage ≡ idle
      → 64 < x.len
      → act k s (enter i x) ≡ s
  unfolding act enter_push
  act-enter_large s i x e large = rw (e, enter_push, ltb_of_lt large) refl

  -- The ring that a list of actions leaves.
  abbrev pub ring_after : System → List Action → MpscRingBuffer
  ring_after s actions = (act_all k s actions).ring

  -- The stores and the publication, from behind the test.
  finish_push :
      (s : System) (i idx : ℕ) (x : Sample)
      → s.producers i ≡ record { stage = tested; idx = idx; sample = x }
      → length s.ring.slots ≡ 2 ^ k
      → ring_after s (advance i ∷ advance i ∷ [])
        ≡ set_cell k s.ring idx (fill_slot (cell k s.ring idx) x)
  unfolding act_all advance_push fill_slot
  finish_push s i idx x e size =
      let s1 : System = advance_push k s i tested in
      let at1 : s1.producers i ≡ record { stage = stored; idx = idx; sample = x } =
        update_self s.producers i _ ∙ ap (λ (p : Producer). record p { stage = stored }) e in
      ap (λ t. ring_after t (advance i ∷ []))
        (act-advance s i tested (ap (λ (p : Producer). p.stage) e))
      ∙ ap (λ (t : System). t.ring) (act-advance s1 i stored (ap (λ (p : Producer). p.stage) at1))
      ∙ ap (λ (p : Producer). set_cell k s1.ring p.idx (set_ready true (cell k s1.ring p.idx))) at1
      ∙ ap
          (λ (p : Producer).
            set_cell k (set_cell k s.ring p.idx (store_fields (cell k s.ring p.idx) p.sample)) idx (
              set_ready true (
                cell k (set_cell k s.ring p.idx (store_fields (cell k s.ring p.idx) p.sample))
                  idx)))
          e
      ∙ ap
          (λ c.
            set_cell k (set_cell k s.ring idx (store_fields (cell k s.ring idx) x)) idx
              (set_ready true c))
          (cell-set_self k s.ring idx _ size)
      ∙ ap (λ l. record s.ring { slots = l }) (set-set s.ring.slots _ _ _)

  stays :
      (s : System) (i : ℕ)
      → (s.producers i).stage ≡ idle
      → ring_after s (advance i ∷ advance i ∷ []) ≡ s.ring
  unfolding act_all
  stays s i e =
      ap (λ t. ring_after t (advance i ∷ [])) (stays_idle s i e)
      ∙ ap (λ (t : System). t.ring) (stays_idle s i e)

  pub claimed_by_self :
      (s : System) (i : ℕ) (x : Sample)
      → (claimed_by s i x).producers i
        ≡ record { stage = claimed; idx = s.ring.write_index; sample = x }
  claimed_by_self s i x = update_self s.producers i _

  -- A producer outside that enters and goes on three times, with no other step between, leaves the ring
  -- that `TryPush` leaves, whichever branch it takes.
  pub alone_push :
      (s : System) (i : ℕ) (x : Sample)
      → (s.producers i).stage ≡ idle
      → length s.ring.slots ≡ 2 ^ k
      → ring_after s (enter i x ∷ advance i ∷ advance i ∷ advance i ∷ []) ≡ (try_push k s.ring x).0
  unfolding act_all
  alone_push s i x e size = elim (dec_lt 64 x.len) [
    | yes big ↦
        ap (λ t. ring_after t (advance i ∷ advance i ∷ advance i ∷ []))
          (act-enter_large s i x e big)
        ∙ ap (λ t. ring_after t (advance i ∷ advance i ∷ [])) (stays_idle s i e)
        ∙ stays s i e
        ∙ sym (ap (λ (p : MpscRingBuffer × Bool). p.0) (try_push-too_large k s.ring x big))
    | no small ↦
        let s1 = claimed_by s i x in
        let at1 = claimed_by_self s i x in
        let seen = ap (λ (p : Producer). (cell k s.ring p.idx).ready) at1 in
        ap (λ t. ring_after t (advance i ∷ advance i ∷ advance i ∷ []))
          (act-enter s i x e (omega arith))
        ∙ elim (Bool-cases (cell k s.ring s.ring.write_index).ready) [
          | inl full ↦
              ap (λ t. ring_after t (advance i ∷ advance i ∷ []))
                (act-test_full s1 i (ap (λ (p : Producer). p.stage) at1) (seen ∙ full))
              ∙ stays _ i (ap (λ (p : Producer). p.stage) (update_self s1.producers i _))
              ∙ sym (
                  ap (λ (p : MpscRingBuffer × Bool). p.0)
                    (try_push-full k s.ring x (omega arith) full))
          | inr free ↦
              ap (λ t. ring_after t (advance i ∷ advance i ∷ []))
                (act-test_free s1 i (ap (λ (p : Producer). p.stage) at1) (seen ∙ free))
              ∙ finish_push (record s1 { producers = to_stage s1 i tested }) i s.ring.write_index x
                  (update_self s1.producers i _
                    ∙ ap (λ (p : Producer). record p { stage = tested }) at1)
                  size
              ∙ sym (
                  ap (λ (p : MpscRingBuffer × Bool). p.0)
                    (try_push-free k s.ring x (omega arith) free))
        ]
  ]

  act-consume : (s : System) (ph : Phase) → s.phase ≡ ph → act k s consume ≡ advance_pop k s ph
  unfolding act
  act-consume s ph e = ap (advance_pop k s) e

  consume-ready :
      (s : System)
      → s.phase ≡ polling
      → (cell k s.ring s.ring.read_index).ready ≡ true
      → act k s consume ≡ record s { phase = copying }
  unfolding advance_pop
  consume-ready s e t = act-consume s polling e ∙ rw t refl

  pub consume-found :
      (s : System)
      → s.phase ≡ polling
      → (cell k s.ring s.ring.read_index).ready ≡ true
      → act_all k s (consume ∷ consume ∷ consume ∷ []) ≡ record s {
        ring = popped k s.ring;
        phase = polling;
        out = read_slot (cell k s.ring s.ring.read_index) s.out;
      }
  unfolding act_all act advance_pop
  consume-found s e t = ap (λ u. act_all k u (consume ∷ consume ∷ [])) (consume-ready s e t)

  consume-nothing :
      (s : System)
      → s.phase ≡ polling
      → (cell k s.ring s.ring.read_index).ready ≡ false
      → act k s consume ≡ s
  unfolding advance_pop
  consume-nothing s e f = act-consume s polling e ∙ rw f refl

  -- A consumer outside that goes on three times, with no other step between, leaves the ring and the
  -- record that `TryPop` leaves, whether it finds one or not.
  pub alone_pop :
      (s : System)
      → s.phase ≡ polling
      → let t = act_all k s (consume ∷ consume ∷ consume ∷ []) in
        (t.ring ≡ (try_pop k s.ring s.out).0) × (t.out ≡ (try_pop k s.ring s.out).1)
  unfolding act_all
  alone_pop s e = elim (Bool-cases (cell k s.ring s.ring.read_index).ready) [
    | inl t ↦
        let run = consume-found s e t in
        rw (try_pop-some k s.ring s.out t)
          (ap (λ (u : System). u.ring) run, ap (λ (u : System). u.out) run)
    | inr f ↦
        let once = consume-nothing s e f in
        let run : act_all k s (consume ∷ consume ∷ consume ∷ []) ≡ s =
          ap (λ u. act_all k u (consume ∷ consume ∷ [])) once
          ∙ ap (λ u. act_all k u (consume ∷ [])) once
          ∙ once in
        rw (try_pop-none k s.ring s.out f)
          (ap (λ (u : System). u.ring) run, ap (λ (u : System). u.out) run)
  ]
