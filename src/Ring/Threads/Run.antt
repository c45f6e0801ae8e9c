-- ===== src/Ring/Threads/Run.antt =====
-- One action, and then any schedule: the invariant, the log, and what the consumer was handed.
use tri_drishti_chrono_cap.Common.{
  ℕ, zero, suc, take-append_le, ltb_of_lt, ltb_of_le, ◌≡◌, refl, ap, ap₂, sym, subst, ◌∙◌, arith,
  inl, inr, Bool-cases, true, none, some, List, [], ◌∷◌, ◌++◌, append-nil, append_assoc, take,
  get_elem?, set, get_or, dec_lt,
}
use tri_drishti_chrono_cap.Ring.{increment, fill_slot, Sample, empty_slot, slot_index}
use tri_drishti_chrono_cap.Ring.Queue.{Item, item_of_sample}
use tri_drishti_chrono_cap.Ring.Steps.{item_of_waiting, fill_slot-IsSlot, waiting-fill_slot}
use tri_drishti_chrono_cap.Ring.Threads.{
  Stage, idle, claimed, tested, stored, Phase, polling, copying, releasing, System, Action, enter,
  advance, consume, to_stage, set_ready, store_fields, cell, set_cell, enter_push, advance_push,
  advance_pop, act, act_all, claim_of, claim, delivery_of, delivery, claims, deliveries, HasRoom,
  Spaced,
}
use tri_drishti_chrono_cap.Ring.Threads.Inv.{index_of, holding, Stored, Inv}
use tri_drishti_chrono_cap.Ring.Threads.Store.{keep-Inv}
use tri_drishti_chrono_cap.Ring.Threads.Publish.{publish-Inv}
use tri_drishti_chrono_cap.Ring.Threads.Consumer.{
  poll-Inv, copy-Inv, release-Inv, released_item, next_index,
}
use tri_drishti_chrono_cap.Ring.Threads.Enter.{enter-Inv}

set-get_or {ℓ} : {A : Type ℓ} (xs : List A) (i : ℕ) (d : A) → set xs i (get_or xs i d) ≡ xs
set-get_or [] i d = refl
set-get_or (x ∷ xs) zero d = refl
set-get_or (x ∷ xs) (suc i) d = ap (λ l. x ∷ l) (set-get_or xs i d)

pub take-suc {ℓ} :
    {A : Type ℓ} (n : ℕ) (xs : List A) {x : A}
    → get_elem? xs n ≡ some x
    → take (suc n) xs ≡ take n xs ++ (x ∷ [])
take-suc n [] e = absurd cc
take-suc zero (y ∷ ys) e = ap (λ o. elim o [ none ↦ [] | some z ↦ z ∷ [] ]) e
take-suc (suc n) (y ∷ ys) e = ap (λ l. y ∷ l) (take-suc n ys e)

module _ (k : ℕ) where
  -- What an action leaves: the invariant with the log extended, the records handed over as a front part of
  -- the log, and the count of drops as it was.
  pub record Goes (log : List Item) (s : System) (claimed handed : List Item) (t : System)
      : Type 0 where
    pub inv : Inv k (log ++ claimed) t
    pub in_order : take t.ring.read_index (log ++ claimed) ≡ take s.ring.read_index log ++ handed
    pub kept : t.ring.dropped_count ≡ s.ring.dropped_count

  -- An action that claims nothing and hands over nothing.
  uneventful :
      {log : List Item} {s t : System}
      → Inv k log t
      → t.ring.read_index ≡ s.ring.read_index
      → t.ring.dropped_count ≡ s.ring.dropped_count
      → Goes log s [] [] t
  uneventful {log} {s} {t} v r d = record {
    inv = subst (λ l. Inv k l t) (sym (append-nil log)) v;
    in_order = ap₂ take r (append-nil log) ∙ sym (append-nil (take s.ring.read_index log));
    kept = d;
  }

  module _ {log : List Item} {s : System} (v : Inv k log s) where
    enter-Goes :
        (i : ℕ) (x : Sample) (st : Stage)
        → (s.producers i).stage ≡ st
        → HasRoom k s (enter i x)
        → Goes log s (claim_of k x st) [] (enter_push k s i x st)
    unfolding enter_push
    enter-Goes i x idle e room = elim (dec_lt 64 x.len) [
      | yes big ↦ rw (ltb_of_lt big) (uneventful v refl refl)
      | no small ↦ rw (ltb_of_le {a = 64} {b = x.len} (omega arith)) (record {
        inv = enter-Inv k v i x e (omega arith) room;
        in_order =
            take-append_le s.ring.read_index log (item_of_sample x ∷ [])
              (omega (arith, v.behind, v.recorded))
            ∙ sym (append-nil _);
        kept = refl;
      })
    ]
    enter-Goes i x claimed e room = uneventful v refl refl
    enter-Goes i x tested e room = uneventful v refl refl
    enter-Goes i x stored e room = uneventful v refl refl

    advance-Goes :
        (i : ℕ) (st : Stage) → (s.producers i).stage ≡ st → Goes log s [] [] (advance_push k s i st)
    unfolding advance_push fill_slot
    advance-Goes i idle e = uneventful v refl refl
    advance-Goes i claimed e =
        let has : holding (s.producers i) ≡ some (s.producers i).idx =
          ap (λ t. index_of t (s.producers i).idx) e in
        let c = v.claims_ok i (s.producers i).idx has in
        let same : set_cell k s.ring (s.producers i).idx (cell k s.ring (s.producers i).idx)
            ≡ s.ring =
          ap (λ l. record s.ring { slots = l }) (set-get_or s.ring.slots _ empty_slot) in
        rw (c.free) (
          uneventful
            (subst (λ r. Inv k log (record s { ring = r; producers = to_stage s i tested })) same
              (keep-Inv k v i (s.producers i).idx has (cell k s.ring (s.producers i).idx) tested
                refl (v.slots_ok _) c.free tt))
            refl refl)
    advance-Goes i tested e =
        let has : holding (s.producers i) ≡ some (s.producers i).idx =
          ap (λ t. index_of t (s.producers i).idx) e in
        let c = v.claims_ok i (s.producers i).idx has in
        let old = cell k s.ring (s.producers i).idx in
        let x = (s.producers i).sample in
        let ok = fill_slot-IsSlot old x (v.slots_ok _) c.enough c.small in
        uneventful
          (keep-Inv k v i (s.producers i).idx has (store_fields old x) stored refl
            (record { sized = ok.sized; fits = ok.fits }) c.free
            (item_of_waiting (fill_slot old x) (waiting-fill_slot old x c.enough)))
          refl refl
    advance-Goes i stored e =
        let has : holding (s.producers i) ≡ some (s.producers i).idx =
          ap (λ t. index_of t (s.producers i).idx) e in
        let old = cell k s.ring (s.producers i).idx in
        let ok = v.slots_ok (slot_index k (s.producers i).idx) in
        uneventful
          (publish-Inv k v i (s.producers i).idx has (set_ready true old)
            (record { sized = ok.sized; fits = ok.fits }) refl
            (subst (λ t. Stored t old (s.producers i).sample) e (v.fields_ok i)))
          refl refl

    consume-Goes :
        (ph : Phase) → s.phase ≡ ph → Goes log s [] (delivery_of k s ph) (advance_pop k s ph)
    unfolding advance_pop
    consume-Goes polling e = elim (Bool-cases (cell k s.ring s.ring.read_index).ready) [
      | inl t ↦ uneventful (poll-Inv k v) (rw t refl) (rw t refl)
      | inr f ↦ uneventful (poll-Inv k v) (rw f refl) (rw f refl)
    ]
    consume-Goes copying e = uneventful (copy-Inv k v e) refl refl
    consume-Goes releasing e =
        let succ : increment s.ring.read_index ≡ suc s.ring.read_index =
          omega (arith, next_index k v e) in
        record {
          inv =
              subst (λ l. Inv k l (advance_pop k s releasing)) (sym (append-nil log))
                (release-Inv k v e);
          in_order =
              ap₂ take succ (append-nil log) ∙ take-suc s.ring.read_index log (released_item k v e);
          kept = refl;
        }

    pub act-Goes :
        (a : Action) → HasRoom k s a → Goes log s (claim k s a) (delivery k s a) (act k s a)
    unfolding act
    act-Goes (enter i x) room = enter-Goes i x (s.producers i).stage refl room
    act-Goes (advance i) room = advance-Goes i (s.producers i).stage refl
    act-Goes consume room = consume-Goes s.phase refl

  pub act_all-Goes :
      (actions : List Action) {log : List Item} {s : System}
      → Inv k log s
      → Spaced k s actions
      → Goes log s (claims k s actions) (deliveries k s actions) (act_all k s actions)
  unfolding claims deliveries act_all
  act_all-Goes [] v sp = uneventful v refl refl
  act_all-Goes (a ∷ actions) {log} {s} v (room, sp) =
      let one = act-Goes v a room in
      let rest = act_all-Goes actions one.inv sp in
      record {
        inv =
            subst (λ l. Inv k l (act_all k (act k s a) actions)) (append_assoc log (claim k s a) _)
              rest.inv;
        in_order =
            ap (take (act_all k (act k s a) actions).ring.read_index)
              (sym (append_assoc log (claim k s a) _))
            ∙ rest.in_order
            ∙ ap (λ l. l ++ deliveries k (act k s a) actions) one.in_order
            ∙ append_assoc (take s.ring.read_index log) (delivery k s a) _;
        kept = rest.kept ∙ one.kept;
      }
