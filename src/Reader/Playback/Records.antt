-- ===== src/Reader/Playback/Records.antt =====
-- The rounds of `Run` on whole records, one behind the other, with anything behind them.
use tri_drishti_chrono_cap.Common.{
  ℕ, suc, ◌+◌, ◌≡◌, refl, ap, sym, ◌∙◌, arith, Option, none, some, List, [], ◌∷◌, ◌++◌,
  append_assoc, length, length-append, All,
}
use tri_drishti_chrono_cap.Wire.Header.Layout.{record_header_bytes}
use tri_drishti_chrono_cap.Ring.Queue.{Item}
use tri_drishti_chrono_cap.Writer.Format.{item_header, item_bytes, items_bytes}
use tri_drishti_chrono_cap.Reader.{RecordReader, Played, run_loop, and_then, first_stamp}
use tri_drishti_chrono_cap.Reader.Playback.Rounds.{Known, play, plays_from, run_loop-record}

-- A run that has come so far, and goes on.
abbrev pub then_plays : List Played → Option (List Played) → Option (List Played)
then_plays [] o = o
then_plays (p ∷ ps) o = and_then p (then_plays ps o)

pub then_plays-some :
    (ps : List Played) (o : Option (List Played)) (rest : List Played)
    → o ≡ some rest
    → then_plays ps o ≡ some (ps ++ rest)
then_plays-some [] o rest e = e
then_plays-some (p ∷ ps) o rest e = rw (then_plays-some ps o rest e) refl

pub then_plays-none :
    (ps : List Played) (o : Option (List Played)) → o ≡ none → then_plays ps o ≡ none
then_plays-none [] o e = e
then_plays-none (p ∷ ps) o e = rw (then_plays-none ps o e) refl

abbrev pub after_stamps : Option ℕ → List Item → Option ℕ
after_stamps t0 [] = t0
after_stamps t0 (x ∷ xs) = after_stamps (some (first_stamp t0 x.stamp_ns)) xs

module _ (r : RecordReader) where
  pub run_loop-prefix :
      (items : List Item) (front rest : List ℕ) (fuel start : ℕ) (t0 : Option ℕ)
      → All (Known r.by_id) items
      → r.base ≡ front ++ (items_bytes items ++ rest)
      → run_loop r (length items + fuel) start t0 (length front)
        ≡ then_plays (plays_from start t0 items) (
            run_loop r fuel start
              (after_stamps t0 items)
              (length front + length (items_bytes items)))
  run_loop-prefix [] front rest fuel start t0 ks e =
      let here : length front ≡ length front + 0 = omega arith in
      let now : 0 + fuel ≡ fuel = omega arith in
      ap (λ n. run_loop r n start t0 (length front)) now ∙ ap (run_loop r fuel start t0) here
  run_loop-prefix (x ∷ xs) front rest fuel start t0 (k, ks) e =
      let head = record_header_bytes (item_header x) in
      let behind = items_bytes xs ++ rest in
      let split : items_bytes (x ∷ xs) ++ rest ≡ item_bytes x ++ behind =
        append_assoc (item_bytes x) (items_bytes xs) rest in
      let first : r.base ≡ front ++ (head ++ (x.bytes ++ behind)) =
        e ∙ ap (λ l. front ++ l) (split ∙ append_assoc head x.bytes behind) in
      let next : r.base ≡ (front ++ item_bytes x) ++ behind =
        e ∙ ap (λ l. front ++ l) split ∙ sym (append_assoc front (item_bytes x) behind) in
      let size : length front + 18 + length x.bytes ≡ length (front ++ item_bytes x) =
        omega (arith, length-append front (item_bytes x), length-append head x.bytes) in
      let t0' = some (first_stamp t0 x.stamp_ns) in
      let more : suc (length xs) + fuel ≡ suc (length xs + fuel) = omega arith in
      let whole : length (front ++ item_bytes x) + length (items_bytes xs)
          ≡ length front + length (items_bytes (x ∷ xs)) =
        omega (
          arith,
          length-append front (item_bytes x),
          length-append (item_bytes x) (items_bytes xs),
        ) in
      ap (λ n. run_loop r n start t0 (length front)) more
      ∙ run_loop-record r x front behind (length xs + fuel) start t0 k first
      ∙ ap
          (λ n.
            and_then (play start (first_stamp t0 x.stamp_ns) x)
              (run_loop r (length xs + fuel) start t0' n))
          size
      ∙ ap (and_then (play start (first_stamp t0 x.stamp_ns) x)) (
          run_loop-prefix xs (front ++ item_bytes x) rest fuel start t0' ks next
          ∙ ap
              (λ n.
                then_plays (plays_from start t0' xs)
                  (run_loop r fuel start (after_stamps t0' xs) n))
              whole)
