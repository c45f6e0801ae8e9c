-- ===== src/Reader/Playback/Rounds.antt =====
-- One round of `Run`: on a record that is there in full, and on what a crash may leave behind the last.
use tri_drishti_chrono_cap.Common.{
  ℕ, suc, ◌+◌, ◌<◌, ◌≡◌, refl, ap, sym, ◌∙◌, arith, ltb_of_lt, ltb_of_le, Option, some, List, [],
  ◌∷◌, ◌++◌, map, ◌-◌, min, dec_lt, length-take, take-append_add, length, length-append,
  length-take, take, drop, take-append, drop-append, drop-drop, ◌⊎◌, inl, inr,
}
use tri_drishti_chrono_cap.Wire.Header.{deserialize_record_header}
use tri_drishti_chrono_cap.Wire.Header.Layout.{record_header_bytes}
use tri_drishti_chrono_cap.Wire.Header.RoundTrip.{FitsRecordHeader, record_header_roundtrip}
use tri_drishti_chrono_cap.Ring.Queue.{Item}
use tri_drishti_chrono_cap.Writer.Format.{item_header, item_bytes}
use tri_drishti_chrono_cap.Reader.{
  ResolvedTopic, TopicMap, RecordReader, Played, find, run_loop, and_then, first_stamp, target,
}

-- The callback that a record gives, by the clock of a session that starts at `t0`.
abbrev pub play : ℕ → ℕ → Item → Played
play start t0 x = record {
  topic_id = x.topic_id;
  stamp_ns = x.stamp_ns;
  seq = x.seq;
  payload = x.bytes;
  len = length x.bytes;
  target_ns = some (target start t0 x.stamp_ns);
}

abbrev pub plays_from : ℕ → Option ℕ → List Item → List Played
plays_from start t0 [] = []
plays_from start t0 (x ∷ xs) =
    let t0' = first_stamp t0 x.stamp_ns in play start t0' x ∷ plays_from start (some t0') xs

-- The records as a session plays them: all by the stamp of the first.
abbrev pub plays : ℕ → List Item → List Played
plays start [] = []
plays start (x ∷ xs) = map (play start x.stamp_ns) (x ∷ xs)

-- The record's fields fit their C types, and its topic is in the table with the payload's size.
pub record Known (table : TopicMap) (x : Item) : Type 0 where
  pub fits : FitsRecordHeader (item_header x)
  pub topic : ResolvedTopic
  pub found : find x.topic_id table ≡ some topic
  pub sized : topic.wire_size ≡ length x.bytes

-- What a crash in the middle of a write may leave: less than a header, or a proper part of a record.
pub data Torn (table : TopicMap) (tail : List ℕ) : Type 0 where
  short : length tail < 18 → Torn table tail
  cut :
      (x : Item) (m : ℕ)
      → Known table x
      → m < length (item_bytes x)
      → tail ≡ take m (item_bytes x)
      → Torn table tail

pub split_at : (n m : ℕ) → (m < n) ⊎ ((j : ℕ) × (m ≡ n + j))
split_at n m = elim (dec_lt m n) [ yes h ↦ inl h | no h ↦ inr (m - n, omega arith) ]

module _ (r : RecordReader) where
  -- One record that is there in full.
  pub run_loop-record :
      (x : Item) (front rest : List ℕ) (fuel start : ℕ) (t0 : Option ℕ)
      → Known r.by_id x
      → r.base ≡ front ++ (record_header_bytes (item_header x) ++ (x.bytes ++ rest))
      → let t0' = first_stamp t0 x.stamp_ns in
        run_loop r (suc fuel) start t0 (length front)
        ≡ and_then
            (play start t0' x)
            (run_loop r fuel start (some t0') (length front + 18 + length x.bytes))
  unfolding run_loop
  run_loop-record x front rest fuel start t0 k e =
      let h : drop (length front) r.base
          ≡ record_header_bytes (item_header x) ++ (x.bytes ++ rest) =
        ap (drop (length front)) e ∙ drop-append (length front) front _ refl in
      let b : drop (length front + 18) r.base ≡ x.bytes ++ rest =
        sym (drop-drop 18 (length front) r.base)
        ∙ ap (drop 18) h
        ∙ drop-append 18 (record_header_bytes (item_header x)) _ refl in
      let l : length r.base ≡ length front + (18 + (length x.bytes + length rest)) =
        ap length e
        ∙ length-append front _
        ∙ ap (λ n. length front + n)
            (length-append (record_header_bytes (item_header x)) (x.bytes ++ rest)
              ∙ ap (λ n. 18 + n) (length-append x.bytes rest)) in
      let hd : deserialize_record_header (drop (length front) r.base) ≡ item_header x =
        ap deserialize_record_header h
        ∙ record_header_roundtrip (item_header x) (x.bytes ++ rest) k.fits in
      rw
        (
          hd,
          ltb_of_le {a = length r.base} {b = length front + 18} (omega arith),
          k.found,
          k.sized,
          ltb_of_le {a = length r.base} {b = length front + 18 + length x.bytes} (omega arith),
          b,
          take-append (length x.bytes) x.bytes rest refl,
          hd,
        )
        refl

  run_loop-short :
      (front tail : List ℕ) (fuel start : ℕ) (t0 : Option ℕ)
      → length tail < 18
      → r.base ≡ front ++ tail
      → run_loop r (suc fuel) start t0 (length front) ≡ some []
  unfolding run_loop
  run_loop-short front tail fuel start t0 h e =
      let l : length r.base ≡ length front + length tail = ap length e ∙ length-append front tail in
      rw (ltb_of_lt {a = length r.base} {b = length front + 18} (omega arith)) refl

  run_loop-cut :
      (front part : List ℕ) (fuel start : ℕ) (t0 : Option ℕ) (x : Item)
      → Known r.by_id x
      → length part < length x.bytes
      → r.base ≡ front ++ (record_header_bytes (item_header x) ++ part)
      → run_loop r (suc fuel) start t0 (length front) ≡ some []
  unfolding run_loop
  run_loop-cut front part fuel start t0 x k h e =
      let l : length r.base ≡ length front + (18 + length part) =
        ap length e
        ∙ length-append front _
        ∙ ap (λ n. length front + n) (length-append (record_header_bytes (item_header x)) part) in
      let hd : deserialize_record_header (drop (length front) r.base) ≡ item_header x =
        ap (λ b. deserialize_record_header (drop (length front) b)) e
        ∙ ap deserialize_record_header (drop-append (length front) front _ refl)
        ∙ record_header_roundtrip (item_header x) part k.fits in
      rw
        (
          hd,
          ltb_of_le {a = length r.base} {b = length front + 18} (omega arith),
          k.found,
          k.sized,
          ltb_of_lt {a = length r.base} {b = length front + 18 + length x.bytes} (omega arith),
        )
        refl

  -- What a crash left behind the records ends the run.
  pub run_loop-Torn :
      (front tail : List ℕ) (fuel start : ℕ) (t0 : Option ℕ)
      → Torn r.by_id tail
      → r.base ≡ front ++ tail
      → run_loop r (suc fuel) start t0 (length front) ≡ some []
  run_loop-Torn front tail fuel start t0 (short h) e = run_loop-short front tail fuel start t0 h e
  run_loop-Torn front tail fuel start t0 (cut x m k h t) e = elim (split_at 18 m) [
    | inl less ↦
        run_loop-short front tail fuel start t0
          (let l : length tail ≡ min m (length (item_bytes x)) =
              ap length t ∙ length-take m (item_bytes x) in
            omega arith)
          e
    | inr (j, q) ↦
        run_loop-cut front (take j x.bytes) fuel start t0 x k
          (let l : length (item_bytes x) ≡ 18 + length x.bytes =
              length-append (record_header_bytes (item_header x)) x.bytes in
            omega (arith, length-take j x.bytes))
          (e
            ∙ ap (λ l. front ++ l)
                (t
                  ∙ ap (λ n. take n (item_bytes x)) q
                  ∙ take-append_add j (record_header_bytes (item_header x)) x.bytes))
  ]
