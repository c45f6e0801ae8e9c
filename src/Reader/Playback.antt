-- ===== src/Reader/Playback.antt =====
-- `Run` on a file whose records stand one behind the other, with what a crash may leave behind them.
pub mod Rounds
pub mod Records
use tri_drishti_chrono_cap.Common.{
  append-nil, ℕ, zero, suc, ◌+◌, ◌≤◌, ◌<◌, ◌≡◌, refl, ap, sym, ◌∙◌, arith, ltb_of_lt, ltb_of_le,
  Option, none, some, List, [], ◌∷◌, ◌++◌, append_assoc, map, ◌-◌, min, dec_lt, length-take,
  take-append_add, length, length-append, length-take, take, drop, take-append, drop-append,
  drop-drop, All, ◌⊎◌, inl, inr,
}
use tri_drishti_chrono_cap.Wire.Header.{deserialize_record_header}
use tri_drishti_chrono_cap.Wire.Header.Layout.{record_header_bytes}
use tri_drishti_chrono_cap.Wire.Header.RoundTrip.{FitsRecordHeader, record_header_roundtrip}
use tri_drishti_chrono_cap.Ring.Queue.{Item}
use tri_drishti_chrono_cap.Writer.Format.{item_header, item_bytes, items_bytes}
use tri_drishti_chrono_cap.Reader.{
  ResolvedTopic, TopicMap, RecordReader, Played, file_size, find, run_loop, run, and_then,
  first_stamp, target,
}
use tri_drishti_chrono_cap.Reader.Playback.Records.{
  then_plays, then_plays-some, after_stamps, run_loop-prefix,
}
pub use Rounds.{
  play, plays_from, plays, Known, Torn, short, cut, split_at, run_loop-record, run_loop-Torn,
}

plays_from-some :
    (start t0 : ℕ) (items : List Item)
    → plays_from start (some t0) items ≡ map (play start t0) items
plays_from-some start t0 [] = refl
plays_from-some start t0 (x ∷ xs) = ap (λ l. play start t0 x ∷ l) (plays_from-some start t0 xs)

pub plays_from-none :
    (start : ℕ) (items : List Item) → plays_from start none items ≡ plays start items
plays_from-none start [] = refl
plays_from-none start (x ∷ xs) =
    ap (λ l. play start x.stamp_ns x ∷ l) (plays_from-some start x.stamp_ns xs)

pub length-items_bytes : (items : List Item) → length items ≤ length (items_bytes items)
length-items_bytes [] = omega arith
length-items_bytes (x ∷ xs) = omega (
  arith,
  length-items_bytes xs,
  length-append (item_bytes x) (items_bytes xs),
  length-append (record_header_bytes (item_header x)) x.bytes,
)

-- On a file that holds, from where its records start, whole records that the table knows, and
-- behind them nothing, less than a header or a proper part of a record, `Run` ends and makes one
-- call for each whole record, in their order, with its fields and its payload, and with the
-- deadline that its stamp has by the clock of the first.
pub run-records :
    (r : RecordReader) (items : List Item) (front tail : List ℕ) (start : ℕ)
    → length front ≡ r.records_start_offset
    → All (Known r.by_id) items
    → Torn r.by_id tail
    → r.base ≡ front ++ (items_bytes items ++ tail)
    → run r start ≡ some (plays start items)
unfolding run
run-records r items front tail start at ks t e =
    let fuel = file_size r - length items in
    let at_end = length front + length (items_bytes items) in
    let enough : suc (file_size r) ≡ length items + suc fuel = omega (
      arith,
      ap length e,
      length-append front (items_bytes items ++ tail),
      length-append (items_bytes items) tail,
      length-items_bytes items,
    ) in
    let stops : run_loop r (suc fuel) start (after_stamps none items) at_end ≡ some [] =
      ap (run_loop r (suc fuel) start (after_stamps none items))
        (sym (length-append front (items_bytes items)))
      ∙ run_loop-Torn r (front ++ items_bytes items) tail fuel start (after_stamps none items) t
          (e ∙ sym (append_assoc front (items_bytes items) tail)) in
    ap (run_loop r (suc (file_size r)) start none) (sym at)
    ∙ ap (λ n. run_loop r n start none (length front)) enough
    ∙ run_loop-prefix r items front tail (suc fuel) start none ks e
    ∙ then_plays-some (plays_from start none items) _ [] stops
    ∙ ap some (append-nil (plays_from start none items) ∙ plays_from-none start items)
