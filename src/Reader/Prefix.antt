-- ===== src/Reader/Prefix.antt =====
-- `Run` on whole records with anything behind them.
use tri_drishti_chrono_cap.Common.{
  ℕ, suc, ◌+◌, ◌-◌, ◌≡◌, ap, sym, ◌∙◌, arith, Option-cases, none, some, inl, inr, List, ◌++◌,
  length, length-append, All,
}
use tri_drishti_chrono_cap.Ring.Queue.{Item}
use tri_drishti_chrono_cap.Writer.Format.{items_bytes}
use tri_drishti_chrono_cap.Reader.{RecordReader, Played, file_size, run_loop, run}
use tri_drishti_chrono_cap.Reader.Playback.{Known, plays, plays_from-none, length-items_bytes}
use tri_drishti_chrono_cap.Reader.Total.{run-total}
use tri_drishti_chrono_cap.Reader.Playback.Records.{
  then_plays, then_plays-some, then_plays-none, after_stamps, run_loop-prefix,
}

-- On a file that holds, from where its records start, whole records that the table knows, and anything
-- behind them, `Run` ends, and it plays these records first.
pub run-prefix :
    (r : RecordReader) (items : List Item) (front rest : List ℕ) (start : ℕ)
    → length front ≡ r.records_start_offset
    → All (Known r.by_id) items
    → r.base ≡ front ++ (items_bytes items ++ rest)
    → (ps : List Played) × (run r start ≡ some (plays start items ++ ps))
unfolding run
run-prefix r items front rest start at ks e =
    let fuel = suc (file_size r) - length items in
    let enough : length items + fuel ≡ suc (file_size r) = omega (
      arith,
      ap length e,
      length-append front (items_bytes items ++ rest),
      length-append (items_bytes items) rest,
      length-items_bytes items,
    ) in
    let go : run r start ≡ then_plays (plays start items) _ =
      ap (run_loop r (suc (file_size r)) start none) (sym at)
      ∙ ap (λ n. run_loop r n start none (length front)) (sym enough)
      ∙ run_loop-prefix r items front rest fuel start none ks e
      ∙ ap
          (λ ps. then_plays ps (
            run_loop r fuel start (after_stamps none items)
              (length front + length (items_bytes items))))
          (plays_from-none start items) in
    elim (Option-cases (
      run_loop r fuel start (after_stamps none items)
        (length front + length (items_bytes items)))) [
          | inl stuck ↦
              absurd (run-total r start (go ∙ then_plays-none (plays start items) _ stuck))
          | inr (ps, done) ↦ (ps, go ∙ then_plays-some (plays start items) _ ps done)
        ]
