-- ===== src/Reader/Bounds.antt =====
-- What `Run` hands to its callback on any file that the reader has parsed, broken or not: payloads that
-- lie in the file, each with the size that the table gives its topic.
use tri_drishti_chrono_cap.Common.{
  ℕ, suc, ◌+◌, ◌*◌, ◌≤◌, ◌≡◌, ◌⊎◌, refl, ap, sym, ◌∙◌, subst, arith, inl, inr, Bool-cases,
  if◌then◌else◌, Bool, true, Option, none, some, List, [], ◌∷◌, length, All,
}
use tri_drishti_chrono_cap.Wire.Endian.Bytes.{IsByte}
use tri_drishti_chrono_cap.Reader.Table.{FitsResolved, Opens, parse_header_and_metadata-Opens}
use tri_drishti_chrono_cap.Reader.{
  ResolvedTopic, RecordReader, Played, Parsed, parsed, refused, overrun, file_size, find,
  parse_header_and_metadata, run,
}
use tri_drishti_chrono_cap.Reader.Parse.{mapped}
use tri_drishti_chrono_cap.Reader.Open.{OpenResult, opened, failed, overran, hook_all, open_reader}
use tri_drishti_chrono_cap.Reader.Total.{run-total}
use tri_drishti_chrono_cap.Reader.Delivered.{
  IsBound, enter-IsBound, Delivered, records_size, Plays, run_loop-Plays,
}

All-hook_all :
    (on_topic : ResolvedTopic → Bool) (ts : List ResolvedTopic)
    → hook_all on_topic ts ≡ true
    → All (λ t. on_topic t ≡ true) ts
unfolding hook_all
All-hook_all on_topic [] e = tt
All-hook_all on_topic (t ∷ ts) e = elim (Bool-cases (on_topic t)) [
  | inl up ↦ (up, All-hook_all on_topic ts (ground arith))
  | inr down ↦ absurd (ground arith)
]

-- The topic stands in the table.
abbrev pub IsIn : ResolvedTopic → List ResolvedTopic → Type 0
IsIn t [] = ⊥
IsIn t (u ∷ us) = (t ≡ u) ⊎ IsIn t us

-- A topic of the table that the hook accepts, with fields that fit their C types.
abbrev pub IsAccepted : (ResolvedTopic → Bool) → List ResolvedTopic → ResolvedTopic → Type 0
IsAccepted on_topic topics t = (on_topic t ≡ true) × IsIn t topics × FitsResolved t

All-IsAccepted :
    (on_topic : ResolvedTopic → Bool) (topics ts : List ResolvedTopic)
    → ((t : ResolvedTopic) → IsIn t ts → IsIn t topics)
    → All (λ t. on_topic t ≡ true) ts
    → All FitsResolved ts
    → All (IsAccepted on_topic topics) ts
All-IsAccepted on_topic topics [] f a fits = tt
All-IsAccepted on_topic topics (t ∷ ts) f (e, a) (fit, fits) =
    ((e, f t (inl refl), fit), All-IsAccepted on_topic topics ts (λ u i. f u (inr i)) a fits)

-- What a successful `Open` on a new reader leaves.
record Ready (on_topic : ResolvedTopic → Bool) (bytes : List ℕ) (r : RecordReader) : Type 0 where
  base : r.base ≡ bytes
  start : r.records_start_offset ≡ 32 + 38 * length r.topics
  inside : r.records_start_offset ≤ length bytes
  bound : IsBound (IsAccepted on_topic r.topics) r.by_id

abbrev Readies : (ResolvedTopic → Bool) → List ℕ → OpenResult → Type 0
Readies on_topic bytes failed = Unit
Readies on_topic bytes overran = Unit
Readies on_topic bytes (opened r) = Ready on_topic bytes r

open_reader-Readies :
    (on_topic : ResolvedTopic → Bool) (bytes : List ℕ)
    → All IsByte bytes
    → Readies on_topic bytes (open_reader (some bytes) (some on_topic) (mapped []))
unfolding open_reader find
open_reader-Readies on_topic bytes all_bytes =
    by_parse (parse_header_and_metadata (mapped bytes))
      (parse_header_and_metadata-Opens (mapped bytes) all_bytes)
  where
    by_parse :
        (p : Parsed)
        → Opens (mapped bytes) p
        → Readies on_topic bytes (elim p [
          | refused ↦ failed
          | overrun ↦ overran
          | parsed r' ↦ if hook_all on_topic r'.topics then opened r' else failed
        ])
    by_parse refused h = tt
    by_parse overrun h = tt
    by_parse (parsed r') (n, h) = elim (Bool-cases (hook_all on_topic r'.topics)) [
      | inr no_hook ↦ rw no_hook tt
      | inl all ↦ rw all (record {
        base = h.base;
        start = omega (arith, h.start, h.count, ap length h.topics);
        inside = h.inside;
        bound = subst (IsBound (IsAccepted on_topic r'.topics)) (sym h.by_id) (
            enter-IsBound (IsAccepted on_topic r'.topics) h.more []
              (All-IsAccepted on_topic r'.topics h.more (λ t i. subst (IsIn t) (sym h.topics) i)
                (All-hook_all on_topic h.more (ap (hook_all on_topic) (sym h.topics) ∙ all)) h.fits)
              (λ id t e. absurd (cc)));
      })
    ]

-- On any file of bytes, complete, broken or hostile, that a new reader opens: `Run` ends; every call of
-- the callback is for a topic of the table that the hook accepted, with the id that the table gives it,
-- its payload is exactly as many bytes as the topic's size says, and its numbers and bytes fit their C
-- types; the header, the table and as many bytes as the records that were played have lie in the file.
pub callback_in_bounds :
    (on_topic : ResolvedTopic → Bool) (bytes : List ℕ) (start : ℕ) (r : RecordReader)
    → All IsByte bytes
    → open_reader (some bytes) (some on_topic) (mapped []) ≡ opened r
    → (plays : List Played) × (run r start ≡ some plays)
      × All (Delivered (IsAccepted on_topic r.topics)) plays
      × (32 + 38 * length r.topics + records_size plays ≤ length bytes)
unfolding run
callback_in_bounds on_topic bytes start r all_bytes e =
    let ready : Ready on_topic bytes r =
      subst (Readies on_topic bytes) e (open_reader-Readies on_topic bytes all_bytes) in
    let size : file_size r ≡ length bytes = ap length ready.base in
    by_run (run r start) refl ready (
      run_loop-Plays _ r ready.bound (subst (All IsByte) (sym ready.base) all_bytes)
        (suc (file_size r)) start none r.records_start_offset (omega (arith, ready.inside)))
  where
    by_run :
        (o : Option (List Played))
        → run r start ≡ o
        → Ready on_topic bytes r
        → Plays (IsAccepted on_topic r.topics) r r.records_start_offset o
        → (plays : List Played) × (run r start ≡ some plays)
          × All (Delivered (IsAccepted on_topic r.topics)) plays
          × (32 + 38 * length r.topics + records_size plays ≤ length bytes)
    by_run none f ready h = absurd (run-total r start f)
    by_run (some plays) f ready (a, h) =
        (plays, f, a, omega (arith, ready.start, ap length ready.base))
