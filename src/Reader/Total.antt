-- ===== src/Reader/Total.antt =====
-- `Run` and `Walk` end on every file, read inside it, and agree.
use tri_drishti_chrono_cap.Common.{
  ℕ, zero, suc, ◌+◌, ◌<◌, ◌≡◌, ◌≢◌, refl, ap, ◌∙◌, arith, Bool, true, false, Option, none, some,
  List, [], ltb, map, drop, take, if◌then◌else◌,
}
use tri_drishti_chrono_cap.Wire.Header.{record_header_wire_size, deserialize_record_header}
use tri_drishti_chrono_cap.Reader.{
  ResolvedTopic, RecordReader, Played, file_size, find, run_loop, run, walk_loop, walk, and_then,
  first_stamp, target,
}

and_then-ne-none : (p : Played) (rest : Option (List Played)) → rest ≢ none → and_then p rest ≢ none
and_then-ne-none p none h e = h refl
and_then-ne-none p (some l) h e = cc

module _ (r : RecordReader) where
  -- Each round leaves the loop or moves on by 18 bytes at least, inside the file.
  walk_loop-total :
      (timing : Bool) (fuel start : ℕ) (t0 : Option ℕ) (offset : ℕ)
      → 0 < fuel
      → file_size r < fuel + offset
      → walk_loop r timing fuel start t0 offset ≢ none
  unfolding walk_loop
  walk_loop-total timing zero start t0 offset pos h = absurd (omega arith)
  walk_loop-total timing (suc fuel) start t0 offset pos h =
      grind (arith, walk_loop-total timing fuel, and_then-ne-none)

  run_loop-walk_loop :
      (fuel start : ℕ) (t0 : Option ℕ) (offset : ℕ)
      → run_loop r fuel start t0 offset ≡ walk_loop r true fuel start t0 offset
  unfolding run_loop walk_loop
  run_loop-walk_loop zero start t0 offset = refl
  run_loop-walk_loop (suc fuel) start t0 offset =
      let hdr = deserialize_record_header (drop offset r.base) in
      let at_payload = offset + record_header_wire_size in
      λ i.
        if ltb (file_size r) (offset + record_header_wire_size)
        then some []
        else (elim (find hdr.topic_id r.by_id) [
          | none ↦ some []
          | some topic ↦
              if ltb (file_size r) (at_payload + topic.wire_size)
              then some []
              else and_then
                  (record {
                    topic_id = hdr.topic_id;
                    stamp_ns = hdr.stamp_ns;
                    seq = hdr.seq;
                    payload = take topic.wire_size (drop at_payload r.base);
                    len = topic.wire_size;
                    target_ns = some (target start (first_stamp t0 hdr.stamp_ns) hdr.stamp_ns);
                  })
                  (run_loop-walk_loop fuel start (some (first_stamp t0 hdr.stamp_ns))
                    (at_payload + topic.wire_size) i)
        ])

abbrev pub untimed : Played → Played
untimed p = record p { target_ns = none }

-- The callbacks without their deadlines.
abbrev pub untimed_all : Option (List Played) → Option (List Played)
untimed_all none = none
untimed_all (some l) = some (map untimed l)

untimed_all-and_then :
    (p : Played) (rest : Option (List Played))
    → untimed_all (and_then p rest) ≡ and_then (untimed p) (untimed_all rest)
untimed_all-and_then p none = refl
untimed_all-and_then p (some l) = refl

-- A round as both loops have it: three ways out, or a record and the rest.
abbrev round :
    Bool
    → Option ResolvedTopic
    → (ResolvedTopic → Bool)
    → (ResolvedTopic → Played)
    → (ResolvedTopic → Option (List Played))
    → Option (List Played)
round b o cut p rest =
    if b
    then some []
    else (elim o [ none ↦ some [] | some t ↦ if cut t then some [] else and_then (p t) (rest t) ])

untimed_all-round :
    (b : Bool) (o : Option ResolvedTopic) (cut : ResolvedTopic → Bool) (p : ResolvedTopic → Played)
    (rest rest' : ResolvedTopic → Option (List Played))
    → ((t : ResolvedTopic) → untimed_all (rest t) ≡ rest' t)
    → untimed_all (round b o cut p rest) ≡ round b o cut (λ t. untimed (p t)) rest'
untimed_all-round true o cut p rest rest' h = refl
untimed_all-round false none cut p rest rest' h = refl
untimed_all-round false (some t) cut p rest rest' h =
    elim (cut t)
      as (λ b.
        untimed_all (if b then some [] else and_then (p t) (rest t))
        ≡ (if b then some [] else and_then (untimed (p t)) (rest' t))) [
          | true ↦ refl
          | false ↦ untimed_all-and_then (p t) (rest t) ∙ ap (and_then (untimed (p t))) (h t)
        ]

module _ (r : RecordReader) where
  walk_loop-untimed :
      (fuel start : ℕ) (t0 t0' : Option ℕ) (offset : ℕ)
      → untimed_all (walk_loop r true fuel start t0 offset)
        ≡ walk_loop r false fuel start t0' offset
  unfolding walk_loop
  walk_loop-untimed zero start t0 t0' offset = refl
  walk_loop-untimed (suc fuel) start t0 t0' offset =
      untimed_all-round (ltb (file_size r) (offset + record_header_wire_size))
        (find (deserialize_record_header (drop offset r.base)).topic_id r.by_id)
        (λ t. ltb (file_size r) (offset + record_header_wire_size + t.wire_size)) _ _ _
        (λ t. walk_loop-untimed fuel start _ t0' _)

  -- `Run` ends on every file, wherever its records start.
  pub run-total : (start : ℕ) → run r start ≢ none
  unfolding run
  run-total start =
      rw (run_loop-walk_loop r (suc (file_size r)) start none r.records_start_offset) (
        walk_loop-total r true (suc (file_size r)) start none r.records_start_offset (omega arith)
          (omega arith))

  -- `Run` and `Walk` end on every file, wherever its records start, and make the same calls of the
  -- callback in the same order: `Run` is `Walk` with timing, and without timing only the deadlines are
  -- missing.
  pub run-walk :
      (start : ℕ)
      → (run r start ≢ none)
        × ((run r start ≡ walk r true start) × (untimed_all (run r start) ≡ walk r false start))
  unfolding run walk
  run-walk start = (
    run-total start,
    (
      same_calls,
      ap untimed_all same_calls
          ∙ walk_loop-untimed (suc (file_size r)) start none none r.records_start_offset,
    ),
  )
    where
      same_calls : run r start ≡ walk r true start
      same_calls = run_loop-walk_loop r (suc (file_size r)) start none r.records_start_offset
