-- ===== src/Reader/Table.antt =====
-- What `ParseHeaderAndMetadata` makes of any file that it accepts.
use tri_drishti_chrono_cap.Common.{
  ℕ, zero, suc, ◌+◌, ◌*◌, ◌≤◌, ◌≡◌, refl, ap, sym, ◌∙◌, arith, inl, inr, Bool-cases, Option-cases,
  ◌==◌, ltb, List, [], ◌∷◌, ◌++◌, append-nil, append_assoc, length, length-drop, drop, All,
  All-drop,
}
use tri_drishti_chrono_cap.Wire.Memory.{strlen}
use tri_drishti_chrono_cap.Wire.Header.{
  format_version, deserialize_file_header, deserialize_topic_meta,
}
use tri_drishti_chrono_cap.Wire.Endian.Bytes.{IsByte, IsU16, IsU32}
use tri_drishti_chrono_cap.Wire.Header.Range.{deserialize_topic_meta-fits}
use tri_drishti_chrono_cap.Reader.{
  ResolvedTopic, TopicMap, RecordReader, Parsed, parsed, refused, overrun, file_size, assign,
  resolve, add_topic, parse_topics, parse_header_and_metadata,
}

-- The map after topics have been entered.
abbrev pub enter : TopicMap → List ResolvedTopic → TopicMap
enter m [] = m
enter m (t ∷ ts) = enter (assign t.topic_id t m) ts

-- The fields fit their C types.
pub record FitsResolved (t : ResolvedTopic) : Type 0 where
  pub topic_id : IsU16 t.topic_id
  pub wire_size : IsU32 t.wire_size

-- A reader that has gone through a table: the topics are entered in order, and the table lies in the file.
pub record Tabled (r r' : RecordReader) (offset n : ℕ) : Type 0 where
  pub more : List ResolvedTopic
  pub topics : r'.topics ≡ r.topics ++ more
  pub by_id : r'.by_id ≡ enter r.by_id more
  pub count : length more ≡ n
  pub fits : All FitsResolved more
  pub base : r'.base ≡ r.base
  pub start : r'.records_start_offset ≡ offset + 38 * n
  pub inside : r'.records_start_offset ≤ file_size r

abbrev pub Reads : RecordReader → ℕ → ℕ → Parsed → Type 0
Reads r offset n refused = Unit
Reads r offset n overrun = Unit
Reads r offset n (parsed r') = Tabled r r' offset n

Tabled-entry :
    (n : ℕ) (r : RecordReader) (t : ResolvedTopic) (offset : ℕ) (p : Parsed)
    → FitsResolved t
    → Reads (add_topic r t) (offset + 38) n p
    → Reads r offset (suc n) p
Tabled-entry n r t offset refused f h = tt
Tabled-entry n r t offset overrun f h = tt
Tabled-entry n r t offset (parsed r') f h = record {
  more = t ∷ h.more;
  topics = h.topics ∙ append_assoc r.topics (t ∷ []) h.more;
  by_id = h.by_id;
  count = ap (λ k. suc k) h.count;
  fits = (f, h.fits);
  base = h.base;
  start = omega (arith, h.start);
  inside = h.inside;
}

parse_topics-Reads :
    (n : ℕ) (r : RecordReader) (offset : ℕ)
    → All IsByte r.base
    → offset ≤ file_size r
    → Reads r offset n (parse_topics n r offset)
unfolding parse_topics
parse_topics-Reads zero r offset bytes h = record {
  more = [];
  topics = sym (append-nil r.topics);
  by_id = refl;
  count = refl;
  fits = tt;
  base = refl;
  start = omega arith;
  inside = h;
}
parse_topics-Reads (suc n) r offset bytes h =
    let entry = deserialize_topic_meta (drop offset r.base) in
    elim (Bool-cases (ltb (file_size r) (offset + 38))) [
      | inl cut ↦ rw (cut, parse_topics) tt
      | inr fits ↦ elim (Option-cases (strlen entry.name)) [
        | inl e ↦ rw (fits, e, parse_topics) tt
        | inr (l, e) ↦
            let (id, size) =
              deserialize_topic_meta-fits (drop offset r.base)
                (ground (arith, length-drop offset r.base)) (All-drop IsByte offset r.base bytes) in
            rw (fits, e, parse_topics)
              (Tabled-entry n r (resolve entry) offset _
                (record { topic_id = id; wire_size = size })
                (parse_topics-Reads n (add_topic r (resolve entry)) (offset + 38) bytes
                  (ground arith)))
      ]
    ]

abbrev pub Opens : RecordReader → Parsed → Type 0
Opens r refused = Unit
Opens r overrun = Unit
Opens r (parsed r') = (n : ℕ) × Tabled r r' 32 n

pub parse_header_and_metadata-Opens :
    (r : RecordReader) → All IsByte r.base → Opens r (parse_header_and_metadata r)
unfolding parse_header_and_metadata
parse_header_and_metadata-Opens r bytes = elim (Bool-cases (ltb (file_size r) 32)) [
  | inl cut ↦ rw (cut, parse_header_and_metadata) tt
  | inr fits ↦ elim (Option-cases (deserialize_file_header r.base)) [
    | inl e ↦ rw (fits, e, parse_header_and_metadata) tt
    | inr (header, e) ↦ elim (Bool-cases (header.version == format_version)) [
      | inr old ↦ rw (fits, e, parse_header_and_metadata, old) tt
      | inl now ↦
          rw (fits, e, parse_header_and_metadata, now)
            (by_table header.topic_count _
              (parse_topics-Reads header.topic_count r 32 bytes (ground arith)))
    ]
  ]
]
  where
    by_table : (n : ℕ) (p : Parsed) → Reads r 32 n p → Opens r p
    by_table n refused h = tt
    by_table n overrun h = tt
    by_table n (parsed r') h = (n, h)
