-- ===== src/Reader/Parse.antt =====
-- `ParseHeaderAndMetadata` on what `WriteFileHeaderAndMetadata` leaves in the file.
use tri_drishti_chrono_cap.Common.{
  or_else, ℕ, suc, ◌+◌, ◌*◌, ◌%◌, ◌^◌, ◌<◌, ◌≡◌, refl, ap, sym, ◌∙◌, arith, ltb_of_le, ◌==◌,
  if◌then◌else◌, Bool, true, false, Option, none, some, List, [], ◌∷◌, ◌++◌, append_assoc,
  append-nil, map, length, length-append, drop, drop-append, All,
}
use tri_drishti_chrono_cap.Wire.Endian.Bytes.{IsU16, IsU32}
use tri_drishti_chrono_cap.Wire.Header.{deserialize_topic_meta, deserialize_file_header}
use tri_drishti_chrono_cap.Wire.Header.Layout.{file_header_bytes, topic_meta_bytes}
use tri_drishti_chrono_cap.Wire.Header.Names.{length-padded, strlen-padded, c_str-padded}
use tri_drishti_chrono_cap.Wire.Header.RoundTrip.{topic_meta_roundtrip, file_header_roundtrip}
use mathlib.Core.Option
use tri_drishti_chrono_cap.Writer.{TopicInfo}
use tri_drishti_chrono_cap.Writer.Format.{short_name, topic_entry, topics_bytes, session_header}
use tri_drishti_chrono_cap.Writer.Header.{short_name_ok, length-topic_meta_bytes}
use tri_drishti_chrono_cap.Reader.{
  ResolvedTopic, TopicMap, RecordReader, parsed, find, assign, add_topic, parse_topics,
  parse_header_and_metadata,
}

-- A topic as the reader comes to know it.
abbrev pub resolved_of : TopicInfo → ResolvedTopic
resolved_of t = record { topic_id = t.topic_id; wire_size = t.wire_size; name = short_name t }

abbrev pub assign_all : TopicMap → List TopicInfo → TopicMap
assign_all m [] = m
assign_all m (t ∷ ts) = assign_all (assign t.topic_id (resolved_of t) m) ts

-- The topic that an id means: the last one in the table that has it.
abbrev pub last_with : ℕ → List TopicInfo → Option TopicInfo
last_with id [] = none
last_with id (t ∷ ts) = or_else (last_with id ts) (if t.topic_id == id then some t else none)

pub find-assign :
    (id j : ℕ) (t : ResolvedTopic) (m : TopicMap)
    → find id (assign j t m) ≡ (if j == id then some t else find id m)
unfolding find assign
find-assign id j t [] = refl
find-assign id j t ((k, u) ∷ m) = ground (arith, find-assign id j t m)

abbrev or_found : Option TopicInfo → Option ResolvedTopic → Option ResolvedTopic
or_found none o = o
or_found (some t) o = some (resolved_of t)

find-assign_all :
    (id : ℕ) (ts : List TopicInfo) (m : TopicMap)
    → find id (assign_all m ts) ≡ or_found (last_with id ts) (find id m)
find-assign_all id [] m = refl
find-assign_all id (t ∷ ts) m =
    find-assign_all id ts (assign t.topic_id (resolved_of t) m)
    ∙ ap (or_found (last_with id ts)) (find-assign id t.topic_id (resolved_of t) m)
    ∙ last_or (last_with id ts) (t.topic_id == id)
  where
    last_or :
        (o : Option TopicInfo) (b : Bool)
        → or_found o (if b then some (resolved_of t) else find id m)
          ≡ or_found (or_else o (if b then some t else none)) (find id m)
    last_or (some u) b = refl
    last_or none true = refl
    last_or none false = refl

-- The reader before it has read anything.
abbrev pub mapped : List ℕ → RecordReader
mapped base = record { base = base; records_start_offset = 0; topics = []; by_id = [] }

-- The reader with the topics known.
abbrev pub loaded : RecordReader → List TopicInfo → ℕ → RecordReader
loaded r ts offset = record r {
  records_start_offset = offset;
  topics = r.topics ++ map resolved_of ts;
  by_id = assign_all r.by_id ts;
}

pub record FitsTopic (t : TopicInfo) : Type 0 where
  pub topic_id : IsU16 t.topic_id
  pub wire_size : IsU32 t.wire_size

parse_topics-entry :
    (r : RecordReader) (t : TopicInfo) (front rest : List ℕ) (n : ℕ)
    → FitsTopic t
    → r.base ≡ front ++ (topic_meta_bytes (topic_entry t) ++ rest)
    → parse_topics (suc n) r (length front)
      ≡ parse_topics n (add_topic r (resolved_of t)) (length front + 38)
unfolding parse_topics
parse_topics-entry r t front rest n f e =
    let (h, short) = short_name_ok t in
    let entry = topic_entry t in
    let b : drop (length front) r.base ≡ topic_meta_bytes entry ++ rest =
      ap (drop (length front)) e ∙ drop-append (length front) front _ refl in
    let l : length r.base ≡ length front + (38 + length rest) =
      ap length e
      ∙ length-append front _
      ∙ ap (λ k. length front + k)
          (length-append (topic_meta_bytes entry) rest
            ∙ ap (λ k. k + length rest) (length-topic_meta_bytes t)) in
    let back : deserialize_topic_meta (drop (length front) r.base) ≡ entry =
      ap deserialize_topic_meta b
      ∙ topic_meta_roundtrip entry rest (record {
        topic_id = f.topic_id;
        struct_size = f.wire_size;
        name = length-padded (short_name t) (omega (arith, short));
      }) in
    rw
      (
        back,
        ltb_of_le {a = length r.base} {b = length front + 38} (omega arith),
        strlen-padded (short_name t) h short,
        back,
        c_str-padded (short_name t) h short,
      )
      refl

parse_topics_lem :
    (ts : List TopicInfo) (r : RecordReader) (front rest : List ℕ)
    → All FitsTopic ts
    → r.base ≡ front ++ (topics_bytes ts ++ rest)
    → parse_topics (length ts) r (length front)
      ≡ parsed (loaded r ts (length front + 38 * length ts))
unfolding parse_topics
parse_topics_lem [] r front rest fs e = λ i.
    parsed (record r { records_start_offset = zero_more i; topics = sym (append-nil r.topics) i })
  where
    zero_more : length front ≡ length front + 38 * 0
    zero_more = omega arith
parse_topics_lem (t ∷ ts) r front rest (f, fs) e =
    let entry = topic_meta_bytes (topic_entry t) in
    let split : r.base ≡ front ++ (entry ++ (topics_bytes ts ++ rest)) =
      e ∙ ap (λ l. front ++ l) (append_assoc entry (topics_bytes ts) rest) in
    let size : length (front ++ entry) ≡ length front + 38 =
      length-append front entry ∙ ap (λ k. length front + k) (length-topic_meta_bytes t) in
    let r' = add_topic r (resolved_of t) in
    parse_topics-entry r t front (topics_bytes ts ++ rest) (length ts) f split
    ∙ ap (parse_topics (length ts) r') (sym size)
    ∙ parse_topics_lem ts r' (front ++ entry) rest fs
        (split ∙ sym (append_assoc front entry (topics_bytes ts ++ rest)))
    ∙ ap parsed (λ i. record r {
      records_start_offset = moved i;
      topics = append_assoc r.topics (resolved_of t ∷ []) (map resolved_of ts) i;
      by_id = assign_all (assign t.topic_id (resolved_of t) r.by_id) ts;
    })
  where
    moved :
        length (front ++ topic_meta_bytes (topic_entry t)) + 38 * length ts
        ≡ length front + 38 * suc (length ts)
    moved =
        omega
          (arith, length-append front (topic_meta_bytes (topic_entry t)), length-topic_meta_bytes t)

or_found-none : (o : Option TopicInfo) → or_found o none ≡ Option.map resolved_of o
or_found-none none = refl
or_found-none (some t) = refl

-- The table that a session's topics make.
abbrev pub table : List TopicInfo → TopicMap
table topics = assign_all [] topics

-- A file that begins as the writer writes it, with fewer than 2 ^ 32 topics whose fields fit their C
-- types, is accepted, whatever stands behind the table: the reader has every topic with its id,
-- size and (shortened) name, in order, the records start behind the table, and looking any id up
-- gives the last topic that has it, or nothing if none has.
pub parse_header_and_metadata_lem :
    (now id : ℕ) (topics : List TopicInfo) (rest : List ℕ)
    → All FitsTopic topics
    → length topics < 2 ^ 32
    → let base = file_header_bytes (session_header now topics) ++ (topics_bytes topics ++ rest) in
      (parse_header_and_metadata (mapped base)
        ≡ parsed (record {
          base = base;
          records_start_offset = 32 + 38 * length topics;
          topics = map resolved_of topics;
          by_id = table topics;
        }))
      × (find id (table topics) ≡ Option.map resolved_of (last_with id topics))
unfolding parse_header_and_metadata find
parse_header_and_metadata_lem now id topics rest fs few =
    let header = session_header now topics in
    let base = file_header_bytes header ++ (topics_bytes topics ++ rest) in
    let back : deserialize_file_header base ≡ some header =
      file_header_roundtrip header (topics_bytes topics ++ rest) (record {
        version = omega arith;
        topic_count = omega arith;
        created_at_ns = omega arith;
      }) in
    let room : length base ≡ 32 + length (topics_bytes topics ++ rest) =
      length-append (file_header_bytes header) (topics_bytes topics ++ rest) in
    let count : length topics % 2 ^ 32 ≡ length topics = omega arith in
    (
      rw (ltb_of_le {a = length base} {b = 32} (omega arith), back)
          (ap (λ n. parse_topics n (mapped base) 32) count
            ∙ parse_topics_lem topics (mapped base) (file_header_bytes header) rest fs refl),
      find-assign_all id topics [] ∙ or_found-none (last_with id topics),
    )
