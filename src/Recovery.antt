-- ===== src/Recovery.antt =====
-- The writer's file and the reader together: src/core/record_writer.cpp and
-- src/core/record_reader.cpp. What the reader plays from a session's file, and from any part of it
-- that a crash may have left.
pub mod Mixed
use tri_drishti_chrono_cap.Common.{
  Bool, true, ℕ, zero, suc, ◌+◌, ◌*◌, ◌^◌, ◌≤◌, ◌<◌, ◌≡◌, refl, ap, sym, ◌∙◌, arith, some, List, [],
  ◌∷◌, ◌++◌, append-nil, append_assoc, map, length, length-append, take, take-nil, take-append_le,
  take-append_add, All, All-take, ◌⊎◌, inl, inr,
}
use tri_drishti_chrono_cap.Wire.Header.Layout.{file_header_bytes}
use tri_drishti_chrono_cap.Ring.Queue.{Item}
use tri_drishti_chrono_cap.Writer.{TopicInfo}
use tri_drishti_chrono_cap.Writer.Format.{
  item_bytes, items_bytes, topic_entry, topics_bytes, session_header, file_bytes,
}
use tri_drishti_chrono_cap.Wire.Header.Layout.{topic_meta_bytes}
use tri_drishti_chrono_cap.Writer.Header.{length-topic_meta_bytes}
use tri_drishti_chrono_cap.Reader.{
  ResolvedTopic, TopicMap, RecordReader, parsed, parse_header_and_metadata, run,
}
use tri_drishti_chrono_cap.Reader.Open.{
  opened, hook_all, hook_all-All, open_reader, open_reader-parsed,
}
use tri_drishti_chrono_cap.Reader.Parse.{
  FitsTopic, mapped, resolved_of, table, parse_header_and_metadata_lem,
}
use tri_drishti_chrono_cap.Reader.Playback.{Known, Torn, short, cut, plays, run-records, split_at}

length-topics_bytes : (ts : List TopicInfo) → length (topics_bytes ts) ≡ 38 * length ts
length-topics_bytes [] = refl
length-topics_bytes (t ∷ ts) =
    length-append (topic_meta_bytes (topic_entry t)) (topics_bytes ts)
    ∙ omega (arith, length-topic_meta_bytes t, length-topics_bytes ts)

-- The bytes before the records.
abbrev pub preamble : ℕ → List TopicInfo → List ℕ
preamble now topics = file_header_bytes (session_header now topics) ++ topics_bytes topics

pub length-preamble :
    (now : ℕ) (topics : List TopicInfo) → length (preamble now topics) ≡ 32 + 38 * length topics
length-preamble now topics =
    length-append (file_header_bytes (session_header now topics)) (topics_bytes topics)
    ∙ ap (λ n. 32 + n) (length-topics_bytes topics)

-- The table's topics fit the format, and the records' topics are in it with their payloads' sizes.
pub record Consistent (topics : List TopicInfo) (items : List Item) : Type 0 where
  pub fits : All FitsTopic topics
  pub few : length topics < 2 ^ 32
  pub known : All (Known (table topics)) items

-- A file of whole records and what a crash may leave behind them is accepted, and plays just them.
read_back :
    (now start : ℕ) (topics : List TopicInfo) (items : List Item) (tail : List ℕ)
    → Consistent topics items
    → Torn (table topics) tail
    → (r : RecordReader) × (parse_header_and_metadata
          (mapped (preamble now topics ++ (items_bytes items ++ tail)))
        ≡ parsed r)
      × (r.topics ≡ map resolved_of topics)
      × (run r start ≡ some (plays start items))
read_back now start topics items tail c t =
    let head = file_header_bytes (session_header now topics) in
    let rest = items_bytes items ++ tail in
    let whole : preamble now topics ++ rest ≡ head ++ (topics_bytes topics ++ rest) =
      append_assoc head (topics_bytes topics) rest in
    let r : RecordReader = record {
      base = head ++ (topics_bytes topics ++ rest);
      records_start_offset = 32 + 38 * length topics;
      topics = map resolved_of topics;
      by_id = table topics;
    } in
    (
      r,
      ap (λ b. parse_header_and_metadata (mapped b)) whole
          ∙ (parse_header_and_metadata_lem now 0 topics rest c.fits c.few).0,
      refl,
      run-records r items (preamble now topics) tail start (length-preamble now topics) c.known t
          (sym whole),
    )

-- A cut through the records leaves the first ones whole, as many as fit, and a part of the next.
record Cut (m : ℕ) (items : List Item) (topics : TopicMap) : Type 0 where
  kept : ℕ
  tail : List ℕ
  split : take m (items_bytes items) ≡ items_bytes (take kept items) ++ tail
  left : Torn topics tail
  fit : length (items_bytes (take kept items)) ≤ m
  most : (kept ≡ length items) ⊎ (m < length (items_bytes (take (suc kept) items)))

cut_lem :
    (m : ℕ) (items : List Item) (topics : TopicMap) → All (Known topics) items → Cut m items topics
cut_lem m [] topics ks = record {
  kept = 0;
  tail = [];
  split = take-nil m;
  left = short (omega arith);
  fit = omega arith;
  most = inl refl;
}
cut_lem m (x ∷ xs) topics (k, ks) = elim (split_at (length (item_bytes x)) m) [
  | inl part ↦ record {
    kept = 0;
    tail = take m (item_bytes x);
    split = take-append_le m (item_bytes x) (items_bytes xs) (omega arith);
    left = cut x m k part refl;
    fit = omega arith;
    most = inr (omega (arith, length-append (item_bytes x) []));
  }
  | inr (j, e) ↦
      let rest = cut_lem j xs topics ks in
      let first = item_bytes x in
      record {
        kept = suc rest.kept;
        tail = rest.tail;
        split =
            ap (λ n. take n (first ++ items_bytes xs)) e
            ∙ take-append_add j first (items_bytes xs)
            ∙ ap (λ l. first ++ l) rest.split
            ∙ sym (append_assoc first (items_bytes (take rest.kept xs)) rest.tail);
        left = rest.left;
        fit = omega (arith, length-append first (items_bytes (take rest.kept xs)), rest.fit);
        most = elim rest.most [
          | inl every ↦ inl (ap suc every)
          | inr less ↦
              inr (omega (arith, length-append first (items_bytes (take (suc rest.kept) xs))))
        ];
      }
]

-- However much of a session's file a crash left, so long as header and table are whole, the reader
-- accepts it with the session's topics, and `Run` ends and plays the first records, in order and
-- whole, just as many as stand in it whole. The topics and records fit the format, and each record's
-- topic is in the table with its payload's size.
pub crash_read_back :
    (now start m : ℕ) (topics : List TopicInfo) (items : List Item)
    → Consistent topics items
    → (kept : ℕ) × (r : RecordReader) × (parse_header_and_metadata
          (mapped (take (length (preamble now topics) + m) (file_bytes now topics items)))
        ≡ parsed r)
      × (r.topics ≡ map resolved_of topics)
      × (run r start ≡ some (plays start (take kept items)))
      × (length (items_bytes (take kept items)) ≤ m)
      × ((kept ≡ length items) ⊎ (m < length (items_bytes (take (suc kept) items))))
crash_read_back now start m topics items c =
    let t = cut_lem m items (table topics) c.known in
    let (r, parse, names, plays_them) =
      read_back now start topics (take t.kept items) t.tail
        (record { fits = c.fits; few = c.few; known = All-take _ t.kept items c.known }) t.left in
    let bytes : take (length (preamble now topics) + m) (file_bytes now topics items)
        ≡ preamble now topics ++ (items_bytes (take t.kept items) ++ t.tail) =
      ap (take (length (preamble now topics) + m)) (
        sym (
          append_assoc (file_header_bytes (session_header now topics)) (topics_bytes topics)
            (items_bytes items)))
      ∙ take-append_add m (preamble now topics) (items_bytes items)
      ∙ ap (λ l. preamble now topics ++ l) t.split in
    (
      t.kept,
      r,
      ap (λ b. parse_header_and_metadata (mapped b)) bytes ∙ parse,
      names,
      plays_them,
      t.fit,
      t.most,
    )

-- The file of a whole session is accepted with the session's topics, and `Run` ends and plays
-- every record, in order, where topics and records fit the format and each record's topic is in
-- the table with its payload's size.
pub session_read_back :
    (now start : ℕ) (topics : List TopicInfo) (items : List Item)
    → Consistent topics items
    → (r : RecordReader) × (parse_header_and_metadata (mapped (file_bytes now topics items))
        ≡ parsed r)
      × (r.topics ≡ map resolved_of topics)
      × (run r start ≡ some (plays start items))
session_read_back now start topics items c =
    let (r, parse, names, plays_them) =
      read_back now start topics items [] c (short (omega arith)) in
    let bytes : file_bytes now topics items ≡ preamble now topics ++ (items_bytes items ++ []) =
      sym (
        append_assoc (file_header_bytes (session_header now topics)) (topics_bytes topics)
          (items_bytes items))
      ∙ ap (λ l. preamble now topics ++ l) (sym (append-nil (items_bytes items))) in
    (r, ap (λ b. parse_header_and_metadata (mapped b)) bytes ∙ parse, names, plays_them)

All-map {ℓ κ} :
    {A B : Type ℓ} (f : A → B) (P : B → Type κ) (xs : List A)
    → All (λ x. P (f x)) xs
    → All P (map f xs)
All-map f P [] a = tt
All-map f P (x ∷ xs) (p, a) = (p, All-map f P xs a)

-- `Open` of a new reader on the file of a whole session succeeds with a hook that accepts each of the
-- session's topics, and `Run` then ends and plays every record, in order, where topics and records
-- fit the format and each record's topic is in the table with its payload's size.
pub open_read_back :
    (now start : ℕ) (topics : List TopicInfo) (items : List Item) (on_topic : ResolvedTopic → Bool)
    → Consistent topics items
    → All (λ t. on_topic (resolved_of t) ≡ true) topics
    → (r : RecordReader) × (open_reader
          (some (file_bytes now topics items))
          (some on_topic)
          (mapped [])
        ≡ opened r)
      × (r.topics ≡ map resolved_of topics)
      × (run r start ≡ some (plays start items))
open_read_back now start topics items on_topic c a =
    let (r, parse, names, plays_them) = session_read_back now start topics items c in
    let accept : hook_all on_topic r.topics ≡ true =
      ap (hook_all on_topic) names
      ∙ hook_all-All on_topic (map resolved_of topics)
          (All-map resolved_of (λ t. on_topic t ≡ true) topics a) in
    (
      r,
      open_reader-parsed (file_bytes now topics items) on_topic (mapped []) r parse accept,
      names,
      plays_them,
    )
