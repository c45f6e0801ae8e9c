-- ===== src/Recovery/Mixed.antt =====
-- What the reader makes of a record that was cut short with further records behind it: src/core/
-- record_writer.cpp goes on after a `WriteRecord` that failed, and src/core/record_reader.cpp cannot tell.
use tri_drishti_chrono_cap.Common.{
  ℕ, ◌+◌, ◌-◌, ◌*◌, ◌≤◌, ◌<◌, ◌≡◌, ap, sym, ◌∙◌, arith, some, List, [], ◌∷◌, ◌++◌, append_assoc,
  map, length, length-append, length-take, take, drop, take-append-drop, take-append_add, All,
}
use tri_drishti_chrono_cap.Wire.Header.Layout.{file_header_bytes, record_header_bytes}
use tri_drishti_chrono_cap.Ring.Queue.{Item}
use tri_drishti_chrono_cap.Writer.{TopicInfo}
use tri_drishti_chrono_cap.Writer.Format.{
  item_header, item_bytes, items_bytes, topics_bytes, session_header,
}
use tri_drishti_chrono_cap.Writer.Thread.Flush.{items_bytes-append}
use tri_drishti_chrono_cap.Reader.{RecordReader, Played, parsed, parse_header_and_metadata, run}
use tri_drishti_chrono_cap.Reader.Parse.{mapped, resolved_of, table, parse_header_and_metadata_lem}
use tri_drishti_chrono_cap.Reader.Playback.{Known, plays}
use tri_drishti_chrono_cap.Reader.Prefix.{run-prefix}
use tri_drishti_chrono_cap.Recovery.{Consistent, preamble, length-preamble}

-- Records of a table, with anything behind them, are played first.
prefix_read_back :
    (now start : ℕ) (topics : List TopicInfo) (items : List Item) (rest : List ℕ)
    → Consistent topics items
    → (r : RecordReader) × (ps : List Played) × (parse_header_and_metadata
          (mapped (preamble now topics ++ (items_bytes items ++ rest)))
        ≡ parsed r)
      × (run r start ≡ some (plays start items ++ ps))
prefix_read_back now start topics items rest c =
    let head = file_header_bytes (session_header now topics) in
    let behind = items_bytes items ++ rest in
    let whole : preamble now topics ++ behind ≡ head ++ (topics_bytes topics ++ behind) =
      append_assoc head (topics_bytes topics) behind in
    let r : RecordReader = record {
      base = head ++ (topics_bytes topics ++ behind);
      records_start_offset = 32 + 38 * length topics;
      topics = map resolved_of topics;
      by_id = table topics;
    } in
    let (ps, played) =
      run-prefix r items (preamble now topics) rest start (length-preamble now topics) c.known
        (sym whole) in
    (
      r,
      ps,
      ap (λ b. parse_header_and_metadata (mapped b)) whole
          ∙ (parse_header_and_metadata_lem now 0 topics behind c.fits c.few).0,
      played,
    )

-- The record that the reader takes a torn one for.
abbrev pub mixed : Item → ℕ → List ℕ → Item
mixed x j rest = record x { bytes = take (length x.bytes) (take j x.bytes ++ rest) }

All-last {ℓ κ} :
    {A : Type ℓ} (P : A → Type κ) (xs : List A) (x y : A)
    → (P x → P y)
    → All P (xs ++ (x ∷ []))
    → All P (xs ++ (y ∷ []))
All-last P [] x y f (p, a) = (f p, a)
All-last P (z ∷ zs) x y f (p, a) = (p, All-last P zs x y f a)

mixed-Known :
    (topics : List TopicInfo) (x : Item) (j : ℕ) (rest : List ℕ)
    → j < length x.bytes
    → length x.bytes ≤ j + length rest
    → Known (table topics) x
    → Known (table topics) (mixed x j rest)
mixed-Known topics x j rest part long k = record {
  fits = k.fits;
  topic = k.topic;
  found = k.found;
  sized =
      k.sized
      ∙ omega (
        arith,
        length-take (length x.bytes) (take j x.bytes ++ rest),
        length-append (take j x.bytes) rest,
        length-take j x.bytes,
      );
}

-- The same bytes, read as the record and what is left of the rest.
mixed-bytes :
    (before : List Item) (x : Item) (j : ℕ) (rest : List ℕ)
    → items_bytes before ++ (record_header_bytes (item_header x) ++ (take j x.bytes ++ rest))
      ≡ items_bytes (before ++ (mixed x j rest ∷ []))
        ++ drop (length x.bytes) (take j x.bytes ++ rest)
mixed-bytes before x j rest =
    let head = record_header_bytes (item_header x) in
    let y = mixed x j rest in
    let behind = drop (length x.bytes) (take j x.bytes ++ rest) in
    ap (λ l. items_bytes before ++ (head ++ l))
      (sym (take-append-drop (length x.bytes) (take j x.bytes ++ rest)))
    ∙ ap (λ l. items_bytes before ++ l) (sym (append_assoc head y.bytes behind))
    ∙ sym (append_assoc (items_bytes before) (item_bytes y) behind)
    ∙ ap (λ l. l ++ behind) (sym (items_bytes-append before y))

-- A record that was cut short in its payload, after `j` bytes of it, with at least as many bytes behind it
-- as it lacks, where the topics and records fit the format: the reader accepts the file, plays the
-- records before it as they were, and then plays it as a whole record, with its own header and a
-- payload that ends in the bytes that stand behind it.
pub torn_mixes :
    (now start j : ℕ) (topics : List TopicInfo) (before : List Item) (x : Item) (rest : List ℕ)
    → Consistent topics (before ++ (x ∷ []))
    → j < length x.bytes
    → length x.bytes ≤ j + length rest
    → (r : RecordReader) × (ps : List Played) × (parse_header_and_metadata (
          mapped (
            preamble now topics
            ++ (items_bytes before
                ++ (record_header_bytes (item_header x) ++ (take j x.bytes ++ rest)))))
        ≡ parsed r)
      × (run r start ≡ some (plays start (before ++ (mixed x j rest ∷ [])) ++ ps))
      × ((mixed x j rest).bytes ≡ take j x.bytes ++ take (length x.bytes - j) rest)
torn_mixes now start j topics before x rest c part long =
    let (r, ps, parse, played) =
      prefix_read_back now start topics (before ++ (mixed x j rest ∷ []))
        (drop (length x.bytes) (take j x.bytes ++ rest))
        (record {
          fits = c.fits;
          few = c.few;
          known =
              All-last _ before x (mixed x j rest) (mixed-Known topics x j rest part long) c.known;
        }) in
    let size : length x.bytes ≡ length (take j x.bytes) + (length x.bytes - j) =
      omega (arith, length-take j x.bytes) in
    (
      r,
      ps,
      ap (λ l. parse_header_and_metadata (mapped (preamble now topics ++ l)))
            (mixed-bytes before x j rest)
          ∙ parse,
      played,
      ap (λ n. take n (take j x.bytes ++ rest)) size
          ∙ take-append_add (length x.bytes - j) (take j x.bytes) rest,
    )
