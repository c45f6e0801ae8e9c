-- ===== src/Reader/Delivered.antt =====
-- What the loop of `Run` hands to its callback, call by call, on any file.
use tri_drishti_chrono_cap.Common.{
  ℕ, zero, suc, ◌+◌, ◌≤◌, ◌≡◌, refl, ap, sym, ◌∙◌, subst, arith, inl, inr, Bool-cases, Option-cases,
  ◌==◌, ==_iff, ltb, if◌then◌else◌, Option, none, some, List, [], ◌∷◌, length, length-drop,
  length-take, take, drop, All, All-drop, All-take,
}
use tri_drishti_chrono_cap.Wire.Header.{deserialize_record_header}
use tri_drishti_chrono_cap.Wire.Endian.Bytes.{IsByte, IsU16, IsU64}
use tri_drishti_chrono_cap.Wire.Header.Range.{deserialize_record_header-FitsRecordHeader}
use tri_drishti_chrono_cap.Reader.Table.{enter}
use tri_drishti_chrono_cap.Reader.{
  ResolvedTopic, TopicMap, RecordReader, Played, file_size, find, assign, run_loop, and_then,
}
use tri_drishti_chrono_cap.Reader.Parse.{find-assign}

-- Whatever id is found, its topic has this id and `P`.
abbrev pub IsBound : (ResolvedTopic → Type 0) → TopicMap → Type 0
IsBound P m = (id : ℕ) (t : ResolvedTopic) → find id m ≡ some t → (t.topic_id ≡ id) × P t

assign-IsBound :
    (P : ResolvedTopic → Type 0) (m : TopicMap) (t : ResolvedTopic)
    → P t
    → IsBound P m
    → IsBound P (assign t.topic_id t m)
assign-IsBound P m t p h id u e = elim (Bool-cases (t.topic_id == id)) [
  | inr other ↦
      h id u
        (sym (find-assign id t.topic_id t m ∙ ap (λ b. if b then some t else find id m) other) ∙ e)
  | inl same ↦
      let f : some t ≡ some u =
        sym (find-assign id t.topic_id t m ∙ ap (λ b. if b then some t else find id m) same) ∙ e in
      subst
        (λ (o : Option ResolvedTopic). elim o [ none ↦ Unit | some v ↦ (v.topic_id ≡ id) × P v ]) f
        ((==_iff t.topic_id id).0 same, p)
]

pub enter-IsBound :
    (P : ResolvedTopic → Type 0) (ts : List ResolvedTopic) (m : TopicMap)
    → All P ts
    → IsBound P m
    → IsBound P (enter m ts)
enter-IsBound P [] m a h = h
enter-IsBound P (t ∷ ts) m (p, a) h = enter-IsBound P ts _ a (assign-IsBound P m t p h)

-- A call of the callback for a topic with `P`: the payload has as many bytes as the topic's size, and the
-- arguments fit their C types.
pub record Delivered (P : ResolvedTopic → Type 0) (p : Played) : Type 0 where
  pub topic : ResolvedTopic
  pub known : P topic
  pub id : topic.topic_id ≡ p.topic_id
  pub len : p.len ≡ topic.wire_size
  pub whole : length p.payload ≡ p.len
  pub topic_id : IsU16 p.topic_id
  pub stamp_ns : IsU64 p.stamp_ns
  pub seq : IsU64 p.seq
  pub bytes : All IsByte p.payload

-- What the records take in the file.
abbrev pub records_size : List Played → ℕ
records_size [] = 0
records_size (p ∷ ps) = 18 + (length p.payload + records_size ps)

abbrev pub Plays : (ResolvedTopic → Type 0) → RecordReader → ℕ → Option (List Played) → Type 0
Plays P r offset none = Unit
Plays P r offset (some ps) = All (Delivered P) ps × (offset + records_size ps ≤ file_size r)

and_then-Plays :
    (P : ResolvedTopic → Type 0) (r : RecordReader) (offset n : ℕ) (p : Played)
    (rest : Option (List Played))
    → Delivered P p
    → length p.payload ≡ n
    → Plays P r (offset + 18 + n) rest
    → Plays P r offset (and_then p rest)
and_then-Plays P r offset n p none d e h = tt
and_then-Plays P r offset n p (some ps) d e (a, h) = ((d, a), omega arith)

module _ (P : ResolvedTopic → Type 0) (r : RecordReader) (bound : IsBound P r.by_id)
    (bytes : All IsByte r.base) where
  pub run_loop-Plays :
      (fuel start : ℕ) (t0 : Option ℕ) (offset : ℕ)
      → offset ≤ file_size r
      → Plays P r offset (run_loop r fuel start t0 offset)
  unfolding run_loop
  run_loop-Plays zero start t0 offset h = tt
  run_loop-Plays (suc fuel) start t0 offset h =
      let hdr = deserialize_record_header (drop offset r.base) in
      let here : offset + 0 ≤ file_size r = omega arith in
      elim (Bool-cases (ltb (file_size r) (offset + 18))) [
        | inl cut ↦ rw (cut, run_loop) (tt, here)
        | inr fits ↦ elim (Option-cases (find hdr.topic_id r.by_id)) [
          | inl e ↦ rw (fits, e, run_loop) (tt, here)
          | inr (t, e) ↦ elim (Bool-cases (ltb (file_size r) (offset + 18 + t.wire_size))) [
            | inl cut ↦ rw (fits, e, run_loop, cut) (tt, here)
            | inr whole ↦
                let size : length (take t.wire_size (drop (offset + 18) r.base)) ≡ t.wire_size =
                  length-take t.wire_size (drop (offset + 18) r.base)
                  ∙ ground (arith, length-drop (offset + 18) r.base) in
                let (id, known) = bound hdr.topic_id t e in
                let fit =
                  deserialize_record_header-FitsRecordHeader (drop offset r.base)
                    (ground (arith, length-drop offset r.base))
                    (All-drop IsByte offset r.base bytes) in
                rw (fits, e, run_loop, whole)
                  (and_then-Plays P r offset t.wire_size _ _
                    (record {
                      topic = t;
                      known = known;
                      id = id;
                      len = refl;
                      whole = size;
                      topic_id = fit.topic_id;
                      stamp_ns = fit.stamp_ns;
                      seq = fit.seq;
                      bytes =
                          All-take IsByte t.wire_size (drop (offset + 18) r.base)
                            (All-drop IsByte (offset + 18) r.base bytes);
                    })
                    size (run_loop-Plays fuel start _ (offset + 18 + t.wire_size) (ground arith)))
          ]
        ]
      ]
