-- ===== src/Writer/Header.antt =====
-- src/core/record_writer.cpp, `WriteFileHeaderAndMetadata`: what opening a session leaves in the file.
use tri_drishti_chrono_cap.Common.{
  ℕ, zero, suc, ◌+◌, ◌^◌, ◌<◌, ◌≡◌, refl, ap, sym, subst, ◌∙◌, arith, ◌==◌, Bool, Bool-cases, inl,
  inr, true, false, Option, some, List, [], ◌∷◌, ◌++◌, append-nil, append_assoc, length,
  length-append, length-take, take, take_all, take-append_le, take-append_add,
}
use tri_drishti_chrono_cap.Wire.Memory.{c_str}
use tri_drishti_chrono_cap.Wire.Header.{
  FileHeader, topic_meta_wire_size, file_header_wire_size, serialize_topic_meta,
  serialize_file_header,
}
use tri_drishti_chrono_cap.Wire.Header.Layout.{
  file_header_bytes, topic_meta_bytes, serialize_file_header_lem,
}
use tri_drishti_chrono_cap.Wire.Header.Names.{HasNoNul, length-padded, serialize_topic_meta_lem}
use tri_drishti_chrono_cap.Writer.{
  RecordWriter, TopicInfo, scratch, print_name, write_then, write_metadata,
  write_file_header_and_metadata,
}
use tri_drishti_chrono_cap.Writer.Output.{
  Descriptor, IsRegularFile, Disk, Wrote, whole, part, write_all, write_all_lem,
}
use tri_drishti_chrono_cap.Writer.Format.{short_name, topic_entry, topics_bytes, session_header}
use tri_drishti_chrono_cap.Writer.Records.{write_then-ok, write_then-failed}

-- All of `bs` was appended and the result is true, or a proper part of it, from the front, and the
-- result is false.
pub data Extended (before bs after : List ℕ) : Bool → Type 0 where
  all : after ≡ before ++ bs → Extended before bs after true
  torn : (m : ℕ) → m < length bs → after ≡ before ++ take m bs → Extended before bs after false

-- The run returns, it changes the disk only, and the disk is extended by `bs`.
abbrev pub Appends : RecordWriter → List ℕ → Option (RecordWriter × Bool) → Type 0
Appends w bs run =
    (d : Disk) × (ok : Bool) × (run ≡ some (record w { disk = d }, ok))
    × Extended w.disk.bytes bs d.bytes ok

Extended-append :
    (before c bs mid after : List ℕ) (ok : Bool)
    → mid ≡ before ++ c
    → Extended mid bs after ok
    → Extended before (c ++ bs) after ok
Extended-append before c bs mid after true e (all q) =
    all (q ∙ ap (λ l. l ++ bs) e ∙ append_assoc before c bs)
Extended-append before c bs mid after false e (torn m lt q) =
    torn (length c + m) (omega (arith, length-append c bs)) (
      q
      ∙ ap (λ l. l ++ take m bs) e
      ∙ append_assoc before c (take m bs)
      ∙ ap (λ l. before ++ l) (sym (take-append_add m c bs)))

module _ {fd : Descriptor} (law : IsRegularFile fd) where
  -- A chunk, and then what appends the rest.
  module _ (w : RecordWriter) (c bs : List ℕ) (next : RecordWriter → Option (RecordWriter × Bool))
      (small : length c < 2 ^ 64)
      (rest : (d : Disk) → Appends (record w { disk = d }) bs (next (record w { disk = d }))) where
    chunk_done :
        (d : Disk) (ok : Bool)
        → write_all fd w.disk c (length c) ≡ some (d, ok)
        → Wrote w.disk c (length c) d ok
        → Appends w (c ++ bs) (write_then fd w c (length c) next)
    chunk_done d true e (whole q) =
        let (d', ok', run, ext) = rest d in
        let mid : d.bytes ≡ w.disk.bytes ++ c =
          q ∙ ap (λ l. w.disk.bytes ++ l) (take_all (length c) c (omega arith)) in
        (
          d',
          ok',
          write_then-ok fd w c (length c) next d e ∙ run,
          Extended-append w.disk.bytes c bs d.bytes d'.bytes ok' mid ext,
        )
    chunk_done d false e (part m lt q) = (
      d,
      false,
      write_then-failed fd w c (length c) next d e,
      torn m (omega (arith, length-append c bs))
          (q ∙ ap (λ l. w.disk.bytes ++ l) (sym (take-append_le m c bs (omega arith)))),
    )

    write_then-Appends : Appends w (c ++ bs) (write_then fd w c (length c) next)
    write_then-Appends =
        let (d, ok, e, done) = write_all_lem law w.disk c (length c) small in chunk_done d ok e done

-- A C string holds no NUL.
c_str-HasNoNul : (s : List ℕ) → HasNoNul (c_str s)
unfolding c_str
c_str-HasNoNul [] = tt
c_str-HasNoNul (c ∷ s) = elim (Bool-cases (c == 0)) [
  | inl nul ↦ rw nul tt
  | inr other ↦ rw other (λ e. ground arith, c_str-HasNoNul s)
]

take-HasNoNul : (n : ℕ) (s : List ℕ) → HasNoNul s → HasNoNul (take n s)
take-HasNoNul zero s h = tt
take-HasNoNul (suc n) [] h = tt
take-HasNoNul (suc n) (c ∷ s) h = (h.0, take-HasNoNul n s h.1)

-- The name that a topic gets in the file.
pub short_name_ok : (t : TopicInfo) → HasNoNul (short_name t) × (length (short_name t) < 32)
short_name_ok t = (
  take-HasNoNul 31 (c_str t.name) (c_str-HasNoNul t.name),
  omega (arith, length-take 31 (c_str t.name)),
)

header_buffer :
    (h : FileHeader) → serialize_file_header h (scratch file_header_wire_size) ≡ file_header_bytes h
header_buffer h = serialize_file_header_lem h (scratch 32) (omega arith) ∙ append-nil _

entry_buffer :
    (t : TopicInfo)
    → serialize_topic_meta
        (record { topic_id = t.topic_id; struct_size = t.wire_size; name = print_name t.name })
        (scratch topic_meta_wire_size)
      ≡ some (topic_meta_bytes (topic_entry t))
unfolding print_name
entry_buffer t =
    let (h, short) = short_name_ok t in
    serialize_topic_meta_lem t.topic_id t.wire_size (short_name t) (scratch 38) h short
      (omega arith)
    ∙ ap some (append-nil _)

pub length-topic_meta_bytes : (t : TopicInfo) → length (topic_meta_bytes (topic_entry t)) ≡ 38
length-topic_meta_bytes t =
    omega (arith, length-padded (short_name t) (omega (arith, (short_name_ok t).1)))

module _ {fd : Descriptor} (law : IsRegularFile fd) where
  write_metadata_lem :
      (w : RecordWriter) (topics : List TopicInfo)
      → Appends w (topics_bytes topics) (write_metadata fd w topics)
  unfolding write_metadata
  write_metadata_lem w [] = (w.disk, true, refl, all (sym (append-nil w.disk.bytes)))
  write_metadata_lem w (t ∷ topics) =
      rw (entry_buffer t, write_metadata)
        (subst
          (λ n. Appends w (topic_meta_bytes (topic_entry t) ++ topics_bytes topics) (
            write_then fd w (topic_meta_bytes (topic_entry t)) n
              (λ w'. write_metadata fd w' topics)))
          (length-topic_meta_bytes t)
          (write_then-Appends law w (topic_meta_bytes (topic_entry t)) (topics_bytes topics)
            (λ w'. write_metadata fd w' topics) (omega (arith, length-topic_meta_bytes t))
            (λ d. write_metadata_lem (record w { disk = d }) topics)))

  -- On a regular file `WriteFileHeaderAndMetadata` returns. True: the header and the entries of
  -- all topics were appended; false: a proper part of them, from the front. It changes the file
  -- only.
  pub write_file_header_and_metadata_lem :
      (now : ℕ) (w : RecordWriter) (topics : List TopicInfo)
      → Appends w
          (file_header_bytes (session_header now topics) ++ topics_bytes topics)
          (write_file_header_and_metadata fd now w topics)
  unfolding write_file_header_and_metadata
  write_file_header_and_metadata_lem now w topics =
      let h : FileHeader = session_header now topics in
      rw (header_buffer h) (
        write_then-Appends law w (file_header_bytes h) (topics_bytes topics)
          (λ w'. write_metadata fd w' topics) (omega arith)
          (λ d. write_metadata_lem (record w { disk = d }) topics))
