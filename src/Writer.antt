-- ===== src/Writer.antt =====
-- include/chrono_cap/record_writer.hpp and src/core/record_writer.cpp: the writer that drains the
-- ring into the .bin file. A function returns `none` where it does not return (`Writer.Output`), and
-- else the new state with the result of the C++ function. Times are numbers of nanoseconds.
pub mod Split
pub mod Output
pub mod Format
pub mod Records
pub mod Header
pub mod Thread
pub mod Lifecycle
use tri_drishti_chrono_cap.Common.{
  ℕ, ◌+◌, ◌-◌, ◌%◌, ◌^◌, ltb, ◌==◌, if◌then◌else◌, Bool, true, false, not, Option, none, some, List,
  [], ◌∷◌, ◌++◌, length, take, replicate,
}
use tri_drishti_chrono_cap.Wire.Memory.{c_str}
use tri_drishti_chrono_cap.Wire.Header.{
  FileHeader, TopicMetaEntry, RecordHeader, format_version, file_header_wire_size,
  topic_meta_wire_size, record_header_wire_size, serialize_file_header, serialize_topic_meta,
  serialize_record_header,
}
use tri_drishti_chrono_cap.Ring.{MpscRingBuffer, PoppedRecord, Sample, try_push}
use Output.{Descriptor, Disk, write_all}

-- The ring of the writer has 4096 = 2 ^ 12 slots.
abbrev pub ring_bits : ℕ
ring_bits = 12

pub record TopicInfo : Type 0 where
  pub topic_id : ℕ
  pub wire_size : ℕ
  pub name : List ℕ

-- `is_open` is `bin_fd_ >= 0`, `joinable` is `writer_thread_.joinable()`, and `synced` counts the
-- bytes that the last fsync covered.
pub record RecordWriter : Type 0 where
  pub ring : MpscRingBuffer
  pub shutdown : Bool
  pub joinable : Bool
  pub is_open : Bool
  pub pending_since_flush : ℕ
  pub last_flush : ℕ
  pub flush_interval : ℕ
  pub disk : Disk
  pub synced : ℕ

-- An array on the stack. Its bytes are unspecified; the serializers overwrite all of them.
abbrev pub scratch : ℕ → List ℕ
scratch n = replicate n 0

-- `snprintf(name, 32, "%s", text)` into a zeroed array: at most 31 characters, then NULs.
unfoldable pub print_name : List ℕ → List ℕ
print_name text = let chars = take 31 (c_str text) in chars ++ replicate (32 - length chars) 0

-- `fsync(bin_fd_)`
abbrev pub sync : RecordWriter → RecordWriter
sync w = record w { synced = length w.disk.bytes }

-- `Push`
unfoldable pub writer_push : RecordWriter → Sample → RecordWriter × Bool
writer_push w s =
    let (ring', done) = try_push ring_bits w.ring s in (record w { ring = ring' }, done)

-- `MaybeFlush`, at the time `now`. The clock is monotonic, so `now` is not before `last_flush`.
unfoldable pub maybe_flush : ℕ → RecordWriter → RecordWriter
maybe_flush now w =
    if w.pending_since_flush == 0
    then w
    else (if ltb (now - w.last_flush) w.flush_interval
        then w
        else (let w' = if w.is_open then sync w else w in
            record w' { pending_since_flush = 0; last_flush = now }))

module _ (fd : Descriptor) where
  -- One `WriteAll` of the writer, and what follows it if it succeeds.
  abbrev pub write_then :
      RecordWriter
      → List ℕ
      → ℕ
      → (RecordWriter → Option (RecordWriter × Bool))
      → Option (RecordWriter × Bool)
  write_then w bytes len next = elim (write_all fd w.disk bytes len) [
    | none ↦ none
    | some (disk', ok) ↦
        if ok then next (record w { disk = disk' }) else some (record w { disk = disk' }, false)
  ]

  unfoldable pub write_record : RecordWriter → PoppedRecord → Option (RecordWriter × Bool)
  write_record w rec =
      let hdr : RecordHeader = record {
        topic_id = rec.topic_id;
        stamp_ns = rec.stamp_ns;
        seq = rec.seq;
      } in
      let hdr_buf = serialize_record_header hdr (scratch record_header_wire_size) in
      if not w.is_open
      then some (w, false)
      else (write_then w hdr_buf record_header_wire_size (λ w1.
          write_then w1 rec.payload rec.payload_len (λ w2.
            some
              (record w2 { pending_since_flush = (w2.pending_since_flush + 1) % 2 ^ 32 }, true))))

  -- The loop over the topics in `WriteFileHeaderAndMetadata`. `serialize_topic_meta` is `none` only
  -- for a name with no NUL, which `print_name` never gives.
  unfoldable pub write_metadata : RecordWriter → List TopicInfo → Option (RecordWriter × Bool)
  write_metadata w [] = some (w, true)
  write_metadata w (topic ∷ topics) =
      let meta : TopicMetaEntry = record {
        topic_id = topic.topic_id;
        struct_size = topic.wire_size;
        name = print_name topic.name;
      } in
      let rest = λ (w' : RecordWriter). write_metadata w' topics in
      elim (serialize_topic_meta meta (scratch topic_meta_wire_size)) [
        | none ↦ none
        | some buf ↦ write_then w buf topic_meta_wire_size rest
      ]

  unfoldable pub write_file_header_and_metadata :
      ℕ → RecordWriter → List TopicInfo → Option (RecordWriter × Bool)
  write_file_header_and_metadata now w topics =
      let header : FileHeader = record {
        version = format_version;
        topic_count = length topics % 2 ^ 32;
        created_at_ns = now % 2 ^ 64;
      } in
      write_then w (serialize_file_header header (scratch file_header_wire_size))
        file_header_wire_size (λ w'. write_metadata w' topics)
