-- ===== src/Writer/Records.antt =====
-- src/core/record_writer.cpp, `WriteRecord`: what one call leaves in the file.
use tri_drishti_chrono_cap.Common.{
  ℕ, ◌+◌, ◌%◌, ◌^◌, ◌≤◌, ◌<◌, ◌≡◌, refl, ap, sym, ◌∙◌, arith, if◌then◌else◌, not, Bool, true, false,
  Option, some, List, ◌++◌, append-nil, append_assoc, length, length-append, length-take, take,
  take-append_le, take-append_add, take-take_le,
}
use tri_drishti_chrono_cap.Wire.Header.{
  RecordHeader, record_header_wire_size, serialize_record_header,
}
use tri_drishti_chrono_cap.Wire.Header.Layout.{record_header_bytes, serialize_record_header_lem}
use tri_drishti_chrono_cap.Ring.{PoppedRecord}
use tri_drishti_chrono_cap.Ring.Queue.{Item, item_of_record}
use tri_drishti_chrono_cap.Writer.{RecordWriter, scratch, write_then, write_record}
use tri_drishti_chrono_cap.Writer.Output.{
  Descriptor, IsRegularFile, Disk, Wrote, whole, part, write_all, write_all_lem, WritesSucceed,
  write_all-whole,
}
use tri_drishti_chrono_cap.Writer.Format.{item_header, item_bytes}

-- What a pop gives the writer: an array of 64 bytes with the length inside it.
pub record IsRecord (rec : PoppedRecord) : Type 0 where
  pub sized : length rec.payload ≡ 64
  pub fits : rec.payload_len ≤ 64

abbrev pub counted : RecordWriter → Disk → RecordWriter
counted w d = record w { disk = d; pending_since_flush = (w.pending_since_flush + 1) % 2 ^ 32 }

-- The record's bytes stand behind what the file held, and the record is counted; or a proper part of
-- them does, from the front, and it is not. All else is as it was.
pub data Recorded (w : RecordWriter) (x : Item) (w' : RecordWriter) : Bool → Type 0 where
  recorded :
      (d : Disk) → d.bytes ≡ w.disk.bytes ++ item_bytes x → w' ≡ counted w d → Recorded w x w' true
  torn :
      (d : Disk) (m : ℕ)
      → m < length (item_bytes x)
      → d.bytes ≡ w.disk.bytes ++ take m (item_bytes x)
      → w' ≡ record w { disk = d }
      → Recorded w x w' false

pub header_buffer :
    (h : RecordHeader)
    → serialize_record_header h (scratch record_header_wire_size) ≡ record_header_bytes h
header_buffer h = serialize_record_header_lem h (scratch 18) (omega arith) ∙ append-nil _

module _ (fd : Descriptor) (w : RecordWriter) (p : List ℕ) (len : ℕ) where
  pub write_then-ok :
      (next : RecordWriter → Option (RecordWriter × Bool)) (d : Disk)
      → write_all fd w.disk p len ≡ some (d, true)
      → write_then fd w p len next ≡ next (record w { disk = d })
  write_then-ok next d e = rw (e, write_then)

  pub write_then-failed :
      (next : RecordWriter → Option (RecordWriter × Bool)) (d : Disk)
      → write_all fd w.disk p len ≡ some (d, false)
      → write_then fd w p len next ≡ some (record w { disk = d }, false)
  write_then-failed next d e = rw (e, write_then)

module _ {fd : Descriptor} (law : IsRegularFile fd) (w : RecordWriter) (rec : PoppedRecord) where
  abbrev item : Item
  item = item_of_record rec

  abbrev header : List ℕ
  header = record_header_bytes (item_header item)

  abbrev Outcome : Option (RecordWriter × Bool) → Type 0
  Outcome run = (w' : RecordWriter) × (ok : Bool) × (run ≡ some (w', ok)) × Recorded w item w' ok

  abbrev count_it : RecordWriter → Option (RecordWriter × Bool)
  count_it w2 = some (counted w2 w2.disk, true)

  -- The second write, behind the header.
  payload_done :
      (d d2 : Disk) (ok : Bool)
      → IsRecord rec
      → d.bytes ≡ w.disk.bytes ++ header
      → write_all fd d rec.payload rec.payload_len ≡ some (d2, ok)
      → Wrote d rec.payload rec.payload_len d2 ok
      → Outcome (write_then fd (record w { disk = d }) rec.payload rec.payload_len count_it)
  payload_done d d2 true v b e (whole q) = (
    counted w d2,
    true,
    write_then-ok fd (record w { disk = d }) rec.payload rec.payload_len count_it d2 e,
    recorded d2
        (q ∙ ap (λ l. l ++ take rec.payload_len rec.payload) b ∙ append_assoc w.disk.bytes header _)
        refl,
  )
  payload_done d d2 false v b e (part m lt q) = (
    record w { disk = d2 },
    false,
    write_then-failed fd (record w { disk = d }) rec.payload rec.payload_len count_it d2 e,
    torn d2 (length header + m)
        (omega (
          arith,
          length-append header item.bytes,
          length-take rec.payload_len rec.payload,
          v.sized,
          v.fits,
        ))
        (q
          ∙ ap (λ l. l ++ take m rec.payload) b
          ∙ append_assoc w.disk.bytes header (take m rec.payload)
          ∙ ap (λ l. w.disk.bytes ++ (header ++ l))
              (sym (take-take_le m rec.payload_len rec.payload (omega arith)))
          ∙ ap (λ l. w.disk.bytes ++ l) (sym (take-append_add m header item.bytes)))
        refl,
  )

  abbrev write_payload : RecordWriter → Option (RecordWriter × Bool)
  write_payload w1 = write_then fd w1 rec.payload rec.payload_len count_it

  header_done :
      (d : Disk) (ok : Bool)
      → IsRecord rec
      → write_all fd w.disk header 18 ≡ some (d, ok)
      → Wrote w.disk header 18 d ok
      → Outcome (write_then fd w header 18 write_payload)
  header_done d true v e (whole q) =
      let (d2, ok2, e2, w2) =
        write_all_lem law d rec.payload rec.payload_len (omega (arith, v.fits)) in
      let (w', ok', run, done) = payload_done d d2 ok2 v q e2 w2 in
      (w', ok', write_then-ok fd w header 18 write_payload d e ∙ run, done)
  header_done d false v e (part m lt q) = (
    record w { disk = d },
    false,
    write_then-failed fd w header 18 write_payload d e,
    torn d m (omega (arith, length-append header item.bytes))
        (q ∙ ap (λ l. w.disk.bytes ++ l) (sym (take-append_le m header item.bytes (omega arith))))
        refl,
  )

  on_open : w.is_open ≡ true → write_record fd w rec ≡ write_then fd w header 18 write_payload
  unfolding write_record
  on_open is_open =
      ap
        (λ b.
          if not b
          then some (w, false)
          else (write_then fd w
              (serialize_record_header (item_header item) (scratch record_header_wire_size)) 18
              write_payload))
        is_open
      ∙ ap (λ h. write_then fd w h 18 write_payload) (header_buffer (item_header item))

  -- `WriteRecord` of a popped record (an array of 64 bytes with its length inside) to an open
  -- regular file returns. True: it has appended the record's header and payload, and counted it;
  -- false: a proper part of them, from the front, and the record is not counted. Nothing else has
  -- changed.
  pub write_record_lem : w.is_open ≡ true → IsRecord rec → Outcome (write_record fd w rec)
  write_record_lem is_open v =
      let (d, ok, e, done) = write_all_lem law w.disk header 18 (omega arith) in
      let (w', ok', run, r) = header_done d ok v e done in (w', ok', on_open is_open ∙ run, r)

  -- Where no `WriteAll` fails, neither does `WriteRecord`.
  pub write_record-true :
      WritesSucceed fd
      → w.is_open ≡ true
      → IsRecord rec
      → (d : Disk) × (write_record fd w rec ≡ some (counted w d, true))
        × (d.bytes ≡ w.disk.bytes ++ item_bytes item)
  write_record-true never is_open v =
      let (d, e, b) = write_all-whole law never w.disk header 18 (omega arith) in
      let (d2, e2, b2) =
        write_all-whole law never d rec.payload rec.payload_len (omega (arith, v.fits)) in
      (
        d2,
        on_open is_open
            ∙ write_then-ok fd w header 18 write_payload d e
            ∙ write_then-ok fd (record w { disk = d }) rec.payload rec.payload_len count_it d2 e2,
        b2 ∙ ap (λ l. l ++ take rec.payload_len rec.payload) b ∙ append_assoc w.disk.bytes header _,
      )
