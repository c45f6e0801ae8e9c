-- ===== src/Writer/Thread/Pieces.antt =====
-- A file that grows by whole records and by front parts of records.
use tri_drishti_chrono_cap.Common.{
  ℕ, ◌≤◌, ◌≡◌, refl, ap, sym, subst, ◌∙◌, arith, Bool, true, false, List, [], ◌∷◌, ◌++◌, append-nil,
  append_assoc, length, length-append, take, take_all,
}
use tri_drishti_chrono_cap.Ring.Queue.{Item, item_of_record}
use tri_drishti_chrono_cap.Ring.Conserve.{IsRing}
use tri_drishti_chrono_cap.Writer.{RecordWriter, maybe_flush}
use tri_drishti_chrono_cap.Writer.Output.{Disk}
use tri_drishti_chrono_cap.Writer.Format.{item_bytes}
use tri_drishti_chrono_cap.Writer.Records.{IsRecord, Recorded, recorded, torn}
use tri_drishti_chrono_cap.Writer.Thread.{Pc, Session}

-- The bytes of records one behind the other, each whole or cut short.
pub data Pieces : List Item → List ℕ → Type 0 where
  nothing : Pieces [] []
  piece :
      {xs : List Item} {bs : List ℕ} (x : Item) (m : ℕ)
      → Pieces xs bs
      → m ≤ length (item_bytes x)
      → Pieces (xs ++ (x ∷ [])) (bs ++ take m (item_bytes x))

pub record Sound (front : List ℕ) (tried : List Item) (s : Session) : Type 0 where
  pub ring_ok : IsRing 12 s.writer.ring
  pub record_ok : IsRecord s.rec
  pub is_open : s.writer.is_open ≡ true
  pub behind : List ℕ
  pub bytes : s.writer.disk.bytes ≡ front ++ behind
  pub pieces : Pieces tried behind
  pub synced : s.writer.synced ≤ length s.writer.disk.bytes

pub maybe_flush-synced :
    (now : ℕ) (w : RecordWriter)
    → w.synced ≤ length w.disk.bytes
    → (maybe_flush now w).synced ≤ length (maybe_flush now w).disk.bytes
unfolding maybe_flush
maybe_flush-synced now w h = ground arith

-- A step that adds no piece.
pub Sound-same :
    {front : List ℕ} {tried : List Item} {s t : Session}
    → Sound front tried s
    → IsRing 12 t.writer.ring
    → IsRecord t.rec
    → t.writer.is_open ≡ true
    → t.writer.disk.bytes ≡ s.writer.disk.bytes
    → t.writer.synced ≤ length t.writer.disk.bytes
    → Sound front (tried ++ []) t
Sound-same {front} {tried} {s} {t} v ring rec o b y = record {
  ring_ok = ring;
  record_ok = rec;
  is_open = o;
  behind = v.behind;
  bytes = b ∙ v.bytes;
  pieces = subst (λ l. Pieces l v.behind) (sym (append-nil tried)) v.pieces;
  synced = y;
}

-- One `WriteRecord` adds a piece of the record, and changes the file and a counter only.
Sound-piece :
    {front : List ℕ} {tried : List Item} {s : Session} (pc : Pc) (d : Disk) (count m : ℕ)
    → Sound front tried s
    → m ≤ length (item_bytes (item_of_record s.rec))
    → d.bytes ≡ s.writer.disk.bytes ++ take m (item_bytes (item_of_record s.rec))
    → Sound front (tried ++ (item_of_record s.rec ∷ [])) (record {
      writer = record s.writer { disk = d; pending_since_flush = count };
      pc = pc;
      rec = s.rec;
    })
Sound-piece {front} {tried} {s} pc d count m v h e = record {
  ring_ok = v.ring_ok;
  record_ok = v.record_ok;
  is_open = v.is_open;
  behind = v.behind ++ take m (item_bytes (item_of_record s.rec));
  bytes =
      e
      ∙ ap (λ l. l ++ take m (item_bytes (item_of_record s.rec))) v.bytes
      ∙ append_assoc front v.behind _;
  pieces = piece (item_of_record s.rec) m v.pieces h;
  synced = omega (
    arith,
    v.synced,
    ap length e,
    length-append s.writer.disk.bytes (take m (item_bytes (item_of_record s.rec))),
  );
}

pub Sound-Recorded :
    {front : List ℕ} {tried : List Item} {s : Session} (pc : Pc) (w' : RecordWriter) (ok : Bool)
    → Sound front tried s
    → Recorded s.writer (item_of_record s.rec) w' ok
    → Sound front
        (tried ++ (item_of_record s.rec ∷ []))
        (record { writer = w'; pc = pc; rec = s.rec })
      × (w'.ring ≡ s.writer.ring)
      × (w'.shutdown ≡ s.writer.shutdown)
      × (w'.joinable ≡ s.writer.joinable)
Sound-Recorded {front} {tried} {s} pc w' true v (recorded d e same) =
    let x = item_bytes (item_of_record s.rec) in
    subst
      (λ (w : RecordWriter).
        Sound front (tried ++ (item_of_record s.rec ∷ []))
          (record { writer = w; pc = pc; rec = s.rec })
        × (w.ring ≡ s.writer.ring)
        × (w.shutdown ≡ s.writer.shutdown)
        × (w.joinable ≡ s.writer.joinable))
      (sym same)
      (
        Sound-piece pc d _ (length x) v (omega arith)
            (e ∙ ap (λ l. s.writer.disk.bytes ++ l) (sym (take_all (length x) x (omega arith)))),
        refl,
        refl,
        refl,
      )
Sound-Recorded {front} {tried} {s} pc w' false v (torn d m lt e same) =
    subst
      (λ (w : RecordWriter).
        Sound front (tried ++ (item_of_record s.rec ∷ []))
          (record { writer = w; pc = pc; rec = s.rec })
        × (w.ring ≡ s.writer.ring)
        × (w.shutdown ≡ s.writer.shutdown)
        × (w.joinable ≡ s.writer.joinable))
      (sym same)
      (Sound-piece pc d s.writer.pending_since_flush m v (omega arith) e, refl, refl, refl)
