-- ===== src/Writer/Thread/Flush.antt =====
-- What `MaybeFlush` leaves alone, and the bytes of one record more.
use tri_drishti_chrono_cap.Common.{
  ℕ, ◌≡◌, ap, sym, ◌∙◌, arith, List, [], ◌∷◌, ◌++◌, append-nil, append_assoc,
}
use tri_drishti_chrono_cap.Ring.Queue.{Item}
use tri_drishti_chrono_cap.Writer.{RecordWriter, maybe_flush}
use tri_drishti_chrono_cap.Writer.Format.{item_bytes, items_bytes}

pub items_bytes-append :
    (xs : List Item) (x : Item) → items_bytes (xs ++ (x ∷ [])) ≡ items_bytes xs ++ item_bytes x
items_bytes-append [] x = append-nil (item_bytes x)
items_bytes-append (y ∷ xs) x =
    ap (λ l. item_bytes y ++ l) (items_bytes-append xs x)
    ∙ sym (append_assoc (item_bytes y) (items_bytes xs) (item_bytes x))

-- A flush changes the flush's own fields only.
pub maybe_flush-ring : (now : ℕ) (w : RecordWriter) → (maybe_flush now w).ring ≡ w.ring
unfolding maybe_flush
maybe_flush-ring now w = ground arith

pub maybe_flush-disk : (now : ℕ) (w : RecordWriter) → (maybe_flush now w).disk ≡ w.disk
unfolding maybe_flush
maybe_flush-disk now w = ground arith

pub maybe_flush-shutdown : (now : ℕ) (w : RecordWriter) → (maybe_flush now w).shutdown ≡ w.shutdown
unfolding maybe_flush
maybe_flush-shutdown now w = ground arith

pub maybe_flush-joinable : (now : ℕ) (w : RecordWriter) → (maybe_flush now w).joinable ≡ w.joinable
unfolding maybe_flush
maybe_flush-joinable now w = ground arith

pub maybe_flush-is_open : (now : ℕ) (w : RecordWriter) → (maybe_flush now w).is_open ≡ w.is_open
unfolding maybe_flush
maybe_flush-is_open now w = ground arith
