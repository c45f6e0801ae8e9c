-- ===== src/Writer/Lifecycle/Cut.antt =====
-- Two ways to cut a list of records, told apart by the bytes of their front parts.
use tri_drishti_chrono_cap.Common.{
  ◌≤◌, ◌≡◌, refl, ap, ap₂, sym, ◌∙◌, arith, List, [], ◌∷◌, ◌++◌, append_assoc, length,
  length-append,
}
use tri_drishti_chrono_cap.Ring.Queue.{Item}
use tri_drishti_chrono_cap.Wire.Header.Layout.{record_header_bytes}
use tri_drishti_chrono_cap.Writer.Format.{item_header, item_bytes, items_bytes}

pub items_bytes-split :
    (xs ys : List Item) → items_bytes (xs ++ ys) ≡ items_bytes xs ++ items_bytes ys
items_bytes-split [] ys = refl
items_bytes-split (x ∷ xs) ys =
    ap (λ l. item_bytes x ++ l) (items_bytes-split xs ys)
    ∙ sym (append_assoc (item_bytes x) (items_bytes xs) (items_bytes ys))

-- Two ways to cut a list of records: the longer front part continues the shorter one.
pub continues :
    (before since xs ys : List Item)
    → before ++ since ≡ xs ++ ys
    → length (items_bytes before) ≤ length (items_bytes xs)
    → (more : List Item) × (xs ≡ before ++ more) × (since ≡ more ++ ys)
continues [] since xs ys e h = (xs, refl, e)
continues (b ∷ before) since [] ys e h = absurd (
    omega (
      arith,
      length-append (item_bytes b) (items_bytes before),
      length-append (record_header_bytes (item_header b)) b.bytes,
    ))
continues (b ∷ before) since (x ∷ xs) ys e h =
    let same : b ≡ x = cc in
    let rest : before ++ since ≡ xs ++ ys = cc in
    let (more, f, g) = continues before since xs ys rest (
      omega (
        arith,
        h,
        length-append (item_bytes b) (items_bytes before),
        length-append (item_bytes x) (items_bytes xs),
        ap (λ (y : Item). length (item_bytes y)) same,
      )) in
    (more, ap₂ (λ a l. a ∷ l) (sym same) f, g)
