-- ===== src/Wire/Header/Names.antt =====
-- A topic name in its 32 bytes: the characters, then NULs to the end.
use tri_drishti_chrono_cap.Common.{
  ℕ, zero, suc, ◌-◌, ◌≤◌, ◌<◌, ◌≡◌, ◌≢◌, refl, ap, ◌∙◌, sym, arith, some, List, [], ◌∷◌, ◌++◌,
  append_assoc, length, drop, replicate, All, length-append, length-replicate, length-drop,
  drop-drop, take-append, ltb_of_lt,
}
use tri_drishti_chrono_cap.Wire.Endian.Bytes.{le_bytes}
use tri_drishti_chrono_cap.Wire.Endian.Laws.{encode_u16_lem, encode_u32_lem}
use tri_drishti_chrono_cap.Wire.Memory.{strlen, c_str, memcpy}
use tri_drishti_chrono_cap.Wire.Header.{TopicMetaEntry, serialize_topic_meta}
use tri_drishti_chrono_cap.Wire.Header.Layout.{topic_meta_bytes}

-- Characters that C can hold in a string: none is NUL.
abbrev pub HasNoNul : List ℕ → Type 0
HasNoNul = All (λ c. c ≢ 0)

-- `char name[32]` holding `chars`.
abbrev pub padded : List ℕ → List ℕ
padded chars = chars ++ replicate (32 - length chars) 0

pub length-padded : (chars : List ℕ) → length chars ≤ 32 → length (padded chars) ≡ 32
length-padded chars h =
    length-append chars (replicate (32 - length chars) 0)
    ∙ omega (arith, length-replicate {A = ℕ} (32 - length chars) 0)

strlen-append :
    (chars rest : List ℕ) → HasNoNul chars → strlen (chars ++ (0 ∷ rest)) ≡ some (length chars)
unfolding strlen
strlen-append [] rest h = refl
strlen-append (c ∷ chars) rest h = ground (arith, strlen-append chars rest h.1)

c_str-append : (chars rest : List ℕ) → HasNoNul chars → c_str (chars ++ (0 ∷ rest)) ≡ chars
unfolding c_str
c_str-append [] rest h = refl
c_str-append (c ∷ chars) rest h = ground (arith, c_str-append chars rest h.1)

-- Up to 31 characters leave a NUL behind them.
padded-split :
    (chars : List ℕ)
    → length chars < 32
    → padded chars ≡ chars ++ (0 ∷ replicate (31 - length chars) 0)
padded-split chars h =
    let e : 32 - length chars ≡ suc (31 - length chars) = omega arith in
    ap (λ k. chars ++ replicate k 0) e

pub strlen-padded :
    (chars : List ℕ)
    → HasNoNul chars
    → length chars < 32
    → strlen (padded chars) ≡ some (length chars)
strlen-padded chars h short = rw (padded-split chars short) (strlen-append chars _ h)

pub c_str-padded :
    (chars : List ℕ) → HasNoNul chars → length chars < 32 → c_str (padded chars) ≡ chars
c_str-padded chars h short = rw (padded-split chars short) (c_str-append chars _ h)

drop-replicate_append :
    (n m : ℕ) (rest : List ℕ) → n ≤ m → drop n (replicate m 0 ++ rest) ≡ replicate (m - n) 0 ++ rest
drop-replicate_append zero m rest h = ap (λ k. replicate k 0 ++ rest) (omega arith)
drop-replicate_append (suc n) zero rest h = absurd (omega arith)
drop-replicate_append (suc n) (suc m) rest h =
    let e : suc m - suc n ≡ m - n = omega arith in
    drop-replicate_append n m rest (omega arith) ∙ ap (λ k. replicate k 0 ++ rest) (sym e)

-- The field's bytes after `memset` and `memcpy` of the characters.
copied :
    (chars rest : List ℕ)
    → length chars < 32
    → memcpy (replicate 32 0 ++ rest) (padded chars) (length chars) ≡ padded chars ++ rest
copied chars rest short = rw (
  take-append (length chars) chars (replicate (32 - length chars) 0) refl,
  drop-replicate_append (length chars) 32 rest (omega arith),
  append_assoc,
)

pub serialize_topic_meta_lem :
    (id size : ℕ) (chars out : List ℕ)
    → HasNoNul chars
    → length chars < 32
    → 38 ≤ length out
    → let e : TopicMetaEntry = record { topic_id = id; struct_size = size; name = padded chars } in
      serialize_topic_meta e out ≡ some (topic_meta_bytes e ++ drop 38 out)
unfolding serialize_topic_meta
serialize_topic_meta_lem id size chars out h short room =
    rw
      (
        strlen-padded chars h short,
        serialize_topic_meta,
        ltb_of_lt short,
        encode_u16_lem out id (omega arith),
        encode_u32_lem (drop 2 out) size (omega (arith, length-drop 2 out)),
        drop-drop 4 2 out,
        drop-drop 32 6 out,
      )
      (ap (λ l. some (le_bytes 2 id ++ (le_bytes 4 size ++ l))) (copied chars (drop 38 out) short))
