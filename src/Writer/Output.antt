-- ===== src/Writer/Output.antt =====
-- src/core/record_writer.cpp, `WriteAll`: the loop round write(2). The system call is a parameter.
use tri_drishti_chrono_cap.Common.{
  ℕ, zero, suc, ◌+◌, ◌-◌, ◌%◌, ◌^◌, ◌≤◌, ◌<◌, ◌≡◌, ◌≢◌, refl, ap, sym, ◌∙◌, arith, Option-cases,
  inl, inr, Bool, true, false, Option, none, some, List, [], ◌∷◌, ◌++◌, append-nil, append_assoc,
  take, drop, take-nil,
}

-- `write(fd, p, count)`: the reply to the call with the given number. `none` is a negative result,
-- else the first bytes of `p`, as many as the reply says, have been appended to the file.
pub record Descriptor : Type 0 where
  pub write : ℕ → ℕ → Option ℕ

-- What write(2) documents of a regular file: it takes at most the count, and at least a byte of a
-- count that is not 0.
pub record IsRegularFile (fd : Descriptor) : Type 0 where
  pub bounded : (call count n : ℕ) → fd.write call count ≡ some n → n ≤ count
  pub progress : (call count n : ℕ) → 0 < count → fd.write call count ≡ some n → 0 < n

-- The file's bytes, and how many calls were made.
pub record Disk : Type 0 where
  pub bytes : List ℕ
  pub calls : ℕ

module _ (fd : Descriptor) where
  -- `while (remaining > 0)`. `none`: the fuel ran out.
  unfoldable pub write_loop : ℕ → Disk → List ℕ → ℕ → Option (Disk × Bool)
  write_loop fuel d p zero = some (d, true)
  write_loop zero d p (suc remaining) = none
  write_loop (suc fuel) d p (suc remaining) = elim (fd.write d.calls (suc remaining)) [
    | none ↦ some (record d { calls = d.calls + 1 }, false)
    | some n ↦
        write_loop fuel (record d { bytes = d.bytes ++ take n p; calls = d.calls + 1 }) (drop n p)
          ((suc remaining + 2 ^ 64 - n) % 2 ^ 64)
  ]

  -- Each call takes a byte at least, so `len` rounds are enough.
  unfoldable pub write_all : Disk → List ℕ → ℕ → Option (Disk × Bool)
  write_all d p len = write_loop len d p len

-- What a write of `len` bytes from `p` may leave: all of them and true, or a proper part and false.
pub data Wrote (d : Disk) (p : List ℕ) (len : ℕ) (d' : Disk) : Bool → Type 0 where
  whole : d'.bytes ≡ d.bytes ++ take len p → Wrote d p len d' true
  part : (m : ℕ) → m < len → d'.bytes ≡ d.bytes ++ take m p → Wrote d p len d' false

take-take-drop {ℓ} :
    {A : Type ℓ} (n m : ℕ) (xs : List A) → take n xs ++ take m (drop n xs) ≡ take (n + m) xs
take-take-drop zero m xs = let e : m ≡ 0 + m = omega arith in ap (λ k. take k xs) e
take-take-drop (suc n) m [] = take-nil m ∙ sym (take-nil (suc n + m))
take-take-drop (suc n) m (x ∷ xs) =
    let e : suc n + m ≡ suc (n + m) = omega arith in
    ap (λ l. x ∷ l) (take-take-drop n m xs) ∙ ap (λ k. take k (x ∷ xs)) (sym e)

-- The bytes of two writes, one behind the other.
joined : (d p : List ℕ) (n m : ℕ) → (d ++ take n p) ++ take m (drop n p) ≡ d ++ take (n + m) p
joined d p n m =
    append_assoc d (take n p) (take m (drop n p)) ∙ ap (λ l. d ++ l) (take-take-drop n m p)

-- A write that follows `n` bytes of the same data.
Wrote-after :
    (d d' : Disk) (p : List ℕ) (n m len calls : ℕ) (ok : Bool)
    → n + m ≡ len
    → 0 < n
    → Wrote (record { bytes = d.bytes ++ take n p; calls = calls }) (drop n p) m d' ok
    → Wrote d p len d' ok
Wrote-after d d' p n m len calls true e pos (whole w) =
    whole (w ∙ joined d.bytes p n m ∙ ap (λ k. d.bytes ++ take k p) e)
Wrote-after d d' p n m len calls false e pos (part j lt w) =
    part (n + j) (omega arith) (w ∙ joined d.bytes p n j)

-- One round of the loop, where `remaining -= n` does not wrap.
write_loop_step :
    (fd : Descriptor) (fuel : ℕ) (d : Disk) (p : List ℕ) (r n : ℕ)
    → fd.write d.calls (suc r) ≡ some n
    → n ≤ suc r
    → suc r < 2 ^ 64
    → write_loop fd (suc fuel) d p (suc r)
      ≡ write_loop fd fuel
          (record d { bytes = d.bytes ++ take n p; calls = d.calls + 1 })
          (drop n p)
          (suc r - n)
unfolding write_loop
write_loop_step fd fuel d p r n e le small =
    rw (e, write_loop)
      (ap
        (λ m.
          write_loop fd fuel (record d { bytes = d.bytes ++ take n p; calls = d.calls + 1 })
            (drop n p) m)
        (omega arith))

module _ {fd : Descriptor} (law : IsRegularFile fd) where
  write_loop_lem :
      (fuel : ℕ) (d : Disk) (p : List ℕ) (remaining : ℕ)
      → remaining ≤ fuel
      → remaining < 2 ^ 64
      → (d' : Disk) × (ok : Bool) × (write_loop fd fuel d p remaining ≡ some (d', ok))
        × Wrote d p remaining d' ok
  unfolding write_loop
  write_loop_lem fuel d p zero h small = (d, true, refl, whole (sym (append-nil d.bytes)))
  write_loop_lem zero d p (suc r) h small = absurd (omega arith)
  write_loop_lem (suc fuel) d p (suc r) h small = elim (Option-cases (fd.write d.calls (suc r))) [
    | inl failed ↦ (
      record d { calls = d.calls + 1 },
      false,
      rw (failed, write_loop),
      part 0 (omega arith) (sym (append-nil d.bytes)),
    )
    | inr (n, e) ↦
        let le : n ≤ suc r = law.bounded d.calls (suc r) n e in
        let pos : 0 < n = law.progress d.calls (suc r) n (omega arith) e in
        let (d', ok, run, w) =
          write_loop_lem fuel (record d { bytes = d.bytes ++ take n p; calls = d.calls + 1 })
            (drop n p) (suc r - n) (omega arith) (omega arith) in
        (
          d',
          ok,
          write_loop_step fd fuel d p r n e le small ∙ run,
          Wrote-after d d' p n (suc r - n) (suc r) _ ok (omega arith) pos w,
        )
  ]

  -- On a regular file, and for fewer than 2 ^ 64 bytes, `WriteAll` returns. Where it returns true
  -- it has appended all of the data, and where it returns false a proper part of it, from the
  -- front.
  pub write_all_lem :
      (d : Disk) (p : List ℕ) (len : ℕ)
      → len < 2 ^ 64
      → (d' : Disk) × (ok : Bool) × (write_all fd d p len ≡ some (d', ok)) × Wrote d p len d' ok
  unfolding write_all
  write_all_lem d p len small = write_loop_lem len d p len (omega arith) small

-- No `WriteAll` fails.
abbrev pub WritesSucceed : Descriptor → Type 0
WritesSucceed fd =
    (d : Disk) (p : List ℕ) (len : ℕ) (d' : Disk) → write_all fd d p len ≢ some (d', false)

module _ {fd : Descriptor} where
  write_loop-succeeds :
      ((call count : ℕ) → fd.write call count ≢ none)
      → (fuel : ℕ) (d : Disk) (p : List ℕ) (remaining : ℕ) (d' : Disk)
      → write_loop fd fuel d p remaining ≢ some (d', false)
  unfolding write_loop
  write_loop-succeeds ok fuel d p zero d' e = cc
  write_loop-succeeds ok zero d p (suc r) d' e = cc
  write_loop-succeeds ok (suc fuel) d p (suc r) d' e =
      elim (Option-cases (fd.write d.calls (suc r))) [
        | inl failed ↦ ok d.calls (suc r) failed
        | inr (n, h) ↦ write_loop-succeeds ok fuel _ _ _ d' (rw (h, write_loop) at e)
      ]

  -- A disk whose calls of write(2) never fail.
  pub writes-WritesSucceed : ((call count : ℕ) → fd.write call count ≢ none) → WritesSucceed fd
  unfolding write_all
  writes-WritesSucceed ok d p len d' e = write_loop-succeeds ok len d p len d' e

  pub write_all-whole :
      IsRegularFile fd
      → WritesSucceed fd
      → (d : Disk) (p : List ℕ) (len : ℕ) → len < 2 ^ 64
      → (d' : Disk) × (write_all fd d p len ≡ some (d', true)) × (d'.bytes ≡ d.bytes ++ take len p)
  write_all-whole law never d p len small =
      let (d', ok, e, w) = write_all_lem law d p len small in only_whole d p len d' ok e w
    where
      only_whole :
          (d : Disk) (p : List ℕ) (len : ℕ) (d' : Disk) (ok : Bool)
          → write_all fd d p len ≡ some (d', ok)
          → Wrote d p len d' ok
          → (d' : Disk) × (write_all fd d p len ≡ some (d', true))
            × (d'.bytes ≡ d.bytes ++ take len p)
      only_whole d p len d' true e (whole b) = (d', e, b)
      only_whole d p len d' false e w = absurd (never d p len d' e)

-- No call of write(2) fails, though each may take a part of the bytes only.
pub record IsReliable (fd : Descriptor) : Type 0 where
  pub law : IsRegularFile fd
  pub succeeds : (call count : ℕ) → fd.write call count ≢ none
