-- ===== src/Reader/Handles.antt =====
-- src/core/record_reader.cpp, `Open` and the destructor: the descriptors and mappings that they open and
-- give back, with `base_` and `file_size_`. What open, fstat, mmap and munmap do is a parameter.
use tri_drishti_chrono_cap.Common.{
  ℕ, ◌+◌, ◌-◌, ◌<◌, ◌≡◌, refl, ap, ◌∙◌, sym, arith, Bool-cases, inl, inr, dec_lt, if◌then◌else◌,
  Bool, true, false, not, Option, none, some, List, [], ◌∷◌, ◌++◌, length,
}
use tri_drishti_chrono_cap.Reader.{ResolvedTopic, RecordReader}
use tri_drishti_chrono_cap.Reader.Open.{OpenResult, failed, open_reader}

-- One `Open`: whether open, fstat and mmap succeed, and the file's bytes, whose number is `st_size`.
pub record Calls : Type 0 where
  pub opens : Bool
  pub stats : Bool
  pub maps : Bool
  pub file : List ℕ

-- What the process has open, the length of the mapping that the reader's `base_` points at, `none` for a
-- null pointer, and the reader's `file_size_`.
pub record Handles : Type 0 where
  pub descriptors : ℕ
  pub mappings : ℕ
  pub base : Option ℕ
  pub file_size : ℕ

abbrev pub open_fd : Handles → Handles
open_fd h = record h { descriptors = h.descriptors + 1 }

abbrev pub close_fd : Handles → Handles
close_fd h = record h { descriptors = h.descriptors - 1 }

-- `file_size_ = st.st_size`
abbrev pub set_size : List ℕ → Handles → Handles
set_size bytes h = record h { file_size = length bytes }

-- mmap of `file_size_` bytes, and `base_` set to what it maps.
abbrev pub map_base : Handles → Handles
map_base h = record h { mappings = h.mappings + 1; base = some h.file_size }

module _ (on_topic : Option (ResolvedTopic → Bool)) (r : RecordReader) where
  unfoldable pub open_with : Calls → Handles → Handles × OpenResult
  open_with c h =
      if not c.opens
      then (h, failed)
      else (if not c.stats
          then (close_fd (open_fd h), failed)
          else (if not c.maps then (close_fd (set_size c.file (open_fd h)), failed) else (
            map_base (close_fd (set_size c.file (open_fd h))),
            open_reader (some c.file) on_topic r,
          )))

  unfoldable pub open_all : List Calls → Handles → Handles
  open_all [] h = h
  open_all (c ∷ cs) h = open_all cs (open_with c h).0

-- Whether munmap of so many bytes, the second number, at the start of a mapping gives all of it back.
abbrev pub Unmap : Type 0
Unmap = ℕ → ℕ → Bool

-- What munmap documents: it gives back a mapping whose whole length it is passed, and fails for no bytes.
pub record IsUnmap (unmap : Unmap) : Type 0 where
  pub whole : (n : ℕ) → 0 < n → unmap n n ≡ true
  pub empty : (n : ℕ) → unmap n 0 ≡ false

-- `~RecordReader`
unfoldable pub destroy : Unmap → Handles → Handles
destroy unmap h = elim h.base [
  | none ↦ h
  | some mapped ↦ record h {
    mappings = if unmap mapped h.file_size then h.mappings - 1 else h.mappings;
    base = none;
  }
]

-- Whether an `Open` gets as far as fstat's success, and as far as a mapping.
abbrev pub is_sized : Calls → Bool
is_sized c = if c.opens then c.stats else false

abbrev pub is_mapped : Calls → Bool
is_mapped c = if is_sized c then c.maps else false

abbrev pub mapped_count : List Calls → ℕ
mapped_count [] = 0
mapped_count (c ∷ cs) = (if is_mapped c then 1 else 0) + mapped_count cs

-- What mmap documents: it fails for no bytes.
abbrev pub IsMmap : Calls → Type 0
IsMmap c = length c.file ≡ 0 → c.maps ≡ false

module _ (on_topic : Option (ResolvedTopic → Bool)) (r : RecordReader) where
  -- What one `Open` leaves, whichever way out it takes.
  record After (c : Calls) (h : Handles) : Type 0 where
    descriptors : (open_with on_topic r c h).0.descriptors ≡ h.descriptors
    mappings : (open_with on_topic r c h).0.mappings ≡ h.mappings + (if is_mapped c then 1 else 0)
    unsized : is_sized c ≡ false → (open_with on_topic r c h).0 ≡ h
    sized : is_sized c ≡ true → (open_with on_topic r c h).0.file_size ≡ length c.file
    based : is_mapped c ≡ true → (open_with on_topic r c h).0.base ≡ some (length c.file)

  opens_cases :
      (opens stats maps : Bool) (file : List ℕ) (h : Handles)
      → After (record { opens = opens; stats = stats; maps = maps; file = file }) h
  unfolding open_with
  opens_cases false stats maps file h = record {
    descriptors = refl;
    mappings = omega arith;
    unsized = λ e. refl;
    sized = λ e. absurd cc;
    based = λ e. absurd cc;
  }
  opens_cases true false maps file h = record {
    descriptors = omega arith;
    mappings = omega arith;
    unsized = λ e i. record h { descriptors = back h.descriptors i };
    sized = λ e. absurd cc;
    based = λ e. absurd cc;
  }
    where
      back : (n : ℕ) → n + 1 - 1 ≡ n
      back n = omega arith
  opens_cases true true false file h = record {
    descriptors = omega arith;
    mappings = omega arith;
    unsized = λ e. absurd cc;
    sized = λ e. refl;
    based = λ e. absurd cc;
  }
  opens_cases true true true file h = record {
    descriptors = omega arith;
    mappings = refl;
    unsized = λ e. absurd cc;
    sized = λ e. refl;
    based = λ e. refl;
  }

  open_with-After : (c : Calls) (h : Handles) → After c h
  open_with-After c h = opens_cases c.opens c.stats c.maps c.file h

  open_all-ledger :
      (cs : List Calls) (h : Handles)
      → ((open_all on_topic r cs h).descriptors ≡ h.descriptors)
        × ((open_all on_topic r cs h).mappings ≡ h.mappings + mapped_count cs)
  unfolding open_all
  open_all-ledger [] h = (refl, omega arith)
  open_all-ledger (c ∷ cs) h =
      let a = open_with-After c h in
      let (d, m) = open_all-ledger cs (open_with on_topic r c h).0 in
      (d ∙ a.descriptors, omega (arith, m, a.mappings))

  open_all-last :
      (cs : List Calls) (c : Calls) (h : Handles)
      → open_all on_topic r (cs ++ (c ∷ [])) h
        ≡ (open_with on_topic r c (open_all on_topic r cs h)).0
  unfolding open_all
  open_all-last [] c h = refl
  open_all-last (d ∷ cs) c h = open_all-last cs c (open_with on_topic r d h).0

  destroy-descriptors :
      (unmap : Unmap) (h : Handles) → (destroy unmap h).descriptors ≡ h.descriptors
  unfolding destroy
  destroy-descriptors unmap h = by_base h.base
    where
      by_base :
          (base : Option ℕ) → (destroy unmap (record h { base = base })).descriptors ≡ h.descriptors
      by_base none = refl
      by_base (some n) = refl

  -- The last `Open` mapped its file: `file_size_` is the mapping's length.
  destroy-whole :
      {unmap : Unmap} (law : IsUnmap unmap) (h : Handles) (n : ℕ)
      → 0 < n
      → h.base ≡ some n
      → h.file_size ≡ n
      → (destroy unmap h).mappings ≡ h.mappings - 1
  unfolding destroy
  destroy-whole {unmap} law h n pos b s =
      let freed : unmap n h.file_size ≡ true = ap (λ m. unmap n m) s ∙ law.whole n pos in
      rw (b, freed, destroy) refl

  destroy-empty :
      {unmap : Unmap} (law : IsUnmap unmap) (h : Handles)
      → h.file_size ≡ 0
      → (destroy unmap h).mappings ≡ h.mappings
  unfolding destroy
  destroy-empty {unmap} law h s = by_base h.base refl
    where
      by_base :
          (base : Option ℕ)
          → h.base ≡ base
          → (destroy unmap (record h { base = base })).mappings ≡ h.mappings
      by_base none e = refl
      by_base (some n) e =
          let kept : unmap n h.file_size ≡ false = ap (λ m. unmap n m) s ∙ law.empty n in
          rw kept refl

  abbrev one_if : Bool → ℕ
  one_if b = if b then 1 else 0

  mapped_is_sized : (c : Calls) → is_mapped c ≡ true → is_sized c ≡ true
  mapped_is_sized c e = elim (Bool-cases (is_sized c)) [
    | inl t ↦ t
    | inr f ↦ absurd (let q = sym (ap (λ b. if b then c.maps else false) f) ∙ e in cc)
  ]

  unmapped_if_empty : (c : Calls) → IsMmap c → length c.file ≡ 0 → is_mapped c ≡ false
  unmapped_if_empty c mmap z = elim (Bool-cases (is_sized c)) [
    | inl t ↦ ap (λ b. if b then c.maps else false) t ∙ mmap z
    | inr f ↦ ap (λ b. if b then c.maps else false) f
  ]

  filled : (c : Calls) → IsMmap c → is_mapped c ≡ true → 0 < length c.file
  filled c mmap e = elim (dec_lt 0 (length c.file)) [
    | yes h ↦ h
    | no h ↦ absurd (let q = sym (unmapped_if_empty c mmap (omega arith)) ∙ e in cc)
  ]

  -- Any row of `Open`s on a reader, then one more, then its destructor, whatever open, fstat, mmap and
  -- the files' contents make of each. No descriptor is left open. Where the last `Open` mapped its file,
  -- that mapping is given back, and no other: one is left for each earlier `Open` that mapped its
  -- file, none after a single `Open`. Where the last one failed before fstat's success, all is as
  -- without it. And where the last one found an empty file, none is given back at all: `file_size_`
  -- is 0 by then, and munmap fails.
  pub open_then_destroy :
      {unmap : Unmap}
      → IsUnmap unmap
      → (cs : List Calls) (c : Calls) (h : Handles) → IsMmap c
      → let gone = destroy unmap (open_all on_topic r (cs ++ (c ∷ [])) h) in
        (gone.descriptors ≡ h.descriptors)
        × (is_mapped c ≡ true → gone.mappings ≡ h.mappings + mapped_count cs)
        × (is_sized c ≡ false → gone ≡ destroy unmap (open_all on_topic r cs h))
        × (is_sized c ≡ true → length c.file ≡ 0 → gone.mappings ≡ h.mappings + mapped_count cs)
  open_then_destroy {unmap} law cs c h mmap =
      let before = open_all on_topic r cs h in
      let last = (open_with on_topic r c before).0 in
      let (d, m) = open_all-ledger cs h in
      let a = open_with-After c before in
      rw (open_all-last cs c h) (
        destroy-descriptors unmap last ∙ a.descriptors ∙ d,
        λ e.
            destroy-whole law last (length c.file) (filled c mmap e) (a.based e)
              (a.sized (mapped_is_sized c e))
            ∙ omega (arith, a.mappings, m, ap one_if e),
        λ e. ap (destroy unmap) (a.unsized e),
        λ e z.
            destroy-empty law last (a.sized e ∙ z)
            ∙ omega (arith, a.mappings, m, ap one_if (unmapped_if_empty c mmap z)),
      )
