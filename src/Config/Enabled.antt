-- ===== src/Config/Enabled.antt =====
-- What a loaded configuration enables, read off the file's entries.
use tri_drishti_chrono_cap.Common.{
  or_else, or_else_assoc, ◌⊎◌, ℕ, ◌==◌, ==_iff, if◌then◌else◌, ◌≡◌, refl, ap, ap₂, sym, ◌∙◌, arith,
  Bool, Bool-cases, inl, inr, true, false, not, ◌&&◌, Option, none, some, List, [], ◌∷◌, map,
}
use tri_drishti_chrono_cap.Config.{
  TopicConfig, ConfigMap, loaded, same_name, lookup, store, is_empty, load_entries, load_from_file,
  is_enabled,
}

same_name-equal : (s t : List ℕ) → same_name s t ≡ true → s ≡ t
unfolding same_name
same_name-equal [] [] e = refl
same_name-equal (a ∷ s) (b ∷ t) e = elim (Bool-cases (a == b)) [
  | inl same ↦ ap₂ (λ x l. x ∷ l) ((==_iff a b).0 same) (same_name-equal s t (rw same at e))
  | inr other ↦ absurd (let f = ap (λ x. x && same_name s t) other in cc)
]
same_name-equal [] (b ∷ t) e = absurd cc
same_name-equal (a ∷ s) [] e = absurd cc

same_name_refl : (s : List ℕ) → same_name s s ≡ true
unfolding same_name
same_name_refl [] = refl
same_name_refl (a ∷ s) = rw ((==_iff a a).1 refl) (same_name_refl s)

same_test {ℓ} :
    {A : Type ℓ} (b : Bool) (x z y : A)
    → (if b then x else y) ≡ (if b then x else (if b then z else y))
same_test true x z y = refl
same_test false x z y = refl

swapped {ℓ} :
    {A : Type ℓ} (a b : Bool) (x z y : A)
    → (a ≡ true → b ≡ true → x ≡ z)
    → (if b then z else (if a then x else y)) ≡ (if a then x else (if b then z else y))
swapped true true x z y h = sym (h refl refl)
swapped true false x z y h = refl
swapped false true x z y h = refl
swapped false false x z y h = refl

-- A key that is the stored name answers as the stored name does.
lookup-store :
    (name stored : List ℕ) (cfg : TopicConfig) (m : ConfigMap)
    → lookup name (store stored cfg m) ≡ (if same_name stored name then some cfg else lookup name m)
unfolding lookup store
lookup-store name stored cfg [] = refl
lookup-store name stored cfg ((key, old) ∷ m) = elim (Bool-cases (same_name key stored)) [
  | inl same ↦
      let k : same_name key name ≡ same_name stored name =
        ap (λ s. same_name s name) (same_name-equal key stored same) in
      rw (same, k) (same_test (same_name stored name) (some cfg) (some old) (lookup name m))
  | inr other ↦ rw other (
      ap (λ o. if same_name key name then some old else o) (lookup-store name stored cfg m)
      ∙ swapped (same_name stored name) (same_name key name) (some cfg) (some old) (lookup name m)
          (λ s k. absurd (let t = equal_names s k in cc)))
]
  where
    equal_names :
        same_name stored name ≡ true → same_name key name ≡ true → same_name key stored ≡ true
    equal_names s k =
        ap (λ l. same_name key l) (same_name-equal stored name s ∙ sym (same_name-equal key name k))
        ∙ same_name_refl key

-- The entry that decides for a name: the last one that has it.
abbrev pub last_named : List ℕ → List TopicConfig → Option TopicConfig
last_named name [] = none
last_named name (cfg ∷ cfgs) =
    or_else (last_named name cfgs) (if same_name cfg.name name then some cfg else none)

-- A topic with no entry is enabled; else its entry has to have the registry's id and be enabled.
abbrev pub allowed : Option TopicConfig → ℕ → Bool
allowed none id = true
allowed (some cfg) id = (cfg.struct_id == id) && cfg.enabled

or_if {ℓ} :
    {A : Type ℓ} (b : Bool) (x : A) (o : Option A)
    → (if b then some x else o) ≡ or_else (if b then some x else none) o
or_if true x o = refl
or_if false x o = refl

nameless : (s name : List ℕ) → is_empty s ≡ true → is_empty name ≡ false → same_name s name ≡ false
unfolding same_name
nameless [] [] e h = absurd cc
nameless [] (c ∷ name) e h = refl
nameless (c ∷ s) name e h = absurd cc

lookup-load_entries :
    (cfgs : List TopicConfig) (m : ConfigMap) (name : List ℕ)
    → is_empty name ≡ false
    → ((load_entries m (map some cfgs)).1 ≡ loaded)
      × (lookup name (load_entries m (map some cfgs)).0
          ≡ or_else (last_named name cfgs) (lookup name m))
unfolding load_entries
lookup-load_entries [] m name h = (refl, refl)
lookup-load_entries (cfg ∷ cfgs) m name h =
    let m' = if is_empty cfg.name then m else store cfg.name cfg m in
    let (e, l) = lookup-load_entries cfgs m' name h in
    (
      e,
      l
          ∙ ap (or_else (last_named name cfgs)) (kept (Bool-cases (is_empty cfg.name)))
          ∙ or_else_assoc (last_named name cfgs)
              (if same_name cfg.name name then some cfg else none) (lookup name m),
    )
  where
    kept :
        (is_empty cfg.name ≡ true) ⊎ (is_empty cfg.name ≡ false)
        → lookup name (if is_empty cfg.name then m else store cfg.name cfg m)
          ≡ or_else (if same_name cfg.name name then some cfg else none) (lookup name m)
    kept (inl none_given) = rw (none_given, nameless cfg.name name none_given h) refl
    kept (inr given) =
        rw given
          (lookup-store name cfg.name cfg m ∙ or_if (same_name cfg.name name) cfg (lookup name m))

-- A file that opens, parses and has an array of entries none of which throws is loaded, whatever was
-- loaded before, and a topic whose registered name is not empty is then enabled exactly if no entry
-- has the name, or the last one that has it has the registered id and is enabled.
pub is_enabled-load_from_file :
    (m : ConfigMap) (cfgs : List TopicConfig) (name : List ℕ) (id : ℕ)
    → is_empty name ≡ false
    → let (m', result) =
        load_from_file m (record { opens = true; parses = true; entries = some (map some cfgs) }) in
      (result ≡ loaded) × (is_enabled m' name id ≡ allowed (last_named name cfgs) id)
unfolding load_from_file is_enabled lookup
is_enabled-load_from_file m cfgs name id h =
    let (e, l) = lookup-load_entries cfgs [] name h in
    (e, rw (l, is_enabled) (by_entry (last_named name cfgs)))
  where
    by_entry :
        (o : Option TopicConfig)
        → (elim (or_else o none) [
          | none ↦ true
          | some cfg ↦ if not (cfg.struct_id == id) then false else cfg.enabled
        ])
          ≡ allowed o id
    by_entry none = refl
    by_entry (some cfg) = ground arith
