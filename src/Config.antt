-- ===== src/Config.antt =====
-- include/chrono_cap/logger_config.hpp: which topics a configuration enables. The JSON library is
-- outside the repository: a document is what its calls give for the file.
pub mod Enabled
use tri_drishti_chrono_cap.Common.{
  ℕ, ◌==◌, if◌then◌else◌, Bool, true, false, not, ◌&&◌, Option, none, some, List, [], ◌∷◌,
}

pub record TopicConfig : Type 0 where
  pub name : List ℕ
  pub struct_id : ℕ
  pub enabled : Bool

-- `==` of two strings.
unfoldable pub same_name : List ℕ → List ℕ → Bool
same_name [] [] = true
same_name (a ∷ s) (b ∷ t) = (a == b) && same_name s t
same_name _ _ = false

-- `std::unordered_map<std::string, TopicConfig>`
abbrev pub ConfigMap : Type 0
ConfigMap = List (List ℕ × TopicConfig)

unfoldable pub lookup : List ℕ → ConfigMap → Option TopicConfig
lookup name [] = none
lookup name ((key, cfg) ∷ m) = if same_name key name then some cfg else lookup name m

-- `by_name_[name] = cfg`
unfoldable pub store : List ℕ → TopicConfig → ConfigMap → ConfigMap
store name cfg [] = (name, cfg) ∷ []
store name cfg ((key, old) ∷ m) =
    if same_name key name then (key, cfg) ∷ m else (key, old) ∷ store name cfg m

-- What the file and the JSON library give: whether the file opens, whether it parses, and the
-- `topics` array, if there is one. An entry is what its three `value` calls give with their defaults,
-- or `none` where one of them throws.
pub record Document : Type 0 where
  pub opens : Bool
  pub parses : Bool
  pub entries : Option (List (Option TopicConfig))

pub data LoadResult : Type 0 where
  loaded : LoadResult
  failed : LoadResult
  threw : LoadResult

abbrev pub is_empty : List ℕ → Bool
is_empty [] = true
is_empty (c ∷ s) = false

-- The loop over the array, with the map so far.
unfoldable pub load_entries : ConfigMap → List (Option TopicConfig) → ConfigMap × LoadResult
load_entries m [] = (m, loaded)
load_entries m (none ∷ entries) = (m, threw)
load_entries m (some cfg ∷ entries) =
    load_entries (if is_empty cfg.name then m else store cfg.name cfg m) entries

-- `LoadFromFile`, from the map that the object held.
unfoldable pub load_from_file : ConfigMap → Document → ConfigMap × LoadResult
load_from_file m doc =
    if not doc.opens
    then (m, failed)
    else (if not doc.parses
        then (m, failed)
        else (elim doc.entries [ none ↦ ([], failed) | some entries ↦ load_entries [] entries ]))

-- `IsEnabled<T>`, with the name and the id that the registry has for `T`.
unfoldable pub is_enabled : ConfigMap → List ℕ → ℕ → Bool
is_enabled m name expected_id = elim (lookup name m) [
  | none ↦ true
  | some cfg ↦ if not (cfg.struct_id == expected_id) then false else cfg.enabled
]
