-- ===== src/Reader/Open.antt =====
-- src/core/record_reader.cpp, `Open`: from the mapped file to the topics that the caller accepts.
use tri_drishti_chrono_cap.Common.{
  ℕ, if◌then◌else◌, ◌≡◌, refl, Bool, true, false, Option, none, some, List, [], ◌∷◌, All,
}
use tri_drishti_chrono_cap.Reader.{
  ResolvedTopic, RecordReader, parsed, refused, overrun, parse_header_and_metadata,
}

-- `Open` gives true, gives false, or reads past a topic's name.
pub data OpenResult : Type 0 where
  opened : RecordReader → OpenResult
  failed : OpenResult
  overran : OpenResult

-- The loop over the topics: false at the first one that the hook rejects.
unfoldable pub hook_all : (ResolvedTopic → Bool) → List ResolvedTopic → Bool
hook_all on_topic [] = true
hook_all on_topic (t ∷ ts) = if on_topic t then hook_all on_topic ts else false

-- The hook is optional.
abbrev pub accepted_topics : Option (ResolvedTopic → Bool) → List ResolvedTopic → Bool
accepted_topics none topics = true
accepted_topics (some on_topic) topics = hook_all on_topic topics

-- The first argument is what open, fstat and mmap give: the file's bytes, or `none` where one fails.
unfoldable pub open_reader :
    Option (List ℕ) → Option (ResolvedTopic → Bool) → RecordReader → OpenResult
open_reader none on_topic r = failed
open_reader (some bytes) on_topic r = elim (parse_header_and_metadata (record r { base = bytes })) [
  | refused ↦ failed
  | overrun ↦ overran
  | parsed r' ↦ if accepted_topics on_topic r'.topics then opened r' else failed
]

pub hook_all-All :
    (on_topic : ResolvedTopic → Bool) (ts : List ResolvedTopic)
    → All (λ t. on_topic t ≡ true) ts
    → hook_all on_topic ts ≡ true
unfolding hook_all
hook_all-All on_topic [] a = refl
hook_all-All on_topic (t ∷ ts) (e, a) = rw e (hook_all-All on_topic ts a)

pub open_reader-parsed :
    (bytes : List ℕ) (on_topic : ResolvedTopic → Bool) (r r' : RecordReader)
    → parse_header_and_metadata (record r { base = bytes }) ≡ parsed r'
    → hook_all on_topic r'.topics ≡ true
    → open_reader (some bytes) (some on_topic) r ≡ opened r'
unfolding open_reader
open_reader-parsed bytes on_topic r r' e h = rw (e, h, open_reader) refl
