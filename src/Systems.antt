-- ===== src/Systems.antt =====
-- include/chrono_cap/topic_registry.hpp, generic_recorder.hpp and generic_replayer.hpp: the two systems
-- that run over the list of topic types. A type is its traits; the i2w runtime is outside the
-- repository, and a parameter says for which types `subscribe` or `advertise` succeeds.
pub mod Choice
pub mod Callbacks
use tri_drishti_chrono_cap.Common.{
  ℕ, ◌==◌, if◌then◌else◌, Bool, true, false, not, List, [], ◌∷◌, ◌++◌, length,
}
use tri_drishti_chrono_cap.Config.{ConfigMap, is_enabled}
use tri_drishti_chrono_cap.Writer.{TopicInfo}
use tri_drishti_chrono_cap.Reader.{ResolvedTopic}

-- `TopicTraits<T>`
pub record TopicTraits : Type 0 where
  pub id : ℕ
  pub topic_name : List ℕ
  pub wire_size : ℕ

-- `TopicTraits<JoyMsgs>`, the one type of `AllTopics`.
abbrev pub joy_traits : TopicTraits
joy_traits = record { id = 4; topic_name = b'/' ∷ b'j' ∷ b'o' ∷ b'y' ∷ []; wire_size = 22 }

abbrev pub all_topics : List TopicTraits
all_topics = joy_traits ∷ []

-- What `SetupOne` changes: `enabled_topics_` and `ok`.
pub record Setup : Type 0 where
  pub enabled_topics : List TopicInfo
  pub ok : Bool

abbrev pub info_of : TopicTraits → TopicInfo
info_of t = record { topic_id = t.id; wire_size = t.wire_size; name = t.topic_name }

module _ (subscribe : TopicTraits → Bool) (config : ConfigMap) where
  unfoldable pub setup_one : TopicTraits → Setup → Setup
  setup_one t s =
      if not (is_enabled config t.topic_name t.id)
      then s
      else (if not (subscribe t)
          then record s { ok = false }
          else record s { enabled_topics = s.enabled_topics ++ (info_of t ∷ []) })

  -- The fold over the types in `OnSetup`.
  unfoldable pub setup_all : List TopicTraits → Setup → Setup
  setup_all [] s = s
  setup_all (t ∷ ts) s = setup_all ts (setup_one t s)

  unfoldable pub on_setup : List TopicTraits → Setup
  on_setup ts = setup_all ts (record { enabled_topics = []; ok = true })

module _ (advertise : TopicTraits → Bool) where
  -- `TryAdvertise`: the new value of `found`.
  unfoldable pub try_advertise : TopicTraits → ResolvedTopic → Bool → Bool
  try_advertise t topic found =
      if not (topic.topic_id == t.id)
      then found
      else (if not (topic.wire_size == t.wire_size)
          then found
          else (if not (advertise t) then found else true))

  unfoldable pub advertise_all : List TopicTraits → ResolvedTopic → Bool → Bool
  advertise_all [] topic found = found
  advertise_all (t ∷ ts) topic found = advertise_all ts topic (try_advertise t topic found)

  unfoldable pub on_topic_found : List TopicTraits → ResolvedTopic → Bool
  on_topic_found ts topic = advertise_all ts topic false
