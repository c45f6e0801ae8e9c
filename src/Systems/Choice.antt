-- ===== src/Systems/Choice.antt =====
-- What the two systems set up, read off the list of types.
use tri_drishti_chrono_cap.Common.{
  ◌==◌, if◌then◌else◌, ◌≡◌, refl, sym, ◌∙◌, arith, Bool, Bool-cases, inl, inr, true, false, not,
  ◌&&◌, ◌||◌, List, [], ◌∷◌, ◌++◌, append-nil, append_assoc, map,
}
use tri_drishti_chrono_cap.Config.{ConfigMap, is_enabled}
use tri_drishti_chrono_cap.Reader.{ResolvedTopic}
use tri_drishti_chrono_cap.Systems.{
  TopicTraits, Setup, info_of, setup_one, setup_all, on_setup, try_advertise, advertise_all,
  on_topic_found,
}

abbrev pub any_of : (TopicTraits → Bool) → List TopicTraits → Bool
any_of p [] = false
any_of p (t ∷ ts) = p t || any_of p ts

abbrev pub keep_if : (TopicTraits → Bool) → List TopicTraits → List TopicTraits
keep_if p [] = []
keep_if p (t ∷ ts) = if p t then t ∷ keep_if p ts else keep_if p ts

and_false : (b : Bool) → (b && false) ≡ false
and_false true = refl
and_false false = refl

module _ (subscribe : TopicTraits → Bool) (config : ConfigMap) where
  abbrev pub wanted : TopicTraits → Bool
  wanted t = is_enabled config t.topic_name t.id

  setup_all_lem :
      (ts : List TopicTraits) (s : Setup)
      → ((setup_all subscribe config ts s).enabled_topics
          ≡ s.enabled_topics ++ map info_of (keep_if (λ t. wanted t && subscribe t) ts))
        × ((setup_all subscribe config ts s).ok
            ≡ (s.ok && not (any_of (λ t. wanted t && not (subscribe t)) ts)))
  unfolding setup_all setup_one
  setup_all_lem [] s = (sym (append-nil s.enabled_topics), ground arith)
  setup_all_lem (t ∷ ts) s = elim (Bool-cases (wanted t)) [
    | inr off ↦ rw (off, setup_all, setup_one) (setup_all_lem ts s)
    | inl on ↦ elim (Bool-cases (subscribe t)) [
      | inr down ↦
          let (a, b) = setup_all_lem ts (record s { ok = false }) in
          rw (on, down, setup_all, setup_one) (a, b ∙ sym (and_false s.ok))
      | inl up ↦
          let (a, b) =
            setup_all_lem ts (record s { enabled_topics = s.enabled_topics ++ (info_of t ∷ []) }) in
          rw (on, up, setup_all, setup_one)
            (a ∙ append_assoc s.enabled_topics (info_of t ∷ []) _, b)
    ]
  ]

  -- `OnSetup` enables exactly the topics that the configuration enables and that could be subscribed,
  -- in the list's order, and it succeeds exactly if no topic that the configuration enables failed.
  pub on_setup_lem :
      (ts : List TopicTraits)
      → ((on_setup subscribe config ts).enabled_topics
          ≡ map info_of (keep_if (λ t. wanted t && subscribe t) ts))
        × ((on_setup subscribe config ts).ok ≡ not (any_of (λ t. wanted t && not (subscribe t)) ts))
  unfolding on_setup
  on_setup_lem ts = setup_all_lem ts (record { enabled_topics = []; ok = true })

module _ (advertise : TopicTraits → Bool) where
  -- The type is the topic's, has its size, and can be advertised.
  abbrev pub serves : ResolvedTopic → TopicTraits → Bool
  serves topic t = (topic.topic_id == t.id) && ((topic.wire_size == t.wire_size) && advertise t)

  advertise_all_lem :
      (ts : List TopicTraits) (topic : ResolvedTopic) (found : Bool)
      → advertise_all advertise ts topic found ≡ (found || any_of (serves topic) ts)
  unfolding advertise_all try_advertise
  advertise_all_lem [] topic found = ground arith
  advertise_all_lem (t ∷ ts) topic found =
      advertise_all_lem ts topic (try_advertise advertise t topic found) ∙ ground arith

  -- `OnTopicFound` accepts a topic exactly if some type of the list has its id and its size and can be
  -- advertised.
  pub on_topic_found_lem :
      (ts : List TopicTraits) (topic : ResolvedTopic)
      → on_topic_found advertise ts topic ≡ any_of (serves topic) ts
  unfolding on_topic_found
  on_topic_found_lem ts topic = advertise_all_lem ts topic false
