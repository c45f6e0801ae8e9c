-- ===== src/Tests/Systems.antt =====
-- Witnesses for the recorder's and the replayer's set-up.
use tri_drishti_chrono_cap.Common.{◌≡◌, ◌&&◌, Bool, true, not, [], ◌∷◌, map}
use tri_drishti_chrono_cap.Reader.{ResolvedTopic}
use tri_drishti_chrono_cap.Systems.{TopicTraits, all_topics, info_of, on_setup}
use tri_drishti_chrono_cap.Systems.Choice.{any_of, keep_if, wanted, on_setup_lem}

abbrev always : TopicTraits → Bool
always t = true

abbrev joy_found : ResolvedTopic
joy_found = record { topic_id = 4; wire_size = 22; name = b'/' ∷ b'j' ∷ b'o' ∷ b'y' ∷ [] }

on_setup_lem_example :
    ((on_setup always [] all_topics).enabled_topics
      ≡ map info_of (keep_if (λ t. wanted always [] t && always t) all_topics))
    × ((on_setup always [] all_topics).ok
        ≡ not (any_of (λ t. wanted always [] t && not (always t)) all_topics))
on_setup_lem_example = on_setup_lem always [] all_topics
