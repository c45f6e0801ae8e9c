-- ===== src/Programs/EndToEnd/Sent.antt =====
-- Joystick messages as the records of a session with the one topic `/joy`.
use tri_drishti_chrono_cap.Common.{
  ◌≡◌, refl, ap, sym, ◌∙◌, arith, Bool, true, List, [], ◌∷◌, map, length, All,
}
use tri_drishti_chrono_cap.Wire.Endian.Bytes.{IsU64}
use tri_drishti_chrono_cap.Payload.{JoyMsgs}
use tri_drishti_chrono_cap.Payload.RoundTrip.{FitsJoy}
use tri_drishti_chrono_cap.Config.{ConfigMap, is_enabled}
use tri_drishti_chrono_cap.Ring.{Sample}
use tri_drishti_chrono_cap.Ring.Queue.{IsSample}
use tri_drishti_chrono_cap.Writer.Thread.Pushed.{items_of, AllFit}
use tri_drishti_chrono_cap.Reader.{find, assign}
use tri_drishti_chrono_cap.Reader.Parse.{resolved_of, table}
use tri_drishti_chrono_cap.Reader.Playback.{Known}
use tri_drishti_chrono_cap.Recovery.{Consistent}
use tri_drishti_chrono_cap.Systems.{
  TopicTraits, joy_traits, all_topics, info_of, setup_one, setup_all, on_setup, try_advertise,
  advertise_all, on_topic_found,
}
use tri_drishti_chrono_cap.Systems.Callbacks.{Message, sample_of}
use tri_drishti_chrono_cap.Systems.Callbacks.Republish.{
  item_of_message, item_of_message-bytes, encode_joy-whole, sample_of-IsSample, AllJoy,
}

-- The topic is enabled and subscribed, and this is the session's table.
pub on_setup-joy :
    (subscribe : TopicTraits → Bool) (config : ConfigMap)
    → is_enabled config joy_traits.topic_name 4 ≡ true
    → subscribe joy_traits ≡ true
    → on_setup subscribe config all_topics
      ≡ record { enabled_topics = info_of joy_traits ∷ []; ok = true }
unfolding on_setup setup_all setup_one
on_setup-joy subscribe config on up = rw (on, up) refl

pub on_topic_found-joy :
    (advertise : TopicTraits → Bool)
    → advertise joy_traits ≡ true
    → on_topic_found advertise all_topics (resolved_of (info_of joy_traits)) ≡ true
unfolding on_topic_found advertise_all try_advertise
on_topic_found-joy advertise up = rw up refl

module _ (m : JoyMsgs) where
  -- The members of a message fit their C types.
  pub record FitsMessage (x : Message m) : Type 0 where
    pub stamp_ns : IsU64 x.stamp_ns
    pub seq : IsU64 x.seq
    pub value : FitsJoy (m.fields x.value)

  abbrev pub samples : List (Message m) → List Sample
  samples xs = map (sample_of m joy_traits) xs

  pub items_of-samples :
      (xs : List (Message m)) → items_of (samples xs) ≡ map (item_of_message m) xs
  items_of-samples [] = refl
  items_of-samples (x ∷ xs) = ap (λ l. item_of_message m x ∷ l) (items_of-samples xs)

  pub samples-AllFit : (xs : List (Message m)) → AllFit (samples xs)
  unfolding sample_of
  samples-AllFit [] = tt
  samples-AllFit (x ∷ xs) = (omega arith, samples-AllFit xs)

  pub samples-IsSample : (xs : List (Message m)) → All IsSample (samples xs)
  samples-IsSample [] = tt
  samples-IsSample (x ∷ xs) = (sample_of-IsSample m x, samples-IsSample xs)

  pub FitsMessage-AllJoy : (xs : List (Message m)) → All FitsMessage xs → AllJoy m xs
  FitsMessage-AllJoy [] f = tt
  FitsMessage-AllJoy (x ∷ xs) (f, fs) = (f.value, FitsMessage-AllJoy xs fs)

  item_of_message-Known :
      (x : Message m)
      → FitsMessage x
      → Known (table (info_of joy_traits ∷ [])) (item_of_message m x)
  unfolding find assign sample_of
  item_of_message-Known x f = record {
    fits = record { topic_id = omega arith; stamp_ns = f.stamp_ns; seq = f.seq };
    topic = resolved_of (info_of joy_traits);
    found = refl;
    sized = sym (ap length (item_of_message-bytes m x) ∙ encode_joy-whole m x);
  }

  map-Known :
      (xs : List (Message m))
      → All FitsMessage xs
      → All (Known (table (info_of joy_traits ∷ []))) (map (item_of_message m) xs)
  map-Known [] f = tt
  map-Known (x ∷ xs) (f, fs) = (item_of_message-Known x f, map-Known xs fs)

  pub messages-Consistent :
      (xs : List (Message m))
      → All FitsMessage xs
      → Consistent (info_of joy_traits ∷ []) (map (item_of_message m) xs)
  messages-Consistent xs f = record {
    fits = (record { topic_id = omega arith; wire_size = omega arith }, tt);
    few = omega arith;
    known = map-Known xs f;
  }
