-- ===== src/Systems/Callbacks.antt =====
-- include/chrono_cap/generic_recorder.hpp and generic_replayer.hpp: what happens to a message. The
-- recorder's callback encodes it and pushes it; the replayer decodes a record and publishes it. Every
-- type of `AllTopics` is JoyMsgs.
pub mod Republish
use tri_drishti_chrono_cap.Common.{ℕ, ◌==◌, if◌then◌else◌, Bool, not, List, [], ◌∷◌, ◌++◌}
use tri_drishti_chrono_cap.Payload.{JoyMsgs, encode_joy, decode_joy}
use tri_drishti_chrono_cap.Ring.{Sample}
use tri_drishti_chrono_cap.Writer.{RecordWriter, scratch, writer_push}
use tri_drishti_chrono_cap.Reader.{Played}
use tri_drishti_chrono_cap.Systems.{TopicTraits}

module _ (m : JoyMsgs) where
  -- `i2w::Sample<T>`: the value with its header's stamp and number.
  pub record Message : Type 0 where
    pub stamp_ns : ℕ
    pub seq : ℕ
    pub value : m.T

  -- The arguments of the callback's `Push`.
  unfoldable pub sample_of : TopicTraits → Message → Sample
  sample_of t x = record {
    topic_id = t.id;
    stamp_ns = x.stamp_ns;
    seq = x.seq;
    bytes = encode_joy m x.value (scratch t.wire_size);
    len = t.wire_size;
  }

  -- The callback of `SetupOne`, which passes over the result of `Push`.
  unfoldable pub on_sample : TopicTraits → RecordWriter → Message → RecordWriter
  on_sample t w x = (writer_push w (sample_of t x)).0

  -- What `publish` is called with, on the publisher of a topic.
  pub record Publication : Type 0 where
    pub topic_name : List ℕ
    pub value : m.T
    pub stamp_ns : ℕ

  -- `DispatchOne`, with what was published before.
  unfoldable pub dispatch_one : TopicTraits → Played → List Publication → List Publication
  dispatch_one t p sent =
      if not (p.topic_id == t.id)
      then sent
      else (sent
          ++ (record {
            topic_name = t.topic_name;
            value = decode_joy m p.payload m.initial;
            stamp_ns = p.stamp_ns;
          }
              ∷ []))

  -- `OnRecord`: the fold over the types.
  unfoldable pub on_record : List TopicTraits → Played → List Publication → List Publication
  on_record [] p sent = sent
  on_record (t ∷ ts) p sent = on_record ts p (dispatch_one t p sent)

  -- The callback for each record that `Run` plays.
  unfoldable pub replay : List TopicTraits → List Played → List Publication → List Publication
  replay ts [] sent = sent
  replay ts (p ∷ ps) sent = replay ts ps (on_record ts p sent)
