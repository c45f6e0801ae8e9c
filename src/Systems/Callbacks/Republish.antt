-- ===== src/Systems/Callbacks/Republish.antt =====
-- The replayer publishes the messages that the recorder's callback encoded.
use tri_drishti_chrono_cap.Common.{
  ℕ, ◌≡◌, refl, ap, sym, ◌∙◌, arith, List, [], ◌∷◌, ◌++◌, append-nil, append_assoc, map, length,
  take_all,
}
use mathlib.Core.List.{map-append}
use tri_drishti_chrono_cap.Payload.{JoyFields, JoyMsgs, encode_joy, decode_joy}
use tri_drishti_chrono_cap.Payload.RoundTrip.{FitsJoy, joy_bytes, encode_payload_lem, joy_read_back}
use tri_drishti_chrono_cap.Ring.Queue.{Item, item_of_sample, IsSample}
use tri_drishti_chrono_cap.Writer.{scratch}
use tri_drishti_chrono_cap.Reader.Playback.{play, plays}
use tri_drishti_chrono_cap.Systems.{joy_traits, all_topics}
use tri_drishti_chrono_cap.Systems.Callbacks.{
  Message, sample_of, Publication, dispatch_one, on_record, replay,
}

module _ (m : JoyMsgs) where
  -- The record of a message: its 22 bytes are exactly the payload.
  abbrev pub item_of_message : Message m → Item
  item_of_message x = item_of_sample (sample_of m joy_traits x)

  -- A message as it can be told apart from outside: stamp, and the members that the codec handles.
  abbrev pub seen : Message m → ℕ × JoyFields
  seen x = (x.stamp_ns, m.fields x.value)

  abbrev pub published : Publication m → ℕ × JoyFields
  published p = (p.stamp_ns, m.fields p.value)

  -- The codec's buffer is written in full.
  pub encode_joy-whole : (x : Message m) → length (encode_joy m x.value (scratch 22)) ≡ 22
  unfolding encode_joy
  encode_joy-whole x = ap length (
      encode_payload_lem (m.fields x.value) (scratch 22) (omega arith)
      ∙ append-nil (joy_bytes (m.fields x.value)))

  pub sample_of-IsSample : (x : Message m) → IsSample (sample_of m joy_traits x)
  unfolding sample_of
  sample_of-IsSample x = omega (arith, encode_joy-whole x)

  pub item_of_message-bytes :
      (x : Message m) → (item_of_message x).bytes ≡ encode_joy m x.value (scratch 22)
  unfolding sample_of
  item_of_message-bytes x = take_all 22 _ (omega (arith, encode_joy-whole x))

  -- A record that was made of a message is published as that message.
  on_record_lem :
      (start t0 : ℕ) (x : Message m) (sent : List (Publication m))
      → FitsJoy (m.fields x.value)
      → map published (on_record m all_topics (play start t0 (item_of_message x)) sent)
        ≡ map published sent ++ (seen x ∷ [])
  unfolding on_record dispatch_one sample_of
  on_record_lem start t0 x sent f =
      map-append published sent _
      ∙ ap (λ (v : JoyFields). map published sent ++ ((x.stamp_ns, v) ∷ []))
          (ap (λ (b : List ℕ). m.fields (decode_joy m b m.initial)) (item_of_message-bytes x)
            ∙ joy_read_back m x.value m.initial (scratch 22) f (omega arith))

  abbrev pub AllJoy : List (Message m) → Type 0
  AllJoy [] = Unit
  AllJoy (x ∷ xs) = FitsJoy (m.fields x.value) × AllJoy xs

  replay-map :
      (start t0 : ℕ) (xs : List (Message m)) (sent : List (Publication m))
      → AllJoy xs
      → map published (replay m all_topics (map (play start t0) (map item_of_message xs)) sent)
        ≡ map published sent ++ map seen xs
  unfolding replay
  replay-map start t0 [] sent f = sym (append-nil (map published sent))
  replay-map start t0 (x ∷ xs) sent (f, fs) =
      replay-map start t0 xs (on_record m all_topics (play start t0 (item_of_message x)) sent) fs
      ∙ ap (λ l. l ++ map seen xs) (on_record_lem start t0 x sent f)
      ∙ append_assoc (map published sent) (seen x ∷ []) (map seen xs)

  -- Replaying the records of any messages publishes those messages, in order: stamp by stamp, and
  -- member by member for the nine members that the codec handles, where the members fit their C types.
  pub replay-plays :
      (start : ℕ) (xs : List (Message m))
      → AllJoy xs
      → map published (replay m all_topics (plays start (map item_of_message xs)) []) ≡ map seen xs
  unfolding replay sample_of
  replay-plays start [] f = refl
  replay-plays start (x ∷ xs) f = replay-map start x.stamp_ns (x ∷ xs) [] f
