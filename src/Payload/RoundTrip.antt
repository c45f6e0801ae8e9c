-- ===== src/Payload/RoundTrip.antt =====
-- The bytes that `EncodePayload` leaves, and `DecodePayload` of them.
use tri_drishti_chrono_cap.Common.{
  ℕ, ◌≤◌, ◌≡◌, refl, ap, ◌∙◌, arith, Bool, true, false, not, ◌==◌, List, [], ◌∷◌, ◌++◌, length,
  length-drop, drop, drop-drop, set,
}
use tri_drishti_chrono_cap.Wire.Endian.Bytes.{IsU32, IsU64, le_bytes}
use tri_drishti_chrono_cap.Wire.Endian.Laws.{
  encode_u32_lem, encode_u64_lem, decode_u32-le_bytes, decode_u64-le_bytes,
}
use tri_drishti_chrono_cap.Payload.{
  JoyFields, JoyMsgs, flag, encode_payload, decode_payload, encode_joy, decode_joy,
}

abbrev pub flag_bytes : JoyFields → List ℕ
flag_bytes f =
    flag f.button0
    ∷ flag f.button1
    ∷ flag f.button3
    ∷ flag f.button4
    ∷ flag f.button5
    ∷ flag f.button6
    ∷ []

-- The 22 bytes of the payload.
abbrev pub joy_bytes : JoyFields → List ℕ
joy_bytes f = le_bytes 8 f.timestamp ++ (le_bytes 4 f.axis0 ++ (le_bytes 4 f.axis2 ++ flag_bytes f))

six_stores :
    (l : List ℕ) (a b c d e f : ℕ)
    → 6 ≤ length l
    → set (set (set (set (set (set l 0 a) 1 b) 2 c) 3 d) 4 e) 5 f ≡ a ∷ b ∷ c ∷ d ∷ e ∷ f ∷ drop 6 l
six_stores (_ ∷ _ ∷ _ ∷ _ ∷ _ ∷ _ ∷ l) a b c d e f h = refl
six_stores _ a b c d e f h = absurd (omega arith)

pub encode_payload_lem :
    (f : JoyFields) (out : List ℕ)
    → 22 ≤ length out
    → encode_payload f out ≡ joy_bytes f ++ drop 22 out
unfolding encode_payload
encode_payload_lem f out room = rw (
  encode_u64_lem out f.timestamp (omega arith),
  encode_u32_lem (drop 8 out) f.axis0 (omega (arith, length-drop 8 out)),
  drop-drop 4 8 out,
  encode_u32_lem (drop 12 out) f.axis2 (omega (arith, length-drop 12 out)),
  drop-drop 4 12 out,
  six_stores (drop 16 out) _ _ _ _ _ _ (omega (arith, length-drop 16 out)),
  drop-drop 6 16 out,
)

pub record FitsJoy (f : JoyFields) : Type 0 where
  pub timestamp : IsU64 f.timestamp
  pub axis0 : IsU32 f.axis0
  pub axis2 : IsU32 f.axis2

flag_back : (b : Bool) → not (flag b == 0) ≡ b
flag_back true = refl
flag_back false = refl

pub decode_payload-joy_bytes :
    (f : JoyFields) (rest : List ℕ) → FitsJoy f → decode_payload (joy_bytes f ++ rest) ≡ f
unfolding decode_payload
decode_payload-joy_bytes f rest v = λ i. record {
  timestamp =
      decode_u64-le_bytes f.timestamp
        (le_bytes 4 f.axis0 ++ (le_bytes 4 f.axis2 ++ (flag_bytes f ++ rest))) v.timestamp i;
  axis0 = decode_u32-le_bytes f.axis0 (le_bytes 4 f.axis2 ++ (flag_bytes f ++ rest)) v.axis0 i;
  axis2 = decode_u32-le_bytes f.axis2 (flag_bytes f ++ rest) v.axis2 i;
  button0 = flag_back f.button0 i;
  button1 = flag_back f.button1 i;
  button3 = flag_back f.button3 i;
  button4 = flag_back f.button4 i;
  button5 = flag_back f.button5 i;
  button6 = flag_back f.button6 i;
}

-- A message whose time stamp and axes fit their C types, written by `EncodePayload` over any
-- buffer of 22 bytes or more, is read back by `DecodePayload` in the nine members that the codec
-- handles, whatever the target held before.
pub joy_read_back :
    (m : JoyMsgs) (v w : m.T) (out : List ℕ)
    → FitsJoy (m.fields v)
    → 22 ≤ length out
    → m.fields (decode_joy m (encode_joy m v out) w) ≡ m.fields v
unfolding encode_joy decode_joy
joy_read_back m v w out f room =
    m.fields-assign (decode_payload (encode_payload (m.fields v) out)) w
    ∙ ap decode_payload (encode_payload_lem (m.fields v) out room)
    ∙ decode_payload-joy_bytes (m.fields v) (drop 22 out) f
