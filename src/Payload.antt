-- ===== src/Payload.antt =====
-- include/chrono_cap/payload_codec.hpp: the payload of the one topic in use, JoyMsgs, 22 bytes.
-- The message struct itself comes from outside the repository. The codec reads and assigns the nine
-- members below; a `float` is its 32-bit pattern, since the codec copies it to and from a uint32_t.
pub mod RoundTrip
use tri_drishti_chrono_cap.Common.{ℕ, ◌==◌, ◌≡◌, if◌then◌else◌, Bool, not, List, set, drop}
use tri_drishti_chrono_cap.Wire.Endian.{byte, encode_u32, decode_u32, encode_u64, decode_u64}
use tri_drishti_chrono_cap.Wire.Memory.{at}

pub record JoyFields : Type 0 where
  pub timestamp : ℕ
  pub axis0 : ℕ
  pub axis2 : ℕ
  pub button0 : Bool
  pub button1 : Bool
  pub button3 : Bool
  pub button4 : Bool
  pub button5 : Bool
  pub button6 : Bool

-- The struct: its members can be read, and members that are assigned are read back. `initial` is the
-- value-initialised `T v{}`.
pub record JoyMsgs : Type 1 where
  pub T : Type 0
  pub fields : T → JoyFields
  pub assign : JoyFields → T → T
  pub initial : T
  pub fields-assign : (f : JoyFields) (v : T) → fields (assign f v) ≡ f

-- `b ? 1 : 0`
abbrev pub flag : Bool → ℕ
flag b = if b then 1 else 0

unfoldable pub encode_payload : JoyFields → List ℕ → List ℕ
encode_payload v out =
    let out1 = encode_u64 out v.timestamp in
    let out2 = at 8 (λ p. encode_u32 p v.axis0) out1 in
    let out3 = at 12 (λ p. encode_u32 p v.axis2) out2 in
    let out4 = set out3 16 (flag v.button0) in
    let out5 = set out4 17 (flag v.button1) in
    let out6 = set out5 18 (flag v.button3) in
    let out7 = set out6 19 (flag v.button4) in
    let out8 = set out7 20 (flag v.button5) in set out8 21 (flag v.button6)

unfoldable pub decode_payload : List ℕ → JoyFields
decode_payload inp = record {
  timestamp = decode_u64 inp;
  axis0 = decode_u32 (drop 8 inp);
  axis2 = decode_u32 (drop 12 inp);
  button0 = not (byte inp 16 == 0);
  button1 = not (byte inp 17 == 0);
  button3 = not (byte inp 18 == 0);
  button4 = not (byte inp 19 == 0);
  button5 = not (byte inp 20 == 0);
  button6 = not (byte inp 21 == 0);
}

-- The two functions on the struct itself.
module _ (m : JoyMsgs) where
  open m use {T, fields, assign}

  unfoldable pub encode_joy : T → List ℕ → List ℕ
  encode_joy v out = encode_payload (fields v) out

  unfoldable pub decode_joy : List ℕ → T → T
  decode_joy inp v = assign (decode_payload inp) v
