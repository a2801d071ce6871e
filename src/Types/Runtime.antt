-- ===== src/Types/Runtime.antt =====
-- Values of Python, and what the constructor of a message of the protobuf library does with them:
-- a parameter, with the behaviour that its documentation gives for values of the right type.
use sat_os_payload_sdk.Prelude.{ℕ, ◌^◌, String, Bool, ltb, List, ℤ, pos, negsuc, ◌≡◌, if◌then◌else◌}
use sat_os_payload_sdk.Exec.{Result, ok, raised, value_error}
use sat_os_payload_sdk.Types.Peer.{Float, PayloadMetricsInfo}

pub data Value : Type 0 where
  int : ℤ → Value
  text : String → Value
  float : Float → Value
  -- a list of messages
  infos : List PayloadMetricsInfo → Value
  -- None, and any other object, by its identity
  none_value : Value
  other : ℕ → Value

infixl 5 ◌>>=◌
abbrev pub ◌>>=◌ : {A B : Type 0} → Result A → (A → Result B) → Result B
ok a >>= f = f a
raised e >>= f = raised e

-- What a field of each type keeps of the value that the constructor is given, and the nearest float
-- of four bytes.
pub record Protobuf : Type 0 where
  pub int32 : Value → Result ℤ
  pub int64 : Value → Result ℤ
  pub return_code : Value → Result ℤ
  pub string : Value → Result String
  pub float32 : Value → Result Float
  pub metrics_infos : Value → Result (List PayloadMetricsInfo)
  pub single : Float → Float

-- The range of a signed type of `bits` + 1 bits.
abbrev pub is_signed : ℕ → ℤ → Bool
is_signed bits (pos n) = ltb n (2 ^ bits)
is_signed bits (negsuc n) = ltb n (2 ^ bits)

abbrev pub is_int32 : ℤ → Bool
is_int32 = is_signed 31

abbrev pub is_int64 : ℤ → Bool
is_int64 = is_signed 63

-- Whole numbers are range-checked, with a ValueError outside, also in an enum field, which takes any
-- int32; texts and lists of messages are kept, and floats rounded.
pub record IsDocumented (pb : Protobuf) : Type 0 where
  pub int32_lem : (z : ℤ) → pb.int32 (int z) ≡ (if is_int32 z then ok z else raised value_error)
  pub int64_lem : (z : ℤ) → pb.int64 (int z) ≡ (if is_int64 z then ok z else raised value_error)
  pub return_code_lem :
      (z : ℤ) → pb.return_code (int z) ≡ (if is_int32 z then ok z else raised value_error)
  pub string_lem : (s : String) → pb.string (text s) ≡ ok s
  pub float32_lem : (x : Float) → pb.float32 (float x) ≡ ok (pb.single x)
  pub infos_lem : (l : List PayloadMetricsInfo) → pb.metrics_infos (infos l) ≡ ok l
