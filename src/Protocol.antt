-- ===== src/Protocol.antt =====
-- protocol: the header of a packet; the children have the payloads and their codecs.
pub mod Payloads
pub mod Internal
pub mod Encoder
pub mod Decoder
pub mod Kinds
pub mod RoundTrip
pub mod Typing
pub mod Examples
use booster.Common.{
  ℕ, Bool, true, false, Option, none, some, List, [], ◌∷◌, ◌==◌, if◌then◌else◌, Bytes, ◌=ᵇ◌,
}
use booster.Common.Result.{Result, ok, err}

-- Version
abbrev pub version : Bytes
version = b'0' ∷ b'.' ∷ b'3' ∷ []

-- The ids of a packet's modules: ModuleHeader and ModulePayload.
abbrev pub module_header : Bytes
module_header = b'H' ∷ b'E' ∷ []

abbrev pub module_payload : Bytes
module_payload = b'P' ∷ b'A' ∷ []

abbrev pub message_notify : ℕ
message_notify = 5

abbrev pub encoding_protobuf : ℕ
encoding_protobuf = 1

abbrev pub encoding_json : ℕ
encoding_json = 2

-- `sent_at` is a time of Go in the one, and a protobuf timestamp in the other.
pub record Header : Type 0 where
  pub id : ℕ
  pub protocol_version : Bytes
  pub sent_at : ℕ
  pub modules : List Bytes

pub data Error : Type 0 where
  marshal_failed unmarshal_failed bad_timestamp : Error

-- The protobuf package, as the header's code calls it: the current time as a timestamp, its
-- conversion to a time, and the marshalling of the generated header, which has the same fields.
pub record Protobuf : Type 0 where
  pub timestamp_now : ℕ
  pub timestamp : ℕ → Option ℕ
  pub marshal : Header → Option Bytes
  pub unmarshal : Bytes → Option Header

unfoldable pub is_version_supported : Bytes → Bool
is_version_supported v = v =ᵇ version

abbrev listed : Bytes → List Bytes → Bool
listed m [] = false
listed m (v ∷ vs) = if v =ᵇ m then true else listed m vs

unfoldable pub has_module : Header → Bytes → Bool
has_module h m = listed m h.modules

module _ (pb : Protobuf) where
  unfoldable pub new_header : ℕ → Header
  new_header id = record {
    id = id;
    protocol_version = version;
    sent_at = pb.timestamp_now;
    modules = module_payload ∷ [];
  }

  unfoldable pub encode_header : ℕ → Result Error Bytes
  unfolding new_header
  encode_header d =
      let h = new_header d in
      let h' = if d == message_notify then record h { modules = [] } else h in
      elim (pb.marshal h') [ none ↦ err marshal_failed | some raw ↦ ok raw ]

  unfoldable pub decode_header : Bytes → Result Error Header
  decode_header p = elim (pb.unmarshal p) [
    | none ↦ err unmarshal_failed
    | some header ↦ elim (pb.timestamp header.sent_at) [
      | none ↦ err bad_timestamp
      | some t ↦ ok (record header { sent_at = t })
    ]
  ]
