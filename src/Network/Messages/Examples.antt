-- ===== src/Network/Messages/Examples.antt =====
-- Messages under a marshalling that can be run: numbers as they are, and strings with their
-- letters shifted by one and a zero at the end.
use booster.Common.{
  ℕ, zero, suc, ◌≡◌, refl, ap, subst, ◌∙◌, Option, none, some, List, [], ◌∷◌, arith, Bytes, ◌=ᵇ◌,
  length,
}
use booster.Common.Result.{ok}
use booster.Common.Dict.{lookup, insert}
use booster.Packet.Types.{Module, Packet, new_module, add_module}
use booster.Protocol.{Header, Protobuf, module_payload, new_header, encode_header, version}
use booster.Network.Messages.{Codecs, network_encode, encode_default, header_bytes, payload_bytes}
use booster.Network.Messages.Headers.{Marshals}

abbrev write_string : Bytes → Bytes → Bytes
write_string [] rest = 0 ∷ rest
write_string (b ∷ s) rest = suc b ∷ write_string s rest

abbrev write_strings : List Bytes → Bytes
write_strings [] = []
write_strings (s ∷ ss) = write_string s (write_strings ss)

abbrev push : ℕ → List Bytes → List Bytes
push b [] = (b ∷ []) ∷ []
push b (s ∷ ss) = (b ∷ s) ∷ ss

abbrev read_strings : Bytes → List Bytes
read_strings [] = []
read_strings (zero ∷ raw) = [] ∷ read_strings raw
read_strings (suc b ∷ raw) = push b (read_strings raw)

read-write_string : (s rest : Bytes) → read_strings (write_string s rest) ≡ s ∷ read_strings rest
read-write_string [] rest = refl
read-write_string (b ∷ s) rest = ap (push b) (read-write_string s rest)

read-write_strings : (ss : List Bytes) → read_strings (write_strings ss) ≡ ss
read-write_strings [] = refl
read-write_strings (s ∷ ss) =
    read-write_string s (write_strings ss) ∙ ap (λ r. s ∷ r) (read-write_strings ss)

abbrev header_from : ℕ → ℕ → List Bytes → Option Header
header_from id at [] = none
header_from id at (v ∷ ms) =
    some (record { id = id; protocol_version = v; sent_at = at; modules = ms })

abbrev raw_header : Header → Bytes
raw_header h = h.id ∷ h.sent_at ∷ write_strings (h.protocol_version ∷ h.modules)

abbrev unmarshal_header : Bytes → Option Header
unmarshal_header [] = none
unmarshal_header (id ∷ raw) = elim raw [
  | [] ↦ none
  | at ∷ rest ↦ header_from id at (read_strings rest)
]

abbrev pub proto : Protobuf
proto = record {
  timestamp_now = 4;
  timestamp = some;
  marshal = λ h. some (raw_header h);
  unmarshal = unmarshal_header;
}

some-raw : (x y : Bytes) → some x ≡ some y → x ≡ y
some-raw x y e = ground arith

pub proto-Marshals : Marshals proto
proto-Marshals = record {
  unmarshals = λ h raw e.
      subst (λ x. unmarshal_header x ≡ some h) (some-raw (raw_header h) raw e)
        (ap (header_from h.id h.sent_at) (read-write_strings (h.protocol_version ∷ h.modules)));
  now = 4;
  now_converts = refl;
}

-- A value is a number, and goes out as one byte.
abbrev write_number : ℕ → Option Bytes
write_number n = some (n ∷ [])

abbrev read_number : Bytes → Option ℕ
read_number [] = none
read_number (n ∷ raw) = some n

abbrev pub codecs : Codecs ℕ
codecs = record {
  json_message = λ m. none;
  json_header = λ raw. none;
  json_value = λ v. none;
  json_read = λ raw. none;
  payload_encoders = λ m. some write_number;
  payload_decoders = λ m. some read_number;
}

abbrev pub header_module : ℕ → List Bytes → Module
header_module msg modules =
    let raw = msg ∷ 4 ∷ write_strings (version ∷ modules) in
    record { id = b'H' ∷ b'E' ∷ []; size = length raw; payload = raw }

abbrev hello : Packet
hello = record {
  metadata = record { encoding = 1; compression = 1; encryption = 1 };
  modules =
      (b'H' ∷ b'E' ∷ [], header_module 1 (module_payload ∷ []))
      ∷ (module_payload, record { id = module_payload; size = 1; payload = 33 ∷ [] })
      ∷ [];
}

abbrev bare_hello : Packet
bare_hello = record {
  metadata = record { encoding = 1; compression = 1; encryption = 1 };
  modules = (b'H' ∷ b'E' ∷ [], header_module 1 (module_payload ∷ [])) ∷ [];
}

hello_made : encode_default proto codecs (some 33) 1 ≡ ok hello
unfolding encode_default network_encode header_bytes payload_bytes encode_header new_header
    add_module new_module lookup insert ◌=ᵇ◌
hello_made = refl

bare_made : encode_default proto codecs none 1 ≡ ok bare_hello
unfolding encode_default network_encode header_bytes payload_bytes encode_header new_header
    add_module new_module lookup insert ◌=ᵇ◌
bare_made = refl

number_back : (raw : Bytes) → write_number 33 ≡ some raw → read_number raw ≡ some 33
number_back raw e = subst (λ x. read_number x ≡ some 33) (some-raw (33 ∷ []) raw e) refl
