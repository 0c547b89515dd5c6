-- ===== src/Network/Messages.antt =====
-- Encode, Decode and ValidatePacket of booster/network.go: messages as packets.
pub mod Headers
pub mod Delivered
pub mod Addressed
pub mod Exchanged
pub mod Examples
use booster.Common.{
  ℕ, zero, suc, ◌+◌, ◌-◌, ◌*◌, ◌/◌, ◌%◌, ◌^◌, ◌≤◌, ◌<◌, ◌≡◌, refl, sym, ap, subst, ◌∙◌, ◌≢◌, ◌↔◌,
  ◌⊎◌, inl, inr, Bool, true, false, not, ◌&&◌, ◌||◌, Option, none, some, List, [], ◌∷◌, ◌++◌, map,
  arith, ltb, leb, ◌==◌, if◌then◌else◌, Bool-cases, Option-cases, Bytes, ◌=ᵇ◌, =ᵇ_iff, =ᵇ_refl,
  =ᵇ_eq, length, get_elem?, set, take, drop, replicate, All, get_or,
}
use booster.Common.Result.{◌>>=ʳ◌, Result, ok, err}
use booster.Common.Dict.{
  Dict, lookup, insert, delete, IsMap, lookup-insert, lookup-delete, insert-IsMap, delete-IsMap,
}
use booster.Packet.Types.{Metadata, Module, Packet, add_module, find_module}
use booster.Protocol.{
  Header, Protobuf, module_header, module_payload, encoding_protobuf, encoding_json,
  is_version_supported, encode_header, decode_header,
}

pub data Error : Type 0 where
  packet_error : booster.Packet.Types.Error → Error
  protocol_error : booster.Protocol.Error → Error
  payload_encode_failed payload_decode_failed : Error
  unsupported_version : Bytes → Error
  -- the maps of encoders and decoders have no entry, and a nil function is called
  panic : Error

-- The codecs of the values that messages carry: json.Marshal and json.Unmarshal for messages,
-- headers and values, and the maps PayloadEncoders and PayloadDecoders.
pub record Codecs (V : Type 0) : Type 0 where
  pub json_message : ℕ → Option Bytes
  pub json_header : Bytes → Option Header
  pub json_value : V → Option Bytes
  pub json_read : Bytes → Option V
  pub payload_encoders : ℕ → Option (V → Option Bytes)
  pub payload_decoders : ℕ → Option (Bytes → Option V)

abbrev pub with_packet : {A : Type 0} → Result booster.Packet.Types.Error A → Result Error A
with_packet (ok a) = ok a
with_packet (err e) = err (packet_error e)

abbrev pub with_protocol : {A : Type 0} → Result booster.Protocol.Error A → Result Error A
with_protocol (ok a) = ok a
with_protocol (err e) = err (protocol_error e)

abbrev pub found : {A : Type 0} → Error → Option A → Result Error A
found e none = err e
found e (some a) = ok a

-- AddModule, when only the packet is of use.
abbrev pub kept : Result booster.Packet.Types.Error (Module × Packet) → Result Error Packet
kept (ok (m, q)) = ok q
kept (err e) = err (packet_error e)

module _ {V : Type 0} (pb : Protobuf) (c : Codecs V) where
  -- The header's bytes in Encode.
  unfoldable pub header_bytes : ℕ → Metadata → Result Error Bytes
  header_bytes msg meta =
      if meta.encoding == encoding_json
      then found payload_encode_failed (c.json_message msg)
      else with_protocol (encode_header pb msg)

  -- The payload's bytes in Encode.
  unfoldable pub payload_bytes : V → ℕ → Metadata → Result Error Bytes
  payload_bytes v msg meta =
      if meta.encoding == encoding_json
      then found payload_encode_failed (c.json_value v)
      else elim (c.payload_encoders msg) [
        | none ↦ err panic
        | some f ↦ found payload_encode_failed (f v)
      ]

  abbrev add : Packet → Bytes → Bytes → Result Error Packet
  add p id raw = kept (add_module p id raw)

  -- `if v != nil { … }` in Encode
  abbrev pub add_payload : Option V → ℕ → Metadata → Packet → Result Error Packet
  add_payload none msg meta p = ok p
  add_payload (some w) msg meta p = payload_bytes w msg meta >>=ʳ λ praw. add p module_payload praw

  unfoldable pub network_encode : Option V → ℕ → Metadata → Result Error Packet
  network_encode v msg meta = header_bytes msg meta >>=ʳ λ hraw.
      add (record { metadata = meta; modules = [] }) module_header hraw >>=ʳ λ p.
      add_payload v msg meta p

  -- EncodeDefault
  unfoldable pub encode_default : Option V → ℕ → Result Error Packet
  encode_default v msg =
      network_encode v msg
        (record { encoding = encoding_protobuf; compression = 1; encryption = 1 })

  -- Network.decode, with the decoder as an argument.
  abbrev pub decode_with : {A : Type 0} → (Bytes → Result Error A) → Packet → Bytes → Result Error A
  decode_with f p m = with_packet (find_module p m) >>=ʳ λ mod_. f mod_.payload

  -- Decode of the header module.
  unfoldable pub read_header : Packet → Result Error Header
  read_header p =
      decode_with
        (λ raw.
          if p.metadata.encoding == encoding_json
          then found payload_decode_failed (c.json_header raw)
          else with_protocol (decode_header pb raw))
        p module_header

  -- The loop over the header's modules.
  unfoldable pub all_present : Packet → List Bytes → Result Error (Unit {0})
  all_present p [] = ok tt
  all_present p (mid ∷ mids) = with_packet (find_module p mid) >>=ʳ λ m. all_present p mids

  unfoldable pub validate_packet : Packet → Header → Result Error (Unit {0})
  validate_packet p h =
      if not (is_version_supported h.protocol_version)
      then err (unsupported_version h.protocol_version)
      else all_present p h.modules

  -- The decoder that Decode ends up with. HeaderDecoder cannot set a payload.
  unfoldable pub payload_decoder : ℕ → Metadata → Bytes → Result Error V
  payload_decoder id meta raw =
      if meta.encoding == encoding_protobuf
      then elim (c.payload_decoders id) [
        | none ↦ err panic
        | some f ↦ found payload_decode_failed (f raw)
      ]
      else if meta.encoding == encoding_json
      then found payload_decode_failed (c.json_read raw)
      else err payload_decode_failed

  -- Decode of another module than the header.
  unfoldable pub network_decode : Packet → Bytes → Result Error V
  network_decode p m = read_header p >>=ʳ λ header.
      validate_packet p header >>=ʳ λ u. decode_with (payload_decoder header.id p.metadata) p m
