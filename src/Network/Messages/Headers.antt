-- ===== src/Network/Messages/Headers.antt =====
-- The header that Encode puts into a packet, and how it is read on the other side.
use booster.Common.{
  length, ℕ, ◌≡◌, refl, sym, ap, ◌∙◌, inl, inr, Option, none, some, [], ◌∷◌, arith, ◌==◌,
  if◌then◌else◌, Bool-cases, Option-cases, Bytes, ◌=ᵇ◌,
}
use booster.Common.Result.{Result-cases, Result, ok, err}
use booster.Common.Dict.{lookup}
use booster.Packet.Types.{Metadata, Module, Packet, new_module, add_module, find_module, not_found}
use booster.Packet.Decoder.RoundTrip.{IsPacket}
use booster.Protocol.{
  marshal_failed, Header, Protobuf, module_header, module_payload, encoding_protobuf,
  is_version_supported, message_notify, version, new_header, encode_header, decode_header,
}
use booster.Network.Messages.{Codecs, read_header}
use booster.Packet.Building.{add_module-IsPacket}

-- What the code relies on in the protobuf package: a header is unmarshalled from the bytes that it
-- was marshalled to, and the current time is a timestamp that can be converted.
pub record Marshals (pb : Protobuf) : Type 0 where
  pub unmarshals : (h : Header) (raw : Bytes) → pb.marshal h ≡ some raw → pb.unmarshal raw ≡ some h
  pub now : ℕ
  pub now_converts : pb.timestamp pb.timestamp_now ≡ some now

abbrev metadata_or : Metadata → Result booster.Packet.Types.Error (Module × Packet) → Metadata
metadata_or d (err e) = d
metadata_or d (ok (m, q)) = q.metadata

pub add_module-metadata :
    (p : Packet) (id payload : Bytes) (m : Module) (q : Packet)
    → add_module p id payload ≡ ok (m, q)
    → q.metadata ≡ p.metadata
unfolding add_module
add_module-metadata p id payload m q h = elim (Option-cases (lookup id p.modules)) [
  | inr (x, e) ↦ absurd (ground arith)
  | inl e ↦ elim (Result-cases (new_module id payload)) [
    | inl (x, f) ↦ absurd (ground arith)
    | inr (m', f) ↦ sym (ap (metadata_or p.metadata) h) ∙ rw (add_module, e, f) refl
  ]
]

abbrev marshalled : Option Bytes → Result booster.Protocol.Error Bytes
marshalled none = err marshal_failed
marshalled (some raw) = ok raw

module _ (pb : Protobuf) (laws : Marshals pb) where
  -- The header of a message on the other side.
  abbrev pub header_of : ℕ → Header
  header_of msg = record {
    id = msg;
    protocol_version = version;
    sent_at = laws.now;
    modules = if msg == message_notify then [] else module_payload ∷ [];
  }

  decode-encode_header :
      (msg : ℕ) (raw : Bytes)
      → encode_header pb msg ≡ ok raw
      → decode_header pb raw ≡ ok (header_of msg)
  unfolding encode_header decode_header new_header
  decode-encode_header msg raw h =
      let sent : Header = record (header_of msg) { sent_at = pb.timestamp_now } in
      let is : encode_header pb msg ≡ marshalled (pb.marshal sent) =
        elim (Bool-cases (msg == message_notify)) [
          | inl notify ↦ rw (encode_header, new_header, notify) refl
          | inr other ↦ rw (encode_header, new_header, other) refl
        ] in
      elim (Option-cases (pb.marshal sent)) [
        | inl e ↦ absurd (ground arith)
        | inr (raw', e) ↦
            let same : raw' ≡ raw = ground arith in
            let back = laws.unmarshals sent raw (e ∙ ap some same) in
            rw (decode_header, back, laws.now_converts) refl
      ]

  -- A packet without modules becomes one with the header, and that one with the payload as well.
  abbrev pub bare : Packet
  bare = record {
    metadata = record { encoding = encoding_protobuf; compression = 1; encryption = 1 };
    modules = [];
  }

  bare-IsPacket : IsPacket bare
  bare-IsPacket = record { keyed = tt; is_map = tt }

  -- What the header's part of Encode leaves.
  pub record HasHeader (msg : ℕ) (p : Packet) : Type 0 where
    pub well_formed : IsPacket p
    pub protobuf : p.metadata ≡ bare.metadata
    pub module_ : Module
    pub found_header : find_module p module_header ≡ ok module_
    pub decodes : decode_header pb module_.payload ≡ ok (header_of msg)

  pub read_header-HasHeader :
      {V : Type 0} (c : Codecs V) (msg : ℕ) (p : Packet)
      → HasHeader msg p
      → read_header pb c p ≡ ok (header_of msg)
  unfolding read_header
  read_header-HasHeader c msg p h = rw (read_header, h.found_header, h.protobuf, h.decodes) refl

  pub add_module-HasHeader :
      (msg : ℕ) (raw : Bytes) (m : Module) (q : Packet)
      → encode_header pb msg ≡ ok raw
      → add_module bare module_header raw ≡ ok (m, q)
      → HasHeader msg q
        × (find_module q module_payload ≡ err (not_found module_payload))
        × (length q.modules ≡ 1)
  unfolding find_module lookup ◌=ᵇ◌
  add_module-HasHeader msg raw m q he ha =
      let (good, found, payload, len, others) =
        add_module-IsPacket bare module_header raw m q bare-IsPacket ha in
      (
        record {
          well_formed = good;
          protobuf = add_module-metadata bare module_header raw m q ha;
          module_ = m;
          found_header = found;
          decodes = ap (decode_header pb) payload ∙ decode-encode_header msg raw he;
        },
        others module_payload,
        len,
      )
