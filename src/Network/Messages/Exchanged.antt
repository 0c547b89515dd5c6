-- ===== src/Network/Messages/Exchanged.antt =====
-- Messages with payloads, encoded, sent, received and decoded.
pub mod Examples
use booster.Common.{
  ℕ, ◌+◌, ◌≤◌, ◌≡◌, refl, sym, ap, subst, ◌∙◌, inl, inr, Option, none, some, arith, ◌++◌, Bytes,
  length, Option-cases, get_or, if◌then◌else◌,
}
use mathlib.Core.Option as Opt
use booster.Common.Result.{Result, Result-cases, ok, err}
use booster.Packet.Types.{Packet}
use booster.Packet.Stream.{Reader, Writer, IoError}
use booster.Packet.Wire.{wire}
use booster.Packet.Codec.{blank}
use booster.Packet.Decoder.Reads.{stream}
use booster.Packet.Decoder.RoundTrip.{TagsFit, decode-wire}
use booster.Protocol.{Protobuf, module_payload}
use booster.Protocol.Payloads.{Payload, PayloadType, type_of}
use booster.Protocol.Internal.{Wires, AreFaithful}
use booster.Protocol.Encoder.{payload_encoders}
use booster.Protocol.Decoder.{payload_decoders}
use booster.Protocol.RoundTrip.{payload_decoders-payload_encoders}
use booster.Protocol.Kinds.{narrow}
use booster.Network.Messages.{Codecs, encode_default, network_decode}
use booster.Network.Messages.Headers.{Marshals}
use booster.Network.Messages.Delivered.{
  encode_default-encoder, encode_default-IsPacket, network_decode-encode_default,
}
use booster.Link.{Conn, open_conn, send_packet, recv, with_packet}
use booster.Link.Delivery.{Sendable, recv-send_packet}
use booster.Session.Config.{default_net_config}

abbrev pub value_of : {E A : Type 0} → Result E A → Option A
value_of (ok a) = some a
value_of (err e) = none

abbrev pub run_codec : {X E A : Type 0} → Option (X → Result E A) → Option (X → Option A)
run_codec none = none
run_codec (some f) = some (λ x. value_of (f x))

-- The codecs of the protocol package, for a value whose decoding goes into a variable of the given
-- type. Those of JSON are `json`'s.
abbrev pub payload_codecs : Wires → Codecs Payload → PayloadType → Codecs Payload
payload_codecs w json v = record json {
  payload_encoders = λ msg. run_codec (payload_encoders w msg);
  payload_decoders = λ msg. run_codec (payload_decoders w v msg);
}

abbrev or_else : {A : Type 0} → A → Option A → A
or_else d none = d
or_else d (some a) = a

value_of-ok : {E A : Type 0} (r : Result E A) (a : A) → value_of r ≡ some a → r ≡ ok a
value_of-ok (ok b) a h = ap ok (ap (or_else b) h)
value_of-ok (err e) a h = absurd (ground arith)

-- The code behind a codec.
run_codec-inv :
    {X E A : Type 0} (o : Option (X → Result E A)) (enc : X → Option A)
    → run_codec o ≡ some enc
    → (f : X → Result E A) × (o ≡ some f) × ((x : X) → value_of (f x) ≡ enc x)
run_codec-inv none enc h = absurd (ground arith)
run_codec-inv (some f) enc h =
    (f, refl, λ x. ap (λ o. or_else (value_of (f x)) (Opt.map (λ g. g x) o)) h)

pub default-TagsFit : TagsFit default_net_config.tag_set
default-TagsFit = record {
  packet_opening = omega arith;
  packet_closing = omega arith;
  module_opening = omega arith;
  module_closing = omega arith;
  separator = omega arith;
}

module _ (pb : Protobuf) (laws : Marshals pb) (w : Wires) (faithful : AreFaithful w)
    (json : Codecs Payload) where
  -- What was encoded with the protocol's codecs decodes to what its codecs make of it.
  pub decoded :
      (v : Payload) (msg : ℕ) (p : Packet)
      → encode_default pb (payload_codecs w json (type_of v)) (some v) msg ≡ ok p
      → network_decode pb (payload_codecs w json (type_of v)) p module_payload ≡ ok (narrow v)
  decoded v msg p h =
      let c = payload_codecs w json (type_of v) in
      let (enc, has_enc, raw, made) = encode_default-encoder pb laws c v msg p h in
      let (f, has_f, same) = run_codec-inv (payload_encoders w msg) enc has_enc in
      let written = value_of-ok (f v) raw (same v ∙ made) in
      let (g, has_g, back) =
        payload_decoders-payload_encoders w faithful v raw msg f has_f written in
      network_decode-encode_default pb laws c v (narrow v) msg p enc (λ x. value_of (g x)) has_enc
        (ap run_codec has_g)
        (λ raw' made'.
          let again : raw ≡ raw' = ap (or_else raw) (sym made ∙ made') in
          subst (λ r. value_of (g r) ≡ some (narrow v)) again (ap value_of back))
        h

  -- A message with a payload that Encode makes a packet, in the default encoding, is sent whole by
  -- a node whose connection takes its bytes. The node at the other end receives the same packet,
  -- leaves the bytes behind it, and decodes it to the payload with its tunnels' copies and its hops
  -- cut to 32 bits. The protobuf package keeps its laws.
  pub exchange_lem :
      (v : Payload) (msg : ℕ) (p : Packet) (rd : Reader) (wr : Writer) (room : ℕ) (rest : Bytes)
      (f : IoError)
      → encode_default pb (payload_codecs w json (type_of v)) (some v) msg ≡ ok p
      → length (wire default_net_config.tag_set p) ≤ room
      → let sender = send_packet p (open_conn (blank room, rd) default_net_config) in
        let incoming = stream (sender.1.outgoing.written ++ rest) f in
        let receiver = open_conn (wr, incoming) default_net_config in
        (sender.0 ≡ ok tt)
        × (recv receiver ≡ (ok p, record receiver { incoming = stream rest f }))
        × (network_decode pb (payload_codecs w json (type_of v)) p module_payload ≡ ok (narrow v))
  exchange_lem v msg p rd wr room rest f h fits =
      let (good, some_, few) =
        encode_default-IsPacket pb laws (payload_codecs w json (type_of v)) (some v) msg p h in
      let sendable : Sendable p = record {
        well_formed = good;
        some_modules = some_;
        few_modules = omega arith;
      } in
      let (all_sent, received) =
        recv-send_packet p default_net_config rd wr room rest f default-TagsFit sendable fits in
      (all_sent, received, decoded v msg p h)
