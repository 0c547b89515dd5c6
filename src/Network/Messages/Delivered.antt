-- ===== src/Network/Messages/Delivered.antt =====
-- Messages that Encode makes, as Decode and ValidatePacket take them.
use booster.Common.{
  ◌≤◌, length, ℕ, ◌≡◌, refl, sym, ap, subst, ◌∙◌, inl, inr, Option, none, some, arith, ◌==◌,
  if◌then◌else◌, Bool-cases, Option-cases, Bytes, ◌=ᵇ◌,
}
use booster.Common.Result.{Result-cases, ◌>>=ʳ◌, ok, err}
use booster.Packet.Types.{Module, Packet, add_module, find_module, not_found}
use booster.Protocol.{
  Header, Protobuf, module_header, module_payload, is_version_supported, message_notify,
  encode_header,
}
use booster.Network.Messages.Headers.{
  Marshals, HasHeader, bare, header_of, add_module-HasHeader, read_header-HasHeader,
  add_module-metadata,
}
use booster.Network.Messages.{
  kept, panic, payload_encode_failed, payload_decoder, payload_decoder, all_present, packet_error,
  payload_bytes, network_decode, validate_packet, protocol_error, add_payload, header_bytes,
  network_encode, encode_default, Codecs, read_header,
}
use booster.Packet.Building.{add_module-IsPacket}
use booster.Packet.Decoder.RoundTrip.{IsPacket}

module _ (pb : Protobuf) (laws : Marshals pb) where
  goes_on_of :
      {V : Type 0} (c : Codecs V) (v : Option V) (msg : ℕ) (raw : Bytes) (m : Module) (q : Packet)
      → encode_header pb msg ≡ ok raw
      → add_module (bare pb laws) module_header raw ≡ ok (m, q)
      → encode_default pb c v msg ≡ add_payload pb c v msg (bare pb laws).metadata q
  unfolding encode_default network_encode header_bytes
  goes_on_of c v msg raw m q f g =
      rw (encode_default, network_encode, header_bytes, f)
        (ap (λ r. kept r >>=ʳ add_payload pb c v msg (bare pb laws).metadata) g)

  -- The packet that Encode is at when the header is in.
  pub encode-HasHeader :
      {V : Type 0} (c : Codecs V) (v : Option V) (msg : ℕ) (p : Packet)
      → encode_default pb c v msg ≡ ok p
      → (q : Packet) × HasHeader pb laws msg q
        × (find_module q module_payload ≡ err (not_found module_payload))
        × (length q.modules ≡ 1)
        × (add_payload pb c v msg (bare pb laws).metadata q ≡ ok p)
  unfolding encode_default network_encode header_bytes
  encode-HasHeader c v msg p h = elim (Result-cases (encode_header pb msg)) [
    | inl (e, f) ↦
        let refused : encode_default pb c v msg ≡ err (protocol_error e) =
          rw (encode_default, network_encode, header_bytes, f) refl in
        absurd (ground arith)
    | inr (raw, f) ↦ elim (Result-cases (add_module (bare pb laws) module_header raw)) [
      | inl (e, g) ↦
          let refused : encode_default pb c v msg ≡ err (packet_error e) =
            rw (encode_default, network_encode, header_bytes, f)
              (ap (λ r. kept r >>=ʳ add_payload pb c v msg (bare pb laws).metadata) g) in
          absurd (ground arith)
      | inr ((m, q), g) ↦
          let (has, missing, one) = add_module-HasHeader pb laws msg raw m q f g in
          (q, has, missing, one, sym (goes_on_of c v msg raw m q f g) ∙ h)
    ]
  ]

  -- A message without a value that Encode makes a packet, in the default encoding, has its kind
  -- read back from the header. The packet is valid for a notification, and refused for every
  -- other message, whose header lists a payload. The protobuf package keeps its laws.
  pub validate_packet-encode_default :
      {V : Type 0} (c : Codecs V) (msg : ℕ) (p : Packet)
      → encode_default pb c none msg ≡ ok p
      → (h : Header) × (read_header pb c p ≡ ok h)
        × (h.id ≡ msg)
        × (validate_packet pb c p h ≡ (
            if msg == message_notify then ok tt else err (packet_error (not_found module_payload))))
  unfolding validate_packet all_present is_version_supported ◌=ᵇ◌
  validate_packet-encode_default c msg p h =
      let (q, has, missing, one, is) = encode-HasHeader c none msg p h in
      let same : q ≡ p = ground arith in
      (
        header_of pb laws msg,
        read_header-HasHeader pb laws c msg p (subst (HasHeader pb laws msg) same has),
        refl,
        elim (Bool-cases (msg == message_notify)) [
          | inl notify ↦ rw notify refl
          | inr other ↦ rw (other, ← same, missing) refl
        ],
      )

  pub keeps_header :
      (msg : ℕ) (q r : Packet) (raw : Bytes) (m : Module)
      → HasHeader pb laws msg q
      → add_module q module_payload raw ≡ ok (m, r)
      → HasHeader pb laws msg r
  unfolding ◌=ᵇ◌
  keeps_header msg q r raw m has g =
      let (good, there, payload, len, others) =
        add_module-IsPacket q module_payload raw m r has.well_formed g in
      record {
        well_formed = good;
        protobuf = add_module-metadata q module_payload raw m r g ∙ has.protobuf;
        module_ = has.module_;
        found_header = others module_header ∙ has.found_header;
        decodes = has.decodes;
      }

  header_of-valid :
      {V : Type 0} (c : Codecs V) (msg : ℕ) (r : Packet) (m : Module)
      → find_module r module_payload ≡ ok m
      → validate_packet pb c r (header_of pb laws msg) ≡ ok tt
  unfolding validate_packet all_present is_version_supported ◌=ᵇ◌
  header_of-valid c msg r m there = elim (Bool-cases (msg == message_notify)) [
    | inl notify ↦ rw notify refl
    | inr other ↦ rw (other, there) refl
  ]

  add_payload-few :
      {V : Type 0} (c : Codecs V) (v : Option V) (msg : ℕ) (q p : Packet)
      → IsPacket q
      → length q.modules ≡ 1
      → add_payload pb c v msg (bare pb laws).metadata q ≡ ok p
      → IsPacket p × (1 ≤ length p.modules) × (length p.modules ≤ 2)
  add_payload-few c none msg q p good one h =
      let same : q ≡ p = ground arith in
      subst (λ x. IsPacket x × (1 ≤ length x.modules) × (length x.modules ≤ 2)) same
        (good, omega arith, omega arith)
  add_payload-few c (some v) msg q p good one h =
      elim (Result-cases (payload_bytes pb c v msg (bare pb laws).metadata)) [
        | inl (e, f) ↦ absurd (ground arith)
        | inr (raw, f) ↦ elim (Result-cases (add_module q module_payload raw)) [
          | inl (e, g) ↦ absurd (ground arith)
          | inr ((m, r), g) ↦
              let (good', there, payload, len, others) =
                add_module-IsPacket q module_payload raw m r good g in
              let same : r ≡ p = ground arith in
              subst (λ x. IsPacket x × (1 ≤ length x.modules) × (length x.modules ≤ 2)) same
                (good', omega arith, omega arith)
        ]
      ]

  -- A message is a well-formed packet of one or two modules.
  pub encode_default-IsPacket :
      {V : Type 0} (c : Codecs V) (v : Option V) (msg : ℕ) (p : Packet)
      → encode_default pb c v msg ≡ ok p
      → IsPacket p × (1 ≤ length p.modules) × (length p.modules ≤ 2)
  encode_default-IsPacket c v msg p h =
      let (q, has, missing, one, is) = encode-HasHeader c v msg p h in
      add_payload-few c v msg q p has.well_formed one is

  -- The encoder that has made a message's payload.
  pub encode_default-encoder :
      {V : Type 0} (c : Codecs V) (v : V) (msg : ℕ) (p : Packet)
      → encode_default pb c (some v) msg ≡ ok p
      → (enc : V → Option Bytes) × (c.payload_encoders msg ≡ some enc)
        × (raw : Bytes) × (enc v ≡ some raw)
  unfolding payload_bytes
  encode_default-encoder c v msg p h =
      let (q, has, missing, one, is) = encode-HasHeader c (some v) msg p h in
      elim (Option-cases (c.payload_encoders msg)) [
        | inl e ↦
            let refused : add_payload pb c (some v) msg (bare pb laws).metadata q ≡ err panic =
              rw (payload_bytes, e) refl in
            absurd (ground arith)
        | inr (enc, e) ↦ elim (Option-cases (enc v)) [
          | inl f ↦
              let refused : add_payload pb c (some v) msg (bare pb laws).metadata q
                  ≡ err payload_encode_failed =
                rw (payload_bytes, e, f) refl in
              absurd (ground arith)
          | inr (raw, f) ↦ (enc, e, raw, f)
        ]
      ]

  -- A message with a value that Encode makes a packet, in the default encoding, is decoded to what
  -- the decoder of its kind makes of the bytes that the kind's encoder wrote. The protobuf package keeps its laws.
  pub network_decode-encode_default :
      {V : Type 0} (c : Codecs V) (v v' : V) (msg : ℕ) (p : Packet) (enc : V → Option Bytes)
      (dec : Bytes → Option V)
      → c.payload_encoders msg ≡ some enc
      → c.payload_decoders msg ≡ some dec
      → ((raw : Bytes) → enc v ≡ some raw → dec raw ≡ some v')
      → encode_default pb c (some v) msg ≡ ok p
      → network_decode pb c p module_payload ≡ ok v'
  unfolding network_decode payload_bytes payload_decoder
  network_decode-encode_default c v v' msg p enc dec has_enc has_dec back h =
      let (q, has, missing, one, is) = encode-HasHeader c (some v) msg p h in
      elim (Option-cases (enc v)) [
        | inl e ↦
            let refused : add_payload pb c (some v) msg (bare pb laws).metadata q
                ≡ err payload_encode_failed =
              rw (payload_bytes, has_enc, e) refl in
            absurd (ground arith)
        | inr (raw, e) ↦ elim (Result-cases (add_module q module_payload raw)) [
          | inl (x, g) ↦
              let refused : add_payload pb c (some v) msg (bare pb laws).metadata q
                  ≡ err (packet_error x) =
                rw (payload_bytes, has_enc, e) (ap kept g) in
              absurd (ground arith)
          | inr ((m, r), g) ↦
              let (good, there, payload, len, others) =
                add_module-IsPacket q module_payload raw m r has.well_formed g in
              let made : add_payload pb c (some v) msg (bare pb laws).metadata q ≡ ok r =
                rw (payload_bytes, has_enc, e) (ap kept g) in
              let same : r ≡ p = ground arith in
              let has_r = keeps_header msg q r raw m has g in
              let valid : validate_packet pb c r (header_of pb laws msg) ≡ ok tt =
                header_of-valid c msg r m there in
              let decoded : payload_decoder pb c msg r.metadata m.payload ≡ ok v' =
                rw (payload_decoder, has_r.protobuf, has_dec, payload, back raw e) refl in
              subst (λ x. network_decode pb c x module_payload ≡ ok v') same
                (rw (network_decode, read_header-HasHeader pb laws c msg r has_r, valid, there)
                  decoded)
        ]
      ]
