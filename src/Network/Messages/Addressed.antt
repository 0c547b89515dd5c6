-- ===== src/Network/Messages/Addressed.antt =====
-- The kind of a message, read by a node that does not know it yet.
use booster.Common.{ℕ, ◌≡◌, inl, inr, Option, none, some, arith, subst}
use booster.Common.Result.{Result-cases, ok}
use booster.Packet.Types.{Packet, add_module}
use booster.Protocol.{Protobuf, module_payload}
use booster.Network.Messages.{Codecs, encode_default, add_payload, payload_bytes, read_header}
use booster.Network.Messages.Headers.{Marshals, HasHeader, bare, header_of, read_header-HasHeader}
use booster.Network.Messages.Delivered.{encode-HasHeader, keeps_header}

module _ (pb : Protobuf) (laws : Marshals pb) where
  add_payload-HasHeader :
      {V : Type 0} (c : Codecs V) (v : Option V) (msg : ℕ) (q p : Packet)
      → HasHeader pb laws msg q
      → add_payload pb c v msg (bare pb laws).metadata q ≡ ok p
      → HasHeader pb laws msg p
  add_payload-HasHeader c none msg q p has h =
      let same : q ≡ p = ground arith in subst (HasHeader pb laws msg) same has
  add_payload-HasHeader c (some v) msg q p has h =
      elim (Result-cases (payload_bytes pb c v msg (bare pb laws).metadata)) [
        | inl (e, f) ↦ absurd (ground arith)
        | inr (raw, f) ↦ elim (Result-cases (add_module q module_payload raw)) [
          | inl (e, g) ↦ absurd (ground arith)
          | inr ((m, r), g) ↦
              let same : r ≡ p = ground arith in
              subst (HasHeader pb laws msg) same (keeps_header pb laws msg q r raw m has g)
        ]
      ]

  -- Whatever type of value the node would decode, it reads the header that Encode wrote.
  pub read_header-encode_default :
      {V W : Type 0} (c : Codecs V) (d : Codecs W) (v : Option V) (msg : ℕ) (p : Packet)
      → encode_default pb c v msg ≡ ok p
      → read_header pb d p ≡ ok (header_of pb laws msg)
  read_header-encode_default c d v msg p h =
      let (q, has, missing, one, is) = encode-HasHeader pb laws c v msg p h in
      read_header-HasHeader pb laws d msg p (add_payload-HasHeader c v msg q p has is)
