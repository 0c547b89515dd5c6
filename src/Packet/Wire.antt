-- ===== src/Packet/Wire.antt =====
-- The wire format, written down without the encoder: what a packet is on a stream.
use booster.Common.{◌/◌, ◌%◌, ◌≤◌, ◌≡◌, length, List, [], ◌∷◌, ◌++◌, Bytes, All}
use booster.Common.Dict.{values}
use booster.Packet.Types.{TagSet, Metadata, Module, Packet}

abbrev pub wire_module : TagSet → Module → Bytes
wire_module t m =
    t.module_opening_tag
    ++ (m.id
        ++ (t.separator
            ++ ((m.size / 256 % 256 ∷ m.size % 256 ∷ [])
                ++ (t.separator ++ (m.payload ++ t.module_closing_tag)))))

unfoldable pub wire_modules : TagSet → List Module → Bytes
wire_modules t [] = []
wire_modules t (m ∷ ms) = wire_module t m ++ wire_modules t ms

-- The opening tag and the metadata.
abbrev pub wire_metadata : TagSet → Metadata → Bytes
wire_metadata t m =
    t.packet_opening_tag
    ++ ((m.encoding ∷ [])
        ++ (t.separator
            ++ ((m.compression ∷ []) ++ (t.separator ++ ((m.encryption ∷ []) ++ t.separator)))))

-- All of a packet but its closing tag.
abbrev pub wire_open : TagSet → Packet → Bytes
wire_open t p =
    wire_metadata t p.metadata
    ++ ((length p.modules % 256 ∷ []) ++ wire_modules t (values p.modules))

abbrev pub wire : TagSet → Packet → Bytes
wire t p = wire_open t p ++ t.packet_closing_tag

-- What `Encode` asks of a packet.
pub record IsEncodable (p : Packet) : Type 0 where
  pub some_modules : 1 ≤ length p.modules
  pub few_modules : length p.modules ≤ 255
  pub ids : All (λ (m : Module). length m.id ≡ 2) (values p.modules)
