-- ===== src/Packet/Encoder.antt =====
-- network/packet/encoder.go: what a packet looks like on the wire.
pub mod Writes
pub mod Sends
use booster.Common.{Bool, true, false, ◌/◌, ◌%◌, ◌==◌, ltb, length, ◌||◌, not, List, [], ◌∷◌, some}
use booster.Common.Result.{Exec, ◌>>◌, pure, raise}
use booster.Common.Dict.{values}
use booster.Packet.Stream.{IoError, Writer, write, wrap}
use booster.Packet.Types.{
  Place, packet_open_tag, encoding, compression, encryption, packet_separator, modules_number,
  packet_close_tag, module_open_tag, module_id, module_separator, payload_size, module_payload,
  module_close_tag, Error, failed, too_many_modules, bad_id, TagSet, Metadata, Module, Packet,
}
use booster.Packet.Tag.{write_tag}

abbrev at_place : Place → Exec Writer IoError (Unit {0}) → Exec Writer Error (Unit {0})
at_place place = wrap (λ e. failed place (some e))

-- `if !ok { return err }`
abbrev check : {S : Type 0} → Bool → Error → Exec S Error (Unit {0})
check true e = pure tt
check false e = raise e

-- ModuleEncoder.Encode
unfoldable pub encode_module : TagSet → Module → Exec Writer Error (Unit {0})
encode_module t m = do
  at_place module_open_tag (write_tag t.module_opening_tag)
  check (length m.id == 2) (bad_id m.id)
  at_place module_id (write m.id)
  at_place module_separator (write_tag t.separator)
  at_place payload_size (write (m.size / 256 % 256 ∷ m.size % 256 ∷ []))
  at_place module_separator (write_tag t.separator)
  at_place module_payload (write m.payload)
  at_place module_close_tag (write_tag t.module_closing_tag)

-- `for _, m := range p.modules`
unfoldable pub encode_modules : TagSet → List Module → Exec Writer Error (Unit {0})
encode_modules t [] = pure tt
encode_modules t (m ∷ ms) = do encode_module t m; encode_modules t ms

-- The first part of Encoder.Encode: the opening tag and the metadata.
unfoldable pub encode_metadata : TagSet → Metadata → Exec Writer Error (Unit {0})
encode_metadata t m = do
  at_place packet_open_tag (write_tag t.packet_opening_tag)
  at_place encoding (write (m.encoding ∷ []))
  at_place packet_separator (write_tag t.separator)
  at_place compression (write (m.compression ∷ []))
  at_place packet_separator (write_tag t.separator)
  at_place encryption (write (m.encryption ∷ []))
  at_place packet_separator (write_tag t.separator)

-- Encoder.Encode. The number of modules is checked after the metadata is written.
unfoldable pub encode : TagSet → Packet → Exec Writer Error (Unit {0})
encode t p = do
  encode_metadata t p.metadata
  let mn = length p.modules
  check (not (ltb mn 1 || ltb 0xff mn)) too_many_modules
  at_place modules_number (write (mn % 256 ∷ []))
  encode_modules t (values p.modules)
  at_place packet_close_tag (write_tag t.packet_closing_tag)
