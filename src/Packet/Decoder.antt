-- ===== src/Packet/Decoder.antt =====
-- network/packet/decoder.go: a packet read from a stream.
pub mod Reads
pub mod RoundTrip
use booster.Common.{ℕ, zero, suc, Bytes, none, some, get_or, be16}
use booster.Common.Result.{Result, ok, err, Exec, ◌>>=◌, pure}
use booster.Common.Dict.{insert}
use booster.Packet.Stream.{eof, Reader, read_full, wrap}
use booster.Packet.Types.{
  Place, packet_open_tag, encoding, compression, encryption, packet_separator, modules_number,
  packet_close_tag, module_open_tag, module_id, module_separator, payload_size, module_payload,
  module_close_tag, Error, failed, unexpected_closing_tag, TagSet, Metadata, Module, Packet,
}
use booster.Packet.Tag.{TagReader, TagRead, new_tag_reader, flush, read}

-- `if _, err := t.Read(buf); err != io.EOF { return err }`
abbrev whole_tag : Place → TagRead → Result Error TagReader × Reader
whole_tag place r = elim r.error [
  | some eof ↦ (ok r.tags, r.reader)
  | e ↦ (err (failed place e), r.reader)
]

-- `if _, err = t.Read(buf); err != nil && err != io.EOF { return err }`
abbrev part_tag : Place → TagRead → Result Error TagReader × Reader
part_tag place r = elim r.error [
  | none ↦ (ok r.tags, r.reader)
  | some eof ↦ (ok r.tags, r.reader)
  | e ↦ (err (failed place e), r.reader)
]

-- `ctr.Read(buf)` behind the last module
abbrev pub closing_tag : Packet → TagRead → Result Error Packet × Reader
closing_tag p r = elim r.error [
  | none ↦ (err (unexpected_closing_tag r.buf), r.reader)
  | some eof ↦ (ok p, r.reader)
  | e ↦ (err (failed packet_close_tag e), r.reader)
]

unfoldable pub expect_whole : Place → TagReader → ℕ → Exec Reader Error TagReader
expect_whole place t n r = whole_tag place (read t n r)

unfoldable pub expect_part : Place → TagReader → ℕ → Exec Reader Error TagReader
expect_part place t n r = part_tag place (read t n r)

unfoldable pub expect_closing : TagReader → Packet → Exec Reader Error Packet
expect_closing t p r = closing_tag p (read t 4 r)

abbrev pub full : Place → ℕ → Exec Reader Error Bytes
full place n = wrap (λ e. failed place (some e)) (read_full n)

-- ModuleDecoder.Decode. The closing tag is read into a buffer of the payload's size.
unfoldable pub decode_module : TagSet → Exec Reader Error Module
decode_module t = do
  otr ← expect_whole module_open_tag (new_tag_reader t.module_opening_tag) 2
  id ← full module_id 2
  sr ← expect_whole module_separator (new_tag_reader t.separator) 2
  buf ← full payload_size 2
  let size = be16 (get_or buf 0 0) (get_or buf 1 0)
  sr' ← expect_whole module_separator (flush sr) 2
  payload ← full module_payload size
  ctr ← expect_whole module_close_tag (new_tag_reader t.module_closing_tag) size
  pure (record { id = id; size = size; payload = payload })

-- The loop of `Decode`; the number is mn - i. A second module with one id replaces the first.
unfoldable pub decode_modules : TagSet → TagReader → ℕ → Packet → Exec Reader Error Packet
decode_modules t ctr zero p = expect_closing ctr p
decode_modules t ctr (suc n) p = do
  m ← decode_module t
  decode_modules t ctr n (record p { modules = insert m.id m p.modules })

-- The first part of Decoder.Decode: the opening tag and the metadata.
unfoldable pub decode_metadata : TagSet → Exec Reader Error Metadata
decode_metadata t = do
  otr ← expect_whole packet_open_tag (new_tag_reader t.packet_opening_tag) 4
  enc ← full encoding 1
  str ← expect_part packet_separator (new_tag_reader t.separator) 1
  cmp ← full compression 1
  str' ← expect_part packet_separator (flush str) 1
  enr ← full encryption 1
  str'' ← expect_part packet_separator (flush str') 1
  pure (record {
    encoding = get_or enc 0 0;
    compression = get_or cmp 0 0;
    encryption = get_or enr 0 0;
  })

-- Decoder.Decode. The packet that it has begun to fill is dropped by the callers on an error.
unfoldable pub decode : TagSet → Packet → Exec Reader Error Packet
decode t p = do
  meta ← decode_metadata t
  mn ← full modules_number 1
  let ctr = new_tag_reader t.packet_closing_tag
  decode_modules t ctr (get_or mn 0 0) (record p { metadata = meta })
