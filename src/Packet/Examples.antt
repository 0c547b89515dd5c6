-- ===== src/Packet/Examples.antt =====
-- Runs of network/packet at given packets.
use booster.Common.{some, ◌≢◌, ◌⊎◌, ◌=ᵇ◌, ◌++◌, ◌≡◌, ◌≤◌, length, refl, [], ◌∷◌, arith, Bytes}
use booster.Packet.Types.{
  new, packet_close_tag, failed, new_module, add_module, TagSet, Module, Packet,
}
use booster.Packet.Decoder.RoundTrip.{IsPacket, TagsFit, IsModule}
use booster.Packet.Wire.{wire_open, wire, wire_metadata, IsEncodable, wire_modules}
use booster.Common.Dict.{insert, lookup}
use booster.Packet.Decoder.{decode}
use booster.Packet.Encoder.{encode}
use booster.Packet.Encoder.Writes.{Writes}
use booster.Packet.Encoder.Sends.{encode-Writes}
use booster.Packet.Decoder.Reads.{stream}
use booster.Packet.Codec.{decode_unclosed, decode-encode, blank}
use booster.Common.Result.{err, ok}
use booster.Packet.Stream.{eof}

-- The tags of the protocol.
abbrev tags : TagSet
tags = record {
  packet_opening_tag = b'>' ∷ [];
  packet_closing_tag = b'<' ∷ [];
  module_opening_tag = b'[' ∷ [];
  module_closing_tag = b']' ∷ [];
  separator = b':' ∷ [];
}

tags-TagsFit : TagsFit tags
tags-TagsFit = record {
  packet_opening = omega arith;
  packet_closing = omega arith;
  module_opening = omega arith;
  module_closing = omega arith;
  separator = omega arith;
}

abbrev header_id : Bytes
header_id = b'H' ∷ b'E' ∷ []

abbrev payload_id : Bytes
payload_id = b'P' ∷ b'A' ∷ []

abbrev header : Module
header = record { id = header_id; size = 3; payload = 1 ∷ b'<' ∷ 3 ∷ [] }

abbrev content : Module
content = record { id = payload_id; size = 2; payload = 9 ∷ 8 ∷ [] }

abbrev pub one_module : Packet
one_module = record {
  metadata = record { encoding = 1; compression = 1; encryption = 1 };
  modules = (header_id, header) ∷ [];
}

abbrev pub two_modules : Packet
two_modules = record {
  metadata = record { encoding = 1; compression = 1; encryption = 1 };
  modules = (header_id, header) ∷ (payload_id, content) ∷ [];
}

header-IsModule : IsModule header
header-IsModule = record {
  two_letters = refl;
  has_size = refl;
  not_empty = omega arith;
  not_long = omega arith;
}

content-IsModule : IsModule content
content-IsModule = record {
  two_letters = refl;
  has_size = refl;
  not_empty = omega arith;
  not_long = omega arith;
}

pub two_modules-IsPacket : IsPacket two_modules
unfolding lookup ◌=ᵇ◌
two_modules-IsPacket = record {
  keyed = (refl, header-IsModule, (refl, content-IsModule, tt));
  is_map = (refl, (refl, tt));
}

pub one_module-IsPacket : IsPacket one_module
unfolding lookup ◌=ᵇ◌
one_module-IsPacket = record { keyed = (refl, header-IsModule, tt); is_map = (refl, tt) }

two_modules-fit : length (wire tags two_modules) ≤ 100
unfolding wire_modules
two_modules-fit = omega arith

decode-encode_example :
    decode tags new (stream ((encode tags two_modules (blank 100)).1.written ++ 7 ∷ []) eof)
    ≡ (ok two_modules, stream (7 ∷ []) eof)
decode-encode_example =
    decode-encode tags two_modules 100 (7 ∷ []) eof tags-TagsFit two_modules-IsPacket (omega arith)
      (omega arith) two_modules-fit

two_modules-IsEncodable : IsEncodable two_modules
two_modules-IsEncodable = record {
  some_modules = omega arith;
  few_modules = omega arith;
  ids = (refl, (refl, tt));
}

encode-Writes_example : Writes (wire tags two_modules) (encode tags two_modules)
encode-Writes_example = encode-Writes tags two_modules two_modules-IsEncodable

metadata-fits : length (wire_metadata tags new.metadata) ≤ 100
metadata-fits = omega arith

decode_unclosed_example :
    ((eof ≡ eof)
      × (decode tags new (stream (wire_open tags two_modules ++ []) eof)
          ≡ (ok two_modules, stream [] eof)))
    ⊎ ((eof ≢ eof)
        × (decode tags new (stream (wire_open tags two_modules ++ []) eof)
            ≡ (err (failed packet_close_tag (some eof)), stream [] eof)))
decode_unclosed_example =
    decode_unclosed tags two_modules [] (b'<' ∷ []) eof tags-TagsFit two_modules-IsPacket
      (omega arith) refl (omega arith)

added : add_module one_module payload_id (9 ∷ 8 ∷ []) ≡ ok (content, two_modules)
unfolding add_module new_module lookup insert ◌=ᵇ◌
added = refl
