-- ===== src/Packet/Decoder/RoundTrip.antt =====
-- The decoder reads back what the wire format says.
use mathlib.Core.List.{append-nil, append_assoc}
use booster.Common.{
  ◌∙◌, ◌/◌, ◌%◌, ◌≤◌, ◌≡◌, refl, sym, subst, Bytes, arith, length, [], ◌∷◌, ◌++◌, be16-bytes,
}
use booster.Common.Dict.{Dict, values, IsMap, insert_new, IsMap-append_fresh}
use booster.Packet.Stream.{IoError}
use booster.Packet.Types.{TagSet, Metadata, Module, Packet, new}
use booster.Packet.Tag.{new_tag_reader}
use booster.Packet.Tag.Matches.{read_whole}
use booster.Packet.Wire.{wire_open, wire_module, wire_modules, wire_metadata, wire}
use booster.Packet.Decoder.{
  ok, decode_module, decode_modules, decode_metadata, decode, expect_closing,
}
use booster.Packet.Decoder.Reads.{
  stream, Reads, Reads-bind, Reads-run, Reads-last, Reads-full, Reads-whole, Reads-part,
}

-- The buffers that `Decode` has for the tags. A module's closing tag is read into a buffer as long
-- as the module's payload, which is never empty.
pub record TagsFit (t : TagSet) : Type 0 where
  pub packet_opening : length t.packet_opening_tag ≤ 4
  pub packet_closing : length t.packet_closing_tag ≤ 4
  pub module_opening : length t.module_opening_tag ≤ 2
  pub module_closing : length t.module_closing_tag ≤ 1
  pub separator : length t.separator ≤ 1

-- A module as `NewModule` makes it.
pub record IsModule (m : Module) : Type 0 where
  pub two_letters : length m.id ≡ 2
  pub has_size : m.size ≡ length m.payload
  pub not_empty : 1 ≤ m.size
  pub not_long : m.size ≤ 0xffff

decode_module-Reads :
    (t : TagSet) (m : Module) → TagsFit t → IsModule m → Reads (wire_module t m) (decode_module t) m
unfolding decode_module
decode_module-Reads t m fit h = Reads-bind _ (Reads-whole _ _ 2 fit.module_opening) (
    Reads-bind _ (Reads-full _ 2 m.id h.two_letters) (
      Reads-bind _ (Reads-whole _ _ 2 (omega arith)) (
        Reads-bind _ (Reads-full _ 2 (m.size / 256 % 256 ∷ m.size % 256 ∷ []) refl) (
          Reads-bind _ (Reads-whole _ _ 2 (omega arith)) (
            rw (be16-bytes m.size (omega arith)) (
              Reads-bind _ (Reads-full _ m.size m.payload (sym h.has_size))
                (Reads-last _ (Reads-whole _ _ m.size (omega arith)))))))))

-- The entries of a map whose keys are the ids of the modules under them.
abbrev pub Keyed : Dict Module → Type 0
Keyed [] = Unit {0}
Keyed ((k, m) ∷ d) = (k ≡ m.id) × IsModule m × Keyed d

-- The modules go into the map in the order of the stream; then the closing tag is read.
decode_modules_run :
    (t : TagSet) (d : Dict Module) (p : Packet) (rest : Bytes) (f : IoError)
    → TagsFit t
    → Keyed d
    → IsMap (p.modules ++ d)
    → let ctr = new_tag_reader t.packet_closing_tag in
      decode_modules t ctr (length d) p (stream (wire_modules t (values d) ++ rest) f)
      ≡ expect_closing ctr (record p { modules = p.modules ++ d }) (stream rest f)
unfolding decode_modules wire_modules
decode_modules_run t [] p rest f fit ks h = rw append-nil
decode_modules_run t ((k, m) ∷ d) p rest f fit (key, good, keys) h =
    let h' : IsMap (p.modules ++ (m.id, m) ∷ d) =
      subst (λ (i : Bytes). IsMap (p.modules ++ (i, m) ∷ d)) key h in
    rw (append_assoc (wire_module t m) _ _) (
      Reads-run _ _ f (decode_module-Reads t m fit good)
      ∙ rw (insert_new m.id m p.modules (IsMap-append_fresh p.modules m.id m d h'), key)
          (rw (append_assoc p.modules ((m.id, m) ∷ []) d) at (
            decode_modules_run t d (record p { modules = p.modules ++ (m.id, m) ∷ [] }) rest f fit
              keys (rw (append_assoc p.modules ((m.id, m) ∷ []) d) h'))))

decode_metadata-Reads :
    (t : TagSet) (m : Metadata) → TagsFit t → Reads (wire_metadata t m) (decode_metadata t) m
unfolding decode_metadata
decode_metadata-Reads t m fit = Reads-bind _ (Reads-whole _ _ 4 fit.packet_opening) (
    Reads-bind _ (Reads-full _ 1 (m.encoding ∷ []) refl) (
      Reads-bind _ (Reads-part _ _ 1 fit.separator) (
        Reads-bind _ (Reads-full _ 1 (m.compression ∷ []) refl) (
          Reads-bind _ (Reads-part _ _ 1 fit.separator) (
            Reads-bind _ (Reads-full _ 1 (m.encryption ∷ []) refl)
              (Reads-last _ (Reads-part _ _ 1 fit.separator)))))))

-- A packet as the program builds it: a map of modules under their ids.
pub record IsPacket (p : Packet) : Type 0 where
  pub keyed : Keyed p.modules
  pub is_map : IsMap p.modules

-- The decoder reads a packet up to its closing tag, whatever comes next.
pub decode_run :
    (t : TagSet) (p : Packet) (rest : Bytes) (f : IoError)
    → TagsFit t
    → IsPacket p
    → length p.modules ≤ 255
    → decode t new (stream (wire_open t p ++ rest) f)
      ≡ expect_closing (new_tag_reader t.packet_closing_tag) p (stream rest f)
unfolding decode
decode_run t p rest f fit h few =
    let small : length p.modules % 256 ≡ length p.modules = omega arith in
    rw (append_assoc (wire_metadata t p.metadata) _ rest, small)
      (Reads-run _ _ f (decode_metadata-Reads t p.metadata fit)
        ∙ Reads-run _ _ f (Reads-full _ 1 (length p.modules ∷ []) refl)
        ∙ decode_modules_run t p.modules (record new { metadata = p.metadata }) rest f fit h.keyed
            h.is_map)

-- From the wire form of a well-formed packet of at most 255 modules, the decoder reads exactly the
-- packet's bytes, whatever follows them, and returns the packet. The tags fit the decoder's
-- buffers.
pub decode-wire :
    (t : TagSet) (p : Packet) (rest : Bytes) (f : IoError)
    → TagsFit t
    → IsPacket p
    → length p.modules ≤ 255
    → decode t new (stream (wire t p ++ rest) f) ≡ (ok p, stream rest f)
unfolding expect_closing
decode-wire t p rest f fit h few = rw (append_assoc (wire_open t p) t.packet_closing_tag rest) (
    decode_run t p _ f fit h few ∙ rw (read_whole t.packet_closing_tag rest 4 f fit.packet_closing))
