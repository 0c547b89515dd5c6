-- ===== src/Packet/Encoder/Sends.antt =====
-- The encoder against the wire format.
use mathlib.Core.List.{append_assoc}
use booster.Common.{
  ◌≤◌, ◌<◌, ◌≡◌, refl, ◌⊎◌, arith, length, ltb, ◌==◌, ◌||◌, not, true, false, List, [], ◌∷◌, Bytes,
  All,
}
use booster.Common.Result.{err}
use booster.Common.Dict.{values}
use booster.Packet.Stream.{Writer, advance, write}
use booster.Packet.Types.{Place, too_many_modules, TagSet, Metadata, Module, Packet}
use booster.Packet.Tag.{write_tag}
use booster.Packet.Wire.{wire_module, wire_modules, wire_metadata, wire, IsEncodable}
use booster.Packet.Encoder.{at_place, encode_module, encode_modules, encode_metadata, encode}
use booster.Packet.Encoder.Writes.{Writes, Writes-write, Writes-pure, Writes->>}

Writes-at_place : (place : Place) (bs : Bytes) → Writes bs (at_place place (write bs))
Writes-at_place place bs = Writes-write _ bs

Writes-tag : (place : Place) (bs : Bytes) → Writes bs (at_place place (write_tag bs))
unfolding write_tag
Writes-tag place bs = Writes-at_place place bs

encode_module-Writes :
    (t : TagSet) (m : Module) → length m.id ≡ 2 → Writes (wire_module t m) (encode_module t m)
unfolding encode_module
encode_module-Writes t m h =
    let two : (length m.id == 2) ≡ true = ground arith in
    rw two (
      Writes->> (Writes-tag _ _) (
        Writes->> (Writes-at_place _ _) (
          Writes->> (Writes-tag _ _) (
            Writes->> (Writes-at_place _ _)
              (Writes->> (Writes-tag _ _) (Writes->> (Writes-at_place _ _) (Writes-tag _ _)))))))

encode_modules-Writes :
    (t : TagSet) (ms : List Module)
    → All (λ (m : Module). length m.id ≡ 2) ms
    → Writes (wire_modules t ms) (encode_modules t ms)
unfolding encode_modules wire_modules
encode_modules-Writes t [] h = Writes-pure
encode_modules-Writes t (m ∷ ms) h =
    Writes->> (encode_module-Writes t m h.0) (encode_modules-Writes t ms h.1)

encode_metadata-Writes :
    (t : TagSet) (m : Metadata) → Writes (wire_metadata t m) (encode_metadata t m)
unfolding encode_metadata
encode_metadata-Writes t m = Writes->> (Writes-tag _ _) (
    Writes->> (Writes-at_place _ _) (
      Writes->> (Writes-tag _ _) (
        Writes->> (Writes-at_place _ _)
          (Writes->> (Writes-tag _ _) (Writes->> (Writes-at_place _ _) (Writes-tag _ _))))))

-- A packet with 1 to 255 modules, each with an id of two bytes, is written as the wire format
-- says: whole if the writer has room, and else as far as it goes, with an error.
pub encode-Writes : (t : TagSet) (p : Packet) → IsEncodable p → Writes (wire t p) (encode t p)
unfolding encode
encode-Writes t p h =
    let count : not (ltb (length p.modules) 1 || ltb 255 (length p.modules)) ≡ true =
      ground arith in
    rw (append_assoc (wire_metadata t p.metadata) _ _) (
      Writes->> (encode_metadata-Writes t p.metadata) (
        rw count (
          Writes->> (Writes-at_place _ _)
            (Writes->> (encode_modules-Writes t (values p.modules) h.ids) (Writes-tag _ _)))))

-- A packet with no module, or with more than 255, is refused when its metadata is already sent, to
-- a writer with room for that.
pub encode_too_many :
    (t : TagSet) (p : Packet) (w : Writer)
    → (length p.modules < 1) ⊎ (255 < length p.modules)
    → length (wire_metadata t p.metadata) ≤ w.room
    → encode t p w ≡ (err too_many_modules, advance (wire_metadata t p.metadata) w)
unfolding encode
encode_too_many t p w h fits =
    let count : not (ltb (length p.modules) 1 || ltb 255 (length p.modules)) ≡ false =
      ground arith in
    rw ((encode_metadata-Writes t p.metadata).fits w fits) (rw count refl)
