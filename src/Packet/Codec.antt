-- ===== src/Packet/Codec.antt =====
-- The encoder and the decoder together.
use booster.Common.{
  inr, inl, ◌⊎◌, refl, ◌∙◌, length-append, ap, arith, some, ◌<◌, ◌∷◌, ◌≢◌, ◌++◌, ◌≤◌, ◌≡◌, length,
  All, Bytes, [], ℕ,
}
use booster.Packet.Encoder.{encode}
use booster.Packet.Decoder.{closing_tag, decode, expect_closing}
use booster.Packet.Types.{packet_close_tag, failed, new, Module, Packet, TagSet}
use booster.Common.Dict.{values, Dict}
use booster.Packet.Stream.{eof, IoError, Writer}
use booster.Packet.Decoder.RoundTrip.{decode_run, decode-wire, IsPacket, TagsFit, Keyed}
use booster.Packet.Wire.{IsEncodable, wire_open, wire}
use booster.Packet.Tag.{TagRead}
use booster.Packet.Decoder.Reads.{stream}
use booster.Common.Result.{err, ok}
use booster.Packet.Encoder.Sends.{encode-Writes}
use booster.Packet.Tag.Matches.{read_short}

pub Keyed-ids : (d : Dict Module) → Keyed d → All (λ (m : Module). length m.id ≡ 2) (values d)
Keyed-ids [] h = tt
Keyed-ids ((k, m) ∷ d) h = (h.1.two_letters, Keyed-ids d h.2)

abbrev pub blank : ℕ → Writer
blank room = record { written = []; room = room }

-- What `Encode` writes for a well-formed packet of 1 to 255 modules, to a writer that takes it all,
-- `Decode` reads back into the same packet, its modules in the order in which they were written,
-- and it leaves the bytes that follow. The tags fit the decoder's buffers.
pub decode-encode :
    (t : TagSet) (p : Packet) (room : ℕ) (rest : Bytes) (f : IoError)
    → TagsFit t
    → IsPacket p
    → 1 ≤ length p.modules
    → length p.modules ≤ 255
    → length (wire t p) ≤ room
    → decode t new (stream ((encode t p (blank room)).1.written ++ rest) f) ≡ (ok p, stream rest f)
decode-encode t p room rest f fit h some_ few fits =
    let can : IsEncodable p = record {
      some_modules = some_;
      few_modules = few;
      ids = Keyed-ids p.modules h.keyed;
    } in
    rw ((encode-Writes t p can).fits (blank room) fits) (decode-wire t p rest f fit h few)

abbrev cut_read : Bytes → Bytes → IoError → TagRead
cut_read s u f = record {
  tags = record { tag = s ++ u; cur = length s };
  buf = s;
  error = some f;
  reader = stream [] f;
}

closing_cut :
    (t : TagSet) (p : Packet) (s u : Bytes) (f : IoError)
    → TagsFit t
    → IsPacket p
    → length p.modules ≤ 255
    → t.packet_closing_tag ≡ s ++ u
    → 0 < length u
    → decode t new (stream (wire_open t p ++ s) f) ≡ closing_tag p (cut_read s u f)
unfolding expect_closing
closing_cut t p s u f fit h few cut more =
    let short : length s < 4 =
      omega (arith, fit.packet_closing, ap (length {A = ℕ}) cut, length-append s u) in
    decode_run t p s f fit h few ∙ rw (cut, read_short s u 4 f more short)

closing-ne-eof :
    (p : Packet) (s u : Bytes) (f : IoError)
    → f ≢ eof
    → closing_tag p (cut_read s u f) ≡ (err (failed packet_close_tag (some f)), stream [] f)
closing-ne-eof p s u f ne = ground arith

closing_eof :
    (p : Packet) (s u : Bytes) (f : IoError)
    → f ≡ eof
    → closing_tag p (cut_read s u f) ≡ (ok p, stream [] f)
closing_eof p s u f is = ground arith

eof-cases : (f : IoError) → (f ≡ eof) ⊎ (f ≢ eof)
eof-cases eof = inl refl
eof-cases f = inr (λ e. cc)

-- A well-formed packet of at most 255 modules whose closing tag the stream cuts short is accepted
-- if the stream ends with io.EOF, and refused with the stream's error else. The tags fit the
-- decoder's buffers.
pub decode_unclosed :
    (t : TagSet) (p : Packet) (s u : Bytes) (f : IoError)
    → TagsFit t
    → IsPacket p
    → length p.modules ≤ 255
    → t.packet_closing_tag ≡ s ++ u
    → 0 < length u
    → ((f ≡ eof) × (decode t new (stream (wire_open t p ++ s) f) ≡ (ok p, stream [] f)))
      ⊎ ((f ≢ eof)
          × (decode t new (stream (wire_open t p ++ s) f)
              ≡ (err (failed packet_close_tag (some f)), stream [] f)))
decode_unclosed t p s u f fit h few cut more = elim (eof-cases f) [
  | inl is ↦ inl (is, closing_cut t p s u f fit h few cut more ∙ closing_eof p s u f is)
  | inr ne ↦ inr (ne, closing_cut t p s u f fit h few cut more ∙ closing-ne-eof p s u f ne)
]
