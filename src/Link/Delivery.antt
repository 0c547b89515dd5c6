-- ===== src/Link/Delivery.antt =====
-- Packets that are sent over a connection, as the other side consumes them.
use booster.Common.{
  ℕ, ◌+◌, ◌-◌, zero, suc, ◌≤◌, ◌<◌, ◌≡◌, refl, ap, ◌∙◌, sym, none, some, List, [], ◌∷◌, ◌++◌, arith,
  Bytes, length, length-append, All, Bool-cases, ◌==◌, inl, inr,
}
use booster.Common.Result.{Result, ok, err}
use booster.Packet.Types.{TagSet, Packet, new, failed, encoding}
use booster.Packet.Stream.{Reader, Writer, eof, advance, IoError, read_full}
use booster.Packet.Wire.{wire, IsEncodable}
use booster.Packet.Encoder.Writes.{advance-nil, advance-advance}
use booster.Packet.Encoder.Sends.{encode-Writes}
use booster.Packet.Decoder.{decode, decode_metadata, expect_whole}
use booster.Packet.Tag.{read, read_loop}
use booster.Packet.Decoder.Reads.{stream}
use booster.Packet.Decoder.RoundTrip.{IsPacket, TagsFit, decode-wire}
use booster.Packet.Codec.{blank, Keyed-ids}
use booster.Link.{
  Error, Config, Conn, open_conn, send_packet, with_packet, recv, consume, consume_turn, consumed,
  after_decode, keep_packet, loop_on,
}

-- What the two ends ask of a packet.
pub record Sendable (p : Packet) : Type 0 where
  pub well_formed : IsPacket p
  pub some_modules : 1 ≤ length p.modules
  pub few_modules : length p.modules ≤ 255

abbrev pub wires : TagSet → List Packet → Bytes
wires t [] = []
wires t (p ∷ ps) = wire t p ++ wires t ps

-- Sends the packets one after the other, up to the first error.
abbrev pub goes_on :
    (Conn → Result Error (Unit {0}) × Conn)
    → Result Error (Unit {0}) × Conn
    → Result Error (Unit {0}) × Conn
goes_on k (ok u, c) = k c
goes_on k (err e, c) = (err e, c)

abbrev pub send_each : List Packet → Conn → Result Error (Unit {0}) × Conn
send_each [] c = (ok tt, c)
send_each (p ∷ ps) c = goes_on (send_each ps) (send_packet p c)

pub Sendable-IsEncodable : (p : Packet) → Sendable p → IsEncodable p
Sendable-IsEncodable p h = record {
  some_modules = h.some_modules;
  few_modules = h.few_modules;
  ids = Keyed-ids p.modules h.well_formed.keyed;
}

pub send_packet-wire :
    (p : Packet) (c : Conn)
    → Sendable p
    → length (wire c.config.tag_set p) ≤ c.outgoing.room
    → send_packet p c
      ≡ (ok tt, record c { outgoing = advance (wire c.config.tag_set p) c.outgoing })
unfolding send_packet
send_packet-wire p c h fits =
    rw ((encode-Writes c.config.tag_set p (Sendable-IsEncodable p h)).fits c.outgoing fits) refl

abbrev sent : Bytes → Conn → Conn
sent bs c = record c { outgoing = advance bs c.outgoing }

send_each-wires :
    (ps : List Packet) (c : Conn)
    → All Sendable ps
    → length (wires c.config.tag_set ps) ≤ c.outgoing.room
    → send_each ps c ≡ (ok tt, sent (wires c.config.tag_set ps) c)
send_each-wires [] c h fits =
    ap (λ w. (ok tt, record c { outgoing = w })) (sym (advance-nil c.outgoing))
send_each-wires (p ∷ ps) c h fits =
    let t = c.config.tag_set in
    let n : length (wire t p ++ wires t ps) ≡ length (wire t p) + length (wires t ps) =
      length-append (wire t p) (wires t ps) in
    rw (send_packet-wire p c h.0 (omega arith)) (
      send_each-wires ps (sent (wire t p) c) h.1 (omega arith)
      ∙ ap (λ w. (ok tt, record c { outgoing = w }))
          (advance-advance (wire t p) (wires t ps) c.outgoing))

-- A connection whose other end sent some bytes and closed.
abbrev pub receiver : Bytes → Conn → Conn
receiver bs c = record c { incoming = stream bs eof }

consume_turn-wire :
    (p : Packet) (rest : Bytes) (c : Conn)
    → TagsFit c.config.tag_set
    → Sendable p
    → consume_turn (receiver (wire c.config.tag_set p ++ rest) c) ≡ (some p, receiver rest c)
unfolding consume_turn
consume_turn-wire p rest c fit h =
    ap (after_decode (receiver (wire c.config.tag_set p ++ rest) c))
      (decode-wire c.config.tag_set p rest eof fit h.well_formed h.few_modules)

-- The connection at the end of its stream.
abbrev pub finished : Conn → Conn
finished c = record c {
  incoming = stream [] eof;
  error = some (failed encoding (some eof));
  consumers = c.consumers - 1;
}

decode-empty :
    (t : TagSet) → decode t new (stream [] eof) ≡ (err (failed encoding (some eof)), stream [] eof)
unfolding decode decode_metadata expect_whole read read_loop read_full
decode-empty t = elim (Bool-cases (0 == length t.packet_opening_tag)) [
  | inl e ↦ rw e refl
  | inr e ↦ rw e refl
]

consume_turn-empty : (c : Conn) → consume_turn (receiver [] c) ≡ (none, finished c)
unfolding consume_turn
consume_turn-empty c = ap (after_decode (receiver [] c)) (decode-empty c.config.tag_set)

pub consumed-wires :
    (ps : List Packet) (n : ℕ) (c : Conn)
    → TagsFit c.config.tag_set
    → All Sendable ps
    → length ps < n
    → consumed n (receiver (wires c.config.tag_set ps) c) ≡ some (ps, finished c)
unfolding consumed
consumed-wires ps zero c fit h more = absurd (omega arith)
consumed-wires [] (suc n) c fit h more = ap (loop_on (consumed n)) (consume_turn-empty c)
consumed-wires (p ∷ ps) (suc n) c fit h more =
    let t = c.config.tag_set in
    ap (loop_on (consumed n)) (consume_turn-wire p (wires t ps) c fit h.0)
    ∙ ap (keep_packet p) (consumed-wires ps n c fit h.1 (omega arith))

-- Packets that are sent one after the other over a connection that takes their bytes come out of
-- the other end, consumed until it closes, the same and in the same order, and the end is recorded
-- in Err. They are well formed, of 1 to 255 modules, and the tags fit the decoder's buffers.
pub consumed-send_each :
    (ps : List Packet) (config : Config) (rd : Reader) (w : Writer) (room n : ℕ)
    → TagsFit config.tag_set
    → All Sendable ps
    → length (wires config.tag_set ps) ≤ room
    → length ps < n
    → let sender = send_each ps (open_conn (blank room, rd) config) in
      let started = (consume (open_conn (w, stream sender.1.outgoing.written eof) config)).1 in
      (sender.0 ≡ ok tt) × (consumed n started ≡ some (ps, finished started))
unfolding open_conn consume
consumed-send_each ps config rd w room n fit h fits more =
    let started = (consume (open_conn (w, rd) config)).1 in
    let is = send_each-wires ps (open_conn (blank room, rd) config) h fits in
    let got = consumed-wires ps n started fit h more in
    (ap (λ r. r.0) is, ap (λ r. consumed n (receiver r.1.outgoing.written started)) is ∙ got)

-- A packet on the stream is received.
pub recv-wire :
    (p : Packet) (config : Config) (w : Writer) (rest : Bytes) (f : IoError)
    → TagsFit config.tag_set
    → IsPacket p
    → length p.modules ≤ 255
    → recv (open_conn (w, stream (wire config.tag_set p ++ rest) f) config)
      ≡ (ok p, open_conn (w, stream rest f) config)
unfolding recv open_conn
recv-wire p config w rest f fit good few =
    ap (λ d. (with_packet d.0, open_conn (w, d.1) config))
      (decode-wire config.tag_set p rest f fit good few)

-- A packet that is sent is received, and what follows it stays in the stream.
pub recv-send_packet :
    (p : Packet) (config : Config) (rd : Reader) (w : Writer) (room : ℕ) (rest : Bytes)
    (f : IoError)
    → TagsFit config.tag_set
    → Sendable p
    → length (wire config.tag_set p) ≤ room
    → let sender = send_packet p (open_conn (blank room, rd) config) in
      let receiver = open_conn (w, stream (sender.1.outgoing.written ++ rest) f) config in
      (sender.0 ≡ ok tt) × (recv receiver ≡ (ok p, record receiver { incoming = stream rest f }))
unfolding open_conn
recv-send_packet p config rd w room rest f fit h fits =
    let out = send_packet-wire p (open_conn (blank room, rd) config) h fits in
    (
      ap (λ r. r.0) out,
      ap (λ r. recv (open_conn (w, stream (r.1.outgoing.written ++ rest) f) config)) out
          ∙ recv-wire p config w rest f fit h.well_formed h.few_modules,
    )
