-- ===== src/Link/Examples.antt =====
-- Runs of network/network.go.
use booster.Common.{◌≡◌, none, some, List, [], ◌∷◌, arith}
use booster.Common.Result.{ok}
use booster.Packet.Types.{Packet}
use booster.Packet.Stream.{Reader, eof}
use booster.Packet.Codec.{blank}
use booster.Packet.Decoder.Reads.{stream}
use booster.Packet.Examples.{one_module, two_modules, one_module-IsPacket, two_modules-IsPacket}
use booster.Session.Config.{default_net_config}
use booster.Network.Messages.Exchanged.{default-TagsFit}
use booster.Link.{Conn, open_conn, consume, consumed}
use booster.Link.Delivery.{Sendable, consumed-send_each, send_each, finished}
use booster.Link.Termination.{Ends, consumed-Ends}
use booster.Link.Bandwidth.{
  NetworkIo, Event, copies, ticks, reports, ticker_func, ticker_func-between,
}

abbrev quiet : Reader
quiet = stream [] eof

abbrev sent_packets : List Packet
sent_packets = two_modules ∷ one_module ∷ []

two_modules-Sendable : Sendable two_modules
two_modules-Sendable = record {
  well_formed = two_modules-IsPacket;
  some_modules = omega arith;
  few_modules = omega arith;
}

one_module-Sendable : Sendable one_module
one_module-Sendable = record {
  well_formed = one_module-IsPacket;
  some_modules = omega arith;
  few_modules = omega arith;
}

consumed-send_each_example :
    let sender = send_each sent_packets (open_conn (blank 200, quiet) default_net_config) in
    let started =
      (consume (open_conn (blank 0, stream sender.1.outgoing.written eof) default_net_config)).1 in
    (sender.0 ≡ ok tt) × (consumed 3 started ≡ some (sent_packets, finished started))
unfolding booster.Packet.Wire.wire_modules
consumed-send_each_example =
    consumed-send_each sent_packets default_net_config quiet (blank 0) 200 3 default-TagsFit
      (two_modules-Sendable, (one_module-Sendable, tt)) (omega arith) (omega arith)

abbrev noise : Conn
noise =
    open_conn (blank 0, stream (b'>' ∷ 1 ∷ b':' ∷ 1 ∷ b':' ∷ 1 ∷ b':' ∷ 0 ∷ b'<' ∷ 7 ∷ []) eof)
      default_net_config

consumed-Ends_example : Ends 10 (consumed 11 noise)
unfolding open_conn
consumed-Ends_example = consumed-Ends 11 noise (omega arith)

abbrev consuming : Conn
consuming = (consume (open_conn (blank 0, quiet) default_net_config)).1

abbrev fresh : NetworkIo
fresh = record { n = 0; bandwidth = 0; t = 0 }

abbrev copying : List Event
copying =
    ticks ∷ copies (5, none) ∷ copies (7, none) ∷ ticks ∷ ticks ∷ copies (1, none) ∷ ticks ∷ []

ticker_func-between_example : reports copying (ticker_func fresh) ≡ 12 ∷ 0 ∷ 1 ∷ []
ticker_func-between_example = ticker_func-between copying fresh (omega arith) (omega arith)
