-- ===== src/Link.antt =====
-- network/network.go: a connection that carries packets. Only its own user reads and writes the
-- underlying network connection, as a writer and a reader. `consumers` counts the goroutines that
-- Consume started and that still read.
pub mod Delivery
pub mod Termination
pub mod Consumers
pub mod Bandwidth
mod Examples
use booster.Common.{
  ℕ, ◌+◌, ◌-◌, zero, suc, Bool, true, false, Option, none, some, List, [], ◌∷◌, if◌then◌else◌,
  Bytes,
}
use booster.Common.Result.{Result, ok, err}
use booster.Packet.Types.{TagSet, Packet, new}
use booster.Packet.Stream.{Reader, Writer}
use booster.Packet.Encoder.{encode}
use booster.Packet.Decoder.{decode}

pub data Error : Type 0 where
  already_running already_consuming : Error
  packet_error : booster.Packet.Types.Error → Error
  net_error : Bytes → Error

pub record Config : Type 0 where
  pub tag_set : TagSet
  pub max_idle : ℕ

-- `error` is Err.
pub record Conn : Type 0 where
  pub config : Config
  pub outgoing : Writer
  pub incoming : Reader
  pub error : Option booster.Packet.Types.Error
  pub running : Bool
  pub consumers : ℕ

unfoldable pub open_conn : Writer × Reader → Config → Conn
open_conn (w, r) config = record {
  config = config;
  outgoing = w;
  incoming = r;
  error = none;
  running = false;
  consumers = 0;
}

abbrev pub with_packet : {A : Type 0} → Result booster.Packet.Types.Error A → Result Error A
with_packet (ok a) = ok a
with_packet (err e) = err (packet_error e)

-- Send; the mutex makes it one step.
unfoldable pub send_packet : Packet → Conn → Result Error (Unit {0}) × Conn
send_packet p c =
    let r = encode c.config.tag_set p c.outgoing in (with_packet r.0, record c { outgoing = r.1 })

-- Recv; `running` is reset on the way out.
unfoldable pub recv : Conn → Result Error Packet × Conn
recv c =
    if c.running
    then (err already_consuming, c)
    else let r = decode c.config.tag_set new c.incoming in
      (with_packet r.0, record c { incoming = r.1; running = false })

-- Consume starts a goroutine, and resets `running` on the way out as well.
unfoldable pub consume : Conn → Result Error (Unit {0}) × Conn
consume c =
    if c.running
    then (err already_running, c)
    else (ok tt, record c { running = false; consumers = c.consumers + 1 })

abbrev pub after_decode :
    Conn → Result booster.Packet.Types.Error Packet × Reader → Option Packet × Conn
after_decode c (ok p, r) = (some p, record c { incoming = r })
after_decode c (err e, r) =
    (none, record c { incoming = r; error = some e; consumers = c.consumers - 1 })

-- One turn of the goroutine's loop: the packet that goes to the channel, or the end.
unfoldable pub consume_turn : Conn → Option Packet × Conn
consume_turn c = after_decode c (decode c.config.tag_set new c.incoming)

abbrev pub keep_packet : Packet → Option (List Packet × Conn) → Option (List Packet × Conn)
keep_packet p none = none
keep_packet p (some (ps, c)) = some (p ∷ ps, c)

abbrev pub loop_on :
    (Conn → Option (List Packet × Conn)) → Option Packet × Conn → Option (List Packet × Conn)
loop_on rest (none, c) = some ([], c)
loop_on rest (some p, c) = keep_packet p (rest c)

-- The loop, run by itself: what the channel got when it is closed. None: the fuel is out.
unfoldable pub consumed : ℕ → Conn → Option (List Packet × Conn)
consumed zero c = none
consumed (suc n) c = loop_on (consumed n) (consume_turn c)

-- Listener.Accept and Dialer.DialContext; `got` is what the net package gives.
unfoldable pub accept : Config → Result Bytes (Writer × Reader) → Result Error Conn
accept config (err e) = err (net_error e)
accept config (ok conn) = ok (open_conn conn config)
