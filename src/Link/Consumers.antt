-- ===== src/Link/Consumers.antt =====
-- Who may read from a connection.
use booster.Common.{◌+◌, ◌<◌, ◌≡◌, ◌≢◌, refl, false, arith, ◌∙◌}
use booster.Common.Result.{Result, ok, err}
use booster.Packet.Types.{Packet, new}
use booster.Packet.Stream.{Reader, Writer}
use booster.Link.{
  Config, Conn, already_consuming, open_conn, with_packet, send_packet, recv, consume, consume_turn,
  after_decode,
}

-- A call on the connection, or a turn of a goroutine that Consume started.
pub data Step (c : Conn) : Conn → Type 0 where
  sends : (p : Packet) → Step c (send_packet p c).1
  receives : Step c (recv c).1
  consumes : Step c (consume c).1
  turns : 0 < c.consumers → Step c (consume_turn c).1

pub data Reachable (w : Writer) (r : Reader) (config : Config) : Conn → Type 0 where
  opened : Reachable w r config (open_conn (w, r) config)
  steps : {c c' : Conn} → Reachable w r config c → Step c c' → Reachable w r config c'

after_decode-running :
    (c : Conn) (x : Result booster.Packet.Types.Error Packet × Reader)
    → (after_decode c x).1.running ≡ c.running
after_decode-running c (ok p, r) = refl
after_decode-running c (err e, r) = refl

Step-running : (c c' : Conn) → Step c c' → c.running ≡ false → c'.running ≡ false
unfolding send_packet recv consume consume_turn
Step-running c c' (sends p) h = h
Step-running c c' receives h = rw h refl
Step-running c c' consumes h = rw h refl
Step-running c c' (turns some_) h = after_decode-running c _ ∙ h

Reachable-running :
    (w : Writer) (r : Reader) (config : Config) (c : Conn)
    → Reachable w r config c
    → c.running ≡ false
unfolding open_conn
Reachable-running w r config c opened = refl
Reachable-running w r config c (steps {c = b} before step) =
    Step-running b c step (Reachable-running w r config b before)

with_packet-ne-consuming :
    {A : Type 0} (x : Result booster.Packet.Types.Error A) → with_packet x ≢ err already_consuming
with_packet-ne-consuming (ok a) h = ground arith
with_packet-ne-consuming (err e) h = ground arith

-- A connection that was opened is never found in use, whatever was called on it: Consume starts a
-- goroutine more, and Recv reads, also while the goroutines of earlier calls of Consume read.
pub Reachable-consume :
    (w : Writer) (r : Reader) (config : Config) (c : Conn)
    → Reachable w r config c
    → (consume c ≡ (ok tt, record c { consumers = c.consumers + 1 }))
      × ((recv c).0 ≢ err already_consuming)
unfolding consume recv
Reachable-consume w r config c h =
    let idle = Reachable-running w r config c h in
    (rw (consume, idle) refl, rw (recv, idle) (with_packet-ne-consuming _))
