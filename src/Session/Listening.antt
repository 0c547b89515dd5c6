-- ===== src/Session/Listening.antt =====
-- booster/booster.go: ListenAndServe, while its context lasts.
pub mod Accepting
mod Examples
use booster.Common.{ℕ, suc, Option, none, some, List, [], ◌∷◌, Bytes}
use booster.Common.Result.{Result, ok, err, ◌>>=◌, ◌>>◌, pure, raise}
use booster.Packet.Stream.{Reader, Writer}
use booster.Link.{open_conn}
use booster.Session.{
  Outside, World, Session, raw, handling, listen_error, accept_error, send_hello, update_link,
}
use booster.Session.Config.{default_net_config}
use booster.Session.Handlers.{serve}

-- What Accept of the net package returns.
abbrev pub Accepted : Type 0
Accepted = Result Bytes (Writer × Reader)

-- Listener.Accept wraps the connection.
abbrev pub wrapped : Writer × Reader → Session ℕ
wrapped conn s = (
  ok s.next,
  update_link s.next (open_conn conn default_net_config) (record s { next = suc s.next }),
)

-- `pport` and `bport` are the ports of the local node's addresses.
module _ (o : Outside) (pport bport : Bytes) where
  abbrev pub accept_one : Writer × Reader → Session (Unit {0})
  accept_one conn = do h ← wrapped conn; send_hello o pport bport (raw h); serve (handling h)

  -- The loop of the goroutine, over what Accept returns; where the list ends, it waits.
  unfoldable pub accept_each : List Accepted → Session (Unit {0})
  accept_each [] = pure tt
  accept_each (err e ∷ as_) = raise (accept_error e)
  accept_each (ok conn ∷ as_) = do accept_one conn; accept_each as_

  -- ListenAndServe returns the error of its loop. `listens` is the error of net.Listen.
  unfoldable pub listen_and_serve : Option Bytes → List Accepted → Session (Unit {0})
  listen_and_serve (some e) as_ = raise (listen_error e)
  listen_and_serve none as_ = accept_each as_
