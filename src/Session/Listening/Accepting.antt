-- ===== src/Session/Listening/Accepting.antt =====
-- What the loop of ListenAndServe does with the connections that it accepts.
use booster.Common.{
  ℕ, zero, suc, ◌≤◌, ◌<◌, ◌≡◌, refl, sym, ap, ◌∙◌, some, List, [], ◌∷◌, ◌++◌, map, length, All,
  take, arith, Bytes,
}
use mathlib.Core.List.{append_assoc, append-nil}
use booster.Common.Result.{Result, ok, err, resume}
use booster.Packet.Types.{Packet}
use booster.Packet.Stream.{Reader, Writer, advance}
use booster.Packet.Wire.{IsEncodable, wire}
use booster.Packet.Encoder.Sends.{encode-Writes}
use booster.Protocol.Payloads.{hello_type, message_hello}
use booster.Network.Messages.{encode_default}
use booster.Network.Messages.Exchanged.{payload_codecs}
use booster.Network.Messages.Headers.{Marshals}
use booster.Network.Messages.Delivered.{encode_default-IsPacket}
use booster.Link.Delivery.{Sendable-IsEncodable}
use booster.Link.{open_conn, send_packet, packet_error}
use booster.Session.Handlers.{serve}
use booster.Session.{
  lifted, link_error, Error, Outside, World, Service, handling, raw, send_hello, compose, peer_send,
  on_link, update_link,
}
use booster.Session.Config.{default_net_config}
use booster.Session.Hello.{greeting, link-update_link}
use booster.Session.Listening.{Accepted, accept_one, accept_each}

-- The goroutines that handle `n` connections, from the handle on.
abbrev pub handlers : ℕ → ℕ → List Service
handlers h zero = []
handlers h (suc n) = handling h ∷ handlers (suc h) n

abbrev pub tags : booster.Packet.Types.TagSet
tags = default_net_config.tag_set

module _ (o : Outside) (pport bport : Bytes) (p : Packet)
    (made : encode_default o.pb
        (payload_codecs o.wires (o.json hello_type) hello_type)
        (some (greeting pport bport))
        message_hello
      ≡ ok p)
    (laws : Marshals o.pb) where
  good : IsEncodable p
  good =
      let (packet, some_, few) =
        encode_default-IsPacket o.pb laws (payload_codecs o.wires (o.json hello_type) hello_type)
          (some (greeting pport bport)) message_hello p made in
      Sendable-IsEncodable p
        (record { well_formed = packet; some_modules = some_; few_modules = omega arith })

  abbrev opened : Writer × Reader → World → World
  opened conn s =
      update_link s.next (open_conn conn default_net_config) (record s { next = suc s.next })

  -- The hello of one connection is what Send makes of it.
  accept_one-send :
      (conn : Writer × Reader) (s : World) (x : Result booster.Link.Error (Unit {0}))
      (c : booster.Link.Conn)
      → send_packet p (open_conn conn default_net_config) ≡ (x, c)
      → accept_one o pport bport conn s
        ≡ resume
            (λ u. serve (handling s.next))
            (lifted link_error x, update_link s.next c (opened conn s))
  unfolding send_hello compose peer_send on_link
  accept_one-send conn s x c sends =
      let s1 = opened conn s in
      let c0 = open_conn conn default_net_config in
      let link : send_packet p (s1.links s.next) ≡ (x, c) =
        ap (send_packet p) (link-update_link s.next c0 (record s { next = suc s.next })) ∙ sends in
      let hello : send_hello o pport bport (raw s.next) s1
          ≡ (lifted link_error x, update_link s.next c s1) =
        rw (send_hello, made) (ap (λ r. (lifted link_error r.0, update_link s.next r.1 s1)) link) in
      ap (resume (λ u. serve (handling s.next))) hello

  -- A connection with room for the hello is handled.
  abbrev Sent : World → Writer → World → Type 0
  Sent s w t =
      (t.next ≡ suc s.next)
      × (t.services ≡ s.services ++ handling s.next ∷ [])
      × ((t.links s.next).outgoing.written ≡ w.written ++ wire tags p)

  accept_one-Sent :
      (w : Writer) (r : Reader) (s : World)
      → length (wire tags p) ≤ w.room
      → (t : World) × (accept_one o pport bport (w, r) s ≡ (ok tt, t)) × Sent s w t
  unfolding send_packet open_conn
  accept_one-Sent w r s fits =
      let sent = (encode-Writes tags p good).fits w fits in
      let c0 = open_conn (w, r) default_net_config in
      let c : booster.Link.Conn = record c0 { outgoing = advance (wire tags p) w } in
      let sends : send_packet p c0 ≡ (ok tt, c) = rw sent refl in
      let s1 = opened (w, r) s in
      let left_ = update_link s.next c s1 in
      (
        record left_ { services = s.services ++ handling s.next ∷ [] },
        accept_one-send (w, r) s (ok tt) c sends,
        (refl, refl, ap (λ d. d.outgoing.written) (link-update_link s.next c s1)),
      )

  accept_one-broken :
      (w : Writer) (r : Reader) (s : World)
      → w.room < length (wire tags p)
      → (e : Error) × (t : World) × (accept_one o pport bport (w, r) s ≡ (err e, t))
        × (t.services ≡ s.services)
  unfolding send_packet open_conn
  accept_one-broken w r s breaks =
      let (e, broken) = (encode-Writes tags p good).breaks w breaks in
      let c0 = open_conn (w, r) default_net_config in
      let c : booster.Link.Conn = record c0 { outgoing = advance (take w.room (wire tags p)) w } in
      let sends : send_packet p c0 ≡ (err (packet_error e), c) = rw broken refl in
      (
        link_error (packet_error e),
        update_link s.next c (opened (w, r) s),
        accept_one-send (w, r) s (err (packet_error e)) c sends,
        refl,
      )

  abbrev HasRoom : Writer × Reader → Type 0
  HasRoom conn = length (wire tags p) ≤ conn.0.room

  -- The loop of ListenAndServe starts a goroutine for each connection that takes the hello; the first
  -- one that does not take the whole hello ends the loop with an error, and no goroutine is started
  -- for it or for those that follow. The hello is encoded, the writers of the connections before have
  -- room for it, and the protobuf package marshals what it unmarshals.
  pub accept_each-broken :
      (before : List (Writer × Reader)) (w : Writer) (r : Reader) (after : List Accepted)
      (s : World)
      → All HasRoom before
      → w.room < length (wire tags p)
      → let end_ = accept_each o pport bport (map ok before ++ ok (w, r) ∷ after) s in
        ((e : Error) × (end_.0 ≡ err e))
        × (end_.1.services ≡ s.services ++ handlers s.next (length before))
  unfolding accept_each
  accept_each-broken [] w r after s room breaks =
      let (e, t, is, same) = accept_one-broken w r s breaks in
      rw is ((e, refl), same ∙ sym (append-nil s.services))
  accept_each-broken ((v, q) ∷ before) w r after s room breaks =
      let (t, is, sent) = accept_one-Sent v q s room.0 in
      let rest = accept_each-broken before w r after t room.1 breaks in
      let n = length before in
      let served : t.services ++ handlers t.next n
          ≡ s.services ++ handling s.next ∷ handlers (suc s.next) n =
        rw (sent.1, sent.0) (append_assoc s.services (handling s.next ∷ []) _) in
      rw is (rest.0, rest.1 ∙ served)
