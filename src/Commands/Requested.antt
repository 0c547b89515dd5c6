-- ===== src/Commands/Requested.antt =====
-- What the ctrl command sends.
use booster.Common.{ℕ, ◌≤◌, ◌<◌, ◌≡◌, refl, sym, ap, ◌∙◌, some, [], ◌∷◌, arith, Bytes, length}
use mathlib.Core.List.{append-nil}
use booster.Common.Result.{ok}
use booster.Packet.Types.{Packet}
use booster.Packet.Stream.{Reader, Writer, eof, advance}
use booster.Packet.Wire.{wire}
use booster.Packet.Codec.{blank}
use booster.Packet.Decoder.Reads.{stream}
use booster.Protocol.Payloads.{Operation, Payload, ctrl, ctrl_type, message_ctrl}
use booster.Network.State.{Conn, conn_close}
use booster.Network.Messages.{encode_default}
use booster.Network.Messages.Headers.{Marshals}
use booster.Network.Messages.Delivered.{encode_default-IsPacket}
use booster.Network.Messages.Exchanged.{payload_codecs, default-TagsFit}
use booster.Link.{open_conn, send_packet, consume, consumed}
use booster.Link.Delivery.{Sendable, send_packet-wire, consumed-wires, finished}
use booster.Session.{
  Outside, World, dial_context, close_link, on_link, update_link, compose, lifted, link_error,
  deferred, close_side,
}
use booster.Session.Config.{default_net_config}
use booster.Session.Dialled.{IsFresh, dial_context-IsFresh}
use booster.Session.Wire.{close_conn}
use booster.Session.Senders.{send_ctrl, request, conn_send}
use booster.Session.Hello.{link-update_link}
use booster.Commands.{operation_from_string, ctrl_command}

abbrev pub tags : booster.Packet.Types.TagSet
tags = default_net_config.tag_set

abbrev pub request_ : Operation → Payload
request_ op = ctrl (record { operation = op })

module _ (o : Outside) (laws : Marshals o.pb) (op : Operation) (p : Packet)
    (made : encode_default o.pb
        (payload_codecs o.wires (o.json ctrl_type) ctrl_type)
        (some (request_ op))
        message_ctrl
      ≡ ok p) where
  pub request-Sendable : Sendable p
  request-Sendable =
      let (packet, some_, few) =
        encode_default-IsPacket o.pb laws (payload_codecs o.wires (o.json ctrl_type) ctrl_type)
          (some (request_ op)) message_ctrl p made in
      record { well_formed = packet; some_modules = some_; few_modules = omega arith }

  -- Closing writes nothing.
  close_link-written :
      (h : ℕ) (s : World)
      → ((close_link o h s).1.links h).outgoing.written ≡ (s.links h).outgoing.written
  unfolding close_link
  close_link-written h s = ground arith

  close_conn-written :
      (d : Conn) (h : ℕ) (s : World)
      → d.conn ≡ some h
      → ((close_conn o d s).1.links h).outgoing.written ≡ (s.links h).outgoing.written
  unfolding close_conn
  close_conn-written d h s up =
      ap
        (λ x.
          ((close_side o x (record s { net = (conn_close o.close_handle d s.net).2 })).links
            h).outgoing.written)
        up
      ∙ close_link-written h (record s { net = (conn_close o.close_handle d s.net).2 })

  module _ (d : Conn) (h room : ℕ) (rd : Reader) (s : World) (up : d.conn ≡ some h)
      (link : s.links h ≡ open_conn (blank room, rd) default_net_config)
      (fits : length (wire tags p) ≤ room) where
    abbrev written_conn : booster.Link.Conn
    written_conn = record (open_conn (blank room, rd) default_net_config) {
      outgoing = advance (wire tags p) (blank room);
    }

    request_sent : request o (request_ op) message_ctrl d s ≡ (ok tt, update_link h written_conn s)
    unfolding conn_send compose on_link open_conn
    request_sent =
        let sends =
          ap (send_packet p) link
          ∙ send_packet-wire p (open_conn (blank room, rd) default_net_config) request-Sendable
              fits in
        rw (made, up) (ap (λ r. (lifted link_error r.0, update_link h r.1 s)) sends)

    request_written :
        (deferred (close_conn o d) (request o (request_ op) message_ctrl d) s).0 ≡ ok tt
        × (((deferred (close_conn o d) (request o (request_ op) message_ctrl d) s).1.links
              h).outgoing.written
            ≡ wire tags p)
    request_written = (
      ap (λ r. r.0) request_sent,
      close_conn-written d h (request o (request_ op) message_ctrl d s).1 up
          ∙ ap (λ r. (r.1.links h).outgoing.written) request_sent
          ∙ ap (λ (c : booster.Link.Conn). c.outgoing.written) (link-update_link h written_conn s),
    )

  -- The command sends the request of its word, and nothing else, over the connection that it dials.
  pub ctrl_command-written :
      (addr raw : Bytes) (s s1 : World) (d : Conn) (rd : Reader) (room : ℕ)
      → operation_from_string raw ≡ ok op
      → dial_context o addr s ≡ (ok d, s1)
      → s1.links s.next ≡ open_conn (blank room, rd) default_net_config
      → length (wire tags p) ≤ room
      → ((ctrl_command o addr raw s).0 ≡ ok tt)
        × (((ctrl_command o addr raw s).1.links s.next).outgoing.written ≡ wire tags p)
  unfolding ctrl_command send_ctrl
  ctrl_command-written addr raw s s1 d rd room accepted dials link fits =
      let opened : IsFresh s.next d = dial_context-IsFresh o addr s s1 d dials in
      let goes : ctrl_command o addr raw s
          ≡ deferred (close_conn o d) (request o (request_ op) message_ctrl d) s1 =
        rw (ctrl_command, accepted, dials) refl in
      let done = request_written d s.next room rd s1 opened.0 link fits in
      (ap (λ r. r.0) goes ∙ done.0, ap (λ r. (r.1.links s.next).outgoing.written) goes ∙ done.1)

  -- The other end consumes the request.
  pub consumed-request :
      (wr : Writer) (n : ℕ)
      → 1 < n
      → let c = (consume (open_conn (wr, stream (wire tags p) eof) default_net_config)).1 in
        consumed n c ≡ some (p ∷ [], finished c)
  unfolding consume open_conn
  consumed-request wr n more =
      let c = (consume (open_conn (wr, stream [] eof) default_net_config)).1 in
      ap (λ bs. consumed n (record c { incoming = stream bs eof })) (sym (append-nil (wire tags p)))
      ∙ consumed-wires (p ∷ []) n c default-TagsFit (request-Sendable, tt) more
