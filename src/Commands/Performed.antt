-- ===== src/Commands/Performed.antt =====
-- What a node does with a request of the ctrl command.
use booster.Common.{
  ℕ, ◌<◌, ◌≤◌, length, Bytes, sym, subst, Bool, true, false, Option, none, ◌≡◌, refl, ap, ◌∙◌, inl,
  inr, Bool-cases, some, [], ◌∷◌, ◌++◌, arith, Bytes, ◌=ᵇ◌,
}
use booster.Common.Result.{ok}
use booster.Packet.Types.{Packet}
use booster.Protocol.Payloads.{
  Operation, ctrl, ctrl_stop, ctrl_restart, ctrl_type, hello_type, message_ctrl,
}
use booster.Protocol.Internal.{AreFaithful}
use booster.Network.Messages.{encode_default}
use booster.Network.Messages.Headers.{Marshals}
use booster.Network.Messages.Addressed.{read_header-encode_default}
use booster.Network.Messages.Exchanged.{payload_codecs, decoded}
use booster.Session.{
  Outside, World, Peer, stop, restart, payload_of, cleaned, peer_close, close_side, close_link,
}
use booster.Session.Refusals.{close_side-net}
use booster.Common.Dict.{Dict, lookup}
use booster.Network.State.{Conn, Network, close_all}
use booster.Network.Connections.{IsClosed, close_all_lem}
use booster.Session.Handlers.{
  handle_ctrl, handle_packet, handle_packets, dispatch, control, restarted, shut_all,
}
use booster.Session.{dial_context}
use booster.Session.Config.{default_net_config}
use booster.Packet.Stream.{Reader, Writer, eof}
use booster.Packet.Wire.{wire}
use booster.Packet.Codec.{blank}
use booster.Packet.Decoder.Reads.{stream}
use booster.Link.{open_conn, consume, consumed}
use booster.Link.Delivery.{finished}
use booster.Commands.{operation_from_string, stop_word, restart_word, ctrl_command}
use booster.Commands.Requested.{tags, request_, ctrl_command-written, consumed-request}

-- A node that was told to stop, or else to close its network's connections and start again.
abbrev pub Does : Bool → World → World → Type 0
Does true s t = t ≡ record s { services = s.services ++ stop ∷ [] }
Does false s t =
    (t.services ≡ s.services ++ restart ∷ [])
    × ((key : Bytes) → IsClosed (lookup key t.net.outgoing))
    × (t.net.traced ≡ s.net.traced)

-- What a word asks of a node, `stop` or `restart`.
abbrev pub Performed : Bytes → World → World → Type 0
Performed raw s t = Does (raw =ᵇ stop_word) s t

module _ (o : Outside) where
  close_side-services : (h : Option ℕ) (s : World) → (close_side o h s).services ≡ s.services
  unfolding close_link
  close_side-services none s = refl
  close_side-services (some h) s = ground arith

  shut_all-same :
      (m : Dict Conn) (s : World)
      → ((shut_all o m s).net ≡ s.net) × ((shut_all o m s).services ≡ s.services)
  shut_all-same [] s = (refl, refl)
  shut_all-same ((k, c) ∷ m) s =
      let rest = shut_all-same m (close_side o c.conn s) in
      (rest.0 ∙ close_side-net o c.conn s, rest.1 ∙ close_side-services c.conn s)

  module _ (closes : (h : ℕ) → o.close_handle h ≡ none) where
    restarted-IsClosed :
        (s : World)
        → ((restarted o s).0 ≡ ok tt)
          × ((restarted o s).1.services ≡ s.services ++ restart ∷ [])
          × ((key : Bytes) → IsClosed (lookup key (restarted o s).1.net.outgoing))
          × ((restarted o s).1.net.traced ≡ s.net.traced)
    unfolding restarted
    restarted-IsClosed s =
        let s1 : World = record s { net = close_all o.close_handle s.net } in
        let (net, services) = shut_all-same s.net.outgoing s1 in
        (
          refl,
          ap (λ v. v ++ restart ∷ []) services,
          (λ key.
              subst (λ (n : Network). IsClosed (lookup key n.outgoing)) (sym net)
                (close_all_lem o.close_handle s.net key closes).0),
          ap (λ (n : Network). n.traced) net ∙ (close_all_lem o.close_handle s.net [] closes).1,
        )

    -- The operation of a word.
    control-Performed :
        (raw : Bytes) (op : Operation) (s : World)
        → operation_from_string raw ≡ ok op
        → ((control o op s).0 ≡ ok tt) × Performed raw s (control o op s).1
    unfolding operation_from_string
    control-Performed raw op s h = elim (Bool-cases (raw =ᵇ stop_word)) [
      | inl e ↦ let is : ctrl_stop ≡ op = ground arith in rw (← is, e) (refl, refl)
      | inr e ↦ elim (Bool-cases (raw =ᵇ restart_word)) [
        | inl f ↦
            let is : ctrl_restart ≡ op = ground arith in
            let (done, signal, closed, quiet) = restarted-IsClosed s in
            rw (← is, e) (done, (signal, closed, quiet))
        | inr f ↦ absurd (ground arith)
      ]
    ]

    module _ (laws : Marshals o.pb) (faithful : AreFaithful o.wires) (op : Operation) (p : Packet)
        (made : encode_default o.pb
            (payload_codecs o.wires (o.json ctrl_type) ctrl_type)
            (some (ctrl (record { operation = op })))
            message_ctrl
          ≡ ok p) where
      handle_packets-control :
          (raw : Bytes) (peer : Peer) (t : World)
          → (control o op t).0 ≡ ok tt
          → handle_packets o peer (p ∷ []) t ≡ (ok tt, (control o op t).1)
      unfolding handle_packets handle_packet dispatch handle_ctrl payload_of
      handle_packets-control raw peer t fine =
          let read =
            read_header-encode_default o.pb laws
              (payload_codecs o.wires (o.json ctrl_type) ctrl_type)
              (payload_codecs o.wires (o.json hello_type) hello_type) (some (request_ op))
              message_ctrl p made in
          let got =
            decoded o.pb laws o.wires faithful (o.json ctrl_type) (request_ op) message_ctrl p
              made in
          let is : control o op t ≡ (ok tt, (control o op t).1) =
            ap (λ r. (r, (control o op t).1)) fine in
          let handled : handle_ctrl o peer p t ≡ (ok tt, (control o op t).1) =
            rw (handle_ctrl, got) (ap (cleaned (peer_close o peer)) is) in
          rw (read, handled) refl

      -- The ctrl command, run with a word that it accepts, and the node at the other end of the
      -- connection that it dials: the command succeeds; the node, in two turns or more, consumes
      -- one packet from what the command has written, and handling it does what the word says.
      -- `stop` signals the node to stop; `restart` leaves no connection of its network open, gives
      -- no node to the tracer, and signals the node to restart; nothing else is signalled. The
      -- connection was dialled in the default configuration, nothing was written on it before, and
      -- it takes the request, which is encoded in the default encoding; connections close without
      -- an error, and the protobuf package keeps its laws.
      pub ctrl_command_lem :
          (addr raw : Bytes) (s s1 t : World) (d : Conn) (rd : Reader) (wr : Writer) (room n : ℕ)
          (peer : Peer)
          → operation_from_string raw ≡ ok op
          → dial_context o addr s ≡ (ok d, s1)
          → s1.links s.next ≡ open_conn (blank room, rd) default_net_config
          → length (wire tags p) ≤ room
          → 1 < n
          → let client = ctrl_command o addr raw s in
            let c =
              (consume (
                open_conn
                  (wr, stream (client.1.links s.next).outgoing.written eof)
                  default_net_config)).1 in
            let node = handle_packets o peer (p ∷ []) t in
            (client.0 ≡ ok tt)
            × (consumed n c ≡ some (p ∷ [], finished c))
            × (node.0 ≡ ok tt)
            × Performed raw t node.1
      ctrl_command_lem addr raw s s1 t d rd wr room n peer accepted dials link fits more =
          let (sent, written) =
            ctrl_command-written o laws op p made addr raw s s1 d rd room accepted dials link
              fits in
          let (fine, does) = control-Performed raw op t accepted in
          let handled = handle_packets-control raw peer t fine in
          (
            sent,
            subst
                (λ bs.
                  let c = (consume (open_conn (wr, stream bs eof) default_net_config)).1 in
                  consumed n c ≡ some (p ∷ [], finished c))
                (sym written) (consumed-request o laws op p made wr n more),
            ap (λ r. r.0) handled,
            subst (λ r. Performed raw t r.1) (sym handled) does,
          )
