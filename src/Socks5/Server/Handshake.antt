-- ===== src/Socks5/Server/Handshake.antt =====
-- What the server answers to a client that follows the protocol.
use booster.Common.{
  ℕ, ◌+◌, ◌≤◌, ◌≡◌, refl, Bool, false, ◌||◌, some, List, [], ◌∷◌, ◌++◌, arith, ◌==◌, if◌then◌else◌,
  Bytes, length,
}
use booster.Common.Result.{err, ◌>>◌, Exec, ok}
use booster.Packet.Stream.{IoError, Reader, Writer, write, advance}
use booster.Packet.Decoder.Reads.{Reads, stream}
use booster.Socks5.Address.{
  connect_response, dial_failed, negotiation_response, Step, Error, Environment,
  encode_address_binary, negotiation, methods, request,
}
use booster.Socks5.Address.RoundTrip.{IsHost, IsPort, Reads-receive, Reads-address}
use booster.Socks5.Server.{
  client_end, target_end, closing, refused, respond, Session, Target, Dialled, Update, connected,
  tunnel_added, tunnel_removed, hear, pub_update, accept_method, negotiate, connect, connect_reply,
  command, handle,
}

-- A client that has sent the bytes.
abbrev pub client : Bytes → IoError → Writer → List Update → Session
client bs f w us = record { input = stream bs f; output = w; updates = us; closings = [] }

hear-Reads :
    {A : Type 0} {bs : Bytes} {m : Exec Reader Error A} {a : A}
    → Reads bs m a
    → (rest : Bytes) (f : IoError) (w : Writer) (us : List Update)
    → hear m (client (bs ++ rest) f w us) ≡ (ok a, client rest f w us)
hear-Reads r rest f w us = rw (r.reads rest f) refl

write_room : (bs : Bytes) (w : Writer) → length bs ≤ w.room → write bs w ≡ (ok tt, advance bs w)
unfolding write
write_room bs w room = ground arith

respond_room :
    (step : Step) (bs rest : Bytes) (f : IoError) (w : Writer) (us : List Update)
    → length bs ≤ w.room
    → respond step bs (client rest f w us) ≡ (ok tt, client rest f (advance bs w) us)
respond_room step bs rest f w us room = rw (write_room bs w room) refl

-- Whether a client offers a method.
abbrev pub offers : ℕ → List ℕ → Bool
offers method [] = false
offers method (m ∷ ms) = method == m || offers method ms

accept_method_lem : (ms : List ℕ) → accept_method ms ≡ (if offers 0 ms then 0 else 255)
unfolding accept_method
accept_method_lem [] = refl
accept_method_lem (m ∷ ms) = ground (arith, accept_method_lem ms)

-- Negotiate, for a client that greets with version 5 and its methods, on a connection that takes
-- two bytes: it reads the greeting and no more, and answers that it takes no authentication when
-- the client offers that, and that it accepts no method when the client does not. It succeeds in
-- both cases.
negotiate_lem :
    (ms rest : Bytes) (f : IoError) (w : Writer) (us : List Update)
    → 2 ≤ w.room
    → negotiate (client (5 ∷ length ms ∷ ms ++ rest) f w us)
      ≡ (ok tt, client rest f (advance (5 ∷ (if offers 0 ms then 0 else 255) ∷ []) w) us)
unfolding negotiate
negotiate_lem ms rest f w us room =
    let e1 =
      hear-Reads (Reads-receive negotiation 2 (5 ∷ length ms ∷ []) refl) (ms ++ rest) f w us in
    let e2 = hear-Reads (Reads-receive methods (length ms) ms refl) rest f w us in
    rw (e1, e2, ← accept_method_lem ms)
      (respond_room negotiation_response (5 ∷ accept_method ms ∷ []) rest f w us room)

module _ (env : Environment) (dial : Bytes → Dialled) where
  connect_room :
      (addr rest : Bytes) (f : IoError) (w : Writer) (us : List Update) (t : Target)
      → dial addr ≡ connected t
      → length (connect_reply env dial t) ≤ w.room
      → connect env dial addr (client rest f w us)
        ≡ (ok t, client rest f (advance (connect_reply env dial t) w) us)
  unfolding connect
  connect_room addr rest f w us t dials room =
      rw (connect, dials, write_room (connect_reply env dial t) w room) refl

  connect_refused :
      (addr rest e : Bytes) (f : IoError) (w : Writer) (us : List Update)
      → dial addr ≡ refused e
      → 3 ≤ w.room
      → connect env dial addr (client rest f w us)
        ≡ (err (dial_failed e), client rest f (advance (5 ∷ 4 ∷ 0 ∷ []) w) us)
  unfolding connect
  connect_refused addr rest e f w us dials room =
      rw (connect, dials, respond_room connect_response (5 ∷ 4 ∷ 0 ∷ []) rest f w us room) refl

  -- Handle, for a client that greets and asks for a connection to a canonical address that the
  -- dialer does not reach, on a connection that takes five bytes: the answer to the request is
  -- three bytes long, no update is published, and the dialer's error is the result.
  pub handle_refused :
      (ms rest addr host port ab e : Bytes) (f : IoError) (w : Writer) (us : List Update)
      (proxy_data : Target → Exec Session Error (Unit {0}))
      → env.split_host_port addr ≡ some (host, port)
      → env.join_host_port host port ≡ addr
      → IsHost env host
      → IsPort env port
      → encode_address_binary env addr ≡ ok ab
      → dial addr ≡ refused e
      → 5 ≤ w.room
      → handle env dial proxy_data (client (5 ∷ length ms ∷ ms ++ (5 ∷ 1 ∷ 0 ∷ ab ++ rest)) f w us)
        ≡ (
          err (dial_failed e),
          record (client rest f
              (advance (5 ∷ 4 ∷ 0 ∷ []) (advance (5 ∷ (if offers 0 ms then 0 else 255) ∷ []) w))
              us) { closings = client_end ∷ [] },
        )
  unfolding handle command
  handle_refused ms rest addr host port ab e f w us proxy_data split join ch cp enc dials room =
      let w1 = advance (5 ∷ (if offers 0 ms then 0 else 255) ∷ []) w in
      let e1 = negotiate_lem ms (5 ∷ 1 ∷ 0 ∷ ab ++ rest) f w us (omega arith) in
      let e2 = hear-Reads (Reads-receive request 3 (5 ∷ 1 ∷ 0 ∷ []) refl) (ab ++ rest) f w1 us in
      let e3 = hear-Reads (Reads-address env addr host port ab split join ch cp enc) rest f w1 us in
      let e4 = connect_refused addr rest e f w1 us dials (omega arith) in rw (e1, e2, e3, e4) refl

  -- Handle, for a client that greets, and asks for a connection to a canonical address that the
  -- dialer reaches, on a connection that takes the answers: it answers the greeting and the
  -- request, publishes the new tunnel, hands the connection to the proxying with all that
  -- followed the request unread, then publishes that the tunnel is gone, and closes the target's
  -- connection and the client's.
  pub handle_connects :
      (ms rest addr host port ab : Bytes) (f : IoError) (w : Writer) (us : List Update) (t : Target)
      (proxy_data : Target → Exec Session Error (Unit {0}))
      → env.split_host_port addr ≡ some (host, port)
      → env.join_host_port host port ≡ addr
      → IsHost env host
      → IsPort env port
      → encode_address_binary env addr ≡ ok ab
      → dial addr ≡ connected t
      → 2 + length (connect_reply env dial t) ≤ w.room
      → handle env dial proxy_data (client (5 ∷ length ms ∷ ms ++ (5 ∷ 1 ∷ 0 ∷ ab ++ rest)) f w us)
        ≡ closing client_end
            (closing target_end (proxy_data t >> pub_update (tunnel_removed t.remote_addr)))
            (client rest f
              (advance
                (connect_reply env dial t)
                (advance (5 ∷ (if offers 0 ms then 0 else 255) ∷ []) w))
              (us ++ tunnel_added t.remote_addr ∷ []))
  unfolding handle command
  handle_connects ms rest addr host port ab f w us t proxy_data split join ch cp enc dials room =
      let w1 = advance (5 ∷ (if offers 0 ms then 0 else 255) ∷ []) w in
      let e1 = negotiate_lem ms (5 ∷ 1 ∷ 0 ∷ ab ++ rest) f w us (omega arith) in
      let e2 = hear-Reads (Reads-receive request 3 (5 ∷ 1 ∷ 0 ∷ []) refl) (ab ++ rest) f w1 us in
      let e3 = hear-Reads (Reads-address env addr host port ab split join ch cp enc) rest f w1 us in
      let e4 = connect_room addr rest f w1 us t dials (omega arith) in rw (e1, e2, e3, e4) refl
