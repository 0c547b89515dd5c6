-- ===== src/Socks5/Server.antt =====
-- socks5/negotiate.go, connect.go, bind.go, associate.go and Handle in socks5.go: what the server
-- reads from a client and answers, up to the start of the proxying.
pub mod Handshake
use booster.Common.{
  ℕ, zero, suc, ◌+◌, ◌-◌, ◌*◌, ◌/◌, ◌%◌, ◌^◌, ◌≤◌, ◌<◌, ◌≡◌, refl, sym, ap, subst, ◌∙◌, ◌≢◌, ◌↔◌,
  ◌⊎◌, inl, inr, Bool, true, false, not, ◌&&◌, ◌||◌, Option, none, some, List, [], ◌∷◌, ◌++◌, map,
  arith, ltb, leb, ◌==◌, if◌then◌else◌, Bool-cases, Option-cases, Bytes, ◌=ᵇ◌, =ᵇ_iff, =ᵇ_refl,
  =ᵇ_eq, length, get_elem?, set, take, drop, replicate, All, get_or,
}
use booster.Common.Result.{Result, ok, err, Exec, ◌>>=◌, ◌>>◌, pure, raise}
use booster.Common.Dict.{
  Dict, lookup, insert, delete, IsMap, lookup-insert, lookup-delete, insert-IsMap, delete-IsMap,
}
use booster.Packet.Stream.{IoError, Reader, Writer, read_full, write, wrap}
use booster.Socks5.Address.{
  Step, Error, Environment, receive, read_address, failed, negotiation, methods, request,
  negotiation_response, connect_response, bind_response, associate_response, unsupported_version,
  unexpected_cmd, bind_not_supported, associate_not_supported, dial_failed, nil_connection,
}

pub data Update : Type 0 where
  tunnel_added tunnel_removed : Bytes → Update

-- The two connections of Handle.
pub data End : Type 0 where
  client_end target_end : End

-- The client's connection, with what was read and written on it, the updates that were published, and
-- the calls of Close.
pub record Session : Type 0 where
  pub input : Reader
  pub output : Writer
  pub updates : List Update
  pub closings : List End

-- The connection to the target: the local address and port, and the remote address as text.
pub record Target : Type 0 where
  pub local_ip : Bytes
  pub local_port : ℕ
  pub remote_addr : Bytes

-- What DialContext returns: the third is no error and no connection.
pub data Dialled : Type 0 where
  connected : Target → Dialled
  refused : Bytes → Dialled
  nothing : Dialled

abbrev pub hear : {A : Type 0} → Exec Reader Error A → Exec Session Error A
hear m s = let (r, i) = m s.input in (r, record s { input = i })

abbrev pub say : Exec Writer Error (Unit {0}) → Exec Session Error (Unit {0})
say m s = let (r, o) = m s.output in (r, record s { output = o })

abbrev pub respond : Step → Bytes → Exec Session Error (Unit {0})
respond step bs = say (wrap (failed step) (write bs))

-- pubUpdate
abbrev pub pub_update : Update → Exec Session Error (Unit {0})
pub_update u s = (ok tt, record s { updates = s.updates ++ u ∷ [] })

-- `defer conn.Close()`
abbrev pub closing : End → Exec Session Error (Unit {0}) → Exec Session Error (Unit {0})
closing e m s = let (r, t) = m s in (r, record t { closings = t.closings ++ e ∷ [] })

-- One supported method: no authentication.
unfoldable pub accept_method : List ℕ → ℕ
accept_method [] = 255
accept_method (tm ∷ m) = if 0 == tm then 0 else accept_method m

unfoldable pub negotiate : Exec Session Error (Unit {0})
negotiate = do
  buf ← hear (receive negotiation 2)
  if get_or buf 0 0 == 5
      then (do
        m ← hear (receive methods (get_or buf 1 0))
        respond negotiation_response (5 ∷ accept_method m ∷ []))
      else raise (unsupported_version (get_or buf 0 0))

-- `conn.Write(buf)`, its error dropped.
abbrev write_anyway : Bytes → Exec Session Error (Unit {0})
write_anyway bs s = let (r, o) = write bs s.output in (ok tt, record s { output = o })

unfoldable pub bind : Exec Session Error Target
bind = respond bind_response (5 ∷ 7 ∷ 0 ∷ []) >> raise bind_not_supported

unfoldable pub associate : Exec Session Error Target
associate = respond associate_response (5 ∷ 7 ∷ 0 ∷ []) >> raise associate_not_supported

module _ (env : Environment) (dial : Bytes → Dialled) where
  -- The answer to a connect request.
  unfoldable pub connect_reply : Target → Bytes
  connect_reply t =
      let port = t.local_port % 65536 in
      let addr : Bytes = elim (env.to4 t.local_ip) [ some ip4 ↦ 1 ∷ ip4 | none ↦ 4 ∷ t.local_ip ] in
      (5 ∷ 0 ∷ 0 ∷ addr) ++ (port / 256 % 256 ∷ port % 256 ∷ [])

  unfoldable pub connect : Bytes → Exec Session Error Target
  connect target = elim (dial target) [
    | refused e ↦ respond connect_response (5 ∷ 4 ∷ 0 ∷ []) >> raise (dial_failed e)
    | nothing ↦ raise nil_connection
    | connected t ↦ write_anyway (connect_reply t) >> pure t
  ]

  -- The switch over the command.
  unfoldable pub command : ℕ → Bytes → Exec Session Error Target
  command cmd target =
      if cmd == 1
      then connect target
      else if cmd == 3
      then associate
      else if cmd == 2
      then bind
      else raise (unexpected_cmd cmd)

  -- Handle. `proxy_data` copies between the two connections until one of them fails.
  unfoldable pub handle : (Target → Exec Session Error (Unit {0})) → Exec Session Error (Unit {0})
  handle proxy_data = closing client_end (do
    negotiate
    buf ← hear (receive request 3)
    if get_or buf 0 0 == 5
        then (do
          target ← hear (read_address env)
          tconn ← command (get_or buf 1 0) target
          closing target_end (do
            pub_update (tunnel_added tconn.remote_addr)
            proxy_data tconn
            pub_update (tunnel_removed tconn.remote_addr)))
        else raise (unsupported_version (get_or buf 0 0)))
