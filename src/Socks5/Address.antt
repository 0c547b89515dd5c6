-- ===== src/Socks5/Address.antt =====
-- ReadAddress, EncodeAddressBinary and their parts in socks5/socks5.go.
pub mod RoundTrip
use booster.Common.{
  be16, ℕ, zero, suc, ◌+◌, ◌-◌, ◌*◌, ◌/◌, ◌%◌, ◌^◌, ◌≤◌, ◌<◌, ◌≡◌, refl, sym, ap, subst, ◌∙◌, ◌≢◌,
  ◌↔◌, ◌⊎◌, inl, inr, Bool, true, false, not, ◌&&◌, ◌||◌, Option, none, some, List, [], ◌∷◌, ◌++◌,
  map, arith, ltb, leb, ◌==◌, if◌then◌else◌, Bool-cases, Option-cases, Bytes, ◌=ᵇ◌, =ᵇ_iff, =ᵇ_refl,
  =ᵇ_eq, length, get_elem?, set, take, drop, replicate, All, get_or,
}
use booster.Common.Result.{Result, ok, err, Exec, ◌>>=◌, pure, raise}
use booster.Common.Dict.{
  Dict, lookup, insert, delete, IsMap, lookup-insert, lookup-delete, insert-IsMap, delete-IsMap,
}
use booster.Packet.Stream.{IoError, Reader, read_full, wrap}
use booster.Common.Int.{pos, negsuc, ℤ}

-- The reads and writes that can fail.
pub data Step : Type 0 where
  address_type domain_length address port_number : Step
  negotiation methods request : Step
  negotiation_response connect_response bind_response associate_response : Step

pub data Error : Type 0 where
  failed : Step → IoError → Error
  unknown_address_type unsupported_version unexpected_cmd : ℕ → Error
  unrecognised_address host_too_long bad_port port_out_of_range : Bytes → Error
  bind_not_supported associate_not_supported : Error
  dial_failed : Bytes → Error
  nil_connection : Error

-- What the code calls of the packages net and strconv. An address of net.IP is its 16 bytes.
pub record Environment : Type 0 where
  pub parse_ip : Bytes → Option Bytes
  pub to4 : Bytes → Option Bytes
  pub ip_string : Bytes → Bytes
  pub split_host_port : Bytes → Option (Bytes × Bytes)
  pub join_host_port : Bytes → Bytes → Bytes
  pub atoi : Bytes → Option ℤ
  pub itoa : ℕ → Bytes

-- io.ReadFull, and the error of the caller.
abbrev pub receive : Step → ℕ → Exec Reader Error Bytes
receive step n = wrap (failed step) (read_full n)

-- The switch of ReadHost: how many bytes the address has.
unfoldable pub address_size : ℕ → Exec Reader Error ℕ
address_size atype =
    if atype == 1
    then pure 4
    else if atype == 4
    then pure 16
    else if atype == 3
    then (receive domain_length 1 >>= λ buf. pure (get_or buf 0 0))
    else raise (unknown_address_type atype)

module _ (env : Environment) where
  unfoldable pub read_host : Exec Reader Error Bytes
  read_host = do
    buf ← receive address_type 1
    let atype = get_or buf 0 0
    size ← address_size atype
    host ← receive address size
    pure (if atype == 3 then host else env.ip_string host)

  unfoldable pub read_port : Exec Reader Error Bytes
  read_port = do
    buf ← receive port_number 2
    pure (env.itoa (be16 (get_or buf 0 0) (get_or buf 1 0)))

  unfoldable pub read_address : Exec Reader Error Bytes
  read_address = do host ← read_host; port ← read_port; pure (env.join_host_port host port)

  unfoldable pub encode_host_binary : Bytes → Result Error Bytes
  encode_host_binary host = elim (env.parse_ip host) [
    | some ip ↦ elim (env.to4 ip) [ some ip4 ↦ ok (1 ∷ ip4) | none ↦ ok (4 ∷ ip) ]
    | none ↦
        if ltb 255 (length host)
        then err (host_too_long host)
        else ok (3 ∷ length host % 256 ∷ host)
  ]

  unfoldable pub encode_port_binary : Bytes → Result Error Bytes
  encode_port_binary port = elim (env.atoi port) [
    | none ↦ err (bad_port port)
    | some (negsuc n) ↦ err (port_out_of_range port)
    | some (pos p) ↦
        if ltb p 1 || ltb 65535 p
        then err (port_out_of_range port)
        else ok (p / 256 % 256 ∷ p % 256 ∷ [])
  ]

  unfoldable pub encode_address_binary : Bytes → Result Error Bytes
  encode_address_binary addr = elim (env.split_host_port addr) [
    | none ↦ err (unrecognised_address addr)
    | some (host, port) ↦ elim (encode_host_binary host) [
      | err e ↦ err e
      | ok hbuf ↦ elim (encode_port_binary port) [ err e ↦ err e | ok pbuf ↦ ok (hbuf ++ pbuf) ]
    ]
  ]
