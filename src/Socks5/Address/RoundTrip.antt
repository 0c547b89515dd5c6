-- ===== src/Socks5/Address/RoundTrip.antt =====
-- Addresses that EncodeAddressBinary writes, read back by ReadAddress.
use booster.Common.{
  drop-append, be16, take-append, be16-bytes, length-append, ℕ, ◌/◌, ◌%◌, ◌≤◌, ◌<◌, ◌≡◌, refl, ap,
  subst, ◌∙◌, inl, inr, Option, none, some, [], ◌∷◌, ◌++◌, arith, ltb, Bool-cases, Option-cases,
  Bytes, length, get_or,
}
use booster.Common.Result.{pure, ◌>>=◌, Result-cases, ok}
use booster.Packet.Stream.{IoError, read_full}
use booster.Packet.Decoder.Reads.{Reads, Reads-bind, Reads-last, stream}
use booster.Socks5.Address.{
  Step, Environment, receive, address_size, read_host, read_port, read_address, encode_host_binary,
  encode_port_binary, encode_address_binary, address_type, domain_length, address, port_number,
}
use booster.Common.Int.{ℤ, pos, negsuc}

pub Reads-receive :
    (step : Step) (n : ℕ) (bs : Bytes) → length bs ≡ n → Reads bs (receive step n) bs
unfolding read_full
Reads-receive step n bs h = record {
  reads = λ rest f.
      rw (← h) (ground (arith, length-append bs rest, take-append bs rest, drop-append bs rest));
}

module _ (env : Environment) where
  abbrev IsImage : Bytes → Bytes → Option Bytes → Type 0
  IsImage host ip (some ip4) = (length ip4 ≡ 4) × (env.ip_string ip4 ≡ host)
  IsImage host ip none = (length ip ≡ 16) × (env.ip_string ip ≡ host)

  abbrev IsParsed : Bytes → Option Bytes → Type 0
  IsParsed host none = Unit
  IsParsed host (some ip) = IsImage host ip (env.to4 ip)

  -- What the code relies on in the package net for a host: an address has 4 or 16 bytes, and is
  -- printed as the text it was read from.
  abbrev pub IsHost : Bytes → Type 0
  IsHost host = IsParsed host (env.parse_ip host)

  abbrev IsNumber : Bytes → Option ℤ → Type 0
  IsNumber port none = Unit
  IsNumber port (some (negsuc n)) = Unit
  IsNumber port (some (pos p)) = env.itoa p ≡ port

  -- A port in canonical form is the decimal form of the number it stands for.
  abbrev pub IsPort : Bytes → Type 0
  IsPort port = IsNumber port (env.atoi port)

  Reads-ip4 : (q : Bytes) → length q ≡ 4 → Reads (1 ∷ q) (read_host env) (env.ip_string q)
  unfolding read_host address_size
  Reads-ip4 q h =
      Reads-bind _ (Reads-receive address_type 1 (1 ∷ []) refl)
        (Reads-last env.ip_string (Reads-receive address 4 q h))

  Reads-ip6 : (q : Bytes) → length q ≡ 16 → Reads (4 ∷ q) (read_host env) (env.ip_string q)
  unfolding read_host address_size
  Reads-ip6 q h =
      Reads-bind _ (Reads-receive address_type 1 (4 ∷ []) refl)
        (Reads-last env.ip_string (Reads-receive address 16 q h))

  Reads-name : (q : Bytes) → Reads (3 ∷ length q ∷ q) (read_host env) q
  unfolding read_host address_size
  Reads-name q = Reads-bind _ (Reads-receive address_type 1 (3 ∷ []) refl) (
      Reads-bind _
        (Reads-last (λ buf. get_or buf 0 0) (Reads-receive domain_length 1 (length q ∷ []) refl))
        (Reads-last (λ x. x) (Reads-receive address (length q) q refl)))

  Reads-host :
      (host bs : Bytes)
      → IsHost host
      → encode_host_binary env host ≡ ok bs
      → Reads bs (read_host env) host
  unfolding encode_host_binary
  Reads-host host bs c h = elim (Option-cases (env.parse_ip host)) [
    | inl e ↦ elim (Bool-cases (ltb 255 (length host))) [
      | inl long ↦ absurd (ground arith)
      | inr fits ↦
          let is : 3 ∷ length host ∷ host ≡ bs = ground arith in
          subst (λ x. Reads x (read_host env) host) is (Reads-name host)
    ]
    | inr (ip, e) ↦ elim (Option-cases (env.to4 ip)) [
      | inl six ↦
          let is : 4 ∷ ip ≡ bs = ground arith in
          let (len, text) = subst (IsImage host ip) six (subst (IsParsed host) e c) in
          subst (λ x. Reads x (read_host env) host) is
            (subst (λ x. Reads (4 ∷ ip) (read_host env) x) text (Reads-ip6 ip len))
      | inr (ip4, four) ↦
          let is : 1 ∷ ip4 ≡ bs = ground arith in
          let (len, text) = subst (IsImage host ip) four (subst (IsParsed host) e c) in
          subst (λ x. Reads x (read_host env) host) is
            (subst (λ x. Reads (1 ∷ ip4) (read_host env) x) text (Reads-ip4 ip4 len))
    ]
  ]

  Reads-port :
      (port bs : Bytes)
      → IsPort port
      → encode_port_binary env port ≡ ok bs
      → Reads bs (read_port env) port
  unfolding encode_port_binary read_port
  Reads-port port bs c h = elim (Option-cases (env.atoi port)) [
    | inl e ↦ absurd (ground arith)
    | inr (negsuc n, e) ↦ absurd (ground arith)
    | inr (pos p, e) ↦
        let in_range : (1 ≤ p) × (p < 65536) = ground arith in
        let is : p / 256 % 256 ∷ p % 256 ∷ [] ≡ bs = ground arith in
        let word = be16-bytes p in_range.1 in
        let text : env.itoa (be16 (p / 256 % 256) (p % 256)) ≡ port =
          ap env.itoa word ∙ subst (IsNumber port) e c in
        subst (λ x. Reads x (read_port env) port) is
          (subst (λ x. Reads (p / 256 % 256 ∷ p % 256 ∷ []) (read_port env) x) text
            (Reads-last (λ buf. env.itoa (be16 (get_or buf 0 0) (get_or buf 1 0)))
              (Reads-receive port_number 2 (p / 256 % 256 ∷ p % 256 ∷ []) refl)))
  ]

  pub Reads-address :
      (addr host port bs : Bytes)
      → env.split_host_port addr ≡ some (host, port)
      → env.join_host_port host port ≡ addr
      → IsHost host
      → IsPort port
      → encode_address_binary env addr ≡ ok bs
      → Reads bs (read_address env) addr
  unfolding encode_address_binary read_address
  Reads-address addr host port bs split join ch cp h =
      elim (Result-cases (encode_host_binary env host)) [
        | inl (e, hh) ↦ absurd (ground arith)
        | inr (hbuf, hh) ↦ elim (Result-cases (encode_port_binary env port)) [
          | inl (e, hp) ↦ absurd (ground arith)
          | inr (pbuf, hp) ↦
              let is : hbuf ++ pbuf ≡ bs = ground arith in
              let both : Reads (hbuf ++ pbuf) (read_address env) addr =
                Reads-bind _ (Reads-host host hbuf ch hh) (
                  subst
                    (λ x. Reads pbuf (read_port env >>= λ q. pure (env.join_host_port host q)) x)
                    join (Reads-last (env.join_host_port host) (Reads-port port pbuf cp hp))) in
              subst (λ x. Reads x (read_address env) addr) is both
        ]
      ]

  -- A canonical address that EncodeAddressBinary accepts is read back by ReadAddress from the bytes
  -- it gave, whatever follows them on the connection, which stays unread.
  pub read-encode_address_binary :
      (addr host port bs rest : Bytes) (f : IoError)
      → env.split_host_port addr ≡ some (host, port)
      → env.join_host_port host port ≡ addr
      → IsHost host
      → IsPort port
      → encode_address_binary env addr ≡ ok bs
      → read_address env (stream (bs ++ rest) f) ≡ (ok addr, stream rest f)
  read-encode_address_binary addr host port bs rest f split join ch cp h =
      (Reads-address addr host port bs split join ch cp h).reads rest f
