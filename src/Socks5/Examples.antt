-- ===== src/Socks5/Examples.antt =====
-- Runs of socks5 for a given client.
use booster.Common.{
  ℕ, ◌+◌, ◌-◌, ◌*◌, ◌/◌, ◌%◌, ◌≤◌, ◌≡◌, refl, Option, none, some, [], ◌∷◌, ◌++◌, arith,
  if◌then◌else◌, Bytes, length,
}
use booster.Common.Result.{pure, Exec, ◌>>◌, ok}
use booster.Common.Int.{ℤ, pos}
use booster.Packet.Stream.{eof, Writer, advance}
use booster.Packet.Decoder.Reads.{stream}
use booster.Socks5.Address.{
  Error, Environment, read_address, encode_host_binary, encode_port_binary, encode_address_binary,
}
use booster.Socks5.Address.RoundTrip.{read-encode_address_binary}
use booster.Socks5.Server.{
  client_end, target_end, closing, Session, Target, connected, tunnel_added, tunnel_removed,
  pub_update, connect_reply, handle,
}
use booster.Socks5.Server.Handshake.{client, offers, handle_connects}

-- One literal address, the name of one host, and one port.
abbrev local_ip : Bytes
local_ip = 0 ∷ 0 ∷ 0 ∷ 0 ∷ 0 ∷ 0 ∷ 0 ∷ 0 ∷ 0 ∷ 0 ∷ 255 ∷ 255 ∷ 127 ∷ 0 ∷ 0 ∷ 1 ∷ []

abbrev host : Bytes
host = b'h' ∷ []

abbrev port : Bytes
port = b'8' ∷ b'0' ∷ []

abbrev addr : Bytes
addr = b'h' ∷ b':' ∷ b'8' ∷ b'0' ∷ []

-- The last two digits of a number.
abbrev two_digits : ℕ → Bytes
two_digits n = (b'0' + n / 10 % 10) ∷ (b'0' + n % 10) ∷ []

abbrev read_digits : Bytes → Option ℤ
read_digits [] = none
read_digits (a ∷ s) = elim s [
  | [] ↦ none
  | c ∷ rest ↦ elim rest [ [] ↦ some (pos ((a - b'0') * 10 + (c - b'0'))) | _ ∷ _ ↦ none ]
]

-- A host of one letter and a port of two digits.
abbrev split_short : Bytes → Option (Bytes × Bytes)
split_short [] = none
split_short (h ∷ s) = elim s [ [] ↦ none | _ ∷ rest ↦ some (h ∷ [], rest) ]

abbrev env : Environment
env = record {
  parse_ip = λ s. none;
  to4 = λ ip. some (127 ∷ 0 ∷ 0 ∷ 1 ∷ []);
  ip_string = λ ip. ip;
  split_host_port = split_short;
  join_host_port = λ h p. h ++ b':' ∷ p;
  atoi = read_digits;
  itoa = two_digits;
}

abbrev encoded : Bytes
encoded = 3 ∷ 1 ∷ b'h' ∷ 0 ∷ 80 ∷ []

encodes : encode_address_binary env addr ≡ ok encoded
unfolding encode_address_binary encode_host_binary encode_port_binary
encodes = refl

read-encode_address_binary_example :
    read_address env (stream (encoded ++ 7 ∷ []) eof) ≡ (ok addr, stream (7 ∷ []) eof)
read-encode_address_binary_example =
    read-encode_address_binary env addr host port encoded (7 ∷ []) eof refl refl tt refl encodes

abbrev two_methods : Bytes
two_methods = 2 ∷ 0 ∷ []

abbrev blank : Writer
blank = record { written = []; room = 100 }

abbrev target : Target
target = record { local_ip = local_ip; local_port = 443; remote_addr = addr }

abbrev proxies : Target → Exec Session Error (Unit {0})
proxies t = pure tt

abbrev greeting : Bytes
greeting = 0 ∷ []

reply-fits : 2 + length (connect_reply env (λ a. connected target) target) ≤ blank.room
unfolding connect_reply
reply-fits = omega arith

handle_connects_example :
    handle env
      (λ a. connected target)
      proxies
      (client (5 ∷ length greeting ∷ greeting ++ (5 ∷ 1 ∷ 0 ∷ encoded ++ 7 ∷ [])) eof blank [])
    ≡ closing client_end (closing target_end (proxies target >> pub_update (tunnel_removed addr))) (
        client
          (7 ∷ [])
          eof
          (advance
            (connect_reply env (λ a. connected target) target)
            (advance (5 ∷ (if offers 0 greeting then 0 else 255) ∷ []) blank))
          ([] ++ tunnel_added addr ∷ []))
handle_connects_example =
    handle_connects env (λ a. connected target) greeting (7 ∷ []) addr host port encoded eof blank
      [] target proxies refl refl tt refl encodes refl reply-fits
