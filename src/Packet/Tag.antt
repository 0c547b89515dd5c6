-- ===== src/Packet/Tag.antt =====
-- network/packet/tag.go. The reader `r` of a TagReader is shared with the decoder, so it is passed.
pub mod Matches
use booster.Common.{
  ℕ, zero, suc, ◌+◌, ◌==◌, length, get_elem?, if◌then◌else◌, [], ◌∷◌, ◌++◌, Bytes, Option, none,
  some,
}
use booster.Packet.Stream.{IoError, eof, unexpected_tag, index_out_of_range, Reader, Writer, write}
use booster.Common.Result.{Exec}

pub record TagReader : Type 0 where
  pub tag : Bytes
  pub cur : ℕ

abbrev pub new_tag_reader : Bytes → TagReader
new_tag_reader tag = record { tag = tag; cur = 0 }

abbrev pub flush : TagReader → TagReader
flush t = record t { cur = 0 }

-- What `Read` leaves: the bytes it read, which are `n` and the front of `p`, and its error.
pub record TagRead : Type 0 where
  pub tags : TagReader
  pub buf : Bytes
  pub error : Option IoError
  pub reader : Reader

-- The loop of `Read`; `room` is len(p) - n. The whole tag read is reported as io.EOF.
unfoldable pub read_loop : ℕ → TagReader → Bytes → Reader → TagRead
read_loop zero t buf r = record {
  tags = t;
  buf = buf;
  error = if t.cur == length t.tag then some eof else none;
  reader = r;
}
read_loop (suc room) t buf r =
    if t.cur == length t.tag
    then record { tags = t; buf = buf; error = some eof; reader = r }
    else elim r.pending [
      | [] ↦ record { tags = t; buf = buf; error = some r.failure; reader = r }
      | b ∷ rest ↦
          let r' : Reader = record r { pending = rest } in
          let buf' : Bytes = buf ++ b ∷ [] in
          let more = read_loop room (record t { cur = t.cur + 1 }) buf' r' in
          elim (get_elem? t.tag t.cur) [
            | none ↦ record { tags = t; buf = buf'; error = some index_out_of_range; reader = r' }
            | some ct ↦ if b == ct then more else record {
              tags = t;
              buf = buf';
              error = some (unexpected_tag ct b);
              reader = r';
            }
          ]
    ]

-- t.Read(p) with len(p) = n.
unfoldable pub read : TagReader → ℕ → Reader → TagRead
unfolding read_loop
read t n r = read_loop n t [] r

-- TagWriter.Write
unfoldable pub write_tag : Bytes → Exec Writer IoError (Unit {0})
unfolding write
write_tag tag = write tag
