-- ===== src/Packet/Stream.antt =====
-- What network/packet uses of io and bufio: a reader that fails once its bytes are used up, and a
-- writer that takes a number of bytes more.
use booster.Common.{ℕ, ◌-◌, length, take, drop, leb, if◌then◌else◌, [], ◌∷◌, ◌++◌, Bytes}
use booster.Common.Result.{Result, ok, err, Exec}

pub data IoError : Type 0 where
  eof unexpected_eof closed : IoError
  unexpected_tag : ℕ → ℕ → IoError
  index_out_of_range : IoError

-- An io.Reader: the bytes still to come, and the error that follows them.
pub record Reader : Type 0 where
  pub pending : Bytes
  pub failure : IoError

-- io.ReadFull turns io.EOF into io.ErrUnexpectedEOF when it has read a byte.
abbrev pub short_read : Bytes → IoError → IoError
short_read [] e = e
short_read (b ∷ bs) eof = unexpected_eof
short_read (b ∷ bs) e = e

-- io.ReadFull into a buffer of n bytes.
unfoldable pub read_full : ℕ → Exec Reader IoError Bytes
read_full n r =
    if leb n (length r.pending)
    then (ok (take n r.pending), record r { pending = drop n r.pending })
    else (err (short_read r.pending r.failure), record r { pending = [] })

-- An io.Writer: what it was given, and how many bytes more it takes before it fails.
pub record Writer : Type 0 where
  pub written : Bytes
  pub room : ℕ

abbrev pub advance : Bytes → Writer → Writer
advance bs w = record { written = w.written ++ bs; room = w.room - length bs }

-- w.Write(bs): a short write comes with an error.
unfoldable pub write : Bytes → Exec Writer IoError (Unit {0})
write bs w =
    if leb (length bs) w.room
    then (ok tt, advance bs w)
    else (err closed, advance (take w.room bs) w)

abbrev wrapped : {S E F A : Type 0} → (E → F) → Result E A × S → Result F A × S
wrapped f (ok a, s) = (ok a, s)
wrapped f (err e, s) = (err (f e), s)

-- `if err != nil { return fmt.Errorf(…, err) }`
abbrev pub wrap : {S E F A : Type 0} → (E → F) → Exec S E A → Exec S F A
wrap f m s = wrapped f (m s)
