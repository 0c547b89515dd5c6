-- ===== src/Packet/Decoder/Reads.antt =====
-- Code that reads given bytes from the front of a stream and leaves what follows them.
use mathlib.Core.List.{append_assoc}
use booster.Common.{
  ℕ, ◌≤◌, ◌≡◌, arith, length, length-append, take-append, drop-append, ◌++◌, Bytes,
}
use booster.Common.Result.{ok, Exec, ◌>>=◌, pure}
use booster.Packet.Stream.{IoError, Reader, read_full}
use booster.Packet.Types.{Place}
use booster.Packet.Tag.{TagReader, new_tag_reader}
use booster.Packet.Tag.Matches.{read_whole}
use booster.Packet.Decoder.{full, expect_whole, expect_part}

abbrev pub stream : Bytes → IoError → Reader
stream bs f = record { pending = bs; failure = f }

pub record Reads {E A : Type 0} (bs : Bytes) (m : Exec Reader E A) (a : A) : Type 0 where
  pub reads : (rest : Bytes) (f : IoError) → m (stream (bs ++ rest) f) ≡ (ok a, stream rest f)

module _ {E A B : Type 0} {xs : Bytes} {m : Exec Reader E A} {a : A} where
  pub Reads-bind :
      {ys : Bytes} (k : A → Exec Reader E B) {b : B}
      → Reads xs m a
      → Reads ys (k a) b
      → Reads (xs ++ ys) (m >>= k) b
  Reads-bind {ys} k rm rk = record {
    reads = λ rest f. rw (append_assoc xs ys rest, rm.reads (ys ++ rest) f) (rk.reads rest f);
  }

  -- The rest of the code goes on behind the bytes.
  pub Reads-run :
      (k : A → Exec Reader E B) (rest : Bytes) (f : IoError)
      → Reads xs m a
      → (m >>= k) (stream (xs ++ rest) f) ≡ k a (stream rest f)
  Reads-run k rest f rm = rw (rm.reads rest f)

  pub Reads-last : (g : A → B) → Reads xs m a → Reads xs (m >>= λ x. pure (g x)) (g a)
  Reads-last g rm = record { reads = λ rest f. rw (rm.reads rest f) }

-- The bytes of a buffer, when their number is the one asked for.
pub Reads-full : (place : Place) (n : ℕ) (bs : Bytes) → length bs ≡ n → Reads bs (full place n) bs
unfolding read_full
Reads-full place n bs h = record {
  reads = λ rest f.
      rw (← h) (ground (arith, length-append bs rest, take-append bs rest, drop-append bs rest));
}

abbrev pub done : Bytes → TagReader
done tag = record { tag = tag; cur = length tag }

pub Reads-whole :
    (place : Place) (tag : Bytes) (n : ℕ)
    → length tag ≤ n
    → Reads tag (expect_whole place (new_tag_reader tag) n) (done tag)
unfolding expect_whole
Reads-whole place tag n h = record { reads = λ rest f. rw (read_whole tag rest n f h) }

pub Reads-part :
    (place : Place) (tag : Bytes) (n : ℕ)
    → length tag ≤ n
    → Reads tag (expect_part place (new_tag_reader tag) n) (done tag)
unfolding expect_part
Reads-part place tag n h = record { reads = λ rest f. rw (read_whole tag rest n f h) }
