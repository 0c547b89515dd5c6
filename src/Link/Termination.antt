-- ===== src/Link/Termination.antt =====
-- How much of the stream the decoder takes, and that consuming a stream comes to an end.
use booster.Common.{
  ℕ, zero, suc, ◌+◌, ◌≤◌, ◌<◌, ◌≡◌, refl, ap, inl, inr, Option, some, List, [], ◌∷◌, ◌++◌, arith,
  ◌==◌, leb, Bool-cases, length, drop, Bytes,
}
use booster.Common.Result.{Result, ok, err, Exec, resume, ◌>>=◌, pure}
use booster.Packet.Stream.{Reader, IoError, read_full}
use booster.Packet.Types.{Place, TagSet, Metadata, Module, Packet, new}
use booster.Packet.Tag.{TagReader, read_loop, read}
use booster.Packet.Decoder.{
  full, expect_whole, expect_part, expect_closing, decode_module, decode_modules, decode_metadata,
  decode,
}
use booster.Link.{Conn, consume_turn, consumed, after_decode, loop_on, keep_packet}

abbrev left : {E A : Type 0} → ℕ → Result E A × Reader → ℕ
left n (ok a, r) = n + length r.pending
left n (err e, r) = length r.pending

-- The code takes n bytes at least when it succeeds, and puts none back.
pub record Takes {E A : Type 0} (n : ℕ) (m : Exec Reader E A) : Type 0 where
  pub takes : (r : Reader) → left n (m r) ≤ length r.pending

left_more :
    {E A : Type 0} (i j n : ℕ) (x : Result E A × Reader) → left j x ≤ n → left (i + j) x ≤ i + n
left_more i j n (ok a, r) l = omega arith
left_more i j n (err e, r) l = omega arith

module _ {E A B : Type 0} where
  resume-left :
      (i j n : ℕ) (k : A → Exec Reader E B) (x : Result E A × Reader)
      → ((a : A) → Takes j (k a))
      → left i x ≤ n
      → left (i + j) (resume k x) ≤ n
  resume-left i j n k (ok a, r) h l =
      omega (arith, left_more i j (length r.pending) (k a r) ((h a).takes r))
  resume-left i j n k (err e, r) h l = l

  Takes-bind :
      {i j : ℕ} {m : Exec Reader E A} {k : A → Exec Reader E B}
      → Takes i m
      → ((a : A) → Takes j (k a))
      → Takes (i + j) (m >>= k)
  Takes-bind {i} {j} {m} {k} h hk = record {
    takes = λ r. resume-left i j (length r.pending) k (m r) hk (h.takes r);
  }

Takes-pure : {E A : Type 0} (a : A) → Takes 0 (pure {E = E} a)
Takes-pure a = record { takes = λ r. omega arith }

length-drop : (n : ℕ) (xs : Bytes) → n ≤ length xs → n + length (drop n xs) ≡ length xs
length-drop zero xs h = omega arith
length-drop (suc n) [] h = absurd (omega arith)
length-drop (suc n) (x ∷ xs) h = omega (arith, length-drop n xs (omega arith))

Takes-full : (place : Place) (n : ℕ) → Takes n (full place n)
unfolding read_full
Takes-full place n = record {
  takes = λ r. elim (Bool-cases (leb n (length r.pending))) [
    | inl e ↦ rw (full, read_full, e) (omega (arith, length-drop n r.pending (ground arith)))
    | inr e ↦ rw (full, read_full, e) (omega arith)
  ];
}

read_loop-pending :
    (room : ℕ) (t : TagReader) (buf bs : Bytes) (f : IoError)
    → length (read_loop room t buf (record { pending = bs; failure = f })).reader.pending
      ≤ length bs
unfolding read_loop
read_loop-pending zero t buf bs f = omega arith
read_loop-pending (suc room) t buf [] f = elim (Bool-cases (t.cur == length t.tag)) [
  | inl e ↦ rw e (omega arith)
  | inr e ↦ rw e (omega arith)
]
read_loop-pending (suc room) t buf (b ∷ bs) f =
    let rest = read_loop-pending room (record t { cur = t.cur + 1 }) (buf ++ b ∷ []) bs f in
    ground (arith, rest)

read-pending :
    (t : TagReader) (n : ℕ) (r : Reader) → length (read t n r).reader.pending ≤ length r.pending
unfolding read
read-pending t n r = read_loop-pending n t [] r.pending r.failure

Takes-whole : (place : Place) (t : TagReader) (n : ℕ) → Takes 0 (expect_whole place t n)
unfolding expect_whole
Takes-whole place t n = record { takes = λ r. let l = read-pending t n r in ground (arith, l) }

Takes-part : (place : Place) (t : TagReader) (n : ℕ) → Takes 0 (expect_part place t n)
unfolding expect_part
Takes-part place t n = record { takes = λ r. let l = read-pending t n r in ground (arith, l) }

Takes-closing : (t : TagReader) (p : Packet) → Takes 0 (expect_closing t p)
unfolding expect_closing
Takes-closing t p = record { takes = λ r. let l = read-pending t 4 r in ground (arith, l) }

left_less :
    {E A : Type 0} (i j n : ℕ) (x : Result E A × Reader) → j ≤ i → left i x ≤ n → left j x ≤ n
left_less i j n (ok a, r) l h = omega arith
left_less i j n (err e, r) l h = h

Takes-less : {E A : Type 0} {m : Exec Reader E A} (i j : ℕ) → j ≤ i → Takes i m → Takes j m
Takes-less {m = m} i j l h = record {
  takes = λ r. left_less i j (length r.pending) (m r) l (h.takes r);
}

-- A part that takes something or nothing, in front of the rest.
Takes-skip :
    {E A B : Type 0} {i j : ℕ} {m : Exec Reader E A} {k : A → Exec Reader E B}
    → Takes i m
    → ((a : A) → Takes j (k a))
    → Takes j (m >>= k)
Takes-skip {i = i} {j} h hk = Takes-less (i + j) j (omega arith) (Takes-bind h hk)

decode_module-Takes : (t : TagSet) → Takes 0 (decode_module t)
unfolding decode_module
decode_module-Takes t = Takes-skip (Takes-whole _ _ _) λ otr. Takes-skip (Takes-full _ _) λ id.
    Takes-skip (Takes-whole _ _ _) λ sr. Takes-skip (Takes-full _ _) λ buf.
      Takes-skip (Takes-whole _ _ _) λ sr'.
        Takes-skip (Takes-full _ _) λ payload. Takes-skip (Takes-whole _ _ _) λ ctr. Takes-pure _

decode_modules-Takes :
    (t : TagSet) (ctr : TagReader) (n : ℕ) (p : Packet) → Takes 0 (decode_modules t ctr n p)
unfolding decode_modules
decode_modules-Takes t ctr zero p = Takes-closing ctr p
decode_modules-Takes t ctr (suc n) p =
    Takes-skip (decode_module-Takes t) λ m. decode_modules-Takes t ctr n _

decode_metadata-Takes : (t : TagSet) → Takes 0 (decode_metadata t)
unfolding decode_metadata
decode_metadata-Takes t = Takes-skip (Takes-whole _ _ _) λ otr. Takes-skip (Takes-full _ _) λ enc.
    Takes-skip (Takes-part _ _ _) λ str. Takes-skip (Takes-full _ _) λ cmp.
      Takes-skip (Takes-part _ _ _) λ str'.
        Takes-skip (Takes-full _ _) λ enr. Takes-skip (Takes-part _ _ _) λ str''. Takes-pure _

-- A packet is a byte at least: the number of its modules.
decode-Takes : (t : TagSet) (p : Packet) → Takes 1 (decode t p)
unfolding decode
decode-Takes t p = Takes-skip (decode_metadata-Takes t) λ meta.
    Takes-less (1 + 0) 1 (omega arith)
      (Takes-bind (Takes-full _ 1) λ mn. decode_modules-Takes t _ _ _)

-- The loop has ended, with an error, after so many packets at most.
pub record Ends (n : ℕ) (o : Option (List Packet × Conn)) : Type 0 where
  pub packets : List Packet
  pub conn : Conn
  pub error : booster.Packet.Types.Error
  pub closed : o ≡ some (packets, conn)
  pub few : length packets ≤ n
  pub failed : conn.error ≡ some error

Ends-keep :
    (k n : ℕ) (p : Packet) (o : Option (List Packet × Conn))
    → k < n
    → Ends k o
    → Ends n (keep_packet p o)
Ends-keep k n p o l h = record {
  packets = p ∷ h.packets;
  conn = h.conn;
  error = h.error;
  closed = ap (keep_packet p) h.closed;
  few = let f = h.few in omega arith;
  failed = h.failed;
}

Ends-after :
    (n : ℕ) (c : Conn) (x : Result booster.Packet.Types.Error Packet × Reader)
    → left 1 x ≤ length c.incoming.pending
    → ((c' : Conn)
        → length c'.incoming.pending < length c.incoming.pending
        → Ends (length c'.incoming.pending) (consumed n c'))
    → Ends (length c.incoming.pending) (loop_on (consumed n) (after_decode c x))
Ends-after n c (err e, r) l rest = record {
  packets = [];
  conn = (after_decode c (err e, r)).1;
  error = e;
  closed = refl;
  few = omega arith;
  failed = refl;
}
Ends-after n c (ok p, r) l rest =
    Ends-keep (length r.pending) (length c.incoming.pending) p _ (omega arith)
      (rest (record c { incoming = r }) (omega arith))

-- Consuming ends, with the error in Err, whatever the stream has: turns that are one more than the
-- bytes still to come are enough, and there are no more packets than bytes.
pub consumed-Ends :
    (n : ℕ) (c : Conn)
    → length c.incoming.pending < n
    → Ends (length c.incoming.pending) (consumed n c)
unfolding consumed consume_turn
consumed-Ends zero c more = absurd (omega arith)
consumed-Ends (suc n) c more =
    Ends-after n c (decode c.config.tag_set new c.incoming)
      ((decode-Takes c.config.tag_set new).takes c.incoming)
      λ c' less. consumed-Ends n c' (omega arith)
