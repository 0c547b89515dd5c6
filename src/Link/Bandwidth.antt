-- ===== src/Link/Bandwidth.antt =====
-- network/network.go: NetworkIO, which measures what is copied. An int64 and an int are their 64
-- bits.
use booster.Common.{
  ℕ, ◌+◌, ◌-◌, ◌%◌, ◌<◌, ◌≡◌, refl, ap, ◌∙◌, Bool, true, false, Option, List, [], ◌∷◌, arith,
  Bool-cases, inl, inr, ◌==◌, if◌then◌else◌, length, Bytes,
}

abbrev pub bits64 : ℕ → ℕ
bits64 n = n % 0x10000000000000000

pub record NetworkIo : Type 0 where
  pub n : ℕ
  pub bandwidth : ℕ
  pub t : ℕ

-- CopyN; `copied` is the outcome of io.CopyN.
unfoldable pub copy_n : ℕ × Option Bytes → NetworkIo → (ℕ × Option Bytes) × NetworkIo
copy_n copied b = (copied, record b { n = bits64 (b.n + copied.0); t = bits64 (b.t + 1) })

-- The state of the goroutine that TickerFunc starts.
pub record Ticking : Type 0 where
  pub io : NetworkIo
  pub prev : ℕ

-- TickerFunc, up to the loop.
unfoldable pub ticker_func : NetworkIo → Ticking
ticker_func b = record { io = b; prev = b.n }

-- One turn of the loop, and whether f is called. N is read once, and only this code writes
-- Bandwidth, so that a copy between its two locked parts changes nothing in it.
unfoldable pub tick : Ticking → Bool × Ticking
tick s =
    if s.io.t == 0
    then (false, s)
    else let bw = bits64 (s.io.n + (0x10000000000000000 - s.prev)) in
      (true, record { io = record s.io { bandwidth = bw }; prev = bits64 (s.prev + bw) })

pub data Event : Type 0 where
  copies : ℕ × Option Bytes → Event
  ticks : Event

-- What f finds in Bandwidth, call by call.
abbrev pub reported : Bool × Ticking → List ℕ → List ℕ
reported (true, s) rest = s.io.bandwidth ∷ rest
reported (false, s) rest = rest

abbrev pub reports : List Event → Ticking → List ℕ
reports [] s = []
reports (copies copied ∷ es) s = reports es (record s { io = (copy_n copied s.io).1 })
reports (ticks ∷ es) s = let r = tick s in reported r (reports es r.1)

-- The bytes between a call of f and the next one, without a counter that wraps around.
abbrev pub between : Bool → ℕ → List Event → List ℕ
between called since [] = []
between called since (copies copied ∷ es) = between true (since + copied.0) es
between true since (ticks ∷ es) = bits64 since ∷ between true 0 es
between false since (ticks ∷ es) = between false since es

pub record IsTicking (s : Ticking) (since : ℕ) : Type 0 where
  pub n_fits : s.io.n < 0x10000000000000000
  pub prev_fits : s.prev < 0x10000000000000000
  pub counts : s.io.n ≡ bits64 (s.prev + since)

reports-between :
    (es : List Event) (s : Ticking) (since : ℕ)
    → IsTicking s since
    → s.io.t + length es < 0x10000000000000000
    → reports es s ≡ between (if s.io.t == 0 then false else true) since es
unfolding copy_n tick
reports-between [] s since h few = refl
reports-between (copies copied ∷ es) s since h few =
    let after = record s { io = (copy_n copied s.io).1 } in
    let counting : IsTicking after (since + copied.0) = record {
      n_fits = omega arith;
      prev_fits = h.prev_fits;
      counts = let e = h.counts in omega arith;
    } in
    let called : (bits64 (s.io.t + 1) == 0) ≡ false = ground arith in
    reports-between es after (since + copied.0) counting (omega arith)
    ∙ ap (λ b. between (if b then false else true) (since + copied.0) es) called
reports-between (ticks ∷ es) s since h few = elim (Bool-cases (s.io.t == 0)) [
  | inl e ↦
      rw (tick, e)
        (reports-between es s since h (omega arith)
          ∙ ap (λ b. between (if b then false else true) since es) e)
  | inr e ↦
      let bw = bits64 (s.io.n + (0x10000000000000000 - s.prev)) in
      let counted = h.counts in
      let is : bw ≡ bits64 since = omega arith in
      let after : Ticking = record {
        io = record s.io { bandwidth = bw };
        prev = bits64 (s.prev + bw);
      } in
      let counting : IsTicking after 0 = record {
        n_fits = h.n_fits;
        prev_fits = omega arith;
        counts = omega arith;
      } in
      let rest = reports-between es after 0 counting (omega arith) in
      rw (tick, e)
        (ap (λ b. b ∷ reports es after) is
          ∙ ap (λ r. bits64 since ∷ r)
              (rest ∙ ap (λ b. between (if b then false else true) 0 es) e))
]

-- What TickerFunc's function finds in Bandwidth, call by call, is what was copied since it was last
-- called, or since TickerFunc was; before the first copy of all it is not called. An int64 has the
-- low 64 bits of a number. There are fewer copies than an int counts.
pub ticker_func-between :
    (es : List Event) (b : NetworkIo)
    → b.n < 0x10000000000000000
    → b.t + length es < 0x10000000000000000
    → reports es (ticker_func b) ≡ between (if b.t == 0 then false else true) 0 es
unfolding ticker_func
ticker_func-between es b fits few =
    reports-between es (ticker_func b) 0
      (record { n_fits = fits; prev_fits = fits; counts = omega arith }) few
