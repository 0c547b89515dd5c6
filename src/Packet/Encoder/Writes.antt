-- ===== src/Packet/Encoder/Writes.antt =====
-- Code that writes given bytes: all of them where the writer has room, else as many as fit.
use mathlib.Core.List.{append_assoc, append-nil}
use booster.Common.{
  ◌≤◌, ◌<◌, ◌≡◌, refl, sym, ap, ◌∙◌, inl, inr, arith, length, take, length-append, take-append_le,
  take-append_ge, leb, Bool-cases, [], ◌++◌, Bytes,
}
use booster.Common.Result.{ok, err, Exec, ◌>>◌, pure}
use booster.Packet.Stream.{IoError, closed, Writer, write, advance, wrap}

pub record Writes {E : Type 0} (bs : Bytes) (m : Exec Writer E (Unit {0})) : Type 0 where
  pub fits : (w : Writer) → length bs ≤ w.room → m w ≡ (ok tt, advance bs w)
  pub breaks :
      (w : Writer) → w.room < length bs → (e : E) × (m w ≡ (err e, advance (take w.room bs) w))

Writer_eq : (v w : Writer) → v.written ≡ w.written → v.room ≡ w.room → v ≡ w
Writer_eq v w p q = λ i. record { written = p i; room = q i }

pub advance-advance :
    (xs ys : Bytes) (w : Writer) → advance ys (advance xs w) ≡ advance (xs ++ ys) w
advance-advance xs ys w =
    Writer_eq _ _ (append_assoc w.written xs ys) (omega (arith, length-append xs ys))

pub advance-nil : (w : Writer) → advance [] w ≡ w
advance-nil w = Writer_eq _ _ (append-nil _) (omega arith)

pub Writes-write : {E : Type 0} (f : IoError → E) (bs : Bytes) → Writes bs (wrap f (write bs))
unfolding write
Writes-write f bs = record { fits = λ w h. ground arith; breaks = λ w h. (f closed, ground arith) }

pub Writes-pure : {E : Type 0} → Writes [] (pure {E = E} tt)
Writes-pure = record {
  fits = λ w _. ap (λ v. (ok tt, v)) (sym (advance-nil w));
  breaks = λ w l. absurd (omega arith);
}

module _ {E : Type 0} {xs ys : Bytes} {m k : Exec Writer E (Unit {0})} where
  -- The first part fails, or the second does with the room that is left.
  breaks->> :
      Writes xs m
      → Writes ys k
      → (w : Writer) → w.room < length (xs ++ ys)
      → (e : E) × ((m >> k) w ≡ (err e, advance (take w.room (xs ++ ys)) w))
  breaks->> wm wk w h = elim (Bool-cases (leb (length xs) w.room)) [
    | inl t ↦
        let fit : length xs ≤ w.room = ground arith in
        let (e, q) = wk.breaks (advance xs w) (omega (arith, length-append xs ys)) in
        (
          e,
          rw (wm.fits w fit, take-append_ge w.room xs ys fit)
              (q ∙ ap (λ v. (err e, v)) (advance-advance xs _ w)),
        )
    | inr t ↦
        let (e, q) = wm.breaks w (ground arith) in
        (e, rw (q, take-append_le w.room xs ys (ground arith)) refl)
  ]

  pub Writes->> : Writes xs m → Writes ys k → Writes (xs ++ ys) (m >> k)
  Writes->> wm wk = record {
    fits = λ w h. rw (wm.fits w (omega (arith, length-append xs ys))) (
        wk.fits _ (omega (arith, length-append xs ys))
        ∙ ap (λ v. (ok tt, v)) (advance-advance xs ys w));
    breaks = breaks->> wm wk;
  }
