-- ===== src/Common/Steps.antt =====
-- Sequences of events, each of which is a step of a state or cannot happen in it.
use mathlib.Core.Path.{◌≡◌, subst}
use mathlib.Core.Logic.{inl, inr}
use mathlib.Core.Option.{Option, none, some}
use mathlib.Core.List.{List, [], ◌∷◌, ◌++◌}
use native.Mathlib.Omega.{arith}
use booster.Common.Tests.{Option-cases}

module _ {S E : Type 0} (step : E → S → Option S) where
  unfoldable pub run_each : List E → S → Option S
  run_each [] s = some s
  run_each (e ∷ es) s = elim (step e s) [ none ↦ none | some t ↦ run_each es t ]

  -- What each step keeps, a sequence of steps keeps.
  pub run_each-keeps :
      (P : S → Type 0)
      → ((e : E) (s t : S) → step e s ≡ some t → P s → P t)
      → (es : List E) (s t : S) → run_each es s ≡ some t
      → P s
      → P t
  unfolding run_each
  run_each-keeps P keep [] s t h p = subst (λ o. elim o [ none ↦ P s | some x ↦ P x ]) h p
  run_each-keeps P keep (e ∷ es) s t h p = elim (Option-cases (step e s)) [
    | inl f ↦ absurd (ground arith)
    | inr (u, f) ↦ run_each-keeps P keep es u t (ground arith) (keep e s u f p)
  ]

  pub run_each-append :
      (es fs : List E) (s t : S) → run_each es s ≡ some t → run_each (es ++ fs) s ≡ run_each fs t
  unfolding run_each
  run_each-append [] fs s t h = ground arith
  run_each-append (e ∷ es) fs s t h = elim (Option-cases (step e s)) [
    | inl f ↦ absurd (ground arith)
    | inr (u, f) ↦ rw f (run_each-append es fs u t (ground arith))
  ]
