-- ===== src/Session/Running/Ends.antt =====
-- How Run ends, and when it does not.
use booster.Common.{ℕ, ◌≡◌, refl, true, false, some, List, [], ◌∷◌, arith, Bytes, subst}
use booster.Common.Steps.{run_each, run_each-keeps}
use booster.Session.Running.{
  RunError, stopped, Main, selecting, stopping, restarting, returned, Round, serving, closing,
  winding, offering, over, Runner, started, Event, closes, restarts, hears_close, hears_run_close,
  hears_restart, routine_returns, routines_end, hears_error, routine_returned, close_heard,
  run_close_heard, restart_heard, waited, error_heard, run_step, runs,
}

-- While Run selects, the context goes on and run does not offer its error yet.
abbrev Serves : Round → Type 0
Serves serving = Unit {0}
Serves (closing e) = Unit {0}
Serves _ = ⊥

abbrev IsRunning : Main → Runner → Type 0
IsRunning selecting r = (r.context_done ≡ false) × Serves r.round
IsRunning stopping r = Unit {0}
IsRunning restarting r = Unit {0}
IsRunning (returned e) r = e ≡ stopped

abbrev IsRunner : Runner → Type 0
IsRunner r = IsRunning r.main r

run_step-IsRunner : (e : Event) (r t : Runner) → run_step e r ≡ some t → IsRunner r → IsRunner t
unfolding run_step routine_returned close_heard run_close_heard restart_heard waited error_heard
run_step-IsRunner closes r t e h = ground arith
run_step-IsRunner restarts r t e h = ground arith
run_step-IsRunner hears_close r t e h = ground arith
run_step-IsRunner hears_run_close r t e h = ground arith
run_step-IsRunner hears_restart r t e h = ground arith
run_step-IsRunner (routine_returns x) r t e h = ground arith
run_step-IsRunner routines_end r t e h = ground arith
run_step-IsRunner hears_error r t e h = ground arith

-- Run returns no error but `booster: stopped`, whatever its routines return and whoever calls Close
-- and Restart.
pub runs-stopped :
    (es : List Event) (r : Runner) (e : RunError)
    → runs es started ≡ some r
    → r.main ≡ returned e
    → e ≡ stopped
unfolding started
runs-stopped es r e at_ ended =
    let known = run_each-keeps run_step IsRunner run_step-IsRunner es started r at_ (refl, tt) in
    subst (λ m. IsRunning m r) ended known

-- Run, from the state on, can return `booster: stopped`.
abbrev pub CanStop : Runner → Type 0
CanStop r = (es : List Event) × (t : Runner) × (runs es r ≡ some t) × (t.main ≡ returned stopped)

abbrev at_select : ℕ → ℕ → Round → Runner
at_select c n m = record {
  main = selecting;
  round = m;
  context_done = false;
  closers = c;
  restarters = n;
}

can_stop : (c n : ℕ) (m : Round) → Serves m → CanStop (at_select c n m)
unfolding run_each run_step routine_returned close_heard run_close_heard waited error_heard
can_stop c n serving h = (
  closes ∷ hears_close ∷ routine_returns [] ∷ routines_end ∷ hears_error ∷ [],
  record (at_select c n over) { main = returned stopped; context_done = true },
  ground arith,
  refl,
)
can_stop c n (closing e) h = (
  hears_run_close ∷ routines_end ∷ hears_error ∷ [],
  record (at_select c n over) { main = returned stopped; context_done = true },
  refl,
  refl,
)
can_stop c n (winding e) h = absurd h
can_stop c n (offering e) h = absurd h
can_stop c n over h = absurd h

-- As long as Run waits for a stop, a restart or an error, it can still be stopped, whatever
-- happened before.
pub runs-CanStop :
    (es : List Event) (r : Runner) → runs es started ≡ some r → r.main ≡ selecting → CanStop r
unfolding started
runs-CanStop es r at_ selects =
    let known = run_each-keeps run_step IsRunner run_step-IsRunner es started r at_ (refl, tt) in
    let (on, serves) = subst (λ m. IsRunning m r) selects known in
    let is : at_select r.closers r.restarters r.round ≡ r = ground arith in
    subst CanStop is (can_stop r.closers r.restarters r.round serves)

-- Run waits for run, which waits for Run.
abbrev IsStuck : Bytes → Runner → Type 0
IsStuck x r = (r.main ≡ restarting) × (r.round ≡ closing x)

run_step-IsStuck :
    (x : Bytes) (e : Event) (r t : Runner) → run_step e r ≡ some t → IsStuck x r → IsStuck x t
unfolding run_step routine_returned close_heard run_close_heard restart_heard waited error_heard
run_step-IsStuck x closes r t f h = ground arith
run_step-IsStuck x e r t f h = ground arith

-- A routine fails, and the restart that waits is heard before run's own Close.
abbrev pub race : Bytes → List Event
race e = restarts ∷ routine_returns e ∷ hears_restart ∷ []

-- If a routine fails while a call of Restart waits, Run may hear the restart first; then Run waits
-- for run and run for Run, and whatever follows, no round is started and Run does not return.
pub race-IsStuck :
    (e : Bytes)
    → (r : Runner) × (runs (race e) started ≡ some r)
      × ((es : List Event) (t : Runner)
          → runs es r ≡ some t
          → (t.main ≡ restarting) × (t.round ≡ closing e))
unfolding run_each started run_step routine_returned restart_heard
race-IsStuck e = (
  record started { main = restarting; round = closing e; context_done = true },
  refl,
  λ es t at_. run_each-keeps run_step (IsStuck e) (run_step-IsStuck e) es _ t at_ (refl, refl),
)
