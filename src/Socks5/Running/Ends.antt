-- ===== src/Socks5/Running/Ends.antt =====
-- What holds while Run runs, and when it has returned.
use booster.Common.{◌≡◌, refl, Bool, true, false, not, some, List, arith, subst}
use booster.Common.Steps.{run_each, run_each-keeps}
use booster.Socks5.Running.{
  RunError, stopped, failed, Main, selecting, stopping, returned, Serving, listening, waiting,
  leaving, offering, over, Accepting, absent, accepting, refusing, gone, Server, started, Event,
  closes, hears_stop, listens, accepts, accept_fails, hears_done, hears_accept, hears_error,
  stop_heard, listened, accepted, accept_failed, done_heard, accept_heard, error_heard, server_step,
}

-- The accept loop runs, or waits to hand over its error.
abbrev Loops : Accepting → Type 0
Loops accepting = Unit {0}
Loops (refusing e) = Unit {0}
Loops _ = ⊥

abbrev IsGone : Accepting → Type 0
IsGone absent = Unit {0}
IsGone gone = Unit {0}
IsGone _ = ⊥

-- The accept loop and the listener, as ListenAndServe has them.
abbrev pub IsServing : Serving → Server → Type 0
IsServing listening s = (s.loop ≡ absent) × (s.is_open ≡ false)
IsServing waiting s = Loops s.loop × (s.is_open ≡ true)
IsServing leaving s = Loops s.loop × (s.is_open ≡ false)
IsServing (offering e) s = IsGone s.loop × (s.is_open ≡ false)
IsServing over s = IsGone s.loop × (s.is_open ≡ false)

abbrev pub IsLive : Serving → Type 0
IsLive over = ⊥
IsLive _ = Unit {0}

-- Run's context and its tickers.
abbrev pub IsMain : Main → Server → Type 0
IsMain selecting s = IsLive s.serving × (s.context_done ≡ false) × (s.ticking ≡ true)
IsMain stopping s = IsLive s.serving × (s.context_done ≡ true) × (s.ticking ≡ false)
IsMain (returned stopped) s = (s.serving ≡ over) × (s.context_done ≡ true) × (s.ticking ≡ false)
IsMain (returned (failed e)) s = (s.serving ≡ over) × (s.context_done ≡ true) × (s.ticking ≡ true)

abbrev pub IsServer : Server → Type 0
IsServer s = IsServing s.serving s × IsMain s.main s

pub server_step-IsServer :
    (e : Event) (s t : Server) → server_step e s ≡ some t → IsServer s → IsServer t
unfolding server_step stop_heard listened accepted accept_failed done_heard accept_heard error_heard
server_step-IsServer closes s t e h = ground arith
server_step-IsServer hears_stop s t e h = ground arith
server_step-IsServer (listens x) s t e h = ground arith
server_step-IsServer accepts s t e h = ground arith
server_step-IsServer (accept_fails x) s t e h = ground arith
server_step-IsServer hears_done s t e h = ground arith
server_step-IsServer hears_accept s t e h = ground arith
server_step-IsServer hears_error s t e h = ground arith

pub reached-IsServer :
    (es : List Event) (s : Server) → run_each server_step es started ≡ some s → IsServer s
unfolding started
reached-IsServer es s at_ =
    run_each-keeps server_step IsServer server_step-IsServer es started s at_
      ((refl, refl), (tt, refl, refl))

-- What Run leaves behind: the context has ended, ListenAndServe is over, its listener is closed and
-- the accept loop does not run.
abbrev pub IsOver : Server → Type 0
IsOver s = (s.context_done ≡ true) × (s.serving ≡ over) × (s.is_open ≡ false) × IsGone s.loop

abbrev pub is_stopped : RunError → Bool
is_stopped stopped = true
is_stopped (failed e) = false

-- The tickers go on after an error.
left_behind :
    (x : RunError) (s : Server)
    → IsServing s.serving s
    → IsMain (returned x) s
    → IsOver s × (s.ticking ≡ not (is_stopped x))
left_behind stopped s h k = ground arith
left_behind (failed e) s h k = ground arith

-- However the goroutines of Run take their turns: when Run has returned, its context has ended,
-- ListenAndServe is over, the listener is closed and the accept loop does not run. The tickers of the
-- bandwidth are stopped just when Run returned because of a Close; after an error they go on.
pub run_each-IsOver :
    (es : List Event) (s : Server) (x : RunError)
    → run_each server_step es started ≡ some s
    → s.main ≡ returned x
    → IsOver s × (s.ticking ≡ not (is_stopped x))
run_each-IsOver es s x at_ ended =
    let (serves, mains) = reached-IsServer es s at_ in
    left_behind x s serves (subst (λ m. IsMain m s) ended mains)
