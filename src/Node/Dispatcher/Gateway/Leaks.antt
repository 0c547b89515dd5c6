-- ===== src/Node/Dispatcher/Gateway/Leaks.antt =====
-- What DialContext leaves behind when it returns.
use booster.Common.{◌≡◌, some, List, arith, subst}
use booster.Common.Steps.{run_each, run_each-keeps}
use booster.Node.Dispatcher.Gateway.{
  Answer, cancelled, failed, connected, Caller, selecting, returned, Dialling, over, Call, called,
  Event, context_ends, dial_fails, dial_connects, hears_done, hears_error, hears_conn, dialled,
  done_heard, error_heard, conn_heard, call_step,
}

-- The goroutine dials, or waits to send.
abbrev pub IsHeld : Dialling → Type 0
IsHeld over = ⊥
IsHeld _ = Unit {0}

-- The goroutine, beside what DialContext returns.
abbrev pub IsLeft : Answer → Dialling → Type 0
IsLeft cancelled d = IsHeld d
IsLeft (failed e) d = d ≡ over
IsLeft (connected n) d = d ≡ over

abbrev IsCalled : Caller → Dialling → Type 0
IsCalled selecting d = IsHeld d
IsCalled (returned a) d = IsLeft a d

abbrev IsCall : Call → Type 0
IsCall c = IsCalled c.caller c.dial

call_step-IsCall : (e : Event) (c d : Call) → call_step e c ≡ some d → IsCall c → IsCall d
unfolding call_step dialled done_heard error_heard conn_heard
call_step-IsCall context_ends c d e h = ground arith
call_step-IsCall (dial_fails x) c d e h = ground arith
call_step-IsCall (dial_connects n) c d e h = ground arith
call_step-IsCall hears_done c d e h = ground arith
call_step-IsCall hears_error c d e h = ground arith
call_step-IsCall hears_conn c d e h = ground arith

call_step-returned :
    (a : Answer) (e : Event) (c d : Call)
    → call_step e c ≡ some d
    → c.caller ≡ returned a
    → d.caller ≡ returned a
unfolding call_step dialled done_heard error_heard conn_heard
call_step-returned a e c d f h = ground arith

-- The goroutine of a call that has returned is over if DialContext returned its connection or its
-- error. If DialContext returned because the context had ended, it is never over, whatever follows:
-- it dials, or it waits to send what it got.
pub run_each-IsLeft :
    (before after : List Event) (c d : Call) (a : Answer)
    → run_each call_step before called ≡ some c
    → c.caller ≡ returned a
    → run_each call_step after c ≡ some d
    → IsLeft a d.dial
unfolding called
run_each-IsLeft before after c d a at_ ends then_ =
    let known = run_each-keeps call_step IsCall call_step-IsCall before called c at_ tt in
    let known' = run_each-keeps call_step IsCall call_step-IsCall after c d then_ known in
    let same =
      run_each-keeps call_step (λ x. x.caller ≡ returned a) (call_step-returned a) after c d then_
        ends in
    subst (λ m. IsCalled m d.dial) same known'
