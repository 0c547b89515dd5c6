-- ===== src/PubSub/Pipeline/Waits.antt =====
-- A call that waits for the goroutine of run after it has ended waits for ever, with the lock.
use booster.Common.{◌≡◌, refl, false, some, List, [], ◌∷◌, arith, Bytes}
use booster.Common.Steps.{run_each, run_each-keeps}
use booster.PubSub.Pipeline.{
  Pipe, Holder, free, handing, asking, finishing, subscribed, Action, publishes, hears_message,
  expires, hears_timer, unsubscribes, take_out, pub_begins, message_heard, put_out, expired,
  timer_heard, unsub_heard, unsub_begins, deactivated, out_closed, run_ends, unsub_ends, range_over,
  act, schedule,
}

-- Pub or Unsub waits, but no goroutine is left that listens.
abbrev pub Blocks : Holder → Pipe → Type 0
Blocks h p = (p.looping ≡ false) × (p.holder ≡ h)

abbrev Waits : Holder → Type 0
Waits asking = Unit {0}
Waits (handing m) = Unit {0}
Waits _ = ⊥

act-Blocks :
    (h : Holder) → Waits h → (a : Action) (p q : Pipe) → act a p ≡ some q → Blocks h p → Blocks h q
unfolding act pub_begins message_heard put_out expired timer_heard unsub_heard unsub_begins
    deactivated out_closed run_ends unsub_ends range_over
act-Blocks free w a p q e b = absurd w
act-Blocks finishing w a p q e b = absurd w
act-Blocks asking w (publishes m) p q e b = ground arith
act-Blocks asking w a p q e b = ground arith
act-Blocks (handing m) w (publishes k) p q e b = ground arith
act-Blocks (handing m) w a p q e b = ground arith

-- A subscriber that takes no message within the second, just as Unsub is called.
abbrev pub race : Bytes → List Action
race m = publishes m ∷ hears_message ∷ expires 0 ∷ unsubscribes ∷ hears_timer ∷ []

-- If Unsub is called while a goroutine that sends gives its message up, it may come to wait with the
-- topic's lock, and then it never returns and nobody else gets the lock, whatever follows.
pub race-Blocks :
    (m : Bytes)
    → (p : Pipe) × (schedule (race m) subscribed ≡ some p)
      × ((as_ : List Action) (q : Pipe) → schedule as_ p ≡ some q → q.holder ≡ asking)
unfolding run_each subscribed act pub_begins message_heard expired take_out unsub_begins timer_heard
race-Blocks m = (
  record subscribed { looping = false; holder = asking; accepted = m ∷ []; dropped = m ∷ [] },
  refl,
  λ as_ q e. (run_each-keeps act (Blocks asking) (act-Blocks asking tt) as_ _ q e (refl, refl)).1,
)
