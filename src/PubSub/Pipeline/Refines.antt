-- ===== src/PubSub/Pipeline/Refines.antt =====
-- The goroutines of a subscription do what the calls of the broker say.
use booster.Common.{
  ℕ, ◌≡◌, refl, ap, ◌∙◌, inl, inr, none, some, List, [], ◌∷◌, ◌++◌, arith, Bytes, Option-cases,
}
use booster.Common.Steps.{run_each}
use booster.PubSub.Broker.{Channel, send, stop}
use booster.PubSub.Slots.{fresh}
use booster.PubSub.Pipeline.{
  Pipe, Holder, handing, subscribed, Action, publishes, hears_message, hears_timer, hears_unsub,
  pub_begins, message_heard, put_out, expired, timer_heard, unsub_heard, unsub_begins, deactivated,
  out_closed, run_ends, unsub_ends, range_over, act, schedule,
}

-- What the broker does to a channel.
pub data Call : Type 0 where
  sends : Bytes → Call
  stops : Call

abbrev pub calls : List Call → Channel → Channel
calls [] c = c
calls (sends m ∷ cs) c = calls cs (send m c)
calls (stops ∷ cs) c = calls cs (stop c)

-- The broker's channel forwards messages until the goroutine of run hears a stop.
abbrev pub channel_of : ℕ → Pipe → Channel
channel_of who p = record { who = who; active = p.looping; sent = p.accepted }

-- The message of the call of Pub that waits.
abbrev handed : Holder → Bytes
handed (handing m) = m
handed h = []

-- The call of the broker that an action is: a message is sent when the goroutine of run hears it, and
-- the channel is stopped when it hears that.
abbrev pub call_of : Action → Pipe → List Call
call_of hears_message p = sends (handed p.holder) ∷ []
call_of hears_timer p = stops ∷ []
call_of hears_unsub p = stops ∷ []
call_of a p = []

pub calls_of : List Action → Pipe → List Call
calls_of [] p = []
calls_of (a ∷ as_) p = call_of a p ++ elim (act a p) [ none ↦ [] | some q ↦ calls_of as_ q ]

module _ (who : ℕ) where
  act-calls :
      (a : Action) (p q : Pipe)
      → act a p ≡ some q
      → calls (call_of a p) (channel_of who p) ≡ channel_of who q
  unfolding act pub_begins message_heard put_out expired timer_heard unsub_heard unsub_begins
      deactivated out_closed run_ends unsub_ends range_over send stop
  act-calls (publishes m) p q e = ground arith
  act-calls hears_message p q e = ground arith
  act-calls hears_timer p q e = ground arith
  act-calls hears_unsub p q e = ground arith
  act-calls a p q e = ground arith

  calls-append : (cs ds : List Call) (c : Channel) → calls (cs ++ ds) c ≡ calls ds (calls cs c)
  calls-append [] ds c = refl
  calls-append (sends m ∷ cs) ds c = calls-append cs ds (send m c)
  calls-append (stops ∷ cs) ds c = calls-append cs ds (stop c)

  schedule-calls_from :
      (as_ : List Action) (p q : Pipe)
      → schedule as_ p ≡ some q
      → calls (calls_of as_ p) (channel_of who p) ≡ channel_of who q
  unfolding run_each calls_of
  schedule-calls_from [] p q e = ground arith
  schedule-calls_from (a ∷ as_) p q e = elim (Option-cases (act a p)) [
    | inl f ↦ absurd (ground arith)
    | inr (r, f) ↦
        rw (f, calls_of)
          (calls-append (call_of a p) (calls_of as_ r) (channel_of who p)
            ∙ ap (calls (calls_of as_ r)) (act-calls a p r f)
            ∙ schedule-calls_from as_ r q (ground arith))
  ]

-- Whatever the order in which the goroutines of a subscription run, its channel is what the broker's
-- calls make of a channel that was run: send of each message that the goroutine of run hears, and
-- stop where it hears a stop, in the order in which it hears them.
pub schedule-calls :
    (who : ℕ) (as_ : List Action) (q : Pipe)
    → schedule as_ subscribed ≡ some q
    → calls (calls_of as_ subscribed) (fresh who) ≡ channel_of who q
unfolding subscribed
schedule-calls who as_ q e = schedule-calls_from who as_ subscribed q e
