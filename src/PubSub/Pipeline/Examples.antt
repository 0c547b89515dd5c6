-- ===== src/PubSub/Pipeline/Examples.antt =====
-- A subscription with two messages.
use booster.Common.{◌≡◌, refl, false, some, List, [], ◌∷◌, ◌++◌, Bytes}
use booster.Common.Steps.{run_each}
use booster.PubSub.Pipeline.{
  Pipe, subscribed, Action, asking, unsubscribes, hears_unsub, deactivates, closes_out, schedule,
  act, take_out, pub_begins, message_heard, unsub_begins, unsub_heard, deactivated, out_closed,
}
use booster.PubSub.Pipeline.Accounts.{IsAccounted, schedule-IsAccounted}
use booster.PubSub.Pipeline.Orders.{reordered, publish_each, deliver_each, schedule-reordered}
use booster.PubSub.Pipeline.Refines.{calls, calls_of, channel_of, schedule-calls}
use booster.PubSub.Slots.{fresh}
use booster.PubSub.Pipeline.Waits.{race, race-Blocks}

abbrev first : Bytes
first = 1 ∷ []

abbrev second : Bytes
second = 2 ∷ []

-- Both are published, and the second reaches the command first.
abbrev swapped : List Action
swapped = publish_each (first ∷ second ∷ []) ++ deliver_each (1 ∷ 0 ∷ [])

abbrev both : Pipe
both = record subscribed { accepted = first ∷ second ∷ []; delivered = second ∷ first ∷ [] }

schedule-reordered_example : schedule swapped subscribed ≡ some both
unfolding reordered take_out
schedule-reordered_example =
    schedule-reordered (1 ∷ 0 ∷ []) (first ∷ second ∷ []) (second ∷ first ∷ []) refl

schedule-IsAccounted_example : IsAccounted second both
schedule-IsAccounted_example = schedule-IsAccounted swapped both second schedule-reordered_example

race-Blocks_example :
    (p : Pipe) × (schedule (race first) subscribed ≡ some p)
    × ((as_ : List Action) (q : Pipe) → schedule as_ p ≡ some q → q.holder ≡ asking)
race-Blocks_example = race-Blocks first

-- A message waits when Unsub closes the channel, and is dropped.
abbrev cancelling : List Action
cancelling = publish_each (first ∷ []) ++ unsubscribes ∷ hears_unsub ∷ deactivates ∷ closes_out ∷ []

abbrev cancelled : Pipe
cancelled = record subscribed {
  active = false;
  looping = false;
  out_open = false;
  in_place = false;
  pending = first ∷ [];
  accepted = first ∷ [];
}

schedule-calls_example : calls (calls_of cancelling subscribed) (fresh 3) ≡ channel_of 3 cancelled
unfolding run_each subscribed act pub_begins message_heard unsub_begins unsub_heard deactivated
    out_closed
schedule-calls_example = schedule-calls 3 cancelling cancelled refl
