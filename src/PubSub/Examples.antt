-- ===== src/PubSub/Examples.antt =====
-- Runs of pubsub at given brokers.
use booster.Common.{
  ℕ, zero, suc, ◌≡◌, refl, true, ◌&&◌, Option, none, some, List, [], ◌∷◌, ◌++◌, ◌==◌, if◌then◌else◌,
  Bytes, ◌=ᵇ◌,
}
use booster.Common.Result.{ok, err}
use booster.Common.Dict.{lookup, insert}
use booster.Common.Int.{pos}
use booster.PubSub.Broker.{
  new, PubSub, Topic, Channel, sub, unsub, stop, topic, topic_for, put_topic, at_index, free_place,
  new_channel, run, too_many_subscribers,
}
use booster.PubSub.Slots.{slot, fresh, sub-slot, unsub-slot}
use booster.PubSub.Delivery.{unsub-sub_stale}
use booster.PubSub.Limits.{Reachable, start, then_, subscribe}

-- Topics under their own names.
abbrev hash : Bytes → Bytes
hash name = name

abbrev news : Bytes
news = b'n' ∷ []

abbrev news_topic : List (Option Channel) → Topic
news_topic chs = record { id = news; name = news; chs = chs }

-- A broker with two places a topic.
abbrev broker : List (Option Channel) → List Channel → PubSub
broker chs finished = record {
  max_subs = 2;
  registry = (news, news_topic chs) ∷ [];
  finished = finished;
}

abbrev empty : PubSub
empty = record { max_subs = 2; registry = []; finished = [] }

abbrev one : PubSub
one = broker (some (fresh 4) ∷ none ∷ []) []

abbrev ended : PubSub
ended = broker (none ∷ none ∷ []) (stop (fresh 4) ∷ [])

abbrev retaken : PubSub
retaken = broker (some (fresh 5) ∷ none ∷ []) (stop (fresh 4) ∷ [])

subscribed : sub hash news true 4 empty ≡ (ok 0, one)
unfolding sub topic_for topic put_topic free_place new_channel run lookup insert ◌=ᵇ◌
subscribed = refl

cancelled : unsub hash (pos 0) news one ≡ (ok tt, ended)
unfolding unsub topic put_topic at_index stop lookup insert ◌=ᵇ◌
cancelled = refl

taken_again : sub hash news true 5 ended ≡ (ok 0, retaken)
unfolding sub topic_for topic put_topic free_place new_channel run lookup insert ◌=ᵇ◌
taken_again = refl

sub-slot_example :
    (slot empty news 0 ≡ none)
    × (slot one news 1 ≡ (if (news =ᵇ news) && (0 == 1) then some (fresh 4) else slot empty news 1))
sub-slot_example = sub-slot hash news true 4 empty one 0 news 1 subscribed

unsub-slot_example :
    (c : Channel) × (slot one news 0 ≡ some c)
    × (ended.finished ≡ one.finished ++ stop c ∷ [])
    × (slot ended news 0 ≡ (if (news =ᵇ news) && (0 == 0) then none else slot one news 0))
unsub-slot_example = unsub-slot hash news one ended 0 news 0 cancelled

unsub-sub_stale_example :
    (ps4 : PubSub) × (unsub hash (pos 0) news retaken ≡ (ok tt, ps4))
    × (ps4.finished ≡ retaken.finished ++ stop (fresh 5) ∷ [])
    × (slot ps4 news 0 ≡ none)
unsub-sub_stale_example =
    unsub-sub_stale hash news 4 5 empty one ended retaken 0 subscribed cancelled taken_again

-- Twenty subscribers of the topic, one after the other.
abbrev after : ℕ → PubSub
after zero = new
after (suc n) = (sub hash news true n (after n)).1

after-Reachable : (n : ℕ) → Reachable hash (after n)
after-Reachable zero = start
after-Reachable (suc n) = then_ (after-Reachable n) (subscribe news true n (after n))

full : sub hash news true 20 (after 20) ≡ (err too_many_subscribers, after 20)
unfolding new sub topic_for topic put_topic free_place new_channel run lookup insert ◌=ᵇ◌
full = refl

twenty : (after 20).max_subs ≡ 20
unfolding new sub topic_for topic put_topic free_place new_channel run lookup insert ◌=ᵇ◌
twenty = refl
