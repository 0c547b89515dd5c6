-- ===== src/PubSub/Broker.antt =====
-- pubsub/pubsub.go and pubsub/channel.go. The broker is passed from call to call. A subscriber is
-- its channel, which keeps the list of the messages that it was handed.
use mathlib.Core.Option as Opt
use booster.Common.{
  suc, get_elem?, length, ltb, some, map, none, replicate, set, true, ◌∷◌, Option, not, ◌++◌, Bool,
  Bytes, List, [], false, if◌then◌else◌, ℕ,
}
use booster.Common.Dict.{delete, insert, lookup, Dict}
use booster.Common.Result.{err, ok, Result}
use booster.Common.Int.{pos, pos_part, negsuc, ℤ}

pub data Error : Type 0 where
  no_topic no_run too_many_subscribers already_active : Error
  topic_not_found : Bytes → Error
  index_out_of_range nil_channel : ℤ → Error
  -- a run-time panic of Go
  panic : Error

-- A channel: whether it forwards messages, and what was handed to it through `sendc`, from where a
-- goroutine for each message puts it out. `who` names the command that runs on it.
pub record Channel : Type 0 where
  pub who : ℕ
  pub active : Bool
  pub sent : List Bytes

pub record Topic : Type 0 where
  pub id : Bytes
  pub name : Bytes
  pub chs : List (Option Channel)

pub record PubSub : Type 0 where
  pub max_subs : ℕ
  pub registry : Dict Topic
  -- the channels that were stopped and given up, which no topic holds any more
  pub finished : List Channel

unfoldable pub new : PubSub
new = record { max_subs = 20; registry = []; finished = [] }

-- newChannel
unfoldable pub new_channel : ℕ → Channel
new_channel who = record { who = who; active = false; sent = [] }

-- channel.run
unfoldable pub run : Channel → Result Error Channel
run c = if c.active then err already_active else ok (record c { active = true })

-- channel.send
unfoldable pub send : Bytes → Channel → Channel
send m c = if c.active then record c { sent = c.sent ++ m ∷ [] } else c

-- channel.stop
unfoldable pub stop : Channel → Channel
stop c = if not c.active then c else record c { active = false }

-- `for i, v := range t.chs { if v == nil { … break } }`
unfoldable pub free_place : List (Option Channel) → Option ℕ
free_place [] = none
free_place (none ∷ chs) = some 0
free_place (some c ∷ chs) = Opt.map suc (free_place chs)

-- `for _, c := range t.chs { if c != nil { c.stop() } }`
unfoldable pub stop_all : List (Option Channel) → List Channel
stop_all [] = []
stop_all (none ∷ chs) = stop_all chs
stop_all (some c ∷ chs) = stop c ∷ stop_all chs

-- The hash of a topic's name is its key; SHA-1 is a parameter.
module _ (hash : Bytes → Bytes) where
  -- PubSub.topic
  unfoldable pub topic : Bytes → PubSub → Result Error Topic
  topic name ps = elim (lookup (hash name) ps.registry) [
    | none ↦ err (topic_not_found name)
    | some t ↦ ok t
  ]

  -- The topic of a subscription, made if it is not there.
  unfoldable pub topic_for : Bytes → PubSub → Topic × PubSub
  topic_for name ps = elim (topic name ps) [
    | ok t ↦ (t, ps)
    | err _ ↦
        let t : Topic = record { id = hash name; name = name; chs = replicate ps.max_subs none } in
        (t, record ps { registry = insert (hash name) t ps.registry })
  ]

  unfoldable pub put_topic : Bytes → Topic → PubSub → PubSub
  put_topic name t ps = record ps { registry = insert (hash name) t ps.registry }

  -- Sub. The index stands for the cancel function, which is Unsub at that index and topic. `run_`
  -- tells whether the command has a Run function.
  unfoldable pub sub : Bytes → Bool → ℕ → PubSub → Result Error ℕ × PubSub
  sub [] run_ who ps = (err no_topic, ps)
  sub (b ∷ name) false who ps = (err no_run, ps)
  sub (b ∷ name) true who ps =
      let (t, ps') = topic_for (b ∷ name) ps in
      elim (free_place t.chs) [
        | none ↦ (err too_many_subscribers, ps')
        | some i ↦ elim (run (new_channel who)) [
          | err e ↦ (err e, ps')
          | ok ch ↦ (ok i, put_topic (b ∷ name) (record t { chs = set t.chs i (some ch) }) ps')
        ]
      ]

  -- The index check of Unsub, and `t.chs[index]`.
  unfoldable pub at_index : ℤ → Topic → Result Error Channel
  at_index (negsuc n) t = err (index_out_of_range (negsuc n))
  at_index (pos i) t =
      if ltb (length t.chs) i then err (index_out_of_range (pos i)) else elim (get_elem? t.chs i) [
        | none ↦ err panic
        | some none ↦ err (nil_channel (pos i))
        | some (some ch) ↦ ok ch
      ]

  unfoldable pub unsub : ℤ → Bytes → PubSub → Result Error (Unit {0}) × PubSub
  unsub index name ps = elim (topic name ps) [
    | err e ↦ (err e, ps)
    | ok t ↦ elim (at_index index t) [
      | err e ↦ (err e, ps)
      | ok ch ↦
          let ps' = put_topic name (record t { chs = set t.chs (pos_part index) none }) ps in
          (ok tt, record ps' { finished = ps.finished ++ stop ch ∷ [] })
    ]
  ]

  unfoldable pub close : Bytes → PubSub → Result Error (Unit {0}) × PubSub
  close name ps = elim (topic name ps) [
    | err e ↦ (err e, ps)
    | ok t ↦ (
      ok tt,
      record ps {
        registry = delete (hash name) ps.registry;
        finished = ps.finished ++ stop_all t.chs;
      },
    )
  ]

  -- Pub sends to every subscriber of the topic.
  unfoldable pub publish : Bytes → Bytes → PubSub → PubSub
  publish message name ps = elim (topic name ps) [
    | err _ ↦ ps
    | ok t ↦ put_topic name (record t { chs = map (Opt.map (send message)) t.chs }) ps
  ]

  -- A message that a subscriber does not take within a second stops its channel, which keeps its
  -- place (`case <-time.After(time.Second)` of channel.run).
  unfoldable pub expire : ℕ → Bytes → PubSub → PubSub
  expire i name ps = elim (topic name ps) [
    | err _ ↦ ps
    | ok t ↦ elim (get_elem? t.chs i) [
      | some (some ch) ↦ put_topic name (record t { chs = set t.chs i (some (stop ch)) }) ps
      | _ ↦ ps
    ]
  ]
