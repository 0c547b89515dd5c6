-- ===== src/PubSub/Limits.antt =====
-- The brokers that calls can lead to, and the limit on the subscribers of a topic.
use booster.Common.{
  length-replicate, length-set, ℕ, zero, suc, ◌<◌, ◌≡◌, refl, sym, ap, subst, ◌∙◌, ◌≢◌, inl, inr,
  Bool, true, false, Option, none, some, List, [], ◌∷◌, map, arith, Option-cases, Bytes, length,
  get_elem?, set, replicate,
}
use booster.Common.Result.{Result-cases, err}
use booster.Common.Dict.{insert, lookup, lookup-insert, lookup-delete}
use mathlib.Core.Option as Opt
use booster.PubSub.Broker.{
  new_channel, run, stop, new, publish, send, sub, unsub, close, expire, topic, topic_for,
  put_topic, at_index, free_place, Channel, Topic, PubSub, too_many_subscribers,
}
use booster.PubSub.Slots.{fresh, slot-topic_for, slot, held}
use booster.Common.Int.{pos_part, ℤ}

-- Every topic has as many places as the broker allows subscribers.
abbrev pub IsBroker : PubSub → Type 0
IsBroker ps =
    (key : Bytes) (t : Topic) → lookup key ps.registry ≡ some t → length t.chs ≡ ps.max_subs

free_place-none :
    (chs : List (Option Channel)) (j : ℕ)
    → free_place chs ≡ none
    → j < length chs
    → held (get_elem? chs j) ≢ none
unfolding free_place
free_place-none [] j h bound = absurd (omega arith)
free_place-none (none ∷ chs) j h bound = absurd (ground arith)
free_place-none (some c ∷ chs) zero h bound = λ e. cc
free_place-none (some c ∷ chs) (suc j) h bound = free_place-none chs j (ground arith) (omega arith)

module _ (hash : Bytes → Bytes) where
  -- The calls on a broker and the expiry of a message.
  pub data Step : PubSub → PubSub → Type 0 where
    subscribe :
        (name : Bytes) (run_ : Bool) (who : ℕ) (ps : PubSub) → Step ps (sub hash name run_ who ps).1
    unsubscribe : (i : ℤ) (name : Bytes) (ps : PubSub) → Step ps (unsub hash i name ps).1
    close_topic : (name : Bytes) (ps : PubSub) → Step ps (close hash name ps).1
    publishing : (m name : Bytes) (ps : PubSub) → Step ps (publish hash m name ps)
    expiry : (i : ℕ) (name : Bytes) (ps : PubSub) → Step ps (expire hash i name ps)

  pub data Reachable : PubSub → Type 0 where
    start : Reachable new
    then_ : {ps ps' : PubSub} → Reachable ps → Step ps ps' → Reachable ps'

  put_topic-IsBroker :
      (name : Bytes) (t : Topic) (ps : PubSub)
      → IsBroker ps
      → length t.chs ≡ ps.max_subs
      → IsBroker (put_topic hash name t ps)
  unfolding put_topic
  put_topic-IsBroker name t ps h l key u e =
      ground (arith, lookup-insert (hash name) key t ps.registry, h key u)

  topic_for-IsBroker :
      (name : Bytes) (ps : PubSub)
      → IsBroker ps
      → IsBroker (topic_for hash name ps).1
        × (length (topic_for hash name ps).0.chs ≡ ps.max_subs)
        × ((topic_for hash name ps).1.max_subs ≡ ps.max_subs)
  unfolding topic_for topic put_topic insert
  topic_for-IsBroker name ps h = elim (Option-cases (lookup (hash name) ps.registry)) [
    | inl e ↦
        let l = length-replicate ps.max_subs none in
        let t : Topic = record { id = hash name; name = name; chs = replicate ps.max_subs none } in
        rw (e, topic_for, topic) (put_topic-IsBroker name t ps h l, l, refl)
    | inr (t, e) ↦ rw (e, topic_for, topic) (h, h (hash name) t e, refl)
  ]

  sub-IsBroker :
      (name : Bytes) (run_ : Bool) (who : ℕ) (ps : PubSub)
      → IsBroker ps
      → IsBroker (sub hash name run_ who ps).1
  unfolding sub run new_channel
  sub-IsBroker [] run_ who ps h = h
  sub-IsBroker (b ∷ name) false who ps h = h
  sub-IsBroker (b ∷ name) true who ps h =
      let (t, p) = topic_for hash (b ∷ name) ps in
      let (was, len, max) = topic_for-IsBroker (b ∷ name) ps h in
      elim (Option-cases (free_place (topic_for hash (b ∷ name) ps).0.chs)) [
        | inl e ↦ rw (sub, run, new_channel, e) was
        | inr (i, e) ↦
            rw (sub, run, new_channel, e)
              (put_topic-IsBroker (b ∷ name) (record t { chs = set t.chs i (some (fresh who)) }) p
                was (length-set t.chs i (some (fresh who)) ∙ len ∙ sym max))
      ]

  -- Writing one place of a topic that is there.
  set-IsBroker :
      (name : Bytes) (t : Topic) (i : ℕ) (v : Option Channel) (ps : PubSub)
      → lookup (hash name) ps.registry ≡ some t
      → IsBroker ps
      → IsBroker (put_topic hash name (record t { chs = set t.chs i v }) ps)
  set-IsBroker name t i v ps e h =
      put_topic-IsBroker name (record t { chs = set t.chs i v }) ps h
        (length-set t.chs i v ∙ h (hash name) t e)

  unsub-IsBroker :
      (i : ℤ) (name : Bytes) (ps : PubSub) → IsBroker ps → IsBroker (unsub hash i name ps).1
  unfolding unsub topic
  unsub-IsBroker i name ps h = elim (Option-cases (lookup (hash name) ps.registry)) [
    | inl e ↦ rw (e, unsub, topic) h
    | inr (t, e) ↦
        rw (e, unsub, topic)
          (elim (Result-cases (at_index hash i t)) [
            | inl (x, f) ↦ rw f h
            | inr (ch, f) ↦ rw f (set-IsBroker name t (pos_part i) none ps e h)
          ])
  ]

  length-map :
      (m : Bytes) (cs : List (Option Channel)) → length (map (Opt.map (send m)) cs) ≡ length cs
  length-map m [] = refl
  length-map m (c ∷ cs) = ap suc (length-map m cs)

  publish-IsBroker :
      (m name : Bytes) (ps : PubSub) → IsBroker ps → IsBroker (publish hash m name ps)
  unfolding publish topic
  publish-IsBroker m name ps h = elim (Option-cases (lookup (hash name) ps.registry)) [
    | inl e ↦ rw (e, publish, topic) h
    | inr (t, e) ↦
        rw (e, publish, topic)
          (put_topic-IsBroker name (record t { chs = map (Opt.map (send m)) t.chs }) ps h
            (length-map m t.chs ∙ h (hash name) t e))
  ]

  close-IsBroker : (name : Bytes) (ps : PubSub) → IsBroker ps → IsBroker (close hash name ps).1
  unfolding close topic
  close-IsBroker name ps h = elim (Option-cases (lookup (hash name) ps.registry)) [
    | inl e ↦ rw (e, close, topic) h
    | inr (t, e) ↦
        rw (e, close, topic)
          (λ key u f. ground (arith, lookup-delete (hash name) key ps.registry, h key u))
  ]

  expire-IsBroker :
      (i : ℕ) (name : Bytes) (ps : PubSub) → IsBroker ps → IsBroker (expire hash i name ps)
  unfolding expire topic
  expire-IsBroker i name ps h = elim (Option-cases (lookup (hash name) ps.registry)) [
    | inl e ↦ rw (e, expire, topic) h
    | inr (t, e) ↦ elim (Option-cases (get_elem? t.chs i)) [
      | inl nothing ↦ rw (e, expire, topic, nothing) h
      | inr (none, nil) ↦ rw (e, expire, topic, nil) h
      | inr (some c, there) ↦
          rw (e, expire, topic, there) (set-IsBroker name t i (some (stop c)) ps e h)
    ]
  ]

  step-IsBroker : {ps ps' : PubSub} → IsBroker ps → Step ps ps' → IsBroker ps'
  step-IsBroker h (subscribe name run_ who ps) = sub-IsBroker name run_ who ps h
  step-IsBroker h (unsubscribe i name ps) = unsub-IsBroker i name ps h
  step-IsBroker h (close_topic name ps) = close-IsBroker name ps h
  step-IsBroker h (publishing m name ps) = publish-IsBroker m name ps h
  step-IsBroker h (expiry i name ps) = expire-IsBroker i name ps h

  -- In every broker that calls can lead to, each topic has the broker's number of places.
  pub Reachable-IsBroker : {ps : PubSub} → Reachable ps → IsBroker ps
  unfolding new lookup
  Reachable-IsBroker start = λ key t e. cc
  Reachable-IsBroker (then_ r s) = step-IsBroker (Reachable-IsBroker r) s

  -- In a broker that calls can lead to, Sub refuses a subscriber for want of room only when every
  -- place of the topic is taken, and then it changes no place of any topic.
  pub sub-too_many :
      (name : Bytes) (run_ : Bool) (who : ℕ) (ps ps' : PubSub) (key : Bytes) (j : ℕ)
      → Reachable ps
      → sub hash name run_ who ps ≡ (err too_many_subscribers, ps')
      → j < ps.max_subs
      → (slot ps (hash name) j ≢ none) × (slot ps' key j ≡ slot ps key j)
  unfolding sub run new_channel
  sub-too_many [] run_ who ps ps' key j r h bound = cc
  sub-too_many (b ∷ name) false who ps ps' key j r h bound = cc
  sub-too_many (b ∷ name) true who ps ps' key j r h bound =
      let (was, len, max) = topic_for-IsBroker (b ∷ name) ps (Reachable-IsBroker r) in
      let (same, there) = slot-topic_for hash (b ∷ name) ps key j in
      elim (Option-cases (free_place (topic_for hash (b ∷ name) ps).0.chs)) [
        | inl e ↦
            let left : (topic_for hash (b ∷ name) ps).1 ≡ ps' = ground arith in
            (
              λ empty.
                  free_place-none (topic_for hash (b ∷ name) ps).0.chs j e
                    (subst (λ n. j < n) (sym len) bound) (sym there ∙ empty),
              ap (λ q. slot q key j) (sym left) ∙ same,
            )
        | inr (i, e) ↦ absurd (ground arith)
      ]
