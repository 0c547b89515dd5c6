-- ===== src/PubSub/Slots.antt =====
-- Which channel stands at which place of which topic, and what the calls do to it.
use booster.Common.{
  get_elem?-set, get_elem?-some_lt, ℕ, zero, suc, ◌<◌, ◌≡◌, refl, sym, ap, subst, ◌∙◌, inl, inr,
  Bool, true, false, ◌&&◌, Option, none, some, List, [], ◌∷◌, ◌++◌, arith, ◌==◌, if◌then◌else◌,
  Bool-cases, Option-cases, Bytes, ◌=ᵇ◌, =ᵇ_iff, =ᵇ_eq, length, get_elem?, set, replicate,
}
use booster.Common.Result.{ok}
use booster.Common.Dict.{lookup, lookup-insert}
use booster.Common.Int.{pos}
use booster.PubSub.Broker.{
  new_channel, run, Topic, topic, Channel, put_topic, topic_for, PubSub, free_place, sub, unsub,
  at_index, stop,
}

-- The channel at a place, if there is one.
abbrev pub held : Option (Option Channel) → Option Channel
held none = none
held (some c) = c

abbrev pub slot : PubSub → Bytes → ℕ → Option Channel
slot ps key i = elim (lookup key ps.registry) [ none ↦ none | some t ↦ held (get_elem? t.chs i) ]

-- A channel that runs and has put nothing out.
abbrev pub fresh : ℕ → Channel
fresh who = record { who = who; active = true; sent = [] }

pub free_place-free :
    (chs : List (Option Channel)) (i : ℕ) → free_place chs ≡ some i → get_elem? chs i ≡ some none
unfolding free_place
free_place-free [] i h = cc
free_place-free (none ∷ chs) i h = ground arith
free_place-free (some c ∷ chs) zero h = ground arith
free_place-free (some c ∷ chs) (suc i) h = free_place-free chs i (ground arith)

get_elem?-replicate : (n i : ℕ) → held (get_elem? (replicate n none) i) ≡ none
get_elem?-replicate zero i = refl
get_elem?-replicate (suc n) zero = refl
get_elem?-replicate (suc n) (suc i) = get_elem?-replicate n i

held-if :
    (b : Bool) (v : Option Channel) (x : Option (Option Channel))
    → held (if b then some v else x) ≡ (if b then v else held x)
held-if true v x = refl
held-if false v x = refl

module _ (hash : Bytes → Bytes) where
  pub slot-put_topic :
      (name : Bytes) (t : Topic) (ps : PubSub) (key : Bytes) (j : ℕ)
      → slot (put_topic hash name t ps) key j
        ≡ (if hash name =ᵇ key then held (get_elem? t.chs j) else slot ps key j)
  unfolding put_topic
  slot-put_topic name t ps key j = ground (arith, lookup-insert (hash name) key t ps.registry)

  -- Looking a topic up for a subscription changes no place.
  pub slot-topic_for :
      (name : Bytes) (ps : PubSub) (key : Bytes) (j : ℕ)
      → (slot (topic_for hash name ps).1 key j ≡ slot ps key j)
        × (slot ps (hash name) j ≡ held (get_elem? (topic_for hash name ps).0.chs j))
  unfolding topic_for topic
  slot-topic_for name ps key j = elim (Option-cases (lookup (hash name) ps.registry)) [
    | inr (t, e) ↦ rw (e, topic, topic_for) (refl, ground arith)
    | inl e ↦
        let t : Topic = record { id = hash name; name = name; chs = replicate ps.max_subs none } in
        rw (e, topic, topic_for)
          (
            ground (
              arith,
              lookup-insert (hash name) key t ps.registry,
              =ᵇ_iff (hash name) key,
              get_elem?-replicate ps.max_subs j,
            ),
            ground (arith, get_elem?-replicate ps.max_subs j),
          )
  ]

  -- A write at one place of a topic.
  slot-write :
      (name : Bytes) (t : Topic) (p : PubSub) (i : ℕ) (v : Option Channel) (key : Bytes) (j : ℕ)
      → i < length t.chs
      → slot p (hash name) j ≡ held (get_elem? t.chs j)
      → slot (put_topic hash name (record t { chs = set t.chs i v }) p) key j
        ≡ (if (hash name =ᵇ key) && (i == j) then v else slot p key j)
  slot-write name t p i v key j bound there =
      slot-put_topic name (record t { chs = set t.chs i v }) p key j
      ∙ elim (Bool-cases (hash name =ᵇ key)) [
        | inl same ↦
            let here : slot p key j ≡ held (get_elem? t.chs j) =
              subst (λ x. slot p x j ≡ held (get_elem? t.chs j)) (=ᵇ_eq (hash name) key same)
                there in
            rw (same, here, get_elem?-set t.chs i j v bound)
              (held-if (i == j) v (get_elem? t.chs j))
        | inr other ↦ rw other refl
      ]

  -- Sub, when it succeeds: the subscriber's channel runs at a place that was free, and nothing else
  -- has changed in any topic.
  pub sub-slot :
      (name : Bytes) (run_ : Bool) (who : ℕ) (ps ps' : PubSub) (i : ℕ) (key : Bytes) (j : ℕ)
      → sub hash name run_ who ps ≡ (ok i, ps')
      → (slot ps (hash name) i ≡ none)
        × (slot ps' key j
            ≡ (if (hash name =ᵇ key) && (i == j) then some (fresh who) else slot ps key j))
  unfolding sub run new_channel
  sub-slot [] run_ who ps ps' i key j h = cc
  sub-slot (b ∷ name) false who ps ps' i key j h = cc
  sub-slot (b ∷ name) true who ps ps' i key j h =
      elim (Option-cases (free_place (topic_for hash (b ∷ name) ps).0.chs)) [
        | inl e ↦ absurd (ground arith)
        | inr (k, e) ↦
            let t = (topic_for hash (b ∷ name) ps).0 in
            let p = (topic_for hash (b ∷ name) ps).1 in
            let k_is : k ≡ i = ground arith in
            let free = free_place-free t.chs k e in
            let t' : Topic = record t { chs = set t.chs k (some (fresh who)) } in
            let made : put_topic hash (b ∷ name) t' p ≡ ps' = ground arith in
            let (same, _) = slot-topic_for (b ∷ name) ps key j in
            let (same_name, there) = slot-topic_for (b ∷ name) ps (hash (b ∷ name)) j in
            let (_, there_i) = slot-topic_for (b ∷ name) ps key i in
            (
              there_i ∙ ap held (subst (λ x. get_elem? t.chs x ≡ some none) k_is free),
              ap (λ q. slot q key j) (sym made)
                  ∙ slot-write (b ∷ name) t p k (some (fresh who)) key j
                      (get_elem?-some_lt t.chs k free) (same_name ∙ there)
                  ∙ rw (k_is, same) refl,
            )
      ]

  -- Unsub, when it succeeds: the channel at the place is stopped and given up, and the place is
  -- free; nothing else has changed in any topic.
  pub unsub-slot :
      (name : Bytes) (ps ps' : PubSub) (i : ℕ) (key : Bytes) (j : ℕ)
      → unsub hash (pos i) name ps ≡ (ok tt, ps')
      → (c : Channel) × (slot ps (hash name) i ≡ some c)
        × (ps'.finished ≡ ps.finished ++ stop c ∷ [])
        × (slot ps' key j ≡ (if (hash name =ᵇ key) && (i == j) then none else slot ps key j))
  unfolding unsub topic at_index
  unsub-slot name ps ps' i key j h = elim (Option-cases (lookup (hash name) ps.registry)) [
    | inl e ↦ absurd (ground arith)
    | inr (t, e) ↦ elim (Option-cases (get_elem? t.chs i)) [
      | inl none_there ↦ absurd (ground arith)
      | inr (none, nil) ↦ absurd (ground arith)
      | inr (some c, there) ↦
          let p = put_topic hash name (record t { chs = set t.chs i none }) ps in
          let made : record p { finished = ps.finished ++ stop c ∷ [] } ≡ ps' = ground arith in
          let at_place : (x : ℕ) → slot ps (hash name) x ≡ held (get_elem? t.chs x) =
            λ x. rw (e, slot) refl in
          (
            c,
            at_place i ∙ ap held there,
            ap (λ q. q.finished) (sym made),
            ap (λ q. slot q key j) (sym made)
                ∙ slot-write name t ps i none key j (get_elem?-some_lt t.chs i there) (at_place j),
          )
    ]
  ]
