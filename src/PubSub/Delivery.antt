-- ===== src/PubSub/Delivery.antt =====
-- Publishing, the index check of Unsub, and the cancel function of a subscription.
use booster.Common.{
  get_elem?-length, get_elem?-some_lt, ℕ, zero, suc, ◌≡◌, refl, ap, subst, ◌∙◌, inl, inr, true,
  ◌&&◌, Option, none, some, List, [], ◌∷◌, ◌++◌, map, arith, ◌==◌, if◌then◌else◌, Bool-cases,
  Option-cases, Bytes, ◌=ᵇ◌, =ᵇ_refl, =ᵇ_eq, length, get_elem?, set,
}
use booster.Common.Result.{ok, err}
use booster.Common.Dict.{lookup}
use mathlib.Core.Option as Opt
use booster.PubSub.Broker.{
  stop, publish, send, sub, unsub, topic, at_index, put_topic, Channel, Topic, PubSub, panic,
}
use booster.PubSub.Slots.{slot, held, fresh, sub-slot, unsub-slot, slot-put_topic}
use booster.Common.Int.{pos}

held-map :
    (m : Bytes) (xs : List (Option Channel)) (j : ℕ)
    → held (get_elem? (map (Opt.map (send m)) xs) j) ≡ Opt.map (send m) (held (get_elem? xs j))
held-map m [] j = refl
held-map m (none ∷ xs) zero = refl
held-map m (some c ∷ xs) zero = refl
held-map m (x ∷ xs) (suc j) = held-map m xs j

at_self :
    (key : Bytes) (i : ℕ) (x y : Option Channel) → (if (key =ᵇ key) && (i == i) then x else y) ≡ x
at_self key i x y = rw (=ᵇ_refl key) (ground arith)

module _ (hash : Bytes → Bytes) where
  -- Pub hands the message to every active channel of the topic, once and behind what was handed to
  -- it before, and changes no channel of another topic.
  pub publish-slot :
      (m name : Bytes) (ps : PubSub) (key : Bytes) (j : ℕ)
      → slot (publish hash m name ps) key j
        ≡ (if hash name =ᵇ key then Opt.map (send m) (slot ps key j) else slot ps key j)
  unfolding publish topic
  publish-slot m name ps key j = elim (Bool-cases (hash name =ᵇ key)) [
    | inl same ↦ elim (Option-cases (lookup (hash name) ps.registry)) [
      | inl e ↦
          let gone : lookup key ps.registry ≡ none =
            subst (λ x. lookup x ps.registry ≡ none) (=ᵇ_eq (hash name) key same) e in
          rw (e, publish, topic, same, slot, gone) refl
      | inr (t, e) ↦
          let here : lookup key ps.registry ≡ some t =
            subst (λ x. lookup x ps.registry ≡ some t) (=ᵇ_eq (hash name) key same) e in
          let t' : Topic = record t { chs = map (Opt.map (send m)) t.chs } in
          let sent : publish hash m name ps ≡ put_topic hash name t' ps =
            rw (publish, topic, e) refl in
          let found : slot ps key j ≡ held (get_elem? t.chs j) = rw (here, slot) refl in
          ap (λ q. slot q key j) sent
          ∙ slot-put_topic hash name t' ps key j
          ∙ rw (same, held-map m t.chs j, found) refl
    ]
    | inr other ↦ elim (Option-cases (lookup (hash name) ps.registry)) [
      | inl e ↦ rw (e, publish, topic, other) refl
      | inr (t, e) ↦
          let t' : Topic = record t { chs = map (Opt.map (send m)) t.chs } in
          let sent : publish hash m name ps ≡ put_topic hash name t' ps =
            rw (publish, topic, e) refl in
          ap (λ q. slot q key j) sent ∙ slot-put_topic hash name t' ps key j ∙ rw other refl
    ]
  ]

  -- The index check lets the index just past the last place of a topic through, and Unsub panics.
  pub unsub-length :
      (name : Bytes) (t : Topic) (ps : PubSub)
      → topic hash name ps ≡ ok t
      → unsub hash (pos (length t.chs)) name ps ≡ (err panic, ps)
  unfolding unsub at_index
  unsub-length name t ps h = ground (arith, get_elem?-length t.chs)

  unsub_held :
      (name : Bytes) (ps : PubSub) (i : ℕ) (c : Channel)
      → slot ps (hash name) i ≡ some c
      → (ps' : PubSub) × (unsub hash (pos i) name ps ≡ (ok tt, ps'))
  unfolding unsub at_index topic
  unsub_held name ps i c h = elim (Option-cases (lookup (hash name) ps.registry)) [
    | inl e ↦ absurd (ground arith)
    | inr (t, e) ↦ elim (Option-cases (get_elem? t.chs i)) [
      | inl nothing ↦ absurd (ground arith)
      | inr (none, nil) ↦ absurd (ground arith)
      | inr (some d, there) ↦
          let bound = get_elem?-some_lt t.chs i there in
          let p = put_topic hash name (record t { chs = set t.chs i none }) ps in
          (record p { finished = ps.finished ++ stop d ∷ [] }, ground arith)
    ]
  ]

  -- After a subscription was cancelled and another subscriber got its place, its cancel function
  -- succeeds when called again, stops that subscriber's channel and frees the place.
  pub unsub-sub_stale :
      (name : Bytes) (first second : ℕ) (ps ps1 ps2 ps3 : PubSub) (i : ℕ)
      → sub hash name true first ps ≡ (ok i, ps1)
      → unsub hash (pos i) name ps1 ≡ (ok tt, ps2)
      → sub hash name true second ps2 ≡ (ok i, ps3)
      → (ps4 : PubSub) × (unsub hash (pos i) name ps3 ≡ (ok tt, ps4))
        × (ps4.finished ≡ ps3.finished ++ stop (fresh second) ∷ [])
        × (slot ps4 (hash name) i ≡ none)
  unsub-sub_stale name first second ps ps1 ps2 ps3 i h1 h2 h3 =
      let (_, taken) = sub-slot hash name true second ps2 ps3 i (hash name) i h3 in
      let there : slot ps3 (hash name) i ≡ some (fresh second) =
        taken ∙ at_self (hash name) i (some (fresh second)) (slot ps2 (hash name) i) in
      let (ps4, done) = unsub_held name ps3 i (fresh second) there in
      let (c, was, gone, freed) = unsub-slot hash name ps3 ps4 i (hash name) i done in
      (
        ps4,
        done,
        gone ∙ ap (λ x. ps3.finished ++ stop x ∷ []) (ground arith),
        freed ∙ at_self (hash name) i none (slot ps3 (hash name) i),
      )
