-- ===== src/Node/Dispatcher/Dialling.antt =====
-- What DialContext as a whole promises.
use booster.Node.Dispatcher.Rounds.{
  Dialled-cases, rounds-Distinct, untried-le-length, next_Chosen, rounds-ne-stuck, round_cases,
  IsKnown, Distinct,
}
use booster.Node.Dispatcher.{
  get_node_balanced, stuck, no_connection_no_error, context_error, dial_failed, is_in, failed,
  Outcome, dial_context, rounds, World,
}
use booster.Node.State.{Node}
use booster.Common.{
  sym, subst, zero, refl, some, arith, inr, Option-cases, inl, Bool-cases, ◌++◌, ◌∷◌, ◌≢◌, none,
  ◌<◌, [], length, suc, true, All, ◌≡◌, Bytes, ℕ, List,
}
use booster.Node.Dispatcher.Balance.{Chosen}
use booster.Node.Dispatcher.Scans.{Among, Eligible}

All-Among : (P : Node → Type 0) (nodes : List Node) (v : Node) → All P nodes → Among v nodes → P v
All-Among P [] v h among = absurd among
All-Among P (n ∷ nodes) v h (inl e) = subst P (sym e) h.0
All-Among P (n ∷ nodes) v h (inr among) = All-Among P nodes v h.1 among

module _ {Conn : Type 0} (w : World Conn) where
  -- The first node finder's call never fails: nothing is excluded yet.
  dial_cases :
      (P : Outcome Conn × List Bytes → Type 0) (fuel : ℕ)
      → ((n : Node)
          → Chosen (w.nodes 0).0 (w.nodes 0).1 [] (n, none)
          → P (rounds w fuel 0 (n.id ∷ []) n))
      → P (dial_context w fuel)
  unfolding dial_context
  dial_cases P fuel more =
      let first = get_node_balanced (w.nodes 0) [] in
      elim (Option-cases first.1) [
        | inl good ↦
            let answer : first ≡ (first.0, none) = λ j. (first.0, good j) in
            rw (good, dial_context) (more first.0 (next_Chosen w 0 [] first.0 none answer))
        | inr (d, bad) ↦
            let answer : first ≡ (first.0, some d) = λ j. (first.0, bad j) in
            let c = next_Chosen w 0 [] first.0 (some d) answer in absurd (unfold is_in in cc (c.2))
      ]

  -- The loop of DialContext ends, within one round more than there are known ids, and no node's
  -- id is tried twice, if the ids of all nodes that the network answers are among the known.
  pub dial_context-ne-stuck :
      (known : List Bytes) (fuel : ℕ)
      → IsKnown known w
      → length known < fuel
      → ((dial_context w fuel).0 ≢ stuck) × Distinct (dial_context w fuel).1
  dial_context-ne-stuck known fuel k h = (
    dial_cases (λ r. r.0 ≢ stuck) fuel
        (λ n c.
          rounds-ne-stuck w known fuel 0 (n.id ∷ []) n k
            (omega (arith, untried-le-length known (n.id ∷ [])))),
    dial_cases (λ r. Distinct r.1) fuel
        (λ n c. rounds-Distinct w fuel 0 (n.id ∷ []) n (unfold is_in in (refl, tt))),
  )

  abbrev Exhausted : Node → List Node → Outcome Conn × List Bytes → Type 0
  Exhausted root nodes r =
      (e : ℕ)
      → r.0 ≡ failed (dial_failed e)
      → (is_in root.id r.1 ≡ true) × All (λ v. v.active ≡ true → is_in v.id r.1 ≡ true) nodes

  none_left :
      (ids : List Bytes) (nodes : List Node)
      → All (λ v. ¬ Eligible ids v) nodes
      → All (λ v. v.active ≡ true → is_in v.id ids ≡ true) nodes
  none_left ids [] h = tt
  none_left ids (v ∷ nodes) h = (
    (λ on. elim (Bool-cases (is_in v.id ids)) [
      | inl tried ↦ tried
      | inr free ↦ absurd (h.0 (record { active = on; free = free }))
    ]),
    none_left ids nodes h.1,
  )

  rounds_exhaust :
      (root : Node) (nodes : List Node)
      → ((i : ℕ) → w.nodes i ≡ (root, nodes))
      → (fuel i : ℕ) (ids : List Bytes) (node : Node)
      → Exhausted root nodes (rounds w fuel i ids node)
  rounds_exhaust root nodes same zero i ids node = λ e h. unfold rounds in cc
  rounds_exhaust root nodes same (suc fuel) i ids node =
      round_cases w (Exhausted root nodes) fuel i ids node (λ e h. cc) (λ c e h. cc) (λ e h. cc)
        (λ x n d c e h. let c' = rw (same (suc i)) at c in (c'.2, none_left ids nodes c'.3))
        λ n c. rounds_exhaust root nodes same fuel (suc i) (ids ++ n.id ∷ []) n

  exhausts-All :
      (root : Node) (nodes : List Node) (fuel e : ℕ)
      → ((i : ℕ) → w.nodes i ≡ (root, nodes))
      → (dial_context w fuel).0 ≡ failed (dial_failed e)
      → (is_in root.id (dial_context w fuel).1 ≡ true)
        × All (λ v. v.active ≡ true → is_in v.id (dial_context w fuel).1 ≡ true) nodes
  exhausts-All root nodes fuel e same h =
      dial_cases (Exhausted root nodes) fuel
        (λ n c. rounds_exhaust root nodes same fuel 0 (n.id ∷ []) n) e h

  -- On a network that does not change, DialContext gives up with a dialer's error only after it
  -- has tried the root and each active node.
  pub dial_context_exhausts :
      (root : Node) (nodes : List Node) (fuel e : ℕ) (v : Node)
      → ((i : ℕ) → w.nodes i ≡ (root, nodes))
      → (dial_context w fuel).0 ≡ failed (dial_failed e)
      → Among v nodes
      → v.active ≡ true
      → (is_in root.id (dial_context w fuel).1 ≡ true) × (is_in v.id (dial_context w fuel).1 ≡ true)
  dial_context_exhausts root nodes fuel e v same h among on =
      let (tried, others) = exhausts-All root nodes fuel e same h in
      (tried, All-Among _ nodes v others among on)

  rounds_no_connection :
      (fuel i : ℕ) (ids : List Bytes) (node : Node)
      → ((j : ℕ) (n : Node) → w.dial j n ≢ context_error)
      → (rounds w fuel i ids node).0 ≢ no_connection_no_error
  unfolding rounds
  rounds_no_connection zero i ids node never = λ e. cc
  rounds_no_connection (suc fuel) i ids node never = elim (Bool-cases (w.has_dialer node)) [
    | inr no_ ↦ rw (no_, rounds) (λ e. cc)
    | inl has ↦ elim (Dialled-cases w (w.dial i node)) [
      | inl (c, e) ↦ rw (has, e, rounds) (λ h. cc)
      | inr (inl e) ↦ absurd (never i node e)
      | inr (inr (x, e)) ↦
          let next = get_node_balanced (w.nodes (suc i)) ids in
          elim (Option-cases next.1) [
            | inl good ↦
                rw (has, e, rounds, good)
                  (rounds_no_connection fuel (suc i) (ids ++ next.0.id ∷ []) next.0 never)
            | inr (d, bad) ↦ rw (has, e, rounds, bad) (λ h. cc)
          ]
    ]
  ]

  -- If no dialer ever answers with the error of the context, DialContext does not return without
  -- both a connection and an error.
  pub dial_context_no_connection :
      (fuel : ℕ)
      → ((i : ℕ) (n : Node) → w.dial i n ≢ context_error)
      → (dial_context w fuel).0 ≢ no_connection_no_error
  dial_context_no_connection fuel never =
      dial_cases (λ r. r.0 ≢ no_connection_no_error) fuel
        (λ n c. rounds_no_connection fuel 0 (n.id ∷ []) n never)

  -- If a dialer can be made for every node, and the first one answers with the error of the
  -- context, DialContext returns neither a connection nor an error, on any network.
  pub dial_context_cancelled :
      (fuel : ℕ)
      → ((n : Node) → w.has_dialer n ≡ true)
      → ((n : Node) → w.dial 0 n ≡ context_error)
      → (dial_context w (suc fuel)).0 ≡ no_connection_no_error
  dial_context_cancelled fuel has done =
      dial_cases (λ r. r.0 ≡ no_connection_no_error) (suc fuel)
        (λ n c. unfold rounds in rw (has n, done n, rounds))
