-- ===== src/Node/Dispatcher/Rounds.antt =====
-- The rounds of DialContext: each node is tried once, the rounds end, and a failure means that all
-- have been tried.
use booster.Node.Dispatcher.{
  dial_failed, no_connection_no_error, connected, dial_error, context_error, gateway_failed, failed,
  stuck, Outcome, connection, Dialled, rounds, get_node_balanced, DialError, World, is_in,
}
use booster.Common.{
  Option-cases, Bool-cases, some, ◌⊎◌, zero, ◌≢◌, =ᵇ_iff, inr, refl, arith, inl, suc, ◌<◌, ◌=ᵇ◌,
  All, [], false, if◌then◌else◌, length, none, true, Option, ◌++◌, ◌∷◌, ◌≡◌, ◌≤◌, Bytes, ℕ, List,
}
use booster.Node.State.{Node}
use booster.Node.Dispatcher.Balance.{get_node_balanced_lem, Chosen}
use booster.Node.Dispatcher.Scans.{Among}

is_in-append :
    (id v : Bytes) (ids : List Bytes)
    → is_in id (ids ++ v ∷ []) ≡ (if id =ᵇ v then true else is_in id ids)
unfolding is_in
is_in-append id v [] = refl
is_in-append id v (w ∷ ids) = ground (arith, is_in-append id v ids)

-- How many of the known ids are not among those tried.
pub untried : List Bytes → List Bytes → ℕ
untried [] ids = 0
untried (k ∷ ks) ids = if is_in k ids then untried ks ids else suc (untried ks ids)

pub untried-le-length : (known ids : List Bytes) → untried known ids ≤ length known
unfolding untried
untried-le-length [] ids = omega arith
untried-le-length (k ∷ ks) ids = ground (arith, untried-le-length ks ids)

pub untried-append :
    (known ids : List Bytes) (v : Bytes) → untried known (ids ++ v ∷ []) ≤ untried known ids
unfolding untried
untried-append [] ids v = omega arith
untried-append (k ∷ ks) ids v = ground (arith, untried-append ks ids v, is_in-append k v ids)

-- A known id that is tried for the first time leaves fewer.
pub untried_new :
    (known ids : List Bytes) (v : Bytes)
    → is_in v known ≡ true
    → is_in v ids ≡ false
    → untried known (ids ++ v ∷ []) < untried known ids
unfolding untried is_in
untried_new [] ids v h new_ = cc
untried_new (k ∷ ks) ids v h new_ = ground (
  arith,
  =ᵇ_iff v k,
  =ᵇ_iff k v,
  is_in-append k v ids,
  untried-append ks ids v,
  untried_new ks ids v,
)

-- No id twice.
abbrev pub Distinct : List Bytes → Type 0
Distinct [] = Unit {0}
Distinct (v ∷ ids) = (is_in v ids ≡ false) × Distinct ids

Distinct-append :
    (v : Bytes) (ids : List Bytes) → is_in v ids ≡ false → Distinct ids → Distinct (ids ++ v ∷ [])
unfolding is_in
Distinct-append v [] h d = (refl, tt)
Distinct-append v (w ∷ ids) h d =
    ground (arith, =ᵇ_iff v w, =ᵇ_iff w v, is_in-append w v ids, Distinct-append v ids)

-- The ids of all nodes that the network ever answers are known.
pub record IsKnown {Conn : Type 0} (known : List Bytes) (w : World Conn) : Type 0 where
  pub root : (i : ℕ) → is_in (w.nodes i).0.id known ≡ true
  pub others : (i : ℕ) → All (λ v. is_in v.id known ≡ true) (w.nodes i).1

Among-known :
    (known : List Bytes) (c : Node) (nodes : List Node)
    → Among c nodes
    → All (λ v. is_in v.id known ≡ true) nodes
    → is_in c.id known ≡ true
Among-known known c [] h k = absurd h
Among-known known c (v ∷ nodes) (inl e) k = rw e k.0
Among-known known c (v ∷ nodes) (inr h) k = Among-known known c nodes h k.1

Chosen-new :
    (root n : Node) (nodes : List Node) (exp : List Bytes)
    → Chosen root nodes exp (n, none)
    → is_in n.id exp ≡ false
Chosen-new root n nodes exp h = h.0

Chosen-known :
    (root n : Node) (nodes : List Node) (exp known : List Bytes)
    → is_in root.id known ≡ true
    → All (λ v. is_in v.id known ≡ true) nodes
    → Chosen root nodes exp (n, none)
    → is_in n.id known ≡ true
Chosen-known root n nodes exp known r k (free, inl (e, _)) = rw e r
Chosen-known root n nodes exp known r k (free, inr (among, _, _, _)) =
    Among-known known n nodes among k

-- The node finder's next answer, described.
pub next_Chosen :
    {Conn : Type 0} (w : World Conn) (i : ℕ) (ids : List Bytes) (n : Node) (e : Option DialError)
    → get_node_balanced (w.nodes i) ids ≡ (n, e)
    → Chosen (w.nodes i).0 (w.nodes i).1 ids (n, e)
next_Chosen w i ids n e h = rw h at (get_node_balanced_lem (w.nodes i).0 (w.nodes i).1 ids)

module _ {Conn : Type 0} (w : World Conn) where
  root_at : ℕ → Node
  root_at i = (w.nodes i).0

  pub Dialled-cases :
      (d : Dialled Conn)
      → ((c : Conn) × (d ≡ connection c)) ⊎ ((d ≡ context_error) ⊎ ((e : ℕ) × (d ≡ dial_error e)))
  Dialled-cases (connection c) = inl (c, refl)
  Dialled-cases context_error = inr (inl refl)
  Dialled-cases (dial_error e) = inr (inr (e, refl))

  -- One round, whatever is claimed of its answer.
  pub round_cases :
      (P : Outcome Conn × List Bytes → Type 0) (fuel i : ℕ) (ids : List Bytes) (node : Node)
      → P (failed gateway_failed, ids)
      → ((c : Conn) → P (connected c, ids))
      → P (no_connection_no_error, ids)
      → ((e : ℕ) (n : Node) (d : DialError)
          → Chosen (w.nodes (suc i)).0 (w.nodes (suc i)).1 ids (n, some d)
          → P (failed (dial_failed e), ids))
      → ((n : Node)
          → Chosen (w.nodes (suc i)).0 (w.nodes (suc i)).1 ids (n, none)
          → P (rounds w fuel (suc i) (ids ++ n.id ∷ []) n))
      → P (rounds w (suc fuel) i ids node)
  unfolding rounds
  round_cases P fuel i ids node gate conn ctx all_ more = elim (Bool-cases (w.has_dialer node)) [
    | inr no_ ↦ rw (no_, rounds) gate
    | inl has ↦ elim (Dialled-cases (w.dial i node)) [
      | inl (c, e) ↦ rw (has, e, rounds) (conn c)
      | inr (inl e) ↦ rw (has, e, rounds) ctx
      | inr (inr (x, e)) ↦
          let next = get_node_balanced (w.nodes (suc i)) ids in
          elim (Option-cases next.1) [
            | inl good ↦
                let answer : next ≡ (next.0, none) = λ j. (next.0, good j) in
                rw (has, e, rounds, good)
                  (more next.0 (next_Chosen w (suc i) ids next.0 none answer))
            | inr (d, bad) ↦
                let answer : next ≡ (next.0, some d) = λ j. (next.0, bad j) in
                rw (has, e, rounds, bad)
                  (all_ x next.0 d (next_Chosen w (suc i) ids next.0 (some d) answer))
          ]
    ]
  ]

  pub rounds-Distinct :
      (fuel i : ℕ) (ids : List Bytes) (node : Node)
      → Distinct ids
      → Distinct (rounds w fuel i ids node).1
  unfolding rounds
  rounds-Distinct zero i ids node h = h
  rounds-Distinct (suc fuel) i ids node h =
      round_cases (λ r. Distinct r.1) fuel i ids node h (λ _. h) h (λ _ _ _ _. h)
        λ n c. rounds-Distinct fuel (suc i) (ids ++ n.id ∷ []) n (Distinct-append n.id ids c.0 h)

  pub rounds-ne-stuck :
      (known : List Bytes) (fuel i : ℕ) (ids : List Bytes) (node : Node)
      → IsKnown known w
      → untried known ids < fuel
      → (rounds w fuel i ids node).0 ≢ stuck
  rounds-ne-stuck known zero i ids node k h = absurd (omega arith)
  rounds-ne-stuck known (suc fuel) i ids node k h =
      round_cases (λ r. r.0 ≢ stuck) fuel i ids node (λ e. cc) (λ c e. cc) (λ e. cc)
        (λ _ _ _ _ e. cc)
        λ n c.
          let known_n = Chosen-known _ n _ ids known (k.root (suc i)) (k.others (suc i)) c in
          let less = untried_new known ids n.id known_n c.0 in
          rounds-ne-stuck known fuel (suc i) (ids ++ n.id ∷ []) n k (omega arith)
