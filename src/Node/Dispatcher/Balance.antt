-- ===== src/Node/Dispatcher/Balance.antt =====
-- What GetNodeBalanced of node/dispatcher.go answers: the root, or a least loaded node that may be
-- taken. Its doc comment promises an error in cases where the code answers with the root.
use booster.Node.Dispatcher.Scans.{Eligible, Among, active_load, IsBest, scan-Improves, scan_total}
use booster.Node.Dispatcher.{
  no_suitable_node, DialError, choose, get_node_balanced, is_in, scan, Scan,
}
use booster.Node.State.{workload, Node}
use booster.Common.{
  [], refl, sym, ap, subst, ◌∙◌, arith, ◌∷◌, none, false, inr, inl, All, Bool-cases, some, true,
  Option, ◌≡◌, ◌⊎◌, Bytes, List,
}
use booster.Common.Int.{◌-ℤ◌, ◌<ℤ◌, int_laws, ltb_ℤ, ◌≤ℤ◌, pos, ℤ}

-- The load that is the root's own: its tunnels less those that the active nodes serve.
abbrev pub own_load : Node → List Node → ℤ
own_load root nodes = workload root -ℤ active_load nodes

-- What the answer of the dispatcher is.
abbrev pub Chosen : Node → List Node → List Bytes → Node × Option DialError → Type 0
Chosen root nodes exp (n, some e) =
    (n ≡ root)
    × (e ≡ no_suitable_node)
    × (is_in root.id exp ≡ true)
    × All (λ v. ¬ Eligible exp v) nodes
Chosen root nodes exp (n, none) =
    (is_in n.id exp ≡ false)
    × (((n ≡ root) × All (λ v. Eligible exp v → own_load root nodes <ℤ workload v) nodes)
        ⊎ (Among n nodes
            × Eligible exp n
            × All (λ v. Eligible exp v → workload n ≤ℤ workload v) nodes
            × ((is_in root.id exp ≡ true) ⊎ (workload n ≤ℤ own_load root nodes))))

All-none :
    (exp : List Bytes) (l : ℤ) (nodes : List Node)
    → All (λ v. ¬ Eligible exp v) nodes
    → All (λ v. Eligible exp v → l <ℤ workload v) nodes
All-none exp l [] h = tt
All-none exp l (n ∷ nodes) h = ((λ e. absurd (h.0 e)), All-none exp l nodes h.1)

All-above :
    (exp : List Bytes) (l k : ℤ) (nodes : List Node)
    → l <ℤ k
    → All (λ v. Eligible exp v → k ≤ℤ workload v) nodes
    → All (λ v. Eligible exp v → l <ℤ workload v) nodes
All-above exp l k [] lt h = tt
All-above exp l k (n ∷ nodes) lt h =
    ((λ e. below k (workload n) lt (h.0 e)), All-above exp l k nodes lt h.1)
  where
    below : (j m : ℤ) → l <ℤ j → j ≤ℤ m → l <ℤ m
    below j m p q = omega arith

choose-Chosen :
    (root : Node) (nodes : List Node) (exp : List Bytes) (s : Scan) (c : Option Node)
    → s.candidate ≡ c
    → s.total ≡ active_load nodes
    → IsBest exp nodes c
    → Chosen root nodes exp (choose root exp s)
unfolding choose
choose-Chosen root nodes exp s none e t h = elim (Bool-cases (is_in root.id exp)) [
  | inl x ↦ rw (e, x) (refl, refl, x, h)
  | inr x ↦ rw (e, x) (x, inl (refl, All-none exp (own_load root nodes) nodes h))
]
choose-Chosen root nodes exp s (some c) e t (among, good, least) =
    elim (Bool-cases (ltb_ℤ (own_load root nodes) (workload c))) [
      | inl busy ↦ elim (Bool-cases (is_in root.id exp)) [
        | inl x ↦ rw (e, t, busy, x) (good.free, inr (among, good, least, inl x))
        | inr x ↦
            rw (e, t, busy, x)
              (
                x,
                inl (
                  refl,
                  All-above exp (own_load root nodes) (workload c) nodes (ground arith) least,
                ),
              )
      ]
      | inr idle ↦ rw (e, t, idle) (good.free, inr (among, good, least, inr (ground arith)))
    ]

-- GetNodeBalanced answers with a node that is not among the exceptions: the root, if its own load
-- is below the workload of each node that may be taken, or else a least loaded one of these. With
-- the root among the exceptions it takes such a node whatever the loads, and it fails exactly if
-- there is none.
pub get_node_balanced_lem :
    (root : Node) (nodes : List Node) (exp : List Bytes)
    → Chosen root nodes exp (get_node_balanced (root, nodes) exp)
unfolding get_node_balanced
get_node_balanced_lem root nodes exp =
    let start : Scan = record { candidate = none; total = pos 0 } in
    let t : (scan exp start nodes).total ≡ active_load nodes =
      scan_total exp nodes start ∙ omega int_laws in
    choose-Chosen root nodes exp (scan exp start nodes) _ refl t
      (scan-Improves exp nodes start none refl)

All-Among : (P : Node → Type 0) (n : Node) (nodes : List Node) → Among n nodes → All P nodes → P n
All-Among P n (e ∷ nodes) (inl same) h = subst P (sym same) h.0
All-Among P n (e ∷ nodes) (inr later) h = All-Among P n nodes later h.1
All-Among P n [] there h = absurd there

Chosen-root :
    (root : Node) (nodes : List Node) (exp : List Bytes) (r : Node × Option DialError)
    → Chosen root nodes exp r
    → is_in root.id exp ≡ false
    → All (λ v. Eligible exp v → own_load root nodes <ℤ workload v) nodes
    → r ≡ (root, none)
Chosen-root root nodes exp (n, some e) h free over = absurd (ground arith)
Chosen-root root nodes exp (n, none) (x, inl (same, h)) free over = ap (λ m. (m, none)) same
Chosen-root root nodes exp (n, none) (x, inr (among, good, least, inl y)) free over =
    absurd (ground arith)
Chosen-root root nodes exp (n, none) (x, inr (among, good, least, inr y)) free over =
    let z : own_load root nodes <ℤ workload n =
      All-Among (λ v. Eligible exp v → own_load root nodes <ℤ workload v) n nodes among over good in
    absurd (omega arith)

-- If the root is not among the exceptions, and no node may be taken or each of these is over the
-- root's own load, it answers with the root, without an error.
get_node_balanced-root :
    (root : Node) (nodes : List Node) (exp : List Bytes)
    → is_in root.id exp ≡ false
    → All (λ v. ¬ Eligible exp v) nodes
      ⊎ All (λ v. Eligible exp v → own_load root nodes <ℤ workload v) nodes
    → get_node_balanced (root, nodes) exp ≡ (root, none)
get_node_balanced-root root nodes exp free why =
    Chosen-root root nodes exp (get_node_balanced (root, nodes) exp)
      (get_node_balanced_lem root nodes exp) free
      (elim why [ inl h ↦ All-none exp (own_load root nodes) nodes h | inr h ↦ h ])
