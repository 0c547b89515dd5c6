-- ===== src/Network/Updates.antt =====
-- UpdateNode over a sequence of tunnel events, and the identifier of a node.
use booster.Common.{
  length-append, ℕ, ◌+◌, ◌-◌, ◌≡◌, refl, sym, ap, subst, ◌∙◌, inl, inr, Bool, true, false, List, [],
  ◌∷◌, ◌++◌, arith, if◌then◌else◌, Bool-cases, Bytes, ◌=ᵇ◌, =ᵇ_eq, length,
}
use booster.Node.State.{Node, Environment, new_tunnel, remove_tunnel}
use booster.Node.Counts.{IsNode, count, add_tunnel-count, remove_tunnel-count}
use booster.Network.State.{update_node}
use booster.Common.Int.{◌==ℤ◌}
use booster.Protocol.Payloads.{PayloadProxyUpdate, tunnel_added, tunnel_removed}
use booster.Common.Int.{pos}

-- What a sequence of events makes of the number of connections to a target, whatever the node.
abbrev pub tally : List PayloadProxyUpdate → Bytes → ℕ → ℕ
tally [] k c = c
tally (p ∷ ps) k c = tally ps k (
    if p.target =ᵇ k
    then (if p.operation ==ℤ tunnel_removed
        then c - 1
        else if p.operation ==ℤ tunnel_added
        then c + 1
        else c)
    else c)

if-same : (b : Bool) (c : ℕ) → c ≡ (if b then c else c)
if-same true c = refl
if-same false c = refl

removed-count :
    (target : Bytes) (n : Node) (k : Bytes)
    → IsNode n
    → IsNode (remove_tunnel target n).1
      × (count (remove_tunnel target n).1 k ≡ (if target =ᵇ k then count n k - 1 else count n k))
removed-count target n k h =
    let (h', cases) = remove_tunnel-count target n h in
    (
      h',
      elim (Bool-cases (target =ᵇ k)) [
        | inl same ↦
            let is = =ᵇ_eq target k same in
            rw same (elim cases [
              | inl (empty, e) ↦
                  let none_there : count n k ≡ 0 = subst (λ x. count n x ≡ 0) is empty in
                  rw e (omega (arith, none_there))
              | inr (some_there, done, f) ↦
                  let fk = f k in let e = rw same at fk in omega (arith, e)
            ])
        | inr other ↦ rw other (elim cases [
          | inl (empty, e) ↦ rw e refl
          | inr (some_there, done, f) ↦ let fk = f k in let e = rw other at fk in sym e
        ])
      ],
    )

module _ (env : Environment) where
  -- The events one after the other; an error of one does not stop the next.
  abbrev pub run :
      List PayloadProxyUpdate → Node × List PayloadProxyUpdate → Node × List PayloadProxyUpdate
  run [] s = s
  run (p ∷ ps) s = let r = update_node env p s in run ps (r.1, r.2)

  new_tunnel-copies : (target : Bytes) → (new_tunnel env target).copies ≡ pos 1
  unfolding new_tunnel
  new_tunnel-copies target = refl

  -- Both calls at once: the number of connections to one target.
  pub update_node-count :
      (p : PayloadProxyUpdate) (n : Node) (events : List PayloadProxyUpdate) (k : Bytes)
      → IsNode n
      → IsNode (update_node env p (n, events)).1
        × (count (update_node env p (n, events)).1 k ≡ tally (p ∷ []) k (count n k))
        × ((update_node env p (n, events)).2 ≡ events ++ record p { node_id = n.id } ∷ [])
  unfolding update_node new_tunnel
  update_node-count p n events k h = elim (Bool-cases (p.operation ==ℤ tunnel_removed)) [
    | inl removed ↦
        let (h', c') = removed-count p.target n k h in rw (update_node, removed) (h', c', refl)
    | inr more ↦ elim (Bool-cases (p.operation ==ℤ tunnel_added)) [
      | inl added ↦
          let t = new_tunnel env p.target in
          let (h', c') = add_tunnel-count t n (new_tunnel-copies p.target) h in
          rw (update_node, more, added) (h', c' k, refl)
      | inr other ↦ rw (update_node, more, other) (h, if-same (p.target =ᵇ k) (count n k), refl)
    ]
  ]

  -- After a sequence of tunnel events a well-formed node is well formed, and it counts as many
  -- connections to each target as the events say: an addition counts one more, a removal one less
  -- or stays at none, and any other operation changes nothing. As many events were published as
  -- came.
  pub run-count :
      (ps : List PayloadProxyUpdate) (n : Node) (events : List PayloadProxyUpdate) (k : Bytes)
      → IsNode n
      → IsNode (run ps (n, events)).0
        × (count (run ps (n, events)).0 k ≡ tally ps k (count n k))
        × (length (run ps (n, events)).1 ≡ length events + length ps)
  run-count [] n events k h = (h, refl, omega arith)
  run-count (p ∷ ps) n events k h =
      let (h', c', e') = update_node-count p n events k h in
      let r = update_node env p (n, events) in
      let (h2, c2, e2) = run-count ps r.1 r.2 k h' in
      (
        h2,
        c2 ∙ ap (tally ps k) c',
        omega (arith, ap length e', length-append events (record p { node_id = n.id } ∷ []), e2),
      )
