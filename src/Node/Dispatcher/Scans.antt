-- ===== src/Node/Dispatcher/Scans.antt =====
-- The scan of GetNodeBalanced over the connected nodes: a least loaded one that may be taken.
use booster.Node.Dispatcher.{better, is_in, scan, Scan, visit}
use booster.Node.State.{workload, Node}
use booster.Common.{
  Bool, if◌then◌else◌, sym, ap, subst, [], refl, ◌∙◌, arith, ◌∷◌, none, false, inr, inl, All,
  Bool-cases, some, true, Option, ◌≡◌, ◌⊎◌, Bytes, List,
}
use booster.Common.Int.{int_laws, ◌+ℤ◌, ltb_ℤ, ◌≤ℤ◌, pos, ℤ}

-- A node that may be taken: active, and not among the exceptions.
pub record Eligible (exp : List Bytes) (e : Node) : Type 0 where
  pub active : e.active ≡ true
  pub free : is_in e.id exp ≡ false

-- Some node of the list is `c`.
abbrev pub Among : Node → List Node → Type 0
Among c [] = ⊥
Among c (e ∷ es) = (c ≡ e) ⊎ Among c es

-- The workloads of the active nodes, added up.
pub active_load : List Node → ℤ
active_load [] = pos 0
active_load (e ∷ es) = if e.active then workload e +ℤ active_load es else active_load es

-- `c` is none only if none of the nodes may be taken, and else the least loaded of these.
abbrev pub IsBest : List Bytes → List Node → Option Node → Type 0
IsBest exp nodes none = All (λ e. ¬ Eligible exp e) nodes
IsBest exp nodes (some c) =
    Among c nodes × Eligible exp c × All (λ e. Eligible exp e → workload c ≤ℤ workload e) nodes

-- With a candidate from before the loop.
abbrev Improves : List Bytes → List Node → Option Node → Option Node → Type 0
Improves exp nodes none r = IsBest exp nodes r
Improves exp nodes (some b) none = ⊥
Improves exp nodes (some b) (some c) =
    ((c ≡ b) ⊎ (Among c nodes × Eligible exp c))
    × (workload c ≤ℤ workload b)
    × All (λ e. Eligible exp e → workload c ≤ℤ workload e) nodes

visit_skip :
    (exp : List Bytes) (s : Scan) (e : Node)
    → ¬ Eligible exp e
    → (visit exp s e).candidate ≡ s.candidate
unfolding visit
visit_skip exp s e no_ = elim (Bool-cases e.active) [
  | inl a ↦ elim (Bool-cases (is_in e.id exp)) [
    | inl x ↦ rw (a, x)
    | inr x ↦ absurd (no_ (record { active = a; free = x }))
  ]
  | inr a ↦ rw a
]

visit_take :
    (exp : List Bytes) (s : Scan) (e : Node)
    → Eligible exp e
    → (visit exp s e).candidate ≡ some (better s.candidate e)
unfolding visit
visit_take exp s e h = rw (h.active, h.free)

Eligible-cases : (exp : List Bytes) (e : Node) → Eligible exp e ⊎ ¬ Eligible exp e
Eligible-cases exp e = elim (Bool-cases e.active) [
  | inl a ↦ elim (Bool-cases (is_in e.id exp)) [
    | inl x ↦ inr (λ h. cc (h.free))
    | inr x ↦ inl (record { active = a; free = x })
  ]
  | inr a ↦ inr (λ h. cc (h.active))
]

-- A node that may not be taken changes nothing.
Improves-skip :
    (exp : List Bytes) (n : Node) (nodes : List Node) (b r : Option Node)
    → ¬ Eligible exp n
    → Improves exp nodes b r
    → Improves exp (n ∷ nodes) b r
Improves-skip exp n nodes none none bad h = (bad, h)
Improves-skip exp n nodes none (some c) bad (among, good, least) =
    (inr among, good, (λ e. absurd (bad e), least))
Improves-skip exp n nodes (some b) none bad h = h
Improves-skip exp n nodes (some b) (some c) bad (inl same, le, least) =
    (inl same, le, (λ e. absurd (bad e), least))
Improves-skip exp n nodes (some b) (some c) bad (inr (among, good), le, least) =
    (inr (inr among, good), le, (λ e. absurd (bad e), least))

better-none : (n : Node) → better none n ≡ n
unfolding better
better-none n = ground arith

better-some :
    (b n : Node)
    → ((better (some b) n ≡ n) ⊎ (better (some b) n ≡ b))
      × (workload (better (some b) n) ≤ℤ workload b)
      × (workload (better (some b) n) ≤ℤ workload n)
unfolding better
better-some b n = elim (Bool-cases (ltb_ℤ (workload n) (workload b))) [
  | inl less ↦ rw less (inl refl, ground arith, omega arith)
  | inr more ↦ rw more (inr refl, omega arith, ground arith)
]

-- A node that may be taken is compared with the candidate.
Improves-take :
    (exp : List Bytes) (n : Node) (nodes : List Node) (b r : Option Node)
    → Eligible exp n
    → Improves exp nodes (some (better b n)) r
    → Improves exp (n ∷ nodes) b r
Improves-take exp n nodes b none good h = absurd h
Improves-take exp n nodes none (some c) good (inl same, le, least) =
    let e : c ≡ n = same ∙ better-none n in
    (inl e, subst (Eligible exp) (sym e) good, (λ _. rw e (omega arith), least))
Improves-take exp n nodes none (some c) good (inr (among, good'), le, least) =
    (inr among, good', (λ _. rw (better-none n) at le, least))
Improves-take exp n nodes (some b) (some c) good (inl same, le, least) =
    let (which, below_b, below_n) = better-some b n in
    let le_b : workload c ≤ℤ workload b = rw same below_b in
    let le_n : workload c ≤ℤ workload n = rw same below_n in
    elim which [
      | inl e ↦ (
        inr (inl (same ∙ e), subst (Eligible exp) (sym (same ∙ e)) good),
        le_b,
        (λ _. le_n, least),
      )
      | inr e ↦ (inl (same ∙ e), le_b, (λ _. le_n, least))
    ]
Improves-take exp n nodes (some b) (some c) good (inr (among, good'), le, least) =
    let (which, below_b, below_n) = better-some b n in
    (inr (inr among, good'), omega arith, (λ _. omega arith, least))

pub scan-Improves :
    (exp : List Bytes) (nodes : List Node) (s : Scan) (b : Option Node)
    → s.candidate ≡ b
    → Improves exp nodes b (scan exp s nodes).candidate
unfolding scan
scan-Improves exp [] s none e = rw e tt
scan-Improves exp [] s (some b) e = rw e (inl refl, omega arith, tt)
scan-Improves exp (n ∷ nodes) s b e = elim (Eligible-cases exp n) [
  | inl good ↦ Improves-take exp n nodes b _ good (
      scan-Improves exp nodes (visit exp s n) _
        (visit_take exp s n good ∙ ap (λ o. some (better o n)) e))
  | inr bad ↦
      Improves-skip exp n nodes b _ bad
        (scan-Improves exp nodes (visit exp s n) b (visit_skip exp s n bad ∙ e))
]

visit_total :
    (exp : List Bytes) (s : Scan) (e : Node)
    → (visit exp s e).total ≡ (if e.active then s.total +ℤ workload e else s.total)
unfolding visit
visit_total exp s e = ground arith

total_step :
    (b : Bool) (t w l : ℤ) → (if b then t +ℤ w else t) +ℤ l ≡ t +ℤ (if b then w +ℤ l else l)
total_step true t w l = omega int_laws
total_step false t w l = refl

-- `twl` counts the active nodes, the exceptions too.
pub scan_total :
    (exp : List Bytes) (nodes : List Node) (s : Scan)
    → (scan exp s nodes).total ≡ s.total +ℤ active_load nodes
unfolding scan active_load
scan_total exp [] s = omega int_laws
scan_total exp (n ∷ nodes) s =
    rw (scan_total exp nodes (visit exp s n), visit_total exp s n)
      (total_step n.active s.total (workload n) (active_load nodes))
