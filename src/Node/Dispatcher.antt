-- ===== src/Node/Dispatcher.antt =====
-- node/dispatcher.go: which node dials a connection, and what is tried when dialling fails.
pub mod Scans
pub mod Balance
pub mod Rounds
pub mod Dialling
pub mod Gateway
use booster.Common.{
  true, zero, ◌=ᵇ◌, ◌++◌, ◌∷◌, false, not, some, Bool, [], if◌then◌else◌, none, suc, Bytes, List,
  Option, ℕ,
}
use booster.Node.State.{Node, workload}
use booster.Common.Int.{◌+ℤ◌, ◌-ℤ◌, ltb_ℤ, pos, ℤ}

pub data DialError : Type 0 where
  no_suitable_node gateway_failed : DialError
  dial_failed : ℕ → DialError

unfoldable pub is_in : Bytes → List Bytes → Bool
is_in id [] = false
is_in id (v ∷ ids) = if id =ᵇ v then true else is_in id ids

-- `c` and `twl` of the loop over the nodes.
pub record Scan : Type 0 where
  pub candidate : Option Node
  pub total : ℤ

-- `if c == nil { c = e }`, then `if ewl < cwl { c = e }`
unfoldable pub better : Option Node → Node → Node
better none e = if ltb_ℤ (workload e) (workload e) then e else e
better (some c) e = if ltb_ℤ (workload e) (workload c) then e else c

-- The body of the loop.
unfoldable pub visit : List Bytes → Scan → Node → Scan
unfolding better
visit exp s e =
    if not e.active
    then s
    else if is_in e.id exp
    then record s { total = s.total +ℤ workload e }
    else record { candidate = some (better s.candidate e); total = s.total +ℤ workload e }

unfoldable pub scan : List Bytes → Scan → List Node → Scan
scan exp s [] = s
scan exp s (e ∷ es) = scan exp (visit exp s e) es

-- The end of GetNodeBalanced. `tr` is the workload of the root.
unfoldable pub choose : Node → List Bytes → Scan → Node × Option DialError
choose root exp s = elim s.candidate [
  | none ↦ if is_in root.id exp then (root, some no_suitable_node) else (root, none)
  | some c ↦
      if ltb_ℤ (workload root -ℤ s.total) (workload c)
      then (if is_in root.id exp then (c, none) else (root, none))
      else (c, none)
]

unfoldable pub get_node_balanced : Node × List Node → List Bytes → Node × Option DialError
unfolding scan choose
get_node_balanced (root, nodes) exp =
    choose root exp (scan exp (record { candidate = none; total = pos 0 }) nodes)

-- What a dialer for a node answers: a connection, the error of the context, or another error.
pub data Dialled (Conn : Type 0) : Type 0 where
  connection : Conn → Dialled Conn
  context_error : Dialled Conn
  dial_error : ℕ → Dialled Conn

-- What DialContext returns. `stuck` is no Go value: the rounds ran out.
pub data Outcome (Conn : Type 0) : Type 0 where
  connected : Conn → Outcome Conn
  no_connection_no_error : Outcome Conn
  failed : DialError → Outcome Conn
  stuck : Outcome Conn

-- The network as the rounds of one DialContext meet it: the i-th answer of Nodes(), whether a
-- dialer can be made for a node, and the i-th answer of a dialer.
pub record World (Conn : Type 0) : Type 0 where
  pub nodes : ℕ → Node × List Node
  pub has_dialer : Node → Bool
  pub dial : ℕ → Node → Dialled Conn

module _ {Conn : Type 0} (w : World Conn) where
  -- The `for` of DialContext with the ids that its node finder has collected; they come back too.
  unfoldable pub rounds : ℕ → ℕ → List Bytes → Node → Outcome Conn × List Bytes
  rounds zero i ids node = (stuck, ids)
  rounds (suc fuel) i ids node = elim (w.has_dialer node) [
    | false ↦ (failed gateway_failed, ids)
    | true ↦ elim (w.dial i node) [
      | connection c ↦ (connected c, ids)
      | context_error ↦ (no_connection_no_error, ids)
      | dial_error e ↦
          let (next, error) = get_node_balanced (w.nodes (suc i)) ids in
          elim error [
            | none ↦ rounds fuel (suc i) (ids ++ next.id ∷ []) next
            | some _ ↦ (failed (dial_failed e), ids)
          ]
    ]
  ]

  unfoldable pub dial_context : ℕ → Outcome Conn × List Bytes
  unfolding rounds
  dial_context fuel =
      let (node, error) = get_node_balanced (w.nodes 0) [] in
      elim error [ some e ↦ (failed e, []) | none ↦ rounds fuel 0 (node.id ∷ []) node ]
