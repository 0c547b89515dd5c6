-- ===== src/Node/Examples.antt =====
-- Runs of node at given nodes.
use booster.Common.{
  ℕ, ◌+◌, ◌<◌, ◌≡◌, refl, ◌≢◌, ◌⊎◌, true, false, some, List, [], ◌∷◌, ◌++◌, arith, if◌then◌else◌,
  Bytes, ◌=ᵇ◌,
}
use booster.Common.Result.{ok, err}
use booster.Common.Dict.{lookup, IsMap}
use booster.Common.Int.{◌-ℤ◌, ◌+ℤ◌, pos}
use booster.Node.State.{
  Tunnel, Node, Environment, new, remove_tunnel, workload, sum_copies, join_host_port, no_tunnel,
}
use booster.Node.Counts.{IsNode, count, remove_tunnel-count}
use booster.Node.Dispatcher.{
  World, context_error, dial_error, failed, stuck, dial_failed, dial_context, rounds,
  get_node_balanced, is_in, scan, visit, better, choose,
}
use booster.Node.Dispatcher.Balance.{Chosen, get_node_balanced_lem}
use booster.Node.Dispatcher.Rounds.{Distinct, IsKnown}
use booster.Node.Dispatcher.Dialling.{dial_context-ne-stuck}
use mathlib.Core.List.{flatten}

abbrev web : Tunnel
web = record { id = 1 ∷ []; target = b'w' ∷ []; copies = pos 1 }

abbrev mail : Tunnel
mail = record { id = 2 ∷ []; target = b'm' ∷ []; copies = pos 2 }

abbrev node_of : Bytes → Node
node_of id = record {
  id = id;
  baddr = [];
  paddr = [];
  is_local = false;
  to_be_traced = false;
  stopped = false;
  active = true;
  tunnels = (b'm' ∷ [], mail) ∷ [];
}

abbrev busy : Node
busy = node_of (b'b' ∷ [])

abbrev root : Node
root = node_of (b'r' ∷ [])

busy-IsMap : IsMap busy.tunnels
unfolding lookup
busy-IsMap = (refl, tt)

busy-IsNode : IsNode busy
busy-IsNode = record { is_map = busy-IsMap; tunnels = (refl, omega arith, tt) }

remove_tunnel-count_example :
    IsNode (remove_tunnel (b'm' ∷ []) busy).1
    × (((count busy (b'm' ∷ []) ≡ 0)
          × (remove_tunnel (b'm' ∷ []) busy ≡ (err (no_tunnel (b'm' ∷ []) busy.id), busy)))
        ⊎ ((0 < count busy (b'm' ∷ []))
            × ((remove_tunnel (b'm' ∷ []) busy).0 ≡ ok tt)
            × ((k : Bytes)
                → count busy k ≡ (
                    if (b'm' ∷ []) =ᵇ k
                    then count (remove_tunnel (b'm' ∷ []) busy).1 k + 1
                    else count (remove_tunnel (b'm' ∷ []) busy).1 k))))
remove_tunnel-count_example = remove_tunnel-count (b'm' ∷ []) busy busy-IsNode

abbrev env : Environment
env = record { resolve = some; digest = λ image. image }

abbrev node_at : Bytes → Bytes → Node
node_at baddr paddr = record {
  id = b'h' ∷ b'4' ∷ b'8' ∷ b'8' ∷ b'4' ∷ b'1' ∷ [];
  baddr = baddr;
  paddr = paddr;
  is_local = true;
  to_be_traced = false;
  stopped = false;
  active = false;
  tunnels = [];
}

abbrev host : Bytes
host = b'h' ∷ []

-- The ports 488 and 41, and 48 and 841.
abbrev first_node : Node
first_node =
    node_at (join_host_port host (b'4' ∷ b'8' ∷ b'8' ∷ [])) (join_host_port host (b'4' ∷ b'1' ∷ []))

abbrev second_node : Node
second_node =
    node_at (join_host_port host (b'4' ∷ b'8' ∷ [])) (join_host_port host (b'8' ∷ b'4' ∷ b'1' ∷ []))

first_made : new env host (b'4' ∷ b'1' ∷ []) ((b'4' ∷ b'8' ∷ []) ++ b'8' ∷ []) true ≡ ok first_node
unfolding new flatten
first_made = refl

second_made :
    new env host ((b'8' ∷ []) ++ b'4' ∷ b'1' ∷ []) (b'4' ∷ b'8' ∷ []) true ≡ ok second_node
unfolding new flatten
second_made = refl

get_node_balanced_lem_example :
    Chosen root (busy ∷ []) (root.id ∷ []) (get_node_balanced (root, busy ∷ []) (root.id ∷ []))
get_node_balanced_lem_example = get_node_balanced_lem root (busy ∷ []) (root.id ∷ [])

-- Two nodes, neither of which reaches the target.
abbrev unreachable_world : World ℕ
unreachable_world = record {
  nodes = λ i. (root, busy ∷ []);
  has_dialer = λ n. true;
  dial = λ i n. dial_error 7;
}

abbrev known_ids : List Bytes
known_ids = root.id ∷ busy.id ∷ []

unreachable_world-IsKnown : IsKnown known_ids unreachable_world
unfolding is_in ◌=ᵇ◌
unreachable_world-IsKnown = record { root = λ i. refl; others = λ i. (refl, tt) }

dial_context-ne-stuck_example :
    ((dial_context unreachable_world 3).0 ≢ stuck) × Distinct (dial_context unreachable_world 3).1
dial_context-ne-stuck_example =
    dial_context-ne-stuck unreachable_world known_ids 3 unreachable_world-IsKnown (omega arith)

gives_up : (dial_context unreachable_world 3).0 ≡ failed (dial_failed 7)
unfolding dial_context rounds get_node_balanced scan visit better choose is_in workload sum_copies
    ◌=ᵇ◌ ◌-ℤ◌ ◌+ℤ◌
gives_up = refl

no_context_error : (i : ℕ) (n : Node) → unreachable_world.dial i n ≢ context_error
no_context_error i n = λ e. cc
