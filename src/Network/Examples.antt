-- ===== src/Network/Examples.antt =====
-- Runs of booster/network.go for a given node and its connections.
use booster.Common.{ℕ, ◌+◌, ◌≡◌, refl, true, false, some, List, [], ◌∷◌, arith, Bytes, length}
use booster.Common.Dict.{lookup, IsMap}
use booster.Common.Int.{pos}
use booster.Node.State.{Tunnel, Node, Environment}
use booster.Node.Counts.{IsNode, count}
use booster.Protocol.Payloads.{PayloadProxyUpdate}
use booster.Network.Updates.{tally, run, run-count}

abbrev web : Tunnel
web = record { id = 1 ∷ []; target = b'w' ∷ []; copies = pos 2 }

abbrev node_with : List (Bytes × Tunnel) → Node
node_with tunnels = record {
  id = b'n' ∷ [];
  baddr = [];
  paddr = [];
  is_local = false;
  to_be_traced = true;
  stopped = false;
  active = true;
  tunnels = tunnels;
}

abbrev busy : Node
busy = node_with ((b'w' ∷ [], web) ∷ [])

busy-IsMap : IsMap busy.tunnels
unfolding lookup
busy-IsMap = (refl, tt)

abbrev env : Environment
env = record { resolve = some; digest = λ image. image }

abbrev update : ℕ → PayloadProxyUpdate
update operation = record { node_id = []; target = b'w' ∷ []; operation = pos operation }

abbrev no_updates : List PayloadProxyUpdate
no_updates = []

abbrev updates : List PayloadProxyUpdate
updates = update 1 ∷ update 2 ∷ update 2 ∷ update 9 ∷ []

busy-IsNode : IsNode busy
busy-IsNode = record { is_map = busy-IsMap; tunnels = (refl, omega arith, tt) }

run-count_example :
    IsNode (run env updates (busy, no_updates)).0
    × (count (run env updates (busy, no_updates)).0 (b'w' ∷ [])
        ≡ tally updates (b'w' ∷ []) (count busy (b'w' ∷ [])))
    × (length (run env updates (busy, no_updates)).1 ≡ length no_updates + length updates)
run-count_example = run-count env updates busy no_updates (b'w' ∷ []) busy-IsNode
