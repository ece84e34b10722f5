-- ===== src/Node/Lifecycle.antt =====
-- node/node.go: what a node tells of itself, and its Start and Stop.
use multi_region.Prelude.{ℕ, Bool, true, false, none, some, List, [], if◌then◌else◌}
use multi_region.Grpc.{Grpc}
use multi_region.Server.{Server, PendingChild}
use multi_region.Server
use multi_region.Client.{Client}
use multi_region.Client
use multi_region.Node.{Node, State, is_empty}

module _ {g : Grpc} {S : Type 0} where
  pub children_count : Node g S → ℕ
  children_count n = elim n.server [ none ↦ 0 | some s ↦ Server.children_count s ]

  pub pending_children : Node g S → List PendingChild
  pending_children n = elim n.server [ none ↦ [] | some s ↦ Server.pending_children s ]

  pub has_parent : Node g S → Bool
  has_parent n = elim n.config.resolver [ none ↦ false | some r ↦ true ]

  pub connected_to_parent : Node g S → Bool
  connected_to_parent n = elim n.client [ none ↦ false | some c ↦ Client.is_connected g c ]

  -- `Start`: the server half, then the client half with its first connection. The goroutine of
  -- `Listen` is not part of the state; `retryLoop` waits from then on.
  unfoldable pub start_server : Node g S → Node g S
  unfolding is_empty
  start_server n = if is_empty n.config.listen_addr then n else record n {
    server = some (elim n.config.authorize_child [
      | none ↦ Server.new_server
      | some hook ↦ Server.set_authorize_child (some hook) Server.new_server
    ]);
  }

  unfoldable pub start_client : State g S → State g S
  start_client st = elim st.node.config.resolver [
    | none ↦ st
    | some r ↦
        let (c, w) = Client.connect g (Client.new_client g n.config.id r n.config.authn) st.world in
        record st { node = record n { client = some c }; world = w }
  ]
    where
      n : Node g S
      n = st.node

  unfoldable pub start : State g S → State g S
  unfolding start_server start_client
  start st = start_client (record st { node = start_server st.node })

  -- `Stop` as far as the client: `server.Stop` ends the calls in gRPC.
  pub stop : State g S → State g S
  stop st = elim st.node.client [
    | none ↦ st
    | some c ↦
        let (c', w, e) = Client.close_client g c st.world in
        record st { node = record n { client = some c' }; world = w }
  ]
    where
      n : Node g S
      n = st.node
