-- ===== src/Node/Tree.antt =====
-- node/node.go, transport/server.go and transport/client.go: a tree of nodes, and what flows down it.
-- The root pushes envelopes, each running Downstream call takes envelopes from its channel to the
-- child at its other end, calls end, and children call again.
pub mod Edges
pub mod Ordered
pub mod Calls
pub mod Steps
pub mod Joins
pub mod Fresh
pub mod Reach
mod Tests
use multi_region.Prelude.{ℕ, zero, suc, Option, none, some, List, [], ◌∷◌, ◌++◌, Bytes, get_or, set}
use multi_region.Envelope.{Envelope}
use multi_region.Grpc.{Grpc}
use multi_region.Server.{Server, Context, child_node_id, register_child, unregister_child}
use multi_region.Server
use multi_region.Server.Hub.{enter_downstream, leave_downstream}
use multi_region.Client.{Client}
use multi_region.Client
use multi_region.Node.{Node, State, Clock, new_envelope, send_down, handle_downstream_from_parent}

-- `given` is what the node was given to pass on, by its parent or by its own program.
pub record Member (g : Grpc) (S : Type 0) : Type 0 where
  pub state : State g S
  pub given : List Envelope

-- A branch is a running Downstream call, with the key and the channel that the server gave it, the
-- child's end of the stream, and the child. A call that ends takes both of its ends away, with what
-- waits in its channel; its child is gone until it calls again.
mutual
  pub data Tree (g : Grpc) (S : Type 0) : Type 0 where
    tree : Member g S → Branches g S → Tree g S

  pub data Branches (g : Grpc) (S : Type 0) : Type 0 where
    end : Branches g S
    branch : Bytes → ℕ → g.DownStream → Tree g S → Branches g S → Branches g S
    gone : Tree g S → Branches g S → Branches g S

pub data TreeEvent (g : Grpc) : Type 0 where
  -- The program at the root calls SendDown.
  pushes : Clock → Bytes → Bytes → TreeEvent g
  -- At the node on this path from the root, the i-th call takes an envelope to its child.
  delivers : List ℕ → ℕ → TreeEvent g
  -- The i-th call returns, whatever the reason.
  leaves : List ℕ → ℕ → TreeEvent g
  -- The i-th child calls again, with this context, and reads from this stream.
  joins : List ℕ → ℕ → Context → ℕ → g.DownStream → TreeEvent g

module _ {g : Grpc} {S : Type 0} where
  unfoldable pub push : Clock → Bytes → Bytes → Member g S → Member g S
  push now kind payload m = record {
    state = record st { node = (send_down now kind payload st.node).0 };
    given = m.given ++ new_envelope now st.node.config.id kind payload ∷ [];
  }
    where
      st : State g S
      st = m.state

  -- `Recv` of the client counts the envelope.
  count_received : g.DownStream → Envelope → State g S → State g S
  count_received stream env st = elim st.node.client [
    | none ↦ st
    | some c ↦ record st {
      node = record n { client = some (Client.received g stream (some env) c).0 };
    }
  ]
    where
      n : Node g S
      n = st.node

  unfoldable pub receive : g.DownStream → Envelope → Member g S → Member g S
  unfolding count_received
  receive stream env m = record {
    state = handle_downstream_from_parent env (count_received stream env m.state);
    given = m.given ++ env ∷ [];
  }

  -- What waits in a channel of the node's server.
  unfoldable pub waiting_in : ℕ → Member g S → List Envelope
  waiting_in c m = elim m.state.node.server [ none ↦ [] | some s ↦ get_or s.channels c [] ]

  unfoldable pub put_server : Server S → Member g S → Member g S
  put_server s m = record m { state = record st { node = record n { server = some s } } }
    where
      st : State g S
      st = m.state

      n : Node g S
      n = st.node

  -- The call takes the first envelope out of its channel.
  unfoldable pub take_first : ℕ → List Envelope → Member g S → Member g S
  unfolding put_server
  take_first c rest m = elim m.state.node.server [
    | none ↦ m
    | some s ↦ put_server (record s { channels = set s.channels c rest }) m
  ]

  -- What the call does when it returns.
  unfoldable pub hang_up : Bytes → Member g S → Member g S
  unfolding put_server
  hang_up key m = elim m.state.node.server [
    | none ↦ m
    | some s ↦ put_server (leave_downstream (unregister_child key s)) m
  ]

  unfoldable pub receive_at : g.DownStream → Envelope → Tree g S → Tree g S
  receive_at stream env (tree m bs) = tree (receive stream env m) bs

  unfoldable pub hand_over :
      ℕ → g.DownStream → List Envelope → Tree g S → Member g S → Member g S × Tree g S
  hand_over c stream [] t m = (m, t)
  hand_over c stream (env ∷ rest) t m = (take_first c rest m, receive_at stream env t)

  -- The i-th call of a node takes its turn.
  unfoldable pub serve : ℕ → Branches g S → Member g S → Member g S × Branches g S
  serve i end m = (m, end)
  serve zero (branch k c stream t bs) m =
      let (m', t') = hand_over c stream (waiting_in c m) t m in (m', branch k c stream t' bs)
  serve zero (gone t bs) m = (m, gone t bs)
  serve (suc i) (branch k c stream t bs) m =
      let (m', bs') = serve i bs m in (m', branch k c stream t bs')
  serve (suc i) (gone t bs) m = let (m', bs') = serve i bs m in (m', gone t bs')

  -- The i-th call ends.
  unfoldable pub end_call : ℕ → Branches g S → Member g S → Member g S × Branches g S
  unfolding hang_up
  end_call i end m = (m, end)
  end_call zero (branch k c stream t bs) m = (hang_up k m, gone t bs)
  end_call zero (gone t bs) m = (m, gone t bs)
  end_call (suc i) (branch k c stream t bs) m =
      let (m', bs') = end_call i bs m in (m', branch k c stream t bs')
  end_call (suc i) (gone t bs) m = let (m', bs') = end_call i bs m in (m', gone t bs')

  -- A call that has been authorized, or not.
  unfoldable pub admitted :
      Bytes
      → g.DownStream
      → Tree g S
      → Branches g S
      → Member g S
      → Server S × Option Server.Error
      → Member g S × Branches g S
  unfolding put_server
  admitted node_id stream t bs m (s, some e) = (put_server s m, gone t bs)
  admitted node_id stream t bs m (s, none) =
      let (key, c, s') = register_child node_id s in
      (put_server (enter_downstream s') m, branch key c stream t bs)

  unfoldable pub call_again :
      Context → ℕ → g.DownStream → Tree g S → Branches g S → Member g S → Member g S × Branches g S
  unfolding admitted
  call_again ctx now stream t bs m = elim m.state.node.server [
    | none ↦ (m, gone t bs)
    | some s ↦
        let id = child_node_id ctx in
        admitted id stream t bs m (Server.authorize m.state.service ctx now id s)
  ]

  -- The i-th child calls again.
  unfoldable pub begin_call :
      Context → ℕ → g.DownStream → ℕ → Branches g S → Member g S → Member g S × Branches g S
  unfolding call_again
  begin_call ctx now stream i end m = (m, end)
  begin_call ctx now stream zero (branch k c old t bs) m = (m, branch k c old t bs)
  begin_call ctx now stream zero (gone t bs) m = call_again ctx now stream t bs m
  begin_call ctx now stream (suc i) (branch k c old t bs) m =
      let (m', bs') = begin_call ctx now stream i bs m in (m', branch k c old t bs')
  begin_call ctx now stream (suc i) (gone t bs) m =
      let (m', bs') = begin_call ctx now stream i bs m in (m', gone t bs')

  -- A step of the node on a path from the root.
  unfoldable mutual
    pub at_node :
        (Branches g S → Member g S → Member g S × Branches g S) → List ℕ → Tree g S → Tree g S
    at_node f [] (tree m bs) = let (m', bs') = f bs m in tree m' bs'
    at_node f (j ∷ path) (tree m bs) = tree m (at_branch f j path bs)

    pub at_branch :
        (Branches g S → Member g S → Member g S × Branches g S)
        → ℕ
        → List ℕ
        → Branches g S
        → Branches g S
    at_branch f j path end = end
    at_branch f zero path (branch k c stream t bs) = branch k c stream (at_node f path t) bs
    at_branch f zero path (gone t bs) = gone (at_node f path t) bs
    at_branch f (suc j) path (branch k c stream t bs) = branch k c stream t (at_branch f j path bs)
    at_branch f (suc j) path (gone t bs) = gone t (at_branch f j path bs)

  push_at : Clock → Bytes → Bytes → Tree g S → Tree g S
  push_at now kind payload (tree m bs) = tree (push now kind payload m) bs

  pub tree_step : Tree g S → TreeEvent g → Tree g S
  unfolding push_at
  tree_step t (pushes now kind payload) = push_at now kind payload t
  tree_step t (delivers path i) = at_node (serve i) path t
  tree_step t (leaves path i) = at_node (end_call i) path t
  tree_step t (joins path i ctx now stream) = at_node (begin_call ctx now stream i) path t

  pub tree_run : Tree g S → List (TreeEvent g) → Tree g S
  tree_run t [] = t
  tree_run t (e ∷ es) = tree_run (tree_step t e) es
