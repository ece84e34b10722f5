-- ===== src/Node/Loop.antt =====
-- node/node.go, `retryLoop`, with what else changes the queue of a node: an event is one step of a
-- goroutine between two waits, and a list of events is an interleaving.
use multi_region.Prelude.{none, some, List, [], ◌∷◌, Bytes}
use multi_region.Envelope.{Envelope}
use multi_region.Grpc.{Grpc}
use multi_region.Client
use multi_region.Node.{
  Node, State, Clock, Retry, waiting, sending, pausing, stopped, after_send, send_up,
  handle_upstream_from_child, handle_downstream_from_parent,
}

pub data Event : Type 0 where
  sends_up : Clock → Bytes → Bytes → Event
  child_sends : Envelope → Event
  parent_sends : Envelope → Event
  -- The ticker of `retryLoop`, one send of its inner loop, the pacer, and `ctx.Done`.
  ticks : Event
  resends : Event
  paces : Event
  cancels : Event

module _ {g : Grpc} {S : Type 0} where
  unfoldable pub set_retry : Retry → State g S → State g S
  set_retry r st = record st { node = record n { retry = r } }
    where
      n : Node g S
      n = st.node

  -- `n.pending.drain()`, and `continue` where it gives nothing.
  unfoldable pub drain : List Envelope → State g S → State g S
  unfolding set_retry
  drain [] st = st
  drain (env ∷ envs) st = record st {
    node = record n { pending = []; retry = sending (env ∷ envs) };
  }
    where
      n : Node g S
      n = st.node

  unfoldable pub tick : Retry → State g S → State g S
  unfolding drain
  tick waiting st = drain st.node.pending st
  tick (sending envs) st = st
  tick (pausing envs) st = st
  tick (stopped envs) st = st

  unfoldable pub resend_one : Envelope → List Envelope → State g S → State g S
  unfolding set_retry after_send
  resend_one env rest st = elim st.node.client [
    | none ↦ st
    | some c ↦ set_retry (pausing rest) (after_send env st (Client.send_upstream g env c st.world))
  ]

  unfoldable pub resend : Retry → State g S → State g S
  unfolding resend_one set_retry
  resend (sending []) st = set_retry waiting st
  resend (sending (env ∷ rest)) st = resend_one env rest st
  resend waiting st = st
  resend (pausing envs) st = st
  resend (stopped envs) st = st

  unfoldable pub pace : Retry → State g S → State g S
  unfolding set_retry
  pace (pausing []) st = set_retry waiting st
  pace (pausing (env ∷ rest)) st = set_retry (sending (env ∷ rest)) st
  pace waiting st = st
  pace (sending envs) st = st
  pace (stopped envs) st = st

  unfoldable pub cancel : Retry → State g S → State g S
  unfolding set_retry
  cancel waiting st = set_retry (stopped []) st
  cancel (pausing envs) st = set_retry (stopped envs) st
  cancel (sending envs) st = st
  cancel (stopped envs) st = st

  unfoldable pub step : State g S → Event → State g S
  unfolding tick resend pace cancel send_up handle_upstream_from_child handle_downstream_from_parent
  step st (sends_up now kind payload) = send_up now kind payload st
  step st (child_sends env) = handle_upstream_from_child env st
  step st (parent_sends env) = handle_downstream_from_parent env st
  step st ticks = tick st.node.retry st
  step st resends = resend st.node.retry st
  step st paces = pace st.node.retry st
  step st cancels = cancel st.node.retry st

  unfoldable pub run : State g S → List Event → State g S
  run st [] = st
  run st (e ∷ es) = run (step st e) es
