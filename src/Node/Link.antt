-- ===== src/Node/Link.antt =====
-- Two nodes of node/node.go, of which the second is the first one's parent: what the child's Upstream
-- stream takes to the parent, over any interleaving of the two and of what the stream does.
pub mod Growth
pub mod Taken
pub mod Arrival
pub mod Delivered
mod Tests
use multi_region.Prelude.{
  ℕ, suc, ◌+◌, ◌≤◌, ◌≡◌, refl, sym, ap, ◌∙◌, subst, Bool, Option, none, some, List, [], ◌∷◌, ◌++◌,
  length, length-append, get_elem?, drop, drop-append, drop-get_elem?, drop-length, All, arith,
  Option-cases, inl, inr,
}
use mathlib.Core.List.{append-nil, append_assoc}
use multi_region.Envelope.{Envelope}
use multi_region.Grpc.{Grpc}
use multi_region.Client.{Client}
use multi_region.Client
use multi_region.Client.Sending.{if_sent, send_upstream_exact}
use multi_region.Node.{
  State, Retry, waiting, sending, pausing, stopped, after_send, push, forward_up, new_envelope,
  handle_upstream_from_child, run_upstream_handlers, run_downstream_handlers, rebroadcast,
}
use multi_region.Node.Loop
use multi_region.Node.Loop.{
  Event, sends_up, child_sends, parent_sends, ticks, resends, paces, cancels, set_retry, drain,
  tick, resend_one, resend, pace, cancel,
}
use multi_region.Node.Held.{
  count, count-nil, count-append, held, held-count, in_hand, accepted, accepted_over,
}
use multi_region.Node.Delivery.{upstream_conserved}

-- `passed` of what the child's client has handed to gRPC is no longer under way; it has arrived at
-- the parent or been lost with a stream that broke.
pub record Link (g h : Grpc) (S T : Type 0) : Type 0 where
  pub child : State g S
  pub parent : State h T
  pub passed : ℕ
  pub arrived : List Envelope
  pub lost : List Envelope

pub data LinkEvent : Type 0 where
  -- A step of one of the nodes; other children of the parent send too.
  at_child : Event → LinkEvent
  at_parent : Event → LinkEvent
  -- The next envelope reaches the parent, whose handler takes it.
  arrives : LinkEvent
  -- The stream breaks, with all that is under way.
  breaks : LinkEvent

module _ {g h : Grpc} {S T : Type 0} where
  abbrev pub under_way : Link g h S T → List Envelope
  under_way l = drop l.passed (g.sent l.child.world)

  arrive : Option Envelope → Link g h S T → Link g h S T
  arrive none l = l
  arrive (some env) l = record l {
    parent = handle_upstream_from_child env l.parent;
    passed = suc l.passed;
    arrived = l.arrived ++ env ∷ [];
  }

  unfoldable pub link_step : Link g h S T → LinkEvent → Link g h S T
  unfolding arrive
  link_step l (at_child e) = record l { child = Loop.step l.child e }
  link_step l (at_parent e) = record l { parent = Loop.step l.parent e }
  link_step l arrives = arrive (get_elem? (g.sent l.child.world) l.passed) l
  link_step l breaks = record l {
    passed = length (g.sent l.child.world);
    lost = l.lost ++ under_way l;
  }

  unfoldable pub link_run : Link g h S T → List LinkEvent → Link g h S T
  link_run l [] = l
  link_run l (e ∷ es) = link_run (link_step l e) es

-- The steps of the child among the events.
abbrev pub child_events : List LinkEvent → List Event
child_events [] = []
child_events (at_child e ∷ es) = e ∷ child_events es
child_events (at_parent e ∷ es) = child_events es
child_events (arrives ∷ es) = child_events es
child_events (breaks ∷ es) = child_events es
