-- ===== src/Service/Run.antt =====
-- examples/node/main.go: the program after `main` has started it, over requests to its HTTP interface
-- and steps of its node in any order.
pub mod Tracks
pub mod Logs
pub mod Upward
pub mod Posted
pub mod Matcher
pub mod Tests
use multi_region.Prelude.{
  Bool, Option, none, some, List, [], ◌∷◌, ◌++◌, Bytes, str, beq, if◌then◌else◌,
}
use multi_region.Envelope.{Envelope}
use multi_region.Grpc.{Grpc}
use multi_region.Node.{State, Clock, new_envelope}
use multi_region.Node.Loop
use multi_region.Node.Loop.{
  Event, sends_up, child_sends, parent_sends, ticks, resends, paces, cancels,
}
use multi_region.Service.AllowList.Approval.{Edit, approves, revokes}
use multi_region.Service.Storage.Bolt.{Disk}
use multi_region.Service.Api.{Service}
use multi_region.Service.Api.Effects.{log_of, edits_of}
use multi_region.Service.Api.Routes.{
  Http, HttpRequest, Request, get_dashboard, post_agent_log, post_config, post_config_for_child,
  get_logs, get_status, get_children, get_allowed_children, post_allowed_child,
  delete_allowed_child, get_pending_children, get_metrics, route, serve,
}

pub data ServiceEvent : Type 0 where
  requests : Clock → HttpRequest → ServiceEvent
  node_does : Event → ServiceEvent

module _ {g : Grpc} {d : Disk} (h : Http) where
  unfoldable pub service_step : State g (Service d) → ServiceEvent → State g (Service d)
  service_step st (requests now r) = (serve h now r st).1
  service_step st (node_does e) = Loop.step st e

  unfoldable pub service_run : State g (Service d) → List ServiceEvent → State g (Service d)
  service_run st [] = st
  service_run st (e ∷ es) = service_run (service_step st e) es

-- The envelope, if it is of this kind.
unfoldable pub of_kind : Bytes → Envelope → List Envelope
of_kind kind env = if beq kind env.kind then env ∷ [] else []

-- The envelopes that a step of the node gives the handlers that save them: those for "log" that the
-- program or a child sends up, and those for "config" from the parent.
unfoldable pub given_by : Bytes → Event → List Envelope
unfolding of_kind
given_by id (sends_up now kind payload) = of_kind (str "log") (new_envelope now id kind payload)
given_by id (child_sends env) = of_kind (str "log") env
given_by id (parent_sends env) = of_kind (str "config") env
given_by id ticks = []
given_by id resends = []
given_by id paces = []
given_by id cancels = []

unfoldable pub logged_by : Option Envelope → List Envelope
unfolding of_kind
logged_by none = []
logged_by (some env) = of_kind (str "log") env

module _ (h : Http) where
  saved_by : Bytes → ServiceEvent → List Envelope
  saved_by id (requests now r) = elim (route h r) [
    | none ↦ []
    | some q ↦ logged_by (log_of id now q)
  ]
  saved_by id (node_does e) = given_by id e

  edits_by : ServiceEvent → List Edit
  edits_by (requests now r) = elim (route h r) [ none ↦ [] | some q ↦ edits_of q ]
  edits_by (node_does e) = []

  -- The envelopes that some events give the saving handlers, in order, at a node with this node-id.
  unfoldable pub saved_over : Bytes → List ServiceEvent → List Envelope
  unfolding saved_by
  saved_over id [] = []
  saved_over id (e ∷ es) = saved_by id e ++ saved_over id es

  -- The edits that some events ask for, in order.
  unfoldable pub edits_over : List ServiceEvent → List Edit
  unfolding edits_by
  edits_over [] = []
  edits_over (e ∷ es) = edits_by e ++ edits_over es
