-- ===== src/Service/Api/Routes.antt =====
-- examples/node/main.go, `startAPIServer`: the patterns that it registers, each with its handler, and
-- what becomes of a request. Package net/http matches requests to patterns, package encoding/json
-- decodes bodies: both are parameters.
pub mod Safe
pub mod Picked
use multi_region.Prelude.{ℕ, Option, none, some, List, [], ◌∷◌, Bytes, str, ℤ, map, get_elem?}
use multi_region.Grpc.{Grpc}
use multi_region.Node.{State, Clock}
use multi_region.Service.Storage.Bolt.{Disk}
use multi_region.Service.Api.{
  Service, Response, exposition, handle_dashboard, handle_agent_log, handle_admin_config,
  handle_admin_config_for_child, handle_admin_logs, handle_admin_status, handle_admin_children,
  handle_get_allowed_children, handle_approve_child, handle_revoke_child, handle_pending_children,
}

pub record HttpRequest : Type 0 where
  pub method : Bytes
  pub path : Bytes
  -- What `r.URL.Query().Get` gives for "since".
  pub since : Bytes
  pub content : Bytes

-- `mux` is what ServeMux makes of the patterns, in the order of their registration, and of a request:
-- the position of the pattern that it picks, with the path values, or its own answer where it picks
-- none. `decode` gives the field of this name of a JSON body.
pub record Http : Type 0 where
  pub mux : List Bytes → HttpRequest → Option (ℕ × (Bytes → Bytes))
  pub no_route : HttpRequest → Response
  pub decode : Bytes → Bytes → Option Bytes
  pub parse_int : Bytes → Option ℤ

-- The handlers, with what they read of a request.
pub data Request : Type 0 where
  get_dashboard : Request
  post_agent_log : Option Bytes → Request
  post_config : Option Bytes → Request
  post_config_for_child : Bytes → Option Bytes → Request
  get_logs : Bytes → Request
  get_status : Request
  get_children : Request
  get_allowed_children : Request
  post_allowed_child : Option Bytes → Request
  delete_allowed_child : Bytes → Request
  get_pending_children : Request
  get_metrics : Request

module _ (h : Http) where
  -- What a handler reads, of the request and of its path values.
  abbrev pub Reader : Type 0
  Reader = HttpRequest → (Bytes → Bytes) → Request

  unfoldable pub routes : List (Bytes × Reader)
  routes =
      (str "GET /", λ r values. get_dashboard)
      ∷ (
        str "POST /api/v1/agent/logs",
        λ r values. post_agent_log (h.decode (str "payload") r.content),
      )
      ∷ (str "POST /api/v1/admin/config", λ r values. post_config (h.decode (str "data") r.content))
      ∷ (
        str "POST /api/v1/admin/config/{child_id}",
        λ r values.
            post_config_for_child (values (str "child_id")) (h.decode (str "data") r.content),
      )
      ∷ (str "GET /api/v1/admin/logs", λ r values. get_logs r.since)
      ∷ (str "GET /api/v1/admin/status", λ r values. get_status)
      ∷ (str "GET /api/v1/admin/children", λ r values. get_children)
      ∷ (str "GET /api/v1/admin/allowed-children", λ r values. get_allowed_children)
      ∷ (
        str "POST /api/v1/admin/allowed-children",
        λ r values. post_allowed_child (h.decode (str "node_id") r.content),
      )
      ∷ (
        str "DELETE /api/v1/admin/allowed-children/{node_id}",
        λ r values. delete_allowed_child (values (str "node_id")),
      )
      ∷ (str "GET /api/v1/admin/pending-children", λ r values. get_pending_children)
      ∷ (str "GET /metrics", λ r values. get_metrics)
      ∷ []

  read_by : HttpRequest → (Bytes → Bytes) → Option (Bytes × Reader) → Option Request
  read_by r values none = none
  read_by r values (some (pattern, reader)) = some (reader r values)

  -- The handler that a request gets to.
  unfoldable pub route : HttpRequest → Option Request
  unfolding read_by
  route r = elim (h.mux (map (λ e. e.0) routes) r) [
    | none ↦ none
    | some (i, values) ↦ read_by r values (get_elem? routes i)
  ]

module _ {g : Grpc} {d : Disk} (h : Http) where
  unfoldable pub answer : Clock → Request → State g (Service d) → Response × State g (Service d)
  answer now get_dashboard st = (handle_dashboard, st)
  answer now (post_agent_log payload) st = handle_agent_log now payload st
  answer now (post_config payload) st = handle_admin_config now payload st
  answer now (post_config_for_child child_id payload) st =
      handle_admin_config_for_child now child_id payload st
  answer now (get_logs since) st = (handle_admin_logs h.parse_int since st, st)
  answer now get_status st = (handle_admin_status st, st)
  answer now get_children st = (handle_admin_children st, st)
  answer now get_allowed_children st = (handle_get_allowed_children st, st)
  answer now (post_allowed_child node_id) st = handle_approve_child node_id st
  answer now (delete_allowed_child node_id) st = handle_revoke_child node_id st
  answer now get_pending_children st = (handle_pending_children st, st)
  answer now get_metrics st = (record { code = 200; body = exposition }, st)

  unfoldable pub answer_routed :
      Clock → HttpRequest → Option Request → State g (Service d) → Response × State g (Service d)
  answer_routed now r none st = (h.no_route r, st)
  answer_routed now r (some q) st = answer now q st

  -- A request to the HTTP interface.
  unfoldable pub serve : Clock → HttpRequest → State g (Service d) → Response × State g (Service d)
  unfolding answer_routed
  serve now r st = answer_routed now r (route h r) st
