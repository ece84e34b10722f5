-- ===== src/Service/Api.antt =====
-- examples/node/main.go: the handlers of the HTTP interface, each as a function of what the JSON
-- decoder made of the request's body (`none` is its error) and of the state. The encoding of answers
-- and logging are left out.
pub mod Approval
pub mod AgentLogs
pub mod Registered
pub mod Push
pub mod Routes
pub mod Effects
pub mod Logs
mod Tests
use multi_region.Prelude.{ℕ, Bool, Option, none, some, List, [], ◌∷◌, Bytes, str, ℤ, pos, map}
use multi_region.Envelope.{Envelope}
use multi_region.Grpc.{Grpc}
use multi_region.Server.{BroadcastResult, PendingChild}
use multi_region.Server
use multi_region.Node.{
  Node, State, Clock, Error, Handler, send_up, send_down, send_to_child, on_upstream, on_downstream,
}
use multi_region.Node.Lifecycle.{children_count, pending_children, has_parent, connected_to_parent}
use multi_region.Service.AllowList.{ChildAllowList, add, remove, list}
use multi_region.Service.Storage.Bolt.{Disk}
use multi_region.Service.Storage
use multi_region.Service.Storage.{save, query}

-- What the program keeps beside the node.
pub record Service (d : Disk) : Type 0 where
  pub allow_list : ChildAllowList
  pub store : d.Bucket

pub record Status : Type 0 where
  pub id : Bytes
  pub listen_addr : Bytes
  pub has_parent : Bool
  pub connected_to_parent : Bool
  pub children_count : ℕ

pub data Body : Type 0 where
  no_body : Body
  accepted : Body
  error_text : Bytes → Body
  result : BroadcastResult → Body
  refused : Error → Body
  entries : List Envelope → Body
  status_of : Status → Body
  children : ℕ → Body
  allowed : List Bytes → Body
  pending : List PendingChild → Body
  -- The page of dashboard.html.
  page : Body
  -- What the Prometheus client library writes.
  exposition : Body

pub record Response : Type 0 where
  pub code : ℕ
  pub body : Body

pub handle_dashboard : Response
handle_dashboard = record { code = 200; body = page }

bad_json : Response
bad_json = record { code = 400; body = error_text (str "parse json") }

answer_logs : List Envelope × Option Storage.Error → Response
answer_logs (found, some e) = record { code = 500; body = error_text (str "query") }
answer_logs (found, none) = record { code = 200; body = entries found }

-- The handlers that `main` registers; `commits` tells which transactions of the store commit.
unfoldable pub save_envelope : {d : Disk} → (Envelope → Bool) → Handler (Service d)
save_envelope {d} commits env s = record s { store = (save d (commits env) env s.store).0 }

module _ {g : Grpc} {d : Disk} where
  pub register : (Envelope → Bool) → Node g (Service d) → Node g (Service d)
  register commits n =
      on_downstream (str "config") (save_envelope commits)
        (on_upstream (str "log") (save_envelope commits) n)

  -- SendUp never returns an error, so the answer 500 is not reached.
  unfoldable pub handle_agent_log :
      Clock → Option Bytes → State g (Service d) → Response × State g (Service d)
  unfolding bad_json
  handle_agent_log now none st = (bad_json, st)
  handle_agent_log now (some payload) st =
      (record { code = 202; body = accepted }, send_up now (str "log") payload st)

  answer_config :
      State g (Service d)
      → Node g (Service d) × BroadcastResult × Option Server.Error
      → Response × State g (Service d)
  answer_config st (n, r, some e) = (record { code = 206; body = result r }, record st { node = n })
  answer_config st (n, r, none) = (record { code = 202; body = no_body }, record st { node = n })

  pub handle_admin_config :
      Clock → Option Bytes → State g (Service d) → Response × State g (Service d)
  unfolding bad_json answer_config
  handle_admin_config now none st = (bad_json, st)
  handle_admin_config now (some payload) st =
      answer_config st (send_down now (str "config") payload st.node)

  answer_child :
      State g (Service d) → Node g (Service d) × Option Error → Response × State g (Service d)
  answer_child st (n, some e) = (record { code = 400; body = refused e }, record st { node = n })
  answer_child st (n, none) = (record { code = 202; body = no_body }, record st { node = n })

  pub handle_admin_config_for_child :
      Clock → Bytes → Option Bytes → State g (Service d) → Response × State g (Service d)
  unfolding bad_json answer_child
  handle_admin_config_for_child now child_id none st = (bad_json, st)
  handle_admin_config_for_child now child_id (some payload) st =
      answer_child st (send_to_child now child_id (str "config") payload st.node)

  logs_since : Option ℤ → State g (Service d) → Response
  unfolding answer_logs
  logs_since none st = record { code = 400; body = error_text (str "parse since") }
  logs_since (some t) st =
      answer_logs (query d (record { kind = str "log"; since = t }) st.service.store)

  -- `parse_int` is strconv.ParseInt.
  pub handle_admin_logs : (Bytes → Option ℤ) → Bytes → State g (Service d) → Response
  unfolding logs_since
  handle_admin_logs parse_int [] st = logs_since (some (pos 0)) st
  handle_admin_logs parse_int (b ∷ bs) st = logs_since (parse_int (b ∷ bs)) st

  pub handle_admin_status : State g (Service d) → Response
  handle_admin_status st = record {
    code = 200;
    body = status_of (record {
      id = st.node.config.id;
      listen_addr = st.node.config.listen_addr;
      has_parent = has_parent st.node;
      connected_to_parent = connected_to_parent st.node;
      children_count = children_count st.node;
    });
  }

  pub handle_admin_children : State g (Service d) → Response
  handle_admin_children st = record { code = 200; body = children (children_count st.node) }

  pub handle_get_allowed_children : State g (Service d) → Response
  handle_get_allowed_children st = record {
    code = 200;
    body = allowed (list st.service.allow_list);
  }

  edit_list : ChildAllowList → State g (Service d) → State g (Service d)
  edit_list l st = record st { service = record s { allow_list = l } }
    where
      s : Service d
      s = st.service

  pub handle_approve_child : Option Bytes → State g (Service d) → Response × State g (Service d)
  unfolding bad_json edit_list
  handle_approve_child none st = (bad_json, st)
  handle_approve_child (some []) st =
      (record { code = 400; body = error_text (str "\"node_id\" is required") }, st)
  handle_approve_child (some (b ∷ bs)) st =
      let l = add (b ∷ bs) st.service.allow_list in
      (record { code = 202; body = allowed (list l) }, edit_list l st)

  pub handle_revoke_child : Bytes → State g (Service d) → Response × State g (Service d)
  unfolding edit_list
  handle_revoke_child node_id st =
      (record { code = 204; body = no_body }, edit_list (remove node_id st.service.allow_list) st)

  pub handle_pending_children : State g (Service d) → Response
  handle_pending_children st = record { code = 200; body = pending (pending_children st.node) }
