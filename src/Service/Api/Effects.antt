-- ===== src/Service/Api/Effects.antt =====
-- examples/node/main.go: what each handler of the HTTP interface changes.
use multi_region.Prelude.{◌≡◌, refl, sym, ◌∙◌, subst, Option, none, some, List, [], ◌∷◌, Bytes, str}
use multi_region.Envelope.{Envelope}
use multi_region.Grpc.{Grpc}
use multi_region.Server.{BroadcastResult}
use multi_region.Server
use multi_region.Node.{Node, State, Clock, Error, new_envelope, handlers_of, run_handlers}
use multi_region.Node.Handlers.{send_up-service}
use multi_region.Node.SetUp.{
  SameSetUp, SameSetUp-itself, send_up-SameSetUp, send_down-SameSetUp, send_to_child-SameSetUp,
}
use multi_region.Service.AllowList.Approval.{Edit, approves, revokes, edit, edit_all}
use multi_region.Service.Storage.Bolt.{Disk}
use multi_region.Service.Api.{
  Service, handle_agent_log, handle_admin_config, answer_config, handle_admin_config_for_child,
  answer_child, handle_approve_child, handle_revoke_child, edit_list,
}
use multi_region.Service.Api.Routes.{
  Http, Request, get_dashboard, post_agent_log, post_config, post_config_for_child, get_logs,
  get_status, get_children, get_allowed_children, post_allowed_child, delete_allowed_child,
  get_pending_children, get_metrics, answer,
}

-- The envelope that a request gives the node to send up.
unfoldable pub log_of : Bytes → Clock → Request → Option Envelope
log_of id now (post_agent_log (some payload)) = some (new_envelope now id (str "log") payload)
log_of id now q = none

-- The edits of the allow list that a request asks for.
unfoldable pub edits_of : Request → List Edit
edits_of (post_allowed_child (some (b ∷ bs))) = approves (b ∷ bs) ∷ []
edits_of (delete_allowed_child id) = revokes id ∷ []
edits_of q = []

abbrev pub edited : {d : Disk} → List Edit → Service d → Service d
edited edits s = record s { allow_list = edit_all edits s.allow_list }

module _ {g : Grpc} {d : Disk} where
  -- It goes through the handlers of its kind.
  unfoldable pub logged : Option Envelope → State g (Service d) → Service d
  logged none st = st.service
  logged (some env) st =
      run_handlers (handlers_of env.kind st.node.upstream_handlers) env st.service

  pub record Answers (q : Request) (now : Clock) (st t : State g (Service d)) : Type 0 where
    pub set_up : SameSetUp t.node st.node
    pub service : t.service ≡ edited (edits_of q) (logged (log_of st.node.config.id now q) st)

  answer_config-keeps :
      (st : State g (Service d)) (r : Node g (Service d) × BroadcastResult × Option Server.Error)
      → ((answer_config st r).1.node ≡ r.0) × ((answer_config st r).1.service ≡ st.service)
  unfolding answer_config
  answer_config-keeps st (n, r, some e) = (refl, refl)
  answer_config-keeps st (n, r, none) = (refl, refl)

  answer_child-keeps :
      (st : State g (Service d)) (r : Node g (Service d) × Option Error)
      → ((answer_child st r).1.node ≡ r.0) × ((answer_child st r).1.service ≡ st.service)
  unfolding answer_child
  answer_child-keeps st (n, some e) = (refl, refl)
  answer_child-keeps st (n, none) = (refl, refl)

  sent_down-Answers :
      (q : Request) (now : Clock) (st : State g (Service d))
      (r : Node g (Service d) × BroadcastResult × Option Server.Error)
      → SameSetUp r.0 st.node
      → edited (edits_of q) (logged (log_of st.node.config.id now q) st) ≡ st.service
      → Answers q now st (answer_config st r).1
  sent_down-Answers q now st r same e =
      let kept = answer_config-keeps st r in
      record {
        set_up = subst (λ n. SameSetUp n st.node) (sym kept.0) same;
        service = kept.1 ∙ sym e;
      }

  sent_to_child-Answers :
      (q : Request) (now : Clock) (st : State g (Service d)) (r : Node g (Service d) × Option Error)
      → SameSetUp r.0 st.node
      → edited (edits_of q) (logged (log_of st.node.config.id now q) st) ≡ st.service
      → Answers q now st (answer_child st r).1
  sent_to_child-Answers q now st r same e =
      let kept = answer_child-keeps st r in
      record {
        set_up = subst (λ n. SameSetUp n st.node) (sym kept.0) same;
        service = kept.1 ∙ sym e;
      }

  unchanged :
      (q : Request) (now : Clock) (st : State g (Service d))
      → edited (edits_of q) (logged (log_of st.node.config.id now q) st) ≡ st.service
      → Answers q now st st
  unchanged q now st e = record { set_up = SameSetUp-itself st.node; service = sym e }

  -- A request changes the service as its log and its edits say, and no more, and leaves the
  -- configuration and the handlers of the node.
  pub answer-Answers :
      (h : Http) (now : Clock) (q : Request) (st : State g (Service d))
      → Answers q now st (answer h now q st).1
  unfolding answer log_of new_envelope edits_of logged handle_agent_log handle_admin_config
      handle_admin_config_for_child handle_approve_child handle_revoke_child edit_list edit_all edit
  answer-Answers h now get_dashboard st = unchanged get_dashboard now st refl
  answer-Answers h now (post_agent_log none) st = unchanged (post_agent_log none) now st refl
  answer-Answers h now (post_agent_log (some payload)) st = record {
    set_up = send_up-SameSetUp now (str "log") payload st;
    service = send_up-service now (str "log") payload st;
  }
  answer-Answers h now (post_config none) st = unchanged (post_config none) now st refl
  answer-Answers h now (post_config (some payload)) st =
      sent_down-Answers (post_config (some payload)) now st _
        (send_down-SameSetUp now (str "config") payload st.node) refl
  answer-Answers h now (post_config_for_child id none) st =
      unchanged (post_config_for_child id none) now st refl
  answer-Answers h now (post_config_for_child id (some payload)) st =
      sent_to_child-Answers (post_config_for_child id (some payload)) now st _
        (send_to_child-SameSetUp now id (str "config") payload st.node) refl
  answer-Answers h now (get_logs since) st = unchanged (get_logs since) now st refl
  answer-Answers h now get_status st = unchanged get_status now st refl
  answer-Answers h now get_children st = unchanged get_children now st refl
  answer-Answers h now get_allowed_children st = unchanged get_allowed_children now st refl
  answer-Answers h now (post_allowed_child none) st =
      unchanged (post_allowed_child none) now st refl
  answer-Answers h now (post_allowed_child (some [])) st =
      unchanged (post_allowed_child (some [])) now st refl
  answer-Answers h now (post_allowed_child (some (b ∷ bs))) st = record {
    set_up = SameSetUp-itself st.node;
    service = refl;
  }
  answer-Answers h now (delete_allowed_child id) st = record {
    set_up = SameSetUp-itself st.node;
    service = refl;
  }
  answer-Answers h now get_pending_children st = unchanged get_pending_children now st refl
  answer-Answers h now get_metrics st = unchanged get_metrics now st refl
