-- ===== src/Node.antt =====
-- node/node.go, node/options.go and node/pending.go: a node of the tree. The state `Service` of the
-- program that uses the framework is what the handlers and the authorization hook read and change.
pub mod Loop
pub mod Held
pub mod Delivery
pub mod Retrying
pub mod Lifecycle
pub mod Setup
pub mod Handlers
pub mod Relay
pub mod Link
pub mod Tree
pub mod SetUp
pub mod Ids
pub mod Effects
pub mod Tests
use multi_region.Prelude.{
  ℕ, ◌+◌, Bool, true, false, Option, none, some, List, [], ◌∷◌, ◌++◌, length, Bytes, str, ℤ, pos,
  Map, lookup, insert, decimal, if◌then◌else◌, beq,
}
use multi_region.Envelope.{Envelope}
use multi_region.Server.{Server, AuthorizeChild, BroadcastResult, PendingChild}
use multi_region.Server
use multi_region.Grpc.{Grpc}
use multi_region.Client.{Client}
use multi_region.Client

-- The struct `config`.
pub record Config (g : Grpc) (S : Type 0) : Type 0 where
  pub id : Bytes
  pub listen_addr : Bytes
  pub resolver : Option (g.World → Option Bytes)
  pub authn : Option (g.World → Option g.Tls)
  pub authorize_child : Option (AuthorizeChild S)

-- The options, as the assignments that they make.
pub data NodeOption (g : Grpc) (S : Type 0) : Type 0 where
  with_id : Bytes → NodeOption g S
  with_listen_addr : Bytes → NodeOption g S
  with_resolver : (g.World → Option Bytes) → NodeOption g S
  with_authenticator : (g.World → Option g.Tls) → NodeOption g S
  with_authorize_child : AuthorizeChild S → NodeOption g S

-- Errors of this package; a server's error keeps its text.
pub data Error : Type 0 where
  id_required : Error
  role_required : Error
  no_children : Bytes → Error
  server_error : Server.Error → Error

abbrev pub Handler : Type 0 → Type 0
Handler S = Envelope → S → S

-- The goroutine `retryLoop`: waiting for its ticker; in the loop over what it has drained, before
-- a send or after one, waiting for the pacer; or returned because its context is done, with what
-- was still to be sent.
pub data Retry : Type 0 where
  waiting : Retry
  sending : List Envelope → Retry
  pausing : List Envelope → Retry
  stopped : List Envelope → Retry

pub record Node (g : Grpc) (S : Type 0) : Type 0 where
  pub config : Config g S
  pub server : Option (Server S)
  pub client : Option (Client g)
  pub upstream_handlers : Map (List (Handler S))
  pub downstream_handlers : Map (List (Handler S))
  -- `pending.items`
  pub pending : List Envelope
  pub retry : Retry

-- A node with the service and the network around it.
pub record State (g : Grpc) (S : Type 0) : Type 0 where
  pub node : Node g S
  pub service : S
  pub world : g.World

-- `time.Now()`, read as nanoseconds and as seconds.
pub record Clock : Type 0 where
  pub nanos : ℕ
  pub seconds : ℤ

unfoldable pub new_envelope : Clock → Bytes → Bytes → Bytes → Envelope
new_envelope now node_id kind payload = record {
  id = node_id ++ b'-' ∷ decimal now.nanos;
  kind = kind;
  payload = payload;
  timestamp = now.seconds;
}

is_empty : Bytes → Bool
is_empty [] = true
is_empty (b ∷ bs) = false

pub data Created (g : Grpc) (S : Type 0) : Type 0 where
  created : Node g S → Created g S
  refused : Error → Created g S

unfoldable pub handlers_of : {S : Type 0} → Bytes → Map (List (Handler S)) → List (Handler S)
handlers_of kind m = elim (lookup kind m) [ none ↦ [] | some hs ↦ hs ]

unfoldable pub run_handlers : {S : Type 0} → List (Handler S) → Envelope → S → S
run_handlers [] env s = s
run_handlers (h ∷ hs) env s = run_handlers hs env (h env s)

wrap : Option Server.Error → Option Error
wrap none = none
wrap (some e) = some (server_error e)

module _ {g : Grpc} {S : Type 0} where
  pub empty_config : Config g S
  empty_config = record {
    id = [];
    listen_addr = [];
    resolver = none;
    authn = none;
    authorize_child = none;
  }

  pub apply_option : NodeOption g S → Config g S → Config g S
  apply_option (with_id id) c = record c { id = id }
  apply_option (with_listen_addr addr) c = record c { listen_addr = addr }
  apply_option (with_resolver r) c = record c { resolver = some r }
  apply_option (with_authenticator a) c = record c { authn = some a }
  apply_option (with_authorize_child hook) c = record c { authorize_child = some hook }

  pub apply_options : List (NodeOption g S) → Config g S → Config g S
  apply_options [] c = c
  apply_options (o ∷ os) c = apply_options os (apply_option o c)

  no_role : Config g S → Bool
  unfolding is_empty
  no_role c = elim c.resolver [ none ↦ is_empty c.listen_addr | some r ↦ false ]

  check_config : Config g S → Created g S
  unfolding no_role is_empty
  check_config c =
      if is_empty c.id
      then refused id_required
      else if no_role c
      then refused role_required
      else created (record {
        config = c;
        server = none;
        client = none;
        upstream_handlers = [];
        downstream_handlers = [];
        pending = [];
        retry = waiting;
      })

  pub new_node : List (NodeOption g S) → Created g S
  unfolding check_config
  new_node os = check_config (apply_options os empty_config)

  pub on_upstream : Bytes → Handler S → Node g S → Node g S
  unfolding handlers_of
  on_upstream kind h n = record n {
    upstream_handlers =
        insert kind (handlers_of kind n.upstream_handlers ++ h ∷ []) n.upstream_handlers;
  }

  pub on_downstream : Bytes → Handler S → Node g S → Node g S
  unfolding handlers_of
  on_downstream kind h n = record n {
    downstream_handlers =
        insert kind (handlers_of kind n.downstream_handlers ++ h ∷ []) n.downstream_handlers;
  }

  pub run_upstream_handlers : Envelope → State g S → State g S
  unfolding handlers_of run_handlers
  run_upstream_handlers env st = record st {
    service = run_handlers (handlers_of env.kind st.node.upstream_handlers) env st.service;
  }

  pub run_downstream_handlers : Envelope → State g S → State g S
  unfolding handlers_of run_handlers
  run_downstream_handlers env st = record st {
    service = run_handlers (handlers_of env.kind st.node.downstream_handlers) env st.service;
  }

  pub push : Envelope → Node g S → Node g S
  push env n = record n { pending = n.pending ++ env ∷ [] }

  -- What a send has left behind: the envelope is queued if the send failed.
  pub after_send : Envelope → State g S → Client g × g.World × Option Client.Error → State g S
  unfolding push
  after_send env st (c, w, some e) = record st {
    node = push env (record n { client = some c });
    world = w;
  }
    where
      n : Node g S
      n = st.node
  after_send env st (c, w, none) = record st { node = record n { client = some c }; world = w }
    where
      n : Node g S
      n = st.node

  -- `forwardUp`, which always returns nil.
  pub forward_up : Envelope → State g S → State g S
  unfolding after_send
  forward_up env st = elim st.node.client [
    | none ↦ st
    | some c ↦ after_send env st (Client.send_upstream g env c st.world)
  ]

  pub send_up : Clock → Bytes → Bytes → State g S → State g S
  unfolding new_envelope
  send_up now kind payload st =
      let env = new_envelope now st.node.config.id kind payload in
      forward_up env (run_upstream_handlers env st)

  pub handle_upstream_from_child : Envelope → State g S → State g S
  handle_upstream_from_child env st = forward_up env (run_upstream_handlers env st)

  pub rebroadcast : Envelope → State g S → State g S
  rebroadcast env st = elim st.node.server [
    | none ↦ st
    | some s ↦ record st { node = record n { server = some (Server.broadcast_downstream env s).0 } }
  ]
    where
      n : Node g S
      n = st.node

  pub handle_downstream_from_parent : Envelope → State g S → State g S
  unfolding rebroadcast
  handle_downstream_from_parent env st = rebroadcast env (run_downstream_handlers env st)

  pub send_down :
      Clock → Bytes → Bytes → Node g S → Node g S × BroadcastResult × Option Server.Error
  unfolding new_envelope
  send_down now kind payload n = elim n.server [
    | none ↦ (n, record { delivered = 0; dropped = [] }, none)
    | some s ↦
        let (s', r, e) =
          Server.broadcast_downstream (new_envelope now n.config.id kind payload) s in
        (record n { server = some s' }, r, e)
  ]

  pub send_to_child : Clock → Bytes → Bytes → Bytes → Node g S → Node g S × Option Error
  unfolding new_envelope wrap
  send_to_child now child_id kind payload n = elim n.server [
    | none ↦ (n, some (no_children n.config.id))
    | some s ↦
        let (s', e) = Server.send_to_child child_id (new_envelope now n.config.id kind payload) s in
        (record n { server = some s' }, wrap e)
  ]
