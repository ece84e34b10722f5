-- ===== src/Service/Main/Restart.antt =====
-- examples/node/main.go, `main`: the node that runs after it, on a new or an old database.
use multi_region.Prelude.{
  ◌≡◌, ◌↔◌, refl, ap, ◌∙◌, Option, none, some, List, [], ◌∷◌, Bytes, str, ℤ, if◌then◌else◌,
}
use mathlib.Core.List.{Memᴰ}
use multi_region.Envelope.{Envelope}
use multi_region.Grpc.{Grpc}
use multi_region.Node.{NodeOption, Node, State, Clock, created, new_node, handlers_of, new_envelope}
use multi_region.Node.Lifecycle.{start}
use multi_region.Node.Setup.{start-handlers, new_node-handlers}
use multi_region.Service.AllowList.{new_child_allow_list}
use multi_region.Service.Storage.Bolt.{Disk}
use multi_region.Service.Storage.{save}
use multi_region.Service.Storage.History.{Op, run}
use multi_region.Service.Storage.Opening.{opened, new_bolt_storage}
use multi_region.Service.Config.{FileConfig, loaded, is_empty, load_config, node_options}
use multi_region.Service.Config.Started.{config-roles}
use multi_region.Service.Config.Options.{node_options-total}
use multi_region.Service.Api.{
  Service, entries, save_envelope, register, handle_agent_log, handle_admin_logs,
}
use multi_region.Service.Api.Approval.{service_hook}
use multi_region.Service.Api.AgentLogs.{register-log, entry_listed}
use multi_region.Service.Api.Registered.{register-SameHalves, register-config}
use multi_region.Service.Main.{
  running, Surroundings, http_server, with_node, with_options, with_store, with_config, main,
}

module _ {g : Grpc} {d : Disk} (s : Surroundings g d) where
  -- The node before Start.
  abbrev pub set_up : FileConfig → d.Bucket → Node g (Service d) → State g (Service d)
  set_up cfg b n = record {
    node = register s.commits n;
    service = record { allow_list = new_child_allow_list cfg.allowed_child_ids; store = b };
    world = s.world;
  }

  pub main-start :
      (path : Bytes) (cfg : FileConfig) (b : d.Bucket) (os : List (NodeOption g (Service d)))
      (n : Node g (Service d))
      → load_config s.read_file s.unmarshal path ≡ loaded cfg
      → new_bolt_storage d (s.bbolt cfg.storage_path) s.opens ≡ opened b
      → node_options s.client_tls (service_hook s.quote) cfg ≡ some os
      → new_node os ≡ created n
      → main s (path ∷ []) ≡ running (start (set_up cfg b n)) (http_server s cfg)
  unfolding main
  main-start path cfg b os n h k o m =
      ap (with_config s) h
      ∙ ap (with_store s cfg) k
      ∙ ap (with_options s cfg b) o
      ∙ ap (with_node s cfg b) m

  http_server-none : (cfg : FileConfig) → (http_server s cfg ≡ none) ↔ (cfg.http_addr ≡ [])
  unfolding http_server is_empty
  http_server-none cfg = go cfg.http_addr
    where
      go : (addr : Bytes) → ((if is_empty addr then none else some addr) ≡ none) ↔ (addr ≡ [])
      go [] = (λ p. refl, λ p. refl)
      go (b ∷ bs) = (λ p. cc, λ p. cc)

  -- On one argument, the path of a file whose configuration is accepted, if the database opens:
  -- the program gets a node that runs, with the configured node-id, a server exactly if listen_addr
  -- is set and a client exactly if parent_addr is set; it serves HTTP exactly if http_addr is set;
  -- the allow list is the configured one and the store what the database held; and the only handlers
  -- for "log" going up and for "config" going down save the envelope.
  pub main_runs :
      (path : Bytes) (cfg : FileConfig) (b : d.Bucket)
      → load_config s.read_file s.unmarshal path ≡ loaded cfg
      → new_bolt_storage d (s.bbolt cfg.storage_path) s.opens ≡ opened b
      → (st : State g (Service d)) × (http : Option Bytes) × (main s (path ∷ []) ≡ running st http)
        × (st.node.config.id ≡ cfg.id)
        × ((st.node.server ≡ none) ↔ (cfg.listen_addr ≡ []))
        × ((st.node.client ≡ none) ↔ (cfg.parent_address ≡ []))
        × ((http ≡ none) ↔ (cfg.http_addr ≡ []))
        × (st.service
            ≡ record { allow_list = new_child_allow_list cfg.allowed_child_ids; store = b })
        × (handlers_of (str "log") st.node.upstream_handlers ≡ save_envelope s.commits ∷ [])
        × (handlers_of (str "config") st.node.downstream_handlers ≡ save_envelope s.commits ∷ [])
  main_runs path cfg b h k =
      let hook = service_hook s.quote in
      let (os, o) = node_options-total s.client_tls hook cfg in
      let (n, made, roles) =
        config-roles s.client_tls hook s.read_file s.unmarshal path cfg os h o in
      let halves = register-SameHalves s.commits n in
      let (id, server, client) = roles (set_up cfg b n) halves.0 halves.1 halves.2 in
      let kept = start-handlers (set_up cfg b n) in
      let bare = new_node-handlers os n made in
      (
        start (set_up cfg b n),
        http_server s cfg,
        main-start path cfg b os n h k o made,
        id,
        server,
        client,
        http_server-none cfg,
        kept.2,
        ap (handlers_of (str "log")) kept.0 ∙ register-log s.commits n bare.0,
        ap (handlers_of (str "config")) kept.1 ∙ register-config s.commits n bare.1,
      )

  -- The same, on a database that earlier runs have left behind after any calls of Save and Delete:
  -- if the store saves an agent's log entry without an error, then the node that runs answers its
  -- request with 202, and the next request for the logs lists it.
  pub restart_lists_log :
      (path : Bytes) (cfg : FileConfig) (ops : List Op) (parse_int : Bytes → Option ℤ) (now : Clock)
      (payload : Bytes)
      → load_config s.read_file s.unmarshal path ≡ loaded cfg
      → let b = (run d ops (d.empty, [])).0 in
        new_bolt_storage d (s.bbolt cfg.storage_path) s.opens ≡ opened b
        → let env = new_envelope now cfg.id (str "log") payload in
          (save d (s.commits env) env b).1 ≡ none
          → (st : State g (Service d)) × (http : Option Bytes) × (main s (path ∷ [])
              ≡ running st http)
            × (let env' = new_envelope now st.node.config.id (str "log") payload in
                let (r, st') = handle_agent_log now (some payload) st in
                (r.code ≡ 202)
                × ((results : List Envelope) × (handle_admin_logs parse_int [] st'
                      ≡ record { code = 200; body = entries results })
                    × Memᴰ env' results))
  restart_lists_log path cfg ops parse_int now payload h k saved =
      let b = (run d ops (d.empty, [])).0 in
      let (st, http, runs, id, server, client, serves, service, log, config) =
        main_runs path cfg b h k in
      let store : st.service.store ≡ b = ap (λ x. x.store) service in
      let trial = λ (i : Bytes) (b : d.Bucket).
        let env = new_envelope now i (str "log") payload in (save d (s.commits env) env b).1 in
      (
        st,
        http,
        runs,
        entry_listed s.commits parse_int now payload ops st log store
            (ap (λ i. trial i st.service.store) id ∙ ap (trial cfg.id) store ∙ saved),
      )
