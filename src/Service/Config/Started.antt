-- ===== src/Service/Config/Started.antt =====
-- examples/node/config.go with examples/node/main.go and node/node.go: a configuration that loads
-- makes a node that starts.
use multi_region.Prelude.{
  ◌≡◌, refl, sym, ◌∙◌, ◌≢◌, ◌↔◌, false, Option, none, some, List, [], ◌∷◌, Bytes, subst, arith, not,
}
use multi_region.Auth.{MtlsAuthenticator}
use multi_region.Grpc.{Grpc}
use multi_region.Server.{AuthorizeChild}
use multi_region.Node.{NodeOption, Node, State, created, new_node}
use multi_region.Node.Lifecycle.{start}
use multi_region.Node.Setup.{names_parent, new_node-created, new_node-roles}
use multi_region.Service.Config.{
  FileConfig, loaded, failed, read_failed, parse_failed, is_empty, check, parse_file, load_config,
  node_options,
}
use multi_region.Service.Config.Options.{node_options-Says}

empty_iff : (bs : Bytes) → (not (is_empty bs) ≡ false) ↔ (bs ≡ [])
unfolding is_empty
empty_iff [] = (λ p. refl, λ p. refl)
empty_iff (b ∷ bs) = (λ p. cc, λ p. cc)

check-loaded :
    (cfg cfg' : FileConfig)
    → check cfg ≡ loaded cfg'
    → (cfg'.id ≢ []) × (cfg'.listen_addr ≡ [] → cfg'.parent_address ≢ [])
unfolding check is_empty
check-loaded cfg cfg' h = ground (arith, h)

load_config-loaded :
    (read_file : Bytes → Option Bytes) (unmarshal : Bytes → Option FileConfig) (path : Bytes)
    (cfg : FileConfig)
    → load_config read_file unmarshal path ≡ loaded cfg
    → (cfg.id ≢ []) × (cfg.listen_addr ≡ [] → cfg.parent_address ≢ [])
unfolding load_config parse_file
load_config-loaded read_file unmarshal path cfg h = from_file (read_file path) h
  where
    parsed :
        (o : Option FileConfig)
        → elim o [ none ↦ failed parse_failed | some c ↦ check c ] ≡ loaded cfg
        → (cfg.id ≢ []) × (cfg.listen_addr ≡ [] → cfg.parent_address ≢ [])
    parsed none p = cc
    parsed (some c) p = check-loaded c cfg p

    from_file :
        (o : Option Bytes)
        → elim o [ none ↦ failed read_failed | some bytes ↦ parse_file unmarshal bytes ]
          ≡ loaded cfg
        → (cfg.id ≢ []) × (cfg.listen_addr ≡ [] → cfg.parent_address ≢ [])
    from_file none p = cc
    from_file (some bytes) p = parsed (unmarshal bytes) p

module _ {g : Grpc} {S : Type 0} (client_tls : MtlsAuthenticator → g.World → Option g.Tls)
    (hook : AuthorizeChild S) where
  -- The roles of a node that a configuration gives, whatever handlers it has got before Start.
  pub config-roles :
      (read_file : Bytes → Option Bytes) (unmarshal : Bytes → Option FileConfig) (path : Bytes)
      (cfg : FileConfig) (os : List (NodeOption g S))
      → load_config read_file unmarshal path ≡ loaded cfg
      → node_options client_tls hook cfg ≡ some os
      → (n : Node g S) × (new_node os ≡ created n)
        × ((st : State g S)
            → st.node.config ≡ n.config
            → st.node.server ≡ n.server
            → st.node.client ≡ n.client
            → let t = start st in
              (t.node.config.id ≡ cfg.id)
              × ((t.node.server ≡ none) ↔ (cfg.listen_addr ≡ []))
              × ((t.node.client ≡ none) ↔ (cfg.parent_address ≡ [])))
  config-roles read_file unmarshal path cfg os h o =
      let checked = load_config-loaded read_file unmarshal path cfg h in
      let (id, addr, parent) = node_options-Says client_tls hook cfg os o in
      let orphan : (names_parent os ≡ false) ↔ (cfg.parent_address ≡ []) =
        subst (λ b. (b ≡ false) ↔ (cfg.parent_address ≡ [])) (sym parent)
          (empty_iff cfg.parent_address) in
      let (n, made) =
        new_node-created os (λ p. checked.0 (sym id ∙ p))
          (λ p q. checked.1 (sym addr ∙ p) (orphan.0 q)) in
      (
        n,
        made,
        λ st c s k.
            let roles = new_node-roles os n st made c s k in
            (
              roles.0 ∙ id,
              ((λ p. sym addr ∙ roles.2.0 p), λ p. roles.2.1 (addr ∙ p)),
              ((λ p. orphan.0 (roles.3.0 p)), λ p. roles.3.1 (orphan.1 p)),
            ),
      )

  -- With the options that `main` makes of a configuration that loadConfig accepts, New makes a
  -- node. After Start that node has the configured node-id, a server exactly
  -- if listen_addr is set and a client exactly if parent_addr is set.
  pub config_starts :
      (read_file : Bytes → Option Bytes) (unmarshal : Bytes → Option FileConfig) (path : Bytes)
      (cfg : FileConfig) (os : List (NodeOption g S)) (service : S) (world : g.World)
      → load_config read_file unmarshal path ≡ loaded cfg
      → node_options client_tls hook cfg ≡ some os
      → (n : Node g S) × (new_node os ≡ created n)
        × (let t = start (record { node = n; service = service; world = world }) in
            (t.node.config.id ≡ cfg.id)
            × ((t.node.server ≡ none) ↔ (cfg.listen_addr ≡ []))
            × ((t.node.client ≡ none) ↔ (cfg.parent_address ≡ [])))
  config_starts read_file unmarshal path cfg os service world h o =
      let (n, made, roles) = config-roles read_file unmarshal path cfg os h o in
      (n, made, roles (record { node = n; service = service; world = world }) refl refl refl)
