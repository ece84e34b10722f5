-- ===== src/Service/Config/Options.antt =====
-- examples/node/main.go: what the options that `main` makes of a configuration say.
use multi_region.Prelude.{
  ◌≡◌, refl, ◌∙◌, Bool, true, Option, none, some, List, [], ◌∷◌, ◌++◌, Bytes, subst, not,
  if◌then◌else◌,
}
use multi_region.Auth.{MtlsAuthenticator, new_mtls_authenticator}
use multi_region.Grpc.{Grpc}
use multi_region.Server.{AuthorizeChild}
use multi_region.Resolver.{new_static_resolver, parent_addr}
use multi_region.Node.{
  NodeOption, with_id, with_listen_addr, with_resolver, with_authenticator, with_authorize_child,
}
use multi_region.Node.Setup.{last_id, last_addr, names_parent}
use multi_region.Service.Config.{
  TlsConfig, FileConfig, is_empty, listen_options, parent_options, tls_options, node_options,
}

module _ {g : Grpc} {S : Type 0} (client_tls : MtlsAuthenticator → g.World → Option g.Tls)
    (hook : AuthorizeChild S) where
  -- Options that say nothing of the node-id, and so much of the two addresses.
  record Says (addr : Bytes) (orphan : Bool) (os : List (NodeOption g S)) : Type 0 where
    says_id : (d : Bytes) → last_id d os ≡ d
    says_addr : (d : Bytes) → last_addr d os ≡ (if is_empty addr then d else addr)
    says_parent : names_parent os ≡ not orphan

  listen_options-Says :
      (cfg : FileConfig) (orphan : Bool) (os : List (NodeOption g S))
      → Says [] orphan os
      → Says cfg.listen_addr orphan (listen_options client_tls hook cfg ++ os)
  unfolding listen_options is_empty last_id last_addr names_parent
  listen_options-Says cfg orphan os h = go cfg.listen_addr
    where
      go :
          (addr : Bytes)
          → Says addr orphan ((if is_empty addr then [] else with_listen_addr addr ∷ []) ++ os)
      go [] = h
      go (b ∷ bs) = record {
        says_id = h.says_id;
        says_addr = λ d. h.says_addr (b ∷ bs);
        says_parent = h.says_parent;
      }

  parent_options-Says :
      (cfg : FileConfig) (os : List (NodeOption g S))
      → Says [] true os
      → Says [] (is_empty cfg.parent_address) (parent_options client_tls hook cfg ++ os)
  unfolding parent_options is_empty last_id last_addr names_parent
  parent_options-Says cfg os h = go cfg.parent_address
    where
      go :
          (addr : Bytes)
          → Says [] (is_empty addr) (
              (if is_empty addr
                then []
                else with_resolver (λ w. parent_addr (new_static_resolver addr)) ∷ [])
              ++ os)
      go [] = h
      go (b ∷ bs) = record { says_id = h.says_id; says_addr = h.says_addr; says_parent = refl }

  tls_options-Says :
      (cfg : FileConfig) (os : List (NodeOption g S))
      → tls_options client_tls hook cfg ≡ some os
      → Says [] true os
  unfolding tls_options is_empty last_id last_addr names_parent
  tls_options-Says cfg os h = configured cfg.tls h
    where
      none_said : Says [] true []
      none_said = record { says_id = λ d. refl; says_addr = λ d. refl; says_parent = refl }

      certified :
          (o : Option MtlsAuthenticator)
          → ◌≡◌ {A = Option (List (NodeOption g S))}
              (elim o [
                | none ↦ none
                | some a ↦ some (with_authenticator (client_tls a) ∷ with_authorize_child hook ∷ [])
              ])
              (some os)
          → Says [] true os
      certified none p = cc
      certified (some a) p =
          let same : with_authenticator (client_tls a) ∷ with_authorize_child hook ∷ [] ≡ os = cc in
          subst (Says [] true) same
            (record { says_id = λ d. refl; says_addr = λ d. refl; says_parent = refl })

      configured :
          (o : Option TlsConfig)
          → ◌≡◌ {A = Option (List (NodeOption g S))}
              (elim o [
                | none ↦ some []
                | some t ↦ elim (new_mtls_authenticator t.ca_cert_path t.cert_path t.key_path) [
                  | none ↦ none
                  | some a ↦
                      some (with_authenticator (client_tls a) ∷ with_authorize_child hook ∷ [])
                ]
              ])
              (some os)
          → Says [] true os
      configured none p =
          let same : ◌≡◌ {A = List (NodeOption g S)} [] os = cc in
          subst (Says [] true) same none_said
      configured (some t) p =
          certified (new_mtls_authenticator t.ca_cert_path t.cert_path t.key_path) p

  pub node_options-Says :
      (cfg : FileConfig) (os : List (NodeOption g S))
      → node_options client_tls hook cfg ≡ some os
      → (last_id [] os ≡ cfg.id)
        × (last_addr [] os ≡ cfg.listen_addr)
        × (names_parent os ≡ not (is_empty cfg.parent_address))
  unfolding node_options is_empty last_id last_addr names_parent
  node_options-Says cfg os h = go (tls_options client_tls hook cfg) refl h
    where
      itself : (addr : Bytes) → (if is_empty addr then [] else addr) ≡ addr
      itself [] = refl
      itself (b ∷ bs) = refl

      go :
          (o : Option (List (NodeOption g S)))
          → tls_options client_tls hook cfg ≡ o
          → ◌≡◌ {A = Option (List (NodeOption g S))}
              (elim o [
                | none ↦ none
                | some t ↦ some (
                    with_id cfg.id
                    ∷ (listen_options client_tls hook cfg
                        ++ (parent_options client_tls hook cfg ++ t)))
              ])
              (some os)
          → (last_id [] os ≡ cfg.id)
            × (last_addr [] os ≡ cfg.listen_addr)
            × (names_parent os ≡ not (is_empty cfg.parent_address))
      go none e p = cc
      go (some t) e p =
          let rest : List (NodeOption g S) =
            listen_options client_tls hook cfg ++ (parent_options client_tls hook cfg ++ t) in
          let same : with_id cfg.id ∷ rest ≡ os = cc in
          let said : Says cfg.listen_addr (is_empty cfg.parent_address) rest =
            listen_options-Says cfg (is_empty cfg.parent_address)
              (parent_options client_tls hook cfg ++ t)
              (parent_options-Says cfg t (tls_options-Says cfg t e)) in
          subst
            (λ os.
              (last_id [] os ≡ cfg.id)
              × (last_addr [] os ≡ cfg.listen_addr)
              × (names_parent os ≡ not (is_empty cfg.parent_address)))
            same (said.says_id cfg.id, said.says_addr [] ∙ itself cfg.listen_addr, said.says_parent)

  -- NewMTLSAuthenticator never fails, so there are always options.
  pub node_options-total :
      (cfg : FileConfig)
      → (os : List (NodeOption g S)) × (node_options client_tls hook cfg ≡ some os)
  unfolding node_options tls_options new_mtls_authenticator
  node_options-total cfg = configured cfg.tls
    where
      options : Option TlsConfig → Option (List (NodeOption g S))
      options none = some []
      options (some t) = some (
          with_authenticator (
            client_tls (record {
              ca_cert_path = t.ca_cert_path;
              cert_path = t.cert_path;
              key_path = t.key_path;
            }))
          ∷ with_authorize_child hook
          ∷ [])

      configured :
          (o : Option TlsConfig)
          → (os : List (NodeOption g S)) × (elim (options o) [
            | none ↦ none
            | some t ↦ some (
                with_id cfg.id
                ∷ (listen_options client_tls hook cfg ++ (parent_options client_tls hook cfg ++ t)))
          ]
              ≡ some os)
      configured none = (_, refl)
      configured (some t) = (_, refl)
