-- ===== src/Service/Config.antt =====
-- examples/node/config.go, and the part of `main` in examples/node/main.go that makes a node of the
-- configuration.
pub mod Options
pub mod Started
use multi_region.Prelude.{
  Bool, true, false, ◌&&◌, Option, none, some, List, [], ◌∷◌, ◌++◌, Bytes, if◌then◌else◌,
}
use multi_region.Auth.{MtlsAuthenticator, new_mtls_authenticator}
use multi_region.Grpc.{Grpc}
use multi_region.Server.{AuthorizeChild}
use multi_region.Resolver.{new_static_resolver, parent_addr}
use multi_region.Node.{
  NodeOption, with_id, with_listen_addr, with_resolver, with_authenticator, with_authorize_child,
}

pub record TlsConfig : Type 0 where
  pub ca_cert_path : Bytes
  pub cert_path : Bytes
  pub key_path : Bytes

pub record FileConfig : Type 0 where
  pub id : Bytes
  pub listen_addr : Bytes
  pub parent_address : Bytes
  pub storage_path : Bytes
  pub http_addr : Bytes
  pub tls : Option TlsConfig
  pub allowed_child_ids : List Bytes

pub data Error : Type 0 where
  read_failed : Error
  parse_failed : Error
  id_required : Error
  storage_path_required : Error
  addr_required : Error

pub data Loaded : Type 0 where
  loaded : FileConfig → Loaded
  failed : Error → Loaded

unfoldable pub is_empty : Bytes → Bool
is_empty [] = true
is_empty (b ∷ bs) = false

check : FileConfig → Loaded
unfolding is_empty
check cfg =
    if is_empty cfg.id
    then failed id_required
    else if is_empty cfg.storage_path
    then failed storage_path_required
    else if is_empty cfg.listen_addr && is_empty cfg.parent_address
    then failed addr_required
    else loaded cfg

parse_file : (Bytes → Option FileConfig) → Bytes → Loaded
unfolding check
parse_file unmarshal bytes = elim (unmarshal bytes) [
  | none ↦ failed parse_failed
  | some cfg ↦ check cfg
]

-- `read_file` and `unmarshal` are os.ReadFile and json.Unmarshal.
unfoldable pub load_config : (Bytes → Option Bytes) → (Bytes → Option FileConfig) → Bytes → Loaded
unfolding parse_file
load_config read_file unmarshal path = elim (read_file path) [
  | none ↦ failed read_failed
  | some bytes ↦ parse_file unmarshal bytes
]

-- The options of `main`. `client_tls` is ClientTLSConfig of auth/auth.go, on some files. `none`
-- is the failure of NewMTLSAuthenticator, which would end the program.
module _ {g : Grpc} {S : Type 0} (client_tls : MtlsAuthenticator → g.World → Option g.Tls)
    (hook : AuthorizeChild S) where
  listen_options : FileConfig → List (NodeOption g S)
  unfolding is_empty
  listen_options cfg =
      if is_empty cfg.listen_addr then [] else with_listen_addr cfg.listen_addr ∷ []

  parent_options : FileConfig → List (NodeOption g S)
  unfolding is_empty
  parent_options cfg =
      if is_empty cfg.parent_address
      then []
      else with_resolver (λ w. parent_addr (new_static_resolver cfg.parent_address)) ∷ []

  tls_options : FileConfig → Option (List (NodeOption g S))
  tls_options cfg = elim cfg.tls [
    | none ↦ some []
    | some t ↦ elim (new_mtls_authenticator t.ca_cert_path t.cert_path t.key_path) [
      | none ↦ none
      | some a ↦ some (with_authenticator (client_tls a) ∷ with_authorize_child hook ∷ [])
    ]
  ]

  unfoldable pub node_options : FileConfig → Option (List (NodeOption g S))
  unfolding listen_options parent_options tls_options
  node_options cfg = elim (tls_options cfg) [
    | none ↦ none
    | some os ↦ some (with_id cfg.id ∷ (listen_options cfg ++ (parent_options cfg ++ os)))
  ]
