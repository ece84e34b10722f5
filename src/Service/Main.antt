-- ===== src/Service/Main.antt =====
-- examples/node/main.go, `main`: from the configuration file to a node that runs, and its end.
pub mod Restart
pub mod Serves
mod Tests
use multi_region.Prelude.{Bool, Option, none, some, List, [], ◌∷◌, Bytes, if◌then◌else◌}
use multi_region.Auth.{MtlsAuthenticator}
use multi_region.Envelope.{Envelope}
use multi_region.Grpc.{Grpc}
use multi_region.Node.{NodeOption, Node, State, Created, created, refused, new_node}
use multi_region.Node.Lifecycle.{start, stop}
use multi_region.Node
use multi_region.Service.AllowList.{new_child_allow_list}
use multi_region.Service.Storage.Bolt.{Disk}
use multi_region.Service.Storage.Opening.{OpenError, Opened, opened, failed, new_bolt_storage}
use multi_region.Service.Config
use multi_region.Service.Config.{FileConfig, Loaded, is_empty, load_config, node_options}
use multi_region.Service.Api.{Service, register}
use multi_region.Service.Api.Approval.{service_hook}

-- The ends of the program before the node runs. Start never returns an error.
pub data Fatal : Type 0 where
  usage : Fatal
  config_failed : Config.Error → Fatal
  storage_failed : OpenError → Fatal
  tls_failed : Fatal
  node_failed : Node.Error → Fatal

-- A node that runs, with the address of its HTTP interface if it has one.
pub data Booted (g : Grpc) (d : Disk) : Type 0 where
  running : State g (Service d) → Option Bytes → Booted g d
  fatal : Fatal → Booted g d

-- What `main` finds: the file, the JSON decoder, what bbolt answers for a path, whether the
-- transaction that makes the bucket commits, those of the envelopes, the certificates, and package
-- fmt's quoting.
pub record Surroundings (g : Grpc) (d : Disk) : Type 0 where
  pub read_file : Bytes → Option Bytes
  pub unmarshal : Bytes → Option FileConfig
  pub bbolt : Bytes → Option (Option d.Bucket)
  pub opens : Bool
  pub commits : Envelope → Bool
  pub client_tls : MtlsAuthenticator → g.World → Option g.Tls
  pub quote : Bytes → Bytes
  pub world : g.World

module _ {g : Grpc} {d : Disk} (s : Surroundings g d) where
  pub http_server : FileConfig → Option Bytes
  unfolding is_empty
  http_server cfg = if is_empty cfg.http_addr then none else some cfg.http_addr

  run_node : FileConfig → d.Bucket → Node g (Service d) → Booted g d
  unfolding http_server
  run_node cfg b n =
      running
        (start (record {
          node = register s.commits n;
          service = record { allow_list = new_child_allow_list cfg.allowed_child_ids; store = b };
          world = s.world;
        }))
        (http_server cfg)

  with_node : FileConfig → d.Bucket → Created g (Service d) → Booted g d
  unfolding run_node
  with_node cfg b (created n) = run_node cfg b n
  with_node cfg b (refused e) = fatal (node_failed e)

  with_options : FileConfig → d.Bucket → Option (List (NodeOption g (Service d))) → Booted g d
  unfolding with_node
  with_options cfg b none = fatal tls_failed
  with_options cfg b (some os) = with_node cfg b (new_node os)

  with_store : FileConfig → Opened d → Booted g d
  unfolding with_options
  with_store cfg (opened b) =
      with_options cfg b (node_options s.client_tls (service_hook s.quote) cfg)
  with_store cfg (failed e) = fatal (storage_failed e)

  with_config : Loaded → Booted g d
  unfolding with_store
  with_config (Loaded.loaded cfg) =
      with_store cfg (new_bolt_storage d (s.bbolt cfg.storage_path) s.opens)
  with_config (Loaded.failed e) = fatal (config_failed e)

  -- On the arguments of the command line, up to the wait for a signal.
  pub main : List Bytes → Booted g d
  unfolding with_config
  main [] = fatal usage
  main (path ∷ []) = with_config (load_config s.read_file s.unmarshal path)
  main (path ∷ p ∷ ps) = fatal usage

  -- After the signal; the error of Stop is dropped.
  pub shut_down : State g (Service d) → State g (Service d)
  shut_down st = stop st
