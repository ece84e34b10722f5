-- ===== src/Service/Tests.antt =====
-- examples/node: the program with its store in memory.
use multi_region.Prelude.{
  ◌≡◌, refl, ◌≢◌, ◌↔◌, true, Option, none, some, List, [], ◌∷◌, ◌++◌, Bytes, str, pos, lookup, beq,
  map, length,
}
use mathlib.Core.List.{Memᴰ, flatten}
use multi_region.Auth.{Files, MtlsAuthenticator, client_tls_config}
use multi_region.Envelope.{Envelope}
use multi_region.Metrics.{no_server_metrics}
use multi_region.Grpc.Wire.{Wire, wire, down}
use multi_region.Server.{Server, Context, AuthorizeChild, tls_info, noop_authorize_child}
use multi_region.Server
use multi_region.Resolver.{new_static_resolver, parent_addr}
use multi_region.Node.{
  with_id, with_listen_addr, with_resolver, with_authenticator, with_authorize_child, NodeOption,
  State, waiting,
}
use multi_region.Service.AllowList.{new_child_allow_list, authorize}
use multi_region.Service.AllowList.Approval.{
  Edit, approves, revokes, edit_all, is_in, after_edits, HasCertificate, edits_decide,
}
use multi_region.Service.Storage.{QueryFilter, matches, query}
use multi_region.Service.Storage.Memory.{memory}
use multi_region.Service.Storage.History.{Op, saves, deletes, run}
use multi_region.Service.Storage.Latest.{query_history}
use multi_region.Service.Storage.Once.{AreOnce}
use multi_region.Service.CheckDb.{printed, entry_line, total_line, check_db, check_db_prints}
use multi_region.Service.Config.{FileConfig}
use multi_region.Service.Api.{Service, register, handle_approve_child}
use multi_region.Node.{Clock}
use multi_region.Service.Api.Approval.{service_hook, approved_child_enters}

-- A call over TLS of the holder of these certificates.
abbrev pub shown : List Bytes → Context
shown names = record { node_ids = some (str "leaf" ∷ []); peer = some (tls_info names) }

abbrev morning : List Edit
morning = revokes (str "leaf") ∷ approves (str "branch") ∷ approves (str "leaf") ∷ []

edits_decide_example :
    let l = edit_all morning (new_child_allow_list (str "leaf" ∷ [])) in
    (authorize l (shown (str "leaf" ∷ [])) (str "leaf") ≡ none)
    ↔ ((str "leaf" ≢ []) × (true ≡ true) × HasCertificate (shown (str "leaf" ∷ [])) (str "leaf"))
unfolding is_in after_edits beq
edits_decide_example = edits_decide (str "leaf" ∷ []) morning (shown (str "leaf" ∷ [])) (str "leaf")

abbrev pub entry : Bytes → Envelope
entry id = record { id = id; kind = str "log"; payload = str "x"; timestamp = pos 7 }

abbrev pub week : List Op
week =
    saves true (entry (str "a")) ∷ saves true (entry (str "b")) ∷ deletes true (str "a" ∷ []) ∷ []

abbrev logs : QueryFilter
logs = record { kind = str "log"; since = pos 0 }

query_history_example :
    let (b, m) = run memory week (memory.empty, []) in
    let (results, e) = query memory logs b in
    (e ≡ none)
    × ((env : Envelope)
        → Memᴰ env results ↔ ((matches logs env ≡ true) × (lookup env.id m ≡ some env)))
query_history_example = query_history memory week logs

check_db_prints_example :
    let (b, m) = run memory week (memory.empty, []) in
    (results : List Envelope) × (check_db memory (some (some b)) true
      ≡ printed (flatten (map entry_line results) ++ total_line (length m)))
    × AreOnce results
    × ((env : Envelope) → Memᴰ env results ↔ (lookup env.id m ≡ some env))
check_db_prints_example = check_db_prints memory week

-- A stand-in for the quoting of package fmt.
abbrev pub quoted : Bytes → Bytes
quoted id = str "\"" ++ id ++ str "\""

abbrev pub branch_config : FileConfig
branch_config = record {
  id = str "branch";
  listen_addr = str ":50052";
  parent_address = str "parent:50051";
  storage_path = str "node.db";
  http_addr = [];
  tls = some (record { ca_cert_path = str "ca"; cert_path = str "cert"; key_path = str "key" });
  allowed_child_ids = [];
}

-- Every file can be read, and parses.
abbrev pub any_files : Files Wire
any_files = record {
  CertPool = Bytes;
  Certificate = Bytes;
  read_file = λ path w. some path;
  append_certs = λ pem. some pem;
  load_pair = λ cert key w. some cert;
}

abbrev pub tls_of : MtlsAuthenticator → Wire → Option (Unit {0})
tls_of a w = elim (client_tls_config any_files a w) [ none ↦ none | some settings ↦ some tt ]

abbrev pub authority : MtlsAuthenticator
authority = record { ca_cert_path = str "ca"; cert_path = str "cert"; key_path = str "key" }

abbrev branch_options : List (NodeOption wire (Service memory))
branch_options =
    with_id (str "branch")
    ∷ with_listen_addr (str ":50052")
    ∷ with_resolver (λ w. parent_addr (new_static_resolver (str "parent:50051")))
    ∷ with_authenticator (tls_of authority)
    ∷ with_authorize_child (service_hook quoted)
    ∷ []

abbrev blank : Service memory
blank = record { allow_list = new_child_allow_list []; store = memory.empty }

abbrev pub guarded : Server (Service memory)
guarded = record {
  authorize_child = service_hook quoted;
  children = (str "old", 0) ∷ [];
  anon_seq = 0;
  pending = [];
  channels = [] ∷ [];
  metrics = no_server_metrics;
}

abbrev pub running : State wire (Service memory)
running = record {
  node = record {
    config = record {
      id = str "branch";
      listen_addr = str ":50052";
      resolver = none;
      authn = none;
      authorize_child = none;
    };
    server = some guarded;
    client = none;
    upstream_handlers = [];
    downstream_handlers = [];
    pending = [];
    retry = waiting;
  };
  service = blank;
  world = down;
}

approved_child_enters_example :
    let (r, st') = handle_approve_child (some (str "leaf")) running in
    let (t, e) = Server.authorize st'.service (shown (str "leaf" ∷ [])) 3 (str "leaf") guarded in
    (r.code ≡ 202) × (e ≡ none) × (lookup (str "leaf") t.pending ≡ none)
unfolding HasCertificate
approved_child_enters_example =
    approved_child_enters quoted _ _ (shown (str "leaf" ∷ [])) 3 guarded running refl ([], refl)

abbrev pub lunch : Clock
lunch = record { nanos = 12; seconds = pos 12 }

-- The node with the handlers of the program, whose transactions all commit.
abbrev logging : State wire (Service memory)
logging = record running {
  node = record running.node {
    upstream_handlers = (register (λ env. true) running.node).upstream_handlers;
  };
}
