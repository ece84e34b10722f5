-- ===== src/Service/Main/Tests.antt =====
-- examples/node/main.go: a branch that starts again on the database of the week before.
use multi_region.Prelude.{
  ◌++◌, ◌≢◌, pos, beq, ◌≡◌, ◌↔◌, refl, true, Option, none, some, List, [], ◌∷◌, Bytes, str,
}
use multi_region.Envelope.{Envelope}
use multi_region.Grpc.Wire.{wire, down}
use multi_region.Node.{State, handlers_of}
use multi_region.Service.AllowList.{new_child_allow_list, authorize}
use multi_region.Service.AllowList.Approval.{HasCertificate, is_in, after_edits}
use multi_region.Service.Api.Logs.{logs_from}
use multi_region.Service.Api.Routes.{route, routes, serve}
use multi_region.Service.Run.{service_run, saved_over, edits_over}
use multi_region.Service.Run.Matcher.{web}
use multi_region.Service.Run.Tests.{ask, day}
use multi_region.Service.Run.Logs.{Lists, as_saves}
use multi_region.Service.Main.Serves.{main_serves}
use multi_region.Service.Storage.Memory.{memory}
use multi_region.Service.Storage.History.{run}
use multi_region.Service.Storage.Opening.{create_bucket, new_bolt_storage}
use multi_region.Service.Config.{load_config}
use multi_region.Service.Api.{Service, entries, save_envelope}
use multi_region.Service.Main.{Surroundings, running, main}
use multi_region.Service.Main.Restart.{main_runs}
use multi_region.Service.Tests.{quoted, branch_config, tls_of, week, lunch, shown}

abbrev monday : Surroundings wire memory
monday = record {
  read_file = λ path. some [];
  unmarshal = λ bytes. some branch_config;
  bbolt = λ path. some (some (run memory week (memory.empty, [])).0);
  opens = true;
  commits = λ env. true;
  client_tls = tls_of;
  quote = quoted;
  world = down;
}

main_runs_example :
    let b = (run memory week (memory.empty, [])).0 in
    (st : State wire (Service memory)) × (http : Option Bytes) × (main monday (str "node.json" ∷ [])
      ≡ running st http)
    × (st.node.config.id ≡ branch_config.id)
    × ((st.node.server ≡ none) ↔ (branch_config.listen_addr ≡ []))
    × ((st.node.client ≡ none) ↔ (branch_config.parent_address ≡ []))
    × ((http ≡ none) ↔ (branch_config.http_addr ≡ []))
    × (st.service
        ≡ record { allow_list = new_child_allow_list branch_config.allowed_child_ids; store = b })
    × (handlers_of (str "log") st.node.upstream_handlers ≡ save_envelope (λ env. true) ∷ [])
    × (handlers_of (str "config") st.node.downstream_handlers ≡ save_envelope (λ env. true) ∷ [])
unfolding load_config new_bolt_storage create_bucket
main_runs_example =
    main_runs monday (str "node.json") branch_config (run memory week (memory.empty, [])).0 refl
      refl

main_serves_example :
    let ops = week ++ as_saves (λ env. true) (saved_over web branch_config.id day) in
    (st : State wire (Service memory)) × (http : Option Bytes) × (main monday (str "node.json" ∷ [])
      ≡ running st http)
    × (let t = service_run web st day in
        ((results : List Envelope) × ((serve web lunch (ask (str "/api/v1/admin/logs")) t).0
            ≡ record { code = 200; body = entries results })
          × Lists results (logs_from (pos 0)) (run memory ops (memory.empty, [])).1)
        × ((authorize t.service.allow_list (shown (str "leaf" ∷ [])) (str "leaf") ≡ none) ↔ (
            (str "leaf" ≢ [])
            × (after_edits
                  (is_in (str "leaf") branch_config.allowed_child_ids)
                  (str "leaf")
                  (edits_over web day)
                ≡ true)
            × HasCertificate (shown (str "leaf" ∷ [])) (str "leaf"))))
unfolding load_config new_bolt_storage create_bucket route routes beq
main_serves_example =
    main_serves monday web (str "node.json") branch_config week day lunch
      (ask (str "/api/v1/admin/logs")) [] (pos 0) (shown (str "leaf" ∷ [])) (str "leaf") refl refl
      refl refl
