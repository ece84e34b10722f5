-- ===== src/Service/Main/Serves.antt =====
-- examples/node/main.go: the program from its start on, over requests and steps of its node.
use multi_region.Prelude.{
  ◌≡◌, ◌≢◌, ◌↔◌, sym, ap, ◌∙◌, subst, true, Option, none, some, List, [], ◌∷◌, ◌++◌, Bytes, ℤ,
}
use multi_region.Envelope.{Envelope}
use multi_region.Grpc.{Grpc}
use multi_region.Server.{Context}
use multi_region.Node.{Node, State, Clock, handlers_of}
use multi_region.Node.Lifecycle.{start}
use multi_region.Node.Setup.{start-handlers, new_node-handlers}
use multi_region.Service.AllowList.{new_child_allow_list, authorize}
use multi_region.Service.AllowList.Approval.{
  edit_all, HasCertificate, is_in, after_edits, edits_decide,
}
use multi_region.Service.Storage.Bolt.{Disk}
use multi_region.Service.Storage.History.{Op, run}
use multi_region.Service.Storage.Opening.{opened, new_bolt_storage}
use multi_region.Service.Config.{FileConfig, loaded, load_config}
use multi_region.Service.Config.Started.{config-roles}
use multi_region.Service.Config.Options.{node_options-total}
use multi_region.Service.Api.{Service, entries}
use multi_region.Service.Api.Approval.{service_hook}
use multi_region.Service.Api.Registered.{register-ups, register-downs, register-SameHalves}
use multi_region.Service.Api.Logs.{since_of, logs_from}
use multi_region.Service.Api.Routes.{Http, HttpRequest, get_logs, route, serve}
use multi_region.Service.Run.{ServiceEvent, service_run, saved_over, edits_over}
use multi_region.Service.Run.Tracks.{IsServing, service_tracks, kept_after}
use multi_region.Service.Run.Logs.{Lists, as_saves, logs_over_time}
use multi_region.Service.Main.{running, Surroundings, http_server, main}
use multi_region.Service.Main.Restart.{set_up, main-start}

module _ {g : Grpc} {d : Disk} (s : Surroundings g d) (h : Http) where
  started-IsServing :
      (cfg : FileConfig) (b : d.Bucket) (n : Node g (Service d))
      → (n.upstream_handlers ≡ []) × (n.downstream_handlers ≡ [])
      → IsServing s.commits (start (set_up s cfg b n))
  started-IsServing cfg b n bare =
      let kept = start-handlers (set_up s cfg b n) in
      record {
        ups = λ k. ap (handlers_of k) kept.0 ∙ register-ups s.commits n k bare.0;
        downs = λ k. ap (handlers_of k) kept.1 ∙ register-downs s.commits n k bare.1;
      }

  -- On one argument, the path of a file whose configuration is accepted, if the database opens as
  -- calls of Save and Delete have left it: the program runs, and after any requests to it and steps
  -- of its node, in any order, a request for the logs that names no bound, or one that can be read,
  -- is answered with 200 and lists exactly the envelopes of kind "log" that are not before the bound
  -- and are the last saved under their id, over those calls and the saves since; and the allow list
  -- lets a child in exactly if its node-id is not empty, the last request that approves or revokes
  -- this node-id approves it (or, without one, the configuration lists it), and the first
  -- certificate of its TLS connection carries the node-id as its CommonName.
  pub main_serves :
      (path : Bytes) (cfg : FileConfig) (before : List Op) (es : List ServiceEvent) (now : Clock)
      (r : HttpRequest) (text : Bytes) (since : ℤ) (ctx : Context) (id : Bytes)
      → load_config s.read_file s.unmarshal path ≡ loaded cfg
      → new_bolt_storage d (s.bbolt cfg.storage_path) s.opens
        ≡ opened (run d before (d.empty, [])).0
      → route h r ≡ some (get_logs text)
      → since_of h.parse_int text ≡ some since
      → let ops = before ++ as_saves s.commits (saved_over h cfg.id es) in
        (st : State g (Service d)) × (http : Option Bytes) × (main s (path ∷ []) ≡ running st http)
        × (let t = service_run h st es in
            ((results : List Envelope) × ((serve h now r t).0
                ≡ record { code = 200; body = entries results })
              × Lists results (logs_from since) (run d ops (d.empty, [])).1)
            × ((authorize t.service.allow_list ctx id ≡ none) ↔ (
                (id ≢ [])
                × (after_edits (is_in id cfg.allowed_child_ids) id (edits_over h es) ≡ true)
                × HasCertificate ctx id)))
  unfolding kept_after
  main_serves path cfg before es now r text since ctx id loads opens routed bound =
      let b = (run d before (d.empty, [])).0 in
      let (os, o) = node_options-total s.client_tls (service_hook s.quote) cfg in
      let (n, made, roles) =
        config-roles s.client_tls (service_hook s.quote) s.read_file s.unmarshal path cfg os loads
          o in
      let st : State g (Service d) = start (set_up s cfg b n) in
      let serving = started-IsServing cfg b n (new_node-handlers os n made) in
      let halves = register-SameHalves s.commits n in
      let named : st.node.config.id ≡ cfg.id =
        (roles (set_up s cfg b n) halves.0 halves.1 halves.2).0 in
      let kept : st.service ≡ (set_up s cfg b n).service = (start-handlers (set_up s cfg b n)).2 in
      let (same, (results, answer, lists)) =
        logs_over_time h s.commits before st es now r text since serving (ap (λ x. x.store) kept)
          routed bound in
      let listed : (service_run h st es).service.allow_list
          ≡ edit_all (edits_over h es) (new_child_allow_list cfg.allowed_child_ids) =
        ap (λ x. x.allow_list) (service_tracks h s.commits st es serving).2
        ∙ ap (λ x. edit_all (edits_over h es) x.allow_list) kept in
      (
        st,
        http_server s cfg,
        main-start s path cfg b os n loads opens o made,
        (
          (
            results,
            answer,
            subst
                (λ i.
                  let ops = before ++ as_saves s.commits (saved_over h i es) in
                  Lists results (logs_from since) (run d ops (d.empty, [])).1)
                named lists,
          ),
          subst
              (λ l. (authorize l ctx id ≡ none) ↔ (
                (id ≢ [])
                × (after_edits (is_in id cfg.allowed_child_ids) id (edits_over h es) ≡ true)
                × HasCertificate ctx id))
              (sym listed) (edits_decide cfg.allowed_child_ids (edits_over h es) ctx id),
        ),
      )
