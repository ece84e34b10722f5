-- ===== src/Service/Run/Logs.antt =====
-- examples/node/main.go, `handleAdminLogs`, at any time while the program runs.
use multi_region.Prelude.{
  ◌≡◌, ◌↔◌, refl, sym, ap, ◌∙◌, subst, Bool, true, some, List, [], ◌∷◌, ◌++◌, Bytes, ℤ, map, lookup,
}
use mathlib.Core.List.{Memᴰ}
use multi_region.Envelope.{Envelope}
use multi_region.Grpc.{Grpc}
use multi_region.Node.{State, Clock}
use multi_region.Service.Storage.{QueryFilter, matches, query}
use multi_region.Service.Storage.Bolt.{Disk}
use multi_region.Service.Storage.History.{Op, saves, Kept, run, step}
use multi_region.Service.Storage.Latest.{query_history}
use multi_region.Service.Api.{Service, entries}
use multi_region.Service.Api.Logs.{since_of, logs_from, handle_admin_logs-entries}
use multi_region.Service.Api.Routes.{
  Http, HttpRequest, get_logs, route, serve, answer, answer_routed,
}
use multi_region.Service.Run.{ServiceEvent, service_run, saved_over}
use multi_region.Service.Run.Tracks.{IsServing, save_each, kept_after, service_tracks}

-- These envelopes saved, as calls of the store.
abbrev pub as_saves : (Envelope → Bool) → List Envelope → List Op
as_saves commits envs = map (λ env. saves (commits env) env) envs

pub run-append :
    (d : Disk) (ops more : List Op) (s : d.Bucket × Kept)
    → run d (ops ++ more) s ≡ run d more (run d ops s)
unfolding run
run-append d [] more s = refl
run-append d (o ∷ ops) more s = run-append d ops more (step d o s)

run-as_saves :
    (d : Disk) (commits : Envelope → Bool) (envs : List Envelope) (s : d.Bucket × Kept)
    → (run d (as_saves commits envs) s).0 ≡ save_each d commits envs s.0
unfolding run step save_each
run-as_saves d commits [] s = refl
run-as_saves d commits (env ∷ envs) (b, m) =
    run-as_saves d commits envs (step d (saves (commits env) env) (b, m))

-- Calls that made a store, and then saves.
pub run-saves :
    (d : Disk) (commits : Envelope → Bool) (before : List Op) (envs : List Envelope)
    → save_each d commits envs (run d before (d.empty, [])).0
      ≡ (run d (before ++ as_saves commits envs) (d.empty, [])).0
run-saves d commits before envs =
    sym (run-as_saves d commits envs (run d before (d.empty, [])))
    ∙ ap (λ s. s.0) (sym (run-append d before (as_saves commits envs) (d.empty, [])))

-- The list has exactly the envelopes that match the filter and are kept.
abbrev pub Lists : List Envelope → QueryFilter → Kept → Type 0
Lists results filter m =
    (env : Envelope)
    → Memᴰ env results ↔ ((matches filter env ≡ true) × (lookup env.id m ≡ some env))

module _ {g : Grpc} {d : Disk} (h : Http) (commits : Envelope → Bool) where
  pub served_logs :
      (now : Clock) (r : HttpRequest) (text : Bytes) (since : ℤ) (t : State g (Service d))
      (ops : List Op)
      → route h r ≡ some (get_logs text)
      → since_of h.parse_int text ≡ some since
      → t.service.store ≡ (run d ops (d.empty, [])).0
      → let (answer, t') = serve h now r t in
        (t' ≡ t)
        × ((results : List Envelope) × (answer ≡ record { code = 200; body = entries results })
            × Lists results (logs_from since) (run d ops (d.empty, [])).1)
  unfolding serve answer_routed answer
  served_logs now r text since t ops routed bound store =
      let filter = logs_from since in
      let law = query_history d ops filter in
      let found = ap (query d filter) store in
      let moved = ap (λ o. answer_routed h now r o t) routed in
      (
        ap (λ a. a.1) moved,
        (
          (query d filter t.service.store).0,
          ap (λ a. a.0) moved
              ∙ handle_admin_logs-entries h.parse_int text since t bound
                  (ap (λ q. q.1) found ∙ law.0),
          subst (λ q. Lists q.0 filter (run d ops (d.empty, [])).1) (sym found) law.1,
        ),
      )

  -- The program runs on a store that was made by calls of Save and Delete. After any requests and
  -- steps of its node, a request for the logs that names no bound, or one that can be read, changes
  -- nothing, is answered with 200, and lists exactly the envelopes of kind "log" that are not before
  -- the bound and are the last saved under their id, over the calls that made the store and then the
  -- saves, in order, of what agents have posted and children have sent up as "log" and the parent has
  -- sent down as "config". A save that fails counts for nothing.
  pub logs_over_time :
      (before : List Op) (st : State g (Service d)) (es : List ServiceEvent) (now : Clock)
      (r : HttpRequest) (text : Bytes) (since : ℤ)
      → IsServing commits st
      → st.service.store ≡ (run d before (d.empty, [])).0
      → route h r ≡ some (get_logs text)
      → since_of h.parse_int text ≡ some since
      → let t = service_run h st es in
        let ops = before ++ as_saves commits (saved_over h st.node.config.id es) in
        let (answer, t') = serve h now r t in
        (t' ≡ t)
        × ((results : List Envelope) × (answer ≡ record { code = 200; body = entries results })
            × Lists results (logs_from since) (run d ops (d.empty, [])).1)
  unfolding kept_after
  logs_over_time before st es now r text since v store routed bound =
      let envs = saved_over h st.node.config.id es in
      let (serving, config, service) = service_tracks h commits st es v in
      served_logs now r text since (service_run h st es) (before ++ as_saves commits envs) routed
        bound
        (ap (λ s. s.store) service
          ∙ ap (save_each d commits envs) store
          ∙ run-saves d commits before envs)
