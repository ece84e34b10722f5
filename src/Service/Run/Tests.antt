-- ===== src/Service/Run/Tests.antt =====
-- examples/node/main.go: a node that an agent, an admin and a child call.
use mathlib.Core.List.{Memᴰ}
use multi_region.Service.Storage.{save}
use multi_region.Service.Run.Posted.{AlwaysSaved, log_stays_listed}
use multi_region.Prelude.{
  All, differ, ◌≢◌, ℕ, ◌≡◌, refl, true, List, [], ◌∷◌, ◌++◌, Bytes, str, pos, inl, beq, length,
}
use multi_region.Envelope.{Envelope}
use multi_region.Grpc.Wire.{wire}
use multi_region.Node.{State, new_envelope}
use multi_region.Node.Loop.{child_sends, ticks}
use multi_region.Service.Storage.Memory.{memory}
use multi_region.Service.Storage.History.{run}
use multi_region.Service.Api.{Service, entries, register}
use multi_region.Service.Api.Registered.{register-ups, register-downs}
use multi_region.Service.Api.Logs.{logs_from}
use multi_region.Service.Api.Routes.{HttpRequest, serve, route, routes}
use multi_region.Service.Api.Routes.Safe.{gets_are_safe}
use multi_region.Service.Run.{
  ServiceEvent, requests, node_does, service_run, saved_over, edits_over, of_kind, saved_by,
  edits_by, given_by, logged_by,
}
use multi_region.Service.Api.Effects.{log_of, edits_of}
use multi_region.Service.AllowList.Approval.{approves}
use multi_region.Service.Run.Matcher.{web, web-KeepsMethods}
use multi_region.Service.Run.Tracks.{IsServing}
use multi_region.Service.Run.Logs.{Lists, as_saves}
use multi_region.Service.Run.Upward.{logs_among, queue_listed}
use multi_region.Node.Retrying.{rounds}
use multi_region.Node.Link.{Link, link_run}
use multi_region.Node.Link.Delivered.{arrivals, child_first}
use multi_region.Node.Tests.{report, back_again, joined, CanSend, CanSend-reaches}
use multi_region.Service.Tests.{running, lunch, entry}

abbrev pub ask : Bytes → HttpRequest
ask path = record { method = str "GET"; path = path; since = []; content = [] }

abbrev post : Bytes → Bytes → HttpRequest
post path content = record { method = str "POST"; path = path; since = []; content = content }

abbrev pub day : List ServiceEvent
day =
    requests lunch (post (str "/api/v1/agent/logs") (str "hello"))
    ∷ node_does (child_sends (entry (str "leaf-1")))
    ∷ requests lunch (post (str "/api/v1/admin/allowed-children") (str "leaf"))
    ∷ node_does ticks
    ∷ []

-- The node of the tests with the handlers of the program.
abbrev serving : State wire (Service memory)
serving = record running {
  node = record running.node {
    upstream_handlers = (register (λ env. true) running.node).upstream_handlers;
    downstream_handlers = (register (λ env. true) running.node).downstream_handlers;
  };
}

serving-IsServing : IsServing (λ env. true) serving
serving-IsServing = record {
  ups = λ k. register-ups (λ env. true) running.node k refl;
  downs = λ k. register-downs (λ env. true) running.node k refl;
}

gets_are_safe_example : (serve web lunch (ask (str "/api/v1/admin/logs")) serving).1 ≡ serving
gets_are_safe_example =
    gets_are_safe wire memory web web-KeepsMethods lunch (ask (str "/api/v1/admin/logs")) serving
      (inl refl)

-- Over the day an agent's log and a child's are saved, and a child is approved.
day_counts :
    (length (saved_over web (str "branch") day) ≡ 2)
    × (edits_over web day ≡ approves (str "leaf") ∷ [])
unfolding saved_over saved_by edits_over edits_by route routes beq of_kind given_by logged_by log_of
    edits_of new_envelope
day_counts = (refl, refl)

-- A child with two reports in its queue, which calls the node of the tests.
abbrev reporting : Link wire wire ℕ (Service memory)
reporting = record { child = back_again; parent = serving; passed = 0; arrived = []; lost = [] }

queue_listed_example :
    let queue = report ∷ report ∷ [] in
    let m = link_run reporting (child_first (ticks ∷ rounds 2) (arrivals 2)) in
    let ops = [] ++ as_saves (λ env. true) (logs_among queue) in
    (m.child.node.pending ≡ [])
    × ((results : List Envelope) × ((serve web lunch (ask (str "/api/v1/admin/logs")) m.parent).0
          ≡ record { code = 200; body = entries results })
        × Lists results (logs_from (pos 0)) (run memory ops (memory.empty, [])).1)
unfolding run route routes beq
queue_listed_example =
    queue_listed web (λ env. true) CanSend CanSend-reaches reporting joined [] lunch
      (ask (str "/api/v1/admin/logs")) [] (pos 0) refl (refl, refl) refl refl serving-IsServing refl
      refl refl

-- The entry of an agent is still listed after a child's report and an approval.
abbrev evening : List ServiceEvent
evening =
    node_does (child_sends (entry (str "leaf-1")))
    ∷ requests lunch (post (str "/api/v1/admin/allowed-children") (str "leaf"))
    ∷ node_does ticks
    ∷ []

abbrev greeting : HttpRequest
greeting = post (str "/api/v1/agent/logs") (str "hello")

greeting_saved :
    AlwaysSaved memory (λ env. true) (new_envelope lunch (str "branch") (str "log") (str "hello"))
unfolding save new_envelope
greeting_saved b = refl

evening-others :
    let env = new_envelope lunch (str "branch") (str "log") (str "hello") in
    All (λ x. x.id ≢ env.id) (saved_over web (str "branch") evening)
unfolding saved_over saved_by route routes beq of_kind given_by logged_by log_of new_envelope
evening-others = (differ _ _ refl, tt)

log_stays_listed_example :
    let env = new_envelope lunch (str "branch") (str "log") (str "hello") in
    let t = service_run web serving (day ++ requests lunch greeting ∷ evening) in
    (results : List Envelope) × ((serve web lunch (ask (str "/api/v1/admin/logs")) t).0
      ≡ record { code = 200; body = entries results })
    × Memᴰ env results
unfolding run route routes beq
log_stays_listed_example =
    log_stays_listed web (λ env. true) [] serving day evening lunch lunch greeting
      (ask (str "/api/v1/admin/logs")) (str "hello") serving-IsServing refl refl refl greeting_saved
      evening-others
