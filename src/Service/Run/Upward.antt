-- ===== src/Service/Run/Upward.antt =====
-- examples/node/main.go: the logs that queued at a node while its parent could not be reached, at the
-- HTTP interface of the parent.
use multi_region.Prelude.{
  ◌≡◌, refl, sym, ap, ◌∙◌, Bool, true, some, List, [], ◌∷◌, ◌++◌, Bytes, str, ℤ, length, Map,
}
use multi_region.Envelope.{Envelope}
use multi_region.Grpc.{Grpc}
use multi_region.Client.{Client}
use multi_region.Node.{Clock, Handler, handlers_of, run_handlers, waiting}
use multi_region.Node.Handlers.{chosen}
use multi_region.Node.Loop.{ticks}
use multi_region.Node.Relay.{handle_all}
use multi_region.Node.Retrying.{Reaches, rounds}
use multi_region.Node.Link.{Link, link_run}
use multi_region.Node.Link.Delivered.{arrivals, child_first, link_delivers}
use multi_region.Service.Storage.Bolt.{Disk}
use multi_region.Service.Storage.History.{Op, run}
use multi_region.Service.Api.{Service, entries}
use multi_region.Service.Api.Logs.{since_of, logs_from}
use multi_region.Service.Api.Routes.{Http, HttpRequest, get_logs, route, serve}
use multi_region.Service.Run.{of_kind}
use multi_region.Service.Run.Tracks.{IsServing, only, only-store, save_each, save_each-append}
use multi_region.Service.Run.Logs.{Lists, as_saves, served_logs, run-saves}

-- Those of kind "log" among some envelopes.
unfoldable pub logs_among : List Envelope → List Envelope
logs_among [] = []
logs_among (env ∷ envs) = of_kind (str "log") env ++ logs_among envs

module _ {d : Disk} (commits : Envelope → Bool) where
  handle_all-store :
      (m : Map (List (Handler (Service d)))) (envs : List Envelope) (s : Service d)
      → ((k : Bytes) → handlers_of k m ≡ chosen k (only commits (str "log")))
      → (handle_all m envs s).store ≡ save_each d commits (logs_among envs) s.store
  unfolding handle_all logs_among save_each
  handle_all-store m [] s v = refl
  handle_all-store m (env ∷ envs) s v =
      let s' = run_handlers (handlers_of env.kind m) env s in
      let first : s'.store ≡ save_each d commits (of_kind (str "log") env) s.store =
        ap (λ hs. (run_handlers hs env s).store) (v env.kind)
        ∙ only-store commits (str "log") env s in
      handle_all-store m envs s' v
      ∙ ap (save_each d commits (logs_among envs)) first
      ∙ sym (save_each-append d commits (of_kind (str "log") env) (logs_among envs) s.store)

module _ {g h : Grpc} {S : Type 0} {d : Disk} (web : Http) (commits : Envelope → Bool) where
  -- The parent is the program of examples/node on a store that was made by calls of Save and Delete.
  -- If all that the child has handed to gRPC before is settled, its client can reach the parent and
  -- goes on reaching it, and its retry loop waits: after a tick of the loop, one round of it for each
  -- queued envelope, and as many arrivals, the child's queue is empty, and a request to the parent
  -- for the logs, with no bound or one that can be read, lists exactly the envelopes of kind "log"
  -- that are not before the bound and are the last saved under their id, over those calls and then
  -- the saves of the queue's envelopes of kind "log", in order.
  pub queue_listed :
      (Up : Client g → g.World → Type 0)
      → Reaches g Up
      → (l : Link g h S (Service d)) (c : Client g) (before : List Op) (now : Clock)
        (r : HttpRequest) (text : Bytes) (since : ℤ)
      → l.child.node.client ≡ some c
      → Up c l.child.world
      → l.child.node.retry ≡ waiting
      → l.passed ≡ length (g.sent l.child.world)
      → IsServing commits l.parent
      → l.parent.service.store ≡ (run d before (d.empty, [])).0
      → route web r ≡ some (get_logs text)
      → since_of web.parse_int text ≡ some since
      → let queue = l.child.node.pending in
        let m =
          link_run l (child_first (ticks ∷ rounds (length queue)) (arrivals (length queue))) in
        let ops = before ++ as_saves commits (logs_among queue) in
        (m.child.node.pending ≡ [])
        × ((results : List Envelope) × ((serve web now r m.parent).0
              ≡ record { code = 200; body = entries results })
            × Lists results (logs_from since) (run d ops (d.empty, [])).1)
  queue_listed Up reaches l c before now r text since there u idle settled v store routed bound =
      let queue = l.child.node.pending in
      let (arrived, empty, lost, service, relayed) =
        link_delivers (λ env. true) Up reaches l c there u idle settled in
      let (same, listed) =
        served_logs web commits now r text since
          (link_run l
            (child_first (ticks ∷ rounds (length queue)) (arrivals (length queue)))).parent
          (before ++ as_saves commits (logs_among queue)) routed bound
          (ap (λ s. s.store) service
            ∙ handle_all-store commits l.parent.node.upstream_handlers queue l.parent.service v.ups
            ∙ ap (save_each d commits (logs_among queue)) store
            ∙ run-saves d commits before (logs_among queue)) in
      (empty, listed)
