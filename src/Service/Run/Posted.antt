-- ===== src/Service/Run/Posted.antt =====
-- examples/node/main.go, `handleAgentLog`: a log entry from its request on, whatever else happens.
use multi_region.Prelude.{
  ◌≡◌, ◌≢◌, refl, sym, ap, ◌∙◌, Bool, Option, none, some, List, [], ◌∷◌, ◌++◌, Bytes, str, pos, All,
  beq, beq_refl, beq_ne, lookup, insert, lookup-insert,
}
use mathlib.Core.List.{Memᴰ, append_assoc, map-append}
use multi_region.Envelope.{Envelope}
use multi_region.Grpc.{Grpc}
use multi_region.Node.Handlers.{new_envelope-kind}
use multi_region.Node.{State, Clock, new_envelope}
use multi_region.Service.Storage
use multi_region.Service.Storage.{save}
use multi_region.Service.Storage.Bolt.{Disk}
use multi_region.Service.Storage.Found.{matches-kind}
use multi_region.Service.Storage.History.{Op, saves, Kept, if_done, step, run}
use multi_region.Service.Api.{Service, entries}
use multi_region.Service.Api.Effects.{log_of}
use multi_region.Service.Api.Routes.{Http, HttpRequest, post_agent_log, get_logs, route, serve}
use multi_region.Service.Run.{
  ServiceEvent, requests, service_run, of_kind, logged_by, saved_by, saved_over,
}
use multi_region.Service.Run.Tracks.{IsServing}
use multi_region.Service.Run.Logs.{as_saves, run-append, logs_over_time}

-- An envelope whose transaction commits is saved, whatever the store holds.
abbrev pub AlwaysSaved : (d : Disk) → (Envelope → Bool) → Envelope → Type 0
AlwaysSaved d commits env = (b : d.Bucket) → (save d (commits env) env b).1 ≡ none

module _ (d : Disk) (commits : Envelope → Bool) where
  -- Saving others leaves what is kept under an id.
  others_saved :
      (id : Bytes) (envs : List Envelope) (s : d.Bucket × Kept)
      → All (λ x. x.id ≢ id) envs
      → lookup id (run d (as_saves commits envs) s).1 ≡ lookup id s.1
  unfolding run step if_done
  others_saved id [] s h = refl
  others_saved id (env ∷ envs) (b, m) h =
      others_saved id envs (step d (saves (commits env) env) (b, m)) h.1
      ∙ one (save d (commits env) env b).1
    where
      one : (e : Option Storage.Error) → lookup id (if_done e (insert env.id env m) m) ≡ lookup id m
      one none = lookup-insert env.id id env m ∙ rw (beq_ne env.id id h.0)
      one (some x) = refl

  kept_after_others :
      (env : Envelope) (before : List Op) (earlier later : List Envelope)
      → AlwaysSaved d commits env
      → All (λ x. x.id ≢ env.id) later
      → lookup env.id (run d (before ++ as_saves commits (earlier ++ env ∷ later)) (d.empty, [])).1
        ≡ some env
  unfolding run step if_done
  kept_after_others env before earlier later ok h =
      let s = run d (as_saves commits earlier) (run d before (d.empty, [])) in
      let split =
        run-append d before (as_saves commits (earlier ++ env ∷ later)) (d.empty, [])
        ∙ ap (λ ops. run d ops (run d before (d.empty, [])))
            (map-append (λ x. saves (commits x) x) earlier (env ∷ later))
        ∙ run-append d (as_saves commits earlier) (as_saves commits (env ∷ later))
            (run d before (d.empty, [])) in
      ap (λ x. lookup env.id x.1) split
      ∙ others_saved env.id later (step d (saves (commits env) env) s) h
      ∙ ap (λ e. lookup env.id (if_done e (insert env.id env s.1) s.1)) (ok s.0)
      ∙ latest s.1
    where
      latest : (m : Kept) → lookup env.id (if_done none (insert env.id env m) m) ≡ some env
      latest m = lookup-insert env.id env.id env m ∙ rw (beq_refl env.id) refl

saved_over-append :
    (h : Http) (id : Bytes) (es fs : List ServiceEvent)
    → saved_over h id (es ++ fs) ≡ saved_over h id es ++ saved_over h id fs
unfolding saved_over
saved_over-append h id [] fs = refl
saved_over-append h id (e ∷ es) fs =
    ap (λ r. saved_by h id e ++ r) (saved_over-append h id es fs)
    ∙ sym (append_assoc (saved_by h id e) (saved_over h id es) (saved_over h id fs))

post_saves :
    (h : Http) (id payload : Bytes) (now : Clock) (r : HttpRequest) (es : List ServiceEvent)
    → route h r ≡ some (post_agent_log (some payload))
    → saved_over h id (requests now r ∷ es)
      ≡ new_envelope now id (str "log") payload ∷ saved_over h id es
unfolding saved_over saved_by logged_by log_of of_kind new_envelope beq
post_saves h id payload now r es routed =
    ap (λ o. elim o [ none ↦ [] | some q ↦ logged_by (log_of id now q) ] ++ saved_over h id es)
      routed

module _ {g : Grpc} {d : Disk} (h : Http) (commits : Envelope → Bool) where
  -- The program runs on a store that was made by calls of Save and Delete. Once an agent has posted a
  -- log entry whose transaction commits, any later request for all logs is answered with 200 and lists
  -- it, after any other requests and steps of the node before and since, if no envelope with its id
  -- has been given to the saving handlers since.
  pub log_stays_listed :
      (before : List Op) (st : State g (Service d)) (earlier later : List ServiceEvent)
      (now then_now : Clock) (post r : HttpRequest) (payload : Bytes)
      → IsServing commits st
      → st.service.store ≡ (run d before (d.empty, [])).0
      → route h post ≡ some (post_agent_log (some payload))
      → route h r ≡ some (get_logs [])
      → let id = st.node.config.id in
        let env = new_envelope now id (str "log") payload in
        AlwaysSaved d commits env
        → All (λ x. x.id ≢ env.id) (saved_over h id later)
        → let t = service_run h st (earlier ++ requests now post ∷ later) in
          (results : List Envelope) × ((serve h then_now r t).0
            ≡ record { code = 200; body = entries results })
          × Memᴰ env results
  log_stays_listed before st earlier later now then_now post r payload v store posted asked ok
        others =
      let id = st.node.config.id in
      let env = new_envelope now id (str "log") payload in
      let es = earlier ++ requests now post ∷ later in
      let (same, (results, answer, lists)) =
        logs_over_time h commits before st es then_now r [] (pos 0) v store asked refl in
      let order : saved_over h id es ≡ saved_over h id earlier ++ env ∷ saved_over h id later =
        saved_over-append h id earlier (requests now post ∷ later)
        ∙ ap (λ x. saved_over h id earlier ++ x) (post_saves h id payload now post later posted) in
      let kept =
        ap (λ x. lookup env.id (run d (before ++ as_saves commits x) (d.empty, [])).1) order
        ∙ kept_after_others d commits env before (saved_over h id earlier) (saved_over h id later)
            ok others in
      (
        results,
        answer,
        (lists env).1
            (matches-kind (str "log") env (new_envelope-kind now id (str "log") payload), kept),
      )
