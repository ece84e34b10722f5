-- ===== src/Service/Api/AgentLogs.antt =====
-- examples/node/main.go, `handleAgentLog` and `handleAdminLogs`, with the handler for "log" that
-- `main` registers: an entry of an agent from its request to the list that an admin sees.
use multi_region.Prelude.{
  ◌≡◌, refl, sym, ap, ◌∙◌, subst, ◌↔◌, Bool, true, Option, none, some, List, [], ◌∷◌, ◌++◌, Bytes,
  str, ℤ, pos, lookup, insert, lookup-insert, beq_refl,
}
use mathlib.Core.List.{Memᴰ}
use multi_region.Envelope.{Envelope}
use multi_region.Grpc.{Grpc}
use multi_region.Node.{Node, State, Clock, handlers_of, run_handlers, new_envelope, on_upstream}
use multi_region.Node.Handlers.{
  on_downstream-upstream_handlers, on_upstream_first, send_up-service, new_envelope-kind,
}
use multi_region.Service.Storage
use multi_region.Service.Storage.Bolt.{Disk}
use multi_region.Service.Storage.{QueryFilter, matches, save, query}
use multi_region.Service.Storage.History.{Op, saves, Kept, if_done, step, run}
use multi_region.Service.Storage.Found.{matches-kind}
use multi_region.Service.Storage.Latest.{query_history}
use multi_region.Service.Api.{
  Service, entries, save_envelope, register, handle_agent_log, answer_logs, logs_since,
  handle_admin_logs,
}

-- The filter of a request without "since".
abbrev all_logs : QueryFilter
all_logs = record { kind = str "log"; since = pos 0 }

run_last :
    (d : Disk) (ops : List Op) (o : Op) (b : d.Bucket) (m : Kept)
    → run d (ops ++ o ∷ []) (b, m) ≡ step d o (run d ops (b, m))
unfolding run
run_last d [] o b m = refl
run_last d (p ∷ ops) o b m = run_last d ops o (step d p (b, m)).0 (step d p (b, m)).1

answer_logs-entries :
    (env : Envelope) (r : List Envelope × Option Storage.Error)
    → r.1 ≡ none
    → Memᴰ env r.0
    → (results : List Envelope) × (answer_logs r ≡ record { code = 200; body = entries results })
      × Memᴰ env results
unfolding answer_logs
answer_logs-entries env (found, none) e m = (found, refl, m)
answer_logs-entries env (found, some x) e m = cc

-- Saving an envelope of kind "log" without an error makes a query for logs find it.
saved-found :
    (d : Disk) (commits : Bool) (env : Envelope) (ops : List Op)
    → env.kind ≡ str "log"
    → let b = (run d ops (d.empty, [])).0 in
      (save d commits env b).1 ≡ none
      → let (results, e) = query d all_logs (save d commits env b).0 in
        (e ≡ none) × Memᴰ env results
unfolding step if_done
saved-found d commits env ops k ok =
    let (b, m) = run d ops (d.empty, []) in
    let law =
      subst
        (λ s.
          ((query d all_logs s.0).1 ≡ none)
          × ((x : Envelope)
              → Memᴰ x (query d all_logs s.0).0
                ↔ ((matches all_logs x ≡ true) × (lookup x.id s.1 ≡ some x))))
        (run_last d ops (saves commits env) d.empty [])
        (query_history d (ops ++ saves commits env ∷ []) all_logs) in
    let kept : lookup env.id (if_done (save d commits env b).1 (insert env.id env m) m) ≡ some env =
      ap (λ e. lookup env.id (if_done e (insert env.id env m) m)) ok ∙ latest m in
    (law.0, (law.1 env).1 (matches-kind (str "log") env k, kept))
  where
    latest : (m : Kept) → lookup env.id (if_done none (insert env.id env m) m) ≡ some env
    latest m = lookup-insert env.id env.id env m ∙ rw (beq_refl env.id) refl

module _ {g : Grpc} {d : Disk} where
  pub register-log :
      (commits : Envelope → Bool) (n : Node g (Service d))
      → n.upstream_handlers ≡ []
      → handlers_of (str "log") (register commits n).upstream_handlers ≡ save_envelope commits ∷ []
  unfolding register
  register-log commits n e =
      ap (handlers_of (str "log")) (
        on_downstream-upstream_handlers (str "config") (save_envelope commits)
          (on_upstream (str "log") (save_envelope commits) n))
      ∙ on_upstream_first (str "log") (save_envelope commits) n e

  -- On a node whose only handler for "log" saves the envelope, and whose store was made by calls of
  -- Save and Delete: an agent's log entry is answered with 202, and if the store saves it without an
  -- error, then the next request for the logs lists it.
  pub entry_listed :
      (commits : Envelope → Bool) (parse_int : Bytes → Option ℤ) (now : Clock) (payload : Bytes)
      (ops : List Op) (st : State g (Service d))
      → handlers_of (str "log") st.node.upstream_handlers ≡ save_envelope commits ∷ []
      → st.service.store ≡ (run d ops (d.empty, [])).0
      → let env = new_envelope now st.node.config.id (str "log") payload in
        (save d (commits env) env st.service.store).1 ≡ none
        → let (r, st') = handle_agent_log now (some payload) st in
          (r.code ≡ 202)
          × ((results : List Envelope) × (handle_admin_logs parse_int [] st'
                ≡ record { code = 200; body = entries results })
              × Memᴰ env results)
  unfolding handle_agent_log handle_admin_logs logs_since run_handlers save_envelope
  entry_listed commits parse_int now payload ops st h s ok =
      let env = new_envelope now st.node.config.id (str "log") payload in
      let b = (run d ops (d.empty, [])).0 in
      let service =
        send_up-service now (str "log") payload st ∙ ap (λ hs. run_handlers hs env st.service) h in
      let store = ap (λ x. x.store) service ∙ ap (λ x. (save d (commits env) env x).0) s in
      let found =
        saved-found d (commits env) env ops
          (new_envelope-kind now st.node.config.id (str "log") payload)
          (ap (λ x. (save d (commits env) env x).1) (sym s) ∙ ok) in
      let (results, answer, listed) = answer_logs-entries env _ found.0 found.1 in
      (refl, (results, ap (λ x. answer_logs (query d all_logs x)) store ∙ answer, listed))

  -- On a node with the handlers of `main`, whose store was made by calls of Save and Delete: an
  -- agent's log entry is answered with 202, and if the store saves it without an error, then the
  -- next request for the logs is answered with 200 and lists it.
  pub agent_log_listed :
      (commits : Envelope → Bool) (parse_int : Bytes → Option ℤ) (now : Clock) (payload : Bytes)
      (ops : List Op) (n : Node g (Service d)) (st : State g (Service d))
      → n.upstream_handlers ≡ []
      → st.node.upstream_handlers ≡ (register commits n).upstream_handlers
      → st.service.store ≡ (run d ops (d.empty, [])).0
      → let env = new_envelope now st.node.config.id (str "log") payload in
        (save d (commits env) env st.service.store).1 ≡ none
        → let (r, st') = handle_agent_log now (some payload) st in
          (r.code ≡ 202)
          × ((results : List Envelope) × (handle_admin_logs parse_int [] st'
                ≡ record { code = 200; body = entries results })
              × Memᴰ env results)
  agent_log_listed commits parse_int now payload ops n st e h s ok =
      entry_listed commits parse_int now payload ops st
        (ap (handlers_of (str "log")) h ∙ register-log commits n e) s ok
