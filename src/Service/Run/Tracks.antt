-- ===== src/Service/Run/Tracks.antt =====
-- examples/node/main.go: what the program has kept after any requests and steps of its node.
use multi_region.Prelude.{
  ◌≡◌, refl, sym, ap, ◌∙◌, Bool, true, false, Option, none, some, List, [], ◌∷◌, ◌++◌, Bytes, str,
  beq, if◌then◌else◌,
}
use multi_region.Envelope.{Envelope}
use multi_region.Grpc.{Grpc}
use multi_region.Node.{State, handlers_of, run_handlers, new_envelope}
use multi_region.Node.Handlers.{chosen, Registrations}
use multi_region.Node.SetUp.{SameSetUp, SameSetUp-itself, step-SameSetUp}
use multi_region.Node.Effects.{after_handlers, step-after_handlers}
use multi_region.Node.Loop.{
  Event, sends_up, child_sends, parent_sends, ticks, resends, paces, cancels,
}
use multi_region.Service.AllowList.{ChildAllowList}
use multi_region.Service.AllowList.Approval.{Edit, edit, edit_all}
use multi_region.Service.Storage.{save}
use multi_region.Service.Storage.Bolt.{Disk}
use multi_region.Service.Api.{Service, save_envelope}
use multi_region.Service.Api.Effects.{edited, logged, log_of, edits_of, answer-Answers}
use multi_region.Service.Api.Routes.{Http, Request, route, serve, answer_routed}
use multi_region.Service.Run.{
  logged_by, ServiceEvent, requests, node_does, service_step, service_run, of_kind, given_by,
  saved_by, edits_by, saved_over, edits_over,
}

-- The registration that `main` makes for a kind.
abbrev pub only : {d : Disk} → (Envelope → Bool) → Bytes → Registrations (Service d)
only commits kind = (kind, save_envelope commits) ∷ []

edit_all-append :
    (es fs : List Edit) (l : ChildAllowList) → edit_all (es ++ fs) l ≡ edit_all fs (edit_all es l)
unfolding edit_all
edit_all-append [] fs l = refl
edit_all-append (e ∷ es) fs l = edit_all-append es fs (edit e l)

-- Saving some envelopes, in order.
unfoldable pub save_each : (d : Disk) → (Envelope → Bool) → List Envelope → d.Bucket → d.Bucket
save_each d commits [] b = b
save_each d commits (env ∷ envs) b = save_each d commits envs (save d (commits env) env b).0

pub save_each-append :
    (d : Disk) (commits : Envelope → Bool) (xs ys : List Envelope) (b : d.Bucket)
    → save_each d commits (xs ++ ys) b ≡ save_each d commits ys (save_each d commits xs b)
unfolding save_each
save_each-append d commits [] ys b = refl
save_each-append d commits (x ∷ xs) ys b =
    save_each-append d commits xs ys (save d (commits x) x b).0

module _ {d : Disk} (commits : Envelope → Bool) where
  -- The service after some edits of its list and some envelopes saved.
  unfoldable pub kept_after : List Edit → List Envelope → Service d → Service d
  unfolding save_each
  kept_after edits envs s = record {
    allow_list = edit_all edits s.allow_list;
    store = save_each d commits envs s.store;
  }

  run_only :
      (kind : Bytes) (env : Envelope) (s : Service d)
      → run_handlers (chosen env.kind (only commits kind)) env s
        ≡ kept_after [] (of_kind kind env) s
  unfolding of_kind chosen run_handlers kept_after save_each edit_all save_envelope
  run_only kind env s = go (beq kind env.kind)
    where
      go :
          (b : Bool)
          → run_handlers (if b then save_envelope commits ∷ [] else []) env s
            ≡ kept_after [] (if b then env ∷ [] else []) s
      go true = refl
      go false = refl

  pub only-store :
      (kind : Bytes) (env : Envelope) (s : Service d)
      → (run_handlers (chosen env.kind (only commits kind)) env s).store
        ≡ save_each d commits (of_kind kind env) s.store
  unfolding kept_after
  only-store kind env s = ap (λ s. s.store) (run_only kind env s)

  kept_after-append :
      (es fs : List Edit) (xs ys : List Envelope) (s : Service d)
      → kept_after (es ++ fs) (xs ++ ys) s ≡ kept_after fs ys (kept_after es xs s)
  unfolding kept_after
  kept_after-append es fs xs ys s =
      ap (λ l. record { allow_list = l; store = save_each d commits (xs ++ ys) s.store })
        (edit_all-append es fs s.allow_list)
      ∙ ap (λ b. record { allow_list = edit_all fs (edit_all es s.allow_list); store = b })
          (save_each-append d commits xs ys s.store)

  kept_after-none : (s : Service d) → kept_after [] [] s ≡ s
  unfolding kept_after save_each edit_all
  kept_after-none s = refl

module _ {g : Grpc} {d : Disk} (commits : Envelope → Bool) where
  -- The node has the handlers that `main` registers, and no others.
  pub record IsServing (st : State g (Service d)) : Type 0 where
    pub ups :
        (k : Bytes) → handlers_of k st.node.upstream_handlers ≡ chosen k (only commits (str "log"))
    pub downs :
        (k : Bytes)
        → handlers_of k st.node.downstream_handlers ≡ chosen k (only commits (str "config"))

  same-IsServing :
      (st t : State g (Service d)) → SameSetUp t.node st.node → IsServing st → IsServing t
  same-IsServing st t same v = record {
    ups = λ k. ap (handlers_of k) same.ups ∙ v.ups k;
    downs = λ k. ap (handlers_of k) same.downs ∙ v.downs k;
  }

  given :
      (st : State g (Service d)) (e : Event)
      → IsServing st
      → after_handlers st e ≡ kept_after commits [] (given_by st.node.config.id e) st.service
  unfolding after_handlers given_by kept_after save_each edit_all new_envelope
  given st (sends_up now kind payload) v =
      let env = new_envelope now st.node.config.id kind payload in
      ap (λ hs. run_handlers hs env st.service) (v.ups kind)
      ∙ run_only commits (str "log") env st.service
  given st (child_sends env) v =
      ap (λ hs. run_handlers hs env st.service) (v.ups env.kind)
      ∙ run_only commits (str "log") env st.service
  given st (parent_sends env) v =
      ap (λ hs. run_handlers hs env st.service) (v.downs env.kind)
      ∙ run_only commits (str "config") env st.service
  given st ticks v = refl
  given st resends v = refl
  given st paces v = refl
  given st cancels v = refl

  -- The handlers that the log of a request runs.
  logged_kept :
      (edits : List Edit) (o : Option Envelope) (st : State g (Service d))
      → IsServing st
      → edited edits (logged o st) ≡ kept_after commits edits (logged_by o) st.service
  unfolding logged logged_by kept_after save_each edit_all
  logged_kept edits none st v = refl
  logged_kept edits (some env) st v = ap (edited edits) (
      ap (λ hs. run_handlers hs env st.service) (v.ups env.kind)
      ∙ run_only commits (str "log") env st.service)

module _ {g : Grpc} {d : Disk} (h : Http) (commits : Envelope → Bool) where
  -- One event.
  abbrev Moves : ServiceEvent → State g (Service d) → State g (Service d) → Type 0
  Moves e st t =
      SameSetUp t.node st.node
      × (t.service ≡ kept_after commits (edits_by h e) (saved_by h st.node.config.id e) st.service)

  step-Moves :
      (st : State g (Service d)) (e : ServiceEvent)
      → IsServing commits st
      → Moves e st (service_step h st e)
  unfolding service_step edits_by saved_by serve answer_routed kept_after save_each edit_all
  step-Moves st (node_does e) v =
      (step-SameSetUp st e, step-after_handlers st e ∙ given commits st e v)
  step-Moves st (requests now r) v = routed (route h r)
    where
      routed :
          (o : Option Request)
          → let id = st.node.config.id in
            let t = (answer_routed h now r o st).1 in
            SameSetUp t.node st.node
            × (t.service
                ≡ kept_after commits
                    (elim o [ none ↦ [] | some q ↦ edits_of q ])
                    (elim o [ none ↦ [] | some q ↦ logged_by (log_of id now q) ])
                    st.service)
      routed none = (SameSetUp-itself st.node, refl)
      routed (some q) =
          let law = answer-Answers h now q st in
          (
            law.set_up,
            law.service ∙ logged_kept commits (edits_of q) (log_of st.node.config.id now q) st v,
          )

  -- Over any requests and steps of the node, in any order: the program keeps its handlers and its
  -- node-id; its allow list is that of the start after the edits that the requests asked for, in
  -- their order; and its store is that of the start after the envelopes saved that agents posted and
  -- children sent up as "log" and the parent sent down as "config", in their order. No other
  -- request or step changes the two.
  pub service_tracks :
      (st : State g (Service d)) (es : List ServiceEvent)
      → IsServing commits st
      → let t = service_run h st es in
        IsServing commits t
        × (t.node.config ≡ st.node.config)
        × (t.service
            ≡ kept_after commits (edits_over h es) (saved_over h st.node.config.id es) st.service)
  unfolding service_run edits_over saved_over
  service_tracks st [] v = (v, refl, sym (kept_after-none commits st.service))
  service_tracks st (e ∷ es) v =
      let id = st.node.config.id in
      let t = service_step h st e in
      let (same, moved) = step-Moves st e v in
      let (serving, config, service) = service_tracks t es (same-IsServing commits st t same v) in
      (
        serving,
        config ∙ same.config,
        service
            ∙ ap (λ c. kept_after commits (edits_over h es) (saved_over h c.id es) t.service)
                same.config
            ∙ ap (kept_after commits (edits_over h es) (saved_over h id es)) moved
            ∙ sym (
                kept_after-append commits (edits_by h e) (edits_over h es) (saved_by h id e)
                  (saved_over h id es) st.service),
      )
