-- ===== src/Node/Effects.antt =====
-- node/node.go: what the steps of a node do to the state of its service.
use multi_region.Prelude.{◌≡◌, refl, List, [], ◌∷◌, Option-cases, inl, inr}
use multi_region.Envelope.{Envelope}
use multi_region.Grpc.{Grpc}
use multi_region.Client
use multi_region.Node.{
  State, Retry, waiting, sending, pausing, stopped, handlers_of, run_handlers, new_envelope,
  run_upstream_handlers, run_downstream_handlers, handle_upstream_from_child,
  handle_downstream_from_parent,
}
use multi_region.Node.Handlers.{
  after_send-service, forward_up-service, rebroadcast-service, send_up-service,
}
use multi_region.Node.Loop
use multi_region.Node.Loop.{
  Event, sends_up, child_sends, parent_sends, ticks, resends, paces, cancels, set_retry, drain,
  tick, resend_one, resend, pace, cancel,
}

module _ {g : Grpc} {S : Type 0} where
  -- The handlers that the step runs; the retry loop runs none.
  unfoldable pub after_handlers : State g S → Event → S
  after_handlers st (sends_up now kind payload) =
      run_handlers (handlers_of kind st.node.upstream_handlers)
        (new_envelope now st.node.config.id kind payload) st.service
  after_handlers st (child_sends env) =
      run_handlers (handlers_of env.kind st.node.upstream_handlers) env st.service
  after_handlers st (parent_sends env) =
      run_handlers (handlers_of env.kind st.node.downstream_handlers) env st.service
  after_handlers st ticks = st.service
  after_handlers st resends = st.service
  after_handlers st paces = st.service
  after_handlers st cancels = st.service

  tick-service : (r : Retry) (st : State g S) → (tick r st).service ≡ st.service
  unfolding tick
  tick-service waiting st = drained st.node.pending
    where
      drained : (envs : List Envelope) → (drain envs st).service ≡ st.service
      drained [] = refl
      drained (env ∷ envs) = refl
  tick-service (sending envs) st = refl
  tick-service (pausing envs) st = refl
  tick-service (stopped envs) st = refl

  resend-service : (r : Retry) (st : State g S) → (resend r st).service ≡ st.service
  unfolding resend resend_one set_retry
  resend-service (sending []) st = refl
  resend-service (sending (env ∷ rest)) st = elim (Option-cases st.node.client) [
    | inl e ↦ simp (e, resend_one) refl
    | inr (c, e) ↦
        simp (e, resend_one) (after_send-service env st (Client.send_upstream g env c st.world))
  ]
  resend-service waiting st = refl
  resend-service (pausing envs) st = refl
  resend-service (stopped envs) st = refl

  pace-service : (r : Retry) (st : State g S) → (pace r st).service ≡ st.service
  unfolding pace set_retry
  pace-service (pausing []) st = refl
  pace-service (pausing (env ∷ rest)) st = refl
  pace-service waiting st = refl
  pace-service (sending envs) st = refl
  pace-service (stopped envs) st = refl

  cancel-service : (r : Retry) (st : State g S) → (cancel r st).service ≡ st.service
  unfolding cancel set_retry
  cancel-service waiting st = refl
  cancel-service (pausing envs) st = refl
  cancel-service (sending envs) st = refl
  cancel-service (stopped envs) st = refl

  pub step-after_handlers :
      (st : State g S) (e : Event) → (Loop.step st e).service ≡ after_handlers st e
  unfolding Loop.step after_handlers handle_upstream_from_child handle_downstream_from_parent
      run_upstream_handlers run_downstream_handlers
  step-after_handlers st (sends_up now kind payload) = send_up-service now kind payload st
  step-after_handlers st (child_sends env) = forward_up-service env (run_upstream_handlers env st)
  step-after_handlers st (parent_sends env) =
      rebroadcast-service env (run_downstream_handlers env st)
  step-after_handlers st ticks = tick-service st.node.retry st
  step-after_handlers st resends = resend-service st.node.retry st
  step-after_handlers st paces = pace-service st.node.retry st
  step-after_handlers st cancels = cancel-service st.node.retry st
