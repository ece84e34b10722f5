-- ===== src/Node/Link/Growth.antt =====
-- node/node.go: what a node's steps hand to gRPC comes after what they handed over before.
use multi_region.Prelude.{
  ◌≡◌, refl, sym, ◌∙◌, Option, none, some, List, [], ◌∷◌, ◌++◌, Option-cases, inl, inr,
}
use mathlib.Core.List.{append-nil}
use multi_region.Envelope.{Envelope}
use multi_region.Grpc.{Grpc}
use multi_region.Client.{Client}
use multi_region.Client
use multi_region.Client.Sending.{if_sent, send_upstream_exact}
use multi_region.Node.{
  State, Retry, waiting, sending, pausing, stopped, after_send, forward_up, send_up,
  handle_downstream_from_parent, new_envelope, handle_upstream_from_child, run_upstream_handlers,
  run_downstream_handlers, rebroadcast,
}
use multi_region.Node.Loop
use multi_region.Node.Loop.{
  Event, sends_up, child_sends, parent_sends, ticks, resends, paces, cancels, set_retry, drain,
  tick, resend_one, resend, pace, cancel,
}

module _ {g : Grpc} {S : Type 0} where
  -- What a step hands to gRPC comes after what was handed over before.
  abbrev pub Extends : State g S → State g S → Type 0
  Extends st t = (more : List Envelope) × (g.sent t.world ≡ g.sent st.world ++ more)

  same-Extends : (st t : State g S) → g.sent t.world ≡ g.sent st.world → Extends st t
  same-Extends st t e = ([], e ∙ sym (append-nil (g.sent st.world)))

  after_send-Extends :
      (env : Envelope) (st : State g S) (c : Client g)
      → Extends st (after_send env st (Client.send_upstream g env c st.world))
  unfolding after_send
  after_send-Extends env st c =
      go (Client.send_upstream g env c st.world) (send_upstream_exact g env c st.world).0
    where
      go :
          (r : Client g × g.World × Option Client.Error)
          → g.sent r.1 ≡ g.sent st.world ++ if_sent r.2 env
          → Extends st (after_send env st r)
      go (c', w, none) e = (env ∷ [], e)
      go (c', w, some x) e = ([], e)

  forward_up-Extends : (env : Envelope) (st : State g S) → Extends st (forward_up env st)
  unfolding forward_up
  forward_up-Extends env st = go st.node.client
    where
      go :
          (o : Option (Client g))
          → Extends st (elim o [
            | none ↦ st
            | some c ↦ after_send env st (Client.send_upstream g env c st.world)
          ])
      go none = same-Extends st st refl
      go (some c) = after_send-Extends env st c

  tick-Extends : (r : Retry) (st : State g S) → Extends st (tick r st)
  unfolding tick
  tick-Extends waiting st = drained st.node.pending
    where
      drained : (envs : List Envelope) → Extends st (drain envs st)
      drained [] = same-Extends st st refl
      drained (env ∷ envs) = same-Extends st (drain (env ∷ envs) st) refl
  tick-Extends (sending envs) st = same-Extends st st refl
  tick-Extends (pausing envs) st = same-Extends st st refl
  tick-Extends (stopped envs) st = same-Extends st st refl

  resend-Extends : (r : Retry) (st : State g S) → Extends st (resend r st)
  unfolding resend resend_one
  resend-Extends (sending []) st = same-Extends st (set_retry waiting st) refl
  resend-Extends (sending (env ∷ rest)) st = go st.node.client
    where
      go :
          (o : Option (Client g))
          → Extends st (elim o [
            | none ↦ st
            | some c ↦
                set_retry (pausing rest) (after_send env st (Client.send_upstream g env c st.world))
          ])
      go none = same-Extends st st refl
      go (some c) = after_send-Extends env st c
  resend-Extends waiting st = same-Extends st st refl
  resend-Extends (pausing envs) st = same-Extends st st refl
  resend-Extends (stopped envs) st = same-Extends st st refl

  pace-Extends : (r : Retry) (st : State g S) → Extends st (pace r st)
  unfolding pace
  pace-Extends (pausing []) st = same-Extends st (set_retry waiting st) refl
  pace-Extends (pausing (env ∷ rest)) st =
      same-Extends st (set_retry (sending (env ∷ rest)) st) refl
  pace-Extends waiting st = same-Extends st st refl
  pace-Extends (sending envs) st = same-Extends st st refl
  pace-Extends (stopped envs) st = same-Extends st st refl

  cancel-Extends : (r : Retry) (st : State g S) → Extends st (cancel r st)
  unfolding cancel
  cancel-Extends waiting st = same-Extends st (set_retry (stopped []) st) refl
  cancel-Extends (pausing envs) st = same-Extends st (set_retry (stopped envs) st) refl
  cancel-Extends (sending envs) st = same-Extends st st refl
  cancel-Extends (stopped envs) st = same-Extends st st refl

  rebroadcast-Extends : (env : Envelope) (st : State g S) → Extends st (rebroadcast env st)
  unfolding rebroadcast
  rebroadcast-Extends env st = elim (Option-cases st.node.server) [
    | inl leaf ↦ simp (leaf, rebroadcast) (same-Extends st st refl)
    | inr (s, there) ↦ ([], simp (there, rebroadcast) (sym (append-nil (g.sent st.world))))
  ]

  pub step-Extends : (st : State g S) (e : Event) → Extends st (Loop.step st e)
  unfolding Loop.step send_up handle_upstream_from_child handle_downstream_from_parent
      run_upstream_handlers run_downstream_handlers
  step-Extends st (sends_up now kind payload) =
      let env = new_envelope now st.node.config.id kind payload in
      forward_up-Extends env (run_upstream_handlers env st)
  step-Extends st (child_sends env) = forward_up-Extends env (run_upstream_handlers env st)
  step-Extends st (parent_sends env) = rebroadcast-Extends env (run_downstream_handlers env st)
  step-Extends st ticks = tick-Extends st.node.retry st
  step-Extends st resends = resend-Extends st.node.retry st
  step-Extends st paces = pace-Extends st.node.retry st
  step-Extends st cancels = cancel-Extends st.node.retry st
