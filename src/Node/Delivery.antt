-- ===== src/Node/Delivery.antt =====
-- node/node.go: what becomes of the envelopes that a node takes in for its parent.
use multi_region.Prelude.{◌+◌, ◌≡◌, refl, ap, Bool, List, [], ◌∷◌, arith, Option-cases, inl, inr}
use multi_region.Envelope.{Envelope}
use multi_region.Grpc.{Grpc}
use multi_region.Client.{Client}
use multi_region.Client
use multi_region.Node.{
  State, Retry, waiting, sending, pausing, stopped, new_envelope, after_send, send_up,
  handle_upstream_from_child, handle_downstream_from_parent, rebroadcast, run_upstream_handlers,
  run_downstream_handlers,
}
use multi_region.Node.Loop.{
  Event, sends_up, child_sends, parent_sends, ticks, resends, paces, cancels, set_retry, drain,
  tick, resend_one, resend, pace, cancel, step, run,
}
use multi_region.Node.Held.{
  count, count-nil, count-append, in_hand, held, accepted, accepted_over, after_send-count,
  held-count, forward_up-count,
}

module _ {g : Grpc} {S : Type 0} where
  drain-count :
      (p : Envelope → Bool) (st : State g S) (envs : List Envelope)
      → st.node.pending ≡ envs
      → st.node.retry ≡ waiting
      → count p (held (drain envs st)) ≡ count p (held st)
  unfolding drain
  drain-count p st [] q r = refl
  drain-count p st (env ∷ envs) q r = omega (
    arith,
    held-count p st,
    held-count p (drain (env ∷ envs) st),
    ap (count p) q,
    ap (λ h. count p (in_hand h)) r,
    count-nil p,
  )

  resend_one-count :
      (p : Envelope → Bool) (env : Envelope) (rest : List Envelope) (st : State g S)
      → st.node.retry ≡ sending (env ∷ rest)
      → count p (held (resend_one env rest st)) ≡ count p (held st)
  unfolding resend_one set_retry
  resend_one-count p env rest st r = elim (Option-cases st.node.client) [
    | inl root ↦ simp (root, resend_one) refl
    | inr (c, there) ↦
        let done = after_send-count p env st c in
        let t = after_send env st (Client.send_upstream g env c st.world) in
        simp (there, resend_one)
          (omega (
            arith,
            held-count p st,
            held-count p (set_retry (pausing rest) t),
            done.0,
            ap (λ h. count p (in_hand h)) r,
            count-append p (env ∷ []) rest,
          ))
  ]

  tick-count :
      (p : Envelope → Bool) (st : State g S) (r : Retry)
      → st.node.retry ≡ r
      → count p (held (tick r st)) ≡ count p (held st)
  unfolding tick
  tick-count p st waiting e = drain-count p st st.node.pending refl e
  tick-count p st (sending envs) e = refl
  tick-count p st (pausing envs) e = refl
  tick-count p st (stopped envs) e = refl

  -- Another state of the loop with the same envelopes in hand.
  set_retry-count :
      (p : Envelope → Bool) (st : State g S) (r : Retry)
      → in_hand st.node.retry ≡ in_hand r
      → count p (held (set_retry r st)) ≡ count p (held st)
  unfolding set_retry
  set_retry-count p st r e =
      omega (arith, held-count p st, held-count p (set_retry r st), ap (count p) e)

  resend-count :
      (p : Envelope → Bool) (st : State g S) (r : Retry)
      → st.node.retry ≡ r
      → count p (held (resend r st)) ≡ count p (held st)
  unfolding resend
  resend-count p st (sending []) e = set_retry-count p st waiting (ap in_hand e)
  resend-count p st (sending (env ∷ rest)) e = resend_one-count p env rest st e
  resend-count p st waiting e = refl
  resend-count p st (pausing envs) e = refl
  resend-count p st (stopped envs) e = refl

  pace-count :
      (p : Envelope → Bool) (st : State g S) (r : Retry)
      → st.node.retry ≡ r
      → count p (held (pace r st)) ≡ count p (held st)
  unfolding pace
  pace-count p st (pausing []) e = set_retry-count p st waiting (ap in_hand e)
  pace-count p st (pausing (env ∷ rest)) e =
      set_retry-count p st (sending (env ∷ rest)) (ap in_hand e)
  pace-count p st waiting e = refl
  pace-count p st (sending envs) e = refl
  pace-count p st (stopped envs) e = refl

  cancel-count :
      (p : Envelope → Bool) (st : State g S) (r : Retry)
      → st.node.retry ≡ r
      → count p (held (cancel r st)) ≡ count p (held st)
  unfolding cancel
  cancel-count p st waiting e = set_retry-count p st (stopped []) (ap in_hand e)
  cancel-count p st (pausing envs) e = set_retry-count p st (stopped envs) (ap in_hand e)
  cancel-count p st (sending envs) e = refl
  cancel-count p st (stopped envs) e = refl

  rebroadcast-held : (env : Envelope) (st : State g S) → held (rebroadcast env st) ≡ held st
  unfolding rebroadcast
  rebroadcast-held env st = elim (Option-cases st.node.server) [
    | inl leaf ↦ simp (leaf, rebroadcast) refl
    | inr (s, there) ↦ simp (there, rebroadcast) refl
  ]

  pub step-count :
      (p : Envelope → Bool) (st : State g S) (e : Event)
      → count p (held (step st e)) ≡ count p (held st) + count p (accepted st e)
  unfolding step send_up handle_upstream_from_child handle_downstream_from_parent
      run_upstream_handlers run_downstream_handlers
  step-count p st (sends_up now kind payload) =
      let env = new_envelope now st.node.config.id kind payload in
      forward_up-count p env (run_upstream_handlers env st)
  step-count p st (child_sends env) = forward_up-count p env (run_upstream_handlers env st)
  step-count p st (parent_sends env) =
      omega
        (arith, ap (count p) (rebroadcast-held env (run_downstream_handlers env st)), count-nil p)
  step-count p st ticks = omega (arith, tick-count p st st.node.retry refl, count-nil p)
  step-count p st resends = omega (arith, resend-count p st st.node.retry refl, count-nil p)
  step-count p st paces = omega (arith, pace-count p st st.node.retry refl, count-nil p)
  step-count p st cancels = omega (arith, cancel-count p st st.node.retry refl, count-nil p)

  -- Over any interleaving of local sends, envelopes from children and from the parent, and the
  -- steps of the retry loop, whatever the network answers: the envelopes handed to gRPC, those in
  -- the hands of the retry loop and those in the queue are together, as a multiset, those there
  -- were at the start and those that the node was given to forward. So none is lost or doubled by
  -- the queue; what the loop drops when its context is done is what it then had in hand.
  pub upstream_conserved :
      (p : Envelope → Bool) (st : State g S) (es : List Event)
      → count p (held (run st es)) ≡ count p (held st) + count p (accepted_over st es)
  unfolding run accepted_over
  upstream_conserved p st [] = omega (arith, count-nil p)
  upstream_conserved p st (e ∷ es) = omega (
    arith,
    upstream_conserved p (step st e) es,
    step-count p st e,
    count-append p (accepted st e) (accepted_over (step st e) es),
  )
