-- ===== src/Node/SetUp.antt =====
-- node/node.go: what no step of a node changes, its configuration, its handlers and whether it has a
-- parent.
use multi_region.Prelude.{
  ◌≡◌, refl, sym, ap, ◌∙◌, Bool, true, false, Option, none, some, List, [], ◌∷◌, Bytes,
  Option-cases, inl, inr,
}
use multi_region.Envelope.{Envelope}
use multi_region.Grpc.{Grpc}
use multi_region.Client.{Client}
use multi_region.Client
use multi_region.Node.{
  Node, State, Clock, Retry, waiting, sending, pausing, stopped, push, after_send, forward_up,
  send_up, send_down, send_to_child, run_upstream_handlers, run_downstream_handlers,
  handle_upstream_from_child, rebroadcast, handle_downstream_from_parent,
}
use multi_region.Node.Loop
use multi_region.Node.Loop.{
  Event, sends_up, child_sends, parent_sends, ticks, resends, paces, cancels, set_retry, drain,
  tick, resend_one, resend, pace, cancel,
}

abbrev pub has_parent : {g : Grpc} → Option (Client g) → Bool
has_parent none = false
has_parent (some c) = true

module _ {g : Grpc} {S : Type 0} where
  pub record SameSetUp (m n : Node g S) : Type 0 where
    pub config : m.config ≡ n.config
    pub ups : m.upstream_handlers ≡ n.upstream_handlers
    pub downs : m.downstream_handlers ≡ n.downstream_handlers
    pub parent : has_parent m.client ≡ has_parent n.client

  pub SameSetUp-itself : (n : Node g S) → SameSetUp n n
  SameSetUp-itself n = record { config = refl; ups = refl; downs = refl; parent = refl }

  pub SameSetUp-trans : {l m n : Node g S} → SameSetUp l m → SameSetUp m n → SameSetUp l n
  SameSetUp-trans p q = record {
    config = p.config ∙ q.config;
    ups = p.ups ∙ q.ups;
    downs = p.downs ∙ q.downs;
    parent = p.parent ∙ q.parent;
  }

  after_send-SameSetUp :
      (env : Envelope) (st : State g S) (r : Client g × g.World × Option Client.Error)
      → has_parent st.node.client ≡ true
      → SameSetUp (after_send env st r).node st.node
  unfolding after_send push
  after_send-SameSetUp env st (c, w, some e) h = record {
    config = refl;
    ups = refl;
    downs = refl;
    parent = sym h;
  }
  after_send-SameSetUp env st (c, w, none) h = record {
    config = refl;
    ups = refl;
    downs = refl;
    parent = sym h;
  }

  forward_up-SameSetUp :
      (env : Envelope) (st : State g S) → SameSetUp (forward_up env st).node st.node
  unfolding forward_up
  forward_up-SameSetUp env st = elim (Option-cases st.node.client) [
    | inl e ↦ simp (e, forward_up) (SameSetUp-itself st.node)
    | inr (c, e) ↦
        simp (e, forward_up)
          (after_send-SameSetUp env st (Client.send_upstream g env c st.world) (ap has_parent e))
  ]

  rebroadcast-SameSetUp :
      (env : Envelope) (st : State g S) → SameSetUp (rebroadcast env st).node st.node
  unfolding rebroadcast
  rebroadcast-SameSetUp env st = elim (Option-cases st.node.server) [
    | inl e ↦ simp (e, rebroadcast) (SameSetUp-itself st.node)
    | inr (s, e) ↦
        simp (e, rebroadcast) (record { config = refl; ups = refl; downs = refl; parent = refl })
  ]

  pub send_up-SameSetUp :
      (now : Clock) (kind payload : Bytes) (st : State g S)
      → SameSetUp (send_up now kind payload st).node st.node
  unfolding send_up run_upstream_handlers
  send_up-SameSetUp now kind payload st = forward_up-SameSetUp _ _

  pub send_down-SameSetUp :
      (now : Clock) (kind payload : Bytes) (n : Node g S)
      → SameSetUp (send_down now kind payload n).0 n
  unfolding send_down
  send_down-SameSetUp now kind payload n = elim (Option-cases n.server) [
    | inl e ↦ simp (e, send_down) (SameSetUp-itself n)
    | inr (s, e) ↦
        simp (e, send_down) (record { config = refl; ups = refl; downs = refl; parent = refl })
  ]

  pub send_to_child-SameSetUp :
      (now : Clock) (child_id kind payload : Bytes) (n : Node g S)
      → SameSetUp (send_to_child now child_id kind payload n).0 n
  unfolding send_to_child
  send_to_child-SameSetUp now child_id kind payload n = elim (Option-cases n.server) [
    | inl e ↦ simp (e, send_to_child) (SameSetUp-itself n)
    | inr (s, e) ↦
        simp (e, send_to_child) (record { config = refl; ups = refl; downs = refl; parent = refl })
  ]

  tick-SameSetUp : (r : Retry) (st : State g S) → SameSetUp (tick r st).node st.node
  unfolding tick
  tick-SameSetUp waiting st = drained st.node.pending
    where
      drained : (envs : List Envelope) → SameSetUp (drain envs st).node st.node
      drained [] = SameSetUp-itself st.node
      drained (env ∷ envs) = record { config = refl; ups = refl; downs = refl; parent = refl }
  tick-SameSetUp (sending envs) st = SameSetUp-itself st.node
  tick-SameSetUp (pausing envs) st = SameSetUp-itself st.node
  tick-SameSetUp (stopped envs) st = SameSetUp-itself st.node

  set_retry-SameSetUp : (r : Retry) (st : State g S) → SameSetUp (set_retry r st).node st.node
  unfolding set_retry
  set_retry-SameSetUp r st = record { config = refl; ups = refl; downs = refl; parent = refl }

  resend-SameSetUp : (r : Retry) (st : State g S) → SameSetUp (resend r st).node st.node
  unfolding resend resend_one
  resend-SameSetUp (sending []) st = set_retry-SameSetUp waiting st
  resend-SameSetUp (sending (env ∷ rest)) st = elim (Option-cases st.node.client) [
    | inl e ↦ simp (e, resend_one) (SameSetUp-itself st.node)
    | inr (c, e) ↦
        let r = Client.send_upstream g env c st.world in
        simp (e, resend_one)
          (SameSetUp-trans (set_retry-SameSetUp (pausing rest) (after_send env st r))
            (after_send-SameSetUp env st r (ap has_parent e)))
  ]
  resend-SameSetUp waiting st = SameSetUp-itself st.node
  resend-SameSetUp (pausing envs) st = SameSetUp-itself st.node
  resend-SameSetUp (stopped envs) st = SameSetUp-itself st.node

  pace-SameSetUp : (r : Retry) (st : State g S) → SameSetUp (pace r st).node st.node
  unfolding pace
  pace-SameSetUp (pausing []) st = set_retry-SameSetUp waiting st
  pace-SameSetUp (pausing (env ∷ rest)) st = set_retry-SameSetUp (sending (env ∷ rest)) st
  pace-SameSetUp waiting st = SameSetUp-itself st.node
  pace-SameSetUp (sending envs) st = SameSetUp-itself st.node
  pace-SameSetUp (stopped envs) st = SameSetUp-itself st.node

  cancel-SameSetUp : (r : Retry) (st : State g S) → SameSetUp (cancel r st).node st.node
  unfolding cancel
  cancel-SameSetUp waiting st = set_retry-SameSetUp (stopped []) st
  cancel-SameSetUp (pausing envs) st = set_retry-SameSetUp (stopped envs) st
  cancel-SameSetUp (sending envs) st = SameSetUp-itself st.node
  cancel-SameSetUp (stopped envs) st = SameSetUp-itself st.node

  pub step-SameSetUp : (st : State g S) (e : Event) → SameSetUp (Loop.step st e).node st.node
  unfolding Loop.step handle_upstream_from_child handle_downstream_from_parent run_upstream_handlers
      run_downstream_handlers
  step-SameSetUp st (sends_up now kind payload) = send_up-SameSetUp now kind payload st
  step-SameSetUp st (child_sends env) = forward_up-SameSetUp env (run_upstream_handlers env st)
  step-SameSetUp st (parent_sends env) = rebroadcast-SameSetUp env (run_downstream_handlers env st)
  step-SameSetUp st ticks = tick-SameSetUp st.node.retry st
  step-SameSetUp st resends = resend-SameSetUp st.node.retry st
  step-SameSetUp st paces = pace-SameSetUp st.node.retry st
  step-SameSetUp st cancels = cancel-SameSetUp st.node.retry st
