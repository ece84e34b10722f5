-- ===== src/Node/Relay.antt =====
-- transport/server.go, `Upstream`, with the handler that node/node.go gives it: a child's call at a
-- node. The server of the node is in its state; the handler never touches that field.
use multi_region.Prelude.{
  ℕ, ◌+◌, ◌≡◌, refl, ap, ◌∙◌, Bool, Option, none, some, List, [], ◌∷◌, arith, length, ◌≢◌, Map,
}
use multi_region.Envelope.{Envelope}
use multi_region.Grpc.{Grpc}
use multi_region.Client.{Client}
use multi_region.Server.{Server, Context, child_node_id}
use multi_region.Server.Upstream.{Recv, Outcome, upstream}
use multi_region.Server.Upstream.Handled.{messages, ending, run_over, accepting, upstream_handles}
use multi_region.Client
use multi_region.Node.{
  Handler, push, after_send, State, Node, handle_upstream_from_child, forward_up,
  run_upstream_handlers, run_handlers, handlers_of,
}
use multi_region.Node.Held.{count, count-append, count-nil, held, forwarded, forward_up-count}
use multi_region.Node.Handlers.{forward_up-service}

-- What is forwarded of some envelopes, if the node has a parent.
abbrev pub relayed : {g : Grpc} → Option (Client g) → List Envelope → List Envelope
relayed none envs = []
relayed (some c) envs = envs

pub none_relayed :
    {g : Grpc} (p : Envelope → Bool) (c : Option (Client g)) → count p (relayed c []) ≡ 0
none_relayed p none = count-nil p
none_relayed p (some c) = count-nil p

relayed-some :
    {g : Grpc} (c c' : Option (Client g)) (envs : List Envelope)
    → c ≢ none
    → c' ≢ none
    → relayed c envs ≡ relayed c' envs
relayed-some none c' envs h h' = absurd (h refl)
relayed-some (some c) none envs h h' = absurd (h' refl)
relayed-some (some c) (some c') envs h h' = refl

-- The handlers over some envelopes, in order.
unfoldable pub handle_all : {S : Type 0} → Map (List (Handler S)) → List Envelope → S → S
handle_all m [] s = s
handle_all m (env ∷ envs) s = handle_all m envs (run_handlers (handlers_of env.kind m) env s)

module _ {g : Grpc} {S : Type 0} where
  -- `handleUpstreamFromChild` as the server calls it; it always returns nil.
  abbrev pub from_child : Context → Envelope → State g S → State g S
  from_child ctx env st = handle_upstream_from_child env st

  put_server : Server S × State g S × Outcome → State g S × Outcome
  put_server (s, st, o) = (record st { node = record n { server = some s } }, o)
    where
      n : Node g S
      n = st.node

  -- A call of Upstream by a child, over the answers of its stream. A node without a server has no
  -- port that a child could call.
  pub serve_upstream : Context → ℕ → List Recv → State g S → State g S × Option Outcome
  unfolding put_server
  serve_upstream ctx now inputs st = elim st.node.server [
    | none ↦ (st, none)
    | some s ↦
        let (st', o) =
          put_server (upstream st.service (accepting from_child) ctx now inputs s st) in
        (st', some o)
  ]

  after_send-keeps :
      (env : Envelope) (st : State g S) (r : Client g × g.World × Option Client.Error)
      → ((after_send env st r).node.upstream_handlers ≡ st.node.upstream_handlers)
        × ((after_send env st r).node.client ≢ none)
  unfolding after_send push
  after_send-keeps env st (c, w, some e) = (refl, λ p. cc)
  after_send-keeps env st (c, w, none) = (refl, λ p. cc)

  abbrev Keeps : State g S → State g S → Type 0
  Keeps st t =
      (t.node.upstream_handlers ≡ st.node.upstream_handlers)
      × ((envs : List Envelope) → relayed t.node.client envs ≡ relayed st.node.client envs)

  from_child-Keeps :
      (ctx : Context) (env : Envelope) (st : State g S) → Keeps st (from_child ctx env st)
  unfolding handle_upstream_from_child run_upstream_handlers forward_up
  from_child-Keeps ctx env st = go st.node.client refl
    where
      st₁ : State g S
      st₁ = run_upstream_handlers env st

      go :
          (o : Option (Client g))
          → st.node.client ≡ o
          → Keeps st (elim o [
            | none ↦ st₁
            | some c ↦ after_send env st₁ (Client.send_upstream g env c st₁.world)
          ])
      go none e = (refl, λ envs. refl)
      go (some c) e =
          let kept = after_send-keeps env st₁ (Client.send_upstream g env c st₁.world) in
          (kept.0, λ envs. relayed-some _ _ envs kept.1 (λ q. cc))

  pub from_child-relays :
      (p : Envelope → Bool) (ctx : Context) (envs : List Envelope) (st : State g S)
      → let t = run_over from_child ctx envs st in
        (count p (held t) ≡ count p (held st) + count p (relayed st.node.client envs))
        × (t.service ≡ handle_all st.node.upstream_handlers envs st.service)
  unfolding run_over handle_all handle_upstream_from_child run_upstream_handlers
  from_child-relays p ctx [] st = (omega (arith, none_relayed p st.node.client), refl)
  from_child-relays p ctx (env ∷ envs) st =
      let t = from_child ctx env st in
      let rest = from_child-relays p ctx envs t in
      let kept = from_child-Keeps ctx env st in
      (
        omega (arith, rest.0, one st.node.client, first, ap (count p) (kept.1 envs)),
        rest.1
            ∙ ap (λ m. handle_all m envs t.service) kept.0
            ∙ ap (handle_all st.node.upstream_handlers envs)
                (forward_up-service env (run_upstream_handlers env st)),
      )
    where
      first :
          count p (held (from_child ctx env st))
          ≡ count p (held st) + count p (forwarded st.node.client env)
      first = forward_up-count p env (run_upstream_handlers env st)

      one :
          (c : Option (Client g))
          → count p (relayed c (env ∷ envs)) ≡ count p (forwarded c env) + count p (relayed c envs)
      one none = omega (arith, count-nil p)
      one (some c) = count-append p (env ∷ []) envs

  -- A call of Upstream by a child that the hook approves, at a node with a server, over all that its
  -- stream delivers: each message goes once and in order through the handlers of its kind; if the
  -- node has a parent each is then handed to gRPC or queued for it, once, and if it has none nothing
  -- is; and the messages are counted as received.
  pub upstream_relays :
      (p : Envelope → Bool) (ctx : Context) (now : ℕ) (inputs : List Recv) (st : State g S)
      (s : Server S)
      → st.node.server ≡ some s
      → s.authorize_child st.service ctx (child_node_id ctx) ≡ none
      → let (t, o) = serve_upstream ctx now inputs st in
        (o ≡ some (ending inputs))
        × (t.service ≡ handle_all st.node.upstream_handlers (messages inputs) st.service)
        × (count p (held t)
            ≡ count p (held st) + count p (relayed st.node.client (messages inputs)))
        × ((s' : Server S) × (t.node.server ≡ some s')
            × (s'.metrics.received ≡ s.metrics.received + length (messages inputs)))
  unfolding serve_upstream put_server
  upstream_relays p ctx now inputs st s there approved =
      let r = upstream st.service (accepting from_child) ctx now inputs s st in
      let law = upstream_handles from_child ctx st.service now inputs s st approved in
      let all = from_child-relays p ctx (messages inputs) st in
      let moved : serve_upstream ctx now inputs st ≡ ((put_server r).0, some (put_server r).1) =
        simp (there, serve_upstream) refl in
      let there' = ap (λ x. x.0.node.server) moved in
      (
        ap (λ x. x.1) moved ∙ ap some law.1,
        ap (λ x. x.0.service) moved ∙ ap (λ x. x.service) law.0 ∙ all.1,
        ap (λ x. count p (held x.0)) moved ∙ ap (λ x. count p (held x)) law.0 ∙ all.0,
        (r.0, there', law.2),
      )
