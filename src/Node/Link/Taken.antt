-- ===== src/Node/Link/Taken.antt =====
-- node/node.go: what the parent makes of the envelopes that arrive.
use multi_region.Prelude.{
  ℕ, ◌+◌, ◌≡◌, refl, ap, ◌∙◌, Bool, Option, none, some, List, [], ◌∷◌, ◌++◌, get_elem?, arith,
}
use multi_region.Envelope.{Envelope}
use multi_region.Grpc.{Grpc}
use multi_region.Client.{Client}
use multi_region.Node.{State, new_envelope}
use multi_region.Node.Loop
use multi_region.Node.Loop.{
  Event, sends_up, child_sends, parent_sends, ticks, resends, paces, cancels,
}
use multi_region.Node.Held.{count, count-nil, count-append, held, forwarded, accepted}
use multi_region.Node.Delivery.{step-count}
use multi_region.Node.Relay.{relayed}
use multi_region.Node.SetUp.{
  SameSetUp, SameSetUp-itself, SameSetUp-trans, has_parent, step-SameSetUp,
}
use multi_region.Node.Link.{
  Link, LinkEvent, at_child, at_parent, arrives, breaks, arrive, link_step, link_run,
}

-- The steps of the parent among the events.
abbrev pub parent_events : List LinkEvent → List Event
parent_events [] = []
parent_events (at_child e ∷ es) = parent_events es
parent_events (at_parent e ∷ es) = e ∷ parent_events es
parent_events (arrives ∷ es) = parent_events es
parent_events (breaks ∷ es) = parent_events es

forwarded-same :
    {g : Grpc} (c c' : Option (Client g)) (env : Envelope)
    → has_parent c ≡ has_parent c'
    → forwarded c env ≡ forwarded c' env
forwarded-same none none env h = refl
forwarded-same none (some c') env h = cc
forwarded-same (some c) none env h = cc
forwarded-same (some c) (some c') env h = refl

relayed-snoc :
    {g : Grpc} (p : Envelope → Bool) (c : Option (Client g)) (envs : List Envelope) (env : Envelope)
    → count p (relayed c (envs ++ env ∷ [])) ≡ count p (relayed c envs) + count p (forwarded c env)
relayed-snoc p none envs env = omega (arith, count-nil p)
relayed-snoc p (some c) envs env = count-append p envs (env ∷ [])

module _ {g : Grpc} {S : Type 0} where
  -- What some steps of its own give a node to forward, by its configuration.
  abbrev pub given : State g S → List Event → List Envelope
  given st [] = []
  given st (e ∷ es) = accepted st e ++ given st es

  accepted-same :
      (st t : State g S) (e : Event) → SameSetUp t.node st.node → accepted t e ≡ accepted st e
  unfolding new_envelope
  accepted-same st t (sends_up now kind payload) h =
      forwarded-same t.node.client st.node.client (new_envelope now t.node.config.id kind payload)
        h.parent
      ∙ ap (λ id. forwarded st.node.client (new_envelope now id kind payload))
          (ap (λ c. c.id) h.config)
  accepted-same st t (child_sends env) h = forwarded-same t.node.client st.node.client env h.parent
  accepted-same st t (parent_sends env) h = refl
  accepted-same st t ticks h = refl
  accepted-same st t resends h = refl
  accepted-same st t paces h = refl
  accepted-same st t cancels h = refl

module _ {g h : Grpc} {S T : Type 0} (p : Envelope → Bool) (st : State h T) where
  -- What the parent holds, beside what has arrived; it is set up as it was in this state.
  record Takes (own : ℕ) (l m : Link g h S T) : Type 0 where
    set_up : SameSetUp m.parent.node st.node
    balance :
        count p (held m.parent) + count p (relayed st.node.client l.arrived)
        ≡ count p (held l.parent) + own + count p (relayed st.node.client m.arrived)

  at_parent-Takes :
      (l : Link g h S T) (e : Event)
      → SameSetUp l.parent.node st.node
      → Takes (count p (accepted st e)) l (link_step l (at_parent e))
  unfolding link_step
  at_parent-Takes l e same = record {
    set_up = SameSetUp-trans (step-SameSetUp l.parent e) same;
    balance =
        omega (arith, step-count p l.parent e, ap (count p) (accepted-same st l.parent e same));
  }

  arrive-Takes :
      (l : Link g h S T) (o : Option Envelope)
      → SameSetUp l.parent.node st.node
      → Takes 0 l (arrive o l)
  unfolding arrive Loop.step
  arrive-Takes l none same = record { set_up = same; balance = omega arith }
  arrive-Takes l (some env) same = record {
    set_up = SameSetUp-trans (step-SameSetUp l.parent (child_sends env)) same;
    balance = omega (
      arith,
      step-count p l.parent (child_sends env),
      ap (count p) (accepted-same st l.parent (child_sends env) same),
      relayed-snoc p st.node.client l.arrived env,
    );
  }

  run-Takes :
      (l : Link g h S T) (es : List LinkEvent)
      → SameSetUp l.parent.node st.node
      → Takes (count p (given st (parent_events es))) l (link_run l es)
  unfolding link_run link_step
  run-Takes l [] same = record { set_up = same; balance = omega (arith, count-nil p) }
  run-Takes l (at_child e ∷ es) same =
      let rest = run-Takes (link_step l (at_child e)) es same in
      record { set_up = rest.set_up; balance = rest.balance }
  run-Takes l (at_parent e ∷ es) same =
      let one = at_parent-Takes l e same in
      let rest = run-Takes (link_step l (at_parent e)) es one.set_up in
      record {
        set_up = rest.set_up;
        balance = omega (
          arith,
          one.balance,
          rest.balance,
          count-append p (accepted st e) (given st (parent_events es)),
        );
      }
  run-Takes l (arrives ∷ es) same =
      let one = arrive-Takes l (get_elem? (g.sent l.child.world) l.passed) same in
      let rest = run-Takes (link_step l arrives) es one.set_up in
      record { set_up = rest.set_up; balance = omega (arith, one.balance, rest.balance) }
  run-Takes l (breaks ∷ es) same =
      let rest = run-Takes (link_step l breaks) es same in
      record { set_up = rest.set_up; balance = rest.balance }

-- The parent holds what it held, what its own steps gave it, and what has arrived.
pub parent_takes :
    {g h : Grpc} {S T : Type 0} (p : Envelope → Bool) (l : Link g h S T) (es : List LinkEvent)
    → let m = link_run l es in
      count p (held m.parent) + count p (relayed l.parent.node.client l.arrived)
      ≡ count p (held l.parent)
        + count p (given l.parent (parent_events es))
        + count p (relayed l.parent.node.client m.arrived)
parent_takes p l es = (run-Takes p l.parent l es (SameSetUp-itself l.parent.node)).balance
