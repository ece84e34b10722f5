-- ===== src/Node/Link/Delivered.antt =====
-- node/node.go: what queued at a child while its parent could not be reached, once the parent can.
use multi_region.Prelude.{
  ℕ, zero, suc, ◌+◌, ◌≡◌, refl, sym, ap, ◌∙◌, subst, Bool, some, List, [], ◌∷◌, ◌++◌, length, drop,
  get_elem?-drop, none,
}
use mathlib.Core.List.{append-nil, append_assoc}
use multi_region.Envelope.{Envelope}
use multi_region.Grpc.{Grpc}
use multi_region.Client.{Client}
use multi_region.Server.{Context}
use multi_region.Server.Upstream.Handled.{run_over}
use multi_region.Node.{waiting}
use multi_region.Node.Loop
use multi_region.Node.Loop.{Event, ticks}
use multi_region.Node.Held.{count, held}
use multi_region.Node.Relay.{relayed, handle_all, from_child, from_child-relays}
use multi_region.Node.Retrying.{Reaches, rounds, retry_delivers}
use multi_region.Node.Link.{
  Link, LinkEvent, at_child, arrives, under_way, arrive, link_step, link_run,
}

-- The next envelopes reach the parent, this many of them.
unfoldable pub arrivals : ℕ → List LinkEvent
arrivals zero = []
arrivals (suc n) = arrives ∷ arrivals n

-- The child takes these steps, and then the envelopes arrive.
unfoldable pub child_first : List Event → List LinkEvent → List LinkEvent
child_first [] es = es
child_first (e ∷ before) es = at_child e ∷ child_first before es

-- The parent's handler does not look at the context of the call.
abbrev anyone : Context
anyone = record { node_ids = none; peer = none }

module _ {g h : Grpc} {S T : Type 0} where
  child_first-runs :
      (l : Link g h S T) (es : List Event) (after : List LinkEvent)
      → link_run l (child_first es after)
        ≡ link_run (record l { child = Loop.run l.child es }) after
  unfolding link_run link_step child_first Loop.run
  child_first-runs l [] after = refl
  child_first-runs l (e ∷ es) after = child_first-runs (link_step l (at_child e)) es after

  -- A link at which these have arrived, after the handlers of this parent.
  record IsThrough (envs : List Envelope) (l m : Link g h S T) : Type 0 where
    arrived_is : m.arrived ≡ l.arrived ++ envs
    parent_is : m.parent ≡ run_over from_child anyone envs l.parent
    child_is : m.child ≡ l.child
    lost_is : m.lost ≡ l.lost

  all_arrive :
      (envs : List Envelope) (l : Link g h S T)
      → under_way l ≡ envs
      → IsThrough envs l (link_run l (arrivals (length envs)))
  unfolding link_run arrivals run_over arrive link_step
  all_arrive [] l e = record {
    arrived_is = sym (append-nil l.arrived);
    parent_is = refl;
    child_is = refl;
    lost_is = refl;
  }
  all_arrive (env ∷ envs) l e =
      let next = get_elem?-drop l.passed (g.sent l.child.world) env envs e in
      let through = all_arrive envs (arrive (some env) l) next.1 in
      subst (λ x. IsThrough (env ∷ envs) l (link_run x (arrivals (length envs))))
        (ap (λ o. arrive o l) (sym next.0))
        (record {
          arrived_is = through.arrived_is ∙ append_assoc l.arrived (env ∷ []) envs;
          parent_is = through.parent_is;
          child_is = through.child_is;
          lost_is = through.lost_is;
        })

  -- If all that the child has handed to gRPC before is settled, its client can reach the parent and
  -- goes on reaching it, and its retry loop waits: a tick of the loop, one round of it for each
  -- queued envelope, and as many arrivals take the whole queue to the parent, in its order and once
  -- each, and leave the child's queue empty and nothing more lost. Each envelope has gone through the
  -- parent's handlers of its kind, in that order, and the parent holds each once for its own parent,
  -- if it has one.
  pub link_delivers :
      (p : Envelope → Bool) (Up : Client g → g.World → Type 0)
      → Reaches g Up
      → (l : Link g h S T) (c : Client g) → l.child.node.client ≡ some c
      → Up c l.child.world
      → l.child.node.retry ≡ waiting
      → l.passed ≡ length (g.sent l.child.world)
      → let queue = l.child.node.pending in
        let m =
          link_run l (child_first (ticks ∷ rounds (length queue)) (arrivals (length queue))) in
        (m.arrived ≡ l.arrived ++ queue)
        × (m.child.node.pending ≡ [])
        × (m.lost ≡ l.lost)
        × (m.parent.service ≡ handle_all l.parent.node.upstream_handlers queue l.parent.service)
        × (count p (held m.parent)
            ≡ count p (held l.parent) + count p (relayed l.parent.node.client queue))
  link_delivers p Up reaches l c there u r settled =
      let queue = l.child.node.pending in
      let (sent, empty, idle) = retry_delivers Up reaches l.child c there u r in
      let after = record l { child = Loop.run l.child (ticks ∷ rounds (length queue)) } in
      let through =
        all_arrive queue after (rw (sent, settled) (all_under_way (g.sent l.child.world) queue)) in
      let relays = from_child-relays p anyone queue l.parent in
      let runs = child_first-runs l (ticks ∷ rounds (length queue)) (arrivals (length queue)) in
      (
        ap (λ m. m.arrived) runs ∙ through.arrived_is,
        ap (λ m. m.child.node.pending) runs ∙ ap (λ t. t.node.pending) through.child_is ∙ empty,
        ap (λ m. m.lost) runs ∙ through.lost_is,
        ap (λ m. m.parent.service) runs ∙ ap (λ t. t.service) through.parent_is ∙ relays.1,
        ap (λ m. count p (held m.parent)) runs
            ∙ ap (λ t. count p (held t)) through.parent_is
            ∙ relays.0,
      )
    where
      all_under_way : (sent queue : List Envelope) → drop (length sent) (sent ++ queue) ≡ queue
      all_under_way [] queue = refl
      all_under_way (env ∷ sent) queue = all_under_way sent queue
