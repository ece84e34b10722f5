-- ===== src/Node/Link/Arrival.antt =====
-- node/node.go: what becomes of the envelopes that a child accepts, up to its parent.
use multi_region.Prelude.{
  ℕ, suc, ◌+◌, ◌≤◌, ◌≡◌, refl, ap, ◌∙◌, Bool, Option, none, some, List, [], ◌∷◌, length,
  length-append, get_elem?, drop, drop-append, drop-get_elem?, drop-length, arith,
}
use multi_region.Envelope.{Envelope}
use multi_region.Grpc.{Grpc}
use multi_region.Node.Loop
use multi_region.Node.Loop.{
  Event, sends_up, child_sends, parent_sends, ticks, resends, paces, cancels, set_retry, drain,
  tick, resend_one, resend, pace, cancel,
}
use multi_region.Node.Held.{
  count, count-nil, count-append, held, held-count, in_hand, accepted_over,
}
use multi_region.Node.Delivery.{upstream_conserved}
use multi_region.Node.Link.{
  Link, LinkEvent, at_child, at_parent, arrives, breaks, under_way, arrive, link_step, link_run,
  child_events,
}
use multi_region.Node.Relay.{relayed, none_relayed}
use multi_region.Node.Link.Growth.{step-Extends}
use multi_region.Node.Link.Taken.{given, parent_events, parent_takes}

module _ {g h : Grpc} {S T : Type 0} where
  link_run-child :
      (l : Link g h S T) (es : List LinkEvent)
      → (link_run l es).child ≡ Loop.run l.child (child_events es)
  unfolding link_run link_step Loop.run
  link_run-child l [] = refl
  link_run-child l (at_child e ∷ es) = link_run-child (link_step l (at_child e)) es
  link_run-child l (at_parent e ∷ es) = link_run-child (link_step l (at_parent e)) es
  link_run-child l (arrives ∷ es) =
      link_run-child (link_step l arrives) es
      ∙ ap (λ c. Loop.run c (child_events es))
          (arrive-child (get_elem? (g.sent l.child.world) l.passed))
    where
      arrive-child : (o : Option Envelope) → (arrive o l).child ≡ l.child
      arrive-child none = refl
      arrive-child (some env) = refl
  link_run-child l (breaks ∷ es) = link_run-child (link_step l breaks) es

  -- What the child has handed over has arrived, is lost, is under way, or is older than the link.
  record IsSorted (p : Envelope → Bool) (old : ℕ) (l : Link g h S T) : Type 0 where
    in_range : l.passed ≤ length (g.sent l.child.world)
    all_there :
        count p (g.sent l.child.world)
        ≡ old + count p l.arrived + count p l.lost + count p (under_way l)

  arrive-IsSorted :
      (p : Envelope → Bool) (old : ℕ) (l : Link g h S T) (o : Option Envelope)
      → get_elem? (g.sent l.child.world) l.passed ≡ o
      → IsSorted p old l
      → IsSorted p old (arrive o l)
  unfolding arrive
  arrive-IsSorted p old l none e v = v
  arrive-IsSorted p old l (some env) e v =
      let next = drop-get_elem? l.passed (g.sent l.child.world) env e in
      record {
        in_range = next.1;
        all_there = omega (
          arith,
          v.all_there,
          ap (count p) next.0,
          count-append p l.arrived (env ∷ []),
          count-append p (env ∷ []) (drop (suc l.passed) (g.sent l.child.world)),
        );
      }

  step-IsSorted :
      (p : Envelope → Bool) (old : ℕ) (l : Link g h S T) (e : LinkEvent)
      → IsSorted p old l
      → IsSorted p old (link_step l e)
  unfolding link_step
  step-IsSorted p old l (at_child e) v =
      let (more, grown) = step-Extends l.child e in
      let later =
        ap (drop l.passed) grown ∙ drop-append l.passed (g.sent l.child.world) more v.in_range in
      record {
        in_range =
            omega (arith, v.in_range, ap length grown, length-append (g.sent l.child.world) more);
        all_there = omega (
          arith,
          v.all_there,
          ap (count p) grown,
          ap (count p) later,
          count-append p (g.sent l.child.world) more,
          count-append p (under_way l) more,
        );
      }
  step-IsSorted p old l (at_parent e) v = record { in_range = v.in_range; all_there = v.all_there }
  step-IsSorted p old l arrives v =
      arrive-IsSorted p old l (get_elem? (g.sent l.child.world) l.passed) refl v
  step-IsSorted p old l breaks v = record {
    in_range = omega arith;
    all_there = omega (
      arith,
      v.all_there,
      count-append p l.lost (under_way l),
      ap (count p) (drop-length (g.sent l.child.world)),
      count-nil p,
    );
  }

  run-IsSorted :
      (p : Envelope → Bool) (old : ℕ) (l : Link g h S T) (es : List LinkEvent)
      → IsSorted p old l
      → IsSorted p old (link_run l es)
  unfolding link_run
  run-IsSorted p old l [] v = v
  run-IsSorted p old l (e ∷ es) v =
      run-IsSorted p old (link_step l e) es (step-IsSorted p old l e v)

  -- From a link on which nothing is under way, over any interleaving of the two nodes, the arrivals
  -- and breaks of the stream, whatever the network answers: the envelopes that have arrived at the
  -- parent, those lost with a stream, those under way, those in the hands of the child's retry loop
  -- and those in its queue are together, as a multiset, those the child held at the start and those
  -- that it has accepted since. And what the parent has handed to its own parent, has in hand or has
  -- queued is what it held at the start, what its own steps gave it to forward and, if it has a
  -- parent, what has arrived.
  pub link_conserved :
      (p : Envelope → Bool) (l : Link g h S T) (es : List LinkEvent)
      → l.passed ≡ length (g.sent l.child.world)
      → l.arrived ≡ []
      → l.lost ≡ []
      → let m = link_run l es in
        (count p m.arrived
            + count p m.lost
            + count p (under_way m)
            + count p (in_hand m.child.node.retry)
            + count p m.child.node.pending
          ≡ count p (in_hand l.child.node.retry)
            + count p l.child.node.pending
            + count p (accepted_over l.child (child_events es)))
        × (count p (held m.parent)
            ≡ count p (held l.parent)
              + count p (given l.parent (parent_events es))
              + count p (relayed l.parent.node.client m.arrived))
  link_conserved p l es start none_arrived none_lost =
      let m = link_run l es in
      let begun : IsSorted p (count p (g.sent l.child.world)) l = record {
        in_range = omega (arith, start);
        all_there = omega (
          arith,
          ap (count p) none_arrived,
          ap (count p) none_lost,
          count-nil p,
          ap (λ n. count p (drop n (g.sent l.child.world))) start,
          ap (count p) (drop-length (g.sent l.child.world)),
        );
      } in
      let sorted = run-IsSorted p (count p (g.sent l.child.world)) l es begun in
      let same = ap (λ c. count p (held c)) (link_run-child l es) in
      (
        omega (
          arith,
          sorted.all_there,
          same,
          upstream_conserved p l.child (child_events es),
          held-count p m.child,
          held-count p l.child,
        ),
        omega (
          arith,
          parent_takes p l es,
          ap (λ envs. count p (relayed l.parent.node.client envs)) none_arrived,
          none_relayed p l.parent.node.client,
        ),
      )
