-- ===== src/Node/Link/Tests.antt =====
-- node/node.go: a branch that reports to a root, and a leaf that reports to the branch.
use multi_region.Prelude.{ℕ, ◌+◌, ◌≡◌, refl, true, none, some, List, [], ◌∷◌, ◌++◌, length, str}
use multi_region.Metrics.{no_server_metrics}
use multi_region.Grpc.Wire.{wire}
use multi_region.Server.{Server, Context, noop_authorize_child}
use multi_region.Server.Upstream.{Recv, msg, eof}
use multi_region.Server.Upstream.Handled.{messages, ending}
use multi_region.Node.{State}
use multi_region.Node.Loop.{child_sends, sends_up, ticks, resends, paces}
use multi_region.Node.Held.{count, held, in_hand, accepted_over}
use multi_region.Node.Relay.{relayed, handle_all, serve_upstream, upstream_relays}
use multi_region.Node.Link.{
  Link, LinkEvent, at_child, at_parent, arrives, breaks, under_way, link_run, child_events,
}
use multi_region.Node.Link.Arrival.{link_conserved}
use multi_region.Node.Link.Taken.{given, parent_events}
use multi_region.Node.Retrying.{rounds}
use multi_region.Node.Link.Delivered.{arrivals, child_first, link_delivers}
use multi_region.Node.Tests.{report, branch, noon, back_again, joined, CanSend, CanSend-reaches}

abbrev linked : Link wire wire ℕ ℕ
linked = record { child = back_again; parent = branch; passed = 0; arrived = []; lost = [] }

-- A leaf reports to the branch; its report arrives, and a second one is lost on the way.
abbrev storm : List LinkEvent
storm =
    at_child (child_sends report)
    ∷ arrives
    ∷ at_parent (sends_up noon (str "log") (str "y"))
    ∷ at_child ticks
    ∷ at_child resends
    ∷ breaks
    ∷ at_child paces
    ∷ []

link_conserved_example :
    let m = link_run linked storm in
    (count (λ env. true) m.arrived
        + count (λ env. true) m.lost
        + count (λ env. true) (under_way m)
        + count (λ env. true) (in_hand m.child.node.retry)
        + count (λ env. true) m.child.node.pending
      ≡ count (λ env. true) (in_hand back_again.node.retry)
        + count (λ env. true) back_again.node.pending
        + count (λ env. true) (accepted_over back_again (child_events storm)))
    × (count (λ env. true) (held m.parent)
        ≡ count (λ env. true) (held branch)
          + count (λ env. true) (given branch (parent_events storm))
          + count (λ env. true) (relayed branch.node.client m.arrived))
link_conserved_example = link_conserved (λ env. true) linked storm refl refl refl

link_delivers_example :
    let m = link_run linked (child_first (ticks ∷ rounds 2) (arrivals 2)) in
    (m.arrived ≡ [] ++ (report ∷ report ∷ []))
    × (m.child.node.pending ≡ [])
    × (m.lost ≡ [])
    × (m.parent.service ≡ handle_all branch.node.upstream_handlers (report ∷ report ∷ []) 0)
    × (count (λ env. true) (held m.parent)
        ≡ count (λ env. true) (held branch)
          + count (λ env. true) (relayed branch.node.client (report ∷ report ∷ [])))
link_delivers_example =
    link_delivers (λ env. true) CanSend CanSend-reaches linked joined refl (refl, refl) refl refl

abbrev open_door : Server ℕ
open_door = record {
  authorize_child = noop_authorize_child;
  children = [];
  anon_seq = 0;
  pending = [];
  channels = [];
  metrics = no_server_metrics;
}

abbrev receiving_branch : State wire ℕ
receiving_branch = record branch { node = record branch.node { server = some open_door } }

abbrev two_reports : List Recv
two_reports = msg report ∷ msg report ∷ eof ∷ []

abbrev leaf_call : Context
leaf_call = record { node_ids = some (str "leaf-1" ∷ []); peer = none }

upstream_relays_example :
    let (t, o) = serve_upstream leaf_call 3 two_reports receiving_branch in
    (o ≡ some (ending two_reports))
    × (t.service
        ≡ handle_all receiving_branch.node.upstream_handlers
            (messages two_reports)
            receiving_branch.service)
    × (count (λ env. true) (held t)
        ≡ count (λ env. true) (held receiving_branch)
          + count (λ env. true) (relayed receiving_branch.node.client (messages two_reports)))
    × ((s' : Server ℕ) × (t.node.server ≡ some s')
        × (s'.metrics.received ≡ 0 + length (messages two_reports)))
upstream_relays_example =
    upstream_relays (λ env. true) leaf_call 3 two_reports receiving_branch open_door refl refl
