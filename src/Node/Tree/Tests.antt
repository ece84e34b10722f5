-- ===== src/Node/Tree/Tests.antt =====
-- node/node.go: a root with a branch, which has two leaves.
use multi_region.Prelude.{
  ◌<◌, length, insert, delete, ℕ, ◌+◌, ◌≡◌, refl, sym, ap, ◌∙◌, subst, arith, get_or, beq, Option,
  none, some, List, [], ◌∷◌, Bytes, str, lookup, IsSublist, IsSublist-none,
}
use multi_region.Envelope.{Envelope}
use multi_region.Metrics.{no_server_metrics}
use multi_region.Grpc.Wire.{wire, down}
use multi_region.Server.{
  Context, Server, noop_authorize_child, broadcast_downstream, broadcast_loop, broadcast_one, offer,
  broadcast_error, register_child, unregister_child, authorize, clear_rejection,
}
use multi_region.Server.Hub.{enter_downstream, leave_downstream}
use multi_region.Server.Listed.{IsWired}
use multi_region.Node.{
  new_envelope, handle_downstream_from_parent, waiting, rebroadcast, run_downstream_handlers,
  send_down,
}
use multi_region.Node.Tree.{
  Member, Tree, tree, end, branch, TreeEvent, pushes, delivers, leaves, joins, tree_run, tree_step,
  push_at, push, at_node, put_server, gone, end_call, hang_up, begin_call, call_again, admitted,
  serve, hand_over, waiting_in, take_first, receive_at, receive, count_received,
}
use multi_region.Node.Tree.Edges.{IsEdge}
use multi_region.Node.Tree.Ordered.{member_of, IsUnused, IsOrdered}
use multi_region.Node.Tree.Fresh.{IsFresh, fresh-IsOrdered}
use multi_region.Node.Tree.Reach.{Everywhere, IsQuiet, tree_in_order, tree_complete}
use multi_region.Node.Tests.{noon, joined}

-- A server with these children, each with a channel of its own.
abbrev serving : List (Bytes × ℕ) → List (List Envelope) → Server ℕ
serving children channels = record {
  authorize_child = noop_authorize_child;
  children = children;
  anon_seq = 0;
  pending = [];
  channels = channels;
  metrics = no_server_metrics;
}

abbrev member : Option (Server ℕ) → Member wire ℕ
member s = record {
  state = record {
    node = record {
      config = record {
        id = str "branch";
        listen_addr = str ":50052";
        resolver = some (λ w. some (str "parent:50051"));
        authn = none;
        authorize_child = none;
      };
      server = s;
      client = some joined;
      upstream_handlers = [];
      downstream_handlers = (str "config", (λ env k. k + 1) ∷ []) ∷ [];
      pending = [];
      retry = waiting;
    };
    service = 0;
    world = down;
  };
  given = [];
}

abbrev top : Server ℕ
top = serving ((str "b", 0) ∷ []) ([] ∷ [])

abbrev middle : Server ℕ
middle = serving ((str "x", 0) ∷ (str "y", 1) ∷ []) ([] ∷ [] ∷ [])

abbrev town : Tree wire ℕ
town = tree (member (some top)) (
    branch (str "b") 0 0
      (tree (member (some middle)) (
        branch (str "x") 0 0 (tree (member none) end)
          (branch (str "y") 1 0 (tree (member none) end) end)))
      end)

abbrev news : List (TreeEvent wire)
news =
    pushes noon (str "config") (str "v1")
    ∷ delivers [] 0
    ∷ pushes noon (str "config") (str "v2")
    ∷ delivers (0 ∷ []) 1
    ∷ delivers [] 0
    ∷ delivers (0 ∷ []) 0
    ∷ delivers (0 ∷ []) 1
    ∷ delivers (0 ∷ []) 0
    ∷ []

fresh-IsEdge :
    (Steady : Type 0) (s : Server ℕ) (k : Bytes) (c : ℕ)
    → IsWired s
    → c < length s.channels
    → lookup k s.children ≡ some c
    → get_or s.channels c [] ≡ []
    → IsEdge Steady (member (some s)) k c []
fresh-IsEdge Steady s k c w i e empty = record {
  server = s;
  there = refl;
  wired = w;
  inside = i;
  listed = λ p. e;
  in_order = subst (λ q. IsSublist q []) (sym empty) (IsSublist-none []);
  whole = λ p z. empty;
}

top-IsWired : IsWired top
top-IsWired = record { within = (omega arith, tt); distinct = (refl, tt) }

middle-IsWired : IsWired middle
middle-IsWired = record { within = (omega arith, (omega arith, tt)); distinct = (refl, (refl, tt)) }

town-IsOrdered : (Steady : Type 0) → IsOrdered Steady town
unfolding IsOrdered IsUnused lookup beq
town-IsOrdered Steady = (
  fresh-IsEdge Steady top (str "b") 0 top-IsWired (omega arith) refl refl,
  tt,
  (
    fresh-IsEdge Steady middle (str "x") 0 middle-IsWired (omega arith) refl refl,
    (refl, refl, tt),
    tt,
    (fresh-IsEdge Steady middle (str "y") 1 middle-IsWired (omega arith) refl refl, tt, tt, tt),
  ),
  tt,
)

-- The branch's call ends between two pushes, and it calls again.
abbrev caller : Context
caller = record { node_ids = some (str "b" ∷ []); peer = none }

abbrev storm : List (TreeEvent wire)
storm =
    pushes noon (str "config") (str "v1")
    ∷ delivers [] 0
    ∷ leaves [] 0
    ∷ pushes noon (str "config") (str "v2")
    ∷ delivers (0 ∷ []) 0
    ∷ joins [] 0 caller 3 5
    ∷ pushes noon (str "config") (str "v3")
    ∷ delivers [] 0
    ∷ delivers (0 ∷ []) 0
    ∷ []

-- The same nodes before anyone has called.
abbrev village : Tree wire ℕ
village = tree (member (some (serving [] []))) (
    gone
      (tree (member (some (serving [] [])))
        (gone (tree (member none) end) (gone (tree (member none) end) end)))
      end)

village-IsFresh : IsFresh village
unfolding IsFresh
village-IsFresh =
    let nobody : (s : Server ℕ) × (some (serving [] []) ≡ some s) × (s.children ≡ []) =
      (serving [] [], refl, refl) in
    (refl, (nobody, (refl, (nobody, (refl, tt), (nobody, (refl, tt), tt))), tt))

tree_in_order_example :
    let t' = tree_run village (joins [] 0 caller 3 5 ∷ storm) in
    Everywhere (λ m. IsSublist m.given (member_of t').given) t'
tree_in_order_example =
    tree_in_order village (joins [] 0 caller 3 5 ∷ storm) (fresh-IsOrdered village village-IsFresh)

payloads : List Envelope → List Bytes
payloads [] = []
payloads (env ∷ envs) = env.payload ∷ payloads envs

first_child : Tree wire ℕ → List Bytes
unfolding payloads
first_child (tree m end) = []
first_child (tree m (branch k c stream t bs)) = payloads (member_of t).given
first_child (tree m (gone t bs)) = payloads (member_of t).given

-- The branch has missed what was pushed while it was away.
storm_misses : first_child (tree_run town storm) ≡ str "v1" ∷ str "v3" ∷ []
unfolding first_child tree_run tree_step push_at push at_node serve put_server hand_over waiting_in
    take_first end_call hang_up begin_call call_again admitted receive_at receive count_received
    handle_downstream_from_parent rebroadcast run_downstream_handlers send_down broadcast_downstream
    broadcast_loop broadcast_one offer broadcast_error register_child unregister_child lookup insert
    delete beq authorize clear_rejection enter_downstream leave_downstream new_envelope
storm_misses = refl

town-IsQuiet : IsQuiet (tree_run town news)
unfolding IsQuiet tree_run tree_step push_at push at_node serve put_server hand_over waiting_in
    take_first receive_at receive count_received handle_downstream_from_parent rebroadcast
    run_downstream_handlers send_down broadcast_downstream broadcast_loop broadcast_one offer
    broadcast_error
town-IsQuiet = (
  none_dropped _ refl,
  (refl, (none_dropped _ refl, (refl, ((λ s e. cc), tt), (refl, ((λ s e. cc), tt), tt))), tt),
)
  where
    dropped : Option (Server ℕ) → ℕ
    dropped none = 0
    dropped (some s) = s.metrics.dropped

    none_dropped :
        (o : Option (Server ℕ))
        → dropped o ≡ 0
        → (s : Server ℕ) → o ≡ some s
        → s.metrics.dropped ≡ 0
    none_dropped o z s e = sym (ap dropped e) ∙ z

tree_complete_example :
    let t' = tree_run town news in Everywhere (λ m. m.given ≡ (member_of t').given) t'
tree_complete_example =
    tree_complete town news (tt, (tt, (tt, (tt, (tt, (tt, (tt, (tt, tt)))))))) (town-IsOrdered Unit)
      town-IsQuiet
