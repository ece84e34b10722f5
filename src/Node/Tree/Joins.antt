-- ===== src/Node/Tree/Joins.antt =====
-- transport/server.go, `Downstream`: a child of a tree that calls again, and all steps of a tree.
use multi_region.Prelude.{
  ℕ, zero, suc, ◌≡◌, ◌<◌, ◌≤◌, refl, sym, ap, subst, Option, none, some, List, [], ◌∷◌, length,
  Bytes, All, arith,
}
use multi_region.Grpc.{Grpc}
use multi_region.Server.{Server, Context, child_node_id, register_child}
use multi_region.Server
use multi_region.Server.Listed.{IsWired}
use multi_region.Server.Pending.{authorize_lem}
use multi_region.Server.Hub.{enter_downstream}
use multi_region.Node.Tree.{
  Member, Tree, Branches, tree, end, branch, gone, TreeEvent, pushes, delivers, leaves, joins, push,
  put_server, serve, end_call, admitted, call_again, begin_call, at_node, at_branch, push_at,
  tree_step, tree_run,
}
use multi_region.Node.Tree.Edges.{IsEdge, IsGone, Moves, fewer-Moves, spared-IsGone}
use multi_region.Node.Tree.Calls.{
  authorized-Moves, registered-Moves, registered-IsEdge, Moves-trans,
}
use multi_region.Node.Tree.Ordered.{
  member_of, IsUnused, every-AllSpared, push-Broadcasts, IsOrdered, AreOrdered,
  broadcast-AreOrdered, spared-AreOrdered, next-IsUnused,
}
use multi_region.Node.Tree.Steps.{
  IsStep, no-IsStep, past_branch, past_gone, serve-IsStep, end_call-IsStep,
}

-- No call ends or begins.
abbrev pub IsSteady : {g : Grpc} → TreeEvent g → Type 0
IsSteady (pushes now kind payload) = Unit {0}
IsSteady (delivers path i) = Unit {0}
IsSteady (leaves path i) = ⊥
IsSteady (joins path i ctx now stream) = ⊥

module _ {g : Grpc} {S : Type 0} (Steady : Type 0) where
  admitted-IsStep :
      (id : Bytes) (stream : g.DownStream) (t : Tree g S) (bs : Branches g S) (m : Member g S)
      (s : Server S) (r : Server S × Option Server.Error)
      → m.state.node.server ≡ some s
      → length s.channels ≤ length r.0.channels
      → Moves Steady (λ d. Unit) m (put_server r.0 m)
      → AreOrdered Steady m (gone t bs)
      → IsStep Steady (gone t bs) m (admitted id stream t bs m r)
  unfolding IsOrdered IsUnused admitted put_server register_child
  admitted-IsStep id stream t bs m s (s', some err) there more v (e, below, others) =
      let m' = put_server s' m in
      record {
        ordered = (
          spared-IsGone _ m m' (member_of t).given v e,
          below,
          spared-AreOrdered Steady _ m m' bs v (every-AllSpared bs) others,
        );
        moves = fewer-Moves (λ d u. tt) v;
        unused = λ d i u. u;
      }
  admitted-IsStep id stream t bs m s (s', none) there more v (e, below, others) =
      let got = (member_of t).given in
      let m₁ = put_server s' m in
      let (key, c, s'') = register_child id s' in
      let m₂ = put_server (enter_downstream s'') m₁ in
      let kept = spared-IsGone _ m m₁ got v e in
      let found : kept.server ≡ s' = let same = kept.there in cc in
      let e₁ : IsGone Steady m₁ got = record {
        server = s';
        there = refl;
        wired = subst IsWired found kept.wired;
        unsteady = e.unsteady;
        in_order = kept.in_order;
      } in
      let others₁ = spared-AreOrdered Steady _ m m₁ bs v (every-AllSpared bs) others in
      let w = registered-Moves id m₁ s' e.unsteady refl in
      record {
        ordered = (
          registered-IsEdge id m₁ got e₁,
          next-IsUnused Steady m₁ s' bs refl others₁,
          below,
          spared-AreOrdered Steady _ m₁ m₂ bs w (every-AllSpared bs) others₁,
        );
        moves = fewer-Moves (λ d u. tt) (Moves-trans _ m m₁ m₂ v w);
        unused = λ d i u.
            let old : d < length s'.channels = omega (arith, i s there, more) in
            (ground arith, ground arith, u);
      }

  call_again-IsStep :
      (ctx : Context) (now : ℕ) (stream : g.DownStream) (t : Tree g S) (bs : Branches g S)
      (m : Member g S)
      → AreOrdered Steady m (gone t bs)
      → IsStep Steady (gone t bs) m (call_again ctx now stream t bs m)
  unfolding IsOrdered call_again
  call_again-IsStep ctx now stream t bs m (e, below, others) =
      let id = child_node_id ctx in
      let s = e.server in
      let answer = Server.authorize m.state.service ctx now id s in
      let same = (authorize_lem m.state.service ctx now id id s).3 in
      let calls : call_again ctx now stream t bs m ≡ admitted id stream t bs m answer =
        simp (e.there, call_again) refl in
      subst (IsStep Steady (gone t bs) m) (sym calls) (
        admitted-IsStep id stream t bs m s answer e.there (omega (arith, ap length same.channels))
          (authorized-Moves m.state.service ctx now id m s e.there) (e, below, others))

  begin_call-IsStep :
      (ctx : Context) (now : ℕ) (stream : g.DownStream) (i : ℕ) (bs : Branches g S) (m : Member g S)
      → AreOrdered Steady m bs
      → IsStep Steady bs m (begin_call ctx now stream i bs m)
  unfolding IsOrdered begin_call
  begin_call-IsStep ctx now stream i end m o = no-IsStep Steady end m o
  begin_call-IsStep ctx now stream zero (branch k c old t bs) m o =
      no-IsStep Steady (branch k c old t bs) m o
  begin_call-IsStep ctx now stream zero (gone t bs) m o = call_again-IsStep ctx now stream t bs m o
  begin_call-IsStep ctx now stream (suc i) (branch k c old t bs) m (e, free, below, others) =
      past_branch Steady k c old t bs m (begin_call ctx now stream i bs m) e free below
        (begin_call-IsStep ctx now stream i bs m others)
  begin_call-IsStep ctx now stream (suc i) (gone t bs) m (e, below, others) =
      past_gone Steady t bs m (begin_call ctx now stream i bs m) e below
        (begin_call-IsStep ctx now stream i bs m others)

  -- What a step of a node keeps, so does the tree.
  abbrev Steps : (Branches g S → Member g S → Member g S × Branches g S) → Type 0
  Steps f =
      (bs : Branches g S) (m : Member g S) → AreOrdered Steady m bs → IsStep Steady bs m (f bs m)

  mutual
    unfolding IsOrdered IsUnused at_node

    at_node-IsOrdered :
        (f : Branches g S → Member g S → Member g S × Branches g S)
        → Steps f
        → (path : List ℕ) (t : Tree g S) → IsOrdered Steady t
        → IsOrdered Steady (at_node f path t)
          × ((member_of (at_node f path t)).given ≡ (member_of t).given)
    at_node-IsOrdered f step [] (tree m bs) o =
        let h = step bs m o in (h.ordered, h.moves.same_given)
    at_node-IsOrdered f step (j ∷ path) (tree m bs) o =
        ((at_branch-AreOrdered f step j path m bs o).0, refl)

    at_branch-AreOrdered :
        (f : Branches g S → Member g S → Member g S × Branches g S)
        → Steps f
        → (j : ℕ) (path : List ℕ) (m : Member g S) (bs : Branches g S) → AreOrdered Steady m bs
        → AreOrdered Steady m (at_branch f j path bs)
          × ((d : ℕ) → IsUnused d bs → IsUnused d (at_branch f j path bs))
    at_branch-AreOrdered f step j path m end o = (tt, λ d u. u)
    at_branch-AreOrdered f step zero path m (branch k c stream t bs) (e, free, below, others) =
        let (child, same) = at_node-IsOrdered f step path t below in
        ((subst (IsEdge Steady m k c) (sym same) e, free, child, others), λ d u. u)
    at_branch-AreOrdered f step zero path m (gone t bs) (e, below, others) =
        let (child, same) = at_node-IsOrdered f step path t below in
        ((subst (IsGone Steady m) (sym same) e, child, others), λ d u. u)
    at_branch-AreOrdered f step (suc j) path m (branch k c stream t bs) (e, free, below, others) =
        let (rest, unused) = at_branch-AreOrdered f step j path m bs others in
        ((e, unused c free, below, rest), λ d u. (u.0, u.1, unused d u.2))
    at_branch-AreOrdered f step (suc j) path m (gone t bs) (e, below, others) =
        let (rest, unused) = at_branch-AreOrdered f step j path m bs others in
        ((e, below, rest), λ d u. unused d u)

  step-IsOrdered :
      (t : Tree g S) (e : TreeEvent g)
      → (Steady → IsSteady e)
      → IsOrdered Steady t
      → IsOrdered Steady (tree_step t e)
  unfolding IsOrdered tree_step push_at
  step-IsOrdered (tree m bs) (pushes now kind payload) calm o =
      broadcast-AreOrdered Steady _ m (push now kind payload m) bs
        (push-Broadcasts now kind payload m) o
  step-IsOrdered t (delivers path i) calm o =
      (at_node-IsOrdered (serve i) (serve-IsStep Steady i) path t o).0
  step-IsOrdered t (leaves path i) calm o =
      (at_node-IsOrdered (end_call i) (end_call-IsStep Steady calm i) path t o).0
  step-IsOrdered t (joins path i ctx now stream) calm o =
      (at_node-IsOrdered (begin_call ctx now stream i) (begin_call-IsStep ctx now stream i) path t
        o).0

  pub run-IsOrdered :
      (t : Tree g S) (es : List (TreeEvent g))
      → (Steady → All IsSteady es)
      → IsOrdered Steady t
      → IsOrdered Steady (tree_run t es)
  unfolding tree_run
  run-IsOrdered t [] calm o = o
  run-IsOrdered t (e ∷ es) calm o =
      run-IsOrdered (tree_step t e) es (λ p. (calm p).1) (step-IsOrdered t e (λ p. (calm p).0) o)
