-- ===== src/Node/Tree/Steps.antt =====
-- node/node.go: the steps of the calls in a tree of nodes keep them in order.
use multi_region.Prelude.{
  ℕ, zero, suc, ◌≡◌, ◌<◌, refl, sym, ◌∙◌, subst, some, List, [], ◌∷◌, length, get_or, Bytes,
}
use multi_region.Envelope.{Envelope}
use multi_region.Grpc.{Grpc}
use multi_region.Server.{Server}
use multi_region.Node.Tree.{
  Member, Tree, Branches, end, branch, gone, waiting_in, take_first, hang_up, hand_over, serve,
  end_call,
}
use multi_region.Node.Tree.Edges.{
  IsEdge, IsGone, Moves, still-Moves, fewer-Moves, spared-IsEdge, spared-IsGone, left-IsGone,
  taken-IsEdge,
}
use multi_region.Node.Tree.Calls.{take_first-server, take_first-Moves, hang_up-Moves}
use multi_region.Node.Tree.Ordered.{
  member_of, IsUnused, IsUnused-AllSpared, every-AllSpared, IsOrdered, AreOrdered,
  spared-AreOrdered, receive_at-IsOrdered,
}

module _ {g : Grpc} {S : Type 0} (Steady : Type 0) where
  -- The channel is one that the member's server has made.
  abbrev pub Made : ℕ → Member g S → Type 0
  Made d m = (s : Server S) → m.state.node.server ≡ some s → d < length s.channels

  -- A step of one of these calls that keeps them in order, and spares the channels of others.
  pub record IsStep (bs : Branches g S) (m : Member g S) (r : Member g S × Branches g S)
      : Type 0 where
    pub ordered : AreOrdered Steady r.0 r.1
    pub moves : Moves Steady (λ d. IsUnused d bs) m r.0
    pub unused : (d : ℕ) → Made d m → IsUnused d bs → IsUnused d r.1

  pub no-IsStep :
      (bs : Branches g S) (m : Member g S) → AreOrdered Steady m bs → IsStep bs m (m, bs)
  no-IsStep bs m o = record { ordered = o; moves = still-Moves _ m; unused = λ d i u. u }

  pub edge-Made :
      (m : Member g S) (k : Bytes) (c : ℕ) (got : List Envelope)
      → IsEdge Steady m k c got
      → Made c m
  edge-Made m k c got e s there =
      let same : e.server ≡ s = cc in subst (λ x. c < length x.channels) same e.inside

  -- The step of a later call, seen from an earlier one.
  pub past_branch :
      (k : Bytes) (c : ℕ) (stream : g.DownStream) (t : Tree g S) (bs : Branches g S)
      (m : Member g S) (r : Member g S × Branches g S)
      → IsEdge Steady m k c (member_of t).given
      → IsUnused c bs
      → IsOrdered Steady t
      → IsStep bs m r
      → IsStep (branch k c stream t bs) m (r.0, branch k c stream t r.1)
  unfolding IsOrdered IsUnused
  past_branch k c stream t bs m (m', bs') e free below h = record {
    ordered = (
      spared-IsEdge _ m m' k c (member_of t).given h.moves free e,
      h.unused c (edge-Made m k c (member_of t).given e) free,
      below,
      h.ordered,
    );
    moves = fewer-Moves (λ d u. u.2) h.moves;
    unused = λ d i u. (u.0, u.1, h.unused d i u.2);
  }

  pub past_gone :
      (t : Tree g S) (bs : Branches g S) (m : Member g S) (r : Member g S × Branches g S)
      → IsGone Steady m (member_of t).given
      → IsOrdered Steady t
      → IsStep bs m r
      → IsStep (gone t bs) m (r.0, gone t r.1)
  unfolding IsOrdered IsUnused
  past_gone t bs m (m', bs') e below h = record {
    ordered = (spared-IsGone _ m m' (member_of t).given h.moves e, below, h.ordered);
    moves = fewer-Moves (λ d u. u) h.moves;
    unused = λ d i u. h.unused d i u;
  }

  hand_over-IsStep :
      (k : Bytes) (c : ℕ) (stream : g.DownStream) (t : Tree g S) (bs : Branches g S)
      (m : Member g S)
      → AreOrdered Steady m (branch k c stream t bs)
      → let (m', t') = hand_over c stream (waiting_in c m) t m in
        IsStep (branch k c stream t bs) m (m', branch k c stream t' bs)
  unfolding IsOrdered hand_over waiting_in IsUnused
  hand_over-IsStep k c stream t bs m (e, free, below, others) = go (waiting_in c m) refl
    where
      front : waiting_in c m ≡ get_or e.server.channels c []
      front = rw (e.there, waiting_in)

      go :
          (q : List Envelope)
          → waiting_in c m ≡ q
          → let (m', t') = hand_over c stream q t m in
            IsStep (branch k c stream t bs) m (m', branch k c stream t' bs)
      go [] w = no-IsStep (branch k c stream t bs) m (e, free, below, others)
      go (env ∷ rest) w =
          let v = take_first-Moves c rest m e.server e.there in
          let (child, more) = receive_at-IsOrdered Steady stream env t below in
          let m' = take_first c rest m in
          record {
            ordered = (
              subst (IsEdge Steady m' k c) (sym more) (
                  taken-IsEdge env rest m m' k c (member_of t).given e (sym front ∙ w) v.same_given
                    (take_first-server c rest m e.server e.there)),
              free,
              child,
              spared-AreOrdered Steady _ m m' bs v (IsUnused-AllSpared c bs free) others,
            );
            moves = fewer-Moves (λ d u. u.1) v;
            unused = λ d i u. u;
          }

  pub serve-IsStep :
      (i : ℕ) (bs : Branches g S) (m : Member g S)
      → AreOrdered Steady m bs
      → IsStep bs m (serve i bs m)
  unfolding IsOrdered serve
  serve-IsStep i end m o = no-IsStep end m o
  serve-IsStep zero (branch k c stream t bs) m o = hand_over-IsStep k c stream t bs m o
  serve-IsStep zero (gone t bs) m o = no-IsStep (gone t bs) m o
  serve-IsStep (suc i) (branch k c stream t bs) m (e, free, below, others) =
      past_branch k c stream t bs m (serve i bs m) e free below (serve-IsStep i bs m others)
  serve-IsStep (suc i) (gone t bs) m (e, below, others) =
      past_gone t bs m (serve i bs m) e below (serve-IsStep i bs m others)

  pub end_call-IsStep :
      (Steady → ⊥)
      → (i : ℕ) (bs : Branches g S) (m : Member g S) → AreOrdered Steady m bs
      → IsStep bs m (end_call i bs m)
  unfolding IsOrdered end_call IsUnused
  end_call-IsStep unsteady i end m o = no-IsStep end m o
  end_call-IsStep unsteady zero (branch k c stream t bs) m (e, free, below, others) =
      let v = hang_up-Moves k m e.server unsteady e.there in
      record {
        ordered = (
          left-IsGone _ m (hang_up k m) k c (member_of t).given unsteady v e,
          below,
          spared-AreOrdered Steady _ m (hang_up k m) bs v (every-AllSpared bs) others,
        );
        moves = fewer-Moves (λ d u. tt) v;
        unused = λ d i u. u.2;
      }
  end_call-IsStep unsteady zero (gone t bs) m o = no-IsStep (gone t bs) m o
  end_call-IsStep unsteady (suc i) (branch k c stream t bs) m (e, free, below, others) =
      past_branch k c stream t bs m (end_call i bs m) e free below
        (end_call-IsStep unsteady i bs m others)
  end_call-IsStep unsteady (suc i) (gone t bs) m (e, below, others) =
      past_gone t bs m (end_call i bs m) e below (end_call-IsStep unsteady i bs m others)
