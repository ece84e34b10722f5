-- ===== src/Node/Tree/Ordered.antt =====
-- node/node.go: a tree of nodes whose calls are in order.
use multi_region.Prelude.{
  length, arith, ◌<◌, ℕ, ◌≡◌, refl, ap, ◌∙◌, subst, false, ◌==◌, some, [], ◌∷◌, ◌++◌, Bytes,
  Option-cases, inl, inr,
}
use multi_region.Envelope.{Envelope}
use multi_region.Grpc.{Grpc}
use multi_region.Server.{Server, broadcast_downstream}
use multi_region.Node.{
  State, Clock, new_envelope, handle_downstream_from_parent, rebroadcast, run_downstream_handlers,
}
use multi_region.Node.Handlers.{send_down-broadcasts}
use multi_region.Node.Tree.{
  Member, Tree, Branches, tree, end, branch, gone, push, count_received, receive, receive_at,
}
use multi_region.Node.Tree.Edges.{
  IsEdge, IsGone, Broadcasts, Moves, broadcast-IsEdge, broadcast-IsGone, spared-IsEdge,
  spared-IsGone,
}

module _ {g : Grpc} {S : Type 0} where
  abbrev pub member_of : Tree g S → Member g S
  member_of (tree m bs) = m

  -- No branch has this channel.
  unfoldable pub IsUnused : ℕ → Branches g S → Type 0
  IsUnused c end = Unit
  IsUnused c (branch k d stream t bs) = ((c == d) ≡ false) × ((d == c) ≡ false) × IsUnused c bs
  IsUnused c (gone t bs) = IsUnused c bs

  -- The channels of the branches are among these.
  unfoldable pub AllSpared : (ℕ → Type 0) → Branches g S → Type 0
  AllSpared Spares end = Unit
  AllSpared Spares (branch k c stream t bs) = Spares c × AllSpared Spares bs
  AllSpared Spares (gone t bs) = AllSpared Spares bs

  pub IsUnused-AllSpared :
      (c : ℕ) (bs : Branches g S) → IsUnused c bs → AllSpared (λ d. (c == d) ≡ false) bs
  unfolding IsUnused AllSpared
  IsUnused-AllSpared c end u = tt
  IsUnused-AllSpared c (branch k d stream t bs) u = (u.0, IsUnused-AllSpared c bs u.2)
  IsUnused-AllSpared c (gone t bs) u = IsUnused-AllSpared c bs u

  pub every-AllSpared : (bs : Branches g S) → AllSpared (λ d. Unit) bs
  unfolding AllSpared
  every-AllSpared end = tt
  every-AllSpared (branch k d stream t bs) = (tt, every-AllSpared bs)
  every-AllSpared (gone t bs) = every-AllSpared bs

  pub push-Broadcasts :
      (now : Clock) (kind payload : Bytes) (m : Member g S)
      → Broadcasts
          (new_envelope now m.state.node.config.id kind payload)
          m
          (push now kind payload m)
  unfolding push
  push-Broadcasts now kind payload m = (
    refl,
    λ s there. ap (λ r. r.0.server) (send_down-broadcasts now kind payload m.state.node s there),
  )

  count_received-server :
      (stream : g.DownStream) (env : Envelope) (st : State g S)
      → (count_received stream env st).node.server ≡ st.node.server
  unfolding count_received
  count_received-server stream env st = elim (Option-cases st.node.client) [
    | inl alone ↦ rw (alone, count_received)
    | inr (c, there) ↦ rw (there, count_received)
  ]

  handle_downstream-server :
      (env : Envelope) (st : State g S) (s : Server S)
      → st.node.server ≡ some s
      → (handle_downstream_from_parent env st).node.server ≡ some (broadcast_downstream env s).0
  unfolding handle_downstream_from_parent rebroadcast run_downstream_handlers
  handle_downstream-server env st s there =
      rw (there, handle_downstream_from_parent, rebroadcast, run_downstream_handlers)

  pub receive-Broadcasts :
      (stream : g.DownStream) (env : Envelope) (m : Member g S)
      → Broadcasts env m (receive stream env m)
  unfolding receive
  receive-Broadcasts stream env m = (
    refl,
    λ s there.
        handle_downstream-server env (count_received stream env m.state) s
          (count_received-server stream env m.state ∙ there),
  )

module _ {g : Grpc} {S : Type 0} (Steady : Type 0) where
  -- Every call in the tree is in order.
  unfoldable mutual
    pub IsOrdered : Tree g S → Type 0
    IsOrdered (tree m bs) = AreOrdered m bs

    pub AreOrdered : Member g S → Branches g S → Type 0
    AreOrdered m end = Unit
    AreOrdered m (branch k c stream t bs) =
        IsEdge Steady m k c (member_of t).given × IsUnused c bs × IsOrdered t × AreOrdered m bs
    AreOrdered m (gone t bs) = IsGone Steady m (member_of t).given × IsOrdered t × AreOrdered m bs

  pub broadcast-AreOrdered :
      (env : Envelope) (m m' : Member g S) (bs : Branches g S)
      → Broadcasts env m m'
      → AreOrdered m bs
      → AreOrdered m' bs
  unfolding IsOrdered
  broadcast-AreOrdered env m m' end b o = tt
  broadcast-AreOrdered env m m' (branch k c stream t bs) b (e, unused, below, others) = (
    broadcast-IsEdge env m m' k c (member_of t).given b e,
    unused,
    below,
    broadcast-AreOrdered env m m' bs b others,
  )
  broadcast-AreOrdered env m m' (gone t bs) b (e, below, others) = (
    broadcast-IsGone env m m' (member_of t).given b e,
    below,
    broadcast-AreOrdered env m m' bs b others,
  )

  pub spared-AreOrdered :
      (Spares : ℕ → Type 0) (m m' : Member g S) (bs : Branches g S)
      → Moves Steady Spares m m'
      → AllSpared Spares bs
      → AreOrdered m bs
      → AreOrdered m' bs
  unfolding IsOrdered AllSpared
  spared-AreOrdered Spares m m' end v u o = tt
  spared-AreOrdered Spares m m' (branch k c stream t bs) v u (e, unused, below, others) = (
    spared-IsEdge Spares m m' k c (member_of t).given v u.0 e,
    unused,
    below,
    spared-AreOrdered Spares m m' bs v u.1 others,
  )
  spared-AreOrdered Spares m m' (gone t bs) v u (e, below, others) = (
    spared-IsGone Spares m m' (member_of t).given v e,
    below,
    spared-AreOrdered Spares m m' bs v u others,
  )

  -- The next channel of the server is new.
  pub next-IsUnused :
      (m : Member g S) (s : Server S) (bs : Branches g S)
      → m.state.node.server ≡ some s
      → AreOrdered m bs
      → IsUnused (length s.channels) bs
  unfolding IsOrdered IsUnused
  next-IsUnused m s end there o = tt
  next-IsUnused m s (branch k c stream t bs) there (e, unused, below, others) =
      let same : e.server ≡ s = cc in
      let inside : c < length s.channels = subst (λ x. c < length x.channels) same e.inside in
      (ground arith, ground arith, next-IsUnused m s bs there others)
  next-IsUnused m s (gone t bs) there (e, below, others) = next-IsUnused m s bs there others

  pub receive_at-IsOrdered :
      (stream : g.DownStream) (env : Envelope) (t : Tree g S)
      → IsOrdered t
      → IsOrdered (receive_at stream env t)
        × ((member_of (receive_at stream env t)).given ≡ (member_of t).given ++ env ∷ [])
  unfolding IsOrdered receive_at
  receive_at-IsOrdered stream env (tree m bs) o =
      let b = receive-Broadcasts stream env m in
      (broadcast-AreOrdered env m (receive stream env m) bs b o, b.0)
