-- ===== src/Node/Tree/Fresh.antt =====
-- node/node.go: a tree whose nodes have started and whose children have not called yet.
use multi_region.Prelude.{◌≡◌, sym, subst, some, [], IsSublist, IsSublist-none}
use multi_region.Grpc.{Grpc}
use multi_region.Server.{Server}
use multi_region.Server.Channels.{Within, AreDistinct}
use multi_region.Server.Listed.{IsWired}
use multi_region.Prelude.{length}
use multi_region.Node.Tree.{Member, Tree, Branches, tree, end, branch, gone}
use multi_region.Node.Tree.Ordered.{member_of, IsOrdered, AreOrdered}

no_children-IsWired : {S : Type 0} (s : Server S) → s.children ≡ [] → IsWired s
no_children-IsWired s e = record {
  within = subst (Within (length s.channels)) (sym e) tt;
  distinct = subst AreDistinct (sym e) tt;
}

module _ {g : Grpc} {S : Type 0} where
  -- Each node that is to have children has a server without any, and no node was given anything.
  unfoldable mutual
    pub IsFresh : Tree g S → Type 0
    IsFresh (tree m bs) = (m.given ≡ []) × AreFresh m bs

    pub AreFresh : Member g S → Branches g S → Type 0
    AreFresh m end = Unit
    AreFresh m (branch k c stream t bs) = ⊥
    AreFresh m (gone t bs) =
        ((s : Server S) × (m.state.node.server ≡ some s) × (s.children ≡ []))
        × IsFresh t
        × AreFresh m bs

  mutual
    unfolding IsFresh IsOrdered

    pub fresh-IsOrdered : (t : Tree g S) → IsFresh t → IsOrdered ⊥ t
    fresh-IsOrdered (tree m bs) (none_given, fresh) = fresh-AreOrdered m bs fresh

    fresh-AreOrdered : (m : Member g S) (bs : Branches g S) → AreFresh m bs → AreOrdered ⊥ m bs
    fresh-AreOrdered m end f = tt
    fresh-AreOrdered m (branch k c stream t bs) f = absurd f
    fresh-AreOrdered m (gone t bs) ((s, there, empty), below, others) = (
      record {
        server = s;
        there = there;
        wired = no_children-IsWired s empty;
        unsteady = λ p. p;
        in_order =
            subst (λ q. IsSublist q m.given) (sym (nothing t below)) (IsSublist-none m.given);
      },
      fresh-IsOrdered t below,
      fresh-AreOrdered m bs others,
    )

    nothing : (t : Tree g S) → IsFresh t → (member_of t).given ≡ []
    nothing (tree m bs) f = f.0
