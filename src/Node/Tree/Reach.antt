-- ===== src/Node/Tree/Reach.antt =====
-- node/node.go: how far what is pushed at the root of a tree gets.
use multi_region.Prelude.{
  All, ◌≡◌, refl, sym, ap, ◌∙◌, some, List, [], ◌++◌, get_or, IsSublist, IsSublist-itself,
  IsSublist-trans, IsSublist-prefix,
}
use mathlib.Core.List.{append-nil}
use multi_region.Envelope.{Envelope}
use multi_region.Grpc.{Grpc}
use multi_region.Server.{Server}
use multi_region.Node.Tree.{
  Member, Tree, Branches, tree, end, branch, gone, TreeEvent, waiting_in, tree_run,
}
use multi_region.Node.Tree.Ordered.{member_of, IsOrdered, AreOrdered}
use multi_region.Node.Tree.Joins.{IsSteady, run-IsOrdered}

module _ {g : Grpc} {S : Type 0} where
  -- Every node of the tree has a property.
  unfoldable mutual
    pub Everywhere : (Member g S → Type 0) → Tree g S → Type 0
    Everywhere P (tree m bs) = P m × AllBelow P bs

    pub AllBelow : (Member g S → Type 0) → Branches g S → Type 0
    AllBelow P end = Unit
    AllBelow P (branch k c stream t bs) = Everywhere P t × AllBelow P bs
    AllBelow P (gone t bs) = Everywhere P t × AllBelow P bs

  -- No server has counted a drop, and nothing waits in the channel of a branch.
  unfoldable mutual
    pub IsQuiet : Tree g S → Type 0
    IsQuiet (tree m bs) =
        ((s : Server S) → m.state.node.server ≡ some s → s.metrics.dropped ≡ 0) × AreQuiet m bs

    pub AreQuiet : Member g S → Branches g S → Type 0
    AreQuiet m end = Unit
    AreQuiet m (branch k c stream t bs) = (waiting_in c m ≡ []) × IsQuiet t × AreQuiet m bs
    AreQuiet m (gone t bs) = IsQuiet t × AreQuiet m bs

  mutual
    unfolding IsOrdered Everywhere

    Everywhere-IsSublist :
        (pushed : List Envelope) (t : Tree g S)
        → IsSublist (member_of t).given pushed
        → IsOrdered ⊥ t
        → Everywhere (λ m. IsSublist m.given pushed) t
    Everywhere-IsSublist pushed (tree m bs) h o = (h, AllBelow-IsSublist pushed m bs h o)

    AllBelow-IsSublist :
        (pushed : List Envelope) (m : Member g S) (bs : Branches g S)
        → IsSublist m.given pushed
        → AreOrdered ⊥ m bs
        → AllBelow (λ m. IsSublist m.given pushed) bs
    AllBelow-IsSublist pushed m end h o = tt
    AllBelow-IsSublist pushed m (branch k c stream t bs) h (e, free, below, others) =
        let got = (member_of t).given in
        (
          Everywhere-IsSublist pushed t
              (IsSublist-trans h got
                (IsSublist-prefix got (get_or e.server.channels c []) e.in_order))
              below,
          AllBelow-IsSublist pushed m bs h others,
        )
    AllBelow-IsSublist pushed m (gone t bs) h (e, below, others) = (
      Everywhere-IsSublist pushed t (IsSublist-trans h (member_of t).given e.in_order) below,
      AllBelow-IsSublist pushed m bs h others,
    )

  -- Over any interleaving of pushes at the root with the steps of all Downstream calls, in which
  -- calls may end, lose what waits in their channel, and be made again, from a tree whose calls are in
  -- order, such as one in which nobody has called yet: each node, at any depth, has been given
  -- envelopes that the root was given, in the same order and each at most as often.
  pub tree_in_order :
      (t : Tree g S) (es : List (TreeEvent g))
      → IsOrdered ⊥ t
      → let t' = tree_run t es in Everywhere (λ m. IsSublist m.given (member_of t').given) t'
  tree_in_order t es o =
      Everywhere-IsSublist _ (tree_run t es) (IsSublist-itself _)
        (run-IsOrdered ⊥ t es (λ p. absurd p) o)

  mutual
    unfolding IsOrdered IsQuiet Everywhere waiting_in

    Everywhere-given :
        (pushed : List Envelope) (t : Tree g S)
        → (member_of t).given ≡ pushed
        → IsOrdered Unit t
        → IsQuiet t
        → Everywhere (λ m. m.given ≡ pushed) t
    Everywhere-given pushed (tree m bs) h o q = (h, AllBelow-given pushed m bs h q.0 o q.1)

    AllBelow-given :
        (pushed : List Envelope) (m : Member g S) (bs : Branches g S)
        → m.given ≡ pushed
        → ((s : Server S) → m.state.node.server ≡ some s → s.metrics.dropped ≡ 0)
        → AreOrdered Unit m bs
        → AreQuiet m bs
        → AllBelow (λ m. m.given ≡ pushed) bs
    AllBelow-given pushed m end h z o q = tt
    AllBelow-given pushed m (branch k c stream t bs) h z (e, free, below, others) q =
        let got = (member_of t).given in
        let empty : get_or e.server.channels c [] ≡ [] = sym (rw (e.there, waiting_in)) ∙ q.0 in
        (
          Everywhere-given pushed t
              (sym (append-nil got)
                ∙ ap (λ w. got ++ w) (sym empty)
                ∙ e.whole tt (z e.server e.there)
                ∙ h)
              below q.1,
          AllBelow-given pushed m bs h z others q.2,
        )
    AllBelow-given pushed m (gone t bs) h z (e, below, others) q = absurd (e.unsteady tt)

  -- Over any interleaving of pushes at the root with the steps of the Downstream calls, in which no
  -- call ends or begins, from a tree whose calls are in order: if afterwards no server has ever counted
  -- a drop and the channels are empty, every node, at any depth, has been given exactly what the root
  -- was given, each once and in the same order.
  pub tree_complete :
      (t : Tree g S) (es : List (TreeEvent g))
      → All IsSteady es
      → IsOrdered Unit t
      → IsQuiet (tree_run t es)
      → let t' = tree_run t es in Everywhere (λ m. m.given ≡ (member_of t').given) t'
  tree_complete t es calm o q =
      Everywhere-given _ (tree_run t es) refl (run-IsOrdered Unit t es (λ p. calm) o) q
