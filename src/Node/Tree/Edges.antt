-- ===== src/Node/Tree/Edges.antt =====
-- node/node.go and transport/server.go: one Downstream call of a node, and what steps of the node do
-- to it.
use multi_region.Prelude.{
  ℕ, ◌≡◌, ◌<◌, ◌≤◌, ◌⊎◌, inl, inr, refl, sym, ap, ◌∙◌, some, List, [], ◌∷◌, ◌++◌, get_or, set,
  Bytes, length, length-set, lookup, arith, IsSublist, IsSublist-append, IsSublist-append_right,
  IsSublist-prefix,
}
use mathlib.Core.List.{append-nil, append_assoc}
use multi_region.Envelope.{Envelope}
use multi_region.Grpc.{Grpc}
use multi_region.Server.{Server, broadcast_downstream}
use multi_region.Server.Channels.{get_or-set, get_or-inside}
use multi_region.Server.Broadcast.{broadcast-metrics}
use multi_region.Server.Listed.{
  IsWired, broadcast-IsWired, rewrite-IsWired, broadcast-channel, broadcast-listed,
}
use multi_region.Node.Tree.{Member}

-- In these sections `Steady` says that no call ends or begins.
module _ {g : Grpc} {S : Type 0} (Steady : Type 0) where
  -- The child has got, and its channel holds, envelopes that the node was given, in their order; and
  -- all of them, if no call ever ends and the server has never counted a drop.
  pub record IsEdge (m : Member g S) (k : Bytes) (c : ℕ) (got : List Envelope) : Type 0 where
    pub server : Server S
    pub there : m.state.node.server ≡ some server
    pub wired : IsWired server
    pub inside : c < length server.channels
    pub listed : Steady → lookup k server.children ≡ some c
    pub in_order : IsSublist (got ++ get_or server.channels c []) m.given
    pub whole : Steady → server.metrics.dropped ≡ 0 → got ++ get_or server.channels c [] ≡ m.given

  -- A child whose call has ended.
  pub record IsGone (m : Member g S) (got : List Envelope) : Type 0 where
    pub server : Server S
    pub there : m.state.node.server ≡ some server
    pub wired : IsWired server
    pub unsteady : Steady → ⊥
    pub in_order : IsSublist got m.given

-- The second member is the first after a broadcast of an envelope that it was given.
abbrev pub Broadcasts : {g : Grpc} {S : Type 0} → Envelope → Member g S → Member g S → Type 0
Broadcasts {g} {S} env m m' =
    (m'.given ≡ m.given ++ env ∷ [])
    × ((s : Server S)
        → m.state.node.server ≡ some s
        → m'.state.node.server ≡ some (broadcast_downstream env s).0)

module _ {g : Grpc} {S : Type 0} {Steady : Type 0} where
  pub broadcast-IsEdge :
      (env : Envelope) (m m' : Member g S) (k : Bytes) (c : ℕ) (got : List Envelope)
      → Broadcasts env m m'
      → IsEdge Steady m k c got
      → IsEdge Steady m' k c got
  broadcast-IsEdge env m m' k c got b e =
      let (taken, kept, what) = broadcast-channel env e.server e.wired c in
      let store = (broadcast-metrics env e.server).2.store in
      record {
        server = (broadcast_downstream env e.server).0;
        there = b.1 e.server e.there;
        wired = broadcast-IsWired env e.server e.wired;
        inside = omega (arith, store, e.inside);
        listed = λ p. ap (lookup k) (broadcast-metrics env e.server).2.children ∙ e.listed p;
        in_order = rw (later taken kept, b.0) (grown taken what);
        whole = λ p none_dropped.
            let (more, kept', what', all) =
              broadcast-listed env e.server e.wired k c (e.listed p) in
            let (same, before) = all none_dropped in
            later more kept'
            ∙ ap (λ q. (got ++ get_or e.server.channels c []) ++ q) same
            ∙ ap (λ q. q ++ env ∷ []) (e.whole p before)
            ∙ sym b.0;
      }
    where
      later :
          (taken : List Envelope)
          → get_or (broadcast_downstream env e.server).0.channels c []
            ≡ get_or e.server.channels c [] ++ taken
          → got ++ get_or (broadcast_downstream env e.server).0.channels c []
            ≡ (got ++ get_or e.server.channels c []) ++ taken
      later taken kept =
          ap (λ q. got ++ q) kept ∙ sym (append_assoc got (get_or e.server.channels c []) taken)

      grown :
          (taken : List Envelope)
          → (taken ≡ []) ⊎ (taken ≡ env ∷ [])
          → IsSublist ((got ++ get_or e.server.channels c []) ++ taken) (m.given ++ env ∷ [])
      grown taken (inl h) =
          rw (h, append-nil (got ++ get_or e.server.channels c []))
            (IsSublist-append_right (env ∷ []) e.in_order)
      grown taken (inr h) = rw h (IsSublist-append (env ∷ []) e.in_order)

  pub broadcast-IsGone :
      (env : Envelope) (m m' : Member g S) (got : List Envelope)
      → Broadcasts env m m'
      → IsGone Steady m got
      → IsGone Steady m' got
  broadcast-IsGone env m m' got b e = record {
    server = (broadcast_downstream env e.server).0;
    there = b.1 e.server e.there;
    wired = broadcast-IsWired env e.server e.wired;
    unsteady = e.unsteady;
    in_order = rw b.0 (IsSublist-append_right (env ∷ []) e.in_order);
  }

-- A step of a node that broadcasts nothing, and keeps what waits in these channels.
pub record Moves {g : Grpc} {S : Type 0} (Steady : Type 0) (Spares : ℕ → Type 0) (m m' : Member g S)
    : Type 0 where
  pub same_given : m'.given ≡ m.given
  pub after :
      (s : Server S)
      → m.state.node.server ≡ some s
      → IsWired s
      → (t : Server S) × (m'.state.node.server ≡ some t)
        × IsWired t
        × (length s.channels ≤ length t.channels)
        × (Steady → (t.children ≡ s.children) × (t.metrics.dropped ≡ s.metrics.dropped))
        × ((d : ℕ) → Spares d → get_or t.channels d [] ≡ get_or s.channels d [])

module _ {g : Grpc} {S : Type 0} {Steady : Type 0} where
  pub still-Moves : (Spares : ℕ → Type 0) (m : Member g S) → Moves Steady Spares m m
  still-Moves Spares m = record {
    same_given = refl;
    after = λ s there wired. (s, there, wired, omega arith, (λ p. (refl, refl)), λ d h. refl);
  }

  pub fewer-Moves :
      {Spares Fewer : ℕ → Type 0} {m m' : Member g S}
      → ((d : ℕ) → Fewer d → Spares d)
      → Moves Steady Spares m m'
      → Moves Steady Fewer m m'
  fewer-Moves h v = record {
    same_given = v.same_given;
    after = λ s there wired.
        let (t, there', wired', more, steady, same) = v.after s there wired in
        (t, there', wired', more, steady, λ d f. same d (h d f));
  }

  pub spared-IsEdge :
      (Spares : ℕ → Type 0) (m m' : Member g S) (k : Bytes) (c : ℕ) (got : List Envelope)
      → Moves Steady Spares m m'
      → Spares c
      → IsEdge Steady m k c got
      → IsEdge Steady m' k c got
  spared-IsEdge Spares m m' k c got v spared e =
      let (t, there, wired, more, steady, same) = v.after e.server e.there e.wired in
      let kept = same c spared in
      record {
        server = t;
        there = there;
        wired = wired;
        inside = omega (arith, more, e.inside);
        listed = λ p. ap (lookup k) (steady p).0 ∙ e.listed p;
        in_order = rw (kept, v.same_given) e.in_order;
        whole =
            λ p z. ap (λ q. got ++ q) kept ∙ e.whole p (sym (steady p).1 ∙ z) ∙ sym v.same_given;
      }

  pub spared-IsGone :
      (Spares : ℕ → Type 0) (m m' : Member g S) (got : List Envelope)
      → Moves Steady Spares m m'
      → IsGone Steady m got
      → IsGone Steady m' got
  spared-IsGone Spares m m' got v e =
      let (t, there, wired, more, steady, same) = v.after e.server e.there e.wired in
      record {
        server = t;
        there = there;
        wired = wired;
        unsteady = e.unsteady;
        in_order = rw v.same_given e.in_order;
      }

  -- A call that ends leaves a child that has got what it has.
  pub left-IsGone :
      (Spares : ℕ → Type 0) (m m' : Member g S) (k : Bytes) (c : ℕ) (got : List Envelope)
      → (Steady → ⊥)
      → Moves Steady Spares m m'
      → IsEdge Steady m k c got
      → IsGone Steady m' got
  left-IsGone Spares m m' k c got unsteady v e = spared-IsGone Spares m m' got v (record {
    server = e.server;
    there = e.there;
    wired = e.wired;
    unsteady = unsteady;
    in_order = IsSublist-prefix got (get_or e.server.channels c []) e.in_order;
  })

  -- The call that has taken an envelope out has one more that its child got.
  pub taken-IsEdge :
      (env : Envelope) (rest : List Envelope) (m m' : Member g S) (k : Bytes) (c : ℕ)
      (got : List Envelope) (e : IsEdge Steady m k c got)
      → get_or e.server.channels c [] ≡ env ∷ rest
      → m'.given ≡ m.given
      → m'.state.node.server ≡ some (record e.server { channels = set e.server.channels c rest })
      → IsEdge Steady m' k c (got ++ env ∷ [])
  taken-IsEdge env rest m m' k c got e front given there =
      let left : get_or (set e.server.channels c rest) c [] ≡ rest =
        get_or-set e.server.channels c c rest []
        ∙ ground (arith, get_or-inside e.server.channels c front) in
      let moved : (got ++ env ∷ []) ++ get_or (set e.server.channels c rest) c []
          ≡ got ++ get_or e.server.channels c [] =
        ap (λ q. (got ++ env ∷ []) ++ q) left
        ∙ append_assoc got (env ∷ []) rest
        ∙ ap (λ q. got ++ q) (sym front) in
      record {
        server = record s { channels = set s.channels c rest };
        there = there;
        wired = rewrite-IsWired e.server c rest e.wired;
        inside = omega (arith, length-set e.server.channels c rest, e.inside);
        listed = e.listed;
        in_order = rw (moved, given) e.in_order;
        whole = λ p z. moved ∙ e.whole p z ∙ sym given;
      }
    where
      s : Server S
      s = e.server
