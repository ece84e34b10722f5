-- ===== src/Node/Tree/Calls.antt =====
-- transport/server.go: what a Downstream call that takes an envelope, returns or begins does to the
-- server of its node.
use multi_region.Prelude.{
  ℕ, ◌≡◌, ◌≤◌, refl, sym, ap, ◌∙◌, subst, false, ◌==◌, some, List, [], ◌∷◌, ◌++◌, length,
  length-set, length-append, get_or, set, Bytes, arith,
}
use mathlib.Core.List.{append-nil}
use multi_region.Envelope.{Envelope}
use multi_region.Grpc.{Grpc}
use multi_region.Server.{Server, Context, child_node_id, register_child, unregister_child}
use multi_region.Server
use multi_region.Server.Channels.{
  Within, AreDistinct, get_or-set, get_or-append_one, Within-mono, Within-insert, Within-delete,
  AreDistinct-insert, AreDistinct-delete,
}
use multi_region.Server.Pending.{authorize_lem}
use multi_region.Server.Hub.{enter_downstream, leave_downstream}
use multi_region.Server.Listed.{IsWired, rewrite-IsWired}
use multi_region.Node.Tree.{Member, put_server, take_first, hang_up}
use multi_region.Node.Tree.Edges.{IsEdge, IsGone, Moves}

get_or-length : {A : Type 0} (xs : List A) (d : A) → get_or xs (length xs) d ≡ d
get_or-length [] d = refl
get_or-length (x ∷ xs) d = get_or-length xs d

-- What a step that broadcasts nothing does to a server that is wired.
abbrev Rewires : {S : Type 0} → Type 0 → (ℕ → Type 0) → Server S → Server S → Type 0
Rewires Steady Spares s t =
    IsWired t
    × (length s.channels ≤ length t.channels)
    × (Steady → (t.children ≡ s.children) × (t.metrics.dropped ≡ s.metrics.dropped))
    × ((d : ℕ) → Spares d → get_or t.channels d [] ≡ get_or s.channels d [])

module _ {g : Grpc} {S : Type 0} where
  take_first-some :
      (c : ℕ) (rest : List Envelope) (m : Member g S) (s : Server S)
      → m.state.node.server ≡ some s
      → take_first c rest m ≡ put_server (record s { channels = set s.channels c rest }) m
  unfolding take_first
  take_first-some c rest m s there = simp (there, take_first) refl

  pub take_first-server :
      (c : ℕ) (rest : List Envelope) (m : Member g S) (s : Server S)
      → m.state.node.server ≡ some s
      → (take_first c rest m).state.node.server
        ≡ some (record s { channels = set s.channels c rest })
  unfolding put_server
  take_first-server c rest m s there =
      ap (λ x. x.state.node.server) (take_first-some c rest m s there)

  hang_up-some :
      (k : Bytes) (m : Member g S) (s : Server S)
      → m.state.node.server ≡ some s
      → hang_up k m ≡ put_server (leave_downstream (unregister_child k s)) m
  unfolding hang_up
  hang_up-some k m s there = simp (there, hang_up) refl

module _ {g : Grpc} {S : Type 0} {Steady : Type 0} where
  put_server-Moves :
      (Spares : ℕ → Type 0) (s t : Server S) (m : Member g S)
      → m.state.node.server ≡ some s
      → (IsWired s → Rewires Steady Spares s t)
      → Moves Steady Spares m (put_server t m)
  unfolding put_server
  put_server-Moves Spares s t m there change = record {
    same_given = refl;
    after = λ s' there' wired.
        let same : s ≡ s' = cc in
        let (wired', more, steady, kept) = change (subst IsWired (sym same) wired) in
        subst
          (λ x.
            (t' : Server S) × (some t ≡ some t')
            × IsWired t'
            × (length x.channels ≤ length t'.channels)
            × (Steady → (t'.children ≡ x.children) × (t'.metrics.dropped ≡ x.metrics.dropped))
            × ((d : ℕ) → Spares d → get_or t'.channels d [] ≡ get_or x.channels d []))
          same (t, refl, wired', more, steady, kept);
  }

  pub take_first-Moves :
      (c : ℕ) (rest : List Envelope) (m : Member g S) (s : Server S)
      → m.state.node.server ≡ some s
      → Moves Steady (λ d. (c == d) ≡ false) m (take_first c rest m)
  take_first-Moves c rest m s there =
      subst (Moves Steady (λ d. (c == d) ≡ false) m) (sym (take_first-some c rest m s there)) (
        put_server-Moves _ s (record s { channels = set s.channels c rest }) m there
          (λ wired. (
            rewrite-IsWired s c rest wired,
            omega (arith, length-set s.channels c rest),
            (λ p. (refl, refl)),
            λ d other. get_or-set s.channels c d rest [] ∙ rw other,
          )))

  pub hang_up-Moves :
      (k : Bytes) (m : Member g S) (s : Server S)
      → (Steady → ⊥)
      → m.state.node.server ≡ some s
      → Moves Steady (λ d. Unit) m (hang_up k m)
  unfolding leave_downstream unregister_child
  hang_up-Moves k m s unsteady there =
      subst (Moves Steady (λ d. Unit) m) (sym (hang_up-some k m s there)) (
        put_server-Moves _ s (leave_downstream (unregister_child k s)) m there (λ wired. (
          record {
            within = Within-delete (length s.channels) k s.children wired.within;
            distinct = AreDistinct-delete k s.children wired.distinct;
          },
          omega arith,
          (λ p. absurd (unsteady p)),
          λ d u. refl,
        )))

  -- The answer of `authorize` changes nothing of the channels.
  pub authorized-Moves :
      (service : S) (ctx : Context) (now : ℕ) (id : Bytes) (m : Member g S) (s : Server S)
      → m.state.node.server ≡ some s
      → Moves Steady (λ d. Unit) m (put_server (Server.authorize service ctx now id s).0 m)
  authorized-Moves service ctx now id m s there =
      let t = (Server.authorize service ctx now id s).0 in
      let same = (authorize_lem service ctx now id id s).3 in
      put_server-Moves _ s t m there (λ wired. (
        record {
          within =
              subst (λ n. Within n t.children) (ap length (sym same.channels))
                (subst (Within (length s.channels)) (sym same.children) wired.within);
          distinct = subst AreDistinct (sym same.children) wired.distinct;
        },
        omega (arith, ap length same.channels),
        (λ p. (same.children, same.dropped)),
        λ d u. ap (λ cs. get_or cs d []) same.channels,
      ))

  -- A child that has been let in gets a key and the next channel, which is empty.
  pub registered-Moves :
      (id : Bytes) (m : Member g S) (s : Server S)
      → (Steady → ⊥)
      → m.state.node.server ≡ some s
      → Moves Steady (λ d. Unit) m (put_server (enter_downstream (register_child id s).2) m)
  unfolding enter_downstream register_child
  registered-Moves id m s unsteady there =
      let (k, c, t) = register_child id s in
      let n = length s.channels in
      put_server-Moves _ s (enter_downstream t) m there (λ wired. (
        record {
          within =
              Within-insert (length t.channels) k n s.children
                (omega (arith, length-append s.channels ([] ∷ [])))
                (Within-mono n (length t.channels) s.children
                  (omega (arith, length-append s.channels ([] ∷ []))) wired.within);
          distinct = AreDistinct-insert k n s.children wired.within wired.distinct;
        },
        omega (arith, length-append s.channels ([] ∷ [])),
        (λ p. absurd (unsteady p)),
        λ d u. get_or-append_one s.channels [] d,
      ))

  -- Its call has given it nothing yet.
  pub registered-IsEdge :
      (id : Bytes) (m : Member g S) (got : List Envelope) (e : IsGone Steady m got)
      → let (k, c, t) = register_child id e.server in
        IsEdge Steady (put_server (enter_downstream t) m) k c got
  unfolding enter_downstream register_child put_server
  registered-IsEdge id m got e =
      let s = e.server in
      let (k, c, t) = register_child id s in
      let v = registered-Moves id m s e.unsteady e.there in
      let (t', there, wired, more, steady, same) = v.after s e.there e.wired in
      let found : enter_downstream t ≡ t' = cc in
      let empty : get_or (s.channels ++ [] ∷ []) c [] ≡ [] =
        get_or-append_one s.channels [] c ∙ get_or-length s.channels [] in
      record {
        server = enter_downstream t;
        there = refl;
        wired = subst IsWired (sym found) wired;
        inside = omega (arith, length-append s.channels ([] ∷ []));
        listed = λ p. absurd (e.unsteady p);
        in_order = rw (empty, append-nil got) e.in_order;
        whole = λ p z. absurd (e.unsteady p);
      }

  pub Moves-trans :
      (Spares : ℕ → Type 0) (l m n : Member g S)
      → Moves Steady Spares l m
      → Moves Steady Spares m n
      → Moves Steady Spares l n
  Moves-trans Spares l m n v w = record {
    same_given = w.same_given ∙ v.same_given;
    after = λ s there wired.
        let (t, there₁, wired₁, more₁, steady₁, same₁) = v.after s there wired in
        let (u, there₂, wired₂, more₂, steady₂, same₂) = w.after t there₁ wired₁ in
        (
          u,
          there₂,
          wired₂,
          omega (arith, more₁, more₂),
          (λ p. ((steady₂ p).0 ∙ (steady₁ p).0, (steady₂ p).1 ∙ (steady₁ p).1)),
          λ d h. same₂ d h ∙ same₁ d h,
        );
  }
