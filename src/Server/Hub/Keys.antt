-- ===== src/Server/Hub/Keys.antt =====
-- transport/server.go: with node-ids that hold no "(", each Downstream call stays reachable under
-- its key.
use multi_region.Prelude.{
  ℕ, ◌≤◌, ◌≡◌, refl, sym, ap, ◌∙◌, subst, ◌≢◌, inl, inr, Bool, true, false, Option, none, some,
  List, [], ◌∷◌, length, length-append, length-remove_at, get_elem?, get_or, remove_at, All,
  All-append, All-map, All-map₂, All-remove_at, All-get_elem?, Bytes, Map, lookup, insert, delete,
  lookup-insert, lookup-delete, HasNodupKeys, HasNodupKeys-insert, HasNodupKeys-delete,
  length-insert_new, length-delete, beq_iff, beq_ne, arith, Option-cases,
}
use multi_region.Envelope.{Envelope}
use multi_region.Server.{
  Server, Context, Error, authorize, child_node_id, child_key, register_child, unregister_child,
  set_authorize_child, new_server, children_count,
}
use multi_region.Server.Broadcast.{broadcast-metrics}
use multi_region.Server.Pending.{IsSameButPending, authorize_lem}
use multi_region.Server.Keys.{has_paren, KeyForm, KeyForm-mono}
use multi_region.Server.Hub.{
  Session, Hub, Event, connects, pumps, cancels, broadcasts, sends, sets_hook, connect, admit, join,
  leave, cancel, take_out, pump_session, pump, step, run, new_hub,
}
use multi_region.Server.Hub.Invariant.{HubInv}
use multi_region.Server.Hub.Preserve.{step-HubInv, new_hub-HubInv, take_out-HubInv}
use multi_region.Server.Hub.Unmoved.{send-IsSameBut, unchanged-HubInv}
use multi_region.Server.Hub.Names.{
  KeysInv, IsPlain, child_key-KeyForm, child_key-fresh, child_key-new, others_differ,
}

module _ {S : Type 0} where
  join-KeysInv :
      (node_id : Bytes) (h : Hub S)
      → has_paren node_id ≡ false
      → HubInv h
      → KeysInv h
      → KeysInv (join node_id h.server h)
  unfolding join register_child
  join-KeysInv node_id h p v k = record {
    forms =
        All-append (λ (x : Session). KeyForm seq x.key) h.sessions (joined ∷ [])
          (All-map (λ (x : Session). KeyForm h.server.anon_seq x.key)
            (λ (x : Session). KeyForm seq x.key)
            (λ x f. KeyForm-mono h.server.anon_seq seq x.key form.1 f) h.sessions k.forms)
          (form.0, tt);
    reach =
        All-append (λ (x : Session). lookup x.key grown ≡ some x.channel) h.sessions (joined ∷ [])
          (All-map₂ (λ (x : Session). KeyForm h.server.anon_seq x.key)
            (λ (x : Session). lookup x.key h.server.children ≡ some x.channel) _
            (λ x f e.
              lookup-insert key x.key c h.server.children
              ∙ rw (beq_ne key x.key (child_key-fresh node_id h.server p x f e)) e)
            h.sessions k.forms k.reach)
          (ground (arith, lookup-insert key key c h.server.children, beq_iff key key), tt);
    nodup = HasNodupKeys-insert key c h.server.children k.nodup;
    count = omega (
      arith,
      k.count,
      length-append h.sessions (joined ∷ []),
      length-insert_new key c h.server.children new,
    );
  }
    where
      key : Bytes
      key = (child_key node_id h.server).0

      seq : ℕ
      seq = (child_key node_id h.server).1

      form : KeyForm seq key × (h.server.anon_seq ≤ seq)
      form = child_key-KeyForm node_id h.server p

      c : ℕ
      c = length h.server.channels

      grown : Map ℕ
      grown = insert key c h.server.children

      joined : Session
      joined = record { key = key; channel = c }

      new : lookup key h.server.children ≡ none
      new = elim (Option-cases (lookup key h.server.children)) [
        | inl free ↦ free
        | inr (d, taken) ↦
            absurd
              (child_key-new node_id h.server p h.sessions k.forms k.reach d (v.live key d taken))
      ]

  -- A server that differs in nothing the keys rest on.
  unchanged-KeysInv :
      (h : Hub S) (t : Server S)
      → KeysInv h
      → t.children ≡ h.server.children
      → t.anon_seq ≡ h.server.anon_seq
      → KeysInv (record h { server = t })
  unchanged-KeysInv h t k children seq = record {
    forms = subst (λ n. All (λ (x : Session). KeyForm n x.key) h.sessions) (sym seq) k.forms;
    reach =
        subst (λ m. All (λ (x : Session). lookup x.key m ≡ some x.channel) h.sessions)
          (sym children) k.reach;
    nodup = subst (λ m. HasNodupKeys m) (sym children) k.nodup;
    count = ap length children ∙ k.count;
  }

  connects-KeysInv :
      (h : Hub S) (service : S) (ctx : Context) (now : ℕ)
      → has_paren (child_node_id ctx) ≡ false
      → HubInv h
      → KeysInv h
      → KeysInv (step h (connects service ctx now))
  unfolding step connect admit
  connects-KeysInv h service ctx now p v k =
      go (authorize service ctx now (child_node_id ctx) h.server).0
        (authorize service ctx now (child_node_id ctx) h.server).1
        (authorize_lem service ctx now (child_node_id ctx) [] h.server).3
    where
      go :
          (s : Server S) (e : Option Error)
          → IsSameButPending h.server s
          → KeysInv (admit (child_node_id ctx) h (s, e))
      go s (some e) same = unchanged-KeysInv h s k same.children same.anon_seq
      go s none same =
          join-KeysInv (child_node_id ctx) (record h { server = s }) p
            (unchanged-HubInv h s v same.children same.channels same.downstream_children)
            (unchanged-KeysInv h s k same.children same.anon_seq)

  leave-KeysInv :
      (i : ℕ) (x : Session) (h : Hub S)
      → get_elem? h.sessions i ≡ some x
      → HubInv h
      → KeysInv h
      → KeysInv (leave i x h)
  unfolding leave unregister_child
  leave-KeysInv i x h e v k = record {
    forms = All-remove_at (λ (y : Session). KeyForm h.server.anon_seq y.key) h.sessions i k.forms;
    reach =
        All-map₂ (λ (y : Session). y.channel ≢ x.channel)
          (λ (y : Session). lookup y.key h.server.children ≡ some y.channel) _
          (λ y other here. kept y other here) (remove_at h.sessions i)
          (others_differ 0 (length h.server.channels) i x h.sessions v.rising e)
          (All-remove_at (λ (y : Session). lookup y.key h.server.children ≡ some y.channel)
            h.sessions i k.reach);
    nodup = HasNodupKeys-delete x.key h.server.children k.nodup;
    count = omega (
      arith,
      k.count,
      length-remove_at h.sessions i e,
      length-delete x.key x.channel h.server.children mine k.nodup,
    );
  }
    where
      mine : lookup x.key h.server.children ≡ some x.channel
      mine =
          All-get_elem? (λ (y : Session). lookup y.key h.server.children ≡ some y.channel)
            h.sessions i x e k.reach

      kept :
          (y : Session)
          → y.channel ≢ x.channel
          → lookup y.key h.server.children ≡ some y.channel
          → lookup y.key (delete x.key h.server.children) ≡ some y.channel
      kept y other here =
          ground (arith, mine, lookup-delete x.key y.key h.server.children, beq_iff x.key y.key)

  cancels-KeysInv : (h : Hub S) (i : ℕ) → HubInv h → KeysInv h → KeysInv (step h (cancels i))
  unfolding step cancel
  cancels-KeysInv h i v k = elim (Option-cases (get_elem? h.sessions i)) [
    | inl missing ↦ rw (missing, cancel) k
    | inr (x, found) ↦ rw (found, cancel) (leave-KeysInv i x h found v k)
  ]

  take_out-KeysInv :
      (x : Session) (env : Envelope) (rest : List Envelope) (h : Hub S)
      → KeysInv h
      → KeysInv (take_out x env rest h)
  unfolding take_out
  take_out-KeysInv x env rest h k = record {
    forms = k.forms;
    reach = k.reach;
    nodup = k.nodup;
    count = k.count;
  }

  pumps-KeysInv :
      (h : Hub S) (i : ℕ) (sent : Bool) → HubInv h → KeysInv h → KeysInv (step h (pumps i sent))
  unfolding step pump
  pumps-KeysInv h i sent v k = elim (Option-cases (get_elem? h.sessions i)) [
    | inl missing ↦ rw (missing, pump) k
    | inr (x, found) ↦
        rw (found, pump) (go x found (get_or h.server.channels x.channel []) refl sent)
  ]
    where
      go :
          (x : Session)
          → get_elem? h.sessions i ≡ some x
          → (q : List Envelope) → get_or h.server.channels x.channel [] ≡ q
          → (sent : Bool) → KeysInv (pump_session i sent x q h)
      go x found [] e sent = k
      go x found (env ∷ rest) e true = take_out-KeysInv x env rest h k
      go x found (env ∷ rest) e false =
          leave-KeysInv i x (take_out x env rest h) found (take_out-HubInv x env rest h e v)
            (take_out-KeysInv x env rest h k)

  step-KeysInv : (h : Hub S) (e : Event S) → IsPlain e → HubInv h → KeysInv h → KeysInv (step h e)
  unfolding step set_authorize_child
  step-KeysInv h (connects service ctx now) p v k = connects-KeysInv h service ctx now p v k
  step-KeysInv h (pumps i sent) p v k = pumps-KeysInv h i sent v k
  step-KeysInv h (cancels i) p v k = cancels-KeysInv h i v k
  step-KeysInv h (broadcasts env) p v k =
      let same = (broadcast-metrics env h.server).2 in
      unchanged-KeysInv h _ k same.children same.anon_seq
  step-KeysInv h (sends node_id env) p v k =
      let same = (send-IsSameBut node_id env h.server v.bounded).0 in
      unchanged-KeysInv h _ k same.children same.anon_seq
  step-KeysInv h (sets_hook none) p v k = unchanged-KeysInv h _ k refl refl
  step-KeysInv h (sets_hook (some hook)) p v k = unchanged-KeysInv h _ k refl refl

  run-KeysInv :
      (h : Hub S) (es : List (Event S)) → All IsPlain es → HubInv h → KeysInv h → KeysInv (run h es)
  unfolding run
  run-KeysInv h [] p v k = k
  run-KeysInv h (e ∷ es) p v k =
      run-KeysInv (step h e) es p.1 (step-HubInv h e v) (step-KeysInv h e p.0 v k)

  new_hub-KeysInv : KeysInv (new_hub {S = S})
  unfolding new_hub new_server
  new_hub-KeysInv = record { forms = tt; reach = tt; nodup = tt; count = refl }

  -- Over any interleaving in which no child claims a node-id with a "(": the key of each running
  -- Downstream call leads to that call's own channel, and `ChildrenCount` is the number of running
  -- calls.
  pub children_reachable :
      (es : List (Event S))
      → All IsPlain es
      → let h = run (new_hub {S = S}) es in
        All (λ (x : Session). lookup x.key h.server.children ≡ some x.channel) h.sessions
        × (children_count h.server ≡ length h.sessions)
  unfolding children_count
  children_reachable es p =
      let k = run-KeysInv new_hub es p new_hub-HubInv new_hub-KeysInv in (k.reach, k.count)
