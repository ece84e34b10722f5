-- ===== src/Server/Hub/Preserve.antt =====
-- transport/server.go: every step of a server and its Downstream calls keeps the invariant.
use multi_region.Prelude.{
  ℕ, suc, ◌≤◌, ◌≡◌, refl, sym, subst, ap, ◌∙◌, inl, inr, Bool, true, false, Option, none, some,
  List, [], ◌∷◌, ◌++◌, if◌then◌else◌, length, length-append, length-set, length-remove_at,
  get_elem?, get_or, set, All-append, Bytes, lookup, insert, lookup-insert, lookup-delete, beq,
  beq_iff, arith, Option-cases, Bool-cases,
}
use multi_region.Envelope.{Envelope}
use multi_region.Server.{
  Server, Context, Error, authorize, child_node_id, child_key, register_child, unregister_child,
  set_authorize_child, new_server, channel_size,
}
use multi_region.Server.Channels.{
  Within, Within-mono, Within-insert, Within-delete, AreDistinct-insert, AreDistinct-delete,
}
use multi_region.Server.Pending.{IsSameButPending, authorize_lem}
use multi_region.Server.Hub.{
  Session, Hub, Event, connects, pumps, cancels, broadcasts, sends, sets_hook, connect, admit, join,
  leave, cancel, take_out, pump_session, pump, step, run, new_hub,
}
use multi_region.Server.Hub.Invariant.{
  Rising, Has, HubInv, Rising-append, Rising-remove_at, Has-append_left, Has-append_last,
  Has-remove_at, AreBounded-set, AreBounded-get_or,
}
use multi_region.Server.Hub.Unmoved.{broadcasts-HubInv, sends-HubInv, unchanged-HubInv}

module _ {S : Type 0} where
  join-HubInv : (node_id : Bytes) (h : Hub S) → HubInv h → HubInv (join node_id h.server h)
  unfolding join register_child
  join-HubInv node_id h v = record {
    bounded =
        All-append (λ (q : List Envelope). length q ≤ channel_size) h.server.channels ([] ∷ [])
          v.bounded (omega arith);
    sized = omega (
      arith,
      v.sized,
      length-append h.taken ([] ∷ []),
      length-append h.server.channels ([] ∷ []),
    );
    gauge = omega (arith, v.gauge, length-append h.sessions (joined ∷ []));
    rising =
        subst (Rising 0 (h.sessions ++ joined ∷ [])) grown
          (Rising-append 0 c key h.sessions v.rising);
    within =
        subst (λ n. Within n (insert key c h.server.children)) grown
          (Within-insert (suc c) key c h.server.children (omega arith)
            (Within-mono c (suc c) h.server.children (omega arith) v.within));
    distinct = AreDistinct-insert key c h.server.children v.within v.distinct;
    live = λ k d e. found k d (lookup-insert key k c h.server.children) e;
  }
    where
      key : Bytes
      key = (child_key node_id h.server).0

      c : ℕ
      c = length h.server.channels

      joined : Session
      joined = record { key = key; channel = c }

      grown : suc c ≡ length (h.server.channels ++ [] ∷ [])
      grown = omega (arith, length-append h.server.channels ([] ∷ []))

      found :
          (k : Bytes) (d : ℕ)
          → lookup k (insert key c h.server.children)
            ≡ (if beq key k then some c else lookup k h.server.children)
          → lookup k (insert key c h.server.children) ≡ some d
          → Has k d (h.sessions ++ joined ∷ [])
      found k d law e = elim (Bool-cases (beq key k)) [
        | inl same ↦
            let here = Has-append_last key c h.sessions in
            subst (λ x. Has x d (h.sessions ++ joined ∷ [])) ((beq_iff key k).0 same)
              (subst (λ x. Has key x (h.sessions ++ joined ∷ [])) (ground arith) here)
        | inr other ↦ Has-append_left k d h.sessions (joined ∷ []) (v.live k d (ground arith))
      ]

  connects-HubInv :
      (h : Hub S) (service : S) (ctx : Context) (now : ℕ)
      → HubInv h
      → HubInv (step h (connects service ctx now))
  unfolding step connect admit
  connects-HubInv h service ctx now v =
      go (authorize service ctx now (child_node_id ctx) h.server).0
        (authorize service ctx now (child_node_id ctx) h.server).1
        (authorize_lem service ctx now (child_node_id ctx) [] h.server).3
    where
      go :
          (s : Server S) (e : Option Error)
          → IsSameButPending h.server s
          → HubInv (admit (child_node_id ctx) h (s, e))
      go s (some e) same =
          unchanged-HubInv h s v same.children same.channels same.downstream_children
      go s none same =
          join-HubInv (child_node_id ctx) (record h { server = s })
            (unchanged-HubInv h s v same.children same.channels same.downstream_children)

  pub leave-HubInv :
      (i : ℕ) (x : Session) (h : Hub S)
      → get_elem? h.sessions i ≡ some x
      → HubInv h
      → HubInv (leave i x h)
  unfolding leave unregister_child
  leave-HubInv i x h e v = record {
    bounded = v.bounded;
    sized = v.sized;
    gauge = omega (arith, v.gauge, length-remove_at h.sessions i e);
    rising = Rising-remove_at 0 (length h.server.channels) i h.sessions v.rising;
    within = Within-delete (length h.server.channels) x.key h.server.children v.within;
    distinct = AreDistinct-delete x.key h.server.children v.distinct;
    live = λ k c p.
        let law = lookup-delete x.key k h.server.children in
        Has-remove_at k c i x h.sessions e (ground (arith, law)) (v.live k c (ground (arith, law)));
  }

  cancels-HubInv : (h : Hub S) (i : ℕ) → HubInv h → HubInv (step h (cancels i))
  unfolding step cancel
  cancels-HubInv h i v = elim (Option-cases (get_elem? h.sessions i)) [
    | inl missing ↦ rw (missing, cancel) v
    | inr (x, found) ↦ rw (found, cancel) (leave-HubInv i x h found v)
  ]

  pub take_out-HubInv :
      (x : Session) (env : Envelope) (rest : List Envelope) (h : Hub S)
      → get_or h.server.channels x.channel [] ≡ env ∷ rest
      → HubInv h
      → HubInv (take_out x env rest h)
  unfolding take_out
  take_out-HubInv x env rest h e v = record {
    bounded =
        AreBounded-set h.server.channels x.channel rest v.bounded
          (omega (arith, AreBounded-get_or h.server.channels x.channel v.bounded, ap length e));
    sized =
        length-set h.taken x.channel (get_or h.taken x.channel [] ++ env ∷ []) ∙ v.sized ∙ sym same;
    gauge = v.gauge;
    rising = subst (Rising 0 h.sessions) (sym same) v.rising;
    within = subst (λ n. Within n h.server.children) (sym same) v.within;
    distinct = v.distinct;
    live = v.live;
  }
    where
      same : length (set h.server.channels x.channel rest) ≡ length h.server.channels
      same = length-set h.server.channels x.channel rest

  pumps-HubInv : (h : Hub S) (i : ℕ) (sent : Bool) → HubInv h → HubInv (step h (pumps i sent))
  unfolding step pump
  pumps-HubInv h i sent v = elim (Option-cases (get_elem? h.sessions i)) [
    | inl missing ↦ rw (missing, pump) v
    | inr (x, found) ↦
        rw (found, pump) (go x found (get_or h.server.channels x.channel []) refl sent)
  ]
    where
      go :
          (x : Session)
          → get_elem? h.sessions i ≡ some x
          → (q : List Envelope) → get_or h.server.channels x.channel [] ≡ q
          → (sent : Bool) → HubInv (pump_session i sent x q h)
      go x found [] e sent = v
      go x found (env ∷ rest) e true = take_out-HubInv x env rest h e v
      go x found (env ∷ rest) e false =
          leave-HubInv i x (take_out x env rest h) found (take_out-HubInv x env rest h e v)

  -- Every step keeps the invariant.
  pub step-HubInv : (h : Hub S) (e : Event S) → HubInv h → HubInv (step h e)
  unfolding step set_authorize_child
  step-HubInv h (connects service ctx now) v = connects-HubInv h service ctx now v
  step-HubInv h (pumps i sent) v = pumps-HubInv h i sent v
  step-HubInv h (cancels i) v = cancels-HubInv h i v
  step-HubInv h (broadcasts env) v = broadcasts-HubInv h env v
  step-HubInv h (sends node_id env) v = sends-HubInv h node_id env v
  step-HubInv h (sets_hook none) v = unchanged-HubInv h _ v refl refl refl
  step-HubInv h (sets_hook (some hook)) v = unchanged-HubInv h _ v refl refl refl

  pub run-HubInv : (h : Hub S) (es : List (Event S)) → HubInv h → HubInv (run h es)
  unfolding run
  run-HubInv h [] v = v
  run-HubInv h (e ∷ es) v = run-HubInv (step h e) es (step-HubInv h e v)

  pub new_hub-HubInv : HubInv (new_hub {S = S})
  unfolding new_hub new_server lookup
  new_hub-HubInv = record {
    bounded = tt;
    sized = refl;
    gauge = refl;
    rising = omega arith;
    within = tt;
    distinct = tt;
    live = λ k c e. cc;
  }

  -- Whatever children connect, send, disconnect and are sent to, in any order: no channel ever
  -- holds more than 16 envelopes, the gauge of Downstream connections is the number of running
  -- calls, no two running calls share a channel, and each entry of the map of children belongs to
  -- a running call with that key and that channel.
  pub reachable-HubInv : (es : List (Event S)) → HubInv (run (new_hub {S = S}) es)
  reachable-HubInv es = run-HubInv new_hub es new_hub-HubInv
