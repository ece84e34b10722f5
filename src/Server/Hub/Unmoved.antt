-- ===== src/Server/Hub/Unmoved.antt =====
-- transport/server.go: the steps of a server that no Downstream call takes part in keep the invariant.
use multi_region.Prelude.{
  ◌≡◌, sym, subst, ap, ◌∙◌, inl, inr, some, List, length, Bytes, lookup, arith, Option-cases,
}
use multi_region.Envelope.{Envelope}
use multi_region.Server.{Server, broadcast_downstream, send_to_child, offer}
use multi_region.Server.Channels.{Within, AreDistinct}
use multi_region.Server.Broadcast.{IsSameBut, none_yet, broadcast-metrics}
use multi_region.Server.Hub.{Hub, broadcasts, sends, step}
use multi_region.Server.Hub.Invariant.{
  Rising, AreBounded, HubInv, offer-AreBounded, loop-AreBounded,
}

module _ {S : Type 0} where
  -- A server whose channels hold other envelopes, and nothing else is new.
  refilled-HubInv :
      (h : Hub S) (t : Server S)
      → HubInv h
      → IsSameBut h.server t
      → AreBounded t.channels
      → HubInv (record h { server = t })
  refilled-HubInv h t v same b = record {
    bounded = b;
    sized = v.sized ∙ sym same.store;
    gauge = same.downstream_children ∙ v.gauge;
    rising = subst (Rising 0 h.sessions) (sym same.store) v.rising;
    within =
        subst (λ m. Within (length t.channels) m) (sym same.children)
          (subst (λ n. Within n h.server.children) (sym same.store) v.within);
    distinct = subst AreDistinct (sym same.children) v.distinct;
    live = λ k c e. v.live k c (subst (λ m. lookup k m ≡ some c) same.children e);
  }

  pub broadcasts-HubInv : (h : Hub S) (env : Envelope) → HubInv h → HubInv (step h (broadcasts env))
  unfolding step broadcast_downstream
  broadcasts-HubInv h env v =
      refilled-HubInv h (broadcast_downstream env h.server).0 v (broadcast-metrics env h.server).2
        (loop-AreBounded env h.server.children h.server none_yet v.bounded)

  pub send-IsSameBut :
      (node_id : Bytes) (env : Envelope) (s : Server S)
      → AreBounded s.channels
      → IsSameBut s (send_to_child node_id env s).0
        × AreBounded (send_to_child node_id env s).0.channels
  unfolding send_to_child
  send-IsSameBut node_id env s b = elim (Option-cases (lookup node_id s.children)) [
    | inl absent ↦ rw (absent, send_to_child) (ground arith, b)
    | inr (c, found) ↦ elim (Option-cases (offer s.channels c env)) [
      | inl full ↦ rw (found, send_to_child) (rw (full, send_to_child) (ground arith, b))
      | inr (qs, put) ↦
          let kept = offer-AreBounded s.channels c env b put in
          rw (found, send_to_child) (rw (put, send_to_child) (ground (arith, kept.1), kept.0))
    ]
  ]

  pub sends-HubInv :
      (h : Hub S) (node_id : Bytes) (env : Envelope)
      → HubInv h
      → HubInv (step h (sends node_id env))
  unfolding step
  sends-HubInv h node_id env v =
      let kept = send-IsSameBut node_id env h.server v.bounded in
      refilled-HubInv h (send_to_child node_id env h.server).0 v kept.0 kept.1

  -- A server in which another record of rejections, or another hook, is new.
  pub unchanged-HubInv :
      (h : Hub S) (t : Server S)
      → HubInv h
      → t.children ≡ h.server.children
      → t.channels ≡ h.server.channels
      → t.metrics.downstream_children ≡ h.server.metrics.downstream_children
      → HubInv (record h { server = t })
  unchanged-HubInv h t v children channels gauge = record {
    bounded = subst AreBounded (sym channels) v.bounded;
    sized = v.sized ∙ ap length (sym channels);
    gauge = gauge ∙ v.gauge;
    rising =
        subst (λ (q : List (List Envelope)). Rising 0 h.sessions (length q)) (sym channels)
          v.rising;
    within =
        subst (λ m. Within (length t.channels) m) (sym children)
          (subst (λ (q : List (List Envelope)). Within (length q) h.server.children) (sym channels)
            v.within);
    distinct = subst AreDistinct (sym children) v.distinct;
    live = λ k c e. v.live k c (subst (λ m. lookup k m ≡ some c) children e);
  }
