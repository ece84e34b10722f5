-- ===== src/Server/Broadcast.antt =====
-- transport/server.go, `BroadcastDownstream` and `SendToChild`: who gets an envelope.
use multi_region.Prelude.{
  ℕ, suc, ◌+◌, ◌<◌, ◌≡◌, refl, ◌↔◌, inl, inr, false, ◌&&◌, none, some, List, [], ◌∷◌, ◌++◌, ◌==◌,
  if◌then◌else◌, length, length-append, length-set, get_or, Bytes, Map, lookup, arith, Bool-cases,
  ==_iff, sym, ◌∙◌, subst,
}
use mathlib.Core.List.{append-nil, append_assoc}
use multi_region.Envelope.{Envelope}
use multi_region.Server.{
  Server, BroadcastResult, no_child, broadcast_one, broadcast_loop, broadcast_downstream,
  broadcast_error, send_to_child,
}
use multi_region.Server.Channels.{has_channel, has_room, Within, AreDistinct, get_or-set}

-- The keys whose channel is full, in the order of the visit.
unfoldable pub full_keys : List (List Envelope) → Map ℕ → List Bytes
full_keys channels [] = []
full_keys channels ((k, c) ∷ m) =
    if has_room channels c then full_keys channels m else k ∷ full_keys channels m

-- What the channel `d` takes in of a broadcast to the children `m`.
abbrev pub taken_in : Envelope → List (List Envelope) → Map ℕ → ℕ → List Envelope
taken_in env channels m d = if has_channel m d && has_room channels d then env ∷ [] else []

-- What an operation on the children's channels leaves alone.
pub record IsSameBut {S : Type 0} (s t : Server S) : Type 0 where
  pub hook : t.authorize_child ≡ s.authorize_child
  pub children : t.children ≡ s.children
  pub anon_seq : t.anon_seq ≡ s.anon_seq
  pub pending : t.pending ≡ s.pending
  pub received : t.metrics.received ≡ s.metrics.received
  pub upstream_children : t.metrics.upstream_children ≡ s.metrics.upstream_children
  pub downstream_children : t.metrics.downstream_children ≡ s.metrics.downstream_children
  pub rejections : t.metrics.rejections ≡ s.metrics.rejections
  pub store : length t.channels ≡ length s.channels

-- The result that a broadcast begins with.
abbrev pub none_yet : BroadcastResult
none_yet = record { delivered = 0; dropped = [] }

error-nil :
    {S : Type 0} (s : Server S) (r : BroadcastResult)
    → (broadcast_error s r ≡ none) ↔ (r.dropped ≡ [])
unfolding broadcast_error
error-nil s r = (λ h. nil_of_short r.dropped (ground arith), λ h. rw h)
  where
    nil_of_short : (xs : List Bytes) → length xs ≡ 0 → xs ≡ []
    nil_of_short [] h = refl
    nil_of_short (x ∷ xs) h = absurd (omega arith)

full_keys-agree :
    (before after : List (List Envelope)) (c : ℕ) (m : Map ℕ)
    → has_channel m c ≡ false
    → ((d : ℕ) → (c == d) ≡ false → get_or after d [] ≡ get_or before d [])
    → full_keys after m ≡ full_keys before m
unfolding full_keys
full_keys-agree before after c [] u h = refl
full_keys-agree before after c ((k, d) ∷ m) u h =
    ground (arith, h d, full_keys-agree before after c m)

-- One more entry in front of the children visited.
taken_in-cons :
    (env : Envelope) (before after : List (List Envelope)) (k : Bytes) (c d : ℕ) (m : Map ℕ)
    → has_channel m c ≡ false
    → get_or after d []
      ≡ get_or before d [] ++ (if (c == d) && has_room before d then env ∷ [] else [])
    → get_or after d [] ++ taken_in env after m d
      ≡ get_or before d [] ++ taken_in env before ((k, c) ∷ m) d
taken_in-cons env before after k c d m u e = elim (Bool-cases (c == d)) [
  | inl same ↦
      let gone : has_channel m d ≡ false =
        subst (λ x. has_channel m x ≡ false) ((==_iff c d).0 same) u in
      rw (gone, append-nil (get_or after d [])) (rw same (rw same at e))
  | inr other ↦
      let kept : get_or after d [] ≡ get_or before d [] =
        (rw other at e) ∙ append-nil (get_or before d []) in
      rw (kept, other)
]

module _ {S : Type 0} where
  one-channel :
      (env : Envelope) (k : Bytes) (c d : ℕ) (s : Server S) (r : BroadcastResult)
      → c < length s.channels
      → get_or (broadcast_one env k c (s, r)).0.channels d []
        ≡ get_or s.channels d [] ++ (if (c == d) && has_room s.channels d then env ∷ [] else [])
  unfolding broadcast_one
  one-channel env k c d s r h = ground (
    arith,
    get_or-set s.channels c d (get_or s.channels c [] ++ env ∷ []) [],
    append-nil (get_or s.channels d []),
  )

  one-IsSameBut :
      (env : Envelope) (k : Bytes) (c : ℕ) (s : Server S) (r : BroadcastResult)
      → IsSameBut s (broadcast_one env k c (s, r)).0
  unfolding broadcast_one
  one-IsSameBut env k c s r =
      ground (arith, length-set s.channels c (get_or s.channels c [] ++ env ∷ []))

  one-dropped :
      (env : Envelope) (k : Bytes) (c : ℕ) (s : Server S) (r : BroadcastResult)
      → (broadcast_one env k c (s, r)).1.dropped
        ≡ (if has_room s.channels c then r.dropped else r.dropped ++ k ∷ [])
  unfolding broadcast_one
  one-dropped env k c s r = ground arith

  -- The counters and the result move together.
  one_counts :
      (env : Envelope) (k : Bytes) (c : ℕ) (s : Server S) (r : BroadcastResult)
      → let (t, q) = broadcast_one env k c (s, r) in
        (q.delivered + length q.dropped ≡ suc (r.delivered + length r.dropped))
        × (t.metrics.sent + r.delivered ≡ s.metrics.sent + q.delivered)
        × (t.metrics.dropped + length r.dropped ≡ s.metrics.dropped + length q.dropped)
  unfolding broadcast_one
  one_counts env k c s r = ground (arith, length-append r.dropped (k ∷ []))

  loop_counts :
      (env : Envelope) (m : Map ℕ) (s : Server S) (r : BroadcastResult)
      → let (t, q) = broadcast_loop env m (s, r) in
        (q.delivered + length q.dropped ≡ r.delivered + length r.dropped + length m)
        × (t.metrics.sent + r.delivered ≡ s.metrics.sent + q.delivered)
        × (t.metrics.dropped + length r.dropped ≡ s.metrics.dropped + length q.dropped)
  unfolding broadcast_loop
  loop_counts env [] s r = omega arith
  loop_counts env ((k, c) ∷ m) s r = omega (
    arith,
    one_counts env k c s r,
    loop_counts env m (broadcast_one env k c (s, r)).0 (broadcast_one env k c (s, r)).1,
  )

  loop-IsSameBut :
      (env : Envelope) (m : Map ℕ) (s : Server S) (r : BroadcastResult)
      → IsSameBut s (broadcast_loop env m (s, r)).0
  unfolding broadcast_loop
  loop-IsSameBut env [] s r = ground arith
  loop-IsSameBut env ((k, c) ∷ m) s r = ground (
    arith,
    one-IsSameBut env k c s r,
    loop-IsSameBut env m (broadcast_one env k c (s, r)).0 (broadcast_one env k c (s, r)).1,
  )

  loop-channel :
      (env : Envelope) (m : Map ℕ) (d : ℕ) (s : Server S) (r : BroadcastResult)
      → Within (length s.channels) m
      → AreDistinct m
      → get_or (broadcast_loop env m (s, r)).0.channels d []
        ≡ get_or s.channels d [] ++ taken_in env s.channels m d
  unfolding broadcast_loop
  loop-channel env [] d s r w u = ground (arith, append-nil (get_or s.channels d []))
  loop-channel env ((k, c) ∷ m) d s r w u =
      let (s', r') = broadcast_one env k c (s, r) in
      let same : length s'.channels ≡ length s.channels = (one-IsSameBut env k c s r).store in
      loop-channel env m d s' r' (subst (λ n. Within n m) (sym same) w.1) u.1
      ∙ taken_in-cons env s.channels s'.channels k c d m u.0 (one-channel env k c d s r w.0)

  loop-dropped :
      (env : Envelope) (m : Map ℕ) (s : Server S) (r : BroadcastResult)
      → Within (length s.channels) m
      → AreDistinct m
      → (broadcast_loop env m (s, r)).1.dropped ≡ r.dropped ++ full_keys s.channels m
  unfolding broadcast_loop full_keys
  loop-dropped env [] s r w u = sym (append-nil r.dropped)
  loop-dropped env ((k, c) ∷ m) s r w u =
      let (s', r') = broadcast_one env k c (s, r) in
      let same : length s'.channels ≡ length s.channels = (one-IsSameBut env k c s r).store in
      loop-dropped env m s' r' (subst (λ n. Within n m) (sym same) w.1) u.1
      ∙ ground (
        arith,
        full_keys-agree s.channels s'.channels c m u.0 (λ d ne.
            ground (arith, one-channel env k c d s r w.0, append-nil (get_or s.channels d []))),
        one-dropped env k c s r,
        append_assoc r.dropped (k ∷ []) (full_keys s.channels m),
      )

-- For a server whose children have channels of their own: the keys reported as dropped are those
-- of the children whose channel is full; the rest are counted as delivered; there is an error
-- exactly when a key was dropped; and each channel of a child with room, and no other, gets the
-- envelope, once and at its end.
pub broadcast_delivers :
    {S : Type 0} (env : Envelope) (s : Server S)
    → Within (length s.channels) s.children
    → AreDistinct s.children
    → let (t, r, e) = broadcast_downstream env s in
      (r.dropped ≡ full_keys s.channels s.children)
      × (r.delivered + length r.dropped ≡ length s.children)
      × ((e ≡ none) ↔ (r.dropped ≡ []))
      × ((d : ℕ)
          → get_or t.channels d [] ≡ get_or s.channels d [] ++ taken_in env s.channels s.children d)
unfolding broadcast_downstream
broadcast_delivers {S} env s w u = (
  loop-dropped env s.children s none_yet w u,
  omega (arith, loop_counts env s.children s none_yet),
  error-nil (broadcast_loop env s.children (s, none_yet)).0
      (broadcast_loop env s.children (s, none_yet)).1,
  λ d. loop-channel env s.children d s none_yet w u,
)

-- A broadcast moves the counters of sent and of dropped envelopes by what its result reports, and
-- changes the channels and those two counters only.
pub broadcast-metrics :
    {S : Type 0} (env : Envelope) (s : Server S)
    → let (t, r, e) = broadcast_downstream env s in
      (t.metrics.sent ≡ s.metrics.sent + r.delivered)
      × (t.metrics.dropped ≡ s.metrics.dropped + length r.dropped)
      × IsSameBut s t
unfolding broadcast_downstream
broadcast-metrics env s = (
  omega (arith, loop_counts env s.children s none_yet),
  omega (arith, loop_counts env s.children s none_yet),
  loop-IsSameBut env s.children s none_yet,
)

-- `SendToChild` to a connected node-id changes the server as a broadcast to that child alone
-- does, and returns an error exactly when that broadcast drops the child; to a node-id that is
-- not connected it changes nothing and returns an error.
pub send_to_child-eq-broadcast :
    {S : Type 0} (node_id : Bytes) (env : Envelope) (s : Server S)
    → ((c : ℕ)
        → lookup node_id s.children ≡ some c
        → let (t, e) = send_to_child node_id env s in
          let (t', r) = broadcast_loop env ((node_id, c) ∷ []) (s, none_yet) in
          (t ≡ t') × ((e ≡ none) ↔ (r.dropped ≡ [])))
      × (lookup node_id s.children ≡ none
          → send_to_child node_id env s ≡ (s, some (no_child node_id)))
unfolding send_to_child broadcast_loop broadcast_one
send_to_child-eq-broadcast node_id env s = (λ c h. (ground arith, ground arith), λ h. ground arith)
