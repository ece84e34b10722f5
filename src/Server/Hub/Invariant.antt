-- ===== src/Server/Hub/Invariant.antt =====
-- transport/server.go: what holds of a server and its Downstream calls between any two steps.
use multi_region.Prelude.{
  ℕ, zero, suc, ◌≤◌, ◌≡◌, refl, ◌⊎◌, inl, inr, false, some, List, [], ◌∷◌, ◌++◌, length,
  length-append, length-set, get_elem?, get_or, set, remove_at, All, Bytes, Map, lookup, beq,
  beq_iff, arith, Option-cases,
}
use multi_region.Envelope.{Envelope}
use multi_region.Server.{
  Server, BroadcastResult, broadcast_one, broadcast_loop, offer, channel_size,
}
use multi_region.Server.Channels.{Within, AreDistinct}
use multi_region.Server.Hub.{Session, Hub}

-- The channels of the calls rise from `lo` and stay below `hi`, so no two calls share one.
abbrev pub Rising : ℕ → List Session → ℕ → Type 0
Rising lo [] hi = lo ≤ hi
Rising lo (x ∷ xs) hi = (lo ≤ x.channel) × Rising (suc x.channel) xs hi

-- A running call has this key and this channel.
abbrev pub Has : Bytes → ℕ → List Session → Type 0
Has k c [] = ⊥
Has k c (x ∷ xs) = ((x.key ≡ k) × (x.channel ≡ c)) ⊎ Has k c xs

abbrev pub AreBounded : List (List Envelope) → Type 0
AreBounded = All (λ (q : List Envelope). length q ≤ channel_size)

pub record HubInv {S : Type 0} (h : Hub S) : Type 0 where
  -- No channel holds more than 16 envelopes.
  pub bounded : AreBounded h.server.channels
  pub sized : length h.taken ≡ length h.server.channels
  -- The gauge of connections is the number of running calls.
  pub gauge : h.server.metrics.downstream_children ≡ length h.sessions
  -- Each running call has a channel of its own.
  pub rising : Rising 0 h.sessions (length h.server.channels)
  pub within : Within (length h.server.channels) h.server.children
  pub distinct : AreDistinct h.server.children
  -- Each entry of the map belongs to a running call.
  pub live : (k : Bytes) (c : ℕ) → lookup k h.server.children ≡ some c → Has k c h.sessions

Rising-mono : (lo lo' hi : ℕ) (xs : List Session) → lo' ≤ lo → Rising lo xs hi → Rising lo' xs hi
Rising-mono lo lo' hi [] h r = omega arith
Rising-mono lo lo' hi (x ∷ xs) h r = (omega arith, r.1)

pub Rising-append :
    (lo n : ℕ) (key : Bytes) (xs : List Session)
    → Rising lo xs n
    → Rising lo (xs ++ record { key = key; channel = n } ∷ []) (suc n)
Rising-append lo n key [] r = (r, omega arith)
Rising-append lo n key (x ∷ xs) r = (r.0, Rising-append (suc x.channel) n key xs r.1)

pub Rising-remove_at :
    (lo hi i : ℕ) (xs : List Session) → Rising lo xs hi → Rising lo (remove_at xs i) hi
Rising-remove_at lo hi i [] r = r
Rising-remove_at lo hi zero (x ∷ xs) r = Rising-mono (suc x.channel) lo hi xs (omega arith) r.1
Rising-remove_at lo hi (suc i) (x ∷ xs) r = (r.0, Rising-remove_at (suc x.channel) hi i xs r.1)

pub Has-append_left : (k : Bytes) (c : ℕ) (xs ys : List Session) → Has k c xs → Has k c (xs ++ ys)
Has-append_left k c [] ys h = elim h [ ]
Has-append_left k c (x ∷ xs) ys (inl e) = inl e
Has-append_left k c (x ∷ xs) ys (inr h) = inr (Has-append_left k c xs ys h)

pub Has-append_last :
    (k : Bytes) (c : ℕ) (xs : List Session) → Has k c (xs ++ record { key = k; channel = c } ∷ [])
Has-append_last k c [] = inl (refl, refl)
Has-append_last k c (x ∷ xs) = inr (Has-append_last k c xs)

pub Has-remove_at :
    (k : Bytes) (c i : ℕ) (x : Session) (xs : List Session)
    → get_elem? xs i ≡ some x
    → beq x.key k ≡ false
    → Has k c xs
    → Has k c (remove_at xs i)
Has-remove_at k c i x [] e ne h = elim h [ ]
Has-remove_at k c zero x (y ∷ xs) e ne (inl h) = absurd (ground (arith, beq_iff x.key k))
Has-remove_at k c zero x (y ∷ xs) e ne (inr h) = h
Has-remove_at k c (suc i) x (y ∷ xs) e ne (inl h) = inl h
Has-remove_at k c (suc i) x (y ∷ xs) e ne (inr h) = inr (Has-remove_at k c i x xs e ne h)

pub AreBounded-set :
    (qs : List (List Envelope)) (i : ℕ) (q : List Envelope)
    → AreBounded qs
    → length q ≤ channel_size
    → AreBounded (set qs i q)
AreBounded-set [] i q b h = tt
AreBounded-set (x ∷ qs) zero q b h = (h, b.1)
AreBounded-set (x ∷ qs) (suc i) q b h = (b.0, AreBounded-set qs i q b.1 h)

pub AreBounded-get_or :
    (qs : List (List Envelope)) (i : ℕ) → AreBounded qs → length (get_or qs i []) ≤ channel_size
AreBounded-get_or [] i b = omega arith
AreBounded-get_or (x ∷ qs) zero b = b.0
AreBounded-get_or (x ∷ qs) (suc i) b = AreBounded-get_or qs i b.1

pub offer-AreBounded :
    (qs : List (List Envelope)) (c : ℕ) (env : Envelope) {qs' : List (List Envelope)}
    → AreBounded qs
    → offer qs c env ≡ some qs'
    → AreBounded qs' × (length qs' ≡ length qs)
unfolding offer
offer-AreBounded qs c env b e = ground (
  arith,
  AreBounded-set qs c (get_or qs c [] ++ env ∷ []),
  length-append (get_or qs c []) (env ∷ []),
  length-set qs c (get_or qs c [] ++ env ∷ []),
)

module _ {S : Type 0} where
  pub loop-AreBounded :
      (env : Envelope) (m : Map ℕ) (s : Server S) (r : BroadcastResult)
      → AreBounded s.channels
      → AreBounded (broadcast_loop env m (s, r)).0.channels
  unfolding broadcast_loop broadcast_one
  loop-AreBounded env [] s r b = b
  loop-AreBounded env ((k, c) ∷ m) s r b =
      loop-AreBounded env m (broadcast_one env k c (s, r)).0 (broadcast_one env k c (s, r)).1
        (elim (Option-cases (offer s.channels c env)) [
          | inl full ↦ rw (full, broadcast_one) b
          | inr (qs, put) ↦ rw (put, broadcast_one) (offer-AreBounded s.channels c env b put).0
        ])
