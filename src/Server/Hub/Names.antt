-- ===== src/Server/Hub/Names.antt =====
-- transport/server.go, `registerChild`: the keys that the children of a server get.
use multi_region.Prelude.{
  ℕ, zero, suc, ◌+◌, ◌≤◌, ◌≡◌, refl, sym, ap, ◌≢◌, inl, inr, false, some, List, [], ◌∷◌, length,
  get_elem?, remove_at, All, All-map, All-get_elem?, Bytes, lookup, HasNodupKeys, arith,
  Option-cases,
}
use multi_region.Server.{Server, child_node_id, child_key}
use multi_region.Server.Keys.{
  has_paren, KeyForm, claimed, anonymous, duplicate, anonymous_key-fresh, duplicate_key-fresh,
}
use multi_region.Server.Hub.{
  Session, Hub, Event, connects, pumps, cancels, broadcasts, sends, sets_hook,
}
use multi_region.Server.Hub.Invariant.{Rising, Has}

-- The calls' keys have their forms, and lead to the calls' channels; nothing else is in the map.
pub record KeysInv {S : Type 0} (h : Hub S) : Type 0 where
  pub forms : All (λ (x : Session). KeyForm h.server.anon_seq x.key) h.sessions
  pub reach : All (λ (x : Session). lookup x.key h.server.children ≡ some x.channel) h.sessions
  pub nodup : HasNodupKeys h.server.children
  pub count : length h.server.children ≡ length h.sessions

-- A child that connects claims a node-id without "(", or none.
abbrev pub IsPlain : {S : Type 0} → Event S → Type 0
IsPlain (connects service ctx now) = has_paren (child_node_id ctx) ≡ false
IsPlain (pumps i sent) = Unit {0}
IsPlain (cancels i) = Unit {0}
IsPlain (broadcasts env) = Unit {0}
IsPlain (sends node_id env) = Unit {0}
IsPlain (sets_hook hook) = Unit {0}

pub child_key-KeyForm :
    {S : Type 0} (node_id : Bytes) (s : Server S)
    → has_paren node_id ≡ false
    → KeyForm (child_key node_id s).1 (child_key node_id s).0
      × (s.anon_seq ≤ (child_key node_id s).1)
unfolding child_key
child_key-KeyForm [] s p = (anonymous (s.anon_seq + 1) (omega arith) refl, omega arith)
child_key-KeyForm (b ∷ bs) s p = elim (Option-cases (lookup (b ∷ bs) s.children)) [
  | inl free ↦ rw (free, child_key) (claimed p, omega arith)
  | inr (c, taken) ↦
      rw (taken, child_key)
        (duplicate (b ∷ bs) (s.anon_seq + 1) p (λ e. cc) (omega arith) refl, omega arith)
]

pub child_key-fresh :
    {S : Type 0} (node_id : Bytes) (s : Server S)
    → has_paren node_id ≡ false
    → (x : Session) → KeyForm s.anon_seq x.key
    → lookup x.key s.children ≡ some x.channel
    → (child_key node_id s).0 ≢ x.key
unfolding child_key
child_key-fresh [] s p x form here = λ e. anonymous_key-fresh s.anon_seq x.key form (sym e)
child_key-fresh (b ∷ bs) s p x form here = elim (Option-cases (lookup (b ∷ bs) s.children)) [
  | inl free ↦ rw (free, child_key) (λ e. absurd (ground (arith, ap (λ k. lookup k s.children) e)))
  | inr (c, taken) ↦
      rw (taken, child_key)
        (λ e. duplicate_key-fresh s.anon_seq x.key (b ∷ bs) form p (λ q. cc) (sym e))
]

pub child_key-new :
    {S : Type 0} (node_id : Bytes) (s : Server S)
    → has_paren node_id ≡ false
    → (xs : List Session) → All (λ (x : Session). KeyForm s.anon_seq x.key) xs
    → All (λ (x : Session). lookup x.key s.children ≡ some x.channel) xs
    → (c : ℕ) → ¬ Has (child_key node_id s).0 c xs
child_key-new node_id s p [] forms reach c h = h
child_key-new node_id s p (x ∷ xs) forms reach c (inl h) =
    child_key-fresh node_id s p x forms.0 reach.0 (sym h.0)
child_key-new node_id s p (x ∷ xs) forms reach c (inr h) =
    child_key-new node_id s p xs forms.1 reach.1 c h

-- The other calls have other channels.
others_above :
    (lo hi : ℕ) (xs : List Session) → Rising lo xs hi → All (λ (y : Session). lo ≤ y.channel) xs
others_above lo hi [] r = tt
others_above lo hi (x ∷ xs) r = (
  r.0,
  All-map (λ (y : Session). suc x.channel ≤ y.channel) (λ (y : Session). lo ≤ y.channel)
      (λ y p. omega arith) xs (others_above (suc x.channel) hi xs r.1),
)

pub others_differ :
    (lo hi i : ℕ) (x : Session) (xs : List Session)
    → Rising lo xs hi
    → get_elem? xs i ≡ some x
    → All (λ (y : Session). y.channel ≢ x.channel) (remove_at xs i)
others_differ lo hi i x [] r e = tt
others_differ lo hi zero x (y ∷ xs) r e =
    All-map (λ (z : Session). suc y.channel ≤ z.channel) (λ (z : Session). z.channel ≢ x.channel)
      (λ z p same. absurd (omega (arith, same_channel))) xs (others_above (suc y.channel) hi xs r.1)
  where
    same_channel : y.channel ≡ x.channel
    same_channel = ground (arith, e)
others_differ lo hi (suc i) x (y ∷ xs) r e =
    (λ same. absurd (omega (arith, above)), others_differ (suc y.channel) hi i x xs r.1 e)
  where
    above : suc y.channel ≤ x.channel
    above =
        All-get_elem? (λ (z : Session). suc y.channel ≤ z.channel) xs i x e
          (others_above (suc y.channel) hi xs r.1)
