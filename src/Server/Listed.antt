-- ===== src/Server/Listed.antt =====
-- transport/server.go: a broadcast, seen from one child that the server lists.
use multi_region.Prelude.{
  ℕ, ◌≡◌, ◌⊎◌, inl, inr, refl, sym, ◌∙◌, subst, Bool, true, false, ◌&&◌, if◌then◌else◌, some, List,
  [], ◌∷◌, ◌++◌, length, length-set, get_or, set, Bytes, Map, lookup, arith, Bool-cases,
}
use multi_region.Envelope.{Envelope}
use multi_region.Server.{Server, broadcast_downstream}
use multi_region.Server.Channels.{has_channel, has_room, Within, AreDistinct}
use multi_region.Server.Broadcast.{full_keys, taken_in, broadcast_delivers, broadcast-metrics}

-- The maps that a server of this kind keeps.
pub record IsWired {S : Type 0} (s : Server S) : Type 0 where
  pub within : Within (length s.channels) s.children
  pub distinct : AreDistinct s.children

has_channel-lookup : (k : Bytes) (c : ℕ) (m : Map ℕ) → lookup k m ≡ some c → has_channel m c ≡ true
unfolding lookup
has_channel-lookup k c [] e = cc
has_channel-lookup k c ((j, d) ∷ m) e = ground (arith, has_channel-lookup k c m)

room_of_listed :
    (channels : List (List Envelope)) (k : Bytes) (c : ℕ) (m : Map ℕ)
    → full_keys channels m ≡ []
    → lookup k m ≡ some c
    → has_room channels c ≡ true
unfolding lookup full_keys
room_of_listed channels k c [] f e = cc
room_of_listed channels k c ((j, d) ∷ m) f e = ground (arith, room_of_listed channels k c m)

pub rewrite-IsWired :
    {S : Type 0} (s : Server S) (c : ℕ) (rest : List Envelope)
    → IsWired s
    → IsWired (record s { channels = set s.channels c rest })
rewrite-IsWired s c rest w = record {
  within = subst (λ n. Within n s.children) (sym (length-set s.channels c rest)) w.within;
  distinct = w.distinct;
}

module _ {S : Type 0} (env : Envelope) (s : Server S) (wired : IsWired s) where
  pub broadcast-IsWired : IsWired (broadcast_downstream env s).0
  broadcast-IsWired =
      let same = (broadcast-metrics env s).2 in
      record {
        within =
            subst (λ n. Within n (broadcast_downstream env s).0.children) (sym same.store)
              (subst (Within (length s.channels)) (sym same.children) wired.within);
        distinct = subst AreDistinct (sym same.children) wired.distinct;
      }

  -- Any channel takes the envelope, or stays as it is.
  pub broadcast-channel :
      (c : ℕ)
      → let t = (broadcast_downstream env s).0 in
        (taken : List Envelope) × (get_or t.channels c [] ≡ get_or s.channels c [] ++ taken)
        × ((taken ≡ []) ⊎ (taken ≡ env ∷ []))
  broadcast-channel c = (
    taken_in env s.channels s.children c,
    (broadcast_delivers env s wired.within wired.distinct).3 c,
    one (has_channel s.children c && has_room s.channels c),
  )
    where
      one :
          (b : Bool)
          → ((if b then env ∷ [] else []) ≡ []) ⊎ ((if b then env ∷ [] else []) ≡ env ∷ [])
      one true = inr refl
      one false = inl refl

  -- The child's channel takes the envelope, or stays as it is and the server counts a drop.
  pub broadcast-listed :
      (k : Bytes) (c : ℕ)
      → lookup k s.children ≡ some c
      → let t = (broadcast_downstream env s).0 in
        (taken : List Envelope) × (get_or t.channels c [] ≡ get_or s.channels c [] ++ taken)
        × ((taken ≡ []) ⊎ (taken ≡ env ∷ []))
        × (t.metrics.dropped ≡ 0 → (taken ≡ env ∷ []) × (s.metrics.dropped ≡ 0))
  broadcast-listed k c e =
      let law = broadcast_delivers env s wired.within wired.distinct in
      let counted = broadcast-metrics env s in
      let there = has_channel-lookup k c s.children e in
      (
        taken_in env s.channels s.children c,
        law.3 c,
        elim (Bool-cases (has_room s.channels c)) [
          | inl room ↦ inr (rw (there, room))
          | inr full ↦ inl (rw (there, full))
        ],
        λ none_dropped.
            let room =
              room_of_listed s.channels k c s.children
                (sym law.0 ∙ nil_of_zero _ (omega (arith, counted.1, none_dropped))) e in
            (rw (there, room), omega (arith, counted.1, none_dropped)),
      )
    where
      nil_of_zero : (xs : List Bytes) → length xs ≡ 0 → xs ≡ []
      nil_of_zero [] h = refl
      nil_of_zero (x ∷ xs) h = absurd (omega (arith, h))
