-- ===== src/Service/Storage/Found.antt =====
-- examples/node/storage/bolt.go, `Query`: what it finds among the entries of the bucket.
use multi_region.Prelude.{
  pos, beq_refl, ◌≡◌, refl, sym, ◌∙◌, ap, ◌≢◌, ◌↔◌, ◌⊎◌, inl, inr, Bool, true, false, Option, none,
  some, List, [], ◌∷◌, ◌++◌, Bytes, beq_iff, if◌then◌else◌, Map, lookup, HasNodupKeys, arith,
}
use mathlib.Core.List.{Memᴰ, append-nil, append_assoc}
use mathlib.Core.List.Memᴰ
use multi_region.Envelope.{Envelope}
use multi_region.Service.Storage.Bolt.{Disk}
use multi_region.Service.Storage.{
  is_empty, QueryFilter, Error, unmarshal_failed, matches, keep, query_loop,
}

module _ (d : Disk) where
  -- What a query finds in a list of entries.
  unfoldable pub found : QueryFilter → Map Bytes → List Envelope
  found filter [] = []
  found filter ((k, v) ∷ rest) = elim (d.unmarshal v) [
    | none ↦ found filter rest
    | some env ↦ if matches filter env then env ∷ found filter rest else found filter rest
  ]

  unfoldable pub AllDecode : Map Bytes → Type 0
  AllDecode m = (j v : Bytes) → lookup j m ≡ some v → d.unmarshal v ≢ none

  pub lookup-tail :
      (j k v w : Bytes) (rest : Map Bytes)
      → HasNodupKeys ((k, v) ∷ rest)
      → lookup j rest ≡ some w
      → lookup j ((k, v) ∷ rest) ≡ some w
  unfolding lookup
  lookup-tail j k v w rest u e = ground (arith, beq_iff k j, u, e)

  pub lookup-own : (k v : Bytes) (rest : Map Bytes) → lookup k ((k, v) ∷ rest) ≡ some v
  unfolding lookup
  lookup-own k v rest = ground (arith, beq_iff k k)

  lookup_cons :
      (j k v w : Bytes) (rest : Map Bytes)
      → lookup j ((k, v) ∷ rest) ≡ some w
      → (v ≡ w) ⊎ (lookup j rest ≡ some w)
  unfolding lookup
  lookup_cons j k v w rest = ground arith

  pub query_loop-found :
      (filter : QueryFilter) (m : Map Bytes) (results : List Envelope)
      → HasNodupKeys m
      → AllDecode m
      → query_loop d filter m results ≡ (results ++ found filter m, none)
  unfolding query_loop found keep AllDecode
  query_loop-found filter [] results u h = rw (append-nil results) refl
  query_loop-found filter ((k, v) ∷ rest) results u h =
      go (λ env. query_loop-found filter rest (keep d filter env results) u.1 next) (d.unmarshal v)
        refl
    where
      next : AllDecode rest
      next j w e = h j w (lookup-tail j k v w rest u e)

      go :
          ((env : Envelope)
            → query_loop d filter rest (keep d filter env results)
              ≡ (keep d filter env results ++ found filter rest, none))
          → (o : Option Envelope) → d.unmarshal v ≡ o
          → ◌≡◌ {A = List Envelope × Option Error}
              (elim o [
                | none ↦ (results, some unmarshal_failed)
                | some env ↦ query_loop d filter rest (keep d filter env results)
              ])
              (
                results ++ elim o [
                  | none ↦ found filter rest
                  | some env ↦
                      if matches filter env then env ∷ found filter rest else found filter rest
                ],
                none,
              )
      go later none e = absurd (h k v (lookup-own k v rest) e)
      go later (some env) e = later env ∙ split (matches filter env)
        where
          split :
              (b : Bool)
              → ◌≡◌ {A = List Envelope × Option Error}
                  ((if b then results ++ env ∷ [] else results) ++ found filter rest, none)
                  (results ++ (if b then env ∷ found filter rest else found filter rest), none)
          split true = rw (append_assoc results (env ∷ []) (found filter rest)) refl
          split false = refl

  unfoldable pub IsFound : QueryFilter → Envelope → Map Bytes → Type 0
  IsFound filter env m =
      (matches filter env ≡ true)
      × ((j : Bytes) × (v : Bytes) × (lookup j m ≡ some v) × (d.unmarshal v ≡ some env))

  pub found_iff :
      (filter : QueryFilter) (env : Envelope) (m : Map Bytes)
      → HasNodupKeys m
      → Memᴰ env (found filter m) ↔ IsFound filter env m
  unfolding found IsFound lookup
  found_iff filter env [] u = (λ p. absurd (Memᴰ.not-nil p), λ (ok, (j, v, e, x)). cc)
  found_iff filter env ((k, v) ∷ rest) u = go (found_iff filter env rest u.1) (d.unmarshal v) refl
    where
      later : IsFound filter env rest → IsFound filter env ((k, v) ∷ rest)
      later (ok, (j, w, e, x)) = (ok, (j, w, lookup-tail j k v w rest u e, x))

      earlier :
          IsFound filter env ((k, v) ∷ rest)
          → (matches filter env ≡ true) × ((d.unmarshal v ≡ some env) ⊎ IsFound filter env rest)
      earlier (ok, (j, w, e, x)) = (
        ok,
        elim (lookup_cons j k v w rest e) [
          | inl same ↦ inl (ap d.unmarshal same ∙ x)
          | inr there ↦ inr (ok, (j, w, there, x))
        ],
      )

      put :
          (b : Bool) (env' : Envelope)
          → b ≡ matches filter env'
          → d.unmarshal v ≡ some env'
          → (Memᴰ env (found filter rest) ↔ IsFound filter env rest)
          → Memᴰ env (if b then env' ∷ found filter rest else found filter rest)
            ↔ IsFound filter env ((k, v) ∷ rest)
      put true env' ok e (to, back) = (
        λ p. elim (Memᴰ.cases_cons p) [
          | inl same ↦ (
            ap (matches filter) same ∙ sym ok,
            (k, v, lookup-own k v rest, e ∙ ap some (sym same)),
          )
          | inr there ↦ later (to there)
        ],
        λ q. elim (earlier q).1 [
          | inl here ↦ let same : env ≡ env' = cc in Memᴰ.head same
          | inr there ↦ Memᴰ.tail (back there)
        ],
      )
      put false env' ok e (to, back) = (
        λ p. later (to p),
        λ q. elim (earlier q).1 [
          | inl here ↦
              let same : env ≡ env' = cc in
              let no : false ≡ true = ok ∙ ap (matches filter) (sym same) ∙ (earlier q).0 in cc
          | inr there ↦ back there
        ],
      )

      go :
          (Memᴰ env (found filter rest) ↔ IsFound filter env rest)
          → (o : Option Envelope) → d.unmarshal v ≡ o
          → Memᴰ env (elim o [
            | none ↦ found filter rest
            | some env' ↦
                if matches filter env' then env' ∷ found filter rest else found filter rest
          ])
            ↔ IsFound filter env ((k, v) ∷ rest)
      go (to, back) none e =
          (λ p. later (to p), λ q. elim (earlier q).1 [ inl here ↦ cc | inr there ↦ back there ])
      go both (some env') e = put (matches filter env') env' refl e both

-- A filter with a kind and no time takes every envelope of the kind.
pub matches-kind :
    (k : Bytes) (env : Envelope)
    → env.kind ≡ k
    → matches (record { kind = k; since = pos 0 }) env ≡ true
unfolding matches is_empty
matches-kind [] env e = refl
matches-kind (b ∷ bs) env e = rw (e, beq_refl (b ∷ bs)) refl

-- The zero value of the filter leaves everything in.
pub matches-anything : (env : Envelope) → matches (record { kind = []; since = pos 0 }) env ≡ true
unfolding matches is_empty
matches-anything env = refl
