-- ===== src/Service/Storage/Latest.antt =====
-- examples/node/storage/bolt.go: what Query finds after any calls of Save and Delete.
use multi_region.Prelude.{
  ◌≡◌, sym, ◌∙◌, ap, subst, ◌↔◌, inl, inr, true, none, some, List, [], lookup, Option-cases,
}
use mathlib.Core.List.{Memᴰ}
use multi_region.Envelope.{Envelope}
use multi_region.Service.Storage.Bolt.{Disk}
use multi_region.Service.Storage.{QueryFilter, matches, query}
use multi_region.Service.Storage.History.{
  Op, Kept, run, IsStored, Mirrors, run-Mirrors, empty-Mirrors,
}
use multi_region.Service.Storage.Found.{AllDecode, IsFound, query_loop-found, found_iff}

module _ (d : Disk) where
  open d use {Bucket}

  pub Mirrors-AllDecode : (b : Bucket) (m : Kept) → Mirrors d b m → AllDecode d (d.entries b)
  unfolding AllDecode
  Mirrors-AllDecode b m h j v e =
      let at : IsStored d (some v) (lookup j m) =
        subst (λ o. IsStored d o (lookup j m)) e (h.stored j) in
      λ p. at.1 (sym at.0 ∙ p)

  Mirrors-IsFound :
      (filter : QueryFilter) (env : Envelope) (b : Bucket) (m : Kept)
      → Mirrors d b m
      → IsFound d filter env (d.entries b)
        ↔ ((matches filter env ≡ true) × (lookup env.id m ≡ some env))
  unfolding IsFound
  Mirrors-IsFound filter env b m h = (
    λ (ok, (j, v, e, x)).
        let at : IsStored d (some v) (lookup j m) =
          subst (λ o. IsStored d o (lookup j m)) e (h.stored j) in
        let kept : lookup j m ≡ some env = sym at.0 ∙ x in
        (ok, ap (λ i. lookup i m) (h.own_id j env kept) ∙ kept),
    λ (ok, kept). (
      ok,
      elim (Option-cases (lookup env.id (d.entries b))) [
        | inl e ↦
            let at : lookup env.id m ≡ none =
              subst (λ o. IsStored d o (lookup env.id m)) e (h.stored env.id) in
            cc
        | inr (v, e) ↦
            let at : IsStored d (some v) (lookup env.id m) =
              subst (λ o. IsStored d o (lookup env.id m)) e (h.stored env.id) in
            (env.id, v, e, at.0 ∙ kept)
      ],
    ),
  )

  -- After any calls of Save and Delete on a new store, some of which may have failed, Query reports
  -- no error and finds exactly the envelopes that match the filter and are the last saved under
  -- their id and not deleted since.
  pub query_history :
      (ops : List Op) (filter : QueryFilter)
      → let (b, m) = run d ops (d.empty, []) in
        let (results, e) = query d filter b in
        (e ≡ none)
        × ((env : Envelope)
            → Memᴰ env results ↔ ((matches filter env ≡ true) × (lookup env.id m ≡ some env)))
  unfolding query
  query_history ops filter =
      let (b, m) = run d ops (d.empty, []) in
      let mirrors : Mirrors d b m = run-Mirrors d ops d.empty [] (empty-Mirrors d) in
      let distinct = d.entries-HasNodupKeys b in
      let all =
        query_loop-found d filter (d.entries b) [] distinct (Mirrors-AllDecode b m mirrors) in
      (
        ap (λ r. r.1) all,
        λ env.
            let (to, back) = found_iff d filter env (d.entries b) distinct in
            let (on, off) = Mirrors-IsFound filter env b m mirrors in
            (
              λ p. on (to (subst (Memᴰ env) (ap (λ r. r.0) all) p)),
              λ q. subst (Memᴰ env) (sym (ap (λ r. r.0) all)) (back (off q)),
            ),
      )
