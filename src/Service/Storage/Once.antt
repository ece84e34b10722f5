-- ===== src/Service/Storage/Once.antt =====
-- examples/node/storage/bolt.go: how often, and how many, envelopes Query finds.
use multi_region.Prelude.{
  ℕ, suc, ◌≡◌, ◌≢◌, refl, sym, ◌∙◌, ap, subst, ◌↔◌, ◌⊎◌, inl, inr, Bool, true, false, Option, none,
  some, List, [], ◌∷◌, Bytes, beq, beq_iff, beq_refl, beq_ne, if◌then◌else◌, Map, lookup, insert,
  HasNodupKeys, HasNodupKeys-insert, HasNodupKeys-delete, lookup-delete, length-delete, length, All,
  arith,
}
use multi_region.Prelude
use mathlib.Core.List.{Memᴰ}
use mathlib.Core.List.Memᴰ
use multi_region.Envelope.{Envelope}
use multi_region.Service.Storage.Bolt.{Disk}
use multi_region.Service.Storage.{Error, QueryFilter, matches, query, save, delete}
use multi_region.Service.Storage.History.{
  Op, saves, deletes, Kept, if_done, delete_each, step, run, IsStored, Mirrors, run-Mirrors,
  empty-Mirrors,
}
use multi_region.Service.Storage.Found.{
  found, IsFound, found_iff, lookup-tail, lookup-own, query_loop-found,
}
use multi_region.Service.Storage.Latest.{Mirrors-AllDecode}

-- No two envelopes of a list have the same id.
abbrev pub AreOnce : List Envelope → Type 0
AreOnce [] = Unit {0}
AreOnce (env ∷ envs) = All (λ x. x.id ≢ env.id) envs × AreOnce envs

each :
    {P : Envelope → Type 0} (envs : List Envelope)
    → ((x : Envelope) → Memᴰ x envs → P x)
    → All P envs
each [] h = tt
each (env ∷ envs) h = (h env (Memᴰ.head refl), each envs (λ x m. h x (Memᴰ.tail m)))

at_each :
    (id : Bytes) (x : Envelope) (envs : List Envelope)
    → All (λ y. y.id ≢ id) envs
    → Memᴰ x envs
    → x.id ≢ id
at_each id x [] h m = absurd (Memᴰ.not-nil m)
at_each id x (env ∷ envs) h m = elim (Memᴰ.cases_cons m) [
  | inl same ↦ subst (λ y. y.id ≢ id) (sym same) h.0
  | inr there ↦ at_each id x envs h.1 there
]

-- A list without repeated ids that holds just what a map keeps, each under its id, is as long.
length-kept :
    (envs : List Envelope) (m : Kept)
    → AreOnce envs
    → HasNodupKeys m
    → ((j : Bytes) (env : Envelope) → lookup j m ≡ some env → env.id ≡ j)
    → ((env : Envelope) → Memᴰ env envs ↔ (lookup env.id m ≡ some env))
    → length envs ≡ length m
unfolding lookup
length-kept [] [] once u own same = refl
length-kept [] ((k, env) ∷ m) once u own same =
    let here : lookup k ((k, env) ∷ m) ≡ some env = rw (beq_refl k) refl in
    let it = own k env here in
    absurd (Memᴰ.not-nil ((same env).1 (ap (λ j. lookup j ((k, env) ∷ m)) it ∙ here)))
length-kept (env ∷ envs) m once u own same =
    let kept = (same env).0 (Memᴰ.head refl) in
    let left = Prelude.delete env.id m in
    let shorter : length envs ≡ length left =
      length-kept envs left once.1 (HasNodupKeys-delete env.id m u) (λ j x p. own j x (still j x p))
        (λ x. (
          λ p.
              lookup-delete env.id x.id m
              ∙ rw (beq_ne env.id x.id (λ e. at_each env.id x envs once.0 p (sym e)))
                  ((same x).0 (Memᴰ.tail p)),
          λ q. elim (Memᴰ.cases_cons ((same x).1 (still x.id x q))) [
            | inl here ↦ absurd (gone (subst (λ y. lookup y.id left ≡ some x) here q))
            | inr there ↦ there
          ],
        )) in
    ap suc shorter ∙ length-delete env.id env m kept u
  where
    still :
        (j : Bytes) (x : Envelope)
        → lookup j (Prelude.delete env.id m) ≡ some x
        → lookup j m ≡ some x
    still j x p = ground (arith, lookup-delete env.id j m)

    gone : {x : Envelope} → lookup env.id (Prelude.delete env.id m) ≢ some x
    gone {x} p =
        let no : none ≡ some x =
          sym (lookup-delete env.id env.id m ∙ rw (beq_refl env.id) refl) ∙ p in
        cc

delete_each-HasNodupKeys :
    (ids : List Bytes) (m : Kept) → HasNodupKeys m → HasNodupKeys (delete_each ids m)
unfolding delete_each
delete_each-HasNodupKeys [] m u = u
delete_each-HasNodupKeys (id ∷ ids) m u =
    delete_each-HasNodupKeys ids (Prelude.delete id m) (HasNodupKeys-delete id m u)

if_done-HasNodupKeys :
    (e : Option Error) (m' m : Kept)
    → HasNodupKeys m'
    → HasNodupKeys m
    → HasNodupKeys (if_done e m' m)
unfolding if_done
if_done-HasNodupKeys none m' m u v = u
if_done-HasNodupKeys (some e) m' m u v = v

module _ (d : Disk) where
  open d use {Bucket}

  run-HasNodupKeys :
      (os : List Op) (s : Bucket × Kept) → HasNodupKeys s.1 → HasNodupKeys (run d os s).1
  unfolding run step
  run-HasNodupKeys [] s u = u
  run-HasNodupKeys (saves commits env ∷ os) (b, m) u =
      run-HasNodupKeys os (step d (saves commits env) (b, m)) (
        if_done-HasNodupKeys (save d commits env b).1 (insert env.id env m) m
          (HasNodupKeys-insert env.id env m u) u)
  run-HasNodupKeys (deletes commits ids ∷ os) (b, m) u =
      run-HasNodupKeys os (step d (deletes commits ids) (b, m)) (
        if_done-HasNodupKeys (delete d commits ids b).1 (delete_each ids m) m
          (delete_each-HasNodupKeys ids m u) u)

  -- The envelopes of a bucket stand under their ids.
  abbrev IsOwn : Map Bytes → Type 0
  IsOwn m =
      (j v : Bytes) (env : Envelope) → lookup j m ≡ some v → d.unmarshal v ≡ some env → env.id ≡ j

  Mirrors-IsOwn : (b : Bucket) (m : Kept) → Mirrors d b m → IsOwn (d.entries b)
  Mirrors-IsOwn b m h j v env e x =
      let at : IsStored d (some v) (lookup j m) =
        subst (λ o. IsStored d o (lookup j m)) e (h.stored j) in
      h.own_id j env (sym at.0 ∙ x)

  found-AreOnce :
      (filter : QueryFilter) (m : Map Bytes) → HasNodupKeys m → IsOwn m → AreOnce (found d filter m)
  unfolding found IsFound
  found-AreOnce filter [] u own = tt
  found-AreOnce filter ((k, v) ∷ rest) u own =
      go (found-AreOnce filter rest u.1 next) (d.unmarshal v) refl
    where
      next : IsOwn rest
      next j w env e x = own j w env (lookup-tail d j k v w rest u e) x

      put :
          (b : Bool) (env : Envelope)
          → env.id ≡ k
          → AreOnce (found d filter rest)
          → AreOnce (if b then env ∷ found d filter rest else found d filter rest)
      put false env it later = later
      put true env it later = (
        each (found d filter rest) (λ x p same.
            let (ok, (j, w, e, y)) = (found_iff d filter x rest u.1).0 p in
            let at : j ≡ k = sym (next j w x e y) ∙ same ∙ it in
            let no : none ≡ some w = sym u.0 ∙ ap (λ i. lookup i rest) (sym at) ∙ e in cc),
        later,
      )

      go :
          AreOnce (found d filter rest)
          → (o : Option Envelope) → d.unmarshal v ≡ o
          → AreOnce (elim o [
            | none ↦ found d filter rest
            | some env ↦
                if matches filter env then env ∷ found d filter rest else found d filter rest
          ])
      go later none e = later
      go later (some env) e =
          put (matches filter env) env (own k v env (lookup-own d k v rest) e) later

  -- Query finds no id twice.
  pub query-AreOnce :
      (ops : List Op) (filter : QueryFilter)
      → AreOnce (query d filter (run d ops (d.empty, [])).0).0
  unfolding query
  query-AreOnce ops filter =
      let (b, m) = run d ops (d.empty, []) in
      let mirrors : Mirrors d b m = run-Mirrors d ops d.empty [] (empty-Mirrors d) in
      let distinct = d.entries-HasNodupKeys b in
      let all =
        query_loop-found d filter (d.entries b) [] distinct (Mirrors-AllDecode d b m mirrors) in
      subst AreOnce (sym (ap (λ r. r.0) all))
        (found-AreOnce filter (d.entries b) distinct (Mirrors-IsOwn b m mirrors))

  -- A query that lists all that is kept lists as many envelopes as are kept.
  pub query-length :
      (ops : List Op) (filter : QueryFilter)
      → let (b, m) = run d ops (d.empty, []) in
        ((env : Envelope) → Memᴰ env (query d filter b).0 ↔ (lookup env.id m ≡ some env))
        → length (query d filter b).0 ≡ length m
  query-length ops filter same =
      let (b, m) = run d ops (d.empty, []) in
      let mirrors : Mirrors d b m = run-Mirrors d ops d.empty [] (empty-Mirrors d) in
      length-kept (query d filter b).0 m (query-AreOnce ops filter)
        (run-HasNodupKeys ops (d.empty, []) tt) mirrors.own_id same
