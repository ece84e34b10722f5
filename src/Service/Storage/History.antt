-- ===== src/Service/Storage/History.antt =====
-- examples/node/storage/bolt.go: the store after any calls of Save and Delete, beside
-- the latest envelope of each id.
use multi_region.Prelude.{
  ◌≡◌, refl, sym, ◌∙◌, ap, subst, ◌≢◌, ◌↔◌, ◌⊎◌, inl, inr, Bool, true, false, Option, none, some,
  List, [], ◌∷◌, ◌++◌, Bytes, beq, beq_iff, if◌then◌else◌, Map, lookup, insert, HasNodupKeys,
  lookup-insert, arith, Option-cases,
}
use multi_region.Prelude
use multi_region.Envelope.{Envelope}
use multi_region.Service.Storage.Bolt.{Disk}
use multi_region.Service.Storage.{Error, update, save_data, save, delete_all, delete}

-- The calls that change the store, with whether the transaction's commit succeeds.
pub data Op : Type 0 where
  saves : Bool → Envelope → Op
  deletes : Bool → List Bytes → Op

-- The store seen as the latest envelope of each id.
abbrev pub Kept : Type 0
Kept = Map Envelope

unfoldable pub delete_each : List Bytes → Kept → Kept
delete_each [] m = m
delete_each (id ∷ ids) m = delete_each ids (Prelude.delete id m)

-- A call that returns an error changes nothing.
unfoldable pub if_done : Option Error → Kept → Kept → Kept
if_done none m' m = m'
if_done (some e) m' m = m

module _ (d : Disk) where
  open d use {Bucket}

  unfoldable pub step : Op → Bucket × Kept → Bucket × Kept
  step (saves commits env) (b, m) =
      let (b', e) = save d commits env b in (b', if_done e (insert env.id env m) m)
  step (deletes commits ids) (b, m) =
      let (b', e) = delete d commits ids b in (b', if_done e (delete_each ids m) m)

  unfoldable pub run : List Op → Bucket × Kept → Bucket × Kept
  run [] s = s
  run (o ∷ os) s = run os (step o s)

  -- A stored value is the encoding of the envelope that is kept.
  abbrev pub IsStored : Option Bytes → Option Envelope → Type 0
  IsStored none e = e ≡ none
  IsStored (some v) e = (d.unmarshal v ≡ e) × (e ≢ none)

  pub record Mirrors (b : Bucket) (m : Kept) : Type 0 where
    pub stored : (j : Bytes) → IsStored (lookup j (d.entries b)) (lookup j m)
    pub own_id : (j : Bytes) (env : Envelope) → lookup j m ≡ some env → env.id ≡ j

  put-Mirrors :
      (env : Envelope) (v : Bytes) (b b' : Bucket) (m : Kept)
      → d.marshal env ≡ some v
      → d.put env.id v b ≡ some b'
      → Mirrors b m
      → Mirrors b' (insert env.id env m)
  put-Mirrors env v b b' m e p h = record {
    stored = λ j.
        rw (d.lookup-put env.id v j b b' p, lookup-insert env.id j env m)
          (split (beq env.id j) (lookup j (d.entries b)) (lookup j m) (h.stored j));
    own_id =
        λ j x q. ground (arith, lookup-insert env.id j env m, beq_iff env.id j, h.own_id j x, q);
  }
    where
      split :
          (same : Bool) (o : Option Bytes) (k : Option Envelope)
          → IsStored o k
          → IsStored (if same then some v else o) (if same then some env else k)
      split true o k s = (d.unmarshal-marshal env v e, λ q. cc)
      split false o k s = s

  delete-Mirrors :
      (id : Bytes) (b b' : Bucket) (m : Kept)
      → d.delete id b ≡ some b'
      → Mirrors b m
      → Mirrors b' (Prelude.delete id m)
  delete-Mirrors id b b' m p h = record {
    stored = λ j.
        rw (d.lookup-delete id j b b' p, Prelude.lookup-delete id j m)
          (split (beq id j) (lookup j (d.entries b)) (lookup j m) (h.stored j));
    own_id = λ j x q. ground (arith, Prelude.lookup-delete id j m, h.own_id j x, q);
  }
    where
      split :
          (same : Bool) (o : Option Bytes) (k : Option Envelope)
          → IsStored o k
          → IsStored (if same then none else o) (if same then none else k)
      split true o k s = refl
      split false o k s = s

  update-Mirrors :
      (b : Bucket) (o : Option Bucket) (commits : Bool) (m m' : Kept)
      → Mirrors b m
      → ((b' : Bucket) → o ≡ some b' → Mirrors b' m')
      → let (b', e) = update d b o commits in Mirrors b' (if_done e m' m)
  unfolding update if_done
  update-Mirrors b none commits m m' h n = h
  update-Mirrors b (some b') true m m' h n = n b' refl
  update-Mirrors b (some b') false m m' h n = h

  delete_all-Mirrors :
      (ids : List Bytes) (b b' : Bucket) (m : Kept)
      → delete_all d ids b ≡ some b'
      → Mirrors b m
      → Mirrors b' (delete_each ids m)
  unfolding delete_all delete_each
  delete_all-Mirrors [] b b' m p h = let same : b ≡ b' = cc in subst (λ x. Mirrors x m) same h
  delete_all-Mirrors (id ∷ ids) b b' m p h =
      go (λ b₁. delete_all-Mirrors ids b₁ b' (Prelude.delete id m)) (d.delete id b) refl p
    where
      go :
          ((b₁ : Bucket)
            → delete_all d ids b₁ ≡ some b'
            → Mirrors b₁ (Prelude.delete id m)
            → Mirrors b' (delete_each ids (Prelude.delete id m)))
          → (o : Option Bucket) → d.delete id b ≡ o
          → elim o [ none ↦ none | some b₁ ↦ delete_all d ids b₁ ] ≡ some b'
          → Mirrors b' (delete_each ids (Prelude.delete id m))
      go later none e q = cc
      go later (some b₁) e q = later b₁ q (delete-Mirrors id b b₁ m e h)

  save_data-Mirrors :
      (commits : Bool) (env : Envelope) (b : Bucket) (m : Kept) (o : Option Bytes)
      → d.marshal env ≡ o
      → Mirrors b m
      → let (b', e) = save_data d commits env.id o b in
        Mirrors b' (if_done e (insert env.id env m) m)
  unfolding save_data if_done
  save_data-Mirrors commits env b m none e h = h
  save_data-Mirrors commits env b m (some v) e h =
      update-Mirrors b (d.put env.id v b) commits m (insert env.id env m) h
        (λ b' p. put-Mirrors env v b b' m e p h)

  step-Mirrors :
      (o : Op) (b : Bucket) (m : Kept) → Mirrors b m → let (b', m') = step o (b, m) in Mirrors b' m'
  unfolding step save delete
  step-Mirrors (saves commits env) b m h = save_data-Mirrors commits env b m (d.marshal env) refl h
  step-Mirrors (deletes commits ids) b m h =
      update-Mirrors b (delete_all d ids b) commits m (delete_each ids m) h
        (λ b' p. delete_all-Mirrors ids b b' m p h)

  pub run-Mirrors :
      (os : List Op) (b : Bucket) (m : Kept)
      → Mirrors b m
      → let (b', m') = run os (b, m) in Mirrors b' m'
  unfolding run
  run-Mirrors [] b m h = h
  run-Mirrors (o ∷ os) b m h =
      run-Mirrors os (step o (b, m)).0 (step o (b, m)).1 (step-Mirrors o b m h)

  pub empty-Mirrors : Mirrors d.empty []
  unfolding lookup
  empty-Mirrors = record { stored = λ j. rw d.entries-empty refl; own_id = λ j env p. cc }
