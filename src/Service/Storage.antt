-- ===== src/Service/Storage.antt =====
-- examples/node/storage: the envelopes that a node has seen, in a bbolt database with one bucket.
pub mod Bolt
pub mod Memory
pub mod Found
pub mod Opening
pub mod History
pub mod Latest
pub mod Once
use multi_region.Prelude.{
  Bool, true, false, not, ◌&&◌, ◌||◌, Option, none, some, List, [], ◌∷◌, ◌++◌, Bytes, Map, beq, ℤ,
  pos, ltz, is_zero, if◌then◌else◌,
}
use multi_region.Envelope.{Envelope}
use multi_region.Service.Storage.Bolt.{Disk}

pub record QueryFilter : Type 0 where
  pub kind : Bytes
  pub since : ℤ

pub data Error : Type 0 where
  marshal_failed : Error
  update_failed : Error
  unmarshal_failed : Error

is_empty : Bytes → Bool
is_empty [] = true
is_empty (b ∷ bs) = false

-- The two tests of `Query`: an empty kind and a zero time leave everything in.
pub matches : QueryFilter → Envelope → Bool
unfolding is_empty
matches filter env =
    (is_empty filter.kind || beq env.kind filter.kind)
    && (is_zero filter.since || not (ltz env.timestamp filter.since))

module _ (d : Disk) where
  open d use {Bucket}

  -- `db.Update`: the transaction's error, or that of its commit, leaves the bucket as it was.
  update : Bucket → Option Bucket → Bool → Bucket × Option Error
  update b none commits = (b, some update_failed)
  update b (some b') true = (b', none)
  update b (some b') false = (b, some update_failed)

  save_data : Bool → Bytes → Option Bytes → Bucket → Bucket × Option Error
  unfolding update
  save_data commits key none b = (b, some marshal_failed)
  save_data commits key (some bytes) b = update b (d.put key bytes b) commits

  unfoldable pub save : Bool → Envelope → Bucket → Bucket × Option Error
  unfolding save_data
  save commits env b = save_data commits env.id (d.marshal env) b

  delete_all : List Bytes → Bucket → Option Bucket
  delete_all [] b = some b
  delete_all (id ∷ ids) b = elim (d.delete id b) [ none ↦ none | some b' ↦ delete_all ids b' ]

  pub delete : Bool → List Bytes → Bucket → Bucket × Option Error
  unfolding update delete_all
  delete commits ids b = update b (delete_all ids b) commits

  keep : QueryFilter → Envelope → List Envelope → List Envelope
  keep filter env results = if matches filter env then results ++ env ∷ [] else results

  -- `ForEach` stops at the first error; the results so far are returned with it.
  pub query_loop : QueryFilter → Map Bytes → List Envelope → List Envelope × Option Error
  unfolding keep
  query_loop filter [] results = (results, none)
  query_loop filter ((k, v) ∷ rest) results = elim (d.unmarshal v) [
    | none ↦ (results, some unmarshal_failed)
    | some env ↦ query_loop filter rest (keep filter env results)
  ]

  pub query : QueryFilter → Bucket → List Envelope × Option Error
  unfolding query_loop
  query filter b = query_loop filter (d.entries b) []
