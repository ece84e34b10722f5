-- ===== src/Service/Storage/Opening.antt =====
-- examples/node/storage/bolt.go, `NewBoltStorage`: the store of a database file. The answers of
-- bbolt are arguments: `none` is an error of Open, `some none` a file without the bucket.
use multi_region.Prelude.{Bool, true, false, Option, none, some}
use multi_region.Service.Storage.Bolt.{Disk}

pub data OpenError : Type 0 where
  open_failed : OpenError
  create_failed : OpenError

pub data Opened (d : Disk) : Type 0 where
  opened : d.Bucket → Opened d
  failed : OpenError → Opened d

module _ (d : Disk) where
  -- CreateBucketIfNotExists in a transaction, and whether that commits.
  unfoldable pub create_bucket : Option d.Bucket → Bool → Opened d
  create_bucket found false = failed create_failed
  create_bucket none true = opened d.empty
  create_bucket (some b) true = opened b

  unfoldable pub new_bolt_storage : Option (Option d.Bucket) → Bool → Opened d
  unfolding create_bucket
  new_bolt_storage none commits = failed open_failed
  new_bolt_storage (some found) commits = create_bucket found commits
