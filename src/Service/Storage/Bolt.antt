-- ===== src/Service/Storage/Bolt.antt =====
-- The parts of go.etcd.io/bbolt and of google.golang.org/protobuf that examples/node/storage calls,
-- as an interface: one bucket, inside a transaction, and the encoding of an envelope.
use multi_region.Prelude.{
  ◌≡◌, Option, none, some, [], Bytes, Map, beq, lookup, if◌then◌else◌, HasNodupKeys,
}
use multi_region.Envelope.{Envelope}

pub record Disk : Type 1 where
  pub Bucket : Type 0
  -- A bucket just created.
  pub empty : Bucket
  -- `Put` and `Delete`; `none` is an error.
  pub put : Bytes → Bytes → Bucket → Option Bucket
  pub delete : Bytes → Bucket → Option Bucket
  -- What `ForEach` visits, in its order.
  pub entries : Bucket → Map Bytes
  -- `proto.Marshal` and `proto.Unmarshal`; `none` is an error.
  pub marshal : Envelope → Option Bytes
  pub unmarshal : Bytes → Option Envelope
  pub entries-empty : entries empty ≡ []
  pub lookup-put :
      (k v j : Bytes) (b b' : Bucket)
      → put k v b ≡ some b'
      → lookup j (entries b') ≡ (if beq k j then some v else lookup j (entries b))
  pub lookup-delete :
      (k j : Bytes) (b b' : Bucket)
      → delete k b ≡ some b'
      → lookup j (entries b') ≡ (if beq k j then none else lookup j (entries b))
  pub entries-HasNodupKeys : (b : Bucket) → HasNodupKeys (entries b)
  pub unmarshal-marshal :
      (env : Envelope) (v : Bytes) → marshal env ≡ some v → unmarshal v ≡ some env
