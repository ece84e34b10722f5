-- ===== src/Envelope.antt =====
-- proto/node.pb.go: the one message that the framework moves.
use multi_region.Prelude.{Bytes, ℤ}

pub record Envelope : Type 0 where
  pub id : Bytes
  pub kind : Bytes
  pub payload : Bytes
  pub timestamp : ℤ
