-- ===== src/Resolver.antt =====
-- resolver/resolver.go: where the parent is.
use multi_region.Prelude.{Option, none, some, [], ◌∷◌, Bytes}

pub record StaticResolver : Type 0 where
  pub addr : Bytes

pub new_static_resolver : Bytes → StaticResolver
new_static_resolver addr = record { addr = addr }

address : Bytes → Option Bytes
address [] = none
address (b ∷ bs) = some (b ∷ bs)

-- `none` is the error that no address is configured.
pub parent_addr : StaticResolver → Option Bytes
unfolding address
parent_addr r = address r.addr
