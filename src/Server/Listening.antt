-- ===== src/Server/Listening.antt =====
-- transport/server.go, `Listen`: from the address to the credentials that gRPC serves with.
use multi_region.Prelude.{Bool, true, false, Option, none, some}

-- Without credentials of an authenticator the server serves insecurely.
pub data Listening (C : Type 0) : Type 0 where
  listen_failed : Listening C
  tls_failed : Listening C
  serving : Option C → Listening C

-- Whether net.Listen succeeds, and the answer of ServerTLSConfig if there is an authenticator. The
-- error of Serve, with which `Listen` ends, is gRPC's.
unfoldable pub listen : {C : Type 0} → Bool → Option (Option C) → Listening C
listen false authn = listen_failed
listen true none = serving none
listen true (some none) = tls_failed
listen true (some (some settings)) = serving (some settings)
