-- ===== src/Grpc.antt =====
-- The part of google.golang.org/grpc that transport/client.go calls, as an interface: a dialled
-- connection, the two streams, and what the network answers. `World` is the state of the network.
pub mod Wire
use multi_region.Prelude.{Bool, Option, List, [], ◌∷◌, ◌++◌, ◌≡◌, ◌↔◌, true, Bytes, if◌then◌else◌}
use multi_region.Envelope.{Envelope}

pub record Grpc : Type 1 where
  pub World : Type 0
  pub Tls : Type 0
  pub Conn : Type 0
  pub UpStream : Type 0
  pub DownStream : Type 0
  pub Cancel : Type 0
  -- `NewClient` with TLS credentials, or with insecure ones (`none`).
  pub new_client : Bytes → Option Tls → World → Option Conn × World
  -- The calls `Upstream` and `Downstream` with the node-id header.
  pub open_upstream : Conn → Bytes → World → Option UpStream × World
  pub open_downstream : Conn → Bytes → Cancel → World → Option DownStream × World
  -- `Send` on an upstream; `true` is a nil error.
  pub send : UpStream → Envelope → World → Bool × World
  -- `Close` of a connection; `true` is a nil error.
  pub close : Conn → World → Bool × World
  pub with_cancel : World → Cancel × World
  pub cancel : Cancel → World → World
  -- Two stream variables hold the same stream.
  pub same_stream : DownStream → DownStream → Bool
  pub same_stream_iff : (a b : DownStream) → (same_stream a b ≡ true) ↔ (a ≡ b)
  -- The envelopes that `Send` accepted so far, in order: `Send` alone adds to them, and it adds the
  -- envelope just when it returns nil.
  pub sent : World → List Envelope
  pub sent-send :
      (u : UpStream) (env : Envelope) (w : World)
      → sent (send u env w).1 ≡ (if (send u env w).0 then sent w ++ env ∷ [] else sent w)
  pub sent-new_client :
      (target : Bytes) (t : Option Tls) (w : World) → sent (new_client target t w).1 ≡ sent w
  pub sent-open_upstream :
      (c : Conn) (node_id : Bytes) (w : World) → sent (open_upstream c node_id w).1 ≡ sent w
  pub sent-close : (c : Conn) (w : World) → sent (close c w).1 ≡ sent w
