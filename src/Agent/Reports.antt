-- ===== src/Agent/Reports.antt =====
-- examples/agent/main.go, `startAPIServer` and `handleAgentLog` of examples/node/main.go: the agent
-- and the node that it reports to.
use multi_region.Prelude.{
  ℕ, zero, suc, ◌+◌, ◌<◌, ◌≡◌, Option, none, some, List, [], ◌∷◌, ◌++◌, Bytes, str, All,
}
use multi_region.Grpc.{Grpc}
use multi_region.Node.{State, Clock, send_up}
use multi_region.Service.Storage.Bolt.{Disk}
use multi_region.Service.Api.{Service}
use multi_region.Service.Api.Routes.{Http, serve}
use multi_region.Service.Api.Routes.Picked.{post_request}
use multi_region.Agent.{FileConfig, Error, url, payload_at}

-- The entries that so many rounds give the node from this number on, each by `SendUp`.
pub reports :
    {g : Grpc} {d : Disk}
    → (ℕ → Clock)
    → FileConfig
    → ℕ
    → ℕ
    → ℕ × State g (Service d)
    → ℕ × State g (Service d)
reports clock cfg zero n (t, st) = (t, st)
reports clock cfg (suc k) n (t, st) =
    reports clock cfg k (n + 1) (t + 1, send_up (clock t) (str "log") (payload_at cfg n) st)

pub sent : ℕ → List (Option Error)
sent zero = []
sent (suc k) = none ∷ sent k

-- What json.Marshal writes of a valid text, the decoder reads; of other bytes it replaces some.
abbrev pub Decodes :
    (Bytes → Type 0) → (Bytes → Bytes → Option Bytes) → (Bytes → Bytes → Option Bytes) → Type 0
Decodes IsText marshal decode =
    (field p : Bytes)
    → IsText field
    → IsText p
    → (body : Bytes) × (marshal field p ≡ some body) × (decode field body ≡ some p)

-- Bytes below 128 are valid text.
abbrev pub HasAscii : (Bytes → Type 0) → Type 0
HasAscii IsText = (p : Bytes) → All (λ c. c < 128) p → IsText p

-- At this address, with no path of its own, an HTTP client finds the node, and asks it for the path
-- that follows the address.
abbrev pub LeadsToNode : (Bytes → Option Bytes) → Bytes → Type 0
LeadsToNode target addr = (path : Bytes) → target (addr ++ b'/' ∷ path) ≡ some (b'/' ∷ path)

module _ {g : Grpc} {d : Disk} (h : Http) (target : Bytes → Option Bytes) (clock : ℕ → Clock) where
  -- The POST of an HTTP client: `target` is the path that it asks the node for, if the URL leads to
  -- the node; the handler of this number reads this clock.
  pub post_to : Bytes → Bytes → ℕ × State g (Service d) → Option ℕ × (ℕ × State g (Service d))
  post_to url body (t, st) = elim (target url) [
    | none ↦ (none, (t, st))
    | some path ↦
        let (r, st') = serve h (clock t) (post_request path body) st in (some r.code, (t + 1, st'))
  ]
