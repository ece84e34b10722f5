-- ===== src/Agent/Tests.antt =====
-- examples/agent: configurations, and an agent that reports to a node without a parent.
use multi_region.Prelude.{
  ℕ, suc, ◌*◌, ◌<◌, ◌≡◌, refl, Option, none, some, List, [], ◌∷◌, ◌++◌, Bytes, str, ℤ, pos, arith,
  All, length, take, drop, beq, if◌then◌else◌,
}
use multi_region.Node.{Clock}
use multi_region.Service.Api.{page}
use multi_region.Service.Api.Routes.{Http}
use multi_region.Agent.{FileConfig, second, interval}
use multi_region.Agent.Interval.{interval_exact}

abbrev every : ℤ → FileConfig
every s = record { service_addr = str "http://127.0.0.1:8081"; interval_seconds = s; payload = [] }

interval_exact_example : interval (every (pos 30)) ≡ pos (30 * second)
interval_exact_example = interval_exact (every (pos 30)) 30 (omega arith) (omega arith) refl

abbrev ticking : ℕ → Clock
ticking t = record { nanos = t; seconds = pos t }

-- A stand-in for JSON: the name of the field, a colon and the value.
abbrev opened : Bytes → Bytes → Option Bytes
opened field p = some (field ++ b':' ∷ p)

abbrev rest_of : Bytes → Bytes → Option Bytes
rest_of field body = some (drop (suc (length field)) body)

abbrev IsAsciiText : Bytes → Type 0
IsAsciiText p = All (λ c. c < 128) p

-- A stand-in for ServeMux: the first pattern that spells the request.
abbrev find : Bytes → List Bytes → Option ℕ
find text [] = none
find text (p ∷ ps) =
    let rest = find text ps in
    if beq p text then some 0 else elim rest [ none ↦ none | some i ↦ some (suc i) ]

abbrev found_at : Option ℕ → Option (ℕ × (Bytes → Bytes))
found_at none = none
found_at (some i) = some (i, λ name. [])

abbrev spelling : Http
spelling = record {
  mux = λ patterns r. found_at (find (r.method ++ str " " ++ r.path) patterns);
  no_route = λ r. record { code = 404; body = page };
  decode = rest_of;
  parse_int = λ text. none;
}

-- The one host there is.
abbrev dialled : Bytes → Option Bytes
dialled url = if beq (take 21 url) (str "http://127.0.0.1:8081") then some (drop 21 url) else none
