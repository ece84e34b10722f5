-- ===== src/Service/Api/Routes/Picked.antt =====
-- examples/node/main.go, `startAPIServer`: the request of an agent and the handler that it gets to.
use multi_region.Prelude.{
  ℕ, ◌≡◌, refl, ap, false, none, some, [], ◌++◌, Bytes, str, map, get_elem?, take, beq, All,
}
use multi_region.Service.Api.Routes.{Http, HttpRequest, post_agent_log, routes, read_by, route}

-- As package net/http says: of the patterns registered, which have no host and are all different, a
-- request gets the one that spells its method and its path.
abbrev pub PicksSpelled : Http → Type 0
PicksSpelled h =
    (r : HttpRequest) (i : ℕ)
    → let patterns = map (λ e. e.0) (routes h) in
      get_elem? patterns i ≡ some (r.method ++ str " " ++ r.path)
      → All (λ p. beq p (r.method ++ str " " ++ r.path) ≡ false) (take i patterns)
      → (values : Bytes → Bytes) × (h.mux patterns r ≡ some (i, values))

-- A POST of this body to this path.
abbrev pub post_request : Bytes → Bytes → HttpRequest
post_request path body = record { method = str "POST"; path = path; since = []; content = body }

pub route-post_agent_log :
    (h : Http) (body : Bytes)
    → PicksSpelled h
    → route h (post_request (str "/api/v1/agent/logs") body)
      ≡ some (post_agent_log (h.decode (str "payload") body))
unfolding route routes read_by beq
route-post_agent_log h body picks =
    let r = post_request (str "/api/v1/agent/logs") body in
    let (values, e) = picks r 1 refl (refl, tt) in
    ap (λ o. elim o [ none ↦ none | some x ↦ read_by h r x.1 (get_elem? (routes h) x.0) ]) e
