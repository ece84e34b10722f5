-- ===== src/Service/Run/Matcher.antt =====
-- A matcher of requests that meets what package net/http says of methods, for patterns without values.
use multi_region.Prelude.{
  ℕ, zero, suc, ◌≡◌, refl, sym, ap, ◌∙◌, Bool, true, false, Option, none, some, List, [], ◌∷◌, ◌++◌,
  Bytes, str, beq, beq_iff, inl, get_elem?, if◌then◌else◌, arith,
}
use multi_region.Service.Api.{page}
use multi_region.Service.Api.Routes.{Http, HttpRequest}
use multi_region.Service.Api.Routes.Safe.{KeepsMethods, method_of}

-- The first that has the request's method and path.
abbrev picks : HttpRequest → Bytes → Bool
picks r p = elim (method_of p) [
  | none ↦ false
  | some m ↦ if beq m r.method then beq p (r.method ++ str " " ++ r.path) else false
]

abbrev later : Option ℕ → Option (ℕ × (Bytes → Bytes))
later none = none
later (some i) = some (i, λ name. [])

abbrev find : HttpRequest → List Bytes → Option ℕ
find r [] = none
find r (p ∷ ps) =
    let rest = find r ps in
    if picks r p then some 0 else elim rest [ none ↦ none | some i ↦ some (suc i) ]

abbrev pub web : Http
web = record {
  mux = λ patterns r. later (find r patterns);
  no_route = λ r. record { code = 404; body = page };
  decode = λ name body. some body;
  parse_int = λ text. none;
}

find-picks :
    (r : HttpRequest) (ps : List Bytes) (i : ℕ) (p : Bytes)
    → find r ps ≡ some i
    → get_elem? ps i ≡ some p
    → picks r p ≡ true
find-picks r [] i p f e = cc
find-picks r (q ∷ ps) i p f e =
    go (picks r q) (find r ps) i refl refl f e (λ j. find-picks r ps j p)
  where
    go :
        (b : Bool) (o : Option ℕ) (i : ℕ)
        → picks r q ≡ b
        → find r ps ≡ o
        → (if b then some 0 else elim o [ none ↦ none | some j ↦ some (suc j) ]) ≡ some i
        → get_elem? (q ∷ ps) i ≡ some p
        → ((j : ℕ) → find r ps ≡ some j → get_elem? ps j ≡ some p → picks r p ≡ true)
        → picks r p ≡ true
    go true o zero b f e n again = let same : q ≡ p = cc in ap (picks r) (sym same) ∙ b
    go true o (suc j) b f e n again = cc
    go false none i b f e n again = cc
    go false (some k) zero b f e n again = cc
    go false (some k) (suc j) b f e n again = let same : k ≡ j = cc in again j (f ∙ ap some same) n

picks-method :
    (r : HttpRequest) (p m : Bytes) → picks r p ≡ true → method_of p ≡ some m → r.method ≡ m
picks-method r p m h e = ground (arith, h, e, beq_iff m r.method)

some_first :
    {i j : ℕ} {v w : Bytes → Bytes}
    → ◌≡◌ {A = Option (ℕ × (Bytes → Bytes))} (some (i, v)) (some (j, w))
    → i ≡ j
some_first {i} e = ap (λ o. elim o [ none ↦ i | some x ↦ x.0 ]) e

pub web-KeepsMethods : KeepsMethods web
web-KeepsMethods patterns r i values p m picked at is =
    inl (picks-method r p m (found (find r patterns) refl picked) is)
  where
    found : (o : Option ℕ) → find r patterns ≡ o → later o ≡ some (i, values) → picks r p ≡ true
    found none f e = cc
    found (some j) f e =
        let same : j ≡ i = some_first e in
        find-picks r patterns j p f (ap (get_elem? patterns) same ∙ at)
