-- ===== src/Service/Api/Routes/Safe.antt =====
-- examples/node/main.go, `startAPIServer`: what the handlers of the patterns for GET change.
use multi_region.Prelude.{
  ℕ, zero, suc, ◌≡◌, refl, sym, ap, ◌∙◌, ◌≢◌, ◌⊎◌, inl, inr, Option, none, some, List, [], ◌∷◌,
  Bytes, str, map, get_elem?, false, beq, differ, All, All-get_elem?, if◌then◌else◌,
}
use multi_region.Grpc.{Grpc}
use multi_region.Node.{State, Clock}
use multi_region.Service.Storage.Bolt.{Disk}
use multi_region.Service.Api.{Service}
use multi_region.Service.Api.Routes.{
  Http, HttpRequest, Reader, routes, read_by, route, answer, answer_routed, serve,
}

-- What stands before the first space of a pattern, if it has one: its method.
abbrev pub method_of : Bytes → Option Bytes
method_of [] = none
method_of (b ∷ bs) =
    let rest = method_of bs in
    if beq (b ∷ []) (str " ") then some [] else elim rest [ none ↦ none | some m ↦ some (b ∷ m) ]

-- As package net/http says: a pattern that has a method matches requests of this method, and one for
-- GET those of HEAD too.
abbrev pub KeepsMethods : Http → Type 0
KeepsMethods h =
    (patterns : List Bytes) (r : HttpRequest) (i : ℕ) (values : Bytes → Bytes) (p m : Bytes)
    → h.mux patterns r ≡ some (i, values)
    → get_elem? patterns i ≡ some p
    → method_of p ≡ some m
    → (r.method ≡ m) ⊎ ((m ≡ str "GET") × (r.method ≡ str "HEAD"))

-- The method of a request that asks only.
abbrev pub Asks : Bytes → Type 0
Asks method = (method ≡ str "GET") ⊎ (method ≡ str "HEAD")

get_elem?-map :
    {A B : Type 0} (f : A → B) (xs : List A) (i : ℕ) (a : A)
    → get_elem? xs i ≡ some a
    → get_elem? (map f xs) i ≡ some (f a)
get_elem?-map f [] i a e = cc
get_elem?-map f (x ∷ xs) zero a e = let same : x ≡ a = cc in ap (λ y. some (f y)) same
get_elem?-map f (x ∷ xs) (suc i) a e = get_elem?-map f xs i a e

-- A pattern for a method that does more than ask.
abbrev IsForOther : Bytes → Type 0
IsForOther p = (m : Bytes) × (method_of p ≡ some m) × (m ≢ str "GET") × (m ≢ str "HEAD")

for_other :
    (p m : Bytes)
    → method_of p ≡ some m
    → beq m (str "GET") ≡ false
    → beq m (str "HEAD") ≡ false
    → IsForOther p
for_other p m e get head = (m, e, differ m (str "GET") get, differ m (str "HEAD") head)

module _ (g : Grpc) (d : Disk) (h : Http) where
  -- The handler changes nothing, or its pattern is for another method.
  IsSafe : Bytes × Reader h → Type 0
  IsSafe (p, reader) =
      ((now : Clock) (r : HttpRequest) (values : Bytes → Bytes) (st : State g (Service d))
        → (answer h now (reader r values) st).1 ≡ st)
      ⊎ IsForOther p

  routes-All : All IsSafe (routes h)
  unfolding IsSafe routes answer beq
  routes-All = (
    inl (λ now r values st. refl),
    (
      inr (for_other (str "POST /api/v1/agent/logs") (str "POST") refl refl refl),
      (
        inr (for_other (str "POST /api/v1/admin/config") (str "POST") refl refl refl),
        (
          inr (for_other (str "POST /api/v1/admin/config/{child_id}") (str "POST") refl refl refl),
          (
            inl (λ now r values st. refl),
            (
              inl (λ now r values st. refl),
              (
                inl (λ now r values st. refl),
                (
                  inl (λ now r values st. refl),
                  (
                    inr (
                        for_other (str "POST /api/v1/admin/allowed-children") (str "POST") refl refl
                          refl),
                    (
                      inr (
                          for_other (str "DELETE /api/v1/admin/allowed-children/{node_id}")
                            (str "DELETE") refl refl refl),
                      (inl (λ now r values st. refl), (inl (λ now r values st. refl), tt)),
                    ),
                  ),
                ),
              ),
            ),
          ),
        ),
      ),
    ),
  )

  -- With package net/http matching methods as it says: a request that only asks, by GET or by HEAD,
  -- changes nothing of the program, whatever it asks for.
  pub gets_are_safe :
      KeepsMethods h
      → (now : Clock) (r : HttpRequest) (st : State g (Service d)) → Asks r.method
      → (serve h now r st).1 ≡ st
  unfolding serve route answer_routed read_by IsSafe
  gets_are_safe law now r st asks = picked (h.mux (map (λ e. e.0) (routes h)) r) refl
    where
      found :
          (i : ℕ) (values : Bytes → Bytes) (o : Option (Bytes × Reader h))
          → h.mux (map (λ e. e.0) (routes h)) r ≡ some (i, values)
          → get_elem? (routes h) i ≡ o
          → (answer_routed h now r (read_by h r values o) st).1 ≡ st
      found i values none m e = refl
      found i values (some (p, reader)) m e =
          elim (All-get_elem? IsSafe (routes h) i (p, reader) e routes-All) [
            | inl safe ↦ safe now r values st
            | inr (method, is, get, head) ↦
                elim (law _ r i values p method m
                  (get_elem?-map (λ e. e.0) (routes h) i (p, reader) e) is) [
                    | inl same ↦ elim asks [
                      | inl a ↦ absurd (get (sym same ∙ a))
                      | inr a ↦ absurd (head (sym same ∙ a))
                    ]
                    | inr (is_get, _) ↦ absurd (get is_get)
                  ]
          ]

      picked :
          (o : Option (ℕ × (Bytes → Bytes)))
          → h.mux (map (λ e. e.0) (routes h)) r ≡ o
          → (answer_routed h now r
              (elim o [
                | none ↦ none
                | some (i, values) ↦ read_by h r values (get_elem? (routes h) i)
              ])
              st).1
            ≡ st
      picked none m = refl
      picked (some (i, values)) m = found i values (get_elem? (routes h) i) m refl
