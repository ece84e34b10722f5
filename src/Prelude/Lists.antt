-- ===== src/Prelude/Lists.antt =====
-- Lists measured and indexed by native numbers, under the library's names.
use Prim.Native.Nat.{ℕ, zero, suc, ◌+◌, ◌≤◌}
use mathlib.Core.Path.{◌≡◌, refl, ap, subst}
use mathlib.Core.List.{List, [], ◌∷◌, ◌++◌}
use mathlib.Core.Option.{Option, none, some}
use native.Mathlib.Omega.{arith}

module _ {ℓ} {A : Type ℓ} where
  abbrev pub length : List A → ℕ
  length [] = 0
  length (x ∷ xs) = suc (length xs)

  abbrev pub get_elem? : List A → ℕ → Option A
  get_elem? [] i = none
  get_elem? (x ∷ xs) zero = some x
  get_elem? (x ∷ xs) (suc i) = get_elem? xs i

  abbrev pub get_or : List A → ℕ → A → A
  get_or [] i d = d
  get_or (x ∷ xs) zero d = x
  get_or (x ∷ xs) (suc i) d = get_or xs i d

  -- A write out of bounds changes nothing.
  abbrev pub set : List A → ℕ → A → List A
  set [] i v = []
  set (x ∷ xs) zero v = v ∷ xs
  set (x ∷ xs) (suc i) v = x ∷ set xs i v

  -- The list without the element at a position.
  abbrev pub remove_at : List A → ℕ → List A
  remove_at [] i = []
  remove_at (x ∷ xs) zero = xs
  remove_at (x ∷ xs) (suc i) = x ∷ remove_at xs i

  pub length-append : (xs ys : List A) → length (xs ++ ys) ≡ length xs + length ys
  length-append [] ys = omega arith
  length-append (x ∷ xs) ys = omega (arith, length-append xs ys)

module _ {ℓ} {A : Type ℓ} where
  pub length-set : (xs : List A) (i : ℕ) (v : A) → length (set xs i v) ≡ length xs
  length-set [] i v = refl
  length-set (x ∷ xs) zero v = refl
  length-set (x ∷ xs) (suc i) v = omega (arith, length-set xs i v)

  pub length-remove_at :
      (xs : List A) (i : ℕ) {a : A}
      → get_elem? xs i ≡ some a
      → suc (length (remove_at xs i)) ≡ length xs
  length-remove_at [] i h = cc
  length-remove_at (x ∷ xs) zero h = refl
  length-remove_at (x ∷ xs) (suc i) h = omega (arith, length-remove_at xs i h)

-- A predicate that holds of each element.
abbrev pub All {ℓ κ} : {A : Type ℓ} → (A → Type κ) → List A → Type κ
All P [] = Unit
All P (x ∷ xs) = P x × All P xs

pub All-append {ℓ κ} :
    {A : Type ℓ} (P : A → Type κ) (xs ys : List A) → All P xs → All P ys → All P (xs ++ ys)
All-append P [] ys hx hy = hy
All-append P (x ∷ xs) ys hx hy = (hx.0, All-append P xs ys hx.1 hy)

pub All-map₂ {ℓ κ μ ν} :
    {A : Type ℓ} (P : A → Type κ) (Q : A → Type μ) (R : A → Type ν)
    → ((a : A) → P a → Q a → R a)
    → (xs : List A) → All P xs
    → All Q xs
    → All R xs
All-map₂ P Q R f [] p q = tt
All-map₂ P Q R f (x ∷ xs) p q = (f x p.0 q.0, All-map₂ P Q R f xs p.1 q.1)

pub All-remove_at {ℓ κ} :
    {A : Type ℓ} (P : A → Type κ) (xs : List A) (i : ℕ) → All P xs → All P (remove_at xs i)
All-remove_at P [] i p = tt
All-remove_at P (x ∷ xs) zero p = p.1
All-remove_at P (x ∷ xs) (suc i) p = (p.0, All-remove_at P xs i p.1)

pub All-get_elem? {ℓ κ} :
    {A : Type ℓ} (P : A → Type κ) (xs : List A) (i : ℕ) (a : A)
    → get_elem? xs i ≡ some a
    → All P xs
    → P a
All-get_elem? P [] i a e p = cc
All-get_elem? P (x ∷ xs) zero a e p = subst P (cc) p.0
All-get_elem? P (x ∷ xs) (suc i) a e p = All-get_elem? P xs i a e p.1

pub All-map {ℓ κ μ} :
    {A : Type ℓ} (P : A → Type κ) (R : A → Type μ)
    → ((a : A) → P a → R a)
    → (xs : List A) → All P xs
    → All R xs
All-map P R f [] p = tt
All-map P R f (x ∷ xs) p = (f x p.0, All-map P R f xs p.1)

-- The sum of a weight over the elements.
abbrev pub total {ℓ} : {A : Type ℓ} → (A → ℕ) → List A → ℕ
total w [] = 0
total w (x ∷ xs) = w x + total w xs

module _ {ℓ} {A : Type ℓ} (w : A → ℕ) where
  pub total-append : (xs ys : List A) → total w (xs ++ ys) ≡ total w xs + total w ys
  total-append [] ys = omega arith
  total-append (x ∷ xs) ys = omega (arith, total-append xs ys)

  pub total-remove_at :
      (xs : List A) (i : ℕ) (a : A)
      → get_elem? xs i ≡ some a
      → total w (remove_at xs i) + w a ≡ total w xs
  total-remove_at [] i a e = cc
  total-remove_at (x ∷ xs) zero a e = let same : x ≡ a = cc in rw same (omega arith)
  total-remove_at (x ∷ xs) (suc i) a e = omega (arith, total-remove_at xs i a e)

  pub total-set :
      (xs : List A) (i : ℕ) (a v : A)
      → get_elem? xs i ≡ some a
      → total w (set xs i v) + w a ≡ total w xs + w v
  total-set [] i a v e = cc
  total-set (x ∷ xs) zero a v e = let same : x ≡ a = cc in rw same (omega arith)
  total-set (x ∷ xs) (suc i) a v e = omega (arith, total-set xs i a v e)

module _ {ℓ} {A : Type ℓ} where
  abbrev pub drop : ℕ → List A → List A
  drop zero xs = xs
  drop (suc n) [] = []
  drop (suc n) (x ∷ xs) = drop n xs

  abbrev pub take : ℕ → List A → List A
  take zero xs = []
  take (suc n) [] = []
  take (suc n) (x ∷ xs) = x ∷ take n xs

  pub take-append-drop : (n : ℕ) (xs : List A) → take n xs ++ drop n xs ≡ xs
  take-append-drop zero xs = refl
  take-append-drop (suc n) [] = refl
  take-append-drop (suc n) (x ∷ xs) = ap (λ r. x ∷ r) (take-append-drop n xs)

  pub drop-append : (n : ℕ) (xs ys : List A) → n ≤ length xs → drop n (xs ++ ys) ≡ drop n xs ++ ys
  drop-append zero xs ys h = refl
  drop-append (suc n) [] ys h = absurd (omega arith)
  drop-append (suc n) (x ∷ xs) ys h = drop-append n xs ys (omega arith)

  pub drop-get_elem? :
      (n : ℕ) (xs : List A) (a : A)
      → get_elem? xs n ≡ some a
      → (drop n xs ≡ a ∷ drop (suc n) xs) × (suc n ≤ length xs)
  drop-get_elem? n [] a e = cc
  drop-get_elem? zero (x ∷ xs) a e = let same : x ≡ a = cc in (ap (λ y. y ∷ xs) same, omega arith)
  drop-get_elem? (suc n) (x ∷ xs) a e =
      let rest = drop-get_elem? n xs a e in (rest.0, omega (arith, rest.1))

  pub get_elem?-drop :
      (n : ℕ) (xs : List A) (a : A) (rest : List A)
      → drop n xs ≡ a ∷ rest
      → (get_elem? xs n ≡ some a) × (drop (suc n) xs ≡ rest)
  get_elem?-drop zero [] a rest e = cc
  get_elem?-drop zero (x ∷ xs) a rest e = (cc, cc)
  get_elem?-drop (suc n) [] a rest e = cc
  get_elem?-drop (suc n) (x ∷ xs) a rest e = get_elem?-drop n xs a rest e

  pub drop-length : (xs : List A) → drop (length xs) xs ≡ []
  drop-length [] = refl
  drop-length (x ∷ xs) = drop-length xs
