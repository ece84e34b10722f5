-- ===== src/Prelude/Sublists.antt =====
-- Lists that leave out elements of a list and keep the order of the others.
use mathlib.Core.List.{List, [], ◌∷◌, ◌++◌}

pub data IsSublist {ℓ} {A : Type ℓ} : List A → List A → Type ℓ where
  nil : IsSublist [] []
  skip : {xs ys : List A} (y : A) → IsSublist xs ys → IsSublist xs (y ∷ ys)
  keep : {xs ys : List A} (y : A) → IsSublist xs ys → IsSublist (y ∷ xs) (y ∷ ys)

module _ {ℓ} {A : Type ℓ} where
  pub IsSublist-none : (ys : List A) → IsSublist [] ys
  IsSublist-none [] = nil
  IsSublist-none (y ∷ ys) = skip y (IsSublist-none ys)

  pub IsSublist-itself : (ys : List A) → IsSublist ys ys
  IsSublist-itself [] = nil
  IsSublist-itself (y ∷ ys) = keep y (IsSublist-itself ys)

  pub IsSublist-append :
      (zs : List A) {xs ys : List A} → IsSublist xs ys → IsSublist (xs ++ zs) (ys ++ zs)
  IsSublist-append zs nil = IsSublist-itself zs
  IsSublist-append zs (skip y h) = skip y (IsSublist-append zs h)
  IsSublist-append zs (keep y h) = keep y (IsSublist-append zs h)

  pub IsSublist-append_right :
      (zs : List A) {xs ys : List A} → IsSublist xs ys → IsSublist xs (ys ++ zs)
  IsSublist-append_right zs nil = IsSublist-none zs
  IsSublist-append_right zs (skip y h) = skip y (IsSublist-append_right zs h)
  IsSublist-append_right zs (keep y h) = keep y (IsSublist-append_right zs h)

  pub IsSublist-trans :
      {ys zs : List A} → IsSublist ys zs → (xs : List A) → IsSublist xs ys → IsSublist xs zs
  IsSublist-trans nil xs h = h
  IsSublist-trans (skip z k) xs h = skip z (IsSublist-trans k xs h)
  IsSublist-trans (keep z k) xs (skip y h) = skip z (IsSublist-trans k xs h)
  IsSublist-trans (keep z k) (x ∷ xs) (keep y h) = keep z (IsSublist-trans k xs h)

  pub IsSublist-prefix : (xs zs : List A) {ys : List A} → IsSublist (xs ++ zs) ys → IsSublist xs ys
  IsSublist-prefix xs zs h = IsSublist-trans h xs (IsSublist-append_right zs (IsSublist-itself xs))
