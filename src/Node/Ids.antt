-- ===== src/Node/Ids.antt =====
-- node/pending.go, `newEnvelope`: which envelopes share an id.
use multi_region.Prelude.{
  ℕ, suc, ◌≡◌, ◌≤◌, ◌↔◌, refl, ap, ◌∙◌, subst, [], ◌∷◌, ◌++◌, Bytes, All, decimal, decimal-All,
  decimal-injective, arith,
}
use multi_region.Node.{Clock, new_envelope}

misplaced : (b : ℕ) (xs ys : Bytes) → All (λ c. suc b ≤ c) (xs ++ b ∷ ys) → ⊥
misplaced b [] ys h = let bad = h.0 in omega (arith, bad)
misplaced b (x ∷ xs) ys h = misplaced b xs ys h.1

-- Texts that are split at a byte that their second halves do not have.
split_at :
    (b : ℕ) (xs xs' ys ys' : Bytes)
    → All (λ c. suc b ≤ c) ys
    → All (λ c. suc b ≤ c) ys'
    → xs ++ b ∷ ys ≡ xs' ++ b ∷ ys'
    → (xs ≡ xs') × (ys ≡ ys')
split_at b [] [] ys ys' h h' e = (refl, cc)
split_at b [] (x ∷ xs') ys ys' h h' e =
    let same : ys ≡ xs' ++ b ∷ ys' = cc in
    absurd (misplaced b xs' ys' (subst (All (λ c. suc b ≤ c)) same h))
split_at b (x ∷ xs) [] ys ys' h h' e =
    let same : ys' ≡ xs ++ b ∷ ys = cc in
    absurd (misplaced b xs ys (subst (All (λ c. suc b ≤ c)) same h'))
split_at b (x ∷ xs) (x' ∷ xs') ys ys' h h' e =
    let first : x ≡ x' = cc in
    let rest : xs ++ b ∷ ys ≡ xs' ++ b ∷ ys' = cc in
    let (left, right) = split_at b xs xs' ys ys' h h' rest in (cc, right)

-- Two envelopes that nodes make have the same id exactly if their nodes have the same node-id and
-- their clocks show the same nanosecond, whatever else they carry.
pub ids_differ :
    (now now' : Clock) (id id' kind kind' payload payload' : Bytes)
    → ((new_envelope now id kind payload).id ≡ (new_envelope now' id' kind' payload').id)
      ↔ ((id ≡ id') × (now.nanos ≡ now'.nanos))
unfolding new_envelope
ids_differ now now' id id' kind kind' payload payload' = (
  (λ e.
      let (left, right) =
        split_at b'-' id id' (decimal now.nanos) (decimal now'.nanos) (above now.nanos)
          (above now'.nanos) e in
      (left, decimal-injective now.nanos now'.nanos right)),
  λ (left, right).
      ap (λ i. i ++ b'-' ∷ decimal now.nanos) left ∙ ap (λ n. id' ++ b'-' ∷ decimal n) right,
)
  where
    above : (n : ℕ) → All (λ c. suc b'-' ≤ c) (decimal n)
    above n = decimal-All (λ c. suc b'-' ≤ c) (λ i k. omega arith) n
