-- ===== src/Prelude/Digits.antt =====
-- fmt's %d for a number that is not negative.
use Prim.Native.Nat.{ℕ, zero, suc, ◌+◌, ◌-◌, ◌*◌, ◌/◌, ◌%◌, ◌<◌}
use mathlib.Core.Path.{◌≡◌, refl, ap, sym, ◌∙◌}
use mathlib.Core.Logic.{inl, inr}
use mathlib.Core.List.{[], ◌∷◌, ◌++◌}
use native.Mathlib.Omega.{arith}
use multi_region.Prelude.Tests.{ltb, ltb→lt, if◌then◌else◌, Bool-cases}
use multi_region.Prelude.Strings.{Bytes}
use multi_region.Prelude.Lists.{All, All-append}

-- The fuel `suc n` suffices: `value-digits` has the number back.
digits : ℕ → ℕ → Bytes
digits zero n = []
digits (suc f) n =
    let rest = digits f (n / 10) in
    if ltb n 10 then (b'0' + n) ∷ [] else rest ++ (b'0' + n % 10) ∷ []

unfoldable pub decimal : ℕ → Bytes
unfolding digits
decimal n = digits (suc n) n

value : ℕ → Bytes → ℕ
value acc [] = acc
value acc (c ∷ cs) = value (acc * 10 + (c - b'0')) cs

value-append : (acc : ℕ) (xs ys : Bytes) → value acc (xs ++ ys) ≡ value (value acc xs) ys
unfolding value
value-append acc [] ys = refl
value-append acc (x ∷ xs) ys = value-append (acc * 10 + (x - b'0')) xs ys

value-digits : (f n : ℕ) → n < f → value 0 (digits f n) ≡ n
unfolding digits value
value-digits zero n h = elim h [ ]
value-digits (suc f) n h = elim (Bool-cases (ltb n 10)) [
  | inl small ↦ rw small (omega arith)
  | inr large ↦ rw large (
      rw
        (
          value-append 0 (digits f (n / 10)) ((b'0' + n % 10) ∷ []),
          value-digits f (n / 10) (ground arith),
        )
        (omega arith))
]

pub decimal-injective : (m n : ℕ) → decimal m ≡ decimal n → m ≡ n
unfolding decimal
decimal-injective m n e =
    sym (value-digits (suc m) m (omega arith))
    ∙ ap (value 0) e
    ∙ value-digits (suc n) n (omega arith)

-- What holds of the ten digits holds of each character.
digits-All : (P : ℕ → Type 0) → ((i : ℕ) → i < 10 → P (b'0' + i)) → (f n : ℕ) → All P (digits f n)
unfolding digits
digits-All P h zero n = tt
digits-All P h (suc f) n = elim (Bool-cases (ltb n 10)) [
  | inl small ↦ rw small (h n (ltb→lt n 10 small), tt)
  | inr large ↦ rw large (
      All-append P (digits f (n / 10)) ((b'0' + n % 10) ∷ []) (digits-All P h f (n / 10))
        (h (n % 10) (omega arith), tt))
]

pub decimal-All : (P : ℕ → Type 0) → ((i : ℕ) → i < 10 → P (b'0' + i)) → (n : ℕ) → All P (decimal n)
unfolding decimal
decimal-All P h n = digits-All P h (suc n) n
