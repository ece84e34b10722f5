-- ===== src/Server/Channels.antt =====
-- transport/server.go: lemmas on the map from keys to channels and on the store of channels.
use multi_region.Prelude.{
  ℕ, zero, suc, ◌≤◌, ◌<◌, ◌≡◌, refl, Bool, false, some, List, [], ◌∷◌, ◌++◌, ltb, ◌==◌, ◌||◌,
  if◌then◌else◌, length, get_or, set, All, Bytes, Map, lookup, insert, delete, arith,
}
use multi_region.Envelope.{Envelope}
use multi_region.Server.{channel_size}

-- Is `c` the channel of an entry?
abbrev pub has_channel : Map ℕ → ℕ → Bool
has_channel [] c = false
has_channel ((k, d) ∷ m) c = d == c || has_channel m c

abbrev pub has_room : List (List Envelope) → ℕ → Bool
has_room channels c = ltb (length (get_or channels c [])) channel_size

-- Every channel of the map is below the bound.
abbrev pub Within : ℕ → Map ℕ → Type 0
Within n m = All (λ (e : Bytes × ℕ). e.1 < n) m

-- No two entries share a channel.
abbrev pub AreDistinct : Map ℕ → Type 0
AreDistinct [] = Unit {0}
AreDistinct ((k, c) ∷ m) = (has_channel m c ≡ false) × AreDistinct m

pub Within-mono : (n n' : ℕ) (m : Map ℕ) → n ≤ n' → Within n m → Within n' m
Within-mono n n' [] h w = tt
Within-mono n n' ((k, c) ∷ m) h w = (omega arith, Within-mono n n' m h w.1)

pub Within-insert :
    (n : ℕ) (k : Bytes) (c : ℕ) (m : Map ℕ) → c < n → Within n m → Within n (insert k c m)
unfolding insert
Within-insert n k c [] h w = (h, tt)
Within-insert n k c ((j, d) ∷ m) h w = ground (arith, Within-insert n k c m)

pub Within-delete : (n : ℕ) (k : Bytes) (m : Map ℕ) → Within n m → Within n (delete k m)
unfolding delete
Within-delete n k [] w = tt
Within-delete n k ((j, d) ∷ m) w = ground (arith, Within-delete n k m)

pub has_channel-fresh : (c : ℕ) (m : Map ℕ) → Within c m → has_channel m c ≡ false
has_channel-fresh c [] w = refl
has_channel-fresh c ((k, d) ∷ m) w = ground (arith, has_channel-fresh c m)

has_channel-insert :
    (k : Bytes) (c d : ℕ) (m : Map ℕ)
    → d < c
    → has_channel m d ≡ false
    → has_channel (insert k c m) d ≡ false
unfolding insert
has_channel-insert k c d [] l h = ground arith
has_channel-insert k c d ((j, e) ∷ m) l h = ground (arith, has_channel-insert k c d m)

has_channel-delete :
    (k : Bytes) (d : ℕ) (m : Map ℕ) → has_channel m d ≡ false → has_channel (delete k m) d ≡ false
unfolding delete
has_channel-delete k d [] h = refl
has_channel-delete k d ((j, e) ∷ m) h = ground (arith, has_channel-delete k d m)

pub AreDistinct-insert :
    (k : Bytes) (c : ℕ) (m : Map ℕ) → Within c m → AreDistinct m → AreDistinct (insert k c m)
unfolding insert
AreDistinct-insert k c [] w h = (refl, tt)
AreDistinct-insert k c ((j, d) ∷ m) w h =
    ground (arith, has_channel-fresh c m, has_channel-insert k c d m, AreDistinct-insert k c m)

pub AreDistinct-delete : (k : Bytes) (m : Map ℕ) → AreDistinct m → AreDistinct (delete k m)
unfolding delete
AreDistinct-delete k [] h = tt
AreDistinct-delete k ((j, d) ∷ m) h =
    ground (arith, has_channel-delete k d m, AreDistinct-delete k m)

-- Reads after a write, in range and out of range.
pub get_or-set {ℓ} :
    {A : Type ℓ} (xs : List A) (i j : ℕ) (v d : A)
    → get_or (set xs i v) j d
      ≡ (if i == j then (if ltb i (length xs) then v else d) else get_or xs j d)
get_or-set [] i j v d = ground arith
get_or-set (x ∷ xs) zero zero v d = ground arith
get_or-set (x ∷ xs) zero (suc j) v d = ground arith
get_or-set (x ∷ xs) (suc i) zero v d = ground arith
get_or-set (x ∷ xs) (suc i) (suc j) v d = ground (arith, get_or-set xs i j v d)

pub get_or-append_one {ℓ} :
    {A : Type ℓ} (xs : List A) (d : A) (j : ℕ) → get_or (xs ++ d ∷ []) j d ≡ get_or xs j d
get_or-append_one [] d zero = refl
get_or-append_one [] d (suc j) = refl
get_or-append_one (x ∷ xs) d zero = refl
get_or-append_one (x ∷ xs) d (suc j) = get_or-append_one xs d j

pub get_or-inside {ℓ} :
    {A : Type ℓ} (xss : List (List A)) (i : ℕ) {x : A} {xs : List A}
    → get_or xss i [] ≡ x ∷ xs
    → i < length xss
get_or-inside [] i e = cc
get_or-inside (ys ∷ xss) zero e = omega arith
get_or-inside (ys ∷ xss) (suc i) e = omega (arith, get_or-inside xss i e)

pub Within-lookup : (k : Bytes) (c n : ℕ) (m : Map ℕ) → lookup k m ≡ some c → Within n m → c < n
unfolding lookup
Within-lookup k c n [] e w = cc
Within-lookup k c n ((j, d) ∷ m) e w = ground (arith, Within-lookup k c n m)
