-- ===== src/Certs/Written.antt =====
-- What the steps of a program over `Tools` leave behind if none of them fails.
use multi_region.Prelude.{
  ◌≡◌, ◌≢◌, refl, ◌∙◌, subst, sym, true, Option, none, some, List, [], ◌∷◌, Bytes, lookup,
  lookup-insert, beq_refl, beq_ne, All, Bool-cases, inl, inr,
}
use multi_region.Certs.{
  Template, Tools, World, Error, Result, ok, fatal, Run, and_then, or_fatal, attempt, read,
  put_file, encoded, write_pem,
}

abbrev Post : {S A : Type 0} → (A → World S → Type 0) → Result A × World S → Type 0
Post P (ok a, w) = P a w
Post P (fatal e, w) = Unit

pub record IfDone {S A : Type 0} (P : A → World S → Type 0) (r : Result A × World S) : Type 0 where
  pub holds : Post P r

pub and_then-IfDone :
    {S A B : Type 0} {P : A → World S → Type 0} {Q : B → World S → Type 0} {r : Result A × World S}
    {f : A → Run S B}
    → IfDone P r
    → ((a : A) (w : World S) → P a w → IfDone Q (f a w))
    → IfDone Q (and_then r f)
unfolding and_then
and_then-IfDone {S} {A} {B} {P} {Q} {r} {f} h = go r h.holds
  where
    go :
        (r : Result A × World S)
        → Post P r
        → ((a : A) (w : World S) → P a w → IfDone Q (f a w))
        → IfDone Q (and_then r f)
    go (ok a, w) h k = k a w h
    go (fatal e, w) h k = record { holds = tt }

pub IfDone-mono :
    {S A : Type 0} {P Q : A → World S → Type 0} {r : Result A × World S}
    → IfDone P r
    → ((a : A) (w : World S) → P a w → Q a w)
    → IfDone Q r
IfDone-mono {S} {A} {P} {Q} {r} h = go r h.holds
  where
    go : (r : Result A × World S) → Post P r → ((a : A) (w : World S) → P a w → Q a w) → IfDone Q r
    go (ok a, w) h k = record { holds = k a w h }
    go (fatal e, w) h k = record { holds = tt }

pub IfDone-ok :
    {S A : Type 0} {P : A → World S → Type 0} {r : Result A × World S} {a : A} {w : World S}
    → IfDone P r
    → r ≡ (ok a, w)
    → P a w
IfDone-ok {S} {A} {P} h e = (subst (IfDone P) e h).holds

-- No file changes but those at these paths.
abbrev pub Keeps : {S : Type 0} → List Bytes → World S → World S → Type 0
Keeps paths w w' = (q : Bytes) → All (λ p. p ≢ q) paths → lookup q w'.files ≡ lookup q w.files

pub attempt-IfDone :
    {S A : Type 0} (e : Error) (f : S → Option A × S) (w : World S)
    → IfDone (λ a w'. (w'.files ≡ w.files) × ((f w.source).0 ≡ some a)) (attempt e f w)
unfolding attempt
attempt-IfDone {S} {A} e f w = go (f w.source)
  where
    go :
        (r : Option A × S)
        → IfDone (λ a w'. (w'.files ≡ w.files) × (r.0 ≡ some a)) (or_fatal e r w.files)
    go (none, s) = record { holds = tt }
    go (some a, s) = record { holds = (refl, refl) }

pub read-IfDone :
    {S A : Type 0} (f : S → A × S) (w : World S) → IfDone (λ a w'. w'.files ≡ w.files) (read f w)
unfolding read
read-IfDone f w = record { holds = refl }

lookup-put_file :
    {S : Type 0} (path content : Bytes) (w : World S)
    → lookup path (put_file path content w).files ≡ some content
lookup-put_file path content w = lookup-insert path path content w.files ∙ rw (beq_refl path)

put_file-Keeps :
    {S : Type 0} (path content : Bytes) (w : World S)
    → Keeps (path ∷ []) w (put_file path content w)
put_file-Keeps path content w q h = lookup-insert path q content w.files ∙ rw (beq_ne path q h.0)

pub write_pem-IfDone :
    (t : Tools) (path block_type der : Bytes) (w : World t.Source)
    → IfDone
        (λ u w'. (lookup path w'.files ≡ some (t.block block_type der)) × Keeps (path ∷ []) w w')
        (write_pem t path block_type der w)
unfolding write_pem encoded
write_pem-IfDone t path block_type der w = elim (Bool-cases (t.creates path)) [
  | inl eq ↦ rw eq (go (t.encodes path block_type der))
  | inr eq ↦ rw eq (record { holds = tt })
]
  where
    go :
        (o : Option Bytes)
        → IfDone
            (λ u w'.
              (lookup path w'.files ≡ some (t.block block_type der)) × Keeps (path ∷ []) w w')
            (encoded t path block_type der o (put_file path [] w))
    go none = record {
      holds = (
        lookup-put_file path (t.block block_type der) (put_file path [] w),
        λ q h.
            put_file-Keeps path (t.block block_type der) (put_file path [] w) q h
            ∙ put_file-Keeps path [] w q h,
      );
    }
    go (some torn) = record { holds = tt }

-- Every call of the tools succeeds.
pub record Works (t : Tools) : Type 0 where
  pub keys : (s : t.Source) → (key : t.Key) × ((t.generate_key s).0 ≡ some key)
  pub certificates :
      (tpl parent : Template) (key signer : t.Key) (s : t.Source)
      → (der : Bytes) × ((t.create_certificate tpl parent key signer s).0 ≡ some der)
  pub directories : (path : Bytes) → t.mkdir_all path ≡ true
  pub created : (path : Bytes) → t.creates path ≡ true
  pub whole : (path block_type der : Bytes) → t.encodes path block_type der ≡ none

abbrev pub Ends : {S A : Type 0} → Result A × World S → Type 0
Ends {S} {A} r = (a : A) × (w : World S) × (r ≡ (ok a, w))

pub and_then-Ends :
    {S A B : Type 0} {r : Result A × World S} {f : A → Run S B}
    → Ends r
    → ((a : A) (w : World S) → Ends (f a w))
    → Ends (and_then r f)
unfolding and_then
and_then-Ends {S} {A} {B} {r} {f} (a, w, e) k = subst (λ r. Ends (and_then r f)) (sym e) (k a w)

pub attempt-Ends :
    {S A : Type 0} (e : Error) (f : S → Option A × S) (w : World S)
    → ((s : S) → (a : A) × ((f s).0 ≡ some a))
    → Ends (attempt e f w)
unfolding attempt
attempt-Ends {S} {A} e f w h = go (f w.source) (h w.source)
  where
    go : (r : Option A × S) → (a : A) × (r.0 ≡ some a) → Ends (or_fatal e r w.files)
    go (none, s) (a, eq) = cc
    go (some b, s) h = (b, _, refl)

pub read-Ends : {S A : Type 0} (f : S → A × S) (w : World S) → Ends (read f w)
unfolding read
read-Ends f w = ((f w.source).0, record w { source = (f w.source).1 }, refl)

pub write_pem-Ends :
    (t : Tools) (path block_type der : Bytes) (w : World t.Source)
    → Works t
    → Ends (write_pem t path block_type der w)
unfolding write_pem encoded
write_pem-Ends t path block_type der w works =
    rw (works.created path, works.whole path block_type der) (tt, _, refl)
