-- ===== src/Server/Order.antt =====
-- transport/server.go, `BroadcastDownstream`: the order in which Go visits the map of children.
use multi_region.Prelude.{
  ℕ, suc, ◌<◌, ◌↔◌, ◌≡◌, refl, sym, ap, ◌∙◌, subst, Bool, true, false, ◌&&◌, ◌||◌, none, List, [],
  ◌∷◌, ◌++◌, length, get_or, Bytes, Map, if◌then◌else◌, ◌==◌, arith,
}
use mathlib.Core.List.{Perm, Permᴰ}
use mathlib.Core.List.Perm
use mathlib.Core.Logic.{∥∥₁_elim}
use native.Mathlib.Nat.{ℕ_set}
use multi_region.Envelope.{Envelope}
use multi_region.Server.{Server, broadcast_downstream}
use multi_region.Server.Channels.{has_channel, has_room, Within, AreDistinct}
use multi_region.Server.Broadcast.{full_keys, broadcast_delivers}

or_swap : (a b c : Bool) → (a || (b || c)) ≡ (b || (a || c))
or_swap a b c = ground arith

has_channel-perm : {m m' : Map ℕ} (d : ℕ) → Permᴰ m m' → has_channel m d ≡ has_channel m' d
has_channel-perm d Permᴰ.nil = refl
has_channel-perm d (Permᴰ.cons {a} {b} {l₁} {l₂} e p) =
    ap (λ x. has_channel (x ∷ l₁) d) e ∙ ap (λ r. (b.1 == d) || r) (has_channel-perm d p)
has_channel-perm d (Permᴰ.swap {a} {b} {a'} {b'} {l} e f) =
    or_swap (a.1 == d) (b.1 == d) (has_channel l d)
    ∙ ap (λ x. has_channel (x ∷ a ∷ l) d) f
    ∙ ap (λ x. has_channel (a' ∷ x ∷ l) d) e
has_channel-perm d (Permᴰ.trans p q) = has_channel-perm d p ∙ has_channel-perm d q

put_perm :
    (b : Bool) (k : Bytes) {xs ys : List Bytes}
    → Perm xs ys
    → Perm (if b then xs else k ∷ xs) (if b then ys else k ∷ ys)
put_perm true k p = p
put_perm false k p = Perm.cons k p

swap_perm :
    (b c : Bool) (k j : Bytes) (xs : List Bytes)
    → let inner = λ (x : Bool) (i : Bytes) (zs : List Bytes). if x then zs else i ∷ zs in
      Perm (inner b k (inner c j xs)) (inner c j (inner b k xs))
swap_perm true c k j xs = Perm.refl _
swap_perm false true k j xs = Perm.refl _
swap_perm false false k j xs = Perm.swap j k xs

full_keys-perm :
    (channels : List (List Envelope)) {m m' : Map ℕ}
    → Permᴰ m m'
    → Perm (full_keys channels m) (full_keys channels m')
unfolding full_keys
full_keys-perm ch Permᴰ.nil = Perm.refl []
full_keys-perm ch (Permᴰ.cons {a} {b} {l₁} {l₂} e p) =
    subst (λ x. Perm (full_keys ch (a ∷ l₁)) (full_keys ch (x ∷ l₂))) e
      (put_perm (has_room ch a.1) a.0 (full_keys-perm ch p))
full_keys-perm ch (Permᴰ.swap {a} {b} {a'} {b'} {l} e f) =
    subst (λ x. Perm (full_keys ch (a ∷ b ∷ l)) (full_keys ch (x ∷ b' ∷ l))) f
      (subst (λ x. Perm (full_keys ch (a ∷ b ∷ l)) (full_keys ch (b ∷ x ∷ l))) e
        (swap_perm (has_room ch a.1) (has_room ch b.1) a.0 b.0 (full_keys ch l)))
full_keys-perm ch (Permᴰ.trans p q) = Perm.trans (full_keys-perm ch p) (full_keys-perm ch q)

length-permᴰ {ℓ} : {A : Type ℓ} {xs ys : List A} → Permᴰ xs ys → length xs ≡ length ys
length-permᴰ Permᴰ.nil = refl
length-permᴰ (Permᴰ.cons e p) = ap suc (length-permᴰ p)
length-permᴰ (Permᴰ.swap e f) = refl
length-permᴰ (Permᴰ.trans p q) = length-permᴰ p ∙ length-permᴰ q

length-perm {ℓ} : {A : Type ℓ} {xs ys : List A} → Perm xs ys → length xs ≡ length ys
length-perm p = ∥∥₁_elim p (ℕ_set _ _) length-permᴰ

Within-perm : (n : ℕ) {m m' : Map ℕ} → Permᴰ m m' → Within n m → Within n m'
Within-perm n Permᴰ.nil w = w
Within-perm n (Permᴰ.cons {a} {b} e p) w = (subst (λ x. x.1 < n) e w.0, Within-perm n p w.1)
Within-perm n (Permᴰ.swap {a} {b} {a'} {b'} e f) w =
    (subst (λ x. x.1 < n) f w.1.0, (subst (λ x. x.1 < n) e w.0, w.1.1))
Within-perm n (Permᴰ.trans p q) w = Within-perm n q (Within-perm n p w)

AreDistinct-perm : {m m' : Map ℕ} → Permᴰ m m' → AreDistinct m → AreDistinct m'
AreDistinct-perm Permᴰ.nil u = u
AreDistinct-perm (Permᴰ.cons {a} {b} {l₁} {l₂} e p) u = (
  subst (λ x. has_channel l₂ x.1 ≡ false) e (sym (has_channel-perm a.1 p) ∙ u.0),
  AreDistinct-perm p u.1,
)
AreDistinct-perm (Permᴰ.swap {a} {b} {a'} {b'} {l} e f) u =
    subst (λ x. AreDistinct (x ∷ b' ∷ l)) f
      (subst (λ x. AreDistinct (b ∷ x ∷ l)) e
        (ground (arith, u.0, u.1.0), (ground (arith, u.0), u.1.1)))
AreDistinct-perm (Permᴰ.trans p q) u = AreDistinct-perm q (AreDistinct-perm p u)

nil-perm : {xs ys : List Bytes} → Perm xs ys → xs ≡ [] → ys ≡ []
nil-perm {xs} {ys} p e = go ys (sym (length-perm p) ∙ ap length e)
  where
    go : (zs : List Bytes) → length zs ≡ 0 → zs ≡ []
    go [] h = refl
    go (z ∷ zs) h = absurd (omega arith)

-- Go may visit the children in any order: two orders of the same children, each with a channel of
-- its own, give the same number of deliveries, the same dropped keys up to their order, an error in
-- both cases or in none, and leave the same envelopes in each channel.
pub broadcast_order :
    {S : Type 0} (env : Envelope) (s : Server S) (m : Map ℕ)
    → Permᴰ s.children m
    → Within (length s.channels) s.children
    → AreDistinct s.children
    → let (t, r, e) = broadcast_downstream env s in
      let (t', r', e') = broadcast_downstream env (record s { children = m }) in
      (r.delivered ≡ r'.delivered)
      × Perm r.dropped r'.dropped
      × ((e ≡ none) ↔ (e' ≡ none))
      × ((d : ℕ) → get_or t.channels d [] ≡ get_or t'.channels d [])
broadcast_order {S} env s m p w u =
    let a = broadcast_delivers env s w u in
    let b =
      broadcast_delivers env (record s { children = m }) (Within-perm (length s.channels) p w)
        (AreDistinct-perm p u) in
    let same : Perm (broadcast_downstream env s).1.dropped
        (broadcast_downstream env (record s { children = m })).1.dropped =
      rw (a.0, b.0) (full_keys-perm s.channels p) in
    (
      omega (arith, a.1, b.1, length-perm same, length-permᴰ p),
      same,
      (λ h. b.2.1 (nil-perm same (a.2.0 h)), λ h. a.2.1 (nil-perm (Perm.symm same) (b.2.0 h))),
      λ d.
          a.3 d
          ∙ ap
              (λ x. get_or s.channels d [] ++ (if x && has_room s.channels d then env ∷ [] else []))
              (has_channel-perm d p)
          ∙ sym (b.3 d),
    )
