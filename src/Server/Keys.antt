-- ===== src/Server/Keys.antt =====
-- transport/server.go, `registerChild`: when the key made for a child is new, and when it is not.
use multi_region.Prelude.{
  ℕ, ◌+◌, ◌≤◌, ◌≡◌, refl, sym, ap, ◌∙◌, ◌≢◌, Bool, true, false, ◌||◌, some, [], ◌∷◌, ◌++◌, ◌==◌,
  if◌then◌else◌, length, Bytes, str, Map, lookup, insert, lookup-insert, beq_iff, decimal,
  decimal-injective, arith,
}
use mathlib.Core.List.{append_cancel_left, append_cancel_right}
use multi_region.Server.{Server, anonymous_key, duplicate_key, child_key, register_child}
use multi_region.Server.Channels.{has_channel, Within, AreDistinct, Within-lookup}

-- Does a "(" stand in the text?
abbrev pub has_paren : Bytes → Bool
has_paren [] = false
has_paren (b ∷ bs) = b == b'(' || has_paren bs

-- The text from its first "(" on.
from_paren : Bytes → Bytes
from_paren [] = []
from_paren (b ∷ bs) = if b == b'(' then b ∷ bs else from_paren bs

from_paren-append :
    (id rest : Bytes) → has_paren id ≡ false → from_paren (id ++ b'(' ∷ rest) ≡ b'(' ∷ rest
unfolding from_paren
from_paren-append [] rest h = refl
from_paren-append (b ∷ bs) rest h = ground (arith, from_paren-append bs rest)

has_paren-append : (id rest : Bytes) → has_paren (id ++ b'(' ∷ rest) ≡ true
has_paren-append [] rest = refl
has_paren-append (b ∷ bs) rest = ground (arith, has_paren-append bs rest)

-- A claimed node-id, or a key that `registerChild` made with a number from 1 to `n`.
pub data KeyForm (n : ℕ) (key : Bytes) : Type 0 where
  claimed : has_paren key ≡ false → KeyForm n key
  anonymous : (m : ℕ) → m ≤ n → key ≡ anonymous_key m → KeyForm n key
  duplicate :
      (id : Bytes) (m : ℕ)
      → has_paren id ≡ false
      → id ≢ []
      → m ≤ n
      → key ≡ duplicate_key id m
      → KeyForm n key

pub KeyForm-mono : (n n' : ℕ) (key : Bytes) → n ≤ n' → KeyForm n key → KeyForm n' key
KeyForm-mono n n' key h (claimed p) = claimed p
KeyForm-mono n n' key h (anonymous m l e) = anonymous m (omega arith) e
KeyForm-mono n n' key h (duplicate id m p q l e) = duplicate id m p q (omega arith) e

anonymous_key-injective : (m n : ℕ) → anonymous_key m ≡ anonymous_key n → m ≡ n
unfolding anonymous_key
anonymous_key-injective m n e = decimal-injective m n (
    append_cancel_right (decimal m) (decimal n) (str ")")
      (append_cancel_left (str "(anonymous-") _ _ e))

duplicate_key-injective :
    (id id' : Bytes) (m n : ℕ)
    → has_paren id ≡ false
    → has_paren id' ≡ false
    → duplicate_key id m ≡ duplicate_key id' n
    → m ≡ n
unfolding duplicate_key
duplicate_key-injective id id' m n p p' e = decimal-injective m n (
    append_cancel_right (decimal m) (decimal n) (str ")") (
      append_cancel_left (str "(dup-") _ _
        (sym (from_paren-append id _ p) ∙ ap from_paren e ∙ from_paren-append id' _ p')))

anonymous_key-ne-duplicate_key :
    (id : Bytes) (m n : ℕ) → has_paren id ≡ false → id ≢ [] → anonymous_key m ≢ duplicate_key id n
unfolding anonymous_key duplicate_key
anonymous_key-ne-duplicate_key [] m n p q e = absurd (q refl)
anonymous_key-ne-duplicate_key (b ∷ bs) m n p q e = ground arith

claimed-ne-anonymous_key : (key : Bytes) (n : ℕ) → has_paren key ≡ false → key ≢ anonymous_key n
unfolding anonymous_key
claimed-ne-anonymous_key key n p e = ground (arith, ap has_paren e)

claimed-ne-duplicate_key :
    (key id : Bytes) (n : ℕ) → has_paren key ≡ false → key ≢ duplicate_key id n
unfolding duplicate_key
claimed-ne-duplicate_key key id n p e =
    ground (arith, ap has_paren e, has_paren-append id (str "dup-" ++ decimal n ++ str ")"))

-- A key made with the next number is none of those before.
pub anonymous_key-fresh : (n : ℕ) (key : Bytes) → KeyForm n key → key ≢ anonymous_key (n + 1)
anonymous_key-fresh n key (claimed p) e = claimed-ne-anonymous_key key (n + 1) p e
anonymous_key-fresh n key (anonymous m l k) e =
    absurd (omega (arith, anonymous_key-injective m (n + 1) (sym k ∙ e)))
anonymous_key-fresh n key (duplicate id m p q l k) e =
    anonymous_key-ne-duplicate_key id (n + 1) m p q (sym e ∙ k)

pub duplicate_key-fresh :
    (n : ℕ) (key id : Bytes)
    → KeyForm n key
    → has_paren id ≡ false
    → id ≢ []
    → key ≢ duplicate_key id (n + 1)
duplicate_key-fresh n key id (claimed p) h ne e = claimed-ne-duplicate_key key id (n + 1) p e
duplicate_key-fresh n key id (anonymous m l k) h ne e =
    anonymous_key-ne-duplicate_key id m (n + 1) h ne (sym k ∙ e)
duplicate_key-fresh n key id (duplicate id' m p q l k) h ne e =
    absurd (omega (arith, duplicate_key-injective id' id m (n + 1) p h (sym k ∙ e)))

lookup-has_channel : (k : Bytes) (c : ℕ) (m : Map ℕ) → lookup k m ≡ some c → has_channel m c ≡ true
unfolding lookup
lookup-has_channel k c [] e = cc
lookup-has_channel k c ((j, d) ∷ m) e = ground (arith, lookup-has_channel k c m)

insert_over :
    (k : Bytes) (c d : ℕ) (m : Map ℕ)
    → lookup k m ≡ some c
    → (d == c) ≡ false
    → AreDistinct m
    → (length (insert k d m) ≡ length m) × (has_channel (insert k d m) c ≡ false)
unfolding lookup insert
insert_over k c d [] e ne u = cc
insert_over k c d ((j, f) ∷ m) e ne u =
    ground (arith, lookup-has_channel k c m, insert_over k c d m)

-- A node-id is claimable in the form of a made key. If a connected child claimed the very key
-- that the next child without a node-id is given, that child takes over its map entry: the number
-- of children stays the same, and no entry leads to the first child's channel any more.
pub register_child_collides :
    {S : Type 0} (s : Server S) (c : ℕ)
    → lookup (anonymous_key (s.anon_seq + 1)) s.children ≡ some c
    → Within (length s.channels) s.children
    → AreDistinct s.children
    → let (key, d, t) = register_child [] s in
      (key ≡ anonymous_key (s.anon_seq + 1))
      × (lookup key t.children ≡ some d)
      × (length t.children ≡ length s.children)
      × (has_channel t.children c ≡ false)
unfolding register_child child_key
register_child_collides s c e w u =
    (refl, ground (arith, lookup-insert key key d s.children, beq_iff key key), over.0, over.1)
  where
    key : Bytes
    key = anonymous_key (s.anon_seq + 1)

    d : ℕ
    d = length s.channels

    over :
        (length (insert key d s.children) ≡ length s.children)
        × (has_channel (insert key d s.children) c ≡ false)
    over = insert_over key c d s.children e (ground (arith, Within-lookup key c d s.children e w)) u
