-- ===== src/Service/Storage/Memory.antt =====
-- A disk that meets the interface: a map in memory that refuses the empty key, as bbolt does, and
-- an encoding of envelopes that ends each text with a zero.
use multi_region.Prelude.{
  ℕ, zero, suc, ◌≡◌, refl, sym, ap, ◌∙◌, Option, none, some, List, [], ◌∷◌, ◌++◌, Bytes, Map, ℤ,
  pos, negsuc, beq, lookup, insert, lookup-insert, lookup-delete, HasNodupKeys, HasNodupKeys-insert,
  HasNodupKeys-delete, if◌then◌else◌, arith,
}
use multi_region.Prelude
use multi_region.Envelope.{Envelope}
use multi_region.Service.Storage.Bolt.{Disk}

pub record Memory : Type 0 where
  pub content : Map Bytes
  pub distinct : HasNodupKeys content

abbrev pub write : Bytes → Bytes → Bytes
write [] rest = 0 ∷ rest
write (b ∷ bs) rest = suc b ∷ write bs rest

abbrev pub read : Bytes → Bytes × Bytes
read [] = ([], [])
read (zero ∷ rest) = ([], rest)
read (suc b ∷ bs) = let (s, rest) = read bs in (b ∷ s, rest)

pub read-write : (s rest : Bytes) → read (write s rest) ≡ (s, rest)
read-write [] rest = refl
read-write (b ∷ bs) rest = ap (λ r. (b ∷ r.0, r.1)) (read-write bs rest)

abbrev pub write_time : ℤ → Bytes
write_time (pos n) = 0 ∷ n ∷ []
write_time (negsuc n) = 1 ∷ n ∷ []

abbrev pub read_time : Bytes → Option ℤ
read_time (zero ∷ n ∷ []) = some (pos n)
read_time (suc b ∷ n ∷ []) = some (negsuc n)
read_time [] = none
read_time (b ∷ []) = none
read_time (b ∷ n ∷ c ∷ rest) = none

pub read_time-write_time : (t : ℤ) → read_time (write_time t) ≡ some t
read_time-write_time (pos n) = refl
read_time-write_time (negsuc n) = refl

abbrev pub encode : Envelope → Bytes
encode env = write env.id (write env.kind (write env.payload (write_time env.timestamp)))

abbrev pub with_time : Bytes → Bytes → Bytes → Option ℤ → Option Envelope
with_time id kind payload none = none
with_time id kind payload (some t) =
    some (record { id = id; kind = kind; payload = payload; timestamp = t })

abbrev pub decode : Bytes → Option Envelope
decode v =
    let (id, v₁) = read v in
    let (kind, v₂) = read v₁ in
    let (payload, v₃) = read v₂ in with_time id kind payload (read_time v₃)

pub decode-encode : (env : Envelope) → decode (encode env) ≡ some env
decode-encode env =
    simp
      (
        read-write env.id (write env.kind (write env.payload (write_time env.timestamp))),
        read-write env.kind (write env.payload (write_time env.timestamp)),
        read-write env.payload (write_time env.timestamp),
        read_time-write_time env.timestamp,
      )
      refl

pub decode_encoded :
    (env : Envelope) (v : Bytes)
    → ◌≡◌ {A = Option Bytes} (some (encode env)) (some v)
    → decode v ≡ some env
decode_encoded env v p = let same : encode env ≡ v = cc in ap decode (sym same) ∙ decode-encode env

abbrev pub put : Bytes → Bytes → Memory → Option Memory
put [] v b = none
put (c ∷ k) v b = some (record {
  content = insert (c ∷ k) v b.content;
  distinct = HasNodupKeys-insert (c ∷ k) v b.content b.distinct;
})

abbrev pub remove : Bytes → Memory → Option Memory
remove k b = some (record {
  content = Prelude.delete k b.content;
  distinct = HasNodupKeys-delete k b.content b.distinct;
})

pub content-put :
    (k v j : Bytes) (b b' : Memory)
    → put k v b ≡ some b'
    → lookup j b'.content ≡ (if beq k j then some v else lookup j b.content)
content-put [] v j b b' p = cc
content-put (c ∷ k) v j b b' p =
    let same : insert (c ∷ k) v b.content ≡ b'.content = cc in
    ap (lookup j) (sym same) ∙ lookup-insert (c ∷ k) j v b.content

pub content-remove :
    (k j : Bytes) (b b' : Memory)
    → remove k b ≡ some b'
    → lookup j b'.content ≡ (if beq k j then none else lookup j b.content)
content-remove k j b b' p =
    let same : Prelude.delete k b.content ≡ b'.content = cc in
    ap (lookup j) (sym same) ∙ lookup-delete k j b.content

abbrev pub memory : Disk
memory = record {
  Bucket = Memory;
  empty = record { content = []; distinct = tt };
  put = put;
  delete = remove;
  entries = λ b. b.content;
  marshal = λ env. some (encode env);
  unmarshal = decode;
  entries-empty = refl;
  lookup-put = content-put;
  lookup-delete = content-remove;
  entries-HasNodupKeys = λ b. b.distinct;
  unmarshal-marshal = decode_encoded;
}
