-- ===== src/Certs.antt =====
-- What examples/gencert/main.go and auth/testutil.go share: certificates made by crypto/x509 and
-- written as PEM files. The packages they call are the interface `Tools`.
pub mod Gencert
pub mod TestCa
pub mod Written
pub mod Loads
mod Tests
use multi_region.Prelude.{
  ℕ, ◌+◌, ◌*◌, Bool, true, false, Option, none, some, List, [], ◌∷◌, Bytes, str, Map, insert,
  if◌then◌else◌,
}

pub data KeyUsage : Type 0 where
  cert_sign : KeyUsage
  digital_signature : KeyUsage
  key_encipherment : KeyUsage

pub data ExtKeyUsage : Type 0 where
  server_auth : ExtKeyUsage
  client_auth : ExtKeyUsage

-- The fields of `x509.Certificate` that the two programs set; times are in nanoseconds, and the
-- addresses are the texts that they parse.
pub record Template : Type 0 where
  pub serial_number : ℕ
  pub common_name : Bytes
  pub dns_names : List Bytes
  pub ip_addresses : List Bytes
  pub not_before : ℕ
  pub not_after : ℕ
  pub is_ca : Bool
  pub key_usage : List KeyUsage
  pub ext_key_usage : List ExtKeyUsage
  pub basic_constraints_valid : Bool

-- `Source` is the state of the random generator and of the clock. `creates` and `mkdir_all` tell
-- whether os.Create and os.MkdirAll succeed at a path; `encodes` is `none` if pem.Encode writes all
-- of the block, and otherwise what the file has after the error.
pub record Tools : Type 1 where
  pub Source : Type 0
  pub Key : Type 0
  pub generate_key : Source → Option Key × Source
  pub now : Source → ℕ × Source
  -- From the template, that of the parent, whose public key, and who signs.
  pub create_certificate : Template → Template → Key → Key → Source → Option Bytes × Source
  pub marshal_key : Key → Bytes
  pub block : Bytes → Bytes → Bytes
  pub join : Bytes → Bytes → Bytes
  pub mkdir_all : Bytes → Bool
  pub creates : Bytes → Bool
  pub encodes : Bytes → Bytes → Bytes → Option Bytes

pub record World (S : Type 0) : Type 0 where
  pub source : S
  pub files : Map Bytes

-- The calls of Fatalf. The name of a leaf is in the messages of gencert only.
pub data Error : Type 0 where
  usage : Error
  mkdir_failed : Error
  ca_key_failed : Error
  ca_cert_failed : Error
  leaf_key_failed : Option Bytes → Error
  leaf_cert_failed : Option Bytes → Error
  create_failed : Bytes → Error
  encode_failed : Bytes → Error

pub data Result (A : Type 0) : Type 0 where
  ok : A → Result A
  fatal : Error → Result A

abbrev pub Run : Type 0 → Type 0 → Type 0
Run S A = World S → Result A × World S

pub and_then : {S A B : Type 0} → Result A × World S → (A → Run S B) → Result B × World S
and_then (ok a, w) f = f a w
and_then (fatal e, w) f = (fatal e, w)

infixl 5 ◌>>=◌ ◌>>◌
abbrev pub ◌>>=◌ : {S A B : Type 0} → Run S A → (A → Run S B) → Run S B
◌>>=◌ m f w = and_then (m w) f

abbrev pub ◌>>◌ : {S A B : Type 0} → Run S A → Run S B → Run S B
m >> k = m >>= λ _. k

unfoldable pub done : {S A : Type 0} → A → Run S A
done a w = (ok a, w)

unfoldable pub exit : {S A : Type 0} → Error → Run S A
exit e w = (fatal e, w)

abbrev pub or_fatal : {S A : Type 0} → Error → (Option A × S) → Map Bytes → Result A × World S
or_fatal e (none, s) files = (fatal e, record { source = s; files = files })
or_fatal e (some a, s) files = (ok a, record { source = s; files = files })

-- A call that may return an error.
unfoldable pub attempt : {S A : Type 0} → Error → (S → Option A × S) → Run S A
attempt e f w = or_fatal e (f w.source) w.files

unfoldable pub read : {S A : Type 0} → (S → A × S) → Run S A
read f w = let (a, s) = f w.source in (ok a, record w { source = s })

abbrev pub put_file : {S : Type 0} → Bytes → Bytes → World S → World S
put_file path content w = record w { files = insert path content w.files }

module _ (t : Tools) where
  encoded : Bytes → Bytes → Bytes → Option Bytes → Run t.Source (Unit {0})
  encoded path block_type der none w = (ok tt, put_file path (t.block block_type der) w)
  encoded path block_type der (some torn) w = (fatal (encode_failed path), put_file path torn w)

  -- `os.Create` empties the file.
  unfoldable pub write_pem : Bytes → Bytes → Bytes → Run t.Source (Unit {0})
  unfolding encoded
  write_pem path block_type der w =
      if t.creates path
      then encoded path block_type der (t.encodes path block_type der) (put_file path [] w)
      else (fatal (create_failed path), w)

abbrev pub hour : ℕ
hour = 3_600_000_000_000
