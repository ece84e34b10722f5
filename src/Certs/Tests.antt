-- ===== src/Certs/Tests.antt =====
-- examples/gencert and auth/testutil.go with stand-ins for the packages that they call.
use multi_region.Prelude.{
  differ, ℕ, ◌+◌, ◌≡◌, refl, true, Option, none, some, List, [], ◌∷◌, ◌++◌, Bytes, str, decimal,
  lookup, insert, All, beq,
}
use multi_region.Auth.{Files}
use multi_region.Certs.{Tools, World, ok, attempt, read, write_pem, done, and_then, encoded}
use multi_region.Certs.Gencert.{gencert, leaf, leaves, leaf_template, make_dir}
use multi_region.Certs.Gencert.Issued.{Distinct, ca_path, leaf_paths, AuthorityFor, gencert_issues}
use multi_region.Certs.Loads.{Parses, LoadsFor, gencert_loads}
use multi_region.Certs.TestCa.{generate_test_ca}

-- Keys are numbered, a certificate is its common name with the key's number, and every call succeeds.
abbrev desk : Tools
desk = record {
  Source = ℕ;
  Key = ℕ;
  generate_key = λ s. (some s, s + 1);
  now = λ s. (1000, s);
  create_certificate = λ tpl parent key signer s. (some (tpl.common_name ++ decimal key), s);
  marshal_key = decimal;
  block = λ block_type der. block_type ++ der;
  join = λ dir file. dir ++ str "/" ++ file;
  mkdir_all = λ path. true;
  creates = λ path. true;
  encodes = λ path block_type der. none;
}

abbrev both : Option Bytes → Option Bytes → Option (Bytes × Bytes)
both none k = none
both (some c) none = none
both (some c) (some k) = some (c, k)

abbrev shelf : Files (World ℕ)
shelf = record {
  CertPool = Bytes;
  Certificate = Bytes × Bytes;
  read_file = λ path w. lookup path w.files;
  append_certs = λ pem. some pem;
  load_pair = λ c k w. both (lookup c w.files) (lookup k w.files);
}

shelf-Parses : Parses desk shelf
shelf-Parses = record {
  reads = λ path w. refl;
  pools = λ tpl parent key signer s der made. (_, refl);
  pairs = λ tpl parent key signer s der c k w made cert kept.
      ((str "CERTIFICATE" ++ der, str "RSA PRIVATE KEY" ++ decimal key), rw (cert, kept));
}

abbrev empty : World ℕ
empty = record { source = 0; files = [] }

abbrev certs : Bytes
certs = str "certs"

abbrev team : List Bytes
team = str "root" ∷ str "leaf" ∷ []

team-Distinct : Distinct (ca_path desk certs ∷ leaf_paths desk certs team)
unfolding beq
team-Distinct = (
  (differ _ _ refl, (differ _ _ refl, (differ _ _ refl, (differ _ _ refl, tt)))),
  (
    (differ _ _ refl, (differ _ _ refl, (differ _ _ refl, tt))),
    ((differ _ _ refl, (differ _ _ refl, tt)), ((differ _ _ refl, tt), (tt, tt))),
  ),
)

gencert_issues_example : AuthorityFor desk certs team (gencert desk certs team empty).1
unfolding gencert make_dir leaves leaf attempt read done write_pem encoded and_then lookup insert
    beq decimal
gencert_issues_example =
    gencert_issues desk certs team empty (gencert desk certs team empty).1 team-Distinct refl

gencert_loads_example :
    All (LoadsFor desk shelf shelf-Parses certs (gencert desk certs team empty).1) team
unfolding gencert make_dir leaves leaf attempt read done write_pem encoded and_then lookup insert
    beq decimal
gencert_loads_example =
    gencert_loads desk shelf shelf-Parses certs team empty (gencert desk certs team empty).1
      team-Distinct refl

returns_paths :
    (generate_test_ca desk (str "tmp") empty).0
    ≡ ok (str "tmp/ca.pem", str "tmp/leaf.pem", str "tmp/leaf.key")
unfolding generate_test_ca attempt read done write_pem encoded and_then
returns_paths = refl

-- A node of the name "ca" gets its certificate into the file of the authority's.
overwrites_ca :
    lookup (str "certs/ca.pem") (gencert desk certs (str "ca" ∷ []) empty).1.files
    ≡ some (str "CERTIFICATEca1")
unfolding gencert make_dir leaves leaf leaf_template attempt read done write_pem encoded and_then
    lookup insert beq decimal
overwrites_ca = refl
