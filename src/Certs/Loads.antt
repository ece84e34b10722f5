-- ===== src/Certs/Loads.antt =====
-- auth/auth.go on the files that examples/gencert/main.go writes.
use multi_region.Prelude.{ℕ, ◌+◌, ◌≡◌, ◌∙◌, some, List, [], ◌∷◌, Bytes, str, lookup, All}
use multi_region.Auth.{Files, MtlsAuthenticator, new_mtls_authenticator}
use multi_region.Auth.Settings.{Loads, Loads-parsed}
use multi_region.Certs.{Template, Tools, World, ok}
use multi_region.Certs.Gencert.{gencert}
use multi_region.Certs.Gencert.Issued.{
  Distinct, ca_path, cert_path, key_path, leaf_paths, AllIssued, gencert_issues,
}

-- What os, crypto/x509 and crypto/tls do with such files: a file is read as it was written, the block
-- of a certificate is a pool, and the block of a certificate for a key makes a pair with the block of
-- that key.
pub record Parses (t : Tools) (files : Files (World t.Source)) : Type 0 where
  pub reads : (path : Bytes) (w : World t.Source) → files.read_file path w ≡ lookup path w.files
  pub pools :
      (tpl parent : Template) (key signer : t.Key) (s : t.Source) (der : Bytes)
      → (t.create_certificate tpl parent key signer s).0 ≡ some der
      → (pool : files.CertPool) × (files.append_certs (t.block (str "CERTIFICATE") der) ≡ some pool)
  pub pairs :
      (tpl parent : Template) (key signer : t.Key) (s : t.Source) (der cert_path key_path : Bytes)
      (w : World t.Source)
      → (t.create_certificate tpl parent key signer s).0 ≡ some der
      → lookup cert_path w.files ≡ some (t.block (str "CERTIFICATE") der)
      → lookup key_path w.files ≡ some (t.block (str "RSA PRIVATE KEY") (t.marshal_key key))
      → (pair : files.Certificate) × (files.load_pair cert_path key_path w ≡ some pair)

module _ (t : Tools) (files : Files (World t.Source)) (parses : Parses t files) where
  pub Loads-written :
      (ca leaf : Template) (ca_key key : t.Key) (s s' : t.Source) (ca_der der : Bytes)
      (a : MtlsAuthenticator) (w : World t.Source)
      → (t.create_certificate ca ca ca_key ca_key s).0 ≡ some ca_der
      → lookup a.ca_cert_path w.files ≡ some (t.block (str "CERTIFICATE") ca_der)
      → (t.create_certificate leaf ca key ca_key s').0 ≡ some der
      → lookup a.cert_path w.files ≡ some (t.block (str "CERTIFICATE") der)
      → lookup a.key_path w.files ≡ some (t.block (str "RSA PRIVATE KEY") (t.marshal_key key))
      → Loads files (some a) w
  Loads-written ca leaf ca_key key s s' ca_der der a w made written made' cert kept =
      let (pool, p) = parses.pools ca ca ca_key ca_key s ca_der made in
      let (pair, q) =
        parses.pairs leaf ca key ca_key s' der a.cert_path a.key_path w made' cert kept in
      Loads-parsed files a w (t.block (str "CERTIFICATE") ca_der) pool pair
        (parses.reads a.ca_cert_path w ∙ written) p q

  -- The settings of a node with this name and these files.
  abbrev pub LoadsFor : Bytes → World t.Source → Bytes → Type 0
  LoadsFor dir w name =
      Loads files
        (new_mtls_authenticator (ca_path t dir) (cert_path t dir name) (key_path t dir name)) w

  AllIssued-Loads :
      (dir : Bytes) (ca : Template) (ca_key : t.Key) (s : t.Source) (ca_der : Bytes) (i : ℕ)
      (names : List Bytes) (w : World t.Source)
      → (t.create_certificate ca ca ca_key ca_key s).0 ≡ some ca_der
      → lookup (ca_path t dir) w.files ≡ some (t.block (str "CERTIFICATE") ca_der)
      → AllIssued t dir ca ca_key i names w
      → All (LoadsFor dir w) names
  unfolding new_mtls_authenticator
  AllIssued-Loads dir ca ca_key s ca_der i [] w made written h = tt
  AllIssued-Loads dir ca ca_key s ca_der i (name ∷ names) w made written h =
      let (key, der, before, after, s', made', cert, kept) = h.0 in
      (
        Loads-written ca _ ca_key key s s' ca_der der _ w made written made' cert kept,
        AllIssued-Loads dir ca ca_key s ca_der (i + 1) names w made written h.1,
      )

  -- After a run of gencert that ends without an error, for names whose files and "ca.pem" are at
  -- paths of their own: with an authenticator for any of the names, with the files of that name, the
  -- TLS settings to dial a parent can be made, and Listen on a port that is free serves with settings
  -- that require a client's certificate.
  pub gencert_loads :
      (dir : Bytes) (names : List Bytes) (w w' : World t.Source)
      → Distinct (ca_path t dir ∷ leaf_paths t dir names)
      → gencert t dir names w ≡ (ok tt, w')
      → All (LoadsFor dir w') names
  gencert_loads dir names w w' d e =
      let (ca_key, der, before, after, s, law) = gencert_issues t dir names w w' d e in
      AllIssued-Loads dir _ ca_key s der 0 names w' law.0 law.1 law.2
