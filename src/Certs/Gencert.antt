-- ===== src/Certs/Gencert.antt =====
-- examples/gencert/main.go: a certificate authority and a certificate for each name.
pub mod Issued
pub mod Ends
use multi_region.Prelude.{
  ℕ, ◌+◌, ◌*◌, Bool, true, false, none, some, List, [], ◌∷◌, ◌++◌, Bytes, str, if◌then◌else◌,
}
use multi_region.Certs.{
  KeyUsage, cert_sign, digital_signature, key_encipherment, server_auth, client_auth, Template,
  Tools, Run, ◌>>=◌, ◌>>◌, usage, mkdir_failed, ca_key_failed, ca_cert_failed, leaf_key_failed,
  leaf_cert_failed, done, exit, attempt, read, write_pem, hour,
}

unfoldable pub ca_template : ℕ → ℕ → Template
ca_template before after = record {
  serial_number = 1;
  common_name = str "multi-region-example-ca";
  dns_names = [];
  ip_addresses = [];
  not_before = before;
  not_after = after + 365 * 24 * hour;
  is_ca = true;
  key_usage = cert_sign ∷ digital_signature ∷ [];
  ext_key_usage = [];
  basic_constraints_valid = true;
}

unfoldable pub leaf_template : ℕ → Bytes → ℕ → ℕ → Template
leaf_template i name before after = record {
  serial_number = i + 2;
  common_name = name;
  dns_names = str "localhost" ∷ name ∷ [];
  ip_addresses = str "127.0.0.1" ∷ str "::1" ∷ [];
  not_before = before;
  not_after = after + 365 * 24 * hour;
  is_ca = false;
  key_usage = digital_signature ∷ key_encipherment ∷ [];
  ext_key_usage = server_auth ∷ client_auth ∷ [];
  basic_constraints_valid = false;
}

module _ (t : Tools) where
  -- A round of the loop, for the i-th name.
  unfoldable pub leaf : Bytes → Template → t.Key → ℕ → Bytes → Run t.Source (Unit {0})
  leaf dir ca ca_key i name = do
    leaf_key ← attempt (leaf_key_failed (some name)) t.generate_key
    before ← read t.now
    after ← read t.now
    der ←
        attempt (leaf_cert_failed (some name))
          (t.create_certificate (leaf_template i name before after) ca leaf_key ca_key)
    write_pem t (t.join dir (name ++ str ".pem")) (str "CERTIFICATE") der
    write_pem t (t.join dir (name ++ str ".key")) (str "RSA PRIVATE KEY") (t.marshal_key leaf_key)

  unfoldable pub leaves : Bytes → Template → t.Key → ℕ → List Bytes → Run t.Source (Unit {0})
  leaves dir ca ca_key i [] = done tt
  leaves dir ca ca_key i (name ∷ names) =
      leaf dir ca ca_key i name >> leaves dir ca ca_key (i + 1) names

  unfoldable pub make_dir : Bytes → Run t.Source (Unit {0})
  make_dir dir = if t.mkdir_all dir then done tt else exit mkdir_failed

  -- `main` with the flag "out" and the names.
  unfoldable pub gencert : Bytes → List Bytes → Run t.Source (Unit {0})
  unfolding make_dir
  gencert dir [] = exit usage
  gencert dir (name ∷ names) = do
    make_dir dir
    ca_key ← attempt ca_key_failed t.generate_key
    before ← read t.now
    after ← read t.now
    let ca = ca_template before after
    ca_der ← attempt ca_cert_failed (t.create_certificate ca ca ca_key ca_key)
    write_pem t (t.join dir (str "ca.pem")) (str "CERTIFICATE") ca_der
    leaves dir ca ca_key 0 (name ∷ names)
