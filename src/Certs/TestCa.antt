-- ===== src/Certs/TestCa.antt =====
-- auth/testutil.go: a certificate authority and one certificate, for tests.
pub mod Files
use multi_region.Prelude.{
  ℕ, ◌+◌, ◌≡◌, ◌≢◌, ap, ◌∙◌, true, false, some, none, List, [], ◌∷◌, Bytes, str, lookup,
}
use multi_region.Certs.{
  cert_sign, digital_signature, key_encipherment, server_auth, client_auth, Template, Tools, World,
  ok, Run, ◌>>=◌, ◌>>◌, ca_key_failed, ca_cert_failed, leaf_key_failed, leaf_cert_failed, done,
  attempt, read, write_pem, hour,
}

unfoldable pub test_ca : ℕ → ℕ → Template
test_ca before after = record {
  serial_number = 1;
  common_name = str "test-ca";
  dns_names = [];
  ip_addresses = [];
  not_before = before;
  not_after = after + hour;
  is_ca = true;
  key_usage = cert_sign ∷ digital_signature ∷ [];
  ext_key_usage = [];
  basic_constraints_valid = true;
}

unfoldable pub test_leaf : ℕ → ℕ → Template
test_leaf before after = record {
  serial_number = 2;
  common_name = str "localhost";
  dns_names = str "localhost" ∷ [];
  ip_addresses = [];
  not_before = before;
  not_after = after + hour;
  is_ca = false;
  key_usage = digital_signature ∷ key_encipherment ∷ [];
  ext_key_usage = server_auth ∷ client_auth ∷ [];
  basic_constraints_valid = false;
}

module _ (t : Tools) (dir : Bytes) where
  -- `GenerateTestCA` with the directory that the test gives it; the paths of the authority's
  -- certificate, the certificate and the key.
  unfoldable pub generate_test_ca : Run t.Source (Bytes × Bytes × Bytes)
  generate_test_ca = do
    ca_key ← attempt ca_key_failed t.generate_key
    before ← read t.now
    after ← read t.now
    let ca = test_ca before after
    ca_der ← attempt ca_cert_failed (t.create_certificate ca ca ca_key ca_key)
    let ca_path = t.join dir (str "ca.pem")
    write_pem t ca_path (str "CERTIFICATE") ca_der
    leaf_key ← attempt (leaf_key_failed none) t.generate_key
    leaf_before ← read t.now
    leaf_after ← read t.now
    let leaf = test_leaf leaf_before leaf_after
    leaf_der ← attempt (leaf_cert_failed none) (t.create_certificate leaf ca leaf_key ca_key)
    let cert_path = t.join dir (str "leaf.pem")
    write_pem t cert_path (str "CERTIFICATE") leaf_der
    let key_path = t.join dir (str "leaf.key")
    write_pem t key_path (str "RSA PRIVATE KEY") (t.marshal_key leaf_key)
    done (ca_path, cert_path, key_path)
