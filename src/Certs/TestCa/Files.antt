-- ===== src/Certs/TestCa/Files.antt =====
-- auth/testutil.go: the files that GenerateTestCA leaves behind, and auth/auth.go on them.
use multi_region.Prelude.{◌≡◌, ap, ◌∙◌, refl, none, some, [], ◌∷◌, Bytes, str, lookup}
use multi_region.Auth.{Files, new_mtls_authenticator}
use multi_region.Auth.Settings.{Loads}
use multi_region.Certs.{
  Template, Tools, World, ok, ca_key_failed, ca_cert_failed, leaf_key_failed, leaf_cert_failed,
  done,
}
use multi_region.Certs.Written.{
  IfDone, and_then-IfDone, IfDone-ok, attempt-IfDone, read-IfDone, write_pem-IfDone,
}
use multi_region.Certs.Gencert.Issued.{Distinct}
use multi_region.Certs.Loads.{Parses, Loads-written}
use multi_region.Certs.TestCa.{test_ca, test_leaf, generate_test_ca}

module _ (t : Tools) (dir : Bytes) where
  abbrev pub test_paths : Bytes × Bytes × Bytes
  test_paths = (t.join dir (str "ca.pem"), t.join dir (str "leaf.pem"), t.join dir (str "leaf.key"))

  -- The files at these paths hold a certificate that its own key has signed, and a key with a
  -- certificate for it that the same one has signed.
  abbrev pub Signed : Bytes × Bytes × Bytes → World t.Source → Type 0
  Signed (ca_path, cert_path, key_path) w =
      (ca_key : t.Key) × (key : t.Key) × (ca_der : Bytes) × (der : Bytes) × (ca : Template)
      × (leaf : Template) × (s : t.Source) × (s' : t.Source) × ((t.create_certificate ca ca ca_key
            ca_key s).0
          ≡ some ca_der)
      × (lookup ca_path w.files ≡ some (t.block (str "CERTIFICATE") ca_der))
      × ((t.create_certificate leaf ca key ca_key s').0 ≡ some der)
      × (lookup cert_path w.files ≡ some (t.block (str "CERTIFICATE") der))
      × (lookup key_path w.files ≡ some (t.block (str "RSA PRIVATE KEY") (t.marshal_key key)))

  generate_test_ca-Signed :
      (w : World t.Source)
      → Distinct (test_paths.0 ∷ test_paths.1 ∷ test_paths.2 ∷ [])
      → IfDone (λ paths w'. (paths ≡ test_paths) × Signed test_paths w') (generate_test_ca t dir w)
  unfolding generate_test_ca done
  generate_test_ca-Signed w d =
      let (ca_path, cert_path, key_path) = test_paths in
      and_then-IfDone (attempt-IfDone ca_key_failed t.generate_key w) (λ ca_key w₁ h₁.
        and_then-IfDone (read-IfDone t.now w₁) (λ before w₂ h₂.
          and_then-IfDone (read-IfDone t.now w₂) (λ after w₃ h₃.
            let ca = test_ca before after in
            let sign = t.create_certificate ca ca ca_key ca_key in
            and_then-IfDone (attempt-IfDone ca_cert_failed sign w₃) (λ ca_der w₄ h₄.
              and_then-IfDone (write_pem-IfDone t ca_path (str "CERTIFICATE") ca_der w₄) (λ u w₅ h₅.
                and_then-IfDone (attempt-IfDone (leaf_key_failed none) t.generate_key w₅)
                  (λ key w₆ h₆. and_then-IfDone (read-IfDone t.now w₆) (λ before' w₇ h₇.
                    and_then-IfDone (read-IfDone t.now w₇) (λ after' w₈ h₈.
                      let leaf = test_leaf before' after' in
                      let sign' = t.create_certificate leaf ca key ca_key in
                      and_then-IfDone (attempt-IfDone (leaf_cert_failed none) sign' w₈)
                        (λ der w₉ h₉.
                          and_then-IfDone (write_pem-IfDone t cert_path (str "CERTIFICATE") der w₉)
                            (λ u v k.
                              and_then-IfDone
                                (write_pem-IfDone t key_path (str "RSA PRIVATE KEY")
                                  (t.marshal_key key) v)
                                (λ u v' k'. record {
                                  holds = (
                                    refl,
                                    (
                                      ca_key,
                                      key,
                                      ca_der,
                                      der,
                                      ca,
                                      leaf,
                                      w₃.source,
                                      w₈.source,
                                      h₄.1,
                                      k'.1 ca_path (d.0.1.0, tt)
                                          ∙ k.1 ca_path (d.0.0, tt)
                                          ∙ ap (lookup ca_path) (h₉.0 ∙ h₈ ∙ h₇ ∙ h₆.0)
                                          ∙ h₅.0,
                                      h₉.1,
                                      k'.1 cert_path (d.1.0.0, tt) ∙ k.0,
                                      k'.0,
                                    ),
                                  );
                                })))))))))))

  -- A call of GenerateTestCA that ends without an error, in a directory where its three files are at
  -- paths of their own: with an authenticator with the paths that it returns, the TLS settings to dial
  -- can be made, and Listen on a port that is free serves with settings that require a client's
  -- certificate.
  pub test_certificates_usable :
      (files : Files (World t.Source)) (w w' : World t.Source) (paths : Bytes × Bytes × Bytes)
      → Parses t files
      → Distinct (test_paths.0 ∷ test_paths.1 ∷ test_paths.2 ∷ [])
      → generate_test_ca t dir w ≡ (ok paths, w')
      → Loads files (new_mtls_authenticator paths.0 paths.1 paths.2) w'
  unfolding new_mtls_authenticator
  test_certificates_usable files w w' paths parses d e =
      let h = IfDone-ok (generate_test_ca-Signed w d) e in
      let (ca_key, key, ca_der, der, ca, leaf, s, s', made, written, made', cert, kept) = h.1 in
      rw h.0 (
        Loads-written t files parses ca leaf ca_key key s s' ca_der der _ w' made written made' cert
          kept)
