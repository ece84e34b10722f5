-- ===== src/Certs/Gencert/Issued.antt =====
-- examples/gencert/main.go: the files that a run leaves behind.
use multi_region.Prelude.{
  ℕ, ◌+◌, ◌≡◌, ◌≢◌, refl, ap, ◌∙◌, some, List, [], ◌∷◌, ◌++◌, Bytes, str, All, lookup, Bool-cases,
  inl, inr,
}
use multi_region.Certs.{
  Template, Tools, World, ok, done, exit, leaf_key_failed, leaf_cert_failed, ca_key_failed,
  ca_cert_failed,
}
use multi_region.Certs.Gencert.{ca_template, leaf_template, leaf, leaves, make_dir, gencert}
use multi_region.Certs.Written.{
  IfDone, and_then-IfDone, IfDone-mono, IfDone-ok, Keeps, attempt-IfDone, read-IfDone,
  write_pem-IfDone,
}

-- No path stands twice in the list.
abbrev pub Distinct : List Bytes → Type 0
Distinct [] = Unit
Distinct (p ∷ ps) = All (λ q. q ≢ p) ps × Distinct ps

module _ (t : Tools) (dir : Bytes) where
  abbrev pub ca_path : Bytes
  ca_path = t.join dir (str "ca.pem")

  abbrev pub cert_path : Bytes → Bytes
  cert_path name = t.join dir (name ++ str ".pem")

  abbrev pub key_path : Bytes → Bytes
  key_path name = t.join dir (name ++ str ".key")

  abbrev pub leaf_paths : List Bytes → List Bytes
  leaf_paths [] = []
  leaf_paths (name ∷ names) = cert_path name ∷ key_path name ∷ leaf_paths names

  -- The files of a name hold a key and a certificate for it that this authority has signed.
  abbrev pub Issued : Template → t.Key → ℕ → Bytes → World t.Source → Type 0
  Issued ca ca_key i name w =
      (key : t.Key) × (der : Bytes) × (before : ℕ) × (after : ℕ) × (s : t.Source)
      × ((t.create_certificate (leaf_template i name before after) ca key ca_key s).0 ≡ some der)
      × (lookup (cert_path name) w.files ≡ some (t.block (str "CERTIFICATE") der))
      × (lookup (key_path name) w.files
          ≡ some (t.block (str "RSA PRIVATE KEY") (t.marshal_key key)))

  -- The files of the names, counted from i.
  abbrev pub AllIssued : Template → t.Key → ℕ → List Bytes → World t.Source → Type 0
  AllIssued ca ca_key i [] w = Unit
  AllIssued ca ca_key i (name ∷ names) w =
      Issued ca ca_key i name w × AllIssued ca ca_key (i + 1) names w

  Issued-Keeps :
      (ca : Template) (ca_key : t.Key) (i : ℕ) (name : Bytes) (paths : List Bytes)
      (w w' : World t.Source)
      → Issued ca ca_key i name w
      → All (λ p. p ≢ cert_path name) paths
      → All (λ p. p ≢ key_path name) paths
      → Keeps paths w w'
      → Issued ca ca_key i name w'
  Issued-Keeps ca ca_key i name paths w w' (key, der, before, after, s, made, cert, kept) h h' k =
      (key, der, before, after, s, made, k (cert_path name) h ∙ cert, k (key_path name) h' ∙ kept)

  leaf-Issued :
      (ca : Template) (ca_key : t.Key) (i : ℕ) (name : Bytes) (w : World t.Source)
      → key_path name ≢ cert_path name
      → IfDone
          (λ u w'. Issued ca ca_key i name w' × Keeps (cert_path name ∷ key_path name ∷ []) w w')
          (leaf t dir ca ca_key i name w)
  unfolding leaf
  leaf-Issued ca ca_key i name w apart =
      and_then-IfDone (attempt-IfDone (leaf_key_failed (some name)) t.generate_key w) (λ key w₁ h₁.
        and_then-IfDone (read-IfDone t.now w₁) (λ before w₂ h₂.
          and_then-IfDone (read-IfDone t.now w₂) (λ after w₃ h₃.
            let sign = t.create_certificate (leaf_template i name before after) ca key ca_key in
            and_then-IfDone (attempt-IfDone (leaf_cert_failed (some name)) sign w₃) (λ der w₄ h₄.
              and_then-IfDone (write_pem-IfDone t (cert_path name) (str "CERTIFICATE") der w₄)
                (λ u w₅ h₅.
                  IfDone-mono
                    (write_pem-IfDone t (key_path name) (str "RSA PRIVATE KEY") (t.marshal_key key)
                      w₅)
                    (λ u w₆ h₆. (
                      (
                        key,
                        der,
                        before,
                        after,
                        w₃.source,
                        h₄.1,
                        h₆.1 (cert_path name) (apart, tt) ∙ h₅.0,
                        h₆.0,
                      ),
                      λ q h. h₆.1 q h.1 ∙ h₅.1 q (h.0, tt) ∙ ap (lookup q) (h₄.0 ∙ h₃ ∙ h₂ ∙ h₁.0),
                    )))))))

  leaves-AllIssued :
      (ca : Template) (ca_key : t.Key) (i : ℕ) (names : List Bytes) (w : World t.Source)
      → Distinct (leaf_paths names)
      → IfDone
          (λ u w'. AllIssued ca ca_key i names w' × Keeps (leaf_paths names) w w')
          (leaves t dir ca ca_key i names w)
  unfolding leaves done
  leaves-AllIssued ca ca_key i [] w d = record { holds = (tt, λ q h. refl) }
  leaves-AllIssued ca ca_key i (name ∷ names) w d =
      and_then-IfDone (leaf-Issued ca ca_key i name w d.0.0) (λ u w₁ h₁.
        IfDone-mono (leaves-AllIssued ca ca_key (i + 1) names w₁ d.1.1) (λ u w₂ h₂. (
          (Issued-Keeps ca ca_key i name (leaf_paths names) w₁ w₂ h₁.0 d.0.1 d.1.0 h₂.1, h₂.0),
          λ q h. h₂.1 q h.1.1 ∙ h₁.1 q (h.0, (h.1.0, tt)),
        )))

  make_dir-files : (w : World t.Source) → IfDone (λ u w'. w'.files ≡ w.files) (make_dir t dir w)
  unfolding make_dir done exit
  make_dir-files w = elim (Bool-cases (t.mkdir_all dir)) [
    | inl eq ↦ rw eq (record { holds = refl })
    | inr eq ↦ rw eq (record { holds = tt })
  ]

  -- An authority that has signed its own certificate, which its file holds, and has signed those of
  -- these names.
  abbrev pub AuthorityFor : List Bytes → World t.Source → Type 0
  AuthorityFor names w =
      (ca_key : t.Key) × (der : Bytes) × (before : ℕ) × (after : ℕ) × (s : t.Source) × (let ca =
          ca_template before after in
        ((t.create_certificate ca ca ca_key ca_key s).0 ≡ some der)
        × (lookup ca_path w.files ≡ some (t.block (str "CERTIFICATE") der))
        × AllIssued ca ca_key 0 names w)

  gencert-AuthorityFor :
      (names : List Bytes) (w : World t.Source)
      → Distinct (ca_path ∷ leaf_paths names)
      → IfDone (λ u w'. AuthorityFor names w') (gencert t dir names w)
  unfolding gencert exit
  gencert-AuthorityFor [] w d = record { holds = tt }
  gencert-AuthorityFor (name ∷ names) w d = and_then-IfDone (make_dir-files w) (λ u w₀ h₀.
      and_then-IfDone (attempt-IfDone ca_key_failed t.generate_key w₀) (λ ca_key w₁ h₁.
        and_then-IfDone (read-IfDone t.now w₁) (λ before w₂ h₂.
          and_then-IfDone (read-IfDone t.now w₂) (λ after w₃ h₃.
            let ca = ca_template before after in
            let sign = t.create_certificate ca ca ca_key ca_key in
            and_then-IfDone (attempt-IfDone ca_cert_failed sign w₃) (λ der w₄ h₄.
              and_then-IfDone (write_pem-IfDone t ca_path (str "CERTIFICATE") der w₄) (λ u w₅ h₅.
                IfDone-mono (leaves-AllIssued ca ca_key 0 (name ∷ names) w₅ d.1) (λ u w₆ h₆. (
                  ca_key,
                  der,
                  before,
                  after,
                  w₃.source,
                  (h₄.1, h₆.1 ca_path d.0 ∙ h₅.0, h₆.0),
                ))))))))

  -- A run that ends without an error, for names whose files and "ca.pem" are at paths of their own:
  -- "ca.pem" holds a certificate that the authority's key has signed for itself, and the files of
  -- the i-th name hold a key and a certificate for that name and that key, with the serial number
  -- i + 2, which the same authority's key has signed.
  pub gencert_issues :
      (names : List Bytes) (w w' : World t.Source)
      → Distinct (ca_path ∷ leaf_paths names)
      → gencert t dir names w ≡ (ok tt, w')
      → AuthorityFor names w'
  gencert_issues names w w' d e = IfDone-ok (gencert-AuthorityFor names w d) e
