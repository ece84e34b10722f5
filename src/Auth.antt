-- ===== src/Auth.antt =====
-- auth/auth.go: the TLS settings of a node with certificates, over the files and the parsers of os,
-- crypto/x509 and crypto/tls as an interface.
pub mod Settings
use multi_region.Prelude.{Bool, true, false, Option, none, some, Bytes}

-- `none` is an error of os.ReadFile, of AppendCertsFromPEM, and of LoadX509KeyPair.
pub record Files (W : Type 0) : Type 1 where
  pub CertPool : Type 0
  pub Certificate : Type 0
  pub read_file : Bytes → W → Option Bytes
  pub append_certs : Bytes → Option CertPool
  pub load_pair : Bytes → Bytes → W → Option Certificate

pub record MtlsAuthenticator : Type 0 where
  pub ca_cert_path : Bytes
  pub cert_path : Bytes
  pub key_path : Bytes

-- The settings of `tls.Config` that this package makes.
pub record TlsSettings (P C : Type 0) : Type 0 where
  pub certificate : C
  pub root_cas : Option P
  pub client_cas : Option P
  pub require_client_cert : Bool

-- It never fails: the files are read when a connection is made.
unfoldable pub new_mtls_authenticator : Bytes → Bytes → Bytes → Option MtlsAuthenticator
new_mtls_authenticator ca_cert_path cert_path key_path =
    some (record { ca_cert_path = ca_cert_path; cert_path = cert_path; key_path = key_path })

module _ {W : Type 0} (files : Files W) where
  open files use {CertPool, Certificate}

  load_ca_pool : MtlsAuthenticator → W → Option CertPool
  load_ca_pool a w = elim (files.read_file a.ca_cert_path w) [
    | none ↦ none
    | some pem ↦ files.append_certs pem
  ]

  load_key_pair : MtlsAuthenticator → W → Option Certificate
  load_key_pair a w = files.load_pair a.cert_path a.key_path w

  pub client_tls_config : MtlsAuthenticator → W → Option (TlsSettings CertPool Certificate)
  unfolding load_ca_pool load_key_pair
  client_tls_config a w = elim (load_ca_pool a w) [
    | none ↦ none
    | some pool ↦ elim (load_key_pair a w) [
      | none ↦ none
      | some cert ↦ some (record {
        certificate = cert;
        root_cas = some pool;
        client_cas = none;
        require_client_cert = false;
      })
    ]
  ]

  pub server_tls_config : MtlsAuthenticator → W → Option (TlsSettings CertPool Certificate)
  unfolding load_ca_pool load_key_pair
  server_tls_config a w = elim (load_ca_pool a w) [
    | none ↦ none
    | some pool ↦ elim (load_key_pair a w) [
      | none ↦ none
      | some cert ↦ some (record {
        certificate = cert;
        root_cas = none;
        client_cas = some pool;
        require_client_cert = true;
      })
    ]
  ]
