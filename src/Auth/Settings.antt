-- ===== src/Auth/Settings.antt =====
-- auth/auth.go: when a node with certificates can dial and listen.
use multi_region.Prelude.{◌≡◌, ◌≢◌, refl, ap, true, false, Option, none, some, Bytes}
use multi_region.Server.Listening.{serving, listen}
use multi_region.Auth.{
  Files, MtlsAuthenticator, TlsSettings, load_ca_pool, load_key_pair, client_tls_config,
  server_tls_config,
}

module _ {W : Type 0} (files : Files W) where
  -- The settings to dial with can be made, and a server that gets its port serves with settings that
  -- ask its children for a certificate.
  abbrev pub Loads : Option MtlsAuthenticator → W → Type 0
  Loads none w = ⊥
  Loads (some a) w =
      (client_tls_config files a w ≢ none)
      × ((t : TlsSettings files.CertPool files.Certificate) × (listen true
              (some (server_tls_config files a w))
            ≡ serving (some t))
          × (t.require_client_cert ≡ true))

  pub Loads-parsed :
      (a : MtlsAuthenticator) (w : W) (pem : Bytes) (pool : files.CertPool)
      (pair : files.Certificate)
      → files.read_file a.ca_cert_path w ≡ some pem
      → files.append_certs pem ≡ some pool
      → files.load_pair a.cert_path a.key_path w ≡ some pair
      → Loads (some a) w
  unfolding client_tls_config server_tls_config load_ca_pool load_key_pair listen
  Loads-parsed a w pem pool pair read parsed loaded =
      ((λ e. cc), (_, ap (λ o. listen true (some o)) server, refl))
    where
      client :
          client_tls_config files a w
          ≡ some (record {
            certificate = pair;
            root_cas = some pool;
            client_cas = none;
            require_client_cert = false;
          })
      client = rw (read, client_tls_config, load_ca_pool, parsed, load_key_pair, loaded)

      server :
          server_tls_config files a w
          ≡ some (record {
            certificate = pair;
            root_cas = none;
            client_cas = some pool;
            require_client_cert = true;
          })
      server = rw (read, server_tls_config, load_ca_pool, parsed, load_key_pair, loaded)
