-- ===== src/Service/Api/Logs.antt =====
-- examples/node/main.go, `handleAdminLogs`: what its answer says.
use multi_region.Prelude.{◌≡◌, refl, ap, ◌∙◌, Option, none, some, List, [], ◌∷◌, Bytes, str, ℤ, pos}
use multi_region.Envelope.{Envelope}
use multi_region.Grpc.{Grpc}
use multi_region.Node.{State}
use multi_region.Service.Storage
use multi_region.Service.Storage.{QueryFilter, query}
use multi_region.Service.Storage.Bolt.{Disk}
use multi_region.Service.Api.{Service, entries, handle_admin_logs, answer_logs, logs_since}

-- The lower bound that a request for the logs names, if it reads as one.
abbrev pub since_of : (Bytes → Option ℤ) → Bytes → Option ℤ
since_of parse_int [] = some (pos 0)
since_of parse_int (b ∷ bs) = parse_int (b ∷ bs)

-- What a request for the logs asks the store.
abbrev pub logs_from : ℤ → QueryFilter
logs_from t = record { kind = str "log"; since = t }

answered :
    (r : List Envelope × Option Storage.Error)
    → r.1 ≡ none
    → answer_logs r ≡ record { code = 200; body = entries r.0 }
unfolding answer_logs
answered (found, none) e = refl
answered (found, some x) e = cc

module _ {g : Grpc} {d : Disk} where
  -- The answer to a request that names a bound that can be read.
  pub handle_admin_logs-entries :
      (parse_int : Bytes → Option ℤ) (text : Bytes) (since : ℤ) (st : State g (Service d))
      → since_of parse_int text ≡ some since
      → let r = query d (logs_from since) st.service.store in
        r.1 ≡ none → handle_admin_logs parse_int text st ≡ record { code = 200; body = entries r.0 }
  unfolding handle_admin_logs logs_since
  handle_admin_logs-entries parse_int [] since st e ok =
      ap (λ o. logs_since o st) e ∙ answered (query d (logs_from since) st.service.store) ok
  handle_admin_logs-entries parse_int (b ∷ bs) since st e ok =
      ap (λ o. logs_since o st) e ∙ answered (query d (logs_from since) st.service.store) ok
