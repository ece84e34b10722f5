-- ===== src/Service/Api/Registered.antt =====
-- examples/node/main.go: what the registration of the two handlers leaves of the node.
use multi_region.Prelude.{ap, Bytes, lookup, ◌++◌, ◌≡◌, ◌∙◌, Bool, [], ◌∷◌, str}
use multi_region.Envelope.{Envelope}
use multi_region.Grpc.{Grpc}
use multi_region.Node.{Node, handlers_of, on_upstream}
use multi_region.Node.Handlers.{
  SameHalves, on_upstream-SameHalves, on_downstream-SameHalves, on_upstream-downstream_handlers,
  on_downstream_first, on_downstream-upstream_handlers, chosen, on_upstream_all, on_downstream_all,
  on_upstream_all-chosen, on_downstream_all-chosen,
}
use multi_region.Service.Storage.Bolt.{Disk}
use multi_region.Service.Api.{Service, save_envelope, register}

module _ {g : Grpc} {d : Disk} where
  pub register-SameHalves :
      (commits : Envelope → Bool) (n : Node g (Service d)) → SameHalves (register commits n) n
  unfolding register
  register-SameHalves commits n =
      let up = on_upstream-SameHalves (str "log") (save_envelope commits) n in
      let down =
        on_downstream-SameHalves (str "config") (save_envelope commits)
          (on_upstream (str "log") (save_envelope commits) n) in
      (down.0 ∙ up.0, down.1 ∙ up.1, down.2 ∙ up.2)

  pub register-config :
      (commits : Envelope → Bool) (n : Node g (Service d))
      → n.downstream_handlers ≡ []
      → handlers_of (str "config") (register commits n).downstream_handlers
        ≡ save_envelope commits ∷ []
  unfolding register
  register-config commits n e =
      on_downstream_first (str "config") (save_envelope commits)
        (on_upstream (str "log") (save_envelope commits) n)
        (on_upstream-downstream_handlers (str "log") (save_envelope commits) n ∙ e)

  pub register-ups :
      (commits : Envelope → Bool) (n : Node g (Service d)) (k : Bytes)
      → n.upstream_handlers ≡ []
      → handlers_of k (register commits n).upstream_handlers
        ≡ chosen k ((str "log", save_envelope commits) ∷ [])
  unfolding register on_upstream_all lookup handlers_of
  register-ups commits n k e =
      let rs = (str "log", save_envelope commits) ∷ [] in
      ap (handlers_of k) (
        on_downstream-upstream_handlers (str "config") (save_envelope commits)
          (on_upstream (str "log") (save_envelope commits) n))
      ∙ on_upstream_all-chosen k rs n
      ∙ ap (λ m. handlers_of k m ++ chosen k rs) e

  pub register-downs :
      (commits : Envelope → Bool) (n : Node g (Service d)) (k : Bytes)
      → n.downstream_handlers ≡ []
      → handlers_of k (register commits n).downstream_handlers
        ≡ chosen k ((str "config", save_envelope commits) ∷ [])
  unfolding register on_downstream_all lookup handlers_of
  register-downs commits n k e =
      let rs = (str "config", save_envelope commits) ∷ [] in
      on_downstream_all-chosen k rs (on_upstream (str "log") (save_envelope commits) n)
      ∙ ap (λ m. handlers_of k m ++ chosen k rs)
          (on_upstream-downstream_handlers (str "log") (save_envelope commits) n ∙ e)
