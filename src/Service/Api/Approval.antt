-- ===== src/Service/Api/Approval.antt =====
-- examples/node/main.go, `handleApproveChild` and `handleRevokeChild`, with the check of
-- transport/server.go that they steer.
use multi_region.Prelude.{ℕ, ◌≡◌, refl, ap, ◌∙◌, true, none, some, ◌∷◌, Bytes, lookup, beq_refl}
use multi_region.Grpc.{Grpc}
use multi_region.Server.{Server, Context, PendingChild, AuthorizeChild}
use multi_region.Server
use multi_region.Server.Pending.{authorize_lem}
use multi_region.Node.{State}
use multi_region.Service.AllowList.{add, contains, authorize, authorize_hook}
use multi_region.Service.AllowList.Approval.{
  HasCertificate, authorize_iff, contains-add, authorize_hook-none,
}
use multi_region.Service.Storage.Bolt.{Disk}
use multi_region.Service.Api.{Service, handle_approve_child}

-- The hook that `main` gives to the node.
abbrev pub service_hook : {d : Disk} → (Bytes → Bytes) → AuthorizeChild (Service d)
service_hook quote s ctx id = authorize_hook quote s.allow_list ctx id

module _ {g : Grpc} {d : Disk} (quote : Bytes → Bytes) where
  -- Once a node-id that is not empty is approved over HTTP, the answer is 202, and the next call
  -- with that node-id and a certificate in its name is let in and is no longer pending.
  pub approved_child_enters :
      (b : ℕ) (bs : Bytes) (ctx : Context) (now : ℕ) (s : Server (Service d))
      (st : State g (Service d))
      → s.authorize_child ≡ service_hook quote
      → HasCertificate ctx (b ∷ bs)
      → let (r, st') = handle_approve_child (some (b ∷ bs)) st in
        let (t, e) = Server.authorize st'.service ctx now (b ∷ bs) s in
        (r.code ≡ 202) × (e ≡ none) × (lookup (b ∷ bs) t.pending ≡ none)
  unfolding handle_approve_child
  approved_child_enters b bs ctx now s st hook cert =
      let l = add (b ∷ bs) st.service.allow_list in
      let service : Service d = (handle_approve_child (some (b ∷ bs)) st).1.service in
      let law = authorize_lem service ctx now (b ∷ bs) (b ∷ bs) s in
      let known : contains l (b ∷ bs) ≡ true =
        contains-add (b ∷ bs) (b ∷ bs) st.service.allow_list ∙ rw (beq_refl (b ∷ bs)) refl in
      let approved : authorize l ctx (b ∷ bs) ≡ none =
        (authorize_iff l ctx (b ∷ bs)).1 ((λ p. cc), known, cert) in
      let yes : s.authorize_child service ctx (b ∷ bs) ≡ none =
        ap (λ f. f service ctx (b ∷ bs)) hook
        ∙ (authorize_hook-none quote l ctx (b ∷ bs)).1 approved in
      (refl, law.1 ∙ rw yes refl, law.0 ∙ rw (beq_refl (b ∷ bs), yes) refl)
