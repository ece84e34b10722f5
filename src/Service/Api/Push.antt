-- ===== src/Service/Api/Push.antt =====
-- examples/node/main.go, `handleAdminConfig`: the push of a configuration, from its request to the
-- channels of the children.
use multi_region.Prelude.{
  ℕ, ◌+◌, ◌≡◌, ◌≢◌, ◌↔◌, refl, ap, sym, arith, ◌∙◌, Option, none, some, List, [], ◌++◌, Bytes, str,
  length, get_or,
}
use multi_region.Grpc.{Grpc}
use multi_region.Server.{Server, BroadcastResult, broadcast_downstream}
use multi_region.Server
use multi_region.Server.Channels.{Within, AreDistinct}
use multi_region.Server.Broadcast.{full_keys, taken_in, broadcast_delivers}
use multi_region.Node.{Node, State, Clock, new_envelope}
use multi_region.Node.Handlers.{send_down-broadcasts}
use multi_region.Service.Storage.Bolt.{Disk}
use multi_region.Service.Api.{
  Service, Response, no_body, result, handle_admin_config, answer_config,
}

-- What the answer says of a broadcast to so many children, of whom these get nothing.
abbrev pub Tells : Response → ℕ → List Bytes → Type 0
Tells r children full =
    (full ≡ [] → (r.code ≡ 202) × (r.body ≡ no_body))
    × (full ≢ []
        → (r.code ≡ 206)
          × ((res : BroadcastResult) × (r.body ≡ result res)
              × (res.dropped ≡ full)
              × (res.delivered + length full ≡ children)))

module _ {g : Grpc} {d : Disk} where
  answer_config-Tells :
      (st : State g (Service d)) (n : Node g (Service d)) (res : BroadcastResult)
      (e : Option Server.Error) (children : ℕ) (full : List Bytes)
      → res.dropped ≡ full
      → res.delivered + length res.dropped ≡ children
      → (e ≡ none) ↔ (res.dropped ≡ [])
      → let (r, st') = answer_config st (n, res, e) in Tells r children full × (st'.node ≡ n)
  unfolding answer_config
  answer_config-Tells st n res none children full same sum h =
      (((λ p. (refl, refl)), λ q. absurd (q (sym same ∙ h.0 refl))), refl)
  answer_config-Tells st n res (some e) children full same sum h =
      let failed : some e ≡ none → ⊥ = λ q. cc in
      (
        (
          (λ p. absurd (failed (h.1 (same ∙ p)))),
          λ q. (refl, (res, refl, same, omega (arith, sum, ap length same))),
        ),
        refl,
      )

  -- On a node with a server whose children have channels of their own: if no child's channel is full
  -- the answer is 202 without a body; else it is 206 with a result whose dropped keys are those of
  -- the children whose channel is full and whose number of deliveries is that of the others; and each
  -- channel of a child with room, and no other, gets an envelope of kind "config" with the payload,
  -- once and at its end.
  pub config_push :
      (now : Clock) (payload : Bytes) (st : State g (Service d)) (s : Server (Service d))
      → st.node.server ≡ some s
      → Within (length s.channels) s.children
      → AreDistinct s.children
      → let env = new_envelope now st.node.config.id (str "config") payload in
        let (r, st') = handle_admin_config now (some payload) st in
        Tells r (length s.children) (full_keys s.channels s.children)
        × ((t : Server (Service d)) × (st'.node.server ≡ some t)
            × ((c : ℕ)
                → get_or t.channels c []
                  ≡ get_or s.channels c [] ++ taken_in env s.channels s.children c))
  unfolding handle_admin_config
  config_push now payload st s there within distinct =
      let env = new_envelope now st.node.config.id (str "config") payload in
      let (t, res, e) = broadcast_downstream env s in
      let law = broadcast_delivers env s within distinct in
      let n : Node g (Service d) = record st.node { server = some t } in
      let told =
        answer_config-Tells st n res e (length s.children) (full_keys s.channels s.children) law.0
          law.1 law.2 in
      let sent = send_down-broadcasts now (str "config") payload st.node s there in
      rw sent (told.0, (t, ap (λ n. n.server) told.1, law.3))
