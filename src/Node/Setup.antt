-- ===== src/Node/Setup.antt =====
-- node/node.go, `New` and `Start`, and node/options.go: which halves a node gets from its options.
use multi_region.Prelude.{
  ◌≡◌, refl, sym, ◌∙◌, ap, ◌↔◌, ◌≢◌, Bool, true, false, none, some, List, [], ◌∷◌, Bytes, arith,
}
use multi_region.Grpc.{Grpc}
use multi_region.Node.{
  Config, NodeOption, with_id, with_listen_addr, with_resolver, with_authenticator,
  with_authorize_child, Node, State, created, waiting, is_empty, no_role, empty_config,
  apply_option, apply_options, check_config, new_node,
}
use multi_region.Node.Lifecycle.{start_server, start_client, start}

module _ {g : Grpc} {S : Type 0} where
  -- The last node-id among the options, or a default.
  unfoldable pub last_id : Bytes → List (NodeOption g S) → Bytes
  last_id d [] = d
  last_id d (with_id id ∷ os) = last_id id os
  last_id d (with_listen_addr addr ∷ os) = last_id d os
  last_id d (with_resolver r ∷ os) = last_id d os
  last_id d (with_authenticator a ∷ os) = last_id d os
  last_id d (with_authorize_child hook ∷ os) = last_id d os

  -- The last listen address among the options, or a default.
  unfoldable pub last_addr : Bytes → List (NodeOption g S) → Bytes
  last_addr d [] = d
  last_addr d (with_id id ∷ os) = last_addr d os
  last_addr d (with_listen_addr addr ∷ os) = last_addr addr os
  last_addr d (with_resolver r ∷ os) = last_addr d os
  last_addr d (with_authenticator a ∷ os) = last_addr d os
  last_addr d (with_authorize_child hook ∷ os) = last_addr d os

  -- Whether any option gives a resolver.
  unfoldable pub names_parent : List (NodeOption g S) → Bool
  names_parent [] = false
  names_parent (with_id id ∷ os) = names_parent os
  names_parent (with_listen_addr addr ∷ os) = names_parent os
  names_parent (with_resolver r ∷ os) = true
  names_parent (with_authenticator a ∷ os) = names_parent os
  names_parent (with_authorize_child hook ∷ os) = names_parent os

  apply_options-id :
      (os : List (NodeOption g S)) (c : Config g S) → (apply_options os c).id ≡ last_id c.id os
  unfolding apply_options apply_option last_id
  apply_options-id [] c = refl
  apply_options-id (with_id id ∷ os) c = apply_options-id os _
  apply_options-id (with_listen_addr addr ∷ os) c = apply_options-id os _
  apply_options-id (with_resolver r ∷ os) c = apply_options-id os _
  apply_options-id (with_authenticator a ∷ os) c = apply_options-id os _
  apply_options-id (with_authorize_child hook ∷ os) c = apply_options-id os _

  apply_options-listen_addr :
      (os : List (NodeOption g S)) (c : Config g S)
      → (apply_options os c).listen_addr ≡ last_addr c.listen_addr os
  unfolding apply_options apply_option last_addr
  apply_options-listen_addr [] c = refl
  apply_options-listen_addr (with_id id ∷ os) c = apply_options-listen_addr os _
  apply_options-listen_addr (with_listen_addr addr ∷ os) c = apply_options-listen_addr os _
  apply_options-listen_addr (with_resolver r ∷ os) c = apply_options-listen_addr os _
  apply_options-listen_addr (with_authenticator a ∷ os) c = apply_options-listen_addr os _
  apply_options-listen_addr (with_authorize_child hook ∷ os) c = apply_options-listen_addr os _

  keeps_resolver :
      (os : List (NodeOption g S)) (c : Config g S)
      → c.resolver ≢ none
      → (apply_options os c).resolver ≢ none
  unfolding apply_options apply_option
  keeps_resolver [] c h = h
  keeps_resolver (with_id id ∷ os) c h = keeps_resolver os _ h
  keeps_resolver (with_listen_addr addr ∷ os) c h = keeps_resolver os _ h
  keeps_resolver (with_resolver r ∷ os) c h = keeps_resolver os _ (λ p. cc)
  keeps_resolver (with_authenticator a ∷ os) c h = keeps_resolver os _ h
  keeps_resolver (with_authorize_child hook ∷ os) c h = keeps_resolver os _ h

  apply_options-resolver :
      (os : List (NodeOption g S)) (c : Config g S)
      → c.resolver ≡ none
      → ((apply_options os c).resolver ≡ none) ↔ (names_parent os ≡ false)
  unfolding apply_options apply_option names_parent
  apply_options-resolver [] c h = (λ p. refl, λ p. h)
  apply_options-resolver (with_id id ∷ os) c h = apply_options-resolver os _ h
  apply_options-resolver (with_listen_addr addr ∷ os) c h = apply_options-resolver os _ h
  apply_options-resolver (with_resolver r ∷ os) c h =
      (λ p. absurd (keeps_resolver os (record c { resolver = some r }) (λ q. cc) p), λ p. cc)
  apply_options-resolver (with_authenticator a ∷ os) c h = apply_options-resolver os _ h
  apply_options-resolver (with_authorize_child hook ∷ os) c h = apply_options-resolver os _ h

  -- What a checked configuration has, and that the node starts out with neither half.
  check_config-created :
      (c : Config g S) (n : Node g S)
      → check_config c ≡ created n
      → (n.config ≡ c)
        × (c.id ≢ [])
        × (c.listen_addr ≡ [] → c.resolver ≢ none)
        × (n.server ≡ none)
        × (n.client ≡ none)
  unfolding check_config no_role is_empty
  check_config-created c n h = ground (arith, h)

  start-halves :
      (st : State g S)
      → st.node.server ≡ none
      → st.node.client ≡ none
      → let t = start st in
        ((t.node.server ≡ none) ↔ (st.node.config.listen_addr ≡ []))
        × ((t.node.client ≡ none) ↔ (st.node.config.resolver ≡ none))
        × (t.node.config ≡ st.node.config)
  unfolding start start_server start_client is_empty
  start-halves st s c = ground (arith, s, c)

  -- What New and the options settle of a node, whatever handlers it has got since.
  pub new_node-roles :
      (os : List (NodeOption g S)) (n : Node g S) (st : State g S)
      → new_node os ≡ created n
      → st.node.config ≡ n.config
      → st.node.server ≡ n.server
      → st.node.client ≡ n.client
      → let t = start st in
        (t.node.config.id ≡ last_id [] os)
        × (last_id [] os ≢ [])
        × ((t.node.server ≡ none) ↔ (last_addr [] os ≡ []))
        × ((t.node.client ≡ none) ↔ (names_parent os ≡ false))
        × ¬ ((t.node.server ≡ none) × (t.node.client ≡ none))
  unfolding new_node empty_config
  new_node-roles os n st h config server client =
      let made = check_config-created (apply_options os empty_config) n h in
      let halves = start-halves st (server ∙ made.3) (client ∙ made.4) in
      let id = apply_options-id os empty_config in
      let addr = apply_options-listen_addr os empty_config in
      let (to, back) = apply_options-resolver os empty_config refl in
      let same = config ∙ made.0 in
      (
        ap (λ c. c.id) (halves.2 ∙ same) ∙ id,
        (λ p. made.1 (id ∙ p)),
        (
          (λ p. sym addr ∙ sym (ap (λ c. c.listen_addr) same) ∙ halves.0.0 p),
          λ p. halves.0.1 (ap (λ c. c.listen_addr) same ∙ addr ∙ p),
        ),
        (
          (λ p. to (sym (ap (λ c. c.resolver) same) ∙ halves.1.0 p)),
          λ p. halves.1.1 (ap (λ c. c.resolver) same ∙ back p),
        ),
        λ b.
            made.2 (sym (ap (λ c. c.listen_addr) same) ∙ halves.0.0 b.0)
              (sym (ap (λ c. c.resolver) same) ∙ halves.1.0 b.1),
      )

  -- A node that New accepts has the last node-id among its options, which is not empty; after Start
  -- it has a server exactly if the last listen address is not empty and a client exactly if some
  -- option gave a resolver, and it has at least one of the two.
  pub start_roles :
      (os : List (NodeOption g S)) (st : State g S)
      → new_node os ≡ created st.node
      → let t = start st in
        (t.node.config.id ≡ last_id [] os)
        × (last_id [] os ≢ [])
        × ((t.node.server ≡ none) ↔ (last_addr [] os ≡ []))
        × ((t.node.client ≡ none) ↔ (names_parent os ≡ false))
        × ¬ ((t.node.server ≡ none) × (t.node.client ≡ none))
  start_roles os st h = new_node-roles os st.node st h refl refl refl

  -- Start leaves the handlers and the program's state alone.
  pub start-handlers :
      (st : State g S)
      → let t = start st in
        (t.node.upstream_handlers ≡ st.node.upstream_handlers)
        × (t.node.downstream_handlers ≡ st.node.downstream_handlers)
        × (t.service ≡ st.service)
  unfolding start start_server start_client is_empty
  start-handlers st = ground arith

  -- A node that New makes has no handlers.
  pub new_node-handlers :
      (os : List (NodeOption g S)) (n : Node g S)
      → new_node os ≡ created n
      → (n.upstream_handlers ≡ []) × (n.downstream_handlers ≡ [])
  unfolding new_node check_config no_role is_empty
  new_node-handlers os n h = ground (arith, h)

  abbrev fresh : Config g S → Node g S
  fresh c = record {
    config = c;
    server = none;
    client = none;
    upstream_handlers = [];
    downstream_handlers = [];
    pending = [];
    retry = waiting;
  }

  check_config-fresh :
      (c : Config g S)
      → c.id ≢ []
      → (c.listen_addr ≡ [] → c.resolver ≢ none)
      → check_config c ≡ created (fresh c)
  unfolding check_config no_role is_empty
  check_config-fresh c i r = ground (arith, i, r)

  -- New accepts options that leave a node-id and a listen address or a resolver.
  pub new_node-created :
      (os : List (NodeOption g S))
      → last_id [] os ≢ []
      → (last_addr [] os ≡ [] → names_parent os ≢ false)
      → (n : Node g S) × (new_node os ≡ created n)
  unfolding new_node empty_config
  new_node-created os i r =
      let c : Config g S = apply_options os empty_config in
      let id = apply_options-id os empty_config in
      let addr = apply_options-listen_addr os empty_config in
      let (to, back) = apply_options-resolver os empty_config refl in
      (fresh c, check_config-fresh c (λ p. i (sym id ∙ p)) (λ p q. r (sym addr ∙ p) (to q)))
