-- ===== src/Node/Handlers.antt =====
-- node/node.go, `OnUpstream`, `OnDownstream` and what runs the handlers.
use multi_region.Prelude.{
  ◌≡◌, refl, sym, ap, ◌∙◌, Bool, true, false, Option, none, some, List, [], ◌∷◌, ◌++◌, Bytes, Map,
  lookup, insert, lookup-insert, beq, beq_iff, beq_refl, if◌then◌else◌, arith, Option-cases, inl,
  inr,
}
use mathlib.Core.List.{append-nil, append_assoc, foldl}
use multi_region.Envelope.{Envelope}
use multi_region.Grpc.{Grpc}
use multi_region.Server.{Server}
use multi_region.Server
use multi_region.Client.{Client}
use multi_region.Client
use multi_region.Node.{
  send_down, Node, State, Clock, Handler, handlers_of, run_handlers, new_envelope, on_upstream,
  on_downstream, run_upstream_handlers, run_downstream_handlers, after_send, forward_up, send_up,
  handle_upstream_from_child, rebroadcast, handle_downstream_from_parent,
}

-- Calls of OnUpstream or OnDownstream: kinds and handlers.
abbrev pub Registrations : Type 0 → Type 0
Registrations S = List (Bytes × Handler S)

-- The handlers registered for a kind, in the order of the calls.
unfoldable pub chosen : {S : Type 0} → Bytes → Registrations S → List (Handler S)
chosen k [] = []
chosen k ((kind, h) ∷ rs) = if beq kind k then h ∷ chosen k rs else chosen k rs

-- The call of a handler with an envelope, on the state that the calls before it left.
abbrev pub called_with : {S : Type 0} → Envelope → S → Handler S → S
called_with env s h = h env s

run_handlers-foldl :
    {S : Type 0} (env : Envelope) (s : S) (hs : List (Handler S))
    → run_handlers hs env s ≡ foldl (called_with env) s hs
unfolding run_handlers
run_handlers-foldl env s [] = refl
run_handlers-foldl env s (h ∷ hs) = run_handlers-foldl env (h env s) hs

handlers_of-insert :
    {S : Type 0} (k kind : Bytes) (h : Handler S) (m : Map (List (Handler S)))
    → handlers_of k (insert kind (handlers_of kind m ++ h ∷ []) m)
      ≡ (if beq kind k then handlers_of k m ++ h ∷ [] else handlers_of k m)
unfolding handlers_of
handlers_of-insert k kind h m =
    ground (arith, lookup-insert kind k (handlers_of kind m ++ h ∷ []) m, beq_iff kind k)

next_chosen :
    {S : Type 0} (b : Bool) (before rest : List (Handler S)) (h : Handler S)
    → (if b then before ++ h ∷ [] else before) ++ rest ≡ before ++ (if b then h ∷ rest else rest)
next_chosen true before rest h = append_assoc before (h ∷ []) rest
next_chosen false before rest h = refl

module _ {g : Grpc} {S : Type 0} where
  unfoldable pub on_upstream_all : Registrations S → Node g S → Node g S
  on_upstream_all [] n = n
  on_upstream_all ((kind, h) ∷ rs) n = on_upstream_all rs (on_upstream kind h n)

  unfoldable pub on_downstream_all : Registrations S → Node g S → Node g S
  on_downstream_all [] n = n
  on_downstream_all ((kind, h) ∷ rs) n = on_downstream_all rs (on_downstream kind h n)

  pub on_upstream_all-chosen :
      (k : Bytes) (rs : Registrations S) (n : Node g S)
      → handlers_of k (on_upstream_all rs n).upstream_handlers
        ≡ handlers_of k n.upstream_handlers ++ chosen k rs
  unfolding on_upstream_all on_upstream chosen
  on_upstream_all-chosen k [] n = sym (append-nil (handlers_of k n.upstream_handlers))
  on_upstream_all-chosen k ((kind, h) ∷ rs) n =
      on_upstream_all-chosen k rs (on_upstream kind h n)
      ∙ ap (λ hs. hs ++ chosen k rs) (handlers_of-insert k kind h n.upstream_handlers)
      ∙ next_chosen (beq kind k) (handlers_of k n.upstream_handlers) (chosen k rs) h

  pub on_downstream_all-chosen :
      (k : Bytes) (rs : Registrations S) (n : Node g S)
      → handlers_of k (on_downstream_all rs n).downstream_handlers
        ≡ handlers_of k n.downstream_handlers ++ chosen k rs
  unfolding on_downstream_all on_downstream chosen
  on_downstream_all-chosen k [] n = sym (append-nil (handlers_of k n.downstream_handlers))
  on_downstream_all-chosen k ((kind, h) ∷ rs) n =
      on_downstream_all-chosen k rs (on_downstream kind h n)
      ∙ ap (λ hs. hs ++ chosen k rs) (handlers_of-insert k kind h n.downstream_handlers)
      ∙ next_chosen (beq kind k) (handlers_of k n.downstream_handlers) (chosen k rs) h

  pub after_send-service :
      (env : Envelope) (st : State g S) (r : Client g × g.World × Option Client.Error)
      → (after_send env st r).service ≡ st.service
  unfolding after_send
  after_send-service env st (c, w, some e) = refl
  after_send-service env st (c, w, none) = refl

  pub forward_up-service :
      (env : Envelope) (st : State g S) → (forward_up env st).service ≡ st.service
  unfolding forward_up
  forward_up-service env st = elim (Option-cases st.node.client) [
    | inl e ↦ simp (e, forward_up) refl
    | inr (c, e) ↦
        simp (e, forward_up) (after_send-service env st (Client.send_upstream g env c st.world))
  ]

  pub rebroadcast-service :
      (env : Envelope) (st : State g S) → (rebroadcast env st).service ≡ st.service
  unfolding rebroadcast
  rebroadcast-service env st = elim (Option-cases st.node.server) [
    | inl e ↦ simp (e, rebroadcast) refl
    | inr (s, e) ↦ simp (e, rebroadcast) refl
  ]

  -- On a node without handlers, after any calls of OnUpstream and of OnDownstream: an envelope that
  -- the program sends up or that a child sends is given once to each upstream handler of its kind,
  -- in the order of the registrations, one from the parent to each downstream handler of its kind,
  -- and no other handler runs.
  pub handlers_run :
      (ups downs : Registrations S) (n : Node g S) (st : State g S)
      → n.upstream_handlers ≡ []
      → n.downstream_handlers ≡ []
      → st.node.upstream_handlers ≡ (on_upstream_all ups n).upstream_handlers
      → st.node.downstream_handlers ≡ (on_downstream_all downs n).downstream_handlers
      → ((now : Clock) (kind payload : Bytes)
          → (send_up now kind payload st).service
            ≡ foldl
                (called_with (new_envelope now st.node.config.id kind payload))
                st.service
                (chosen kind ups))
        × ((env : Envelope)
            → (handle_upstream_from_child env st).service
              ≡ foldl (called_with env) st.service (chosen env.kind ups))
        × ((env : Envelope)
            → (handle_downstream_from_parent env st).service
              ≡ foldl (called_with env) st.service (chosen env.kind downs))
  unfolding send_up handle_upstream_from_child handle_downstream_from_parent run_upstream_handlers
      run_downstream_handlers handlers_of lookup new_envelope
  handlers_run ups downs n st u d us ds =
      let up : (k : Bytes) → handlers_of k st.node.upstream_handlers ≡ chosen k ups = λ k.
        ap (handlers_of k) us
        ∙ on_upstream_all-chosen k ups n
        ∙ ap (λ m. handlers_of k m ++ chosen k ups) u in
      let down : (k : Bytes) → handlers_of k st.node.downstream_handlers ≡ chosen k downs = λ k.
        ap (handlers_of k) ds
        ∙ on_downstream_all-chosen k downs n
        ∙ ap (λ m. handlers_of k m ++ chosen k downs) d in
      (
        (λ now kind payload.
            let env = new_envelope now st.node.config.id kind payload in
            forward_up-service env (run_upstream_handlers env st)
            ∙ ap (λ hs. run_handlers hs env st.service) (up kind)
            ∙ run_handlers-foldl env st.service (chosen kind ups)),
        (λ env.
            forward_up-service env (run_upstream_handlers env st)
            ∙ ap (λ hs. run_handlers hs env st.service) (up env.kind)
            ∙ run_handlers-foldl env st.service (chosen env.kind ups)),
        λ env.
            rebroadcast-service env (run_downstream_handlers env st)
            ∙ ap (λ hs. run_handlers hs env st.service) (down env.kind)
            ∙ run_handlers-foldl env st.service (chosen env.kind downs),
      )

  pub on_downstream-upstream_handlers :
      (kind : Bytes) (h : Handler S) (n : Node g S)
      → (on_downstream kind h n).upstream_handlers ≡ n.upstream_handlers
  unfolding on_downstream
  on_downstream-upstream_handlers kind h n = refl

  -- The first handler registered for a kind is the only one.
  pub on_upstream_first :
      (kind : Bytes) (h : Handler S) (n : Node g S)
      → n.upstream_handlers ≡ []
      → handlers_of kind (on_upstream kind h n).upstream_handlers ≡ h ∷ []
  unfolding on_upstream handlers_of lookup
  on_upstream_first kind h n e =
      handlers_of-insert kind kind h n.upstream_handlers
      ∙ rw (beq_refl kind) (ap (λ m. handlers_of kind m ++ h ∷ []) e)

  -- An envelope sent up goes through the handlers of its kind.
  pub send_up-service :
      (now : Clock) (kind payload : Bytes) (st : State g S)
      → (send_up now kind payload st).service
        ≡ run_handlers
            (handlers_of kind st.node.upstream_handlers)
            (new_envelope now st.node.config.id kind payload)
            st.service
  unfolding send_up run_upstream_handlers new_envelope
  send_up-service now kind payload st =
      let env = new_envelope now st.node.config.id kind payload in
      forward_up-service env (run_upstream_handlers env st)

  -- A registration changes nothing but the handlers of its direction.
  abbrev pub SameHalves : Node g S → Node g S → Type 0
  SameHalves m n = (m.config ≡ n.config) × (m.server ≡ n.server) × (m.client ≡ n.client)

  pub on_upstream-SameHalves :
      (kind : Bytes) (h : Handler S) (n : Node g S) → SameHalves (on_upstream kind h n) n
  unfolding on_upstream
  on_upstream-SameHalves kind h n = (refl, refl, refl)

  pub on_downstream-SameHalves :
      (kind : Bytes) (h : Handler S) (n : Node g S) → SameHalves (on_downstream kind h n) n
  unfolding on_downstream
  on_downstream-SameHalves kind h n = (refl, refl, refl)

  pub on_upstream-downstream_handlers :
      (kind : Bytes) (h : Handler S) (n : Node g S)
      → (on_upstream kind h n).downstream_handlers ≡ n.downstream_handlers
  unfolding on_upstream
  on_upstream-downstream_handlers kind h n = refl

  pub on_downstream_first :
      (kind : Bytes) (h : Handler S) (n : Node g S)
      → n.downstream_handlers ≡ []
      → handlers_of kind (on_downstream kind h n).downstream_handlers ≡ h ∷ []
  unfolding on_downstream handlers_of lookup
  on_downstream_first kind h n e =
      handlers_of-insert kind kind h n.downstream_handlers
      ∙ rw (beq_refl kind) (ap (λ m. handlers_of kind m ++ h ∷ []) e)

  pub send_down-broadcasts :
      (now : Clock) (kind payload : Bytes) (n : Node g S) (s : Server S)
      → n.server ≡ some s
      → let (t, r, e) = Server.broadcast_downstream (new_envelope now n.config.id kind payload) s in
        send_down now kind payload n ≡ (record n { server = some t }, r, e)
  unfolding send_down
  send_down-broadcasts now kind payload n s there = rw (there, send_down)

pub new_envelope-kind :
    (now : Clock) (id kind payload : Bytes) → (new_envelope now id kind payload).kind ≡ kind
unfolding new_envelope
new_envelope-kind now id kind payload = refl
