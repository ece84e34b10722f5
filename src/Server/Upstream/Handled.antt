-- ===== src/Server/Upstream/Handled.antt =====
-- transport/server.go, `Upstream`: what the handler is given, and what the call returns.
use multi_region.Prelude.{
  ℕ, ◌+◌, ◌<◌, ◌≡◌, refl, ap, ◌∙◌, Option, none, some, List, [], ◌∷◌, length, arith,
}
use multi_region.Envelope.{Envelope}
use multi_region.Server.{Server, Context, Error, stream_failed, authorize, child_node_id}
use multi_region.Server.Pending.{authorize_lem}
use multi_region.Server.Upstream.{
  Recv, msg, eof, recv_error, Outcome, receiving, returned, OnUpstream, count_received,
  enter_upstream, upstream_loop, finish, admit, upstream,
}

-- The messages before the stream ends.
unfoldable pub messages : List Recv → List Envelope
messages [] = []
messages (msg env ∷ rest) = env ∷ messages rest
messages (eof ∷ rest) = []
messages (recv_error ∷ rest) = []

-- How the stream ends, if it does: io.EOF is no error.
unfoldable pub ending : List Recv → Outcome
ending [] = receiving
ending (msg env ∷ rest) = ending rest
ending (eof ∷ rest) = returned none
ending (recv_error ∷ rest) = returned (some stream_failed)

-- The handler run over some envelopes, in order.
unfoldable pub run_over :
    {T : Type 0} → (Context → Envelope → T → T) → Context → List Envelope → T → T
run_over f ctx [] t = t
run_over f ctx (env ∷ envs) t = run_over f ctx envs (f ctx env t)

-- A handler that never returns an error, as that of a node.
abbrev pub accepting : {T : Type 0} → (Context → Envelope → T → T) → OnUpstream T
accepting f = some (λ ctx env t. (f ctx env t, none))

-- The call still counts as a connection until it returns.
unfoldable pub still_open : Outcome → ℕ
still_open receiving = 1
still_open (returned e) = 0

module _ {S T : Type 0} (f : Context → Envelope → T → T) (ctx : Context) where
  loop_handles :
      (inputs : List Recv) (s : Server S) (t : T)
      → let (s', t', o) = upstream_loop (accepting f) ctx inputs s t in
        (t' ≡ run_over f ctx (messages inputs) t)
        × (o ≡ ending inputs)
        × (s'.metrics.received ≡ s.metrics.received + length (messages inputs))
        × (s'.metrics.upstream_children ≡ s.metrics.upstream_children)
  unfolding upstream_loop messages ending run_over
  loop_handles [] s t = (refl, refl, omega arith, refl)
  loop_handles (eof ∷ rest) s t = (refl, refl, omega arith, refl)
  loop_handles (recv_error ∷ rest) s t = (refl, refl, omega arith, refl)
  loop_handles (msg env ∷ rest) s t =
      let next = loop_handles rest (count_received s) (f ctx env t) in
      (next.0, next.1, omega (arith, next.2), next.3)

  finish-parts :
      (s : Server S) (t : T) (o : Outcome)
      → let (s', t', o') = finish (s, t, o) in
        (t' ≡ t)
        × (o' ≡ o)
        × (s'.metrics.received ≡ s.metrics.received)
        × (0 < s.metrics.upstream_children
            → s'.metrics.upstream_children + 1 ≡ s.metrics.upstream_children + still_open o)
  unfolding finish still_open
  finish-parts s t receiving = (refl, refl, refl, λ h. refl)
  finish-parts s t (returned e) = (refl, refl, refl, λ h. omega arith)

  -- An Upstream call of a child that is approved gives the handler each message that comes before
  -- the stream ends, once and in order, and returns nil at io.EOF and an error if the stream
  -- breaks; each message is counted, and the gauge of Upstream connections is one higher until
  -- the call returns and then as before.
  pub upstream_handles :
      (service : S) (now : ℕ) (inputs : List Recv) (s : Server S) (t : T)
      → s.authorize_child service ctx (child_node_id ctx) ≡ none
      → let (s', t', o) = upstream service (accepting f) ctx now inputs s t in
        (t' ≡ run_over f ctx (messages inputs) t)
        × (o ≡ ending inputs)
        × (s'.metrics.received ≡ s.metrics.received + length (messages inputs))
        × (s'.metrics.upstream_children ≡ s.metrics.upstream_children + still_open (ending inputs))
  unfolding upstream
  upstream_handles service now inputs s t approved =
      let law = authorize_lem service ctx now (child_node_id ctx) [] s in
      go (authorize service ctx now (child_node_id ctx) s).0
        (authorize service ctx now (child_node_id ctx) s).1 (law.1 ∙ rw approved) law.3.received
        law.3.upstream_children
    where
      go :
          (s₁ : Server S) (e : Option Error)
          → e ≡ none
          → s₁.metrics.received ≡ s.metrics.received
          → s₁.metrics.upstream_children ≡ s.metrics.upstream_children
          → let (s', t', o) = admit (accepting f) ctx inputs t (s₁, e) in
            (t' ≡ run_over f ctx (messages inputs) t)
            × (o ≡ ending inputs)
            × (s'.metrics.received ≡ s.metrics.received + length (messages inputs))
            × (s'.metrics.upstream_children
                ≡ s.metrics.upstream_children + still_open (ending inputs))
      go s₁ (some e) p r u = cc
      go s₁ none p r u =
          let (s₂, t', o) = upstream_loop (accepting f) ctx inputs (enter_upstream s₁) t in
          let loop = loop_handles inputs (enter_upstream s₁) t in
          let parts = finish-parts s₂ t' o in
          (
            parts.0 ∙ loop.0,
            parts.1 ∙ loop.1,
            omega (arith, parts.2, loop.2, r, entered.0),
            omega (arith, parts.3, loop.3, u, entered.1, ap still_open loop.1),
          )
        where
          entered :
              ((enter_upstream s₁).metrics.received ≡ s₁.metrics.received)
              × ((enter_upstream s₁).metrics.upstream_children ≡ s₁.metrics.upstream_children + 1)
          entered = unfold enter_upstream in (refl, refl)
