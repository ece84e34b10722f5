-- ===== src/Node/Held.antt =====
-- node/node.go: the envelopes that a node holds for its parent, and what `forwardUp` adds to them.
use multi_region.Prelude.{
  ℕ, ◌+◌, ◌≡◌, refl, sym, ap, ◌∙◌, Bool, Option, none, some, List, [], ◌∷◌, ◌++◌, if◌then◌else◌,
  arith, Option-cases, inl, inr,
}
use mathlib.Core.List.{append-nil}
use multi_region.Envelope.{Envelope}
use multi_region.Grpc.{Grpc}
use multi_region.Client.{Client}
use multi_region.Client
use multi_region.Client.Sending.{if_sent, send_upstream_exact}
use multi_region.Node.{
  State, Retry, waiting, sending, pausing, stopped, new_envelope, push, after_send, forward_up,
}
use multi_region.Node.Loop.{
  Event, sends_up, child_sends, parent_sends, ticks, resends, paces, cancels, step,
}

-- How many envelopes of a list pass a test. Two lists hold the same envelopes, as often, when this
-- is the same for every test.
unfoldable pub count : (Envelope → Bool) → List Envelope → ℕ
count p [] = 0
count p (env ∷ envs) = (if p env then 1 else 0) + count p envs

pub count-nil : (p : Envelope → Bool) → count p [] ≡ 0
unfolding count
count-nil p = refl

pub count-append :
    (p : Envelope → Bool) (xs ys : List Envelope) → count p (xs ++ ys) ≡ count p xs + count p ys
unfolding count
count-append p [] ys = omega arith
count-append p (x ∷ xs) ys = omega (arith, count-append p xs ys)

-- What the retry loop holds, or held when it returned.
abbrev pub in_hand : Retry → List Envelope
in_hand waiting = []
in_hand (sending envs) = envs
in_hand (pausing envs) = envs
in_hand (stopped envs) = envs

-- What a call of `SendUpstream` that returned an error leaves to be queued.
abbrev if_failed : Option Client.Error → Envelope → List Envelope
if_failed none env = []
if_failed (some e) env = env ∷ []

-- The envelope, if the node has a parent to forward it to.
abbrev pub forwarded : {g : Grpc} → Option (Client g) → Envelope → List Envelope
forwarded none env = []
forwarded (some c) env = env ∷ []

one_place :
    (p : Envelope → Bool) (env : Envelope) (e : Option Client.Error)
    → count p (if_sent e env) + count p (if_failed e env) ≡ count p (env ∷ [])
unfolding count
one_place p env none = omega arith
one_place p env (some x) = omega arith

module _ {g : Grpc} {S : Type 0} where
  -- Handed to gRPC, in the hands of the retry loop, and queued.
  abbrev pub held : State g S → List Envelope
  held st = g.sent st.world ++ (in_hand st.node.retry ++ st.node.pending)

  -- What an event gives the node to forward.
  abbrev pub accepted : State g S → Event → List Envelope
  accepted st (sends_up now kind payload) =
      forwarded st.node.client (new_envelope now st.node.config.id kind payload)
  accepted st (child_sends env) = forwarded st.node.client env
  accepted st (parent_sends env) = []
  accepted st ticks = []
  accepted st resends = []
  accepted st paces = []
  accepted st cancels = []

  unfoldable pub accepted_over : State g S → List Event → List Envelope
  accepted_over st [] = []
  accepted_over st (e ∷ es) = accepted st e ++ accepted_over (step st e) es

  -- The parts of `held` after a send.
  after_send-held :
      (env : Envelope) (st : State g S) (r : Client g × g.World × Option Client.Error)
      → (g.sent (after_send env st r).world ≡ g.sent r.1)
        × ((after_send env st r).node.pending ≡ st.node.pending ++ if_failed r.2 env)
        × ((after_send env st r).node.retry ≡ st.node.retry)
  unfolding after_send push
  after_send-held env st (c, w, some e) = (refl, refl, refl)
  after_send-held env st (c, w, none) = (refl, sym (append-nil st.node.pending), refl)

  pub after_send-count :
      (p : Envelope → Bool) (env : Envelope) (st : State g S) (c : Client g)
      → let t = after_send env st (Client.send_upstream g env c st.world) in
        (count p (g.sent t.world) + count p t.node.pending
          ≡ count p (g.sent st.world) + count p st.node.pending + count p (env ∷ []))
        × (t.node.retry ≡ st.node.retry)
  after_send-count p env st c =
      let r = Client.send_upstream g env c st.world in
      let parts = after_send-held env st r in
      (
        omega (
          arith,
          ap (count p) (parts.0 ∙ (send_upstream_exact g env c st.world).0),
          ap (count p) parts.1,
          count-append p (g.sent st.world) (if_sent r.2 env),
          count-append p st.node.pending (if_failed r.2 env),
          one_place p env r.2,
        ),
        parts.2,
      )

  pub held-count :
      (p : Envelope → Bool) (st : State g S)
      → count p (held st)
        ≡ count p (g.sent st.world) + count p (in_hand st.node.retry) + count p st.node.pending
  held-count p st = omega (
    arith,
    count-append p (g.sent st.world) (in_hand st.node.retry ++ st.node.pending),
    count-append p (in_hand st.node.retry) st.node.pending,
  )

  pub forward_up-count :
      (p : Envelope → Bool) (env : Envelope) (st : State g S)
      → count p (held (forward_up env st))
        ≡ count p (held st) + count p (forwarded st.node.client env)
  unfolding forward_up
  forward_up-count p env st = elim (Option-cases st.node.client) [
    | inl root ↦ simp (root, forward_up) (unfold count in omega arith)
    | inr (c, there) ↦
        let done = after_send-count p env st c in
        let t = after_send env st (Client.send_upstream g env c st.world) in
        simp (there, forward_up)
          (omega
            (arith, held-count p st, held-count p t, done.0, ap (λ r. count p (in_hand r)) done.1))
  ]
