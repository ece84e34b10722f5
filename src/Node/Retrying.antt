-- ===== src/Node/Retrying.antt =====
-- node/node.go, `retryLoop`: a pass over the queue once the parent can be reached.
use multi_region.Prelude.{
  ℕ, zero, suc, ◌≡◌, refl, sym, ap, ◌∙◌, Option, none, some, List, [], ◌∷◌, ◌++◌, length, subst,
}
use mathlib.Core.List.{append-nil, append_assoc}
use multi_region.Envelope.{Envelope}
use multi_region.Grpc.{Grpc}
use multi_region.Client.{Client}
use multi_region.Client
use multi_region.Client.Sending.{if_sent, send_upstream_exact}
use multi_region.Node.{State, Retry, waiting, sending, pausing, after_send}
use multi_region.Node.Loop.{
  Event, ticks, resends, paces, set_retry, drain, tick, resend_one, resend, pace, step, run,
}

-- The rounds of the inner loop: a send, and a wait for the pacer.
pub rounds : ℕ → List Event
rounds zero = []
rounds (suc n) = resends ∷ paces ∷ rounds n

-- Where the loop goes with what is left.
go_on : List Envelope → Retry
go_on [] = waiting
go_on (env ∷ envs) = sending (env ∷ envs)

-- While the client and the network are so, sends succeed and leave them so.
abbrev pub Reaches : (g : Grpc) → (Client g → g.World → Type 0) → Type 0
Reaches g Up =
    (env : Envelope) (c : Client g) (w : g.World)
    → Up c w
    → let (c', w', e) = Client.send_upstream g env c w in (e ≡ none) × Up c' w'

-- A state whose client and network can send, with these envelopes in hand, sent and queued.
record IsAt {g : Grpc} {S : Type 0} (Up : Client g → g.World → Type 0)
    (hand sent queue : List Envelope) (st : State g S) : Type 0 where
  client : Client g
  there : st.node.client ≡ some client
  can_send : Up client st.world
  hand_is : st.node.retry ≡ go_on hand
  sent_is : g.sent st.world ≡ sent
  queue_is : st.node.pending ≡ queue

module _ {g : Grpc} {S : Type 0} (Up : Client g → g.World → Type 0) (reaches : Reaches g Up) where
  resend_one-some :
      (st : State g S) (c : Client g) (env : Envelope) (rest : List Envelope)
      → st.node.client ≡ some c
      → resend_one env rest st
        ≡ set_retry (pausing rest) (after_send env st (Client.send_upstream g env c st.world))
  unfolding resend_one
  resend_one-some st c env rest e = simp (e, resend_one) refl

  after_round :
      (env : Envelope) (rest before queue : List Envelope) (st : State g S)
      (r : Client g × g.World × Option Client.Error)
      → r.2 ≡ none
      → Up r.0 r.1
      → g.sent r.1 ≡ before ++ if_sent r.2 env
      → st.node.pending ≡ queue
      → IsAt Up rest
          (before ++ env ∷ [])
          queue
          (step (set_retry (pausing rest) (after_send env st r)) paces)
  unfolding step set_retry after_send pace go_on
  after_round env rest before queue st (c, w, some x) p u e q = cc
  after_round env [] before queue st (c, w, none) p u e q = record {
    client = c;
    there = refl;
    can_send = u;
    hand_is = refl;
    sent_is = e;
    queue_is = q;
  }
  after_round env (next ∷ rest) before queue st (c, w, none) p u e q = record {
    client = c;
    there = refl;
    can_send = u;
    hand_is = refl;
    sent_is = e;
    queue_is = q;
  }

  -- One round sends the first envelope in hand, and moves nothing into the queue.
  one_round :
      (env : Envelope) (rest before queue : List Envelope) (st : State g S)
      → IsAt Up (env ∷ rest) before queue st
      → IsAt Up rest (before ++ env ∷ []) queue (step (step st resends) paces)
  unfolding step resend go_on
  one_round env rest before queue st at =
      let answer = Client.send_upstream g env at.client st.world in
      let done = reaches env at.client st.world at.can_send in
      let sent : g.sent answer.1 ≡ before ++ if_sent answer.2 env =
        (send_upstream_exact g env at.client st.world).0
        ∙ ap (λ b. b ++ if_sent answer.2 env) at.sent_is in
      let moved : step st resends ≡ set_retry (pausing rest) (after_send env st answer) =
        ap (λ r. resend r st) at.hand_is ∙ resend_one-some st at.client env rest at.there in
      subst (λ t. IsAt Up rest (before ++ env ∷ []) queue (step t paces)) (sym moved)
        (after_round env rest before queue st answer done.0 done.1 sent at.queue_is)

  all_rounds :
      (envs before queue : List Envelope) (st : State g S)
      → IsAt Up envs before queue st
      → IsAt Up [] (before ++ envs) queue (run st (rounds (length envs)))
  unfolding run rounds
  all_rounds [] before queue st at = subst (λ b. IsAt Up [] b queue st) (sym (append-nil before)) at
  all_rounds (env ∷ rest) before queue st at =
      subst (λ b. IsAt Up [] b queue (run (step (step st resends) paces) (rounds (length rest))))
        (append_assoc before (env ∷ []) rest)
        (all_rounds rest (before ++ env ∷ []) queue _ (one_round env rest before queue st at))

  drained :
      (envs : List Envelope) (st : State g S) (c : Client g)
      → st.node.client ≡ some c
      → Up c st.world
      → st.node.retry ≡ waiting
      → st.node.pending ≡ envs
      → IsAt Up envs (g.sent st.world) [] (drain envs st)
  unfolding drain go_on
  drained [] st c there u r q = record {
    client = c;
    there = there;
    can_send = u;
    hand_is = r;
    sent_is = refl;
    queue_is = q;
  }
  drained (env ∷ envs) st c there u r q = record {
    client = c;
    there = there;
    can_send = u;
    hand_is = refl;
    sent_is = refl;
    queue_is = refl;
  }

  -- If the client can reach the parent and goes on reaching it, a tick of the retry loop and one
  -- round for each queued envelope hand the whole queue to gRPC, in its order and once each, and
  -- leave the queue empty and the loop waiting.
  pub retry_delivers :
      (st : State g S) (c : Client g)
      → st.node.client ≡ some c
      → Up c st.world
      → st.node.retry ≡ waiting
      → let t = run st (ticks ∷ rounds (length st.node.pending)) in
        (g.sent t.world ≡ g.sent st.world ++ st.node.pending)
        × (t.node.pending ≡ [])
        × (t.node.retry ≡ waiting)
  unfolding run step tick go_on
  retry_delivers st c there u r =
      let start : step st ticks ≡ drain st.node.pending st = ap (λ q. tick q st) r in
      let at = all_rounds st.node.pending (g.sent st.world) [] (step st ticks) (
        subst (IsAt Up st.node.pending (g.sent st.world) []) (sym start)
          (drained st.node.pending st c there u r refl)) in
      (at.sent_is, at.queue_is, at.hand_is)
