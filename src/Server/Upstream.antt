-- ===== src/Server/Upstream.antt =====
-- transport/server.go, `Upstream`: the loop that takes in what one child sends up.
pub mod Handled
use multi_region.Prelude.{ℕ, ◌+◌, ◌-◌, Option, none, some, List, [], ◌∷◌, Bytes}
use multi_region.Envelope.{Envelope}
use multi_region.Metrics.{ServerMetrics}
use multi_region.Server.{
  Server, Context, Error, stream_failed, handler_failed, authorize, child_node_id,
}

-- What `stream.Recv` returns: a message, io.EOF, or another error.
pub data Recv : Type 0 where
  msg : Envelope → Recv
  eof : Recv
  recv_error : Recv

-- How far the call is: still receiving after the answers so far, or returned.
pub data Outcome : Type 0 where
  receiving : Outcome
  returned : Option Error → Outcome

-- The service's part of the state is `T`; `onUpstream` may be nil.
abbrev pub OnUpstream : Type 0 → Type 0
OnUpstream T = Option (Context → Envelope → T → T × Option Bytes)

handle : {T : Type 0} → OnUpstream T → Context → Envelope → T → T × Option Bytes
handle none ctx env t = (t, none)
handle (some h) ctx env t = h ctx env t

module _ {S : Type 0} where
  count_received : Server S → Server S
  count_received s = record s { metrics = record m { received = m.received + 1 } }
    where
      m : ServerMetrics
      m = s.metrics

  enter_upstream : Server S → Server S
  enter_upstream s = record s { metrics = record m { upstream_children = m.upstream_children + 1 } }
    where
      m : ServerMetrics
      m = s.metrics

  leave_upstream : Server S → Server S
  leave_upstream s = record s { metrics = record m { upstream_children = m.upstream_children - 1 } }
    where
      m : ServerMetrics
      m = s.metrics

module _ {S T : Type 0} where
  pub upstream_loop : OnUpstream T → Context → List Recv → Server S → T → Server S × T × Outcome
  unfolding count_received handle
  upstream_loop h ctx [] s t = (s, t, receiving)
  upstream_loop h ctx (eof ∷ rest) s t = (s, t, returned none)
  upstream_loop h ctx (recv_error ∷ rest) s t = (s, t, returned (some stream_failed))
  upstream_loop h ctx (msg env ∷ rest) s t =
      let (t', failed) = handle h ctx env t in
      let s' = count_received s in
      let next = upstream_loop h ctx rest s' t' in
      elim failed [ some reason ↦ (s', t', returned (some (handler_failed reason))) | none ↦ next ]

  -- The deferred `Dec` runs when the call returns.
  finish : Server S × T × Outcome → Server S × T × Outcome
  unfolding leave_upstream
  finish (s, t, receiving) = (s, t, receiving)
  finish (s, t, returned e) = (leave_upstream s, t, returned e)

  admit : OnUpstream T → Context → List Recv → T → Server S × Option Error → Server S × T × Outcome
  unfolding upstream_loop finish enter_upstream
  admit h ctx inputs t (s, some e) = (s, t, returned (some e))
  admit h ctx inputs t (s, none) = finish (upstream_loop h ctx inputs (enter_upstream s) t)

  pub upstream : S → OnUpstream T → Context → ℕ → List Recv → Server S → T → Server S × T × Outcome
  unfolding admit
  upstream service h ctx now inputs s t =
      admit h ctx inputs t (authorize service ctx now (child_node_id ctx) s)
