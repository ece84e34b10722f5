-- ===== src/Client/Streams.antt =====
-- transport/client.go: how the two streams come and go over a client's life.
use multi_region.Prelude.{
  ◌≡◌, refl, sym, subst, ◌≢◌, ap, Bool, true, false, Option, none, some, List, [], ◌∷◌, arith,
  Option-cases, Bool-cases, inl, inr,
}
use multi_region.Envelope.{Envelope}
use multi_region.Grpc.{Grpc}
use multi_region.Client.{
  Client, Error, Dialled, conn, failed, dial_parent, opened_upstream, connect_upstream,
  reopen_upstream_unless, reopen_upstream, opened_downstream, connect_downstream,
  reopen_downstream_unless, reopen_downstream, is_nil, reopen_if, reconnect_unless, reconnect_tick,
  received, settle, send_on, send_stream, count_send, send_upstream, close_client, connect,
  cancel_old, is_connected,
}

-- The calls that a client's owner and its goroutines make.
pub data Op (g : Grpc) : Type 0 where
  connects : Op g
  ticks : Op g
  receives : g.DownStream → Option Envelope → Op g
  sends : Envelope → Op g
  closes : Op g

module _ (g : Grpc) where
  unfoldable pub step : Client g × g.World → Op g → Client g × g.World
  unfolding connect reconnect_tick received send_upstream close_client
  step (c, w) connects = connect g c w
  step (c, w) ticks = reconnect_tick g c w
  step (c, w) (receives stream answer) = ((received g stream answer c).0, w)
  step (c, w) (sends env) = let (c', w', e) = send_upstream g env c w in (c', w')
  step (c, w) closes = let (c', w', e) = close_client g c w in (c', w')

  unfoldable pub run : Client g × g.World → List (Op g) → Client g × g.World
  run cw [] = cw
  run cw (o ∷ os) = run (step cw o) os

  -- A client whose upstream stream is there.
  abbrev HasUpstream : Client g → Type 0
  HasUpstream c = c.upstream_stream ≢ none

  connect_upstream-HasUpstream :
      (c : Client g) (r : Dialled g.Conn × g.World)
      → HasUpstream c
      → HasUpstream (connect_upstream g c r).0
  unfolding connect_upstream
  connect_upstream-HasUpstream c (failed e, w) h = h
  connect_upstream-HasUpstream c (conn k, w) h = go (g.open_upstream k c.node_id w)
    where
      go : (r : Option g.UpStream × g.World) → HasUpstream (opened_upstream g c k r).0
      go (none, v) = h
      go (some stream, v) = λ p. cc

  reopen_upstream-HasUpstream :
      (closed : Bool) (c : Client g) (w : g.World)
      → HasUpstream c
      → HasUpstream (reopen_upstream_unless g closed c w).0
  unfolding reopen_upstream_unless
  reopen_upstream-HasUpstream true c w h = h
  reopen_upstream-HasUpstream false c w h = connect_upstream-HasUpstream c (dial_parent g c w) h

  -- Reopening Downstream leaves the upstream side as it is.
  connect_downstream-upstream :
      (c : Client g) (r : Dialled g.Conn × g.World)
      → ((connect_downstream g c r).0.upstream_stream ≡ c.upstream_stream)
        × ((connect_downstream g c r).0.upstream_conn ≡ c.upstream_conn)
  unfolding connect_downstream
  connect_downstream-upstream c (failed e, w) = (refl, refl)
  connect_downstream-upstream c (conn k, w) =
      go (g.open_downstream k c.node_id (g.with_cancel w).0 (g.with_cancel w).1)
    where
      go :
          (r : Option g.DownStream × g.World)
          → ((opened_downstream g c k (g.with_cancel w).0 r).0.upstream_stream ≡ c.upstream_stream)
            × ((opened_downstream g c k (g.with_cancel w).0 r).0.upstream_conn ≡ c.upstream_conn)
      go (none, v) = (refl, refl)
      go (some stream, v) = (refl, refl)

  reopen_downstream-upstream :
      (closed : Bool) (c : Client g) (w : g.World)
      → ((reopen_downstream_unless g closed c w).0.upstream_stream ≡ c.upstream_stream)
        × ((reopen_downstream_unless g closed c w).0.upstream_conn ≡ c.upstream_conn)
  unfolding reopen_downstream_unless
  reopen_downstream-upstream true c w = (refl, refl)
  reopen_downstream-upstream false c w =
      connect_downstream-upstream c (dial_parent g c (cancel_old g c.downstream_cancel w))

  is_nil-some : (o : Option g.UpStream) → o ≢ none → is_nil g o ≡ false
  unfolding is_nil
  is_nil-some none h = absurd (h refl)
  is_nil-some (some stream) h = refl

  -- With an upstream stream, a tick leaves the upstream side as it is.
  tick-upstream :
      (closed : Bool) (c : Client g) (w : g.World)
      → HasUpstream c
      → ((reconnect_unless g closed c w).0.upstream_stream ≡ c.upstream_stream)
        × ((reconnect_unless g closed c w).0.upstream_conn ≡ c.upstream_conn)
  unfolding reconnect_unless reopen_if reopen_downstream
  tick-upstream true c w h = (refl, refl)
  tick-upstream false c w h =
      rw (is_nil-some c.upstream_stream h, reconnect_unless) (down (is_nil g c.downstream_stream))
    where
      down :
          (b : Bool)
          → ((reopen_if g b (reopen_downstream g) c w).0.upstream_stream ≡ c.upstream_stream)
            × ((reopen_if g b (reopen_downstream g) c w).0.upstream_conn ≡ c.upstream_conn)
      down false = (refl, refl)
      down true = reopen_downstream-upstream c.closed c w

  settle-HasUpstream :
      (c : Client g) (r : Bool × g.World) → HasUpstream c → HasUpstream (settle g c r).0
  unfolding settle reopen_upstream
  settle-HasUpstream c (true, w) h = h
  settle-HasUpstream c (false, w) h = reopen_upstream-HasUpstream c.closed c w h

  send_upstream-HasUpstream :
      (env : Envelope) (c : Client g) (w : g.World)
      → HasUpstream c
      → HasUpstream (send_upstream g env c w).0
  unfolding send_upstream send_stream send_on
  send_upstream-HasUpstream env c w h = elim (Option-cases c.upstream_stream) [
    | inl missing ↦ absurd (h missing)
    | inr (stream, live) ↦
        simp (live, send_stream)
          (counted (settle g c (g.send stream env w))
            (settle-HasUpstream c (g.send stream env w) h))
  ]
    where
      counted :
          (r : Client g × g.World × Option Error) → HasUpstream r.0 → HasUpstream (count_send g r).0
      counted (c', w', some e) k = k
      counted (c', w', none) k = k

  step-HasUpstream :
      (c : Client g) (w : g.World) (o : Op g) → HasUpstream c → HasUpstream (step (c, w) o).0
  unfolding step connect reconnect_tick received reopen_upstream reopen_downstream
  step-HasUpstream c w connects h =
      let (c', w', e) = reopen_upstream g c w in
      subst (λ s. s ≢ none) (sym (reopen_downstream-upstream c'.closed c' w').0)
        (reopen_upstream-HasUpstream c.closed c w h)
  step-HasUpstream c w ticks h = subst (λ s. s ≢ none) (sym (tick-upstream c.closed c w h).0) h
  step-HasUpstream c w (receives stream (some env)) h = h
  step-HasUpstream c w (receives stream none) h = ground arith
  step-HasUpstream c w (sends env) h = send_upstream-HasUpstream env c w h
  step-HasUpstream c w closes h = h

  run-HasUpstream :
      (c : Client g) (w : g.World) (os : List (Op g))
      → HasUpstream c
      → HasUpstream (run (c, w) os).0
  unfolding run
  run-HasUpstream c w [] h = h
  run-HasUpstream c w (o ∷ os) h =
      run-HasUpstream (step (c, w) o).0 (step (c, w) o).1 os (step-HasUpstream c w o h)

  -- Once an Upstream stream has been opened, the client keeps a stream whatever happens later, be
  -- it that the parent rejects the call or goes away; and no later tick of the reconnect loop
  -- changes that stream or its connection.
  pub reconnect_skips_upstream :
      (c : Client g) (w : g.World) (os : List (Op g))
      → c.upstream_stream ≢ none
      → let (c', w') = run (c, w) os in
        (c'.upstream_stream ≢ none)
        × ((reconnect_tick g c' w').0.upstream_stream ≡ c'.upstream_stream)
        × ((reconnect_tick g c' w').0.upstream_conn ≡ c'.upstream_conn)
  unfolding reconnect_tick
  reconnect_skips_upstream c w os h =
      let kept = run-HasUpstream c w os h in
      let same = tick-upstream (run (c, w) os).0.closed (run (c, w) os).0 (run (c, w) os).1 kept in
      (kept, same.0, same.1)

  -- A `Recv` that fails clears the Downstream stream just if it is the stream that failed: a newer
  -- stream that has replaced it stays, and nothing changes. If it is cleared, the client is
  -- not connected, and nothing else has changed.
  pub received_failure :
      (c : Client g) (stream : g.DownStream)
      → let (c', env) = received g stream none c in
        (env ≡ none)
        × (c.downstream_stream ≡ some stream
            → (c' ≡ record c { downstream_stream = none }) × (is_connected g c' ≡ false))
        × (c.downstream_stream ≢ some stream → c' ≡ c)
  unfolding received is_connected is_nil
  received_failure c stream = elim (Option-cases c.downstream_stream) [
    | inl missing ↦ simp (missing, received) (refl, λ p. cc, λ p. refl)
    | inr (live, there) ↦ elim (Bool-cases (g.same_stream live stream)) [
      | inl same ↦
          let here = ap some ((g.same_stream_iff live stream).0 same) in
          simp (there, same, received) (refl, λ p. (refl, ground arith), λ q. absurd (q here))
      | inr other ↦
          simp (there, other, received)
            (refl, λ p. absurd (ground (arith, g.same_stream_iff live stream)), λ p. refl)
    ]
  ]
