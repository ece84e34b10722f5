-- ===== src/Client/Sending.antt =====
-- transport/client.go, `SendUpstream`: what reaches the network.
use multi_region.Prelude.{
  ◌≡◌, refl, sym, ◌∙◌, ◌≢◌, inl, inr, Bool, true, false, Option, none, some, List, [], ◌∷◌, ◌++◌,
  if◌then◌else◌, subst, Bytes, Option-cases,
}
use mathlib.Core.List.{append-nil}
use multi_region.Envelope.{Envelope}
use multi_region.Grpc.{Grpc}
use multi_region.Client.{
  Client, Error, nil_stream, Dialled, conn, failed, dialled, dial_with, dial_parent, target,
  close_old, opened_upstream, connect_upstream, reopen_upstream_unless, reopen_upstream, settle,
  send_error, send_on, reopened, send_stream, count_send, send_upstream,
}

-- The envelope, if there was no error.
abbrev pub if_sent : Option Error → Envelope → List Envelope
if_sent none env = env ∷ []
if_sent (some e) env = []

module _ (g : Grpc) where
  dialled-sent : (r : Option g.Conn × g.World) → g.sent (dialled g r).1 ≡ g.sent r.1
  unfolding dialled
  dialled-sent (none, w) = refl
  dialled-sent (some k, w) = refl

  dial_with-sent :
      (c : Client g) (addr : Bytes) (w : g.World) → g.sent (dial_with g c addr w).1 ≡ g.sent w
  unfolding dial_with
  dial_with-sent c addr w = elim (Option-cases c.authn) [
    | inl insecure ↦
        rw (insecure, dial_with) (dialled-sent _ ∙ g.sent-new_client (target g c addr) none w)
    | inr (config, secure) ↦ elim (Option-cases (config w)) [
      | inl broken ↦ rw (secure, dial_with) (rw (broken, dial_with))
      | inr (t, ready) ↦
          rw (secure, dial_with)
            (rw (ready, dial_with)
              (dialled-sent _ ∙ g.sent-new_client (target g c addr) (some t) w))
    ]
  ]

  dial_parent-sent : (c : Client g) (w : g.World) → g.sent (dial_parent g c w).1 ≡ g.sent w
  unfolding dial_parent
  dial_parent-sent c w = elim (Option-cases (c.resolver w)) [
    | inl lost ↦ rw (lost, dial_parent)
    | inr (addr, found) ↦ rw (found, dial_parent) (dial_with-sent c addr w)
  ]

  close_old-sent : (k : Option g.Conn) (w : g.World) → g.sent (close_old g k w) ≡ g.sent w
  unfolding close_old
  close_old-sent none w = refl
  close_old-sent (some k) w = g.sent-close k w

  opened_upstream-sent :
      (c : Client g) (k : g.Conn) (r : Option g.UpStream × g.World)
      → g.sent (opened_upstream g c k r).1 ≡ g.sent r.1
  unfolding opened_upstream
  opened_upstream-sent c k (none, w) = g.sent-close k w
  opened_upstream-sent c k (some stream, w) = close_old-sent c.upstream_conn w

  connect_upstream-sent :
      (c : Client g) (r : Dialled g.Conn × g.World) → g.sent (connect_upstream g c r).1 ≡ g.sent r.1
  unfolding connect_upstream
  connect_upstream-sent c (failed e, w) = refl
  connect_upstream-sent c (conn k, w) =
      opened_upstream-sent c k (g.open_upstream k c.node_id w) ∙ g.sent-open_upstream k c.node_id w

  reopen_upstream_unless-sent :
      (closed : Bool) (c : Client g) (w : g.World)
      → g.sent (reopen_upstream_unless g closed c w).1 ≡ g.sent w
  unfolding reopen_upstream_unless
  reopen_upstream_unless-sent true c w = refl
  reopen_upstream_unless-sent false c w =
      connect_upstream-sent c (dial_parent g c w) ∙ dial_parent-sent c w

  pub reopen_upstream-sent :
      (c : Client g) (w : g.World) → g.sent (reopen_upstream g c w).1 ≡ g.sent w
  unfolding reopen_upstream
  reopen_upstream-sent c w = reopen_upstream_unless-sent c.closed c w

  -- A reopening that succeeds leaves a stream.
  opened_upstream-some :
      (c : Client g) (k : g.Conn) (r : Option g.UpStream × g.World)
      → (opened_upstream g c k r).2 ≡ none
      → (opened_upstream g c k r).0.upstream_stream ≢ none
  unfolding opened_upstream
  opened_upstream-some c k (none, w) e = cc
  opened_upstream-some c k (some stream, w) e = λ p. cc

  connect_upstream-some :
      (c : Client g) (r : Dialled g.Conn × g.World)
      → (connect_upstream g c r).2 ≡ none
      → (connect_upstream g c r).0.upstream_stream ≢ none
  unfolding connect_upstream
  connect_upstream-some c (failed e, w) p = cc
  connect_upstream-some c (conn k, w) p = opened_upstream-some c k (g.open_upstream k c.node_id w) p

  reopen_upstream_unless-some :
      (closed : Bool) (c : Client g) (w : g.World)
      → (reopen_upstream_unless g closed c w).2 ≡ none
      → (reopen_upstream_unless g closed c w).0.upstream_stream ≢ none
  unfolding reopen_upstream_unless
  reopen_upstream_unless-some true c w e = cc
  reopen_upstream_unless-some false c w e = connect_upstream-some c (dial_parent g c w) e

  -- One call added the envelope to what was sent just if it returned no error, and the error is
  -- not the panic.
  abbrev IsExact : Envelope → List Envelope → Client g × g.World × Option Error → Type 0
  IsExact env before r = (g.sent r.1 ≡ before ++ if_sent r.2 env) × (r.2 ≢ some nil_stream)

  settle-IsExact :
      (env : Envelope) (before : List Envelope) (c : Client g) (r : Bool × g.World)
      → g.sent r.1 ≡ (if r.0 then before ++ env ∷ [] else before)
      → IsExact env before (settle g c r)
  unfolding settle send_error
  settle-IsExact env before c (true, w) e = (e, λ p. cc)
  settle-IsExact env before c (false, w) e =
      (reopen_upstream-sent c w ∙ e ∙ sym (append-nil before), other (reopen_upstream g c w).2)
    where
      other : (r : Option Error) → ◌≢◌ {A = Option Error} (some (send_error r)) (some nil_stream)
      other none p = cc
      other (some x) p = cc

  send_on-IsExact :
      (stream : Option g.UpStream) (env : Envelope) (c : Client g) (w : g.World)
      → stream ≢ none
      → IsExact env (g.sent w) (send_on g stream env c w)
  unfolding send_on
  send_on-IsExact none env c w live = absurd (live refl)
  send_on-IsExact (some stream) env c w live =
      settle-IsExact env (g.sent w) c (g.send stream env w) (g.sent-send stream env w)

  reopened-IsExact :
      (env : Envelope) (before : List Envelope) (r : Client g × g.World × Option Error)
      → g.sent r.1 ≡ before
      → (r.2 ≡ none → r.0.upstream_stream ≢ none)
      → IsExact env before (reopened g env r)
  unfolding reopened
  reopened-IsExact env before (c, w, some x) e live = (e ∙ sym (append-nil before), λ p. cc)
  reopened-IsExact env before (c, w, none) e live =
      subst (λ b. IsExact env b (send_on g c.upstream_stream env c w)) e
        (send_on-IsExact c.upstream_stream env c w (live refl))

  send_stream-IsExact :
      (env : Envelope) (c : Client g) (w : g.World) → IsExact env (g.sent w) (send_stream g env c w)
  unfolding send_stream reopen_upstream
  send_stream-IsExact env c w = elim (Option-cases c.upstream_stream) [
    | inl missing ↦
        simp (missing, send_stream)
          (reopened-IsExact env (g.sent w) (reopen_upstream g c w) (reopen_upstream-sent c w)
            (reopen_upstream_unless-some c.closed c w))
    | inr (stream, live) ↦
        simp (live, send_stream) (send_on-IsExact (some stream) env c w (λ p. cc))
  ]

  count_send-IsExact :
      (env : Envelope) (before : List Envelope) (r : Client g × g.World × Option Error)
      → IsExact env before r
      → IsExact env before (count_send g r)
  unfolding count_send
  count_send-IsExact env before (c, w, some x) h = h
  count_send-IsExact env before (c, w, none) h = h

-- One call of `SendUpstream`, whatever the network does: the envelope is handed to gRPC exactly
-- once if the call returns nil, and not at all if it returns an error; no other envelope is handed
-- over; and `Send` is never called on a nil stream.
pub send_upstream_exact :
    (g : Grpc) (env : Envelope) (c : Client g) (w : g.World)
    → let (c', w', e) = send_upstream g env c w in
      (g.sent w' ≡ g.sent w ++ if_sent e env) × (e ≢ some nil_stream)
unfolding send_upstream
send_upstream_exact g env c w =
    count_send-IsExact g env (g.sent w) (send_stream g env c w) (send_stream-IsExact g env c w)

sent_well :
    (g : Grpc) (r : Bool × g.World) (c : Client g)
    → r.0 ≡ true
    → let (c', w', e) = count_send g (settle g c r) in
      (e ≡ none) × (w' ≡ r.1) × (c'.upstream_stream ≡ c.upstream_stream)
unfolding settle count_send
sent_well g (true, w) c e = (refl, refl, refl)
sent_well g (false, w) c e = cc

-- A client with a stream on which `Send` succeeds sends without an error, keeps that stream, and
-- changes the network as `Send` does.
pub send_upstream-send :
    (g : Grpc) (env : Envelope) (c : Client g) (w : g.World) (stream : g.UpStream)
    → c.upstream_stream ≡ some stream
    → (g.send stream env w).0 ≡ true
    → let (c', w', e) = send_upstream g env c w in
      (e ≡ none) × (w' ≡ (g.send stream env w).1) × (c'.upstream_stream ≡ c.upstream_stream)
unfolding send_upstream send_on
send_upstream-send g env c w stream live goes =
    let same : send_stream g env c w ≡ send_on g (some stream) env c w =
      simp (live, send_stream) refl in
    subst
      (λ r.
        let (c', w', e) = count_send g r in
        (e ≡ none) × (w' ≡ (g.send stream env w).1) × (c'.upstream_stream ≡ c.upstream_stream))
      (sym same) (sent_well g (g.send stream env w) c goes)
