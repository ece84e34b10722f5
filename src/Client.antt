-- ===== src/Client.antt =====
-- transport/client.go: the side of a node that connects to a parent. Each method is given here as
-- it runs by itself; `baseCtx` and the log are left out.
pub mod Sending
pub mod Streams
pub mod Races
mod Tests
use multi_region.Prelude.{
  ℕ, ◌+◌, Bool, true, false, not, ◌&&◌, Option, none, some, List, [], ◌∷◌, ◌++◌, Bytes, str,
  if◌then◌else◌,
}
use multi_region.Envelope.{Envelope}
use multi_region.Metrics.{ClientMetrics, no_client_metrics}
use multi_region.Grpc.{Grpc}

-- The errors of this file. `nil_stream` stands for the panic of a call on a nil stream.
pub data Error : Type 0 where
  client_closed : Error
  resolve_failed : Error
  tls_failed : Error
  dial_failed : Error
  open_failed : Error
  not_connected : Error → Error
  send_failed : Error
  reopen_failed : Error → Error
  nil_stream : Error

-- The error of a failed `Send`, by what reopening the stream then gave.
send_error : Option Error → Error
send_error none = send_failed
send_error (some e) = reopen_failed e

pub data Dialled (C : Type 0) : Type 0 where
  conn : C → Dialled C
  failed : Error → Dialled C

-- `has_dialer` tells whether a test has set `dialer`.
pub record Client (g : Grpc) : Type 0 where
  pub node_id : Bytes
  pub resolver : g.World → Option Bytes
  pub authn : Option (g.World → Option g.Tls)
  pub has_dialer : Bool
  pub closed : Bool
  pub upstream_conn : Option g.Conn
  pub upstream_stream : Option g.UpStream
  pub downstream_conn : Option g.Conn
  pub downstream_stream : Option g.DownStream
  pub downstream_cancel : Option g.Cancel
  pub metrics : ClientMetrics

module _ (g : Grpc) where
  open g use {World, Tls, Conn, UpStream, DownStream, Cancel}

  unfoldable pub new_client :
      Bytes → (World → Option Bytes) → Option (World → Option Tls) → Client g
  new_client node_id resolver authn = record {
    node_id = node_id;
    resolver = resolver;
    authn = authn;
    has_dialer = false;
    closed = false;
    upstream_conn = none;
    upstream_stream = none;
    downstream_conn = none;
    downstream_stream = none;
    downstream_cancel = none;
    metrics = no_client_metrics;
  }

  target : Client g → Bytes → Bytes
  target c addr = if c.has_dialer then str "passthrough:///" ++ addr else addr

  dialled : Option Conn × World → Dialled Conn × World
  dialled (none, w) = (failed dial_failed, w)
  dialled (some k, w) = (conn k, w)

  dial_with : Client g → Bytes → World → Dialled Conn × World
  unfolding target dialled
  dial_with c addr w = elim c.authn [
    | none ↦ dialled (g.new_client (target c addr) none w)
    | some config ↦ elim (config w) [
      | none ↦ (failed tls_failed, w)
      | some t ↦ dialled (g.new_client (target c addr) (some t) w)
    ]
  ]

  dial_parent : Client g → World → Dialled Conn × World
  unfolding dial_with
  dial_parent c w = elim (c.resolver w) [
    | none ↦ (failed resolve_failed, w)
    | some addr ↦ dial_with c addr w
  ]

  -- `Close` of a connection that may be nil, its error ignored.
  pub close_old : Option Conn → World → World
  close_old none w = w
  close_old (some k) w = (g.close k w).1

  opened_upstream : Client g → Conn → Option UpStream × World → Client g × World × Option Error
  unfolding close_old
  opened_upstream c k (none, w) = (c, close_old (some k) w, some open_failed)
  opened_upstream c k (some stream, w) = (
    record c { upstream_conn = some k; upstream_stream = some stream },
    close_old c.upstream_conn w,
    none,
  )

  connect_upstream : Client g → Dialled Conn × World → Client g × World × Option Error
  unfolding opened_upstream
  connect_upstream c (failed e, w) = (c, w, some e)
  connect_upstream c (conn k, w) = opened_upstream c k (g.open_upstream k c.node_id w)

  -- The first argument is `closed`.
  reopen_upstream_unless : Bool → Client g → World → Client g × World × Option Error
  unfolding connect_upstream dial_parent
  reopen_upstream_unless true c w = (c, w, some client_closed)
  reopen_upstream_unless false c w = connect_upstream c (dial_parent c w)

  unfoldable pub reopen_upstream : Client g → World → Client g × World × Option Error
  unfolding reopen_upstream_unless
  reopen_upstream c w = reopen_upstream_unless c.closed c w

  cancel_old : Option Cancel → World → World
  cancel_old none w = w
  cancel_old (some f) w = g.cancel f w

  opened_downstream :
      Client g → Conn → Cancel → Option DownStream × World → Client g × World × Option Error
  unfolding close_old
  opened_downstream c k f (none, w) = (c, close_old (some k) (g.cancel f w), some open_failed)
  opened_downstream c k f (some stream, w) = (
    record c {
      downstream_conn = some k;
      downstream_stream = some stream;
      downstream_cancel = some f;
    },
    close_old c.downstream_conn w,
    none,
  )

  connect_downstream : Client g → Dialled Conn × World → Client g × World × Option Error
  unfolding opened_downstream
  connect_downstream c (failed e, w) = (c, w, some e)
  connect_downstream c (conn k, w) =
      let (f, w') = g.with_cancel w in opened_downstream c k f (g.open_downstream k c.node_id f w')

  reopen_downstream_unless : Bool → Client g → World → Client g × World × Option Error
  unfolding connect_downstream dial_parent cancel_old
  reopen_downstream_unless true c w = (c, w, some client_closed)
  reopen_downstream_unless false c w =
      connect_downstream c (dial_parent c (cancel_old c.downstream_cancel w))

  unfoldable pub reopen_downstream : Client g → World → Client g × World × Option Error
  unfolding reopen_downstream_unless
  reopen_downstream c w = reopen_downstream_unless c.closed c w

  -- `Connect` returns nil whatever happens; its loop is `reconnect_tick`.
  unfoldable pub connect : Client g → World → Client g × World
  unfolding reopen_upstream reopen_downstream
  connect c w =
      let (c', w', e) = reopen_upstream c w in
      let (c'', w'', e') = reopen_downstream c' w' in (c'', w'')

  is_nil {ℓ} : {A : Type ℓ} → Option A → Bool
  is_nil none = true
  is_nil (some a) = false

  reopen_if :
      Bool
      → (Client g → World → Client g × World × Option Error)
      → Client g
      → World
      → Client g × World
  reopen_if false reopen c w = (c, w)
  reopen_if true reopen c w = let (c', w', e) = reopen c w in (c', w')

  reconnect_unless : Bool → Client g → World → Client g × World
  unfolding is_nil reopen_if reopen_upstream reopen_downstream
  reconnect_unless true c w = (c, w)
  reconnect_unless false c w =
      let (c', w') = reopen_if (is_nil c.upstream_stream) reopen_upstream c w in
      reopen_if (is_nil c.downstream_stream) reopen_downstream c' w'

  -- One tick of `reconnectLoop`. The two needs are read before either side is reopened.
  unfoldable pub reconnect_tick : Client g → World → Client g × World
  unfolding reconnect_unless
  reconnect_tick c w = reconnect_unless c.closed c w

  -- What one `Recv` of `recvLoop` does; the envelope, if any, goes to the downstream handler.
  unfoldable pub received : DownStream → Option Envelope → Client g → Client g × Option Envelope
  received stream (some env) c =
      (record c { metrics = record m { received = m.received + 1 } }, some env)
    where
      m : ClientMetrics
      m = c.metrics
  received stream none c = elim c.downstream_stream [
    | none ↦ (c, none)
    | some live ↦
        if g.same_stream live stream
        then (record c { downstream_stream = none }, none)
        else (c, none)
  ]

  -- What follows the answer of `Send`.
  settle : Client g → Bool × World → Client g × World × Option Error
  unfolding reopen_upstream send_error
  settle c (true, w) = (c, w, none)
  settle c (false, w) = let (c', w', e) = reopen_upstream c w in (c', w', some (send_error e))

  -- The second half of `sendUpstream`: the call of `Send`, and a fresh stream if it fails.
  send_on : Option UpStream → Envelope → Client g → World → Client g × World × Option Error
  unfolding settle
  send_on none env c w = (c, w, some nil_stream)
  send_on (some stream) env c w = settle c (g.send stream env w)

  reopened : Envelope → Client g × World × Option Error → Client g × World × Option Error
  unfolding send_on
  reopened env (c, w, some e) = (c, w, some (not_connected e))
  reopened env (c, w, none) = send_on c.upstream_stream env c w

  unfoldable pub send_stream : Envelope → Client g → World → Client g × World × Option Error
  unfolding reopened
  send_stream env c w = elim c.upstream_stream [
    | none ↦ reopened env (reopen_upstream c w)
    | some stream ↦ send_on (some stream) env c w
  ]

  count_send : Client g × World × Option Error → Client g × World × Option Error
  count_send (c, w, some e) =
      (record c { metrics = record m { failures = m.failures + 1 } }, w, some e)
    where
      m : ClientMetrics
      m = c.metrics
  count_send (c, w, none) =
      (record c { metrics = record m { sent = m.sent + 1; successes = m.successes + 1 } }, w, none)
    where
      m : ClientMetrics
      m = c.metrics

  unfoldable pub send_upstream : Envelope → Client g → World → Client g × World × Option Error
  unfolding send_stream count_send
  send_upstream env c w = count_send (send_stream env c w)

  unfoldable pub is_connected : Client g → Bool
  unfolding is_nil
  is_connected c =
      not c.closed && (not (is_nil c.upstream_stream) && not (is_nil c.downstream_stream))

  close_one : Option Conn → World → Bool × World
  close_one none w = (true, w)
  close_one (some k) w = g.close k w

  -- `Close` returns whether both connections closed without an error.
  unfoldable pub close_client : Client g → World → Client g × World × Bool
  unfolding cancel_old close_one
  close_client c w =
      let w' = cancel_old c.downstream_cancel w in
      let (up, w'') = close_one c.upstream_conn w' in
      let (down, w''') = close_one c.downstream_conn w'' in
      (record c { closed = true }, w''', up && down)
