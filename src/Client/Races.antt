-- ===== src/Client/Races.antt =====
-- transport/client.go: `reopenUpstream`, `reopenDownstream`, `recvLoop` and `Close` in goroutines of
-- their own. A step runs from one unlocking of `mu` to the next, or what a call does without `mu`.
pub mod Logged
pub mod Segments
pub mod Account
pub mod Leak
use multi_region.Prelude.{
  Bool, true, false, Option, none, some, List, [], ◌∷◌, ◌++◌, get_elem?, remove_at, set, ℕ,
}
use multi_region.Envelope.{Envelope}
use multi_region.Grpc.{Grpc}
use multi_region.Client.{
  Client, Error, open_failed, Dialled, conn, failed, dial_parent, close_old, cancel_old, received,
  close_client,
}

-- How far a call of `reopenUpstream` is: past the test of `closed`, or with an open stream that it
-- has still to put into the client.
pub data UpTask (g : Grpc) : Type 0 where
  checked : UpTask g
  opened : g.Conn → g.UpStream → UpTask g

-- The same of `reopenDownstream`, which reads `downstreamCancel` together with `closed`.
pub data DownTask (g : Grpc) : Type 0 where
  checked : Option g.Cancel → DownTask g
  opened : g.Conn → g.Cancel → g.DownStream → DownTask g

pub record System (g : Grpc) : Type 0 where
  pub client : Client g
  pub world : g.World
  pub ups : List (UpTask g)
  pub downs : List (DownTask g)

pub data Event (g : Grpc) : Type 0 where
  -- Someone calls `reopenUpstream` or `reopenDownstream`: the reconnect loop, a send, or Connect.
  starts_up : Event g
  starts_down : Event g
  -- The i-th running call dials and opens its stream, or gives up.
  opens_up : ℕ → Event g
  opens_down : ℕ → Event g
  -- The i-th running call puts its stream into the client.
  installs_up : ℕ → Event g
  installs_down : ℕ → Event g
  receives : g.DownStream → Option Envelope → Event g
  closes : Event g

module _ (g : Grpc) where
  open g use {World, Conn, UpStream, DownStream, Cancel}

  -- `none` in place of a task means that the call has returned an error.
  stream_up : Conn → Option UpStream × World → Option (UpTask g) × World
  unfolding close_old
  stream_up k (none, w) = (none, close_old g (some k) w)
  stream_up k (some stream, w) = (some (UpTask.opened k stream), w)

  dialled_up : Client g → Dialled Conn × World → Option (UpTask g) × World
  unfolding stream_up
  dialled_up c (failed e, w) = (none, w)
  dialled_up c (conn k, w) = stream_up k (g.open_upstream k c.node_id w)

  open_up : Client g → World → Option (UpTask g) × World
  unfolding dialled_up dial_parent
  open_up c w = dialled_up c (dial_parent g c w)

  install_up : Conn → UpStream → System g → System g
  unfolding close_old
  install_up k stream s = record s {
    client = record c { upstream_conn = some k; upstream_stream = some stream };
    world = close_old g c.upstream_conn s.world;
  }
    where
      c : Client g
      c = s.client

  stream_down : Conn → Cancel → Option DownStream × World → Option (DownTask g) × World
  unfolding close_old
  stream_down k f (none, w) = (none, close_old g (some k) (g.cancel f w))
  stream_down k f (some stream, w) = (some (DownTask.opened k f stream), w)

  dialled_down : Client g → Dialled Conn × World → Option (DownTask g) × World
  unfolding stream_down
  dialled_down c (failed e, w) = (none, w)
  dialled_down c (conn k, w) =
      let (f, w') = g.with_cancel w in stream_down k f (g.open_downstream k c.node_id f w')

  open_down : Option Cancel → Client g → World → Option (DownTask g) × World
  unfolding dialled_down dial_parent cancel_old
  open_down old c w = dialled_down c (dial_parent g c (cancel_old g old w))

  install_down : Conn → Cancel → DownStream → System g → System g
  unfolding close_old
  install_down k f stream s = record s {
    client = record c {
      downstream_conn = some k;
      downstream_stream = some stream;
      downstream_cancel = some f;
    };
    world = close_old g c.downstream_conn s.world;
  }
    where
      c : Client g
      c = s.client

  start_up : Bool → System g → System g
  start_up true s = s
  start_up false s = record s { ups = s.ups ++ UpTask.checked ∷ [] }

  start_down : Bool → System g → System g
  start_down true s = s
  start_down false s = record s { downs = s.downs ++ DownTask.checked c.downstream_cancel ∷ [] }
    where
      c : Client g
      c = s.client

  -- The call that was the i-th goes on as this task, or has returned.
  put_up : ℕ → System g → Option (UpTask g) × World → System g
  put_up i s (none, w) = record s { ups = remove_at s.ups i; world = w }
  put_up i s (some t, w) = record s { ups = set s.ups i t; world = w }

  put_down : ℕ → System g → Option (DownTask g) × World → System g
  put_down i s (none, w) = record s { downs = remove_at s.downs i; world = w }
  put_down i s (some t, w) = record s { downs = set s.downs i t; world = w }

  open_up_at : ℕ → Option (UpTask g) → System g → System g
  unfolding put_up open_up
  open_up_at i none s = s
  open_up_at i (some UpTask.checked) s = put_up i s (open_up s.client s.world)
  open_up_at i (some (UpTask.opened k stream)) s = s

  open_down_at : ℕ → Option (DownTask g) → System g → System g
  unfolding put_down open_down
  open_down_at i none s = s
  open_down_at i (some (DownTask.checked old)) s = put_down i s (open_down old s.client s.world)
  open_down_at i (some (DownTask.opened k f stream)) s = s

  install_up_at : ℕ → Option (UpTask g) → System g → System g
  unfolding install_up
  install_up_at i none s = s
  install_up_at i (some UpTask.checked) s = s
  install_up_at i (some (UpTask.opened k stream)) s =
      install_up k stream (record s { ups = remove_at s.ups i })

  install_down_at : ℕ → Option (DownTask g) → System g → System g
  unfolding install_down
  install_down_at i none s = s
  install_down_at i (some (DownTask.checked old)) s = s
  install_down_at i (some (DownTask.opened k f stream)) s =
      install_down k f stream (record s { downs = remove_at s.downs i })

  pub close_in : System g → System g
  close_in s =
      let (c, w, ok) = close_client g s.client s.world in record s { client = c; world = w }

  unfoldable pub step : System g → Event g → System g
  unfolding start_up start_down open_up_at open_down_at install_up_at install_down_at close_in
  step s starts_up = start_up (s.client.closed) s
  step s starts_down = start_down (s.client.closed) s
  step s (opens_up i) = open_up_at i (get_elem? s.ups i) s
  step s (opens_down i) = open_down_at i (get_elem? s.downs i) s
  step s (installs_up i) = install_up_at i (get_elem? s.ups i) s
  step s (installs_down i) = install_down_at i (get_elem? s.downs i) s
  step s (receives stream answer) = record s { client = (received g stream answer s.client).0 }
  step s closes = close_in s

  unfoldable pub run : System g → List (Event g) → System g
  run s [] = s
  run s (e ∷ es) = run (step s e) es
