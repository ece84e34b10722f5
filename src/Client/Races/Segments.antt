-- ===== src/Client/Races/Segments.antt =====
-- transport/client.go: the steps of a call of `reopenUpstream` or `reopenDownstream`, run with no
-- other goroutine between them, are the call as Client.antt has it.
use multi_region.Prelude.{◌≡◌, refl, Bool, true, false, Option, none, some, [], ◌∷◌}
use multi_region.Grpc.{Grpc}
use multi_region.Client.{
  Client, Error, Dialled, conn, failed, dial_parent, cancel_old, opened_upstream, connect_upstream,
  reopen_upstream_unless, reopen_upstream, opened_downstream, connect_downstream,
  reopen_downstream_unless, reopen_downstream,
}
use multi_region.Client.Races.{
  UpTask, DownTask, System, starts_up, starts_down, opens_up, opens_down, installs_up,
  installs_down, stream_up, dialled_up, open_up, stream_down, dialled_down, open_down, start_up,
  start_down, put_up, put_down, install_up_at, install_down_at, step, run,
}

module _ (g : Grpc) where
  -- A system with no running call, by the answer of a method.
  abbrev pub quiet : Client g × g.World × Option Error → System g
  quiet (c, w, e) = record { client = c; world = w; ups = []; downs = [] }

  installed_up :
      (c : Client g) (v : g.World) (r : Dialled g.Conn × g.World)
      → let s : System g = record {
        client = c;
        world = v;
        ups = UpTask.checked ∷ [];
        downs = [];
      } in
        step g (put_up g 0 s (dialled_up g c r)) (installs_up 0) ≡ quiet (connect_upstream g c r)
  unfolding step put_up dialled_up stream_up connect_upstream opened_upstream install_up_at
  installed_up c v (failed e, w) = refl
  installed_up c v (conn k, w) = go (g.open_upstream k c.node_id w)
    where
      go :
          (r : Option g.UpStream × g.World)
          → let s : System g = record {
            client = c;
            world = v;
            ups = UpTask.checked ∷ [];
            downs = [];
          } in
            step g (put_up g 0 s (stream_up g k r)) (installs_up 0)
            ≡ quiet (opened_upstream g c k r)
      go (none, u) = refl
      go (some stream, u) = refl

  installed_down :
      (c : Client g) (old : Option g.Cancel) (v : g.World) (r : Dialled g.Conn × g.World)
      → let s : System g = record {
        client = c;
        world = v;
        ups = [];
        downs = DownTask.checked old ∷ [];
      } in
        step g (put_down g 0 s (dialled_down g c r)) (installs_down 0)
        ≡ quiet (connect_downstream g c r)
  unfolding step put_down dialled_down stream_down connect_downstream opened_downstream
      install_down_at
  installed_down c old v (failed e, w) = refl
  installed_down c old v (conn k, w) =
      go (g.open_downstream k c.node_id (g.with_cancel w).0 (g.with_cancel w).1)
    where
      go :
          (r : Option g.DownStream × g.World)
          → let s : System g = record {
            client = c;
            world = v;
            ups = [];
            downs = DownTask.checked old ∷ [];
          } in
            step g (put_down g 0 s (stream_down g k (g.with_cancel w).0 r)) (installs_down 0)
            ≡ quiet (opened_downstream g c k (g.with_cancel w).0 r)
      go (none, u) = refl
      go (some stream, u) = refl

  -- Whatever the network answers: a call of reopenUpstream that starts, dials and installs with
  -- nothing between leaves the client and the network as the whole method does, and no call
  -- running; the same for reopenDownstream.
  pub segments_reopen :
      (c : Client g) (w : g.World)
      → (run g (quiet (c, w, none)) (starts_up ∷ opens_up 0 ∷ installs_up 0 ∷ [])
          ≡ quiet (reopen_upstream g c w))
        × (run g (quiet (c, w, none)) (starts_down ∷ opens_down 0 ∷ installs_down 0 ∷ [])
            ≡ quiet (reopen_downstream g c w))
  unfolding run step start_up start_down open_up open_down reopen_upstream reopen_upstream_unless
      reopen_downstream reopen_downstream_unless
  segments_reopen c w = (up c.closed, down c.closed)
    where
      up :
          (b : Bool)
          → run g (start_up g b (quiet (c, w, none))) (opens_up 0 ∷ installs_up 0 ∷ [])
            ≡ quiet (reopen_upstream_unless g b c w)
      up true = refl
      up false = installed_up c w (dial_parent g c w)

      down :
          (b : Bool)
          → run g (start_down g b (quiet (c, w, none))) (opens_down 0 ∷ installs_down 0 ∷ [])
            ≡ quiet (reopen_downstream_unless g b c w)
      down true = refl
      down false =
          installed_down c c.downstream_cancel w
            (dial_parent g c (cancel_old g c.downstream_cancel w))
