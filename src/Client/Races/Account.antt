-- ===== src/Client/Races/Account.antt =====
-- transport/client.go: where each connection is, over any interleaving of the client's goroutines.
pub mod Steps
use multi_region.Prelude.{
  ℕ, ◌+◌, ◌≤◌, ◌≡◌, refl, ap, ◌∙◌, Bool, true, false, Option, none, some, List, [], ◌∷◌, Bytes,
  get_elem?, total, total-append, total-remove_at, total-set, arith,
}
use multi_region.Envelope.{Envelope}
use multi_region.Grpc.{Grpc}
use multi_region.Client.{
  Client, Dialled, conn, failed, tls_failed, resolve_failed, dialled, dial_with, target,
  dial_parent, close_old, cancel_old, received, close_client, close_one,
}
use multi_region.Client.Races.{
  UpTask, DownTask, System, Event, starts_up, starts_down, opens_up, opens_down, installs_up,
  installs_down, receives, closes, stream_up, dialled_up, open_up, stream_down, dialled_down,
  open_down, start_up, start_down, put_up, put_down, open_up_at, open_down_at, install_up_at,
  install_down_at, close_in, step, run,
}
use multi_region.Client.Races.Logged.{Logged, log_dial, logged}

module _ (g : Grpc) (w : g.Conn → ℕ) where
  abbrev pub of_conn : Option g.Conn → ℕ
  of_conn none = 0
  of_conn (some k) = w k

  abbrev pub of_up : UpTask (logged g) → ℕ
  of_up UpTask.checked = 0
  of_up (UpTask.opened k stream) = w k

  abbrev pub of_down : DownTask (logged g) → ℕ
  of_down (DownTask.checked old) = 0
  of_down (DownTask.opened k f stream) = w k

  abbrev of_up? : Option (UpTask (logged g)) → ℕ
  of_up? none = 0
  of_up? (some t) = of_up t

  abbrev of_down? : Option (DownTask (logged g)) → ℕ
  of_down? none = 0
  of_down? (some t) = of_down t

  -- The connections that the client and its running calls hold.
  abbrev pub held_conns : System (logged g) → ℕ
  held_conns s =
      of_conn s.client.upstream_conn
      + of_conn s.client.downstream_conn
      + total of_up s.ups
      + total of_down s.downs

  -- Going from one log to another makes so much more than it closes.
  abbrev Gains : Logged g.World g.Conn → Logged g.World g.Conn → ℕ → Type 0
  Gains l l' n = total w l'.dialled + total w l.closed ≡ total w l.dialled + total w l'.closed + n

  -- No connection that was made is lost: it has been closed, or someone holds it.
  abbrev pub IsAccounted : System (logged g) → Type 0
  IsAccounted s = total w s.world.dialled ≤ total w s.world.closed + held_conns s

  abbrev of_dialled : Dialled g.Conn → ℕ
  of_dialled (failed e) = 0
  of_dialled (conn k) = w k

  abbrev GainsBy : Logged g.World g.Conn → Dialled g.Conn × Logged g.World g.Conn → Type 0
  GainsBy l r = Gains l r.1 (of_dialled r.0)

  dialled-Gains :
      (l : Logged g.World g.Conn) (r : Option g.Conn × g.World)
      → let (k, l') = dialled (logged g) (log_dial l r) in Gains l l' (of_dialled k)
  unfolding dialled
  dialled-Gains l (none, v) = omega arith
  dialled-Gains l (some k, v) = omega (arith, total-append w l.dialled (k ∷ []))

  dial_parent-Gains :
      (c : Client (logged g)) (l : Logged g.World g.Conn)
      → let (k, l') = dial_parent (logged g) c l in Gains l l' (of_dialled k)
  unfolding dial_parent dial_with
  dial_parent-Gains c l = addr (c.resolver l)
    where
      tls :
          (a : Bytes) (o : Option g.Tls)
          → GainsBy l (elim o [
            | none ↦ (failed tls_failed, l)
            | some t ↦ dialled (logged g) ((logged g).new_client (target (logged g) c a) (some t) l)
          ])
      tls a none = omega arith
      tls a (some t) = dialled-Gains l (g.new_client (target (logged g) c a) (some t) l.network)

      authn :
          (a : Bytes) (o : Option (Logged g.World g.Conn → Option g.Tls))
          → GainsBy l (elim o [
            | none ↦ dialled (logged g) ((logged g).new_client (target (logged g) c a) none l)
            | some config ↦ elim (config l) [
              | none ↦ (failed tls_failed, l)
              | some t ↦
                  dialled (logged g) ((logged g).new_client (target (logged g) c a) (some t) l)
            ]
          ])
      authn a none = dialled-Gains l (g.new_client (target (logged g) c a) none l.network)
      authn a (some config) = tls a (config l)

      addr :
          (o : Option Bytes)
          → GainsBy l
              (elim o [ none ↦ (failed resolve_failed, l) | some a ↦ dial_with (logged g) c a l ])
      addr none = omega arith
      addr (some a) = authn a c.authn

  pub close_old-Gains :
      (k : Option g.Conn) (l : Logged g.World g.Conn)
      → let l' = close_old (logged g) k l in
        (l'.dialled ≡ l.dialled) × (total w l'.closed ≡ total w l.closed + of_conn k)
  unfolding close_old
  close_old-Gains none l = (refl, omega arith)
  close_old-Gains (some k) l = (refl, omega (arith, total-append w l.closed (k ∷ [])))

  stream_up-Gains :
      (k : g.Conn) (l : Logged g.World g.Conn) (r : Option g.UpStream × g.World)
      → let (t, l') = stream_up (logged g) k (r.0, record l { network = r.1 }) in
        total w l'.dialled + total w l.closed + w k
        ≡ total w l.dialled + total w l'.closed + of_up? t
  unfolding stream_up close_old
  stream_up-Gains k l (none, v) = omega (arith, total-append w l.closed (k ∷ []))
  stream_up-Gains k l (some stream, v) = omega arith

  open_up-Gains :
      (c : Client (logged g)) (l : Logged g.World g.Conn)
      → let (t, l') = open_up (logged g) c l in Gains l l' (of_up? t)
  unfolding open_up dialled_up
  open_up-Gains c l = go (dial_parent (logged g) c l) (dial_parent-Gains c l)
    where
      go :
          (r : Dialled g.Conn × Logged g.World g.Conn)
          → Gains l r.1 (of_dialled r.0)
          → let (t, l') = dialled_up (logged g) c r in Gains l l' (of_up? t)
      go (failed e, v) h = omega arith
      go (conn k, v) h = omega (arith, stream_up-Gains k v (g.open_upstream k c.node_id v.network))

  stream_down-Gains :
      (k : g.Conn) (f : g.Cancel) (l : Logged g.World g.Conn) (r : Option g.DownStream × g.World)
      → let (t, l') = stream_down (logged g) k f (r.0, record l { network = r.1 }) in
        total w l'.dialled + total w l.closed + w k
        ≡ total w l.dialled + total w l'.closed + of_down? t
  unfolding stream_down close_old
  stream_down-Gains k f l (none, v) = omega (arith, total-append w l.closed (k ∷ []))
  stream_down-Gains k f l (some stream, v) = omega arith

  cancel_old-logs :
      (f : Option g.Cancel) (l : Logged g.World g.Conn)
      → let l' = cancel_old (logged g) f l in (l'.dialled ≡ l.dialled) × (l'.closed ≡ l.closed)
  unfolding cancel_old
  cancel_old-logs none l = (refl, refl)
  cancel_old-logs (some f) l = (refl, refl)

  open_down-Gains :
      (f : Option g.Cancel) (c : Client (logged g)) (l : Logged g.World g.Conn)
      → let (t, l') = open_down (logged g) f c l in Gains l l' (of_down? t)
  unfolding open_down dialled_down
  open_down-Gains f c l = go (dial_parent (logged g) c (cancel_old (logged g) f l)) (
      omega (
        arith,
        dial_parent-Gains c (cancel_old (logged g) f l),
        ap (total w) (cancel_old-logs f l).0,
        ap (total w) (cancel_old-logs f l).1,
      ))
    where
      go :
          (r : Dialled g.Conn × Logged g.World g.Conn)
          → Gains l r.1 (of_dialled r.0)
          → let (t, l') = dialled_down (logged g) c r in Gains l l' (of_down? t)
      go (failed e, v) h = omega arith
      go (conn k, v) h =
          let (f', v') = g.with_cancel v.network in
          omega (
            arith,
            stream_down-Gains k f' (record v { network = v' })
                (g.open_downstream k c.node_id f' v'),
          )
