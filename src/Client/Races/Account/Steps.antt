-- ===== src/Client/Races/Account/Steps.antt =====
-- transport/client.go: each step of the client's goroutines keeps account of the connections.
use multi_region.Prelude.{
  ℕ, ◌+◌, ◌≡◌, refl, ap, ◌∙◌, Bool, true, false, Option, none, some, List, [], ◌∷◌, get_elem?,
  total, total-append, total-remove_at, total-set, arith,
}
use multi_region.Envelope.{Envelope}
use multi_region.Grpc.{Grpc}
use multi_region.Client.{Client, cancel_old, received, close_client, close_one}
use multi_region.Client.Races.{
  UpTask, DownTask, System, Event, starts_up, starts_down, opens_up, opens_down, installs_up,
  installs_down, receives, closes, open_up, open_down, start_up, start_down, put_up, put_down,
  open_up_at, open_down_at, install_up_at, install_down_at, close_in, step, run,
}
use multi_region.Client.Races.Logged.{Logged, logged}
use multi_region.Client.Races.Account.{
  of_conn, of_up, of_down, of_up?, of_down?, Gains, IsAccounted, close_old-Gains, open_up-Gains,
  cancel_old-logs, open_down-Gains,
}

module _ (g : Grpc) (w : g.Conn → ℕ) where
  start_up-IsAccounted :
      (b : Bool) (s : System (logged g))
      → IsAccounted g w s
      → IsAccounted g w (start_up (logged g) b s)
  unfolding start_up
  start_up-IsAccounted true s h = h
  start_up-IsAccounted false s h =
      omega (arith, total-append (of_up g w) s.ups (UpTask.checked ∷ []))

  start_down-IsAccounted :
      (b : Bool) (s : System (logged g))
      → IsAccounted g w s
      → IsAccounted g w (start_down (logged g) b s)
  unfolding start_down
  start_down-IsAccounted true s h = h
  start_down-IsAccounted false s h =
      omega (
        arith,
        total-append (of_down g w) s.downs (DownTask.checked s.client.downstream_cancel ∷ []),
      )

  open_up_at-IsAccounted :
      (i : ℕ) (o : Option (UpTask (logged g))) (s : System (logged g))
      → get_elem? s.ups i ≡ o
      → IsAccounted g w s
      → IsAccounted g w (open_up_at (logged g) i o s)
  unfolding open_up_at
  open_up_at-IsAccounted i none s e h = h
  open_up_at-IsAccounted i (some (UpTask.opened k stream)) s e h = h
  open_up_at-IsAccounted i (some UpTask.checked) s e h =
      go (open_up (logged g) s.client s.world) (open_up-Gains g w s.client s.world)
    where
      go :
          (r : Option (UpTask (logged g)) × Logged g.World g.Conn)
          → Gains g w s.world r.1 (of_up? g w r.0)
          → IsAccounted g w (put_up (logged g) i s r)
      go (none, v) n = omega (arith, total-remove_at (of_up g w) s.ups i UpTask.checked e)
      go (some t, v) n = omega (arith, total-set (of_up g w) s.ups i UpTask.checked t e)

  open_down_at-IsAccounted :
      (i : ℕ) (o : Option (DownTask (logged g))) (s : System (logged g))
      → get_elem? s.downs i ≡ o
      → IsAccounted g w s
      → IsAccounted g w (open_down_at (logged g) i o s)
  unfolding open_down_at
  open_down_at-IsAccounted i none s e h = h
  open_down_at-IsAccounted i (some (DownTask.opened k f stream)) s e h = h
  open_down_at-IsAccounted i (some (DownTask.checked old)) s e h =
      go (open_down (logged g) old s.client s.world) (open_down-Gains g w old s.client s.world)
    where
      go :
          (r : Option (DownTask (logged g)) × Logged g.World g.Conn)
          → Gains g w s.world r.1 (of_down? g w r.0)
          → IsAccounted g w (put_down (logged g) i s r)
      go (none, v) n =
          omega (arith, total-remove_at (of_down g w) s.downs i (DownTask.checked old) e)
      go (some t, v) n = omega (arith, total-set (of_down g w) s.downs i (DownTask.checked old) t e)

  install_up_at-IsAccounted :
      (i : ℕ) (o : Option (UpTask (logged g))) (s : System (logged g))
      → get_elem? s.ups i ≡ o
      → IsAccounted g w s
      → IsAccounted g w (install_up_at (logged g) i o s)
  unfolding install_up_at
  install_up_at-IsAccounted i none s e h = h
  install_up_at-IsAccounted i (some UpTask.checked) s e h = h
  install_up_at-IsAccounted i (some (UpTask.opened k stream)) s e h =
      let closing = close_old-Gains g w s.client.upstream_conn s.world in
      omega (
        arith,
        total-remove_at (of_up g w) s.ups i (UpTask.opened k stream) e,
        ap (total w) closing.0,
        closing.1,
      )

  install_down_at-IsAccounted :
      (i : ℕ) (o : Option (DownTask (logged g))) (s : System (logged g))
      → get_elem? s.downs i ≡ o
      → IsAccounted g w s
      → IsAccounted g w (install_down_at (logged g) i o s)
  unfolding install_down_at
  install_down_at-IsAccounted i none s e h = h
  install_down_at-IsAccounted i (some (DownTask.checked old)) s e h = h
  install_down_at-IsAccounted i (some (DownTask.opened k f stream)) s e h =
      let closing = close_old-Gains g w s.client.downstream_conn s.world in
      omega (
        arith,
        total-remove_at (of_down g w) s.downs i (DownTask.opened k f stream) e,
        ap (total w) closing.0,
        closing.1,
      )

  pub received-conns :
      (stream : g.DownStream) (answer : Option Envelope) (c : Client (logged g))
      → let c' = (received (logged g) stream answer c).0 in
        (c'.upstream_conn ≡ c.upstream_conn)
        × (c'.downstream_conn ≡ c.downstream_conn)
        × (c'.closed ≡ c.closed)
  unfolding received
  received-conns stream (some env) c = (refl, refl, refl)
  received-conns stream none c = ground arith

  close_one-logs :
      (k : Option g.Conn) (l : Logged g.World g.Conn)
      → let l' = (close_one (logged g) k l).1 in
        (l'.dialled ≡ l.dialled) × (total w l'.closed ≡ total w l.closed + of_conn g w k)
  unfolding close_one
  close_one-logs none l = (refl, omega arith)
  close_one-logs (some k) l = (refl, omega (arith, total-append w l.closed (k ∷ [])))

  -- Close closes the client's connections, and hands on those that it had closed before.
  pub close_in-world :
      (s : System (logged g))
      → let t = close_in (logged g) s in
        (t.world.dialled ≡ s.world.dialled)
        × (total w t.world.closed
            ≡ total w s.world.closed
              + of_conn g w s.client.upstream_conn
              + of_conn g w s.client.downstream_conn)
        × (t.ups ≡ s.ups)
        × (t.downs ≡ s.downs)
        × (t.client ≡ record s.client { closed = true })
  unfolding close_in close_client cancel_old
  close_in-world s =
      let c : Client (logged g) = s.client in
      let l = cancel_old (logged g) c.downstream_cancel s.world in
      let l' = (close_one (logged g) c.upstream_conn l).1 in
      let start = cancel_old-logs g w c.downstream_cancel s.world in
      let up = close_one-logs c.upstream_conn l in
      let down = close_one-logs c.downstream_conn l' in
      (down.0 ∙ up.0 ∙ start.0, omega (arith, down.1, up.1, ap (total w) start.1), refl, refl, refl)

  pub step-IsAccounted :
      (s : System (logged g)) (e : Event (logged g))
      → IsAccounted g w s
      → IsAccounted g w (step (logged g) s e)
  unfolding step
  step-IsAccounted s starts_up h = start_up-IsAccounted s.client.closed s h
  step-IsAccounted s starts_down h = start_down-IsAccounted s.client.closed s h
  step-IsAccounted s (opens_up i) h = open_up_at-IsAccounted i (get_elem? s.ups i) s refl h
  step-IsAccounted s (opens_down i) h = open_down_at-IsAccounted i (get_elem? s.downs i) s refl h
  step-IsAccounted s (installs_up i) h = install_up_at-IsAccounted i (get_elem? s.ups i) s refl h
  step-IsAccounted s (installs_down i) h =
      install_down_at-IsAccounted i (get_elem? s.downs i) s refl h
  step-IsAccounted s (receives stream answer) h =
      let same = received-conns stream answer s.client in
      omega (arith, ap (of_conn g w) same.0, ap (of_conn g w) same.1)
  step-IsAccounted s closes h =
      let t = close_in (logged g) s in
      let law = close_in-world s in
      omega (
        arith,
        ap (total w) law.0,
        law.1,
        ap (total (of_up g w)) law.2,
        ap (total (of_down g w)) law.3,
        ap (λ c. of_conn g w c.upstream_conn) law.4,
        ap (λ c. of_conn g w c.downstream_conn) law.4,
      )

  pub run-IsAccounted :
      (es : List (Event (logged g))) (s : System (logged g))
      → IsAccounted g w s
      → IsAccounted g w (run (logged g) s es)
  unfolding run
  run-IsAccounted [] s h = h
  run-IsAccounted (e ∷ es) s h = run-IsAccounted es (step (logged g) s e) (step-IsAccounted s e h)
