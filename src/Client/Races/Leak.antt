-- ===== src/Client/Races/Leak.antt =====
-- transport/client.go: what Close does to the client's connections, with and without a call of
-- `reopenUpstream` that runs meanwhile.
use multi_region.Prelude.{
  ℕ, ◌+◌, ◌≤◌, ◌≡◌, refl, sym, ap, ◌∙◌, Bool, true, Option, some, List, [], ◌∷◌, total, arith,
  if◌then◌else◌, All, Bytes, subst, inl, inr, get_elem?, remove_at,
}
use mathlib.Core.List.{Memᴰ}
use mathlib.Core.List.Memᴰ
use multi_region.Grpc.{Grpc}
use multi_region.Client.{new_client}
use multi_region.Client.Races.{
  UpTask, System, Event, starts_up, starts_down, opens_up, opens_down, installs_up, installs_down,
  receives, closes, install_up, install_up_at, open_up_at, open_down_at, install_down_at, start_up,
  start_down, close_in, step, run,
}
use multi_region.Client.Races.Logged.{Logged, logged}
use multi_region.Client.Races.Account.Steps.{run-IsAccounted, close_in-world, received-conns}
use multi_region.Client.Races.Account.{of_conn, of_up, of_down, held_conns, close_old-Gains}

-- How many connections of a list pass a test.
abbrev pub passing : {C : Type 0} → (C → Bool) → List C → ℕ
passing p ks = total (λ k. if p k then 1 else 0) ks

passing-mem :
    {C : Type 0} (p : C → Bool) (k : C) (ks : List C) → p k ≡ true → Memᴰ k ks → 1 ≤ passing p ks
passing-mem p k [] e m = absurd (Memᴰ.not-nil m)
passing-mem p k (j ∷ ks) e m = elim (Memᴰ.cases_cons m) [
  | inl same ↦ let here : p j ≡ true = ap p (sym same) ∙ e in rw here (omega arith)
  | inr later ↦ omega (arith, passing-mem p k ks e later)
]

abbrev pub weigh : {C : Type 0} → (C → Bool) → C → ℕ
weigh p k = if p k then 1 else 0

module _ (g : Grpc) where
  -- A new client, before anything was dialled.
  abbrev pub fresh :
      Bytes
      → (Logged g.World g.Conn → Option Bytes)
      → Option (Logged g.World g.Conn → Option g.Tls)
      → g.World
      → System (logged g)
  unfolding new_client
  fresh id r authn w = record {
    client = new_client (logged g) id r authn;
    world = record { network = w; dialled = []; closed = [] };
    ups = [];
    downs = [];
  }

  -- Over any interleaving of a new client's goroutines, whatever the network answers: of the
  -- connections that were dialled, as many as were closed, or are the client's, or are in the hands
  -- of a running call, at least; so for every test of connections, and none is forgotten.
  pub conns_accounted :
      (id : Bytes) (r : Logged g.World g.Conn → Option Bytes)
      (authn : Option (Logged g.World g.Conn → Option g.Tls)) (w : g.World)
      (es : List (Event (logged g))) (p : g.Conn → Bool)
      → let s = run (logged g) (fresh id r authn w) es in
        passing p s.world.dialled ≤ passing p s.world.closed + held_conns g (weigh p) s
  unfolding new_client
  conns_accounted id r authn w es p =
      run-IsAccounted g (weigh p) es (fresh id r authn w) (omega arith)

  -- If Close comes when no reopenUpstream and no reopenDownstream is running, every connection that
  -- the client has dialled has been closed afterwards, and the client is closed.
  pub close_complete :
      (id : Bytes) (r : Logged g.World g.Conn → Option Bytes)
      (authn : Option (Logged g.World g.Conn → Option g.Tls)) (w : g.World)
      (es : List (Event (logged g))) (p : g.Conn → Bool)
      → (run (logged g) (fresh id r authn w) es).ups ≡ []
      → (run (logged g) (fresh id r authn w) es).downs ≡ []
      → let t = step (logged g) (run (logged g) (fresh id r authn w) es) closes in
        (passing p t.world.dialled ≤ passing p t.world.closed) × (t.client.closed ≡ true)
  unfolding step
  close_complete id r authn w es p u v =
      let s = run (logged g) (fresh id r authn w) es in
      let law = close_in-world g (weigh p) s in
      (
        omega (
          arith,
          conns_accounted id r authn w es p,
          law.1,
          ap (total (weigh p)) law.0,
          ap (total (of_up g (weigh p))) u,
          ap (total (of_down g (weigh p))) v,
        ),
        ap (λ c. c.closed) law.4,
      )

  -- An event other than Close.
  abbrev pub IsNotClose : Event (logged g) → Type 0
  IsNotClose starts_up = Unit {0}
  IsNotClose starts_down = Unit {0}
  IsNotClose (opens_up i) = Unit {0}
  IsNotClose (opens_down i) = Unit {0}
  IsNotClose (installs_up i) = Unit {0}
  IsNotClose (installs_down i) = Unit {0}
  IsNotClose (receives stream answer) = Unit {0}
  IsNotClose closes = ⊥

  record Leaks (p : g.Conn → Bool) (k : g.Conn) (s : System (logged g)) : Type 0 where
    shut : s.client.closed ≡ true
    kept : s.client.upstream_conn ≡ some k
    unclosed : passing p s.world.closed ≡ 0
    no_ups : s.ups ≡ []
    no_downs : s.downs ≡ []

  step-Leaks :
      (p : g.Conn → Bool) (k : g.Conn) (s : System (logged g)) (e : Event (logged g))
      → IsNotClose e
      → Leaks p k s
      → Leaks p k (step (logged g) s e)
  unfolding step start_up start_down open_up_at open_down_at install_up_at install_down_at
  step-Leaks p k s starts_up n h = simp h.shut h
  step-Leaks p k s starts_down n h = simp h.shut h
  step-Leaks p k s (opens_up i) n h = simp h.no_ups h
  step-Leaks p k s (opens_down i) n h = simp h.no_downs h
  step-Leaks p k s (installs_up i) n h = simp h.no_ups h
  step-Leaks p k s (installs_down i) n h = simp h.no_downs h
  step-Leaks p k s (receives stream answer) n h =
      let same = received-conns g (weigh p) stream answer s.client in
      record {
        shut = same.2 ∙ h.shut;
        kept = same.0 ∙ h.kept;
        unclosed = h.unclosed;
        no_ups = h.no_ups;
        no_downs = h.no_downs;
      }
  step-Leaks p k s closes n h = absurd n

  run-Leaks :
      (p : g.Conn → Bool) (k : g.Conn) (s : System (logged g)) (es : List (Event (logged g)))
      → All IsNotClose es
      → Leaks p k s
      → Leaks p k (run (logged g) s es)
  unfolding run
  run-Leaks p k s [] n h = h
  run-Leaks p k s (e ∷ es) n h =
      run-Leaks p k (step (logged g) s e) es n.1 (step-Leaks p k s e n.0 h)

  -- If Close comes while exactly one reopenUpstream runs, which holds a new connection, and no
  -- reopenDownstream, and neither what the client holds nor what has been closed passes a test that
  -- the new connection passes: the call then puts it into the closed client, and whatever other
  -- steps follow, short of a second Close, it is there and has not been closed.
  pub close_leaks :
      (p : g.Conn → Bool) (k : g.Conn) (stream : g.UpStream) (s : System (logged g))
      (es : List (Event (logged g)))
      → s.ups ≡ UpTask.opened k stream ∷ []
      → s.downs ≡ []
      → p k ≡ true
      → passing p s.world.closed
          + of_conn g (weigh p) s.client.upstream_conn
          + of_conn g (weigh p) s.client.downstream_conn
        ≡ 0
      → All IsNotClose es
      → let t = run (logged g) s (closes ∷ installs_up 0 ∷ es) in
        (t.client.closed ≡ true) × (t.client.upstream_conn ≡ some k) × ¬ (Memᴰ k t.world.closed)
  unfolding run step install_up_at install_up
  close_leaks p k stream s es u v hit none_closed n =
      let t = close_in (logged g) s in
      let law = close_in-world g (weigh p) s in
      let closing = close_old-Gains g (weigh p) t.client.upstream_conn t.world in
      let installed : System (logged g) =
        install_up_at (logged g) 0 (some (UpTask.opened k stream)) t in
      let moved : step (logged g) t (installs_up 0) ≡ installed =
        ap (λ us. install_up_at (logged g) 0 (get_elem? us 0) t) (law.2 ∙ u) in
      let leaks : Leaks p k installed = record {
        shut = ap (λ c. c.closed) law.4;
        kept = refl;
        unclosed =
            omega (arith, closing.1, law.1, ap (λ c. of_conn g (weigh p) c.upstream_conn) law.4);
        no_ups = ap (λ us. remove_at us 0) (law.2 ∙ u);
        no_downs = law.3 ∙ v;
      } in
      let last =
        run-Leaks p k (step (logged g) t (installs_up 0)) es n
          (subst (Leaks p k) (sym moved) leaks) in
      (last.shut, last.kept, λ m. absurd (omega (arith, passing-mem p k _ hit m, last.unclosed)))
