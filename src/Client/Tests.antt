-- ===== src/Client/Tests.antt =====
-- transport/client.go: a client on a wire that is up or down.
use multi_region.Prelude.{
  ℕ, ◌+◌, ◌≤◌, ◌==◌, true, Option, List, Bytes, ◌≡◌, refl, ◌≢◌, false, none, some, [], ◌∷◌, str,
  pos,
}
use multi_region.Envelope.{Envelope}
use multi_region.Grpc.Wire.{Wire, wire, up, down}
use multi_region.Metrics.{no_client_metrics}
use mathlib.Core.List.{Memᴰ}
use multi_region.Client.Races
use multi_region.Client.Races.{
  UpTask, System, starts_up, starts_down, opens_up, opens_down, installs_up, installs_down, closes,
}
use multi_region.Client.Races.Logged.{Logged, logged}
use multi_region.Client.Races.Account.{held_conns}
use multi_region.Client.Races.Leak
use multi_region.Client.Races.Leak.{passing, weigh, conns_accounted, close_complete, close_leaks}
use multi_region.Client.{
  Client, not_connected, dial_failed, nil_stream, new_client, connect, send_upstream, received,
  reconnect_tick, is_connected,
}
use multi_region.Client.Sending.{send_upstream_exact}
use multi_region.Client.Streams
use multi_region.Client.Streams.{ticks, receives, run, reconnect_skips_upstream, received_failure}

abbrev hello : Envelope
hello = record { id = str "leaf-1"; kind = str "log"; payload = str "hello"; timestamp = pos 7 }

abbrev fresh : Client wire
unfolding new_client
fresh = new_client wire (str "leaf") (λ w. some (str "parent:50051")) none

abbrev joined : Client wire
joined = record {
  node_id = str "leaf";
  resolver = λ w. some (str "parent:50051");
  authn = none;
  has_dialer = false;
  closed = false;
  metrics = no_client_metrics;
  upstream_conn = some 0;
  upstream_stream = some 0;
  downstream_conn = some 1;
  downstream_stream = some 1;
  downstream_cancel = some 0;
}

joins_wire : connect wire fresh up ≡ (joined, record up { next = 2 })
unfolding connect new_client
joins_wire = refl

send_down_fails : (send_upstream wire hello fresh down).2 ≡ some (not_connected dial_failed)
unfolding send_upstream new_client
send_down_fails = refl

send_upstream_exact_example :
    ((send_upstream wire hello joined up).1.log ≡ hello ∷ [])
    × ((send_upstream wire hello joined up).2 ≢ some nil_stream)
unfolding send_upstream
send_upstream_exact_example = send_upstream_exact wire hello joined up

reconnect_skips_upstream_example :
    let (c, w) = run wire (joined, down) (receives 1 none ∷ ticks ∷ Streams.closes ∷ []) in
    (c.upstream_stream ≢ none)
    × ((reconnect_tick wire c w).0.upstream_stream ≡ c.upstream_stream)
    × ((reconnect_tick wire c w).0.upstream_conn ≡ c.upstream_conn)
reconnect_skips_upstream_example =
    reconnect_skips_upstream wire joined down (receives 1 none ∷ ticks ∷ Streams.closes ∷ [])
      (λ p. cc)

received_failure_example :
    let (c, env) = received wire 1 none joined in
    (env ≡ none)
    × (joined.downstream_stream ≡ some 1
        → (c ≡ record joined { downstream_stream = none }) × (is_connected wire c ≡ false))
    × (joined.downstream_stream ≢ some 1 → c ≡ joined)
received_failure_example = received_failure wire joined 1

-- A client on a wire that is up, over the log of its connections.
abbrev to_parent : Logged Wire ℕ → Option Bytes
to_parent l = some (str "parent:50051")

abbrev newborn : System (logged wire)
unfolding new_client
newborn = Leak.fresh wire (str "leaf") to_parent none up

-- Upstream opens; a second call of reopenUpstream has its connection when Close comes.
abbrev overlap : List (Races.Event (logged wire))
overlap =
    starts_up
    ∷ opens_up 0
    ∷ installs_up 0
    ∷ starts_down
    ∷ opens_down 0
    ∷ starts_up
    ∷ opens_up 0
    ∷ installs_down 0
    ∷ closes
    ∷ installs_up 0
    ∷ []

conns_accounted_example :
    let s = Races.run (logged wire) newborn overlap in
    passing (λ k. true) s.world.dialled
    ≤ passing (λ k. true) s.world.closed + held_conns wire (weigh (λ k. true)) s
unfolding newborn
conns_accounted_example = conns_accounted wire (str "leaf") to_parent none up overlap (λ k. true)

abbrev settled : List (Races.Event (logged wire))
settled = starts_up ∷ opens_up 0 ∷ starts_down ∷ opens_down 0 ∷ installs_up 0 ∷ installs_down 0 ∷ []

close_complete_example :
    let t = Races.step (logged wire) (Races.run (logged wire) newborn settled) closes in
    (passing (λ k. true) t.world.dialled ≤ passing (λ k. true) t.world.closed)
    × (t.client.closed ≡ true)
unfolding newborn Races.run Races.step
close_complete_example =
    close_complete wire (str "leaf") to_parent none up settled (λ k. true) refl refl

-- The state in which Close comes: the connection 1 is in the hands of the second call.
abbrev torn : System (logged wire)
torn = record {
  client = record joined_log { upstream_conn = some 0; downstream_conn = none };
  world = record { network = record up { next = 2 }; dialled = 0 ∷ 1 ∷ []; closed = [] };
  ups = UpTask.opened 1 1 ∷ [];
  downs = [];
}
  where
    joined_log : Client (logged wire)
    joined_log = record {
      node_id = str "leaf";
      resolver = to_parent;
      authn = none;
      has_dialer = false;
      closed = false;
      metrics = no_client_metrics;
      upstream_conn = some 0;
      upstream_stream = some 0;
      downstream_conn = none;
      downstream_stream = none;
      downstream_cancel = none;
    }

close_leaks_example :
    let t = Races.run (logged wire) torn (closes ∷ installs_up 0 ∷ starts_up ∷ []) in
    (t.client.closed ≡ true) × (t.client.upstream_conn ≡ some 1) × ¬ (Memᴰ 1 t.world.closed)
close_leaks_example =
    close_leaks wire (λ k. k == 1) 1 1 torn (starts_up ∷ []) refl refl refl refl (tt, tt)
