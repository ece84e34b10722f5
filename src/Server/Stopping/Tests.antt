-- ===== src/Server/Stopping/Tests.antt =====
-- transport/server.go: Listen and Stop over a server that remembers two things.
use multi_region.Prelude.{◌≡◌, refl, Bool, true, false, not, ◌&&◌, List, [], ◌∷◌, ◌++◌}
use multi_region.Server.Stopping.{
  GrpcServer, ListenEvent, prepares, stores, serves, stops, listen_run, listen_step, prepare, store,
  call_serve, accepts, idle,
}
use multi_region.Server.Stopping.Late.{stop_too_early, stop_is_final}

-- Whether Serve was called, and whether Stop was.
abbrev toy : GrpcServer
toy = record {
  Srv = Bool × Bool;
  new_server = (false, false);
  serve = λ s. (true, s.1);
  stop = λ s. (s.0, true);
  is_serving = λ s. s.0 && not s.1;
  is_stopped = λ s. s.1;
  is_stopped-new_server = refl;
  is_stopped-serve = λ s. refl;
  is_stopped-stop = λ s. refl;
  is_serving-serve = λ s. refl;
  is_serving-stopped = λ (a, b) h. quiet a b h;
}
  where
    quiet : (a b : Bool) → b ≡ true → (a && not b) ≡ false
    quiet true true h = refl
    quiet true false h = cc
    quiet false b h = refl

stop_too_early_example :
    accepts toy (listen_run toy (idle toy) (prepares true ∷ stops ∷ stores ∷ serves ∷ [])) ≡ true
unfolding listen_run listen_step prepare
stop_too_early_example = stop_too_early toy (prepares true ∷ []) refl (λ e. cc)

abbrev up_and_running : List ListenEvent
up_and_running = prepares true ∷ stores ∷ serves ∷ []

stops_at_last :
    accepts toy (listen_run toy (idle toy) (up_and_running ++ stops ∷ serves ∷ [])) ≡ false
unfolding listen_run listen_step prepare store call_serve
stops_at_last = stop_is_final toy up_and_running (serves ∷ []) (true, false) refl
