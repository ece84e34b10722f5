-- ===== src/Server/Stopping.antt =====
-- transport/server.go, `Stop` beside the goroutine of `Listen`, cut where `Listen` has its port and
-- its credentials, where it stores the gRPC server, and where it calls Serve.
pub mod Late
mod Tests
use multi_region.Prelude.{◌≡◌, Bool, true, false, not, Option, none, some, List, [], ◌∷◌}

-- What google.golang.org/grpc says of a Server: it serves from Serve on until Stop, and a Serve after
-- Stop returns at once.
pub record GrpcServer : Type 1 where
  pub Srv : Type 0
  pub new_server : Srv
  pub serve : Srv → Srv
  pub stop : Srv → Srv
  pub is_serving : Srv → Bool
  pub is_stopped : Srv → Bool
  pub is_stopped-new_server : is_stopped new_server ≡ false
  pub is_stopped-serve : (s : Srv) → is_stopped (serve s) ≡ is_stopped s
  pub is_stopped-stop : (s : Srv) → is_stopped (stop s) ≡ true
  pub is_serving-serve : (s : Srv) → is_serving (serve s) ≡ not (is_stopped s)
  pub is_serving-stopped : (s : Srv) → is_stopped s ≡ true → is_serving s ≡ false

-- How far `Listen` has come.
pub data Stage : Type 0 where
  called : Stage
  prepared : Stage
  stored : Stage
  in_serve : Stage
  returned : Stage

pub data ListenEvent : Type 0 where
  -- `Listen` has its port and its credentials, or returns an error.
  prepares : Bool → ListenEvent
  -- `s.grpcServer = grpc.NewServer(...)`.
  stores : ListenEvent
  -- The call of Serve.
  serves : ListenEvent
  -- `Stop`.
  stops : ListenEvent

-- `held` is the field `grpcServer`.
pub record Listener (g : GrpcServer) : Type 0 where
  pub stage : Stage
  pub held : Option g.Srv

prepare : Bool → Stage → Stage
prepare true called = prepared
prepare false called = returned
prepare ok prepared = prepared
prepare ok stored = stored
prepare ok in_serve = in_serve
prepare ok returned = returned

module _ (g : GrpcServer) where
  store : Stage → Listener g → Listener g
  store prepared l = record { stage = stored; held = some g.new_server }
  store called l = l
  store stored l = l
  store in_serve l = l
  store returned l = l

  call_serve : Stage → Listener g → Listener g
  call_serve stored l = record {
    stage = in_serve;
    held = elim l.held [ none ↦ none | some s ↦ some (g.serve s) ];
  }
  call_serve called l = l
  call_serve prepared l = l
  call_serve in_serve l = l
  call_serve returned l = l

  listen_step : Listener g → ListenEvent → Listener g
  unfolding prepare store call_serve
  listen_step l (prepares ok) = record l { stage = prepare ok l.stage }
  listen_step l stores = store l.stage l
  listen_step l serves = call_serve l.stage l
  listen_step l stops = record l { held = elim l.held [ none ↦ none | some s ↦ some (g.stop s) ] }

  pub listen_run : Listener g → List ListenEvent → Listener g
  unfolding listen_step
  listen_run l [] = l
  listen_run l (e ∷ es) = listen_run (listen_step l e) es

  -- Whether the port accepts calls.
  pub accepts : Listener g → Bool
  accepts l = elim l.held [ none ↦ false | some s ↦ g.is_serving s ]

  -- Before `Listen` is called.
  abbrev pub idle : Listener g
  idle = record { stage = called; held = none }
