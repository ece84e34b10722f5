-- ===== src/Server/Hub.antt =====
-- transport/server.go, `Downstream`: a server with the calls of `Downstream` that are running.
-- An event is one step of a goroutine between two waits; a list of events is an interleaving.
pub mod Invariant
mod Unmoved
pub mod Preserve
pub mod Flow
pub mod Names
pub mod Keys
use multi_region.Prelude.{
  ℕ, ◌+◌, ◌-◌, Bool, true, false, Option, none, some, List, [], ◌∷◌, ◌++◌, length, get_elem?,
  get_or, set, remove_at, Bytes, if◌then◌else◌,
}
use multi_region.Envelope.{Envelope}
use multi_region.Metrics.{ServerMetrics}
use multi_region.Server.{
  Server, AuthorizeChild, Context, Error, authorize, child_node_id, register_child,
  unregister_child, broadcast_downstream, send_to_child, set_authorize_child, new_server,
}

-- A running call: the key and the channel that `registerChild` gave it.
pub record Session : Type 0 where
  pub key : Bytes
  pub channel : ℕ

-- `taken` holds, for each channel, the envelopes that its stream has been given to send.
pub record Hub (S : Type 0) : Type 0 where
  pub server : Server S
  pub sessions : List Session
  pub taken : List (List Envelope)

pub data Event (S : Type 0) : Type 0 where
  -- A child opens Downstream; the service's state and the clock at that time.
  connects : S → Context → ℕ → Event S
  -- The call at a position takes an envelope from its channel and sends it, well or not.
  pumps : ℕ → Bool → Event S
  -- The context of the call at a position is done.
  cancels : ℕ → Event S
  broadcasts : Envelope → Event S
  sends : Bytes → Envelope → Event S
  sets_hook : Option (AuthorizeChild S) → Event S

module _ {S : Type 0} where
  unfoldable pub enter_downstream : Server S → Server S
  enter_downstream s = record s {
    metrics = record m { downstream_children = m.downstream_children + 1 };
  }
    where
      m : ServerMetrics
      m = s.metrics

  unfoldable pub leave_downstream : Server S → Server S
  leave_downstream s = record s {
    metrics = record m { downstream_children = m.downstream_children - 1 };
  }
    where
      m : ServerMetrics
      m = s.metrics

  join : Bytes → Server S → Hub S → Hub S
  unfolding enter_downstream
  join node_id s h =
      let (key, c, s') = register_child node_id s in
      record h {
        server = enter_downstream s';
        sessions = h.sessions ++ record { key = key; channel = c } ∷ [];
        taken = h.taken ++ [] ∷ [];
      }

  admit : Bytes → Hub S → Server S × Option Error → Hub S
  unfolding join
  admit node_id h (s, some e) = record h { server = s }
  admit node_id h (s, none) = join node_id s h

  pub connect : S → Context → ℕ → Hub S → Hub S
  unfolding admit
  connect service ctx now h =
      admit (child_node_id ctx) h (authorize service ctx now (child_node_id ctx) h.server)

  -- The deferred function of the call.
  unfoldable pub leave : ℕ → Session → Hub S → Hub S
  unfolding leave_downstream
  leave i x h = record h {
    server = leave_downstream (unregister_child x.key h.server);
    sessions = remove_at h.sessions i;
  }

  pub cancel : ℕ → Hub S → Hub S
  unfolding leave
  cancel i h = elim (get_elem? h.sessions i) [ none ↦ h | some x ↦ leave i x h ]

  unfoldable pub take_out : Session → Envelope → List Envelope → Hub S → Hub S
  take_out x env rest h = record h {
    server = record s { channels = set s.channels x.channel rest };
    taken = set h.taken x.channel (get_or h.taken x.channel [] ++ env ∷ []);
  }
    where
      s : Server S
      s = h.server

  pump_session : ℕ → Bool → Session → List Envelope → Hub S → Hub S
  unfolding take_out leave
  pump_session i sent x [] h = h
  pump_session i sent x (env ∷ rest) h =
      let h' = take_out x env rest h in if sent then h' else leave i x h'

  pub pump : ℕ → Bool → Hub S → Hub S
  unfolding pump_session
  pump i sent h = elim (get_elem? h.sessions i) [
    | none ↦ h
    | some x ↦ pump_session i sent x (get_or h.server.channels x.channel []) h
  ]

  pub step : Hub S → Event S → Hub S
  step h (connects service ctx now) = connect service ctx now h
  step h (pumps i sent) = pump i sent h
  step h (cancels i) = cancel i h
  step h (broadcasts env) = record h { server = (broadcast_downstream env h.server).0 }
  step h (sends node_id env) = record h { server = (send_to_child node_id env h.server).0 }
  step h (sets_hook hook) = record h { server = set_authorize_child hook h.server }

  pub run : Hub S → List (Event S) → Hub S
  run h [] = h
  run h (e ∷ es) = run (step h e) es

  pub new_hub : Hub S
  new_hub = record { server = new_server; sessions = []; taken = [] }
