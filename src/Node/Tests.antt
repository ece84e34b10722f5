-- ===== src/Node/Tests.antt =====
-- node/node.go: a node between a child and a parent that goes away and comes back.
use multi_region.Node.Ids.{ids_differ}
use multi_region.Prelude.{
  ◌↔◌, ℕ, ap, ◌∙◌, false, ◌+◌, ◌≡◌, refl, true, none, some, List, [], ◌∷◌, str, pos, lookup, beq,
  insert, Bytes,
}
use mathlib.Core.List.{foldl}
use multi_region.Envelope.{Envelope}
use multi_region.Grpc.Wire.{Wire, wire, up, down}
use multi_region.Client.{send_upstream}
use multi_region.Metrics.{no_client_metrics}
use multi_region.Node.{
  NodeOption, with_id, with_listen_addr, with_resolver, State, Clock, waiting, forward_up,
  run_upstream_handlers, send_up, handle_upstream_from_child, handle_downstream_from_parent,
  new_envelope, run_handlers, handlers_of, on_upstream, on_downstream, apply_options, apply_option,
  empty_config,
}
use multi_region.Node.Handlers.{
  Registrations, chosen, on_upstream_all, on_downstream_all, called_with, handlers_run,
}
use multi_region.Node.Retrying.{Reaches}
use multi_region.Client.{Client}
use multi_region.Client.Sending.{send_upstream-send}
use multi_region.Node.Loop.{Event, sends_up, child_sends, ticks, resends, paces, cancels, step, run}
use multi_region.Node.Held.{count, held, accepted_over}
use multi_region.Node.Delivery.{upstream_conserved}

abbrev pub report : Envelope
report = record { id = str "leaf-1"; kind = str "log"; payload = str "x"; timestamp = pos 7 }

-- A client that has its streams, and one that has none yet.
abbrev pub joined : Client wire
joined = record {
  node_id = str "branch";
  resolver = λ w. some (str "parent:50051");
  authn = none;
  has_dialer = false;
  closed = false;
  metrics = no_client_metrics;
  upstream_conn = some 0;
  upstream_stream = some 0;
  downstream_conn = some 1;
  downstream_stream = some 1;
  downstream_cancel = some 0;
}

abbrev pub unjoined : Client wire
unjoined = record {
  node_id = str "branch";
  resolver = λ w. some (str "parent:50051");
  authn = none;
  has_dialer = false;
  closed = false;
  metrics = no_client_metrics;
  upstream_conn = none;
  upstream_stream = none;
  downstream_conn = none;
  downstream_stream = none;
  downstream_cancel = none;
}

-- A branch whose parent cannot be reached yet. Its service counts what its handlers were given.
abbrev pub branch : State wire ℕ
branch = record {
  node = record {
    config = record {
      id = str "branch";
      listen_addr = str ":50052";
      resolver = some (λ w. some (str "parent:50051"));
      authn = none;
      authorize_child = none;
    };
    server = none;
    client = some unjoined;
    upstream_handlers = (str "log", (λ env n. n + 1) ∷ []) ∷ [];
    downstream_handlers = [];
    pending = [];
    retry = waiting;
  };
  service = 0;
  world = down;
}

abbrev pub noon : Clock
noon = record { nanos = 12; seconds = pos 12 }

abbrev outage : List Event
outage =
    child_sends report
    ∷ sends_up noon (str "log") (str "y")
    ∷ ticks
    ∷ resends
    ∷ paces
    ∷ cancels
    ∷ []

outage_runs :
    let st = run branch outage in (st.service ≡ 2) × (count (λ env. true) st.node.pending ≡ 1)
unfolding run step count forward_up run_upstream_handlers send_upstream lookup beq
outage_runs = (refl, refl)

upstream_conserved_example :
    count (λ env. true) (held (run branch outage))
    ≡ count (λ env. true) (held branch) + count (λ env. true) (accepted_over branch outage)
upstream_conserved_example = upstream_conserved (λ env. true) branch outage

-- A client that has its stream, on a wire that is up.
abbrev pub CanSend : Client wire → Wire → Type 0
CanSend c w = (w.is_up ≡ true) × (c.upstream_stream ≡ some 0)

pub CanSend-reaches : Reaches wire CanSend
CanSend-reaches env c w (u, s) =
    let law = send_upstream-send wire env c w 0 s (rw u refl) in
    (law.0, (ap (λ x. x.is_up) law.1 ∙ rw u refl, law.2 ∙ s))

-- The branch with its parent back and two envelopes left over.
abbrev pub back_again : State wire ℕ
back_again = record branch {
  node = record branch.node { client = some joined; pending = report ∷ report ∷ [] };
  world = up;
}

abbrev choices : List (NodeOption wire ℕ)
choices =
    with_id (str "leaf")
    ∷ with_listen_addr (str ":1")
    ∷ with_id (str "branch")
    ∷ with_resolver (λ w. some (str "parent:50051"))
    ∷ []

abbrev newborn : State wire ℕ
unfolding apply_options empty_config
newborn = record {
  node = record {
    config = apply_options choices empty_config;
    server = none;
    client = none;
    upstream_handlers = [];
    downstream_handlers = [];
    pending = [];
    retry = waiting;
  };
  service = 0;
  world = down;
}

-- Two handlers of one kind, around one of another kind.
abbrev ups : Registrations ℕ
ups =
    (str "log", λ env n. n + 1) ∷ (str "other", λ env n. n + 100) ∷ (str "log", λ env n. n + n) ∷ []

abbrev downs : Registrations ℕ
downs = (str "config", λ env n. n + 10) ∷ []

abbrev listening : State wire ℕ
unfolding on_upstream_all on_downstream_all on_upstream on_downstream handlers_of lookup insert beq
listening = record newborn {
  node = record newborn.node {
    upstream_handlers = (on_upstream_all ups newborn.node).upstream_handlers;
    downstream_handlers = (on_downstream_all downs newborn.node).downstream_handlers;
  };
}

handlers_run_example :
    ((now : Clock) (kind payload : Bytes)
      → (send_up now kind payload listening).service
        ≡ foldl (called_with (new_envelope now (str "branch") kind payload)) 0 (chosen kind ups))
    × ((env : Envelope)
        → (handle_upstream_from_child env listening).service
          ≡ foldl (called_with env) 0 (chosen env.kind ups))
    × ((env : Envelope)
        → (handle_downstream_from_parent env listening).service
          ≡ foldl (called_with env) 0 (chosen env.kind downs))
unfolding newborn on_upstream_all listening apply_option
handlers_run_example = handlers_run ups downs newborn.node listening refl refl refl refl

log_handlers_run : (handle_upstream_from_child report listening).service ≡ 2
unfolding run_handlers chosen beq newborn on_upstream_all listening
log_handlers_run = (handlers_run ups downs newborn.node listening refl refl refl refl).1 report

abbrev midnight : Clock
midnight = record { nanos = 13; seconds = pos 12 }

-- Names with a dash do not confuse the ids.
ids_differ_example :
    ((new_envelope noon (str "leaf-1") (str "log") (str "x")).id
      ≡ (new_envelope midnight (str "leaf") (str "log") (str "x")).id)
    ↔ ((str "leaf-1" ≡ str "leaf") × (noon.nanos ≡ midnight.nanos))
ids_differ_example =
    ids_differ noon midnight (str "leaf-1") (str "leaf") (str "log") (str "log") (str "x") (str "x")
