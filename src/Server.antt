-- ===== src/Server.antt =====
-- transport/server.go: the side of a node that accepts children. The mutex `mu` makes each
-- method one step. A channel is a position in `channels`, the store of all channels made so far,
-- so that a map entry and the stream that reads the channel share it.
pub mod Listening
pub mod Stopping
pub mod Upstream
pub mod Hub
pub mod Channels
pub mod Broadcast
pub mod Listed
pub mod Pending
pub mod Keys
pub mod Order
mod Tests
use multi_region.Prelude.{
  ℕ, ◌+◌, ◌-◌, Bool, true, false, Option, none, some, List, [], ◌∷◌, ◌++◌, ltb, if◌then◌else◌,
  length, get_or, set, Bytes, str, Map, lookup, insert, delete, decimal,
}
use multi_region.Envelope.{Envelope}
use multi_region.Metrics.{ServerMetrics, no_server_metrics}

-- What a call's context answers: `metadata.FromIncomingContext` followed by `Get` of the header
-- "node-id", and `peer.FromContext` (the CommonNames of the peer's certificates under TLS).
pub data AuthInfo : Type 0 where
  other_info : AuthInfo
  tls_info : List Bytes → AuthInfo

pub record Context : Type 0 where
  pub node_ids : Option (List Bytes)
  pub peer : Option AuthInfo

pub record PendingChild : Type 0 where
  pub node_id : Bytes
  pub first_seen : ℕ
  pub last_reason : Bytes

-- The errors of this file, with what their texts quote.
pub data Error : Type 0 where
  rejected : Bytes → Error
  no_child : Bytes → Error
  child_full : Bytes → Bytes → Error
  children_full : ℕ → ℕ → List Bytes → Error
  stream_failed : Error
  handler_failed : Bytes → Error

-- The hook reads the state of the service that installs it; `none` is Go's nil error.
abbrev pub AuthorizeChild : Type 0 → Type 0
AuthorizeChild S = S → Context → Bytes → Option Bytes

pub record Server (S : Type 0) : Type 0 where
  pub authorize_child : AuthorizeChild S
  pub children : Map ℕ
  pub anon_seq : ℕ
  pub pending : Map PendingChild
  pub channels : List (List Envelope)
  pub metrics : ServerMetrics

pub record BroadcastResult : Type 0 where
  pub delivered : ℕ
  pub dropped : List Bytes

abbrev pub channel_size : ℕ
channel_size = 16

-- The header's first value, and "" where there is none.
first_value : List Bytes → Bytes
first_value [] = []
first_value (v ∷ vs) = v

pub child_node_id : Context → Bytes
unfolding first_value
child_node_id ctx = elim ctx.node_ids [ none ↦ [] | some values ↦ first_value values ]

-- `select { case ch <- env: … default: … }` on a channel of the store: `none` is the default case.
unfoldable pub offer : List (List Envelope) → ℕ → Envelope → Option (List (List Envelope))
offer channels c env =
    if ltb (length (get_or channels c [])) channel_size
    then some (set channels c (get_or channels c [] ++ env ∷ []))
    else none

unfoldable pub anonymous_key : ℕ → Bytes
anonymous_key n = str "(anonymous-" ++ decimal n ++ str ")"

unfoldable pub duplicate_key : Bytes → ℕ → Bytes
duplicate_key node_id n = node_id ++ (str "(dup-" ++ decimal n ++ str ")")

pending_values : Map PendingChild → List PendingChild
pending_values [] = []
pending_values ((k, p) ∷ m) = p ∷ pending_values m

module _ {S : Type 0} where
  abbrev pub noop_authorize_child : AuthorizeChild S
  noop_authorize_child service ctx node_id = none

  unfoldable pub new_server : Server S
  new_server = record {
    authorize_child = noop_authorize_child;
    children = [];
    anon_seq = 0;
    pending = [];
    channels = [];
    metrics = no_server_metrics;
  }

  pub set_authorize_child : Option (AuthorizeChild S) → Server S → Server S
  set_authorize_child none s = record s { authorize_child = noop_authorize_child }
  set_authorize_child (some authorize) s = record s { authorize_child = authorize }

  pub pending_children : Server S → List PendingChild
  unfolding pending_values
  pending_children s = pending_values s.pending

  pub children_count : Server S → ℕ
  children_count s = length s.children

  -- One round of the loop of `BroadcastDownstream`.
  unfoldable pub broadcast_one :
      Envelope → Bytes → ℕ → Server S × BroadcastResult → Server S × BroadcastResult
  unfolding offer
  broadcast_one env id c (s, r) = elim (offer s.channels c env) [
    | some channels ↦ (
      record s { channels = channels; metrics = record m { sent = m.sent + 1 } },
      record r { delivered = r.delivered + 1 },
    )
    | none ↦ (
      record s { metrics = record m { dropped = m.dropped + 1 } },
      record r { dropped = r.dropped ++ id ∷ [] },
    )
  ]
    where
      m : ServerMetrics
      m = s.metrics

  unfoldable pub broadcast_loop :
      Envelope → Map ℕ → Server S × BroadcastResult → Server S × BroadcastResult
  broadcast_loop env [] sr = sr
  broadcast_loop env ((id, c) ∷ rest) sr = broadcast_loop env rest (broadcast_one env id c sr)

  unfoldable pub broadcast_error : Server S → BroadcastResult → Option Error
  broadcast_error s r =
      if ltb 0 (length r.dropped)
      then some (children_full (length r.dropped) (length s.children) r.dropped)
      else none

  unfoldable pub broadcast_downstream :
      Envelope → Server S → Server S × BroadcastResult × Option Error
  unfolding broadcast_error
  broadcast_downstream env s =
      let (s', r) = broadcast_loop env s.children (s, record { delivered = 0; dropped = [] }) in
      (s', r, broadcast_error s' r)

  pub send_to_child : Bytes → Envelope → Server S → Server S × Option Error
  unfolding offer
  send_to_child node_id env s = elim (lookup node_id s.children) [
    | none ↦ (s, some (no_child node_id))
    | some c ↦ elim (offer s.channels c env) [
      | some channels ↦
          (record s { channels = channels; metrics = record m { sent = m.sent + 1 } }, none)
      | none ↦ (
        record s { metrics = record m { dropped = m.dropped + 1 } },
        some (child_full node_id env.kind),
      )
    ]
  ]
    where
      m : ServerMetrics
      m = s.metrics

  -- `now` is the reading of the clock.
  pub record_rejection : ℕ → Bytes → Bytes → Server S → Server S
  record_rejection now [] reason s = s
  record_rejection now (b ∷ bs) reason s = elim (lookup (b ∷ bs) s.pending) [
    | some p ↦ s
    | none ↦ record s {
      pending =
          insert (b ∷ bs) (record { node_id = b ∷ bs; first_seen = now; last_reason = reason })
            s.pending;
    }
  ]

  unfoldable pub clear_rejection : Bytes → Server S → Server S
  clear_rejection node_id s = record s { pending = delete node_id s.pending }

  count_rejection : Server S → Server S
  count_rejection s = record s { metrics = record m { rejections = m.rejections + 1 } }
    where
      m : ServerMetrics
      m = s.metrics

  unfoldable pub authorize : S → Context → ℕ → Bytes → Server S → Server S × Option Error
  unfolding record_rejection clear_rejection count_rejection
  authorize service ctx now node_id s = elim (s.authorize_child service ctx node_id) [
    | some reason ↦
        (record_rejection now node_id reason (count_rejection s), some (rejected reason))
    | none ↦ (clear_rejection node_id s, none)
  ]

  -- The key for a claimed node-id, and whether `anonSeq` is taken up for it.
  pub child_key : Bytes → Server S → Bytes × ℕ
  unfolding anonymous_key duplicate_key
  child_key [] s = (anonymous_key (s.anon_seq + 1), s.anon_seq + 1)
  child_key (b ∷ bs) s = elim (lookup (b ∷ bs) s.children) [
    | some c ↦ (duplicate_key (b ∷ bs) (s.anon_seq + 1), s.anon_seq + 1)
    | none ↦ (b ∷ bs, s.anon_seq)
  ]

  -- `make(chan *proto.Envelope, 16)` is the next position of the store.
  unfoldable pub register_child : Bytes → Server S → Bytes × ℕ × Server S
  unfolding child_key
  register_child node_id s =
      let (key, seq) = child_key node_id s in
      let c = length s.channels in
      (
        key,
        c,
        record s {
          children = insert key c s.children;
          anon_seq = seq;
          channels = s.channels ++ [] ∷ [];
        },
      )

  unfoldable pub unregister_child : Bytes → Server S → Server S
  unregister_child key s = record s { children = delete key s.children }
