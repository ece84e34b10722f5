-- ===== src/Server/Tests.antt =====
-- transport/server.go: a server with children that come and go.
use multi_region.Prelude.{
  ℕ, ◌+◌, ◌≡◌, refl, ◌↔◌, true, false, Option, none, some, List, [], ◌∷◌, ◌++◌, length, get_or, All,
  Bytes, str, lookup, beq, if◌then◌else◌, pos, decimal, arith,
}
use multi_region.Envelope.{Envelope}
use multi_region.Metrics.{no_server_metrics}
use multi_region.Server.{
  Server, Context, noop_authorize_child, anonymous_key, register_child, authorize,
  broadcast_downstream, send_to_child, broadcast_loop, children_count, rejected, no_child,
  child_node_id,
}
use multi_region.Server.Channels.{has_channel}
use multi_region.Server.Broadcast.{
  IsSameBut, full_keys, taken_in, none_yet, broadcast_delivers, broadcast-metrics,
  send_to_child-eq-broadcast,
}
use multi_region.Server.Pending.{IsSameButPending, authorize_lem}
use multi_region.Server.Keys.{register_child_collides}
use multi_region.Server.Order.{broadcast_order}
use mathlib.Core.List.{Perm, Permᴰ}
use multi_region.Server.Hub.{
  Session, Event, connects, pumps, cancels, broadcasts, sends, run, new_hub,
}
use multi_region.Server.Hub.Invariant.{HubInv}
use multi_region.Server.Hub.Preserve.{reachable-HubInv}
use multi_region.Server.Hub.Flow.{accepted_over, downstream_fifo}
use multi_region.Server.Hub.Names.{IsPlain}
use multi_region.Server.Hub.Keys.{children_reachable}

-- The service's state is the list of rejections to make.
abbrev refuse_rogue : Bytes → Context → Bytes → Option Bytes
refuse_rogue rogue ctx id = if beq rogue id then some (str "rogue") else none

abbrev note : Envelope
note = record { id = str "root-1"; kind = str "config"; payload = str "v2"; timestamp = pos 9 }

abbrev from : Bytes → Context
from id = record { node_ids = some (id ∷ []); peer = none }

abbrev nameless : Context
nameless = record { node_ids = none; peer = none }

-- Two children, of which the second does not drain its channel.
abbrev busy : Server Bytes
busy = record {
  authorize_child = refuse_rogue;
  children = (str "a", 0) ∷ (str "b", 1) ∷ [];
  anon_seq = 0;
  pending = [];
  channels = [] ∷ sixteen ∷ [];
  metrics = no_server_metrics;
}
  where
    sixteen : List Envelope
    sixteen =
        note ∷ note ∷ note ∷ note ∷ note ∷ note ∷ note ∷ note ∷ note ∷ note ∷ note ∷ note ∷ note
        ∷ note ∷ note ∷ note ∷ []

broadcast_delivers_example :
    let (t, r, e) = broadcast_downstream note busy in
    (r.dropped ≡ full_keys busy.channels busy.children)
    × (r.delivered + length r.dropped ≡ 2)
    × ((e ≡ none) ↔ (r.dropped ≡ []))
    × ((d : ℕ)
        → get_or t.channels d []
          ≡ get_or busy.channels d [] ++ taken_in note busy.channels busy.children d)
broadcast_delivers_example = broadcast_delivers note busy (omega arith) (refl, (refl, tt))

busy_drops : full_keys busy.channels busy.children ≡ str "b" ∷ []
unfolding full_keys
busy_drops = refl

broadcast-metrics_example :
    let (t, r, e) = broadcast_downstream note busy in
    (t.metrics.sent ≡ 0 + r.delivered)
    × (t.metrics.dropped ≡ 0 + length r.dropped)
    × IsSameBut busy t
broadcast-metrics_example = broadcast-metrics note busy

send_to_child-eq-broadcast_example :
    ((c : ℕ)
      → lookup (str "b") busy.children ≡ some c
      → let (t, e) = send_to_child (str "b") note busy in
        let (t', r) = broadcast_loop note ((str "b", c) ∷ []) (busy, none_yet) in
        (t ≡ t') × ((e ≡ none) ↔ (r.dropped ≡ [])))
    × (lookup (str "b") busy.children ≡ none
        → send_to_child (str "b") note busy ≡ (busy, some (no_child (str "b"))))
send_to_child-eq-broadcast_example = send_to_child-eq-broadcast (str "b") note busy

authorize_lem_example :
    let (t, e) = authorize (str "c") (from (str "c")) 5 (str "c") busy in
    (lookup (str "c") t.pending
      ≡ some (record { node_id = str "c"; first_seen = 5; last_reason = str "rogue" }))
    × (e ≡ some (rejected (str "rogue")))
    × (t.metrics.rejections ≡ 1)
    × IsSameButPending busy t
unfolding lookup beq
authorize_lem_example = authorize_lem (str "c") (from (str "c")) 5 (str "c") (str "c") busy

-- A child has claimed the key that the next child without a node-id gets.
abbrev taken : Server Bytes
taken = record {
  authorize_child = noop_authorize_child;
  children = (str "(anonymous-1)", 0) ∷ [];
  anon_seq = 0;
  pending = [];
  channels = [] ∷ [];
  metrics = no_server_metrics;
}

taken_key : lookup (anonymous_key 1) taken.children ≡ some 0
unfolding anonymous_key lookup beq decimal
taken_key = refl

register_child_collides_example :
    let (key, d, t) = register_child [] taken in
    (key ≡ anonymous_key 1)
    × (lookup key t.children ≡ some d)
    × (length t.children ≡ 1)
    × (has_channel t.children 0 ≡ false)
register_child_collides_example = register_child_collides taken 0 taken_key (omega arith) (refl, tt)

-- A child, one that claims the same node-id, one with none; a broadcast that one of them sends on
-- and another fails to; and one that leaves.
abbrev evening : List (Event Bytes)
evening =
    connects (str "z") (from (str "a")) 1
    ∷ connects (str "z") (from (str "a")) 2
    ∷ connects (str "z") nameless 3
    ∷ broadcasts note
    ∷ pumps 0 true
    ∷ sends (str "a") note
    ∷ pumps 1 false
    ∷ cancels 1
    ∷ []

reachable-HubInv_example : HubInv (run (new_hub {S = Bytes}) evening)
reachable-HubInv_example = reachable-HubInv evening

downstream_fifo_example :
    let h = run (new_hub {S = Bytes}) evening in
    get_or h.taken 0 [] ++ get_or h.server.channels 0 [] ≡ accepted_over new_hub evening 0
downstream_fifo_example = downstream_fifo evening 0

children_reachable_example :
    let h = run (new_hub {S = Bytes}) evening in
    All (λ (x : Session). lookup x.key h.server.children ≡ some x.channel) h.sessions
    × (children_count h.server ≡ length h.sessions)
unfolding child_node_id
children_reachable_example = children_reachable evening plain
  where
    plain : All IsPlain evening
    plain = (refl, (refl, (refl, (tt, (tt, (tt, (tt, (tt, tt))))))))

-- The same children, visited the other way round.
broadcast_order_example :
    let (t, r, e) = broadcast_downstream note busy in
    let (t', r', e') =
      broadcast_downstream note (record busy { children = (str "b", 1) ∷ (str "a", 0) ∷ [] }) in
    (r.delivered ≡ r'.delivered)
    × Perm r.dropped r'.dropped
    × ((e ≡ none) ↔ (e' ≡ none))
    × ((d : ℕ) → get_or t.channels d [] ≡ get_or t'.channels d [])
broadcast_order_example =
    broadcast_order note busy ((str "b", 1) ∷ (str "a", 0) ∷ []) (Permᴰ.swap refl refl)
      (omega arith) (refl, (refl, tt))
