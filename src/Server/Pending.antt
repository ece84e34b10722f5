-- ===== src/Server/Pending.antt =====
-- transport/server.go, `authorize`, `recordRejection`, `clearRejection`: the rejected children.
use multi_region.Prelude.{
  ◌≢◌, ℕ, ◌≡◌, refl, Option, none, some, [], ◌∷◌, ◌+◌, Bytes, lookup, lookup-insert, lookup-delete,
  beq, beq_iff, if◌then◌else◌, arith, Option-cases, inl, inr,
}
use mathlib.Core.Option
use multi_region.Server.{
  Server, Context, rejected, PendingChild, authorize, record_rejection, count_rejection,
}

abbrev pub rejections_of : Option Bytes → ℕ
rejections_of none = 0
rejections_of (some reason) = 1

-- The record that an admin sees for `j` after `node_id` was authorized with the hook's answer.
abbrev pub pending_after : ℕ → Bytes → Option Bytes → Option PendingChild → Option PendingChild
pending_after now node_id none old = none
pending_after now [] (some reason) old = old
pending_after now (b ∷ bs) (some reason) (some p) = some p
pending_after now (b ∷ bs) (some reason) none =
    some (record { node_id = b ∷ bs; first_seen = now; last_reason = reason })

-- A child with a node-id that is refused is on record afterwards, and gets an error.
pub pending_after_refused :
    (now b : ℕ) (bs : Bytes) (answer : Option Bytes) (old : Option PendingChild)
    → answer ≢ none
    → (pending_after now (b ∷ bs) answer old ≢ none) × (Option.map rejected answer ≢ none)
pending_after_refused now b bs none old h = absurd (h refl)
pending_after_refused now b bs (some reason) none h = ((λ p. cc), λ p. cc)
pending_after_refused now b bs (some reason) (some x) h = ((λ p. cc), λ p. cc)

-- What an authorization leaves alone.
pub record IsSameButPending {S : Type 0} (s t : Server S) : Type 0 where
  pub hook : t.authorize_child ≡ s.authorize_child
  pub children : t.children ≡ s.children
  pub anon_seq : t.anon_seq ≡ s.anon_seq
  pub channels : t.channels ≡ s.channels
  pub sent : t.metrics.sent ≡ s.metrics.sent
  pub received : t.metrics.received ≡ s.metrics.received
  pub dropped : t.metrics.dropped ≡ s.metrics.dropped
  pub upstream_children : t.metrics.upstream_children ≡ s.metrics.upstream_children
  pub downstream_children : t.metrics.downstream_children ≡ s.metrics.downstream_children

module _ {S : Type 0} where
  record_rejection-IsSameButPending :
      (now : ℕ) (node_id reason : Bytes) (s : Server S)
      → IsSameButPending s (record_rejection now node_id reason s)
        × ((record_rejection now node_id reason s).metrics.rejections ≡ s.metrics.rejections)
  unfolding record_rejection
  record_rejection-IsSameButPending now [] reason s = ground arith
  record_rejection-IsSameButPending now (b ∷ bs) reason s = ground arith

  record_rejection-lookup :
      (now : ℕ) (node_id reason j : Bytes) (s : Server S)
      → lookup j (record_rejection now node_id reason s).pending ≡ (
          if beq node_id j
          then pending_after now node_id (some reason) (lookup node_id s.pending)
          else lookup j s.pending)
  unfolding record_rejection
  record_rejection-lookup now [] reason j s = ground (arith, beq_iff [] j)
  record_rejection-lookup now (b ∷ bs) reason j s =
      elim (Option-cases (lookup (b ∷ bs) s.pending)) [
        | inl new ↦ ground (
          arith,
          lookup-insert (b ∷ bs) j
              (record { node_id = b ∷ bs; first_seen = now; last_reason = reason }) s.pending,
        )
        | inr (p, old) ↦ ground (arith, beq_iff (b ∷ bs) j)
      ]

  -- Authorizing `node_id` changes the record of `node_id` alone: an approval removes it; a
  -- rejection leaves an old record as it was, and makes one, with the time and the reason, where
  -- there was none and the node-id is not empty. An error is returned exactly on a rejection, with
  -- the hook's reason, and then the count of rejections goes up by one. Nothing else changes.
  pub authorize_lem :
      (service : S) (ctx : Context) (now : ℕ) (node_id j : Bytes) (s : Server S)
      → let (t, e) = authorize service ctx now node_id s in
        let answer = s.authorize_child service ctx node_id in
        (lookup j t.pending ≡ (
          if beq node_id j
          then pending_after now node_id answer (lookup node_id s.pending)
          else lookup j s.pending))
        × (e ≡ Option.map rejected answer)
        × (t.metrics.rejections ≡ s.metrics.rejections + rejections_of answer)
        × IsSameButPending s t
  unfolding authorize
  authorize_lem service ctx now node_id j s =
      elim (Option-cases (s.authorize_child service ctx node_id)) [
        | inl approved ↦
            rw (approved, authorize)
              (lookup-delete node_id j s.pending, refl, omega arith, ground arith)
        | inr (reason, refused) ↦
            let kept = record_rejection-IsSameButPending now node_id reason (count_rejection s) in
            rw (refused, authorize)
              (
                record_rejection-lookup now node_id reason j (count_rejection s),
                refl,
                kept.1,
                same kept.0,
              )
      ]
    where
      same : {t : Server S} → IsSameButPending (count_rejection s) t → IsSameButPending s t
      same h = ground (arith, h)
