-- ===== src/Metrics.antt =====
-- metrics/metrics.go: the counters and gauges, by label. transport/server.go changes the first
-- record and transport/client.go the second; no label is in both. The values are unbounded
-- numbers, and the histogram of latencies keeps its number of observations only.
use multi_region.Prelude.{ℕ}

pub record ServerMetrics : Type 0 where
  -- EnvelopesSent, "downstream"
  pub sent : ℕ
  -- EnvelopesReceived, "upstream"
  pub received : ℕ
  -- EnvelopesDropped, "downstream" and "buffer_full"
  pub dropped : ℕ
  -- ChildConnections, "upstream" and "downstream"
  pub upstream_children : ℕ
  pub downstream_children : ℕ
  -- ChildRejections
  pub rejections : ℕ

pub record ClientMetrics : Type 0 where
  -- EnvelopesSent, "upstream"
  pub sent : ℕ
  -- EnvelopesReceived, "downstream"
  pub received : ℕ
  -- ForwardLatencySeconds, "success" and "failure"
  pub successes : ℕ
  pub failures : ℕ

abbrev pub no_server_metrics : ServerMetrics
no_server_metrics = record {
  sent = 0;
  received = 0;
  dropped = 0;
  upstream_children = 0;
  downstream_children = 0;
  rejections = 0;
}

abbrev pub no_client_metrics : ClientMetrics
no_client_metrics = record { sent = 0; received = 0; successes = 0; failures = 0 }
