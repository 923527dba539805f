-- ===== src/Metrics.antt =====
-- observability/metrics.rs: the metric envelope and its makers. `now_ms()` is the argument `now`.
pub mod Histogram
pub mod Wire
use olwsx.Base.{ℕ, ◌^◌, List, Bytes}
use olwsx.Base.Int.{ℤ}

abbrev pub u64_mod : ℕ
u64_mod = 2 ^ 64

abbrev pub Labels : Type 0
Labels = List (Bytes × Bytes)

pub data MetricKind : Type 0 where
  counter : ℕ → MetricKind
  gauge : ℤ → MetricKind
  summary : ℕ → ℕ → MetricKind
  latency_hist : List ℕ → MetricKind

pub record MetricEnvelope : Type 0 where
  pub ts_ms : ℕ
  pub name : Bytes
  pub labels : Labels
  pub kind : MetricKind

pub make_counter : ℕ → Bytes → ℕ → Labels → MetricEnvelope
make_counter now name delta labels = record {
  ts_ms = now;
  name = name;
  labels = labels;
  kind = counter delta;
}

pub make_gauge : ℕ → Bytes → ℤ → Labels → MetricEnvelope
make_gauge now name value labels = record {
  ts_ms = now;
  name = name;
  labels = labels;
  kind = gauge value;
}

pub make_summary : ℕ → Bytes → ℕ → ℕ → Labels → MetricEnvelope
make_summary now name count sum labels = record {
  ts_ms = now;
  name = name;
  labels = labels;
  kind = summary count sum;
}
