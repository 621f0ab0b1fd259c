-- ===== src/Metrics.antt =====
-- src-tauri/src/proxy.rs: `ProxyMetrics`, the recent samples of a proxy with running sums, and the
-- scores made of them. The monotonic clock is an argument.
pub mod Accounting
mod Examples
use Prim.Native.String.{String}
use proxy_load.Base.{
  ℕ, ◌+◌, ◌-◌, min, Bool, true, false, not, Option, none, some, List, [], ◌∷◌, ◌++◌, if◌then◌else◌,
  leb, ltb, nat_beq, length, is_empty,
}
use proxy_load.Base.Float.{Float}
use proxy_load.Models.{ProxyRecord}

abbrev pub metrics_window_ms : ℕ
metrics_window_ms = 300000

abbrev pub max_metric_samples : ℕ
max_metric_samples = 2048

abbrev pub max_latency_us : ℕ
max_latency_us = 86400000000

pub record RequestMetric : Type 0 where
  pub timestamp : ℕ
  pub success : Bool
  pub latency_us : Option ℕ

pub record ProxyMetrics (F : Type 0) : Type 0 where
  pub requests : List RequestMetric
  pub score : F
  pub last_used : ℕ
  pub last_success : ℕ
  pub pushed_status : Option String
  pub successes : ℕ
  pub time_sum : ℕ
  pub time_count : ℕ
  pub learning_remaining : ℕ

-- `i64::from(success)`.
abbrev pub count_of : Bool → ℕ
count_of true = 1
count_of false = 0

abbrev pub time_of : Option ℕ → ℕ
time_of none = 0
time_of (some t) = t

abbrev pub timed_of : Option ℕ → ℕ
timed_of none = 0
timed_of (some t) = 1

module _ (fl : Float) where
  open fl use {F, of_ℕ, literal, add, mul, div, clamp}

  -- `latency_score`, at a time that is a finite number and not negative.
  pub latency_score : Option F → F
  latency_score none = of_ℕ 50
  latency_score (some time) = div (of_ℕ 100) (add (of_ℕ 1) (div time (of_ℕ 500)))

  -- The mean latency of `summary`, in milliseconds.
  mean_latency : ProxyMetrics F → Option F
  mean_latency m =
      if nat_beq m.time_count 0
      then none
      else some (div (div (of_ℕ m.time_sum) (of_ℕ m.time_count)) (of_ℕ 1000))

  calculate_score : ProxyMetrics F → F
  unfolding latency_score mean_latency
  calculate_score m =
      let failed = length m.requests - m.successes in
      let total = of_ℕ (m.successes + failed + 4) in
      let success_rate = div (of_ℕ (m.successes + 2)) total in
      clamp (add (mul success_rate (of_ℕ 75)) (mul (latency_score (mean_latency m)) (literal 25 2)))
        (literal 1 2) (of_ℕ 100)

  unfoldable pub new : ℕ → ProxyMetrics F
  new now = record {
    requests = [];
    score = of_ℕ 50;
    last_used = now;
    last_success = 0;
    pushed_status = none;
    successes = 0;
    time_sum = 0;
    time_count = 0;
    learning_remaining = 3;
  }

  -- `remove_oldest`, when the oldest sample and those after it are given.
  forget : RequestMetric → List RequestMetric → ProxyMetrics F → ProxyMetrics F
  forget sample rest m = record m {
    requests = rest;
    successes = m.successes - count_of sample.success;
    time_sum = m.time_sum - time_of sample.latency_us;
    time_count = m.time_count - timed_of sample.latency_us;
  }

  remove_first : List RequestMetric → ProxyMetrics F → ProxyMetrics F
  unfolding forget
  remove_first [] m = m
  remove_first (sample ∷ rest) m = forget sample rest m

  remove_oldest : ProxyMetrics F → ProxyMetrics F
  unfolding remove_first
  remove_oldest m = remove_first m.requests m

  -- The loop of `prune`, over the samples from the oldest on.
  prune_loop : ℕ → List RequestMetric → ProxyMetrics F → ProxyMetrics F
  unfolding forget
  prune_loop now [] m = m
  prune_loop now (sample ∷ rest) m =
      let next = prune_loop now rest (forget sample rest m) in
      if ltb metrics_window_ms (now - sample.timestamp) then next else m

  pub prune : ℕ → ProxyMetrics F → ProxyMetrics F
  unfolding calculate_score
  prune now m =
      let pruned = prune_loop now m.requests m in
      if nat_beq (length pruned.requests) (length m.requests) then pruned else record pruned {
        score = if is_empty pruned.requests then of_ℕ 50 else calculate_score pruned;
      }

  make_room : ProxyMetrics F → ProxyMetrics F
  unfolding remove_oldest
  make_room m = if nat_beq (length m.requests) max_metric_samples then remove_oldest m else m

  cap_latency : Option ℕ → Option ℕ
  cap_latency none = none
  cap_latency (some t) = some (if leb t max_latency_us then t else max_latency_us)

  -- `push` behind the making of room, without the new score.
  append : ℕ → Bool → Option ℕ → ProxyMetrics F → ProxyMetrics F
  append now success latency m = record m {
    successes = m.successes + count_of success;
    learning_remaining = if success then m.learning_remaining - 1 else 0;
    time_sum = m.time_sum + time_of latency;
    time_count = m.time_count + timed_of latency;
    requests =
        m.requests ++ record { timestamp = now; success = success; latency_us = latency } ∷ [];
    last_used = now;
    last_success = if success then now else m.last_success;
  }

  pub push : ℕ → Bool → Option ℕ → ProxyMetrics F → ProxyMetrics F
  unfolding calculate_score append cap_latency make_room
  push now success latency m =
      let pushed = append now success (cap_latency latency) (make_room (prune now m)) in
      record pushed { score = calculate_score pushed }
