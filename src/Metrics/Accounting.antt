-- ===== src/Metrics/Accounting.antt =====
-- proxy.rs, `ProxyMetrics`: the running sums are those of the samples, within machine range.
use proxy_load.Base.{
  ℕ, ◌+◌, ◌-◌, ◌*◌, ◌≤◌, ◌<◌, ◌≡◌, refl, inl, inr, Bool, Option, none, some, List, [], ◌∷◌, ◌++◌,
  arith, length, length-append, All, All-append, ltb, Bool-cases, subst, sym, ap, nat_beq, ◌^◌, ◌∙◌,
}
use proxy_load.Base.Float.{Float}
use proxy_load.Metrics.{
  RequestMetric, ProxyMetrics, count_of, time_of, timed_of, max_metric_samples, max_latency_us,
  metrics_window_ms, new, forget, remove_first, remove_oldest, prune_loop, prune, make_room,
  cap_latency, append, push,
}

abbrev pub successes_in : List RequestMetric → ℕ
successes_in [] = 0
successes_in (s ∷ ss) = count_of s.success + successes_in ss

abbrev pub time_in : List RequestMetric → ℕ
time_in [] = 0
time_in (s ∷ ss) = time_of s.latency_us + time_in ss

abbrev pub timed_in : List RequestMetric → ℕ
timed_in [] = 0
timed_in (s ∷ ss) = timed_of s.latency_us + timed_in ss

abbrev pub IsCapped : RequestMetric → Type 0
IsCapped s = time_of s.latency_us ≤ max_latency_us

pub record IsAccounted {F : Type 0} (m : ProxyMetrics F) : Type 0 where
  pub successes_sum : m.successes ≡ successes_in m.requests
  pub times_sum : m.time_sum ≡ time_in m.requests
  pub times_count : m.time_count ≡ timed_in m.requests
  pub bounded : length m.requests ≤ max_metric_samples
  pub capped : All IsCapped m.requests

successes-append :
    (xs ys : List RequestMetric) → successes_in (xs ++ ys) ≡ successes_in xs + successes_in ys
successes-append [] ys = omega arith
successes-append (x ∷ xs) ys = omega (arith, successes-append xs ys)

time-append : (xs ys : List RequestMetric) → time_in (xs ++ ys) ≡ time_in xs + time_in ys
time-append [] ys = omega arith
time-append (x ∷ xs) ys = omega (arith, time-append xs ys)

timed-append : (xs ys : List RequestMetric) → timed_in (xs ++ ys) ≡ timed_in xs + timed_in ys
timed-append [] ys = omega arith
timed-append (x ∷ xs) ys = omega (arith, timed-append xs ys)

time-le : (xs : List RequestMetric) → All IsCapped xs → time_in xs ≤ length xs * max_latency_us
time-le [] h = omega arith
time-le (x ∷ xs) h = omega (arith, time-le xs h.1)

successes-le : (xs : List RequestMetric) → successes_in xs ≤ length xs
successes-le [] = omega arith
successes-le (x ∷ xs) = ground (arith, successes-le xs)

timed-le : (xs : List RequestMetric) → timed_in xs ≤ length xs
timed-le [] = omega arith
timed-le (x ∷ xs) = ground (arith, timed-le xs)

module _ (fl : Float) where
  open fl use {F}

  forget-IsAccounted :
      (s : RequestMetric) (rest : List RequestMetric) (m : ProxyMetrics F)
      → m.requests ≡ s ∷ rest
      → IsAccounted m
      → IsAccounted (forget fl s rest m)
  unfolding forget
  forget-IsAccounted s rest m e v =
      let capped : All IsCapped (s ∷ rest) = subst (All IsCapped) e v.capped in
      let bounded : length (s ∷ rest) ≤ max_metric_samples =
        subst (λ l. length l ≤ max_metric_samples) e v.bounded in
      let successes : m.successes ≡ successes_in (s ∷ rest) = v.successes_sum ∙ ap successes_in e in
      let times : m.time_sum ≡ time_in (s ∷ rest) = v.times_sum ∙ ap time_in e in
      let timed : m.time_count ≡ timed_in (s ∷ rest) = v.times_count ∙ ap timed_in e in
      record {
        successes_sum = omega arith;
        times_sum = omega arith;
        times_count = omega arith;
        bounded = omega arith;
        capped = capped.1;
      }

  prune_loop-IsAccounted :
      (now : ℕ) (ss : List RequestMetric) (m : ProxyMetrics F)
      → m.requests ≡ ss
      → IsAccounted m
      → IsAccounted (prune_loop fl now ss m)
  unfolding prune_loop
  prune_loop-IsAccounted now [] m e v = v
  prune_loop-IsAccounted now (s ∷ rest) m e v =
      elim (Bool-cases (ltb metrics_window_ms (now - s.timestamp))) [
        | inl t ↦ rw t (
            prune_loop-IsAccounted now rest (forget fl s rest m) (unfold forget in refl)
              (forget-IsAccounted s rest m e v))
        | inr f ↦ rw f v
      ]

  -- What the score is does not matter to the sums.
  rescored :
      {m n : ProxyMetrics F}
      → m.requests ≡ n.requests
      → m.successes ≡ n.successes
      → m.time_sum ≡ n.time_sum
      → m.time_count ≡ n.time_count
      → IsAccounted m
      → IsAccounted n
  rescored r s t c v = record {
    successes_sum = sym s ∙ v.successes_sum ∙ ap successes_in r;
    times_sum = sym t ∙ v.times_sum ∙ ap time_in r;
    times_count = sym c ∙ v.times_count ∙ ap timed_in r;
    bounded = subst (λ l. length l ≤ max_metric_samples) r v.bounded;
    capped = subst (All IsCapped) r v.capped;
  }

  pub prune-IsAccounted :
      (now : ℕ) (m : ProxyMetrics F) → IsAccounted m → IsAccounted (prune fl now m)
  unfolding prune
  prune-IsAccounted now m v =
      rescored (ground arith) (ground arith) (ground arith) (ground arith)
        (prune_loop-IsAccounted now m.requests m refl v)

  remove_first-IsAccounted :
      (ss : List RequestMetric) (m : ProxyMetrics F)
      → m.requests ≡ ss
      → IsAccounted m
      → IsAccounted (remove_first fl ss m)
  unfolding remove_first
  remove_first-IsAccounted [] m e v = v
  remove_first-IsAccounted (s ∷ rest) m e v = forget-IsAccounted s rest m e v

  length-remove_first :
      (ss : List RequestMetric) (m : ProxyMetrics F)
      → m.requests ≡ ss
      → 0 < length ss
      → length (remove_first fl ss m).requests < length ss
  unfolding remove_first forget
  length-remove_first [] m e h = absurd (omega arith)
  length-remove_first (s ∷ rest) m e h = omega arith

  make_room-IsAccounted : (m : ProxyMetrics F) → IsAccounted m → IsAccounted (make_room fl m)
  unfolding make_room remove_oldest
  make_room-IsAccounted m v = elim (Bool-cases (nat_beq (length m.requests) max_metric_samples)) [
    | inl e ↦ rw e (remove_first-IsAccounted m.requests m refl v)
    | inr e ↦ rw e v
  ]

  length-make_room :
      (m : ProxyMetrics F)
      → length m.requests ≤ max_metric_samples
      → length (make_room fl m).requests < max_metric_samples
  unfolding make_room remove_oldest
  length-make_room m h = ground (arith, length-remove_first m.requests m refl)

  append-IsAccounted :
      (now : ℕ) (success : Bool) (latency : Option ℕ) (m : ProxyMetrics F)
      → time_of latency ≤ max_latency_us
      → length m.requests < max_metric_samples
      → IsAccounted m
      → IsAccounted (append fl now success latency m)
  unfolding append
  append-IsAccounted now success latency m c h v =
      let sample : RequestMetric = record {
        timestamp = now;
        success = success;
        latency_us = latency;
      } in
      record {
        successes_sum = omega (arith, v.successes_sum, successes-append m.requests (sample ∷ []));
        times_sum = omega (arith, v.times_sum, time-append m.requests (sample ∷ []));
        times_count = omega (arith, v.times_count, timed-append m.requests (sample ∷ []));
        bounded = omega (arith, length-append m.requests (sample ∷ []));
        capped = All-append IsCapped m.requests (sample ∷ []) v.capped (c, tt);
      }

  cap_latency-le : (latency : Option ℕ) → time_of (cap_latency fl latency) ≤ max_latency_us
  unfolding cap_latency
  cap_latency-le none = omega arith
  cap_latency-le (some t) = ground arith

  -- A new sample keeps the running sums equal to those of the samples, of which there are at most
  -- 2048, each with a latency of at most a day, if that was so before.
  pub push-IsAccounted :
      (now : ℕ) (success : Bool) (latency : Option ℕ) (m : ProxyMetrics F)
      → IsAccounted m
      → IsAccounted (push fl now success latency m)
  unfolding push
  push-IsAccounted now success latency m v =
      let pruned = prune-IsAccounted now m v in
      rescored refl refl refl refl (
        append-IsAccounted now success (cap_latency fl latency) (make_room fl (prune fl now m))
          (cap_latency-le latency) (length-make_room (prune fl now m) pruned.bounded)
          (make_room-IsAccounted (prune fl now m) pruned))

  pub new-IsAccounted : (now : ℕ) → IsAccounted (new fl now)
  unfolding new
  new-IsAccounted now = omega arith

  -- What happens to the metrics of a proxy: samples arrive, and old ones are dropped.
  pub data Event : Type 0 where
    pushes : ℕ → Bool → Option ℕ → Event
    prunes : ℕ → Event

  pub run : List Event → ProxyMetrics F → ProxyMetrics F
  run [] m = m
  run (pushes now success latency ∷ es) m = run es (push fl now success latency m)
  run (prunes now ∷ es) m = run es (prune fl now m)

  pub run-IsAccounted :
      (es : List Event) (m : ProxyMetrics F) → IsAccounted m → IsAccounted (run es m)
  unfolding run
  run-IsAccounted [] m v = v
  run-IsAccounted (pushes now success latency ∷ es) m v =
      run-IsAccounted es (push fl now success latency m) (push-IsAccounted now success latency m v)
  run-IsAccounted (prunes now ∷ es) m v =
      run-IsAccounted es (prune fl now m) (prune-IsAccounted now m v)

  -- Whatever samples arrive, however long their latencies and whatever the clock does, the sum of
  -- the latencies stays within 64 bits, there are at most 2048 samples, and no more successes or
  -- timed samples than samples.
  pub run-in_range :
      (start : ℕ) (es : List Event)
      → let m = run es (new fl start) in
        (m.time_sum < 2 ^ 64)
        × (length m.requests ≤ max_metric_samples)
        × (m.successes ≤ length m.requests)
        × (m.time_count ≤ length m.requests)
  run-in_range start es =
      let v = run-IsAccounted es (new fl start) (new-IsAccounted start) in
      (
        omega (arith, v.times_sum, v.bounded, time-le (run es (new fl start)).requests v.capped),
        v.bounded,
        omega (arith, v.successes_sum, successes-le (run es (new fl start)).requests),
        omega (arith, v.times_count, timed-le (run es (new fl start)).requests),
      )
