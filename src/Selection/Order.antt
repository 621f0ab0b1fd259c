-- ===== src/Selection/Order.antt =====
-- proxy.rs: the adaptive order, and `order_proxies_in_pool`.
pub mod Permutes
pub mod Frame
use proxy_load.Base.{
  ℕ, zero, suc, ◌+◌, ◌%◌, ◌^◌, Bool, true, false, not, ◌&&◌, ◌||◌, Option, none, some, List, [],
  ◌∷◌, if◌then◌else◌, leb, ltb, nat_beq, nat_eq, any, is_some_and, is_none_or, unwrap_or, String,
  str_eq, swap_front,
}
use proxy_load.Base.Float.{Float}
use proxy_load.Base.Map.{Map, get, insert, retain}
use proxy_load.Models.{Bytes, ProxyRecord}
use proxy_load.Routing.Snapshot.{RoutingSnapshot}
use proxy_load.Candidate.{Candidate, TargetRequest, prefer_candidates}
use proxy_load.Metrics
use proxy_load.Metrics.{ProxyMetrics}
use proxy_load.Quality.{is_adaptive, exploration_due}
use proxy_load.Runtime.{Runtime}
use proxy_load.Selection.{
  id_of, bool_lt, least_from, least_connections, round_robin, sticky_host, next_sequence,
  commit_pool_selection, effective_score, target_key,
}

abbrev pub Target : Type 0
Target = Option (RoutingSnapshot × TargetRequest)

-- The last of the greatest, as an index (`max_by`); `gt` says that a comparison is `Greater`.
greatest_from : (Candidate → Candidate → Bool) → ℕ → ℕ → Candidate → List Candidate → ℕ
greatest_from gt i best b [] = best
greatest_from gt i best b (c ∷ cs) =
    greatest_from gt (suc i) (if gt b c then best else i) (if gt b c then b else c) cs

greatest : (Candidate → Candidate → Bool) → List Candidate → ℕ
unfolding greatest_from
greatest gt [] = 0
greatest gt (c ∷ cs) = greatest_from gt 1 0 c cs

-- The first of the least by `(id <= last, id)` among the candidates that pass the test.
first_in_ring : (Candidate → Bool) → ℕ → ℕ → Option (ℕ × Candidate) → List Candidate → Option ℕ
first_in_ring test last i none [] = none
first_in_ring test last i (some (n, b)) [] = some n
first_in_ring test last i none (c ∷ cs) =
    first_in_ring test last (suc i) (if test c then some (i, c) else none) cs
first_in_ring test last i (some (n, b)) (c ∷ cs) =
    first_in_ring test last (suc i)
      (if test c
          && (bool_lt (leb (id_of c) last) (leb (id_of b) last)
              || not (bool_lt (leb (id_of b) last) (leb (id_of c) last)) && ltb (id_of c) (id_of b))
        then some (i, c)
        else some (n, b))
      cs

module _ (fl : Float) (parse_host : Bytes → Option Bytes) where
  open fl use {F, total_lt}

  prune_metric : ℕ → ℕ → Option (ProxyMetrics F) → Runtime F → Runtime F
  prune_metric now id none rt = rt
  prune_metric now id (some m) rt = record rt {
    metrics = insert id (Metrics.prune fl now m) rt.metrics;
  }

  prune_metrics : ℕ → List Candidate → Runtime F → Runtime F
  unfolding prune_metric
  prune_metrics now [] rt = rt
  prune_metrics now (c ∷ cs) rt =
      prune_metrics now cs (prune_metric now (id_of c) (get (id_of c) rt.metrics) rt)

  -- `adaptive_sequence` loses the pools that are gone, and the candidates' metrics their old samples.
  refresh : ℕ → List Candidate → Runtime F → Runtime F
  unfolding prune_metrics
  refresh now cs rt = prune_metrics now cs (record rt {
    adaptive_sequence =
        retain (λ pool n. nat_beq pool 0 || any (λ p. nat_beq p.id pool) rt.snapshot.pools)
          rt.adaptive_sequence;
  })

  -- A proxy about which too little is known, or a route that is due to be explored.
  wants_learning : ℕ → Target → Runtime F → Candidate → Bool
  wants_learning now context rt c =
      not c.inactive
      && (is_none_or (get (id_of c) rt.metrics) (λ m. ltb 0 m.learning_remaining)
          || is_adaptive rt.settings.target_quality_mode
            && is_some_and (target_key fl parse_host context c.config)
                (λ key. exploration_due key now rt.quality))

  -- Active before inactive, then the greater score, then the smaller identifier.
  outranks : ℕ → Target → Runtime F → Candidate → Candidate → Bool
  outranks now context rt a b =
      let score_a = effective_score fl parse_host now context rt a.config in
      let score_b = effective_score fl parse_host now context rt b.config in
      if bool_lt a.inactive b.inactive
      then true
      else if bool_lt b.inactive a.inactive
      then false
      else if total_lt score_b score_a
      then true
      else if total_lt score_a score_b
      then false
      else ltb (id_of a) (id_of b)

  -- Every sixteenth selection of a pool goes to a proxy that wants learning, if there is one.
  adaptive_index : ℕ → ℕ → Target → Runtime F → List Candidate → ℕ
  unfolding first_in_ring wants_learning outranks greatest
  adaptive_index now pool_id context rt cs =
      let last = unwrap_or (get pool_id rt.round_robin) 0 in
      let learner =
        if nat_beq (next_sequence pool_id rt % 16) 0
        then first_in_ring (wants_learning now context rt) last 0 none cs
        else none in
      unwrap_or learner (greatest (outranks now context rt) cs)

  -- The `match algorithm` of `order_proxies_in_pool`.
  pub arrange :
      (ℕ → ℕ) → ℕ → String → ℕ → Target → Runtime F → List Candidate → Runtime F × List Candidate
  unfolding refresh adaptive_index
  arrange score now algorithm pool_id context rt cs =
      let last = unwrap_or (get pool_id rt.round_robin) 0 in
      if str_eq algorithm "least_connections"
      then (rt, least_connections rt last cs)
      else if str_eq algorithm "round_robin"
      then (rt, round_robin last cs)
      else if str_eq algorithm "sticky_host"
      then (rt, sticky_host score cs)
      else (let fresh = refresh now cs rt in
          (fresh, swap_front cs (adaptive_index now pool_id context fresh cs)))

  commit_first : Bool → ℕ → String → List Candidate → Runtime F → Runtime F
  commit_first commit pool_id algorithm [] rt = rt
  commit_first commit pool_id algorithm (c ∷ cs) rt =
      if commit then commit_pool_selection pool_id algorithm (id_of c) rt else rt

  -- `order_proxies_in_pool`; `score` is `affinity` at the pool and the host.
  pub order_proxies_in_pool :
      (ℕ → ℕ)
      → ℕ
      → String
      → ℕ
      → Bool
      → Target
      → Runtime F
      → List Candidate
      → Runtime F × List Candidate
  unfolding arrange commit_first
  order_proxies_in_pool score now algorithm pool_id commit context rt [] = (rt, [])
  order_proxies_in_pool score now algorithm pool_id commit context rt (c ∷ cs) =
      let (rt', arranged) = arrange score now algorithm pool_id context rt (c ∷ cs) in
      let ordered = prefer_candidates arranged in
      (commit_first commit pool_id algorithm ordered rt', ordered)
