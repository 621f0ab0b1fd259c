-- ===== src/Selection.antt =====
-- src-tauri/src/proxy.rs: which proxies may serve a request and in which order they are tried.
-- `is_ready` is `probe_is_ready` of the database, and `affinity` the hash of routing.rs.
pub mod Order
pub mod Choose
pub mod Reserve
mod Examples
use proxy_load.Base.{
  ℕ, zero, suc, ◌+◌, ◌-◌, ◌%◌, ◌^◌, Bool, true, false, not, ◌&&◌, ◌||◌, Option, none, some, List,
  [], ◌∷◌, ◌++◌, if◌then◌else◌, leb, ltb, nat_beq, nat_eq, any, length, is_empty, is_some_and,
  is_none_or, and_then, unwrap_or, String, str_eq, swap_front, position, take, drop, get_elem?,
}
use proxy_load.Base.Float.{Float}
use proxy_load.Base.Map.{Map, get, insert, remove, retain}
use proxy_load.Models.{
  Bytes, ProxyRecord, RoutingPool, HealthPolicy, HealthMode, transport_only, required_probe,
}
use proxy_load.Routing.Snapshot.{RoutingSnapshot, RouteContext}
use proxy_load.Candidate.{
  Candidate, TargetRequest, TargetRouteKey, InboundProtocol, socks5, http_connect, http_forward,
  route_key, route_key_eq, prefer_candidates,
}
use proxy_load.Host.{normalize_host}
use proxy_load.Breaker.{can_attempt_snapshot}
use proxy_load.Metrics
use proxy_load.Metrics.{ProxyMetrics}
use proxy_load.Sticky.{Policy, for_context, prefer}
use proxy_load.Quality
use proxy_load.Quality.{
  TargetQuality, Measurement, socks_target_connect, http_connect_response, is_adaptive,
  exploration_due, multiplier,
}
use proxy_load.Runtime.{Runtime, TargetCircuit, alive}

-- The first of the least by a strict order on candidates, as an index (`min_by_key`).
least_from : (Candidate → Candidate → Bool) → ℕ → ℕ → Candidate → List Candidate → ℕ
least_from lt i best b [] = best
least_from lt i best b (c ∷ cs) =
    least_from lt (suc i) (if lt c b then i else best) (if lt c b then c else b) cs

least : (Candidate → Candidate → Bool) → List Candidate → ℕ
unfolding least_from
least lt [] = 0
least lt (c ∷ cs) = least_from lt 1 0 c cs

insert_by : (Candidate → Candidate → Bool) → Candidate → List Candidate → List Candidate
insert_by lt a [] = a ∷ []
insert_by lt a (x ∷ xs) = if lt x a then x ∷ insert_by lt a xs else a ∷ x ∷ xs

-- `sort_by_key`, which is stable.
sort_by : (Candidate → Candidate → Bool) → List Candidate → List Candidate
unfolding insert_by
sort_by lt [] = []
sort_by lt (x ∷ xs) = insert_by lt x (sort_by lt xs)

-- `rotate_left`.
rotate_left : ℕ → List Candidate → List Candidate
rotate_left n xs = drop n xs ++ take n xs

abbrev id_of : Candidate → ℕ
id_of c = c.config.id

bool_lt : Bool → Bool → Bool
bool_lt a b = not a && b

round_robin : ℕ → List Candidate → List Candidate
unfolding sort_by rotate_left
round_robin last cs =
    let ring = sort_by (λ a b. ltb (id_of a) (id_of b)) cs in
    prefer_candidates (rotate_left (unwrap_or (position (λ c. ltb last (id_of c)) ring) 0) ring)

sticky_host : (ℕ → ℕ) → List Candidate → List Candidate
unfolding sort_by
sticky_host score cs = sort_by (λ a b. ltb (score (id_of b)) (score (id_of a))) cs

module _ {F : Type 0} where
  active_of : Runtime F → ℕ → ℕ
  active_of rt id = unwrap_or (get id rt.active) 0

  -- `(inactive, active, id <= last, id)`, lexicographically.
  fewer_connections : Runtime F → ℕ → Candidate → Candidate → Bool
  unfolding active_of bool_lt
  fewer_connections rt last a b =
      let passed_a = leb (id_of a) last in
      let passed_b = leb (id_of b) last in
      let active_a = active_of rt (id_of a) in
      let active_b = active_of rt (id_of b) in
      if bool_lt a.inactive b.inactive
      then true
      else if bool_lt b.inactive a.inactive
      then false
      else if ltb active_a active_b
      then true
      else if ltb active_b active_a
      then false
      else if bool_lt passed_a passed_b
      then true
      else if bool_lt passed_b passed_a
      then false
      else ltb (id_of a) (id_of b)

  least_connections : Runtime F → ℕ → List Candidate → List Candidate
  unfolding least fewer_connections
  least_connections rt last cs = swap_front cs (least (fewer_connections rt last) cs)

  advance_cursor : ℕ → ℕ → Runtime F → Runtime F
  advance_cursor pool_id proxy_id rt = record rt {
    round_robin = insert pool_id proxy_id rt.round_robin;
  }

  next_sequence : ℕ → Runtime F → ℕ
  next_sequence pool_id rt = (unwrap_or (get pool_id rt.adaptive_sequence) 0 + 1) % 2 ^ 64

  -- `commit_pool_selection`.
  unfoldable pub commit_pool_selection : ℕ → String → ℕ → Runtime F → Runtime F
  unfolding advance_cursor next_sequence
  commit_pool_selection pool_id algorithm proxy_id rt =
      if str_eq algorithm "least_connections" || str_eq algorithm "round_robin"
      then advance_cursor pool_id proxy_id rt
      else if str_eq algorithm "sticky_host"
      then rt
      else (let sequence = next_sequence pool_id rt in
          let counted = record rt {
            adaptive_sequence = insert pool_id sequence rt.adaptive_sequence;
          } in
          if nat_beq (sequence % 16) 0 then advance_cursor pool_id proxy_id counted else counted)

measurement_of : String → InboundProtocol → Option Measurement
measurement_of kind inbound =
    if str_eq kind "socks4" || str_eq kind "socks5"
    then some socks_target_connect
    else if str_eq kind "http" || str_eq kind "https"
    then (elim inbound [
      | socks5 ↦ some http_connect_response
      | http_connect ↦ some http_connect_response
      | http_forward ↦ none
    ])
    else none

module _ (fl : Float) (parse_host : Bytes → Option Bytes) where
  open fl use {F, of_ℕ, literal, add, mul, div, clamp, total_lt}

  -- `quality_key`.
  unfoldable pub quality_key : ProxyRecord → ℕ → TargetRequest → Option Quality.Key
  unfolding measurement_of
  quality_key proxy generation request =
      and_then (measurement_of proxy.proxy_type request.inbound) λ m. some (record {
        proxy = proxy.id;
        generation = generation;
        host = normalize_host parse_host request.original_host;
        destination = normalize_host parse_host request.host;
        port = request.port;
        measurement = m;
      })

  -- `score_of`: the stored counts of a proxy, for one with no recent samples.
  score_of : ProxyRecord → F
  score_of proxy =
      let success = of_ℕ proxy.success_count in
      let total = of_ℕ (proxy.success_count + proxy.fail_count) in
      let success_rate =
        if ltb 0 (proxy.success_count + proxy.fail_count) then div success total else literal 5 1 in
      let latency = Metrics.latency_score fl (and_then proxy.response_time (λ t. some (of_ℕ t))) in
      let spare = 1000 - proxy.priority in
      let priority = div (of_ℕ spare) (of_ℕ 10) in
      clamp
        (add (add (mul success_rate (of_ℕ 70)) (mul latency (literal 25 2)))
          (mul priority (literal 5 2)))
        (literal 1 2) (of_ℕ 100)

  target_key : Option (RoutingSnapshot × TargetRequest) → ProxyRecord → Option Quality.Key
  target_key none proxy = none
  target_key (some (snapshot, request)) proxy =
      and_then (get proxy.id snapshot.node_generations) λ g. quality_key proxy g request

  -- `effective_score`.
  effective_score : ℕ → Option (RoutingSnapshot × TargetRequest) → Runtime F → ProxyRecord → F
  unfolding score_of target_key active_of
  effective_score now context rt proxy =
      let quality : F = elim (get proxy.id rt.metrics) [
        | none ↦ score_of proxy
        | some m ↦ if is_empty m.requests then score_of proxy else m.score
      ] in
      let factor : F =
        if is_adaptive rt.settings.target_quality_mode
        then elim (target_key context proxy) [
          | none ↦ of_ℕ 1
          | some key ↦ multiplier fl key now rt.quality
        ]
        else of_ℕ 1 in
      div (mul quality factor) (of_ℕ (1 + active_of rt proxy.id))
