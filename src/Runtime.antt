-- ===== src/Runtime.antt =====
-- src-tauri/src/proxy.rs: the state of `ProxyRuntime` and the verdicts on attempts.
-- The locks of the code make each of these operations one step; an operation reads the clock once.
-- A lease owns a token, and `live` lists the tokens of the leases that have not been dropped.
pub mod Scope
pub mod Frame
pub mod Bounds
pub mod Ownership
mod Examples
use proxy_load.Base.{
  ℕ, zero, suc, ◌+◌, ◌-◌, ◌/◌, Bool, true, false, not, ◌&&◌, ◌||◌, Option, none, some, List, [],
  ◌∷◌, ◌++◌, if◌then◌else◌, leb, ltb, nat_beq, nat_eq, any, length, is_some, is_some_and,
  is_none_or, unwrap_or, String, str_eq, max, min,
}
use proxy_load.Base.Float.{Float}
use proxy_load.Base.Map.{Map, get, insert, remove, retain}
use proxy_load.Models.{Bytes, ProxyRecord, RoutingPool}
use proxy_load.Routing.Snapshot.{RoutingSnapshot}
use proxy_load.Routing.Snapshot
use proxy_load.Candidate.{Candidate, TargetRequest, TargetRouteKey, route_key, route_key_eq}
use proxy_load.Breaker
use proxy_load.Breaker.{
  CircuitConfig, CircuitBreaker, apply_config, can_attempt_snapshot, try_begin_attempt, hold,
  half_open_in_flight, record_success, record_failure, cancel_half_open_attempt, is_opened,
}
use proxy_load.Metrics
use proxy_load.Metrics.{ProxyMetrics, metrics_window_ms}
use proxy_load.Sticky.{StickyRoutes, Policy, remember}
use proxy_load.Quality.{TargetQuality, Mode}

abbrev pub max_target_circuits : ℕ
max_target_circuits = 4096

pub record TargetCircuit : Type 0 where
  pub breaker : CircuitBreaker
  pub last_failure : ℕ

-- `FailureScope` of proxy.rs.
pub data FailureScope : Type 0 where
  proxy target local_route : FailureScope

pub record FailFastConfig : Type 0 where
  pub enabled : Bool
  pub max_attempts : ℕ
  pub attempt_timeout_ms : ℕ
  pub total_timeout_ms : ℕ

pub record InboundAuth : Type 0 where
  pub enabled : Bool
  pub username : String
  pub password : String

pub record RuntimeSettings : Type 0 where
  pub inbound_auth : InboundAuth
  pub circuit : CircuitConfig
  pub fail_fast : FailFastConfig
  pub algorithm : String
  pub target_quality_mode : Mode

-- A status change handed to the database worker.
pub record StatusPush : Type 0 where
  pub proxy_id : ℕ
  pub status : String
  pub response_time : Option ℕ

-- `ConnectionLease`, with whether it still has the permits to dial.
pub record Lease : Type 0 where
  pub proxy : ProxyRecord
  pub generation : ℕ
  pub attempt : ℕ
  pub dialing : Bool
  pub failover_policy : Option Policy

pub record Runtime (F : Type 0) : Type 0 where
  pub snapshot : RoutingSnapshot
  pub settings : RuntimeSettings
  pub metrics : Map ℕ (ProxyMetrics F)
  pub breakers : Map ℕ CircuitBreaker
  pub targets : Map TargetRouteKey TargetCircuit
  pub quality : TargetQuality F
  pub active : Map ℕ ℕ
  pub dial_slots : Map ℕ ℕ
  pub max_proxy_dials : ℕ
  pub global_dials : ℕ
  pub round_robin : Map ℕ ℕ
  pub adaptive_sequence : Map ℕ ℕ
  pub sticky : StickyRoutes
  pub live : List ℕ
  pub next_token : ℕ
  pub pushes : List StatusPush

-- What choosing a proxy and beginning an attempt through it leave alone.
abbrev pub held : {F : Type 0} → Runtime F → RoutingSnapshot × (ℕ × (List ℕ × (Map ℕ ℕ × Map ℕ ℕ)))
held rt = (rt.snapshot, (rt.global_dials, (rt.live, (rt.active, rt.dial_slots))))

earlier :
    TargetRouteKey × TargetCircuit
    → Option (TargetRouteKey × TargetCircuit)
    → TargetRouteKey × TargetCircuit
earlier x none = x
earlier x (some y) = if ltb y.1.last_failure x.1.last_failure then y else x

-- The first of the oldest circuits with no half-open attempt in flight.
oldest_idle :
    (ℕ → Bool) → Map TargetRouteKey TargetCircuit → Option (TargetRouteKey × TargetCircuit)
unfolding earlier
oldest_idle live [] = none
oldest_idle live (x ∷ xs) =
    if half_open_in_flight live x.1.breaker
    then oldest_idle live xs
    else some (earlier x (oldest_idle live xs))

fail_circuit : ℕ → CircuitConfig → TargetCircuit → TargetCircuit
fail_circuit now config t = record {
  breaker = record_failure now (apply_config config t.breaker);
  last_failure = now;
}

module _ {F : Type 0} where
  unfoldable pub alive : Runtime F → ℕ → Bool
  alive rt t = any (nat_beq t) rt.live

  -- `breakers.entry(id).or_insert_with(...)`, then `apply_config`.
  unfoldable pub breaker_of : Runtime F → ℕ → CircuitBreaker
  breaker_of rt id =
      apply_config rt.settings.circuit
        (unwrap_or (get id rt.breakers) (Breaker.new rt.settings.circuit))

  with_breaker : ℕ → CircuitBreaker → Runtime F → Runtime F
  with_breaker id b rt = record rt { breakers = insert id b rt.breakers }

  with_target : TargetRouteKey → TargetCircuit → Runtime F → Runtime F
  with_target key t rt = record rt { targets = insert key t rt.targets }

  begin_target : ℕ → Option ℕ → TargetRouteKey → Option TargetCircuit → Runtime F → Runtime F
  unfolding with_target alive
  begin_target now token key none rt = rt
  begin_target now token key (some t) rt =
      with_target key
        (record t { breaker = hold token (try_begin_attempt now (alive rt) t.breaker).0 }) rt

  -- `record_breaker_success`.
  unfoldable pub record_breaker_success : ℕ → Runtime F → Runtime F
  unfolding with_breaker breaker_of
  record_breaker_success id rt = with_breaker id (record_success (breaker_of rt id)) rt

  cancel_in : ℕ → TargetRouteKey → Option TargetCircuit → Runtime F → Runtime F
  unfolding with_target
  cancel_in now key none rt = rt
  cancel_in now key (some t) rt =
      with_target key (record t { breaker = cancel_half_open_attempt now t.breaker }) rt

  -- `apply_passive_status_locked`: only for a proxy of the current snapshot.
  unfoldable pub apply_passive_status_locked : ℕ → String → Option ℕ → Runtime F → Runtime F
  apply_passive_status_locked id status time rt =
      if any (λ p. nat_beq p.id id) rt.snapshot.proxies
      then record rt {
        pushes = rt.pushes ++ record { proxy_id = id; status = status; response_time = time } ∷ [];
      }
      else rt

  -- Which target circuits are kept when a new one is to be made.
  worth_keeping : ℕ → Runtime F → TargetRouteKey → TargetCircuit → Bool
  unfolding alive
  worth_keeping now rt key t =
      half_open_in_flight (alive rt) t.breaker
      || ltb (now - t.last_failure) (max metrics_window_ms t.breaker.timeout_ms)

  -- The target circuits with room for one more; none if there is no room to be made.
  make_room : ℕ → Runtime F → Option (Map TargetRouteKey TargetCircuit)
  unfolding worth_keeping oldest_idle alive
  make_room now rt =
      let kept = retain (worth_keeping now rt) rt.targets in
      if leb max_target_circuits (length kept)
      then elim (oldest_idle (alive rt) kept) [ none ↦ none | some x ↦ some (remove x.0 kept) ]
      else some kept

  fail_new : ℕ → TargetRouteKey → Option (Map TargetRouteKey TargetCircuit) → Runtime F → Runtime F
  unfolding fail_circuit
  fail_new now key none rt = record rt { targets = retain (worth_keeping now rt) rt.targets }
  fail_new now key (some room) rt = record rt {
    targets =
        insert key
          (fail_circuit now rt.settings.circuit
            (record { breaker = Breaker.new rt.settings.circuit; last_failure = now }))
          room;
  }

  fail_target : ℕ → TargetRouteKey → Option TargetCircuit → Runtime F → Runtime F
  unfolding fail_new make_room with_target
  fail_target now key none rt = fail_new now key (make_room now rt) rt
  fail_target now key (some t) rt = with_target key (fail_circuit now rt.settings.circuit t) rt

module _ (fl : Float) (parse_host : Bytes → Option Bytes) where
  open fl use {F}

  -- `try_begin_attempt_token`.
  unfoldable pub try_begin_attempt_token :
      ℕ → ℕ → TargetRequest → Option ℕ → Runtime F → Runtime F × Bool
  unfolding alive breaker_of with_breaker begin_target
  try_begin_attempt_token now id request token rt =
      let breaker = breaker_of rt id in
      let key = route_key parse_host id request in
      if not (can_attempt_snapshot now (alive rt) breaker)
        || is_some_and (get key rt.targets)
            (λ t. not (can_attempt_snapshot now (alive rt) t.breaker))
      then (with_breaker id breaker rt, false)
      else (
        with_breaker id (hold token (try_begin_attempt now (alive rt) breaker).0)
            (begin_target now token key (get key rt.targets) rt),
        (try_begin_attempt now (alive rt) breaker).1,
      )

  -- `cancel_target_half_open_attempt`.
  unfoldable pub cancel_target_half_open_attempt : ℕ → ℕ → TargetRequest → Runtime F → Runtime F
  unfolding cancel_in
  cancel_target_half_open_attempt now id request rt =
      let key = route_key parse_host id request in cancel_in now key (get key rt.targets) rt

  metric_of : ℕ → ℕ → Runtime F → ProxyMetrics F
  metric_of now id rt = unwrap_or (get id rt.metrics) (Metrics.new fl now)

  with_metric : ℕ → ProxyMetrics F → Runtime F → Runtime F
  with_metric id m rt = record rt { metrics = insert id m rt.metrics }

  mark_inactive : ℕ → ℕ → Runtime F → Runtime F
  unfolding metric_of with_metric apply_passive_status_locked
  mark_inactive now id rt =
      apply_passive_status_locked id "inactive" none
        (with_metric id (record (metric_of now id rt) { pushed_status = some "inactive" }) rt)

  -- `record_breaker_failure_locked`.
  unfoldable pub record_breaker_failure_locked : ℕ → ℕ → Runtime F → Runtime F
  unfolding metric_of with_metric mark_inactive breaker_of with_breaker
  record_breaker_failure_locked now id rt =
      let counted = with_metric id (Metrics.push fl now false none (metric_of now id rt)) rt in
      let before = breaker_of counted id in
      let after = record_failure now before in
      let failed = with_breaker id after counted in
      if not (is_opened before.state) && is_opened after.state
      then mark_inactive now id failed
      else failed

  -- `record_route_failure_locked`.
  unfoldable pub record_route_failure_locked :
      ℕ → ℕ → TargetRequest → FailureScope → Runtime F → Runtime F
  unfolding record_breaker_failure_locked cancel_target_half_open_attempt record_breaker_success
      fail_target
  record_route_failure_locked now id request local_route rt = rt
  record_route_failure_locked now id request proxy rt =
      cancel_target_half_open_attempt now id request (record_breaker_failure_locked now id rt)
  record_route_failure_locked now id request target rt =
      let cleared = record_breaker_success id rt in
      let key = route_key parse_host id request in
      fail_target now key (get key cleared.targets) cleared

  owns : ℕ → CircuitBreaker → Bool
  owns token b = is_none_or b.attempt (λ t. nat_beq t token)

  -- `owns_current_attempt`.
  unfoldable pub owns_current_attempt : Lease → TargetRequest → Runtime F → Bool
  unfolding owns
  owns_current_attempt lease request rt =
      is_some_and (get lease.proxy.id rt.snapshot.node_generations)
        (λ g. nat_beq g lease.generation)
      && (is_none_or (get lease.proxy.id rt.breakers) (owns lease.attempt)
          && is_none_or (get (route_key parse_host lease.proxy.id request) rt.targets)
              (λ t. owns lease.attempt t.breaker))

  relearn : ProxyMetrics F → ProxyMetrics F
  relearn m =
      if is_some_and m.pushed_status (λ s. str_eq s "inactive")
      then record m { learning_remaining = 3 }
      else m

  -- `record_connection_success_locked`.
  unfoldable pub record_connection_success_locked : ℕ → ℕ → ℕ → Runtime F → Runtime F
  unfolding metric_of with_metric relearn apply_passive_status_locked
  record_connection_success_locked now id latency_us rt =
      let metric = metric_of now id rt in
      let changed = not (is_some_and metric.pushed_status (λ s. str_eq s "active")) in
      let pushed = Metrics.push fl now true (some latency_us) (relearn metric) in
      let counted = with_metric id (record pushed { pushed_status = some "active" }) rt in
      if changed
      then apply_passive_status_locked id "active" (some (min latency_us 86400000000 / 1000))
          counted
      else counted

  remember_for : ℕ → Lease → Option Policy → Runtime F → Runtime F
  remember_for now lease none rt = rt
  remember_for now lease (some policy) rt = record rt {
    sticky = remember now policy rt.snapshot lease.proxy.id lease.generation rt.sticky;
  }

  -- `record_verified_connection_locked`.
  unfoldable pub record_verified_connection_locked :
      ℕ → Lease → TargetRequest → ℕ → Runtime F → Runtime F
  unfolding record_breaker_success remember_for record_connection_success_locked
  record_verified_connection_locked now lease request latency_us rt =
      let id = lease.proxy.id in
      let cleared = record_breaker_success id rt in
      let reset = record cleared {
        targets = remove (route_key parse_host id request) cleared.targets;
      } in
      record_connection_success_locked now id latency_us
        (remember_for now lease lease.failover_policy reset)

  -- `observe_forward_response`.
  unfoldable pub observe_forward_response :
      ℕ → Lease → TargetRequest → ℕ → Bool → ℕ → Runtime F → Runtime F × Bool
  unfolding owns_current_attempt record_route_failure_locked record_verified_connection_locked
  observe_forward_response now lease request status already_verified latency_us rt =
      if not (owns_current_attempt lease request rt)
      then (rt, false)
      else if nat_beq status 407
      then (record_route_failure_locked now lease.proxy.id request proxy rt, true)
      else if already_verified
      then (rt, true)
      else (record_verified_connection_locked now lease request latency_us rt, true)

  -- `reset_proxy_state`. A slot is in use by some lease exactly when a permit is out.
  unfoldable pub reset_proxy_state : ℕ → Runtime F → Runtime F
  reset_proxy_state id rt = record rt {
    dial_slots = retain (λ i free. not (nat_beq i id) || ltb free rt.max_proxy_dials) rt.dial_slots;
    metrics = remove id rt.metrics;
    breakers = remove id rt.breakers;
    targets = retain (λ key t. not (nat_beq key.proxy_id id)) rt.targets;
  }
