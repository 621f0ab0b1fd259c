-- ===== src/Runtime/Scope.antt =====
-- proxy.rs: how far a verdict on one attempt reaches.
use proxy_load.Base.{
  ℕ, ◌≡◌, refl, ap, ◌∙◌, inl, inr, Bool, false, not, Option, none, some, arith, if◌then◌else◌,
  nat_beq, nat_eq, Bool-cases, Option-cases, String, ◌&&◌,
}
use proxy_load.Base.Float.{Float}
use proxy_load.Base.Map.{get, get-insert}
use proxy_load.Models.{Bytes}
use proxy_load.Candidate.{TargetRequest, TargetRouteKey, route_key, route_key_eq, key_beq}
use proxy_load.Breaker.{
  CircuitBreaker, record_success, record_failure, is_opened, cancel_half_open_attempt,
}
use proxy_load.Metrics
use proxy_load.Metrics.{ProxyMetrics}
use proxy_load.Runtime.{
  Runtime, TargetCircuit, proxy, target, breaker_of, with_breaker, record_breaker_success,
  record_breaker_failure_locked, record_route_failure_locked, cancel_target_half_open_attempt,
  cancel_in, fail_target, make_room, mark_inactive, metric_of, with_metric,
  apply_passive_status_locked,
}

module _ {F : Type 0} where
  fail_target-frame :
      (now : ℕ) (key : TargetRouteKey) (o : Option TargetCircuit) (rt : Runtime F)
      → let rt' = fail_target now key o rt in
        (rt'.breakers ≡ rt.breakers) × (rt'.metrics ≡ rt.metrics) × (rt'.pushes ≡ rt.pushes)
  unfolding fail_target
  fail_target-frame now key none rt = ground (arith, Option-cases (make_room now rt))
  fail_target-frame now key (some t) rt = (refl, refl, refl)

  cancel_in-frame :
      (now : ℕ) (key : TargetRouteKey) (o : Option TargetCircuit) (rt : Runtime F)
      → let rt' = cancel_in now key o rt in
        (rt'.breakers ≡ rt.breakers)
        × (rt'.metrics ≡ rt.metrics)
        × ((k : TargetRouteKey) → key_beq key k ≡ false → get k rt'.targets ≡ get k rt.targets)
  unfolding cancel_in
  cancel_in-frame now key none rt = (refl, refl, λ k ne. refl)
  cancel_in-frame now key (some t) rt = (
    refl,
    refl,
    λ k ne. ground (
      arith,
      ne,
      get-insert k key (record t { breaker = cancel_half_open_attempt now t.breaker }) rt.targets,
    ),
  )

  apply_passive_status-frame :
      (id : ℕ) (status : String) (time : Option ℕ) (rt : Runtime F)
      → let rt' = apply_passive_status_locked id status time rt in
        (rt'.breakers ≡ rt.breakers) × (rt'.metrics ≡ rt.metrics) × (rt'.targets ≡ rt.targets)
  unfolding apply_passive_status_locked
  apply_passive_status-frame id status time rt = (ground arith, ground arith, ground arith)

module _ (fl : Float) (parse_host : Bytes → Option Bytes) where
  open fl use {F}

  mark_inactive-frame :
      (now id : ℕ) (rt : Runtime F)
      → let rt' = mark_inactive fl parse_host now id rt in
        (rt'.breakers ≡ rt.breakers)
        × ((j : ℕ) → nat_beq id j ≡ false → get j rt'.metrics ≡ get j rt.metrics)
        × (rt'.targets ≡ rt.targets)
  unfolding mark_inactive
  mark_inactive-frame now id rt =
      let m = record (metric_of fl parse_host now id rt) { pushed_status = some "inactive" } in
      let frame =
        apply_passive_status-frame id "inactive" none (with_metric fl parse_host id m rt) in
      (
        frame.0,
        λ j ne. ap (get j) frame.1 ∙ ground (arith, ne, get-insert j id m rt.metrics),
        frame.2,
      )

  pub breaker_failure-frame :
      (now id : ℕ) (rt : Runtime F)
      → let rt' = record_breaker_failure_locked fl parse_host now id rt in
        ((j : ℕ) → nat_beq id j ≡ false → get j rt'.breakers ≡ get j rt.breakers)
        × ((j : ℕ) → nat_beq id j ≡ false → get j rt'.metrics ≡ get j rt.metrics)
        × (rt'.targets ≡ rt.targets)
  unfolding record_breaker_failure_locked
  breaker_failure-frame now id rt = elim (Bool-cases opens) [
    | inl e ↦ rw e (
      (λ j ne. ap (get j) marked.0 ∙ breakers j ne),
      (λ j ne. marked.1 j ne ∙ metrics j ne),
      marked.2,
    )
    | inr e ↦ rw e (breakers, metrics, refl)
  ]
    where
      pushed : ProxyMetrics F
      pushed = Metrics.push fl now false none (metric_of fl parse_host now id rt)

      counted : Runtime F
      counted = with_metric fl parse_host id pushed rt

      after : CircuitBreaker
      after = record_failure now (breaker_of counted id)

      failed : Runtime F
      failed = with_breaker id after counted

      opens : Bool
      opens = not (is_opened (breaker_of counted id).state) && is_opened after.state

      marked :
          ((mark_inactive fl parse_host now id failed).breakers ≡ failed.breakers)
          × ((j : ℕ)
              → nat_beq id j ≡ false
              → get j (mark_inactive fl parse_host now id failed).metrics ≡ get j failed.metrics)
          × ((mark_inactive fl parse_host now id failed).targets ≡ failed.targets)
      marked = mark_inactive-frame now id failed

      breakers : (j : ℕ) → nat_beq id j ≡ false → get j failed.breakers ≡ get j rt.breakers
      breakers j ne = ground (arith, ne, get-insert j id after rt.breakers)

      metrics : (j : ℕ) → nat_beq id j ≡ false → get j failed.metrics ≡ get j rt.metrics
      metrics j ne = ground (arith, ne, get-insert j id pushed rt.metrics)

  -- A failure behind a working proxy costs the proxy nothing: no metrics and no status change, its
  -- own breaker is reset as after a success, and no other proxy's breaker changes.
  pub target_failure_spares_proxy :
      (now id : ℕ) (request : TargetRequest) (rt : Runtime F)
      → let rt' = record_route_failure_locked fl parse_host now id request target rt in
        (rt'.metrics ≡ rt.metrics)
        × (rt'.pushes ≡ rt.pushes)
        × ((j : ℕ)
            → get j rt'.breakers ≡ (
                if nat_beq id j
                then some (record_success (breaker_of rt id))
                else get j rt.breakers))
  unfolding record_route_failure_locked record_breaker_success
  target_failure_spares_proxy now id request rt =
      let key = route_key parse_host id request in
      let cleared = record_breaker_success id rt in
      let frame = fail_target-frame now key (get key cleared.targets) cleared in
      (
        frame.1,
        frame.2,
        λ j. ap (get j) frame.0 ∙ get-insert j id (record_success (breaker_of rt id)) rt.breakers,
      )

  -- A failure of the proxy itself changes no other proxy's breaker or metrics, and no circuit of
  -- a route but the one that was attempted.
  pub proxy_failure_local :
      (now id j : ℕ) (request : TargetRequest) (key : TargetRouteKey) (rt : Runtime F)
      → nat_beq id j ≡ false
      → key_beq (route_key parse_host id request) key ≡ false
      → let rt' = record_route_failure_locked fl parse_host now id request proxy rt in
        (get j rt'.breakers ≡ get j rt.breakers)
        × (get j rt'.metrics ≡ get j rt.metrics)
        × (get key rt'.targets ≡ get key rt.targets)
  unfolding record_route_failure_locked cancel_target_half_open_attempt
  proxy_failure_local now id j request key rt ne nk =
      let failed = record_breaker_failure_locked fl parse_host now id rt in
      let failure = breaker_failure-frame now id rt in
      let own = route_key parse_host id request in
      let cancel = cancel_in-frame now own (get own failed.targets) failed in
      (
        ap (get j) cancel.0 ∙ failure.0 j ne,
        ap (get j) cancel.1 ∙ failure.1 j ne,
        cancel.2 key nk ∙ ap (get key) failure.2,
      )
