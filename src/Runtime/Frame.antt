-- ===== src/Runtime/Frame.antt =====
-- proxy.rs: beginning an attempt leaves the snapshot, permits, counts and tokens as they are.
use proxy_load.Base.{
  if◌then◌else◌, ◌∙◌, Option-cases, String, ℕ, ◌≡◌, refl, Bool, true, false, not, ◌||◌, Option,
  none, some, Bool-cases, inl, inr, is_some_and,
}
use proxy_load.Base.Map.{get}
use proxy_load.Base.Float.{Float}
use proxy_load.Models.{Bytes}
use proxy_load.Candidate.{TargetRequest, TargetRouteKey, route_key, route_key_eq}
use proxy_load.Breaker.{can_attempt_snapshot}
use proxy_load.Runtime.{
  remember_for, with_metric, make_room, Lease, FailureScope, fail_new,
  cancel_target_half_open_attempt, record_breaker_success, mark_inactive,
  record_verified_connection_locked, apply_passive_status_locked, record_breaker_failure_locked,
  cancel_in, fail_target, record_route_failure_locked, record_connection_success_locked, held,
  Runtime, TargetCircuit, alive, breaker_of, with_breaker, begin_target, try_begin_attempt_token,
}
use proxy_load.Runtime.{proxy, target, local_route, FailureScope, Lease}
use proxy_load.Sticky.{Policy}
use proxy_load.Base.Map.{remove}

module _ {F : Type 0} where
  begin_target-held :
      (now : ℕ) (token : Option ℕ) (key : TargetRouteKey) (t : Option TargetCircuit)
      (rt : Runtime F)
      → held (begin_target now token key t rt) ≡ held rt
  unfolding begin_target
  begin_target-held now token key none rt = refl
  begin_target-held now token key (some t) rt = refl

module _ (fl : Float) (parse_host : Bytes → Option Bytes) where
  open fl use {F}

  pub try_begin_attempt_token-held :
      (now id : ℕ) (request : TargetRequest) (token : Option ℕ) (rt : Runtime F)
      → held (try_begin_attempt_token fl parse_host now id request token rt).0 ≡ held rt
  unfolding try_begin_attempt_token with_breaker
  try_begin_attempt_token-held now id request token rt =
      let key = route_key parse_host id request in
      elim (Bool-cases (
        not (can_attempt_snapshot now (alive rt) (breaker_of rt id))
        || is_some_and (get key rt.targets)
            (λ t. not (can_attempt_snapshot now (alive rt) t.breaker)))) [
              | inl e ↦ rw e refl
              | inr e ↦ rw e (begin_target-held now token key (get key rt.targets) rt)
            ]

module _ {F : Type 0} where
  if-held :
      (b : Bool) (x y rt : Runtime F)
      → held x ≡ held rt
      → held y ≡ held rt
      → held (if b then x else y) ≡ held rt
  if-held true x y rt h k = h
  if-held false x y rt h k = k

  apply_passive_status_locked-held :
      (id : ℕ) (status : String) (time : Option ℕ) (rt : Runtime F)
      → held (apply_passive_status_locked id status time rt) ≡ held rt
  unfolding apply_passive_status_locked
  apply_passive_status_locked-held id status time rt = if-held _ _ _ rt refl refl

  cancel_in-held :
      (now : ℕ) (key : TargetRouteKey) (t : Option TargetCircuit) (rt : Runtime F)
      → held (cancel_in now key t rt) ≡ held rt
  unfolding cancel_in
  cancel_in-held now key none rt = refl
  cancel_in-held now key (some t) rt = refl

  fail_target-held :
      (now : ℕ) (key : TargetRouteKey) (t : Option TargetCircuit) (rt : Runtime F)
      → held (fail_target now key t rt) ≡ held rt
  unfolding fail_target fail_new
  fail_target-held now key (some t) rt = refl
  fail_target-held now key none rt = elim (Option-cases (make_room now rt)) [
    | inl e ↦ rw (e, fail_new) refl
    | inr (room, e) ↦ rw (e, fail_new) refl
  ]

module _ (fl : Float) (parse_host : Bytes → Option Bytes) where
  open fl use {F}

  record_breaker_failure_locked-held :
      (now id : ℕ) (rt : Runtime F)
      → held (record_breaker_failure_locked fl parse_host now id rt) ≡ held rt
  unfolding record_breaker_failure_locked mark_inactive with_metric with_breaker
  record_breaker_failure_locked-held now id rt =
      if-held _ _ _ rt (apply_passive_status_locked-held id "inactive" none _) refl

  pub record_route_failure_locked-held :
      (now id : ℕ) (request : TargetRequest) (scope : FailureScope) (rt : Runtime F)
      → held (record_route_failure_locked fl parse_host now id request scope rt) ≡ held rt
  unfolding record_route_failure_locked cancel_target_half_open_attempt record_breaker_success
  record_route_failure_locked-held now id request local_route rt = refl
  record_route_failure_locked-held now id request proxy rt =
      cancel_in-held now (route_key parse_host id request) _
        (record_breaker_failure_locked fl parse_host now id rt)
      ∙ record_breaker_failure_locked-held now id rt
  record_route_failure_locked-held now id request target rt =
      fail_target-held now (route_key parse_host id request) _ (record_breaker_success id rt)

  record_connection_success_locked-held :
      (now id latency : ℕ) (rt : Runtime F)
      → held (record_connection_success_locked fl parse_host now id latency rt) ≡ held rt
  unfolding record_connection_success_locked with_metric
  record_connection_success_locked-held now id latency rt =
      if-held _ _ _ rt (apply_passive_status_locked-held id "active" _ _) refl

  remember_for-held :
      (now : ℕ) (lease : Lease) (policy : Option Policy) (rt : Runtime F)
      → held (remember_for fl parse_host now lease policy rt) ≡ held rt
  unfolding remember_for
  remember_for-held now lease none rt = refl
  remember_for-held now lease (some policy) rt = refl

  pub record_verified_connection_locked-held :
      (now : ℕ) (lease : Lease) (request : TargetRequest) (latency : ℕ) (rt : Runtime F)
      → held (record_verified_connection_locked fl parse_host now lease request latency rt)
        ≡ held rt
  unfolding record_verified_connection_locked record_breaker_success
  record_verified_connection_locked-held now lease request latency rt =
      let cleared = record_breaker_success lease.proxy.id rt in
      let reset : Runtime F = record cleared {
        targets = remove (route_key parse_host lease.proxy.id request) cleared.targets;
      } in
      record_connection_success_locked-held now lease.proxy.id latency
        (remember_for fl parse_host now lease lease.failover_policy reset)
      ∙ remember_for-held now lease lease.failover_policy reset
