-- ===== src/Runtime/Bounds.antt =====
-- proxy.rs: the table of target circuits is bounded by `MAX_TARGET_CIRCUITS`.
use proxy_load.Base.{
  ℕ, ◌≤◌, ◌<◌, ◌≡◌, refl, ap, inl, inr, Bool, true, Option, none, some, [], ◌∷◌, arith, length,
  Option-cases, is_some,
}
use proxy_load.Base.Float.{Float}
use proxy_load.Base.Map.{
  Map, get, retain, length-insert-le, length-insert_old, length-remove-lt, length-retain-le,
}
use proxy_load.Models.{Bytes}
use proxy_load.Candidate.{TargetRequest, TargetRouteKey, route_key, route_key_eq, key_beq_iff}
use proxy_load.Runtime.{
  Runtime, TargetCircuit, FailureScope, proxy, target, local_route, record_breaker_success,
  record_breaker_failure_locked, record_route_failure_locked, cancel_target_half_open_attempt,
  cancel_in, fail_target, fail_circuit, make_room, worth_keeping, oldest_idle, earlier,
  max_target_circuits, alive,
}
use proxy_load.Breaker
use proxy_load.Breaker.{cancel_half_open_attempt}
use proxy_load.Runtime.Scope.{breaker_failure-frame}

found_later :
    (k : TargetRouteKey) (t : TargetCircuit) (m : Map TargetRouteKey TargetCircuit)
    (j : TargetRouteKey)
    → is_some (get j m) ≡ true
    → is_some (get j ((k, t) ∷ m)) ≡ true
unfolding get
found_later k t m j h = ground arith

found_here :
    (k : TargetRouteKey) (t : TargetCircuit) (m : Map TargetRouteKey TargetCircuit)
    → is_some (get k ((k, t) ∷ m)) ≡ true
unfolding get
found_here k t m = ground (arith, key_beq_iff k k)

earlier_found :
    (k : TargetRouteKey) (t : TargetCircuit) (m : Map TargetRouteKey TargetCircuit)
    (o : Option (TargetRouteKey × TargetCircuit))
    → ((x : TargetRouteKey × TargetCircuit) → o ≡ some x → is_some (get x.0 m) ≡ true)
    → is_some (get (earlier (k, t) o).0 ((k, t) ∷ m)) ≡ true
unfolding earlier
earlier_found k t m none h = found_here k t m
earlier_found k t m (some y) h = ground (arith, found_here k t m, found_later k t m y.0 (h y refl))

-- The circuit to be evicted is one of the table.
oldest_idle_found :
    (live : ℕ → Bool) (m : Map TargetRouteKey TargetCircuit) (x : TargetRouteKey × TargetCircuit)
    → oldest_idle live m ≡ some x
    → is_some (get x.0 m) ≡ true
unfolding oldest_idle
oldest_idle_found live [] x e = cc
oldest_idle_found live ((k, t) ∷ m) x e = ground (
  arith,
  earlier_found k t m (oldest_idle live m) (oldest_idle_found live m),
  oldest_idle_found live m x,
  found_later k t m x.0,
)

module _ {F : Type 0} where
  make_room-length :
      (now : ℕ) (rt : Runtime F) (room : Map TargetRouteKey TargetCircuit)
      → make_room now rt ≡ some room
      → length rt.targets ≤ max_target_circuits
      → length room < max_target_circuits
  unfolding make_room
  make_room-length now rt room e h =
      let kept = retain (worth_keeping now rt) rt.targets in
      let fits = length-retain-le (worth_keeping now rt) rt.targets in
      elim (Option-cases (oldest_idle (alive rt) kept)) [
        | inl n ↦ ground (arith, e, n, fits)
        | inr (x, m) ↦
            ground
              (arith, e, m, fits, length-remove-lt x.0 kept (oldest_idle_found (alive rt) kept x m))
      ]

  fail_target-length :
      (now : ℕ) (key : TargetRouteKey) (rt : Runtime F)
      → length rt.targets ≤ max_target_circuits
      → length (fail_target now key (get key rt.targets) rt).targets ≤ max_target_circuits
  unfolding fail_target
  fail_target-length now key rt h = elim (Option-cases (get key rt.targets)) [
    | inr (t, e) ↦
        rw (e, fail_target)
          (omega (
            arith,
            length-insert_old key (fail_circuit now rt.settings.circuit t) rt.targets
                (ap is_some e),
          ))
    | inl n ↦ elim (Option-cases (make_room now rt)) [
      | inl full ↦
          rw (n, fail_target, full)
            (omega (arith, length-retain-le (worth_keeping now rt) rt.targets))
      | inr (room, e) ↦
          rw (n, fail_target, e)
            (omega (
              arith,
              make_room-length now rt room e h,
              length-insert-le key
                  (fail_circuit now rt.settings.circuit
                    (record { breaker = Breaker.new rt.settings.circuit; last_failure = now }))
                  room,
            ))
    ]
  ]

  cancel_in-length :
      (now : ℕ) (key : TargetRouteKey) (rt : Runtime F)
      → length (cancel_in now key (get key rt.targets) rt).targets ≤ length rt.targets
  unfolding cancel_in
  cancel_in-length now key rt = elim (Option-cases (get key rt.targets)) [
    | inl n ↦ rw (n, cancel_in) (omega arith)
    | inr (t, e) ↦
        rw (e, cancel_in)
          (length-insert_old key (record t { breaker = cancel_half_open_attempt now t.breaker })
            rt.targets (ap is_some e))
  ]

module _ (fl : Float) (parse_host : Bytes → Option Bytes) where
  open fl use {F}

  -- If at most 4096 target circuits are remembered, that is so after a failure of any scope.
  pub record_route_failure-length :
      (now id : ℕ) (request : TargetRequest) (scope : FailureScope) (rt : Runtime F)
      → length rt.targets ≤ max_target_circuits
      → length (record_route_failure_locked fl parse_host now id request scope rt).targets
        ≤ max_target_circuits
  unfolding record_route_failure_locked record_breaker_success cancel_target_half_open_attempt
  record_route_failure-length now id request local_route rt h = h
  record_route_failure-length now id request proxy rt h =
      let failed = record_breaker_failure_locked fl parse_host now id rt in
      let key = route_key parse_host id request in
      omega (
        arith,
        cancel_in-length now key failed,
        ap (length {A = TargetRouteKey × TargetCircuit})
            (breaker_failure-frame fl parse_host now id rt).2,
      )
  record_route_failure-length now id request target rt h =
      fail_target-length now (route_key parse_host id request) (record_breaker_success id rt) h
