-- ===== src/Runtime/Examples.antt =====
-- The runtime at a concrete state.
use proxy_load.Base.{
  ℕ, ◌≡◌, ◌≤◌, refl, true, false, none, some, [], arith, length, nat_beq, if◌then◌else◌, nat_eq,
}
use proxy_load.Base.Map.{get}
use proxy_load.Candidate.{route_key, route_key_eq, TargetRouteKey, key_beq}
use proxy_load.Breaker.{
  opened, closed, record_success, apply_config, can_attempt_snapshot, try_begin_attempt,
}
use proxy_load.Runtime.{
  Runtime, FailureScope, proxy, target, breaker_of, record_route_failure_locked,
  try_begin_attempt_token, max_target_circuits,
}
use proxy_load.Runtime.Scope.{target_failure_spares_proxy, proxy_failure_local}
use proxy_load.Runtime.Bounds.{record_route_failure-length}
use proxy_load.Samples.{numbers, unparsed, runtime, breaker, request}

-- The state after a failure of the target, or of the proxy, at 9000 ms.
abbrev after : FailureScope → Runtime ℕ
after scope =
    record_route_failure_locked numbers unparsed 9000 1 request scope
      (runtime (breaker closed none))

abbrev elsewhere : TargetRouteKey
elsewhere = record { proxy_id = 2; original_host = []; resolved_host = []; port = 80 }

target_failure_spares_proxy_example :
    ((after target).metrics ≡ (runtime (breaker closed none)).metrics)
    × ((after target).pushes ≡ (runtime (breaker closed none)).pushes)
    × ((j : ℕ)
        → get j (after target).breakers ≡ (
            if nat_beq 1 j
            then some (record_success (breaker_of (runtime (breaker closed none)) 1))
            else get j (runtime (breaker closed none)).breakers))
target_failure_spares_proxy_example =
    target_failure_spares_proxy numbers unparsed 9000 1 request (runtime (breaker closed none))

elsewhere_differs : key_beq (route_key unparsed 1 request) elsewhere ≡ false
unfolding route_key
elsewhere_differs = refl

proxy_failure_local_example :
    (get 2 (after proxy).breakers ≡ get 2 (runtime (breaker closed none)).breakers)
    × (get 2 (after proxy).metrics ≡ get 2 (runtime (breaker closed none)).metrics)
    × (get elsewhere (after proxy).targets ≡ get elsewhere (runtime (breaker closed none)).targets)
proxy_failure_local_example =
    proxy_failure_local numbers unparsed 9000 1 2 request elsewhere (runtime (breaker closed none))
      refl elsewhere_differs

opened_there : (breaker_of (runtime (breaker opened none)) 1).state ≡ opened
unfolding breaker_of get apply_config
opened_there = refl

begins_there :
    (try_begin_attempt_token numbers unparsed 9000 1 request
      (some 6)
      (runtime (breaker opened none))).1
    ≡ true
unfolding try_begin_attempt_token get apply_config can_attempt_snapshot try_begin_attempt
begins_there = refl

record_route_failure-length_example : length (after target).targets ≤ max_target_circuits
record_route_failure-length_example =
    record_route_failure-length numbers unparsed 9000 1 request target
      (runtime (breaker closed none)) (omega arith)
