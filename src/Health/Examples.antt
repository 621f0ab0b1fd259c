-- ===== src/Health/Examples.antt =====
-- Health at concrete observations of a proxy that must be probed.
use proxy_load.Base.{
  ◌≡◌, refl, true, false, ◌&&◌, ◌+◌, ◌*◌, none, some, [], ◌∷◌, arith, leb, is_some_and,
}
use proxy_load.Models.{HealthPolicy, required_probe}
use proxy_load.Health.{
  TestResult, ProbeHealth, proxy, accepted, established, not_observed, eligible, initial, expire,
  invalidated, ready, serves, required, outcome_of, observe,
}
use proxy_load.Health.Hysteresis.{
  observe_all, failures_block, recovers, all_failing, all_succeeded, is_failing, is_succeeded,
}
use proxy_load.Health.Proof.{Reached, Reached-expire}
use proxy_load.Samples.{policy}

abbrev strict : HealthPolicy
strict = record policy { mode = required_probe }

abbrev success : TestResult
success = record {
  success = true;
  response_time = 20;
  status_code = some 200;
  diagnostics = record {
    proxy_tcp = established;
    proxy_auth = accepted;
    target_tunnel = established;
    scope = none;
  };
}

abbrev failure : TestResult
failure = record {
  success = false;
  response_time = 20;
  status_code = none;
  diagnostics = record {
    proxy_tcp = not_observed;
    proxy_auth = not_observed;
    target_tunnel = not_observed;
    scope = some proxy;
  };
}

is_strict : required strict ≡ true
unfolding required
is_strict = refl

both_fail : all_failing ((failure, 1000) ∷ (failure, 2000) ∷ []) ≡ true
unfolding is_failing outcome_of
both_fail = refl

failures_block_example :
    eligible strict 3000 (observe_all strict ((failure, 1000) ∷ (failure, 2000) ∷ []) initial)
    ≡ false
failures_block_example =
    failures_block strict failure 1000 ((failure, 2000) ∷ []) initial 3000 is_strict (omega arith)
      both_fail (omega arith)

both_succeed : all_succeeded ((success, 1000) ∷ (success, 2000) ∷ []) ≡ true
unfolding is_succeeded outcome_of
both_succeed = refl

recovers_example :
    (observe_all strict
      ((success, 1000) ∷ (success, 2000) ∷ [])
      (invalidated initial)).readiness_status
    ≡ ready
recovers_example =
    recovers strict ((success, 1000) ∷ (success, 2000) ∷ []) initial is_strict (omega arith)
      (omega arith) both_succeed

abbrev seen : ProbeHealth
seen = observe strict 2000 success (observe strict 1000 success initial)

reached : Reached strict 2000 (some 2000) seen
reached =
    Reached.observed 2000 success (omega arith)
      (Reached.observed 1000 success (omega arith) Reached.start)

still_serves : serves (expire strict 3000 seen).readiness_status ≡ true
unfolding expire observe initial
still_serves = refl

Reached-expire_example :
    is_some_and
      (some 2000)
      (λ s. leb s 2000 && (leb s 3000 && leb 3000 (s + strict.max_age_seconds * 1000)))
    ≡ true
Reached-expire_example = Reached-expire reached 3000 still_serves
