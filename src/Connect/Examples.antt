-- ===== src/Connect/Examples.antt =====
-- Connecting at concrete rounds: the first proxy is dialled and fails, the second one is
-- dialled and serves.
use proxy_load.Base.{ℕ, ◌≡◌, ◌≤◌, refl, true, none, [], ◌∷◌}
use proxy_load.Runtime.{Runtime, target}
use proxy_load.Breaker.{opened}
use proxy_load.Connect.{Round, Wake, connected, failed, connect_with_fail_fast}
use proxy_load.Connect.Rounds.{distinct, dialled, used_dials}
use proxy_load.Connect.Attempts.{connect_tries_once, connect_attempts_capped}
use proxy_load.Connect.Permits.{connect_returns_permits}
use proxy_load.Samples.{numbers, unparsed, spread, always_ready, runtime, breaker, request}

abbrev undisturbed : Runtime ℕ → Runtime ℕ
undisturbed rt = rt

abbrev wake : Wake ℕ
wake = record { others = undisturbed; latest = (1, 1) ∷ (2, 1) ∷ []; now = 6000 }

abbrev failing : Round ℕ
failing = record {
  elapsed = 0;
  wakes = wake ∷ [];
  reserved = 1;
  outcome = failed target;
  attempt_us = 900;
  meanwhile = undisturbed;
  configured = (runtime (breaker opened none)).snapshot;
  now = 6100;
}

abbrev serving : Round ℕ
serving = record failing { elapsed = 100; outcome = connected true 800 }

connect_tries_once_example :
    let end =
      connect_with_fail_fast numbers unparsed spread always_ready request
        (failing ∷ serving ∷ [])
        (runtime (breaker opened none)) in
    distinct (dialled end.1.0.dials) ≡ true
connect_tries_once_example =
    connect_tries_once numbers unparsed spread always_ready request (failing ∷ serving ∷ [])
      (runtime (breaker opened none))

connect_attempts_capped_example :
    let end =
      connect_with_fail_fast numbers unparsed spread always_ready request
        (failing ∷ serving ∷ [])
        (runtime (breaker opened none)) in
    used_dials end.1.0.dials ≤ 3
connect_attempts_capped_example =
    connect_attempts_capped numbers unparsed spread always_ready request (failing ∷ serving ∷ [])
      (runtime (breaker opened none)) refl

connect_returns_permits_example :
    (connect_with_fail_fast numbers unparsed spread always_ready request
      (failing ∷ serving ∷ [])
      (runtime (breaker opened none))).0.global_dials
    ≡ 64
connect_returns_permits_example =
    connect_returns_permits numbers unparsed spread always_ready request (failing ∷ serving ∷ [])
      (runtime (breaker opened none))
      ((((λ rt. refl), tt), λ rt. refl), ((((λ rt. refl), tt), λ rt. refl), tt))
