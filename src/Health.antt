-- ===== src/Health.antt =====
-- src-tauri/src/probe_health.rs and the diagnostics of src-tauri/src/proxy/failure.rs: what a probe
-- shows of a proxy, and when that makes the proxy ready. Times are milliseconds, not negative.
pub mod Hysteresis
pub mod Proof
mod Examples
use proxy_load.Base.{
  ℕ, ◌+◌, ◌-◌, ◌*◌, Bool, true, false, not, ◌&&◌, ◌||◌, Option, none, some, List, [], ◌∷◌,
  if◌then◌else◌, leb, ltb, nat_beq, any, is_some_and, is_empty, length, min,
}
use proxy_load.Models.{HealthPolicy, transport_only, required_probe}

pub data ProbeScope : Type 0 where
  proxy target_route local_route local_resource configuration unknown : ProbeScope

pub data Evidence : Type 0 where
  not_observed not_applicable established accepted rejected failed : Evidence

is_established : Evidence → Bool
is_established established = true
is_established _ = false

is_accepted : Evidence → Bool
is_accepted accepted = true
is_accepted _ = false

is_not_applicable : Evidence → Bool
is_not_applicable not_applicable = true
is_not_applicable _ = false

pub record Diagnostics : Type 0 where
  pub proxy_tcp : Evidence
  pub proxy_auth : Evidence
  pub target_tunnel : Evidence
  pub scope : Option ProbeScope

pub record TestResult : Type 0 where
  pub success : Bool
  pub response_time : ℕ
  pub status_code : Option ℕ
  pub diagnostics : Diagnostics

-- The scopes at which a failure leaves what is known of the proxy intact.
spares_proxy : Option ProbeScope → Bool
spares_proxy none = true
spares_proxy (some target_route) = true
spares_proxy (some _) = false

is_proxy_fault : Option ProbeScope → Bool
is_proxy_fault (some proxy) = true
is_proxy_fault _ = false

-- `remote_failure` of `observe`.
is_remote : Option ProbeScope → Bool
is_remote (some proxy) = true
is_remote (some target_route) = true
is_remote _ = false

-- `ProbeDiagnostics::proxy_proven`.
pub proxy_proven : Diagnostics → Bool
unfolding is_established is_accepted is_not_applicable spares_proxy
proxy_proven d =
    is_established d.proxy_tcp
    && ((is_accepted d.proxy_auth
          || is_not_applicable d.proxy_auth && is_established d.target_tunnel)
        && spares_proxy d.scope)

-- `HealthPolicy::required`.
unfoldable pub required : HealthPolicy → Bool
required policy = elim (policy.mode) [ transport_only ↦ false | required_probe ↦ true ]

-- `HealthPolicy::validate`: whether it returns no error.
pub validate : HealthPolicy → Bool
validate p =
    (leb 30 p.max_age_seconds && leb p.max_age_seconds 86400)
    && ((leb 1 p.failure_threshold && leb p.failure_threshold 10)
        && ((leb 1 p.recovery_threshold && leb p.recovery_threshold 10)
            && (not (is_empty p.expected_statuses)
                && (leb (length p.expected_statuses) 20
                    && not (
                        any
                          (λ s.
                            (not (leb 200 s && leb s 499))
                            || (leb 300 s && ltb s 400 || nat_beq s 407))
                          p.expected_statuses)))))

-- The word of `transport_status`; `unclear` is "unknown".
pub data Transport : Type 0 where
  reachable unreachable unclear : Transport

pub data Readiness : Type 0 where
  unknown_yet ready degraded not_ready : Readiness

pub data Outcome : Type 0 where
  succeeded failing excluded : Outcome

-- `ProbeHealth`; of `last_probe_result` its outcome, time, response time and status.
pub record ProbeObservation : Type 0 where
  pub outcome : Outcome
  pub observed_at : ℕ
  pub response_time : ℕ
  pub status_code : Option ℕ

pub record ProbeHealth : Type 0 where
  pub transport_status : Transport
  pub readiness_status : Readiness
  pub last_probe_result : Option ProbeObservation
  pub probe_success_count : ℕ
  pub probe_failure_count : ℕ
  pub probe_excluded_count : ℕ
  pub statistics_started_at : Option ℕ
  pub consecutive_failures : ℕ
  pub consecutive_successes : ℕ
  pub last_success_at : Option ℕ
  pub fresh : Bool

pub initial : ProbeHealth
initial = record {
  transport_status = unclear;
  readiness_status = unknown_yet;
  last_probe_result = none;
  probe_success_count = 0;
  probe_failure_count = 0;
  probe_excluded_count = 0;
  statistics_started_at = none;
  consecutive_failures = 0;
  consecutive_successes = 0;
  last_success_at = none;
  fresh = false;
}

pub invalidated : ProbeHealth → ProbeHealth
invalidated h = record h {
  fresh = false;
  transport_status = unclear;
  readiness_status = unknown_yet;
  consecutive_failures = 0;
  consecutive_successes = 0;
}

-- `matches!(readiness_status, Ready | Degraded)`.
abbrev pub serves : Readiness → Bool
serves unknown_yet = false
serves ready = true
serves degraded = true
serves not_ready = false

abbrev pub is_ready : Readiness → Bool
is_ready unknown_yet = false
is_ready ready = true
is_ready degraded = false
is_ready not_ready = false

pub proof_current : HealthPolicy → ℕ → ProbeHealth → Bool
proof_current policy now h =
    is_some_and h.last_success_at
      (λ last. leb last now && leb (now - last) (policy.max_age_seconds * 1000))

pub eligible : HealthPolicy → ℕ → ProbeHealth → Bool
unfolding required proof_current
eligible policy now h =
    not (required policy) || (h.fresh && (proof_current policy now h && serves h.readiness_status))

pub expire : HealthPolicy → ℕ → ProbeHealth → ProbeHealth
unfolding proof_current invalidated
expire policy now h =
    if serves h.readiness_status && not (proof_current policy now h) then invalidated h else h

abbrev pub u32_max : ℕ
u32_max = 4294967295

abbrev pub u64_max : ℕ
u64_max = 18446744073709551615

-- The outcome is noted, with the counters that it moves.
note_success : HealthPolicy → ℕ → ProbeHealth → ProbeHealth
unfolding required
note_success policy now h = record h {
  probe_success_count = min u64_max (h.probe_success_count + 1);
  last_success_at = some now;
  consecutive_failures = 0;
  consecutive_successes = min u32_max (h.consecutive_successes + 1);
  readiness_status =
      if not (required policy)
        || leb policy.recovery_threshold (min u32_max (h.consecutive_successes + 1))
      then ready
      else h.readiness_status;
}

note_failure : HealthPolicy → ProbeHealth → ProbeHealth
note_failure policy h = record h {
  probe_failure_count = min u64_max (h.probe_failure_count + 1);
  consecutive_successes = 0;
  consecutive_failures = min u32_max (h.consecutive_failures + 1);
  readiness_status =
      if leb policy.failure_threshold (min u32_max (h.consecutive_failures + 1))
      then not_ready
      else if is_ready h.readiness_status
      then degraded
      else h.readiness_status;
}

note_excluded : ProbeHealth → ProbeHealth
note_excluded h = record h {
  probe_excluded_count = min u64_max (h.probe_excluded_count + 1);
  consecutive_successes = 0;
}

pub outcome_of : TestResult → Outcome
unfolding is_remote
outcome_of r =
    if r.success then succeeded else if is_remote r.diagnostics.scope then failing else excluded

note : HealthPolicy → ℕ → Outcome → ProbeHealth → ProbeHealth
unfolding note_success note_failure note_excluded
note policy now succeeded h = note_success policy now h
note policy now failing h = note_failure policy h
note policy now excluded h = note_excluded h

or_now : ℕ → Option ℕ → Option ℕ
or_now now none = some now
or_now now (some t) = some t

-- `ProbeHealth::observe`.
pub observe : HealthPolicy → ℕ → TestResult → ProbeHealth → ProbeHealth
unfolding proxy_proven is_proxy_fault outcome_of note or_now
observe policy now r h =
    let touched : ProbeHealth = record h {
      statistics_started_at = or_now now h.statistics_started_at;
      fresh = true;
      transport_status =
          if proxy_proven r.diagnostics
          then reachable
          else if is_proxy_fault r.diagnostics.scope
          then unreachable
          else unclear;
    } in
    record (note policy now (outcome_of r) touched) {
      last_probe_result = some (record {
        outcome = outcome_of r;
        observed_at = now;
        response_time = r.response_time;
        status_code = r.status_code;
      });
    }
