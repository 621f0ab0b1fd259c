-- ===== src/Health/Hysteresis.antt =====
-- probe_health.rs: how many observations in a row it takes to become ready or not ready.
use proxy_load.Base.{
  ℕ, ◌+◌, ◌≤◌, ◌≡◌, refl, Bool, true, false, List, [], ◌∷◌, arith, if◌then◌else◌, leb, length, all,
  min,
}
use proxy_load.Models.{HealthPolicy}
use proxy_load.Health.{
  TestResult, ProbeHealth, Outcome, succeeded, failing, excluded, ready, degraded, not_ready,
  unknown_yet, is_ready, observe, note, note_success, note_failure, outcome_of, required, eligible,
  invalidated, u32_max,
}

-- A proxy's observations, in order, with the time of each.
pub observe_all : HealthPolicy → List (TestResult × ℕ) → ProbeHealth → ProbeHealth
observe_all policy [] h = h
observe_all policy ((r, now) ∷ rs) h = observe_all policy rs (observe policy now r h)

unfoldable pub is_failing : Outcome → Bool
is_failing succeeded = false
is_failing failing = true
is_failing excluded = false

unfoldable pub is_succeeded : Outcome → Bool
is_succeeded succeeded = true
is_succeeded failing = false
is_succeeded excluded = false

abbrev pub all_failing : List (TestResult × ℕ) → Bool
all_failing rs = all (λ x. is_failing (outcome_of x.0)) rs

abbrev pub all_succeeded : List (TestResult × ℕ) → Bool
all_succeeded rs = all (λ x. is_succeeded (outcome_of x.0)) rs

note-failing :
    (policy : HealthPolicy) (now : ℕ) (o : Outcome) (h : ProbeHealth)
    → is_failing o ≡ true
    → ((note policy now o h).consecutive_failures ≡ min u32_max (h.consecutive_failures + 1))
      × ((note policy now o h).readiness_status ≡ (
          if leb policy.failure_threshold (min u32_max (h.consecutive_failures + 1))
          then not_ready
          else if is_ready h.readiness_status
          then degraded
          else h.readiness_status))
unfolding is_failing note note_failure
note-failing policy now failing h e = (refl, refl)
note-failing policy now succeeded h e = absurd cc
note-failing policy now excluded h e = absurd cc

observe-failing :
    (policy : HealthPolicy) (now : ℕ) (r : TestResult) (h : ProbeHealth)
    → is_failing (outcome_of r) ≡ true
    → ((observe policy now r h).consecutive_failures ≡ min u32_max (h.consecutive_failures + 1))
      × ((observe policy now r h).readiness_status ≡ (
          if leb policy.failure_threshold (min u32_max (h.consecutive_failures + 1))
          then not_ready
          else if is_ready h.readiness_status
          then degraded
          else h.readiness_status))
unfolding observe
observe-failing policy now r h e = note-failing policy now (outcome_of r) _ e

note-succeeded :
    (policy : HealthPolicy) (now : ℕ) (o : Outcome) (h : ProbeHealth)
    → is_succeeded o ≡ true
    → required policy ≡ true
    → ((note policy now o h).consecutive_successes ≡ min u32_max (h.consecutive_successes + 1))
      × ((note policy now o h).readiness_status ≡ (
          if leb policy.recovery_threshold (min u32_max (h.consecutive_successes + 1))
          then ready
          else h.readiness_status))
unfolding is_succeeded note note_success
note-succeeded policy now succeeded h e q = (refl, rw q refl)
note-succeeded policy now failing h e q = absurd cc
note-succeeded policy now excluded h e q = absurd cc

observe-succeeded :
    (policy : HealthPolicy) (now : ℕ) (r : TestResult) (h : ProbeHealth)
    → is_succeeded (outcome_of r) ≡ true
    → required policy ≡ true
    → ((observe policy now r h).consecutive_successes ≡ min u32_max (h.consecutive_successes + 1))
      × ((observe policy now r h).readiness_status ≡ (
          if leb policy.recovery_threshold (min u32_max (h.consecutive_successes + 1))
          then ready
          else h.readiness_status))
unfolding observe
observe-succeeded policy now r h e q = note-succeeded policy now (outcome_of r) _ e q

failures_block_from :
    (policy : HealthPolicy) (r : TestResult) (now : ℕ) (rs : List (TestResult × ℕ))
    (h : ProbeHealth)
    → policy.failure_threshold ≤ u32_max
    → all_failing ((r, now) ∷ rs) ≡ true
    → policy.failure_threshold ≤ h.consecutive_failures + length ((r, now) ∷ rs)
    → (observe_all policy ((r, now) ∷ rs) h).readiness_status ≡ not_ready
unfolding observe_all
failures_block_from policy r now [] h m f n =
    ground (arith, m, n, observe-failing policy now r h (ground (arith, f)))
failures_block_from policy r now ((r', now') ∷ rs) h m f n =
    failures_block_from policy r' now' rs (observe policy now r h) m (ground (arith, f))
      (ground (arith, m, n, observe-failing policy now r h (ground (arith, f))))

-- After at least one remote failure, and at least as many in a row as the policy's
-- `failure_threshold`, which the 32-bit counter can hold, a proxy whose policy requires a probe
-- is not eligible at any time, whatever was known of it before.
pub failures_block :
    (policy : HealthPolicy) (r : TestResult) (now : ℕ) (rs : List (TestResult × ℕ))
    (h : ProbeHealth) (later : ℕ)
    → required policy ≡ true
    → policy.failure_threshold ≤ u32_max
    → all_failing ((r, now) ∷ rs) ≡ true
    → policy.failure_threshold ≤ length ((r, now) ∷ rs)
    → eligible policy later (observe_all policy ((r, now) ∷ rs) h) ≡ false
unfolding eligible
failures_block policy r now rs h later q m f n =
    ground (arith, q, failures_block_from policy r now rs h m f (omega arith))

recovers_from :
    (policy : HealthPolicy) (rs : List (TestResult × ℕ)) (h : ProbeHealth)
    → required policy ≡ true
    → h.consecutive_successes + length rs ≤ u32_max
    → all_succeeded rs ≡ true
    → h.readiness_status
      ≡ (if leb policy.recovery_threshold h.consecutive_successes then ready else unknown_yet)
    → (observe_all policy rs h).readiness_status ≡ (
        if leb policy.recovery_threshold (h.consecutive_successes + length rs)
        then ready
        else unknown_yet)
unfolding observe_all
recovers_from policy [] h q m f e = ground (arith, e)
recovers_from policy ((r, now) ∷ rs) h q m f e =
    let seen = observe-succeeded policy now r h (ground (arith, f)) q in
    ground (
      arith,
      m,
      e,
      seen,
      recovers_from policy rs (observe policy now r h) q (ground (arith, m, seen))
          (ground (arith, f)) (ground (arith, e, m, seen)),
    )

-- A proxy whose policy requires a probe and that has been invalidated is ready after `n`
-- successful probes, `n` within the 32-bit counter, exactly if `n` reaches the policy's
-- `recovery_threshold`, which is not 0; before that its readiness stays unknown.
pub recovers :
    (policy : HealthPolicy) (rs : List (TestResult × ℕ)) (h : ProbeHealth)
    → required policy ≡ true
    → 1 ≤ policy.recovery_threshold
    → length rs ≤ u32_max
    → all_succeeded rs ≡ true
    → (observe_all policy rs (invalidated h)).readiness_status
      ≡ (if leb policy.recovery_threshold (length rs) then ready else unknown_yet)
unfolding invalidated
recovers policy rs h q t m f =
    ground
      (arith, recovers_from policy rs (invalidated h) q (ground (arith, m)) f (ground (arith, t)))
