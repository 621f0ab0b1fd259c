-- ===== src/Health/Proof.antt =====
-- probe_health.rs: a proxy serves only on the strength of a probe that succeeded.
use proxy_load.Base.{
  inl, inr, refl, Bool-cases, some, none, if◌then◌else◌, Option, ℕ, ◌+◌, ◌*◌, ◌≤◌, ◌≡◌, true, ◌&&◌,
  arith, leb, is_some_and,
}
use proxy_load.Models.{HealthPolicy}
use proxy_load.Health.{
  is_remote, TestResult, ProbeHealth, serves, initial, observe, note, note_success, note_failure,
  note_excluded, outcome_of, invalidated, expire, proof_current,
}

-- The health of a proxy after observations at times that do not go back; the indices are the time of
-- the last of them, and the time of the last one that succeeded, which are kept beside the health
-- and not read from it.
pub data Reached (policy : HealthPolicy) : ℕ → Option ℕ → ProbeHealth → Type 0 where
  start : Reached policy 0 none initial
  observed :
      {t : ℕ} {last : Option ℕ} {h : ProbeHealth} (now : ℕ) (r : TestResult)
      → t ≤ now
      → Reached policy t last h
      → Reached policy now (if r.success then some now else last) (observe policy now r h)
  expired :
      {t : ℕ} {last : Option ℕ} {h : ProbeHealth} (now : ℕ)
      → Reached policy t last h
      → Reached policy t last (expire policy now h)
  invalid :
      {t : ℕ} {last : Option ℕ} {h : ProbeHealth}
      → Reached policy t last h
      → Reached policy t last (invalidated h)

-- The last success is the one on record; if it serves there has been one, not later than `t`.
pub IsProven : ℕ → Option ℕ → ProbeHealth → Type 0
IsProven t last h =
    (h.last_success_at ≡ last)
    × (serves h.readiness_status ≡ true → is_some_and last (λ s. leb s t) ≡ true)

note-IsProven :
    (policy : HealthPolicy) (t now : ℕ) (last : Option ℕ) (r : TestResult) (h : ProbeHealth)
    → t ≤ now
    → IsProven t last h
    → IsProven now (if r.success then some now else last) (note policy now (outcome_of r) h)
unfolding IsProven note note_success note_failure note_excluded outcome_of
note-IsProven policy t now last r h l p = elim (Bool-cases r.success) [
  | inl e ↦ rw e (refl, λ s. ground arith)
  | inr e ↦ elim (Bool-cases (is_remote r.diagnostics.scope)) [
    | inl f ↦ rw (e, f) (p.0, λ s. ground (arith, l, p.1, s))
    | inr f ↦ rw (e, f) (p.0, λ s. ground (arith, l, p.1, s))
  ]
]

expire-IsProven :
    (policy : HealthPolicy) (t now : ℕ) (last : Option ℕ) (h : ProbeHealth)
    → IsProven t last h
    → IsProven t last (expire policy now h)
unfolding IsProven expire invalidated
expire-IsProven policy t now last h p = (ground (arith, p.0), λ e. ground (arith, p.1, e))

Reached-IsProven_at :
    {policy : HealthPolicy} {t : ℕ} {last : Option ℕ} {h : ProbeHealth}
    → Reached policy t last h
    → IsProven t last h
unfolding IsProven initial observe invalidated
Reached-IsProven_at start = (refl, λ e. absurd cc)
Reached-IsProven_at {policy} (observed {t} {last} {h} now r l x) =
    unfold note in note-IsProven policy t now last r _ l (Reached-IsProven_at x)
Reached-IsProven_at {policy} (expired {t} {last} {h} now x) =
    expire-IsProven policy t now last h (Reached-IsProven_at x)
Reached-IsProven_at (invalid x) = ((Reached-IsProven_at x).0, λ e. absurd cc)

-- Whatever was observed, for a proxy that still serves once its health has been expired at a time,
-- there was an observation that succeeded, not later than the last observation of any kind, and the
-- last one that did is at that time not in the future and not older than the policy's
-- `max_age_seconds`.
pub Reached-expire :
    {policy : HealthPolicy} {t : ℕ} {last : Option ℕ} {h : ProbeHealth}
    → Reached policy t last h
    → (now : ℕ) → serves (expire policy now h).readiness_status ≡ true
    → is_some_and last (λ s. leb s t && (leb s now && leb now (s + policy.max_age_seconds * 1000)))
      ≡ true
unfolding IsProven expire invalidated proof_current
Reached-expire {policy} {t} {last} {h} x now e = ground (arith, Reached-IsProven_at x, e)
