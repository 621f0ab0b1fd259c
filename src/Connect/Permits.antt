-- ===== src/Connect/Permits.antt =====
-- src-tauri/src/proxy.rs: `connect_with_fail_fast` gives back the global permits that it takes.
use proxy_load.Base.{
  some, none, ◌-◌, All, ◌∙◌, Option-cases, ap, ℕ, ◌+◌, ◌≡◌, refl, Bool, true, false, not, ◌&&◌,
  ◌||◌, Option, List, [], ◌∷◌, arith, leb, nat_beq, nat_eq, Bool-cases, inl, inr, subst,
}
use proxy_load.Base.Float.{Float}
use proxy_load.Models.{Bytes, ProxyRecord}
use proxy_load.Candidate.{TargetRequest}
use proxy_load.Runtime.{
  proxy, target, local_route, FailureScope, Runtime, Lease, FailFastConfig, owns_current_attempt,
}
use proxy_load.Selection.Reserve.{Reserved, leased, nothing, refused, out_of_fuel}
use proxy_load.Selection.Reserve.Turns.{settled}
use proxy_load.Connect.{
  release_permits, undialing, record_target_quality, verified, penalize, Wake, Outcome, connected,
  failed, Round, Progress, Waited, waited, late, Next, finish, proceed, start, exclude,
  count_attempt, take_global, wait_on, try_with_permit, reserve_proxy, conclude, attempt,
  after_wait, connect_round, connect_loop, connect_with_fail_fast, proxy_configuration_is_current,
  note_dial,
}
use proxy_load.Connect.Attempts.{Next-cases}
use proxy_load.Connect.Rounds.{wait_settled, reserve_proxy-settled}
use proxy_load.Selection.Reserve.Permits.{
  release_permits-dials, drop_lease-dials, Keeps, try_reserve_proxy-Keeps,
}
use proxy_load.Runtime.Frame.{
  record_route_failure_locked-held, record_verified_connection_locked-held,
}
use proxy_load.Quality.{is_off}
use proxy_load.Selection.{quality_key}

-- What the others do in a round leaves as many global permits as there were.
abbrev pub IsSteady : {F : Type 0} → Round F → Type 0
IsSteady {F} round =
    All (λ (w : Wake F). (rt : Runtime F) → (w.others rt).global_dials ≡ rt.global_dials)
      round.wakes
    × ((rt : Runtime F) → (round.meanwhile rt).global_dials ≡ rt.global_dials)

-- Out of `free` permits: a lease has one of them.
abbrev WaitKeeps : {F : Type 0} → ℕ → Runtime F × Waited → Type 0
WaitKeeps free (rt, late) = rt.global_dials ≡ free
WaitKeeps free (rt, waited (leased lease)) = (rt.global_dials + 1 ≡ free) × (lease.dialing ≡ true)
WaitKeeps free (rt, waited (nothing full)) = rt.global_dials ≡ free
WaitKeeps free (rt, waited (refused e)) = rt.global_dials ≡ free
WaitKeeps free (rt, waited out_of_fuel) = Unit

abbrev NextKeeps : {F : Type 0} → ℕ → Next F → Type 0
NextKeeps free (finish rt progress ended) = rt.global_dials ≡ free
NextKeeps free (proceed rt progress) = rt.global_dials ≡ free

module _ (fl : Float) (parse_host : Bytes → Option Bytes) (affinity : ℕ → Bytes → ℕ → ℕ)
    (is_ready : ProxyRecord → Option ℕ → Bool) where
  open fl use {F}

  wait_on-Keeps :
      (free : ℕ) (more : Runtime F × Waited) (tried : Runtime F × Reserved)
      → Keeps free tried
      → (tried.0.global_dials ≡ free + 1 → WaitKeeps (free + 1) more)
      → WaitKeeps (free + 1) (wait_on fl parse_host affinity is_ready more tried)
  unfolding wait_on
  wait_on-Keeps free more (rt, leased lease) k m = (omega (arith, k.0), k.1)
  wait_on-Keeps free more (rt, nothing full) k m = elim (Bool-cases full) [
    | inl e ↦ rw e (m k)
    | inr e ↦ rw e k
  ]
  wait_on-Keeps free more (rt, refused e) k m = k
  wait_on-Keeps free more (rt, out_of_fuel) k m = tt

  reserve_proxy-Keeps :
      (request : TargetRequest) (excluded : List ℕ) (wakes : List (Wake F)) (rt : Runtime F)
      → All (λ (w : Wake F). (x : Runtime F) → (w.others x).global_dials ≡ x.global_dials) wakes
      → WaitKeeps rt.global_dials
          (reserve_proxy fl parse_host affinity is_ready request excluded wakes rt)
  unfolding reserve_proxy try_with_permit take_global
  reserve_proxy-Keeps request excluded [] rt s = refl
  reserve_proxy-Keeps request excluded (wake ∷ wakes) rt s =
      let found = wake.others rt in
      let tried =
        try_with_permit fl parse_host affinity is_ready wake.now request wake.latest excluded
          found in
      let same = s.0 rt in
      elim (Bool-cases (nat_beq found.global_dials 0)) [
        | inl e ↦ rw e (
            subst
              (λ g.
                WaitKeeps g
                  (reserve_proxy fl parse_host affinity is_ready request excluded wakes found))
              same (reserve_proxy-Keeps request excluded wakes found s.1))
        | inr e ↦
            let one : found.global_dials - 1 + 1 ≡ rt.global_dials = ground (arith, e, same) in
            rw e (
              subst
                (λ g. WaitKeeps g (
                  wait_on fl parse_host affinity is_ready
                    (reserve_proxy fl parse_host affinity is_ready request excluded wakes tried.0)
                    tried))
                one
                (wait_on-Keeps (found.global_dials - 1)
                  (reserve_proxy fl parse_host affinity is_ready request excluded wakes tried.0)
                  tried
                  (try_reserve_proxy-Keeps fl parse_host affinity is_ready _ wake.now request
                    wake.latest excluded (take_global fl parse_host affinity is_ready found))
                  (λ k.
                    subst
                      (λ g. WaitKeeps g (
                        reserve_proxy fl parse_host affinity is_ready request excluded wakes
                          tried.0))
                      k (reserve_proxy-Keeps request excluded wakes tried.0 s.1))))
      ]

  record_target_quality-dials :
      (now : ℕ) (lease : Lease) (request : TargetRequest) (success : Bool) (latency : Option ℕ)
      (rt : Runtime F)
      → (record_target_quality fl parse_host affinity is_ready now lease request success latency
          rt).global_dials
        ≡ rt.global_dials
  unfolding record_target_quality
  record_target_quality-dials now lease request success latency rt =
      elim (Bool-cases (is_off rt.settings.target_quality_mode)) [
        | inl e ↦ rw e refl
        | inr e ↦
            elim (Option-cases (quality_key fl parse_host lease.proxy lease.generation request)) [
              | inl f ↦ rw (e, f) refl
              | inr (key, f) ↦ rw (e, f) refl
            ]
      ]

  verified-dials :
      (now attempt_us : ℕ) (lease : Lease) (request : TargetRequest) (answered : Bool) (latency : ℕ)
      (rt : Runtime F)
      → (verified fl parse_host affinity is_ready now attempt_us lease request answered latency
          rt).global_dials
        ≡ rt.global_dials
  unfolding verified
  verified-dials now attempt_us lease request false latency rt = refl
  verified-dials now attempt_us lease request true latency rt =
      ap (λ h. h.1.0)
        (record_verified_connection_locked-held fl parse_host now lease request latency (
          record_target_quality fl parse_host affinity is_ready now lease request true
            (some (attempt_us - latency)) rt))
      ∙ record_target_quality-dials now lease request true (some (attempt_us - latency)) rt

  penalize-dials :
      (now : ℕ) (lease : Lease) (request : TargetRequest) (scope : FailureScope) (rt : Runtime F)
      → (penalize fl parse_host affinity is_ready now lease request scope rt).global_dials
        ≡ rt.global_dials
  unfolding penalize
  penalize-dials now lease request proxy rt =
      ap (λ h. h.1.0)
        (record_route_failure_locked-held fl parse_host now lease.proxy.id request proxy rt)
  penalize-dials now lease request target rt =
      ap (λ h. h.1.0)
        (record_route_failure_locked-held fl parse_host now lease.proxy.id request target
          (record_target_quality fl parse_host affinity is_ready now lease request false none rt))
      ∙ record_target_quality-dials now lease request false none rt
  penalize-dials now lease request local_route rt = refl

  conclude-Keeps :
      (round : Round F) (lease : Lease) (request : TargetRequest) (progress : Progress)
      (outcome : Outcome) (rt : Runtime F)
      → lease.dialing ≡ true
      → NextKeeps
          (rt.global_dials + 1)
          (conclude fl parse_host affinity is_ready round lease request progress outcome rt)
  unfolding conclude
  conclude-Keeps round lease request progress (connected answered latency) rt d =
      verified-dials round.now round.attempt_us (undialing fl parse_host affinity is_ready lease)
        request answered latency (release_permits lease rt)
      ∙ release_permits-dials lease rt d
  conclude-Keeps round lease request progress (failed scope) rt d =
      drop_lease-dials lease
        (penalize fl parse_host affinity is_ready round.now lease request scope rt) d
      ∙ ap (λ n. n + 1) (penalize-dials round.now lease request scope rt)

  attempt-Keeps :
      (total : ℕ) (round : Round F) (request : TargetRequest) (progress : Progress) (lease : Lease)
      (rt : Runtime F)
      → lease.dialing ≡ true
      → (round.meanwhile rt).global_dials ≡ rt.global_dials
      → NextKeeps
          (rt.global_dials + 1)
          (attempt fl parse_host affinity is_ready total round request progress lease rt)
  unfolding attempt
  attempt-Keeps total round request progress lease rt d s =
      let after = round.meanwhile rt in
      let more = ap (λ n. n + 1) s in
      elim (Bool-cases (leb total round.reserved)) [
        | inl e ↦ rw e (drop_lease-dials lease rt d)
        | inr e ↦
            elim (Bool-cases (
              not (proxy_configuration_is_current round.configured lease.proxy)
              || not (owns_current_attempt fl parse_host lease request after))) [
                | inl f ↦ rw (e, f) (drop_lease-dials lease after d ∙ more)
                | inr f ↦
                    rw (e, f)
                      (subst
                        (λ g. NextKeeps g (
                          conclude fl parse_host affinity is_ready round lease request
                            (count_attempt (note_dial lease.proxy.id true progress)) round.outcome
                            after))
                        more
                        (conclude-Keeps round lease request
                          (count_attempt (note_dial lease.proxy.id true progress)) round.outcome
                          after d))
              ]
      ]

  after_wait-Keeps :
      (free total : ℕ) (round : Round F) (request : TargetRequest) (progress : Progress)
      (x : Runtime F × Waited)
      → ((rt : Runtime F) → (round.meanwhile rt).global_dials ≡ rt.global_dials)
      → WaitKeeps free x
      → wait_settled progress.excluded x.1 ≡ true
      → NextKeeps free (after_wait fl parse_host affinity is_ready total round request progress x)
  unfolding after_wait settled
  after_wait-Keeps free total round request progress (rt, late) s k v = k
  after_wait-Keeps free total round request progress (rt, waited (leased lease)) s k v =
      subst
        (λ g. NextKeeps g (
          attempt fl parse_host affinity is_ready total round request
            (exclude lease.proxy.id progress) lease rt))
        k.0
        (attempt-Keeps total round request (exclude lease.proxy.id progress) lease rt k.1 (s rt))
  after_wait-Keeps free total round request progress (rt, waited (nothing full)) s k v = k
  after_wait-Keeps free total round request progress (rt, waited (refused e)) s k v = k
  after_wait-Keeps free total round request progress (rt, waited out_of_fuel) s k v = absurd cc

  connect_round-Keeps :
      (config : FailFastConfig) (round : Round F) (request : TargetRequest) (progress : Progress)
      (rt : Runtime F)
      → IsSteady round
      → NextKeeps rt.global_dials
          (connect_round fl parse_host affinity is_ready config round request progress rt)
  unfolding connect_round
  connect_round-Keeps config round request progress rt s =
      elim (Bool-cases (config.enabled && leb config.max_attempts progress.attempted)) [
        | inl e ↦ rw e refl
        | inr e ↦ elim (Bool-cases (leb config.total_timeout_ms round.elapsed)) [
          | inl f ↦ rw (e, f) refl
          | inr f ↦
              rw (e, f)
                (after_wait-Keeps rt.global_dials config.total_timeout_ms round request progress _
                  s.1 (reserve_proxy-Keeps request progress.excluded round.wakes rt s.0)
                  (reserve_proxy-settled fl parse_host affinity is_ready request progress.excluded
                    round.wakes rt))
        ]
      ]

  connect_loop-dials :
      (config : FailFastConfig) (request : TargetRequest) (rounds : List (Round F))
      (progress : Progress) (rt : Runtime F)
      → All IsSteady rounds
      → (connect_loop fl parse_host affinity is_ready config request rounds progress
          rt).0.global_dials
        ≡ rt.global_dials
  unfolding connect_loop
  connect_loop-dials config request [] progress rt s = refl
  connect_loop-dials config request (round ∷ rounds) progress rt s =
      let n = connect_round fl parse_host affinity is_ready config round request progress rt in
      let kept : NextKeeps rt.global_dials n =
        connect_round-Keeps config round request progress rt s.0 in
      elim (Next-cases fl parse_host affinity is_ready n) [
        | inl (rt', progress', ended, e) ↦
            rw (e, connect_loop) (subst (NextKeeps rt.global_dials) e kept)
        | inr (rt', progress', e) ↦
            let same : rt'.global_dials ≡ rt.global_dials =
              subst (NextKeeps rt.global_dials) e kept in
            rw (e, connect_loop) (connect_loop-dials config request rounds progress' rt' s.1 ∙ same)
      ]

  -- However a connection ends, with success, an error or a timeout, it has given back every global
  -- permit that it took, if the other threads leave as many as there were.
  pub connect_returns_permits :
      (request : TargetRequest) (rounds : List (Round F)) (rt : Runtime F)
      → All IsSteady rounds
      → (connect_with_fail_fast fl parse_host affinity is_ready request rounds rt).0.global_dials
        ≡ rt.global_dials
  unfolding connect_with_fail_fast
  connect_returns_permits request rounds rt s =
      connect_loop-dials rt.settings.fail_fast request rounds start rt s
