-- ===== src/Connect/Rounds.antt =====
-- src-tauri/src/proxy.rs: which calls of `connect_through_proxy` one round of
-- `connect_with_fail_fast` makes.
use proxy_load.Base.{
  ℕ, ◌≡◌, refl, Bool, true, false, not, ◌&&◌, ◌||◌, Option, List, [], ◌∷◌, arith, leb, nat_beq,
  nat_eq, Bool-cases, inl, inr, suc, if◌then◌else◌, ap, subst,
}
use proxy_load.Base.Float.{Float}
use proxy_load.Base.Map.{Map}
use proxy_load.Models.{Bytes, ProxyRecord}
use proxy_load.Candidate.{TargetRequest}
use proxy_load.Runtime.{Runtime, Lease, FailFastConfig, owns_current_attempt}
use proxy_load.Selection.Reserve.{
  Reserved, leased, nothing, refused, out_of_fuel, route_context, has,
}
use proxy_load.Selection.Reserve.Turns.{settled}
use proxy_load.Selection.Reserve.Ends.{try_reserve_proxy-settled}
use proxy_load.Connect.{
  note_dial, Dial, Wake, Outcome, connected, failed, Round, Progress, Waited, waited, late, Next,
  finish, proceed, exclude, count_attempt, uncount_attempt, count_error, take_global, wait_on,
  try_with_permit, reserve_proxy, conclude, attempt, after_wait, connect_round,
  proxy_configuration_is_current,
}

-- No number stands twice.
abbrev pub distinct : List ℕ → Bool
distinct [] = true
distinct (x ∷ xs) = not (has x xs) && distinct xs

-- The wait has ended, and a proxy that was leased is none of the excluded ones.
abbrev pub wait_settled : List ℕ → Waited → Bool
wait_settled ids (waited r) = settled ids r
wait_settled ids late = true

-- The proxies that were dialled.
abbrev pub dialled : List Dial → List ℕ
dialled [] = []
dialled (d ∷ dials) = d.proxy ∷ dialled dials

-- How many of the dials had an outcome that was used.
abbrev pub used_dials : List Dial → ℕ
used_dials [] = 0
used_dials (d ∷ dials) = if d.used then suc (used_dials dials) else used_dials dials

-- No proxy was dialled twice, and the dials that were used are as many as are allowed.
pub record HasFair (config : FailFastConfig) (progress : Progress) : Type 0 where
  pub once : distinct (dialled progress.dials) ≡ true
  pub capped : (not config.enabled || leb (used_dials progress.dials) config.max_attempts) ≡ true

-- The same while the loop runs, whose variables then tell the dials.
pub record IsFair (config : FailFastConfig) (progress : Progress) : Type 0 where
  pub fair : HasFair config progress
  pub same : progress.excluded ≡ dialled progress.dials
  pub counted : progress.attempted ≡ used_dials progress.dials

abbrev pub NextIsFair : {F : Type 0} → FailFastConfig → Next F → Type 0
NextIsFair config (finish rt progress ended) = HasFair config progress
NextIsFair config (proceed rt progress) = IsFair config progress

module _ (fl : Float) (parse_host : Bytes → Option Bytes) (affinity : ℕ → Bytes → ℕ → ℕ)
    (is_ready : ProxyRecord → Option ℕ → Bool) where
  open fl use {F}

  try_with_permit-settled :
      (now : ℕ) (request : TargetRequest) (latest : Map ℕ ℕ) (excluded : List ℕ) (rt : Runtime F)
      → settled excluded
          (try_with_permit fl parse_host affinity is_ready now request latest excluded rt).1
        ≡ true
  unfolding try_with_permit take_global route_context
  try_with_permit-settled now request latest excluded rt =
      try_reserve_proxy-settled fl parse_host affinity is_ready _ now request latest excluded
        (take_global fl parse_host affinity is_ready rt) (omega arith)

  wait_on-settled :
      (ids : List ℕ) (more : Runtime F × Waited) (tried : Runtime F × Reserved)
      → wait_settled ids more.1 ≡ true
      → settled ids tried.1 ≡ true
      → wait_settled ids (wait_on fl parse_host affinity is_ready more tried).1 ≡ true
  unfolding wait_on settled
  wait_on-settled ids more (rt, leased lease) m t = t
  wait_on-settled ids more (rt, nothing full) m t = elim (Bool-cases full) [
    | inl e ↦ rw e m
    | inr e ↦ rw e refl
  ]
  wait_on-settled ids more (rt, refused e) m t = refl
  wait_on-settled ids more (rt, out_of_fuel) m t = t

  pub reserve_proxy-settled :
      (request : TargetRequest) (excluded : List ℕ) (wakes : List (Wake F)) (rt : Runtime F)
      → wait_settled excluded
          (reserve_proxy fl parse_host affinity is_ready request excluded wakes rt).1
        ≡ true
  unfolding reserve_proxy
  reserve_proxy-settled request excluded [] rt = refl
  reserve_proxy-settled request excluded (wake ∷ wakes) rt =
      let found = wake.others rt in
      let tried =
        try_with_permit fl parse_host affinity is_ready wake.now request wake.latest excluded
          found in
      elim (Bool-cases (nat_beq found.global_dials 0)) [
        | inl e ↦ rw e (reserve_proxy-settled request excluded wakes found)
        | inr e ↦ rw e (
            wait_on-settled excluded
              (reserve_proxy fl parse_host affinity is_ready request excluded wakes tried.0) tried
              (reserve_proxy-settled request excluded wakes tried.0)
              (try_with_permit-settled wake.now request wake.latest excluded found))
      ]

  conclude-IsFair :
      (config : FailFastConfig) (round : Round F) (lease : Lease) (request : TargetRequest)
      (progress : Progress) (outcome : Outcome) (rt : Runtime F)
      → IsFair config progress
      → NextIsFair config
          (conclude fl parse_host affinity is_ready round lease request progress outcome rt)
  unfolding conclude count_error
  conclude-IsFair config round lease request progress (connected answered latency) rt v = v.fair
  conclude-IsFair config round lease request progress (failed scope) rt v = record {
    fair = record { once = v.fair.once; capped = v.fair.capped };
    same = v.same;
    counted = v.counted;
  }

  attempt-IsFair :
      (config : FailFastConfig) (total : ℕ) (round : Round F) (request : TargetRequest)
      (progress : Progress) (lease : Lease) (rt : Runtime F)
      → IsFair config progress
      → (config.enabled && leb config.max_attempts progress.attempted) ≡ false
      → has lease.proxy.id progress.excluded ≡ false
      → NextIsFair config (
          attempt fl parse_host affinity is_ready total round request
            (exclude lease.proxy.id progress)
            lease
            rt)
  unfolding attempt exclude count_attempt uncount_attempt note_dial
  attempt-IsFair config total round request progress lease rt v c h =
      let fresh : has lease.proxy.id (dialled progress.dials) ≡ false =
        subst (λ ids. has lease.proxy.id ids ≡ false) v.same h in
      let once : distinct (lease.proxy.id ∷ dialled progress.dials) ≡ true =
        ground (arith, v.fair.once, fresh) in
      let after = round.meanwhile rt in
      elim (Bool-cases (leb total round.reserved)) [
        | inl e ↦ rw e (record { once = v.fair.once; capped = v.fair.capped })
        | inr e ↦
            elim (Bool-cases (
              not (proxy_configuration_is_current round.configured lease.proxy)
              || not (owns_current_attempt fl parse_host lease request after))) [
                | inl f ↦
                    rw (e, f)
                      (record {
                        fair = record { once = once; capped = v.fair.capped };
                        same = ap (λ ids. lease.proxy.id ∷ ids) v.same;
                        counted = omega (arith, v.counted);
                      })
                | inr f ↦
                    rw (e, f)
                      (conclude-IsFair config round lease request _ round.outcome after (record {
                        fair = record { once = once; capped = ground (arith, c, v.counted) };
                        same = ap (λ ids. lease.proxy.id ∷ ids) v.same;
                        counted = omega (arith, v.counted);
                      }))
              ]
      ]

  after_wait-IsFair :
      (config : FailFastConfig) (total : ℕ) (round : Round F) (request : TargetRequest)
      (progress : Progress) (x : Runtime F × Waited)
      → IsFair config progress
      → (config.enabled && leb config.max_attempts progress.attempted) ≡ false
      → wait_settled progress.excluded x.1 ≡ true
      → NextIsFair config
          (after_wait fl parse_host affinity is_ready total round request progress x)
  unfolding after_wait settled
  after_wait-IsFair config total round request progress (rt, late) v c s = v.fair
  after_wait-IsFair config total round request progress (rt, waited (leased lease)) v c s =
      attempt-IsFair config total round request progress lease rt v c (ground (arith, s))
  after_wait-IsFair config total round request progress (rt, waited (nothing full)) v c s = v.fair
  after_wait-IsFair config total round request progress (rt, waited (refused e)) v c s = v.fair
  after_wait-IsFair config total round request progress (rt, waited out_of_fuel) v c s = v.fair

  pub connect_round-IsFair :
      (config : FailFastConfig) (round : Round F) (request : TargetRequest) (progress : Progress)
      (rt : Runtime F)
      → IsFair config progress
      → NextIsFair config
          (connect_round fl parse_host affinity is_ready config round request progress rt)
  unfolding connect_round
  connect_round-IsFair config round request progress rt v =
      elim (Bool-cases (config.enabled && leb config.max_attempts progress.attempted)) [
        | inl e ↦ rw e (v.fair)
        | inr e ↦ elim (Bool-cases (leb config.total_timeout_ms round.elapsed)) [
          | inl f ↦ rw (e, f) (v.fair)
          | inr f ↦
              rw (e, f)
                (after_wait-IsFair config config.total_timeout_ms round request progress _ v e
                  (reserve_proxy-settled request progress.excluded round.wakes rt))
        ]
      ]
