-- ===== src/Connect/Attempts.antt =====
-- src-tauri/src/proxy.rs: which proxies `connect_with_fail_fast` dials, and how many.
use proxy_load.Base.{
  ℕ, ◌≤◌, ◌≡◌, refl, Bool, true, Option, List, [], ◌∷◌, arith, nat_eq, inl, inr, ◌⊎◌, subst,
}
use proxy_load.Base.Float.{Float}
use proxy_load.Models.{Bytes, ProxyRecord}
use proxy_load.Candidate.{TargetRequest}
use proxy_load.Runtime.{Runtime, FailFastConfig}
use proxy_load.Connect.{
  Round, Progress, Ended, Next, finish, proceed, start, connect_round, connect_loop,
  connect_with_fail_fast,
}
use proxy_load.Connect.Rounds.{
  distinct, dialled, used_dials, IsFair, HasFair, NextIsFair, connect_round-IsFair,
}

module _ (fl : Float) (parse_host : Bytes → Option Bytes) (affinity : ℕ → Bytes → ℕ → ℕ)
    (is_ready : ProxyRecord → Option ℕ → Bool) where
  open fl use {F}

  pub Next-cases :
      (n : Next F)
      → ((rt : Runtime F) × (progress : Progress) × (ended : Ended) × (n
            ≡ finish rt progress ended))
        ⊎ ((rt : Runtime F) × (progress : Progress) × (n ≡ proceed rt progress))
  Next-cases (finish rt progress ended) = inl (rt, progress, ended, refl)
  Next-cases (proceed rt progress) = inr (rt, progress, refl)

  connect_loop-HasFair :
      (config : FailFastConfig) (request : TargetRequest) (rounds : List (Round F))
      (progress : Progress) (rt : Runtime F)
      → IsFair config progress
      → HasFair config
          (connect_loop fl parse_host affinity is_ready config request rounds progress rt).1.0
  unfolding connect_loop
  connect_loop-HasFair config request [] progress rt v = v.fair
  connect_loop-HasFair config request (round ∷ rounds) progress rt v =
      let n = connect_round fl parse_host affinity is_ready config round request progress rt in
      let next : NextIsFair config n =
        connect_round-IsFair fl parse_host affinity is_ready config round request progress rt v in
      elim (Next-cases n) [
        | inl (rt', progress', ended, e) ↦
            let f : HasFair config progress' = subst (NextIsFair config) e next in
            rw (e, connect_loop) f
        | inr (rt', progress', e) ↦
            let f : IsFair config progress' = subst (NextIsFair config) e next in
            rw (e, connect_loop) (connect_loop-HasFair config request rounds progress' rt' f)
      ]

  connect-HasFair :
      (request : TargetRequest) (rounds : List (Round F)) (rt : Runtime F)
      → HasFair rt.settings.fail_fast
          (connect_with_fail_fast fl parse_host affinity is_ready request rounds rt).1.0
  unfolding connect_with_fail_fast start
  connect-HasFair request rounds rt =
      connect_loop-HasFair rt.settings.fail_fast request rounds start rt (record {
        fair = record { once = refl; capped = ground arith };
        same = refl;
        counted = refl;
      })

  -- Whatever the network and the other threads do, the calls of `connect_through_proxy` that one
  -- connection makes are all to different proxies.
  pub connect_tries_once :
      (request : TargetRequest) (rounds : List (Round F)) (rt : Runtime F)
      → let end = connect_with_fail_fast fl parse_host affinity is_ready request rounds rt in
        distinct (dialled end.1.0.dials) ≡ true
  connect_tries_once request rounds rt = (connect-HasFair request rounds rt).once

  -- With fail-fast on, of the calls of `connect_through_proxy` that one connection makes at most
  -- `max_attempts` have an outcome that is used, whatever the network and the other threads do; the
  -- others are those that ended when the configuration had changed or the attempt was not current.
  pub connect_attempts_capped :
      (request : TargetRequest) (rounds : List (Round F)) (rt : Runtime F)
      → rt.settings.fail_fast.enabled ≡ true
      → let end = connect_with_fail_fast fl parse_host affinity is_ready request rounds rt in
        used_dials end.1.0.dials ≤ rt.settings.fail_fast.max_attempts
  connect_attempts_capped request rounds rt e =
      ground (arith, (connect-HasFair request rounds rt).capped, e)
