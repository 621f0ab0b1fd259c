-- ===== src/Runtime/Ownership.antt =====
-- proxy.rs: who may begin an attempt at a guarded proxy, and whose verdict counts.
use proxy_load.Base.{nat_eq, ℕ, ◌≡◌, ◌≢◌, refl, Bool, true, false, Option, none, some, arith}
use proxy_load.Base.Float.{Float}
use proxy_load.Base.Map.{get, get-insert_self}
use proxy_load.Models.{Bytes}
use proxy_load.Candidate.{TargetRequest, TargetRouteKey, route_key, route_key_eq}
use proxy_load.Breaker.{
  CircuitBreaker, opened, half_open, can_attempt_snapshot, hold, try_begin_attempt,
}
use proxy_load.Runtime.{
  Runtime, Lease, TargetCircuit, alive, breaker_of, try_begin_attempt_token, begin_target,
  owns_current_attempt, owns, observe_forward_response,
}

module _ {F : Type 0} where
  begin_target-breakers :
      (now : ℕ) (token : Option ℕ) (key : TargetRouteKey) (o : Option TargetCircuit)
      (rt : Runtime F)
      → (begin_target now token key o rt).breakers ≡ rt.breakers
  unfolding begin_target
  begin_target-breakers now token key none rt = refl
  begin_target-breakers now token key (some t) rt = refl

module _ (fl : Float) (parse_host : Bytes → Option Bytes) where
  open fl use {F}

  -- An attempt that is let through to a proxy whose breaker had opened leaves the breaker half
  -- open and held by the attempt's token.
  pub begun_holds :
      (now id t : ℕ) (request : TargetRequest) (rt : Runtime F)
      → (breaker_of rt id).state ≡ opened
      → (try_begin_attempt_token fl parse_host now id request (some t) rt).1 ≡ true
      → get id (try_begin_attempt_token fl parse_host now id request (some t) rt).0.breakers
        ≡ some (record (breaker_of rt id) { state = half_open; attempt = some t })
  unfolding try_begin_attempt_token hold try_begin_attempt can_attempt_snapshot
  begun_holds now id t request rt o h =
      let b = breaker_of rt id in
      let key = route_key parse_host id request in
      let begun = begin_target now (some t) key (get key rt.targets) rt in
      let held = hold (some t) (try_begin_attempt now (alive rt) b).0 in
      ground (arith, o, h, get-insert_self id held begun.breakers)

  -- When the breaker of its proxy is held by another token than the lease's, a forwarded response
  -- changes nothing and is not counted.
  pub stale_response_ignored :
      (now : ℕ) (lease : Lease) (request : TargetRequest) (status : ℕ) (verified : Bool) (us : ℕ)
      (rt : Runtime F) (b : CircuitBreaker) (t : ℕ)
      → get lease.proxy.id rt.breakers ≡ some b
      → b.attempt ≡ some t
      → t ≢ lease.attempt
      → observe_forward_response fl parse_host now lease request status verified us rt ≡ (rt, false)
  unfolding observe_forward_response owns_current_attempt owns
  stale_response_ignored now lease request status verified us rt b t e a ne =
      ground (arith, e, a, ne)
