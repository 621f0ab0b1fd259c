-- ===== src/Selection/Reserve.antt =====
-- proxy.rs: `try_reserve_proxy`, which chooses a proxy, takes a permit to dial it and begins an
-- attempt, and the end of a `ConnectionLease`. `free` of a dial slot is `available_permits`; some
-- lease has a permit exactly when that is below the limit. `latest` are the node generations that
-- are published by the time the choice is checked again.
pub mod Leases
pub mod Turns
pub mod Ends
pub mod Permits
use proxy_load.Base.{
  ℕ, zero, suc, ◌+◌, ◌-◌, Bool, true, false, not, ◌&&◌, ◌||◌, Option, none, some, List, [], ◌∷◌,
  ◌++◌, if◌then◌else◌, leb, ltb, nat_beq, nat_eq, any, keep, is_some, is_some_and, unwrap_or,
}
use proxy_load.Base.Float.{Float}
use proxy_load.Base.Map.{Map, get, insert, remove, retain}
use proxy_load.Models.{Bytes, ProxyRecord}
use proxy_load.Routing.Snapshot.{RouteContext, context}
use proxy_load.Host.{normalize_host}
use proxy_load.Candidate.{Candidate, TargetRequest, into_record}
use proxy_load.Sticky.{Policy, for_context}
use proxy_load.Quality.{is_adaptive}
use proxy_load.Quality
use proxy_load.Runtime.{Runtime, Lease, try_begin_attempt_token}
use proxy_load.Selection.{quality_key, commit_pool_selection}
use proxy_load.Selection.Choose.{
  SelectError, Selected, candidates, failed, pool_id_of, select_from_context,
}

pub data Reserved : Type 0 where
  leased : Lease → Reserved
  -- No lease, and whether some eligible proxy had no permit left.
  nothing : Bool → Reserved
  refused : SelectError → Reserved
  out_of_fuel : Reserved

-- How an iteration of the loop ends.
pub data Turn (F : Type 0) : Type 0 where
  stop : Runtime F → Reserved → Turn F
  again : List ℕ → Bool → Runtime F → Turn F

full_slots : Map ℕ ℕ → List ℕ
full_slots [] = []
full_slots ((id, free) ∷ slots) = if nat_beq free 0 then id ∷ full_slots slots else full_slots slots

unfoldable pub has : ℕ → List ℕ → Bool
has id ids = any (nat_beq id) ids

-- The first candidate may be tried, or there is none.
head_is_free : List ℕ → List Candidate → Bool
unfolding has
head_is_free unavailable [] = true
head_is_free unavailable (c ∷ cs) = not (has c.config.id unavailable)

lower_active : ℕ → Option ℕ → Map ℕ ℕ → Map ℕ ℕ
lower_active id none active = active
lower_active id (some n) active = if leb n 1 then remove id active else insert id (n - 1) active

module _ {F : Type 0} where
  -- The slots of proxies that are gone are dropped once they are not in use.
  drop_slots : Runtime F → Runtime F
  drop_slots rt = record rt {
    dial_slots =
        retain
          (λ id free. is_some (get id rt.snapshot.node_generations) || ltb free rt.max_proxy_dials)
          rt.dial_slots;
  }

  free_slots : ℕ → Runtime F → ℕ
  free_slots id rt = unwrap_or (get id rt.dial_slots) rt.max_proxy_dials

  set_slots : ℕ → ℕ → Runtime F → Runtime F
  set_slots id free rt = record rt { dial_slots = insert id free rt.dial_slots }

  -- `increment_active`.
  unfoldable pub increment_active : ℕ → Runtime F → Runtime F
  increment_active id rt = record rt {
    active = insert id (unwrap_or (get id rt.active) 0 + 1) rt.active;
  }

  -- Both permits of a lease go back.
  unfoldable pub release_permits : Lease → Runtime F → Runtime F
  unfolding set_slots free_slots
  release_permits lease rt =
      if lease.dialing
      then set_slots lease.proxy.id (free_slots lease.proxy.id rt + 1)
          (record rt { global_dials = rt.global_dials + 1 })
      else rt

  -- `Drop` of `ConnectionLease`; its token dies with it.
  unfoldable pub drop_lease : Lease → Runtime F → Runtime F
  unfolding release_permits lower_active
  drop_lease lease rt =
      let released = release_permits lease rt in
      record released {
        active = lower_active lease.proxy.id (get lease.proxy.id released.active) released.active;
        live = keep (λ t. not (nat_beq t lease.attempt)) released.live;
      }

  give_up : Runtime F → Runtime F
  give_up rt = record rt { global_dials = rt.global_dials + 1 }

module _ (fl : Float) (parse_host : Bytes → Option Bytes) (affinity : ℕ → Bytes → ℕ → ℕ)
    (is_ready : ProxyRecord → Option ℕ → Bool) where
  open fl use {F}

  -- `context` of `try_reserve_proxy`.
  unfoldable pub route_context : TargetRequest → Runtime F → RouteContext
  route_context request rt =
      context rt.snapshot (normalize_host parse_host request.original_host) rt.settings.algorithm

  learn : ℕ → ℕ → TargetRequest → ProxyRecord → Runtime F → Runtime F
  learn now generation request p rt =
      if is_adaptive rt.settings.target_quality_mode
      then elim (quality_key fl parse_host p generation request) [
        | none ↦ rt
        | some key ↦ record rt { quality = Quality.reserved key now rt.quality }
      ]
      else rt

  -- The state once an attempt through the candidate has begun.
  enter : ℕ → RouteContext → TargetRequest → ℕ → Candidate → Runtime F → Runtime F
  unfolding learn increment_active pool_id_of set_slots free_slots
  enter now ctx request generation c rt =
      let id = c.config.id in
      let learned = learn now generation request c.config rt in
      let chosen = commit_pool_selection (pool_id_of ctx) ctx.algorithm id learned in
      let counted = increment_active id (set_slots id (free_slots id chosen - 1) chosen) in
      record counted { live = rt.next_token ∷ rt.live; next_token = suc rt.next_token }

  -- One candidate: the state after it, the lease if it was taken, and whether its slots are full.
  record_lease : RouteContext → Option Policy → ℕ → Candidate → Runtime F → Lease
  record_lease ctx policy generation c rt = record {
    proxy = into_record c;
    generation = generation;
    attempt = rt.next_token;
    dialing = true;
    failover_policy = policy;
  }

  take_slot :
      ℕ
      → RouteContext
      → TargetRequest
      → Option Policy
      → ℕ
      → Candidate
      → Runtime F
      → Runtime F × (Option Lease × Bool)
  unfolding set_slots free_slots enter record_lease
  take_slot now ctx request policy generation c rt =
      let id = c.config.id in
      let opened = set_slots id (free_slots id rt) rt in
      if nat_beq (free_slots id rt) 0
      then (opened, (none, true))
      else (let (begun, allowed) =
            try_begin_attempt_token fl parse_host now id request (some rt.next_token) opened in
          if allowed
          then (
            enter now ctx request generation c begun,
            (some (record_lease ctx policy generation c begun), false),
          )
          else (begun, (none, false)))

  -- The candidate's node has that generation in the snapshot, if it is there.
  try_generation :
      ℕ
      → RouteContext
      → TargetRequest
      → Option Policy
      → Map ℕ ℕ
      → Candidate
      → Runtime F
      → Option ℕ
      → Runtime F × (Option Lease × Bool)
  unfolding take_slot
  try_generation now ctx request policy latest c rt none = (rt, (none, false))
  try_generation now ctx request policy latest c rt (some generation) =
      if is_some_and (get c.config.id latest) (nat_beq generation)
      then take_slot now ctx request policy generation c rt
      else (rt, (none, false))

  try_candidate :
      ℕ
      → RouteContext
      → TargetRequest
      → Option Policy
      → Map ℕ ℕ
      → Candidate
      → Runtime F
      → Runtime F × (Option Lease × Bool)
  unfolding try_generation
  try_candidate now ctx request policy latest c rt =
      try_generation now ctx request policy latest c rt
        (get c.config.id rt.snapshot.node_generations)

  -- The candidates of an iteration: the initial ones if the first of them may be tried.
  pub choose_next :
      ℕ
      → RouteContext
      → TargetRequest
      → List ℕ
      → Option (List Candidate)
      → Runtime F
      → Runtime F × Selected
  unfolding head_is_free
  choose_next now ctx request unavailable none rt =
      select_from_context fl parse_host affinity is_ready now ctx request unavailable false rt
  choose_next now ctx request unavailable (some cs) rt =
      if head_is_free unavailable cs
      then (rt, candidates cs)
      else select_from_context fl parse_host affinity is_ready now ctx request unavailable false rt

  tried : List ℕ → Bool → Runtime F × (Option Lease × Bool) → Turn F
  tried unavailable saturated (rt, (some lease, full)) = stop rt (leased lease)
  tried unavailable saturated (rt, (none, full)) = again unavailable (saturated || full) rt

  -- What follows from the candidates of one iteration.
  pub turn :
      ℕ
      → RouteContext
      → TargetRequest
      → Option Policy
      → Map ℕ ℕ
      → List ℕ
      → Bool
      → Runtime F × Selected
      → Turn F
  unfolding tried try_candidate give_up
  turn now ctx request policy latest unavailable saturated (rt, failed e) =
      stop (give_up rt) (refused e)
  turn now ctx request policy latest unavailable saturated (rt, candidates []) =
      stop (give_up rt) (nothing saturated)
  turn now ctx request policy latest unavailable saturated (rt, candidates (c ∷ cs)) =
      tried (c.config.id ∷ unavailable) saturated (try_candidate now ctx request policy latest c rt)

  -- The loop of `try_reserve_proxy`.
  unfoldable pub reserve_loop :
      ℕ
      → ℕ
      → RouteContext
      → TargetRequest
      → Option Policy
      → Map ℕ ℕ
      → List ℕ
      → Option (List Candidate)
      → Bool
      → Runtime F
      → Runtime F × Reserved
  unfolding turn choose_next
  reserve_loop zero now ctx request policy latest unavailable initial saturated rt =
      (rt, out_of_fuel)
  reserve_loop (suc fuel) now ctx request policy latest unavailable initial saturated rt =
      elim (turn now ctx request policy latest unavailable saturated
        (choose_next now ctx request unavailable initial rt)) [
          | stop rt' result ↦ (rt', result)
          | again unavailable' saturated' rt' ↦
              reserve_loop fuel now ctx request policy latest unavailable' none saturated' rt'
        ]

  -- No sticky binding is made while the preferred proxy can serve.
  failover_policy : List Candidate → Option Policy → Option Policy
  failover_policy cs none = none
  failover_policy cs (some policy) =
      if any (λ c. nat_beq c.config.id policy.preferred && not c.inactive) cs
      then none
      else some policy

  reserve_among :
      ℕ
      → ℕ
      → RouteContext
      → TargetRequest
      → Map ℕ ℕ
      → List ℕ
      → Runtime F × Selected
      → Runtime F × Reserved
  unfolding reserve_loop failover_policy give_up has
  reserve_among fuel now ctx request latest unavailable (rt, failed e) = (give_up rt, refused e)
  reserve_among fuel now ctx request latest unavailable (rt, candidates cs) =
      reserve_loop fuel now ctx request
        (failover_policy cs (for_context parse_host affinity ctx request)) latest unavailable
        (some cs) (any (λ c. has c.config.id unavailable) cs) rt

  -- `try_reserve_proxy`; the global permit has been taken.
  unfoldable pub try_reserve_proxy :
      ℕ → ℕ → TargetRequest → Map ℕ ℕ → List ℕ → Runtime F → Runtime F × Reserved
  unfolding reserve_among drop_slots full_slots route_context
  try_reserve_proxy fuel now request latest excluded rt =
      let cleaned = drop_slots rt in
      let ctx = route_context request cleaned in
      reserve_among fuel now ctx request latest (excluded ++ full_slots cleaned.dial_slots)
        (select_from_context fl parse_host affinity is_ready now ctx request excluded false cleaned)
