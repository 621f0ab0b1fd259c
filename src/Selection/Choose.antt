-- ===== src/Selection/Choose.antt =====
-- proxy.rs: `select_from_context`, which keeps the members of the route that may be tried now and
-- puts them in order.
pub mod Eligible
pub mod Members
use proxy_load.Base.{
  ℕ, Bool, true, false, not, ◌&&◌, ◌||◌, Option, none, some, List, [], ◌∷◌, if◌then◌else◌, nat_beq,
  nat_eq, any, is_empty, is_some, is_some_and, is_none_or, and_then, unwrap_or, String, str_eq,
  get_elem?,
}
use proxy_load.Base.Float.{Float}
use proxy_load.Base.Map.{Map, get, retain}
use proxy_load.Models.{
  Bytes, ProxyRecord, RoutingPool, transport_only, required_probe, HealthPolicy,
}
use proxy_load.Routing.Snapshot.{RoutingSnapshot, RouteContext}
use proxy_load.Candidate.{Candidate, TargetRequest, route_key, route_key_eq}
use proxy_load.Breaker.{can_attempt_snapshot}
use proxy_load.Sticky.{Policy, for_context, prefer}
use proxy_load.Host.{normalize_host}
use proxy_load.Health.{required}
use proxy_load.Runtime.{Runtime, alive}
use proxy_load.Selection.Order.{order_proxies_in_pool}

pub data SelectError : Type 0 where
  no_proxies empty_group not_ready : SelectError

pub data Selected : Type 0 where
  candidates : List Candidate → Selected
  failed : SelectError → Selected

-- The members as proxies. The code indexes `proxies` with them; an index out of range, at which it
-- would panic, is left out here.
unfoldable pub records : List ProxyRecord → List ℕ → List ProxyRecord
records proxies [] = []
records proxies (i ∷ is) = elim (get_elem? proxies i) [
  | none ↦ records proxies is
  | some p ↦ p ∷ records proxies is
]

or_else : Option String → Option String → Option String
or_else none b = b
or_else (some a) b = some a

-- The eligible candidates, and `readiness_blocked`.
pub record Sieve : Type 0 where
  pub eligible : List Candidate
  pub blocked : Bool

unfoldable pub pool_id_of : RouteContext → ℕ
pool_id_of context = unwrap_or (and_then context.pool (λ p. some p.id)) 0

module _ (fl : Float) (parse_host : Bytes → Option Bytes) (affinity : ℕ → Bytes → ℕ → ℕ)
    (is_ready : ProxyRecord → Option ℕ → Bool) where
  open fl use {F}

  status_of : Runtime F → ProxyRecord → Option String
  unfolding or_else
  status_of rt p = or_else (and_then (get p.id rt.metrics) (λ m. m.pushed_status)) p.status

  unfoldable pub blocked_by_readiness : Runtime F → ProxyRecord → Bool
  unfolding required
  blocked_by_readiness rt p =
      required p.health_policy && not (is_ready p (get p.id rt.snapshot.node_generations))

  -- Both the breaker of the proxy and that of the route through it would let an attempt begin.
  unfoldable pub breakers_allow : ℕ → TargetRequest → Runtime F → ProxyRecord → Bool
  breakers_allow now request rt p =
      is_none_or (get p.id rt.breakers) (can_attempt_snapshot now (alive rt))
      && is_none_or (get (route_key parse_host p.id request) rt.targets)
          (λ t. can_attempt_snapshot now (alive rt) t.breaker)

  -- The loop over the members.
  unfoldable pub sieve : ℕ → TargetRequest → List ℕ → Runtime F → List ProxyRecord → Sieve
  unfolding blocked_by_readiness breakers_allow status_of
  sieve now request excluded rt [] = record { eligible = []; blocked = false }
  sieve now request excluded rt (p ∷ ps) =
      let rest = sieve now request excluded rt ps in
      if blocked_by_readiness rt p
      then record rest { blocked = true }
      else if any (nat_beq p.id) excluded || not (breakers_allow now request rt p)
      then rest
      else record rest {
        eligible =
            record {
              config = p;
              inactive = is_some_and (status_of rt p) (λ s. str_eq s "inactive");
            }
            ∷ rest.eligible;
      }

  prefer_sticky :
      ℕ → Option Policy → RoutingSnapshot → Runtime F × List Candidate → Runtime F × Selected
  prefer_sticky now none s (rt, cs) = (rt, candidates cs)
  prefer_sticky now (some policy) s (rt, cs) =
      let (routes, ordered) = prefer now policy s cs rt.sticky in
      (record rt { sticky = routes }, candidates ordered)

  -- `round_robin_index` loses the pools that are gone.
  pub drop_cursors : Runtime F → Runtime F
  drop_cursors rt = record rt {
    round_robin =
        retain (λ pool n. nat_beq pool 0 || any (λ p. nat_beq p.id pool) rt.snapshot.pools)
          rt.round_robin;
  }

  select_members :
      ℕ → RouteContext → TargetRequest → List ℕ → Bool → Runtime F → Runtime F × Selected
  unfolding sieve prefer_sticky drop_cursors pool_id_of records
  select_members now context request excluded commit rt =
      let kept = drop_cursors rt in
      let sifted = sieve now request excluded kept (records rt.snapshot.proxies context.members) in
      if is_empty sifted.eligible && sifted.blocked
      then (kept, failed not_ready)
      else prefer_sticky now (for_context parse_host affinity context request) rt.snapshot (
          order_proxies_in_pool fl parse_host
            (affinity (pool_id_of context) (normalize_host parse_host context.host)) now
            context.algorithm (pool_id_of context) commit (some (rt.snapshot, request)) kept
            sifted.eligible)

  -- `select_from_context`; `context` is one of the runtime's snapshot.
  unfoldable pub select_from_context :
      ℕ → RouteContext → TargetRequest → List ℕ → Bool → Runtime F → Runtime F × Selected
  unfolding select_members
  select_from_context now context request excluded commit rt =
      if is_empty rt.snapshot.proxies
      then (rt, failed no_proxies)
      else if is_some context.pool && is_empty (records rt.snapshot.proxies context.members)
      then (rt, failed empty_group)
      else select_members now context request excluded commit rt
