-- ===== src/Sticky.antt =====
-- src-tauri/src/proxy/sticky_routes.rs: bounded bindings of a route to a backup proxy.
pub mod Bounds
mod Examples
use proxy_load.Base.{
  ℕ, zero, suc, ◌*◌, ◌≡◌, ◌↔◌, Bool, true, false, not, ◌&&◌, ◌||◌, Option, none, some, List, [],
  ◌∷◌, arith, if◌then◌else◌, leb, ltb, nat_beq, nat_beq_iff, list_beq, list_beq_iff, nat_eq,
  PartialEq, any, length, is_some_and, position, swap_front, saturating_add, String, str_eq,
  get_elem?,
}
use proxy_load.Base.Map.{Map, get, insert, remove, retain}
use proxy_load.Models.{Bytes, ProxyRecord, RoutingPool}
use proxy_load.Routing.Snapshot.{RoutingSnapshot, RouteContext}
use proxy_load.Host.{normalize_host}
use proxy_load.Candidate.{Candidate, TargetRequest}

abbrev pub max_bindings : ℕ
max_bindings = 4096

pub record Key : Type 0 where
  pub pool : ℕ
  pub host : Bytes
  pub resolved : Bytes
  pub port : ℕ

abbrev pub key_beq : Key → Key → Bool
key_beq a b =
    nat_beq a.pool b.pool
    && (list_beq a.host b.host && (list_beq a.resolved b.resolved && nat_beq a.port b.port))

pub key_beq_iff : (a b : Key) → (key_beq a b ≡ true) ↔ (a ≡ b)
key_beq_iff a b = ground (arith, list_beq_iff a.host b.host, list_beq_iff a.resolved b.resolved)

instance abbrev pub key_eq : PartialEq Key
key_eq = record { same = key_beq; same_iff = key_beq_iff }

pub record Policy : Type 0 where
  pub key : Key
  pub revision : ℕ
  pub ttl_ms : ℕ
  pub preferred : ℕ

pub record Binding : Type 0 where
  pub proxy : ℕ
  pub generation : ℕ
  pub revision : ℕ
  pub expires : ℕ

abbrev pub StickyRoutes : Type 0
StickyRoutes = Map Key Binding

-- The last of the greatest by `(score, id)`, as `max_by_key` finds it; `score` is `affinity`.
best_by : (ℕ → ℕ) → Option ℕ → List ℕ → Option ℕ
best_by score best [] = best
best_by score none (id ∷ ids) = best_by score (some id) ids
best_by score (some b) (id ∷ ids) =
    best_by score
      (some
        (if ltb (score id) (score b) || nat_beq (score id) (score b) && ltb id b then b else id))
      ids

node_ids : List ProxyRecord → List ℕ → List ℕ
node_ids proxies [] = []
node_ids proxies (i ∷ is) = elim (get_elem? proxies i) [
  | none ↦ node_ids proxies is
  | some p ↦ p.id ∷ node_ids proxies is
]

module _ (parse_host : Bytes → Option Bytes) (affinity : ℕ → Bytes → ℕ → ℕ) where
  policy_of : RouteContext → TargetRequest → RoutingPool → Option ℕ → Option Policy
  policy_of context request pool none = none
  policy_of context request pool (some preferred) = some (record {
    key = record {
      pool = pool.id;
      host = context.host;
      resolved = normalize_host parse_host request.host;
      port = request.port;
    };
    revision = pool.revision;
    ttl_ms = pool.sticky_failover_seconds * 1000;
    preferred = preferred;
  })

  -- `Policy::for_context`.
  unfoldable pub for_context : RouteContext → TargetRequest → Option Policy
  unfolding policy_of best_by node_ids
  for_context context request = elim (context.pool) [
    | none ↦ none
    | some pool ↦
        if not (str_eq context.algorithm "sticky_host") || nat_beq pool.sticky_failover_seconds 0
        then none
        else policy_of context request pool (
            best_by (affinity pool.id context.host) none
              (node_ids context.snapshot.proxies context.members))
  ]

pub is_current : ℕ → Policy → RoutingSnapshot → Binding → Bool
is_current now policy snapshot b =
    not (leb b.expires now)
    && (nat_beq b.revision policy.revision
        && is_some_and (get b.proxy snapshot.node_generations) (λ g. nat_beq g b.generation))

-- `candidates.iter().position(|p| p.id == binding.proxy && !p.inactive)`.
pub bound_position : Binding → List Candidate → Option ℕ
bound_position b = position (λ c. nat_beq c.config.id b.proxy && not c.inactive)

-- The binding stands at position `i` of the candidates, if anywhere.
unfoldable pub prefer_at :
    ℕ
    → Policy
    → RoutingSnapshot
    → List Candidate
    → StickyRoutes
    → Binding
    → Option ℕ
    → StickyRoutes × List Candidate
prefer_at now policy snapshot candidates routes b none = (remove policy.key routes, candidates)
prefer_at now policy snapshot candidates routes b (some i) =
    if is_current now policy snapshot b
    then (routes, swap_front candidates i)
    else (remove policy.key routes, candidates)

unfoldable pub prefer_bound :
    ℕ
    → Policy
    → RoutingSnapshot
    → List Candidate
    → StickyRoutes
    → Option Binding
    → StickyRoutes × List Candidate
prefer_bound now policy snapshot candidates routes none = (routes, candidates)
prefer_bound now policy snapshot candidates routes (some b) =
    prefer_at now policy snapshot candidates routes b (bound_position b candidates)

-- `StickyRoutes::prefer`.
unfoldable pub prefer :
    ℕ → Policy → RoutingSnapshot → List Candidate → StickyRoutes → StickyRoutes × List Candidate
unfolding prefer_bound
prefer now policy snapshot candidates routes =
    prefer_bound now policy snapshot candidates routes (get policy.key routes)

earlier : Key × Binding → Option (Key × Binding) → Key × Binding
earlier x none = x
earlier x (some y) = if ltb y.1.expires x.1.expires then y else x

-- `iter().min_by_key(|(_, b)| b.expires)`: the first of the least.
oldest : StickyRoutes → Option (Key × Binding)
unfolding earlier
oldest [] = none
oldest (x ∷ xs) = some (earlier x (oldest xs))

evict_oldest : StickyRoutes → StickyRoutes
unfolding oldest
evict_oldest routes =
    if leb max_bindings (length routes)
    then elim (oldest routes) [ none ↦ routes | some x ↦ remove x.0 routes ]
    else routes

-- `StickyRoutes::remember`.
unfoldable pub remember : ℕ → Policy → RoutingSnapshot → ℕ → ℕ → StickyRoutes → StickyRoutes
unfolding evict_oldest
remember now policy snapshot proxy generation routes =
    if nat_beq proxy policy.preferred
      || (not (is_some_and (get proxy snapshot.node_generations) (λ g. nat_beq g generation))
          || not (
              any (λ p. nat_beq p.id policy.key.pool && nat_beq p.revision policy.revision)
                snapshot.pools))
    then routes
    else if is_some_and (get policy.key routes)
        (λ b. nat_beq b.proxy proxy && (nat_beq b.revision policy.revision && ltb now b.expires))
    then routes
    else insert policy.key
        (record {
          proxy = proxy;
          generation = generation;
          revision = policy.revision;
          expires = saturating_add now policy.ttl_ms;
        })
        (evict_oldest (retain (λ k b. ltb now b.expires) routes))
