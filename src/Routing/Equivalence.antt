-- ===== src/Routing/Equivalence.antt =====
-- routing.rs: the indexed search finds the pool that the linear search finds.
use proxy_load.Base.{
  length-append, sort, ℕ, zero, suc, ◌+◌, ◌<◌, ◌≡◌, refl, ap, ◌∙◌, subst, inl, inr, true, Option,
  none, some, List, [], ◌∷◌, arith, length, is_some, if◌then◌else◌, get_elem?, Bool-cases,
  Option-cases, and_then,
}
use proxy_load.Models.{Bytes, RoutingPool, ProxyRecord}
use proxy_load.Routing.{
  specificity, member_nodes, RankedPool, RoutingIndex, build, add_pools, add_rules, add_rule,
  open_pool, empty_index, pool_index, pool_or, linear_pool, linear_fallback, option_or,
  domain_matches,
}
use proxy_load.Routing.Best.{best}
use proxy_load.Routing.Index.{rank_pools, build-best}
use proxy_load.Routing.Linear.{linear_pools-best, best_in_range}

add_rule-default :
    (rule : Bytes) (k : RankedPool) (index : RoutingIndex)
    → (add_rule rule k index).default_pool ≡ index.default_pool
unfolding add_rule
add_rule-default rule k index = ground arith

add_rules-default :
    (i order : ℕ) (rules : List Bytes) (index : RoutingIndex)
    → (add_rules i order rules index).default_pool ≡ index.default_pool
unfolding add_rules
add_rules-default i order [] index = refl
add_rules-default i order (rule ∷ rules) index =
    let k : RankedPool = record { pool = i; specificity = specificity rule; order = order } in
    add_rules-default i (suc order) rules (add_rule rule k index) ∙ add_rule-default rule k index

-- The default pool of the index is the last one marked so.
add_pools-default :
    (pools : List RoutingPool) (i order : ℕ) (rest : List RoutingPool) (index : RoutingIndex)
    → ((j : ℕ) → get_elem? pools (i + j) ≡ get_elem? rest j)
    → and_then (add_pools i order rest index).default_pool (get_elem? pools)
      ≡ linear_fallback rest (and_then index.default_pool (get_elem? pools))
unfolding add_pools linear_fallback
add_pools-default pools i order [] index at = refl
add_pools-default pools i order (pool ∷ rest) index at =
    add_pools-default pools (suc i) (order + length pool.rules) rest
      (add_rules i order pool.rules (open_pool i pool index))
      (λ j. subst (λ n. get_elem? pools n ≡ get_elem? rest j) (omega arith) (at (suc j)))
    ∙ ap (linear_fallback rest) (
        ap (λ d. and_then d (get_elem? pools))
          (add_rules-default i order pool.rules (open_pool i pool index))
        ∙ opened)
  where
    here : get_elem? pools i ≡ some pool
    here = subst (λ n. get_elem? pools n ≡ some pool) (omega arith) (at 0)

    opened :
        and_then (open_pool i pool index).default_pool (get_elem? pools)
        ≡ (if pool.is_default then some pool else and_then index.default_pool (get_elem? pools))
    opened = unfold open_pool in ground (arith, here)

build-default :
    (proxies : List ProxyRecord) (pools : List RoutingPool)
    → and_then (build proxies pools).default_pool (get_elem? pools) ≡ linear_fallback pools none
unfolding build empty_index
build-default proxies pools =
    add_pools-default pools 0 0 pools (empty_index proxies)
      (λ j. ap (get_elem? pools) (omega arith))

-- For every configuration and every host the pool at the index that the indexed search returns
-- is the pool that the linear search returns, and neither finds one where the other does not.
pub pool_index-linear :
    (proxies : List ProxyRecord) (pools : List RoutingPool) (host : Bytes)
    → and_then (pool_index (build proxies pools) host) (get_elem? pools) ≡ linear_pool pools host
unfolding linear_pool option_or pool_or
pool_index-linear proxies pools host = elim (Option-cases found) [
  | inl e ↦ ground (
    arith,
    build-best proxies pools host,
    build-default proxies pools,
    linear_pools-best host pools,
    e,
  )
  | inr (r, e) ↦ ground (
    arith,
    build-best proxies pools host,
    linear_pools-best host pools,
    e,
    best_in_range host pools r e,
  )
]
  where
    found : Option RankedPool
    found = best (domain_matches host) (rank_pools 0 0 pools)

get_elem?-lt {ℓ} :
    {A : Type ℓ} (xs : List A) (i : ℕ) → is_some (get_elem? xs i) ≡ true → i < length xs
get_elem?-lt [] i h = cc
get_elem?-lt (x ∷ xs) zero h = omega arith
get_elem?-lt (x ∷ xs) (suc i) h = omega (arith, get_elem?-lt xs i h)

-- Entries of the index that are there, for each pool and only for pools.
members-add_rules :
    (i order : ℕ) (rules : List Bytes) (index : RoutingIndex)
    → (add_rules i order rules index).members ≡ index.members
unfolding add_rules
members-add_rules i order [] index = refl
members-add_rules i order (rule ∷ rules) index =
    let k : RankedPool = record { pool = i; specificity = specificity rule; order = order } in
    members-add_rules i (suc order) rules (add_rule rule k index) ∙ unfold add_rule in ground arith

members-open_pool :
    (i : ℕ) (pool : RoutingPool) (index : RoutingIndex)
    → length (open_pool i pool index).members ≡ length index.members + 1
unfolding open_pool
members-open_pool i pool index =
    length-append index.members (sort (member_nodes index.nodes_by_id pool.members) ∷ [])

length-members :
    (i order : ℕ) (rest : List RoutingPool) (index : RoutingIndex)
    → length (add_pools i order rest index).members ≡ length index.members + length rest
unfolding add_pools
length-members i order [] index = omega arith
length-members i order (pool ∷ rest) index = omega (
  arith,
  length-members (suc i) (order + length pool.rules) rest
      (add_rules i order pool.rules (open_pool i pool index)),
  ap (length {A = List ℕ}) (members-add_rules i order pool.rules (open_pool i pool index)),
  members-open_pool i pool index,
)

abbrev Below : ℕ → Option ℕ → Type 0
Below n none = Unit
Below n (some i) = i < n

default-Below :
    (i order : ℕ) (rest : List RoutingPool) (index : RoutingIndex)
    → Below i index.default_pool
    → Below (i + length rest) (add_pools i order rest index).default_pool
unfolding add_pools
default-Below i order [] index h = subst (λ n. Below n index.default_pool) (omega arith) h
default-Below i order (pool ∷ rest) index h =
    let opened = open_pool i pool index in
    let added = add_rules i order pool.rules opened in
    subst (λ n. Below n (add_pools (suc i) (order + length pool.rules) rest added).default_pool)
      (omega arith)
      (default-Below (suc i) (order + length pool.rules) rest added
        (rw (add_rules-default i order pool.rules opened) here))
  where
    weaker : (d : Option ℕ) → Below i d → Below (suc i) d
    weaker none b = tt
    weaker (some j) b = omega arith

    here : Below (suc i) (open_pool i pool index).default_pool
    here = elim (Bool-cases pool.is_default) [
      | inl e ↦ unfold open_pool in rw e (omega arith)
      | inr e ↦ unfold open_pool in rw e (weaker index.default_pool h)
    ]

-- `snapshot.pools[i]` and `index.members[i]` are in range at every index that the search
-- returns, so neither access panics.
pub pool_index_in_range :
    (proxies : List ProxyRecord) (pools : List RoutingPool) (host : Bytes) {i : ℕ}
    → pool_index (build proxies pools) host ≡ some i
    → (i < length pools) × (i < length (build proxies pools).members)
unfolding build empty_index pool_or
pool_index_in_range proxies pools host {i} h = elim (Option-cases found) [
  | inl e ↦ within (from_default e)
  | inr (r, e) ↦ within (from_best r e)
]
  where
    found : Option RankedPool
    found = best (domain_matches host) (rank_pools 0 0 pools)

    within : i < length pools → (i < length pools) × (i < length (build proxies pools).members)
    within b = (b, omega (arith, length-members 0 0 pools (empty_index proxies)))

    from_default : found ≡ none → i < length pools
    from_default e =
        ground (
          arith,
          build-best proxies pools host,
          e,
          default-Below 0 0 pools (empty_index proxies) tt,
        )

    from_best : (r : RankedPool) → found ≡ some r → i < length pools
    from_best r e = ground (
      arith,
      build-best proxies pools host,
      e,
      get_elem?-lt pools r.pool (best_in_range host pools r e),
    )
