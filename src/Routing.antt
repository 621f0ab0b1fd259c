-- ===== src/Routing.antt =====
-- src-tauri/src/routing.rs: the routing index over domain rules and the linear reference search.
mod Suffix
mod Best
mod Index
mod Linear
pub mod Snapshot
mod Examples
pub mod Equivalence
use Prim.Native.String.{String}
use proxy_load.Base.{
  ℕ, zero, suc, ◌+◌, Bool, true, false, not, ◌&&◌, ◌||◌, Option, none, some, List, [], ◌∷◌, map,
  if◌then◌else◌, ltb, leb, nat_beq, length, get_elem?, is_some_and, is_some, ◌==◌, nat_eq, list_eq,
  unwrap_or, sort, ◌++◌,
}
use proxy_load.Base.Map.{Map, get, insert}
use proxy_load.Models.{Bytes, ProxyRecord, RoutingPool}

-- The text operations of the standard library that the rules use, over bytes.
unfoldable pub strip_prefix : Bytes → Bytes → Option Bytes
strip_prefix [] s = some s
strip_prefix (c ∷ p) [] = none
strip_prefix (c ∷ p) (d ∷ s) = if nat_beq c d then strip_prefix p s else none

abbrev pub cons_to : ℕ → Option Bytes → Option Bytes
cons_to c none = none
cons_to c (some p) = some (c ∷ p)

-- `strip_suffix host suffix`: the part of `host` before a final `suffix`.
unfoldable pub strip_suffix : Bytes → Bytes → Option Bytes
strip_suffix [] s = if [] == s then some [] else none
strip_suffix (c ∷ r) s = if (c ∷ r) == s then some [] else cons_to c (strip_suffix r s)

unfoldable pub ends_with_dot : Bytes → Bool
ends_with_dot [] = false
ends_with_dot (c ∷ []) = nat_beq c b'.'
ends_with_dot (c ∷ d ∷ r) = ends_with_dot (d ∷ r)

-- `trim_start_matches('*')`.
unfoldable pub trim_stars : Bytes → Bytes
trim_stars [] = []
trim_stars (c ∷ r) = if nat_beq c b'*' then trim_stars r else c ∷ r

abbrev pub star : Bytes
star = b'*' ∷ []

abbrev pub star_dot : Bytes
star_dot = b'*' ∷ b'.' ∷ []

pub record RankedPool : Type 0 where
  pub pool : ℕ
  pub specificity : ℕ
  pub order : ℕ

-- `(a.specificity, Reverse(a.order)) >= (b.specificity, Reverse(b.order))`.
unfoldable pub preferred : RankedPool → RankedPool → RankedPool
preferred a b =
    if ltb b.specificity a.specificity || nat_beq a.specificity b.specificity && leb a.order b.order
    then a
    else b

pub record RoutingIndex : Type 0 where
  pub nodes_by_id : Map ℕ ℕ
  pub global : List ℕ
  pub members : List (List ℕ)
  pub exact : Map Bytes RankedPool
  pub suffix : Map Bytes RankedPool
  pub catch_all : Option RankedPool
  pub default_pool : Option ℕ

-- `best.map_or(candidate, |old| preferred(old, candidate))`, for a candidate that may be missing.
unfoldable pub consider : Option RankedPool → Option RankedPool → Option RankedPool
consider best none = best
consider none (some candidate) = some candidate
consider (some old) (some candidate) = some (preferred old candidate)

merge : Bytes → RankedPool → Map Bytes RankedPool → Map Bytes RankedPool
merge key rank m = insert key (unwrap_or (consider (get key m) (some rank)) rank) m

unfoldable pub specificity : Bytes → ℕ
unfolding trim_stars
specificity rule = length (trim_stars rule)

add_suffix_or_exact : Option Bytes → Bytes → RankedPool → RoutingIndex → RoutingIndex
unfolding merge
add_suffix_or_exact (some suffix) rule rank index = record index {
  suffix = merge suffix rank index.suffix;
}
add_suffix_or_exact none rule rank index = record index { exact = merge rule rank index.exact }

-- The body of the loop over one pool's rules.
add_rule : Bytes → RankedPool → RoutingIndex → RoutingIndex
unfolding add_suffix_or_exact strip_prefix
add_rule rule rank index =
    if rule == star
    then record index { catch_all = consider index.catch_all (some rank) }
    else add_suffix_or_exact (strip_prefix star_dot rule) rule rank index

add_rules : ℕ → ℕ → List Bytes → RoutingIndex → RoutingIndex
unfolding add_rule specificity
add_rules pool order [] index = index
add_rules pool order (rule ∷ rules) index =
    add_rules pool (suc order) rules
      (add_rule rule (record { pool = pool; specificity = specificity rule; order = order }) index)

-- `pool.members.iter().filter_map(|id| nodes_by_id.get(id)).collect()`, sorted.
member_nodes : Map ℕ ℕ → List ℕ → List ℕ
member_nodes nodes [] = []
member_nodes nodes (id ∷ ids) = elim (get id nodes) [
  | none ↦ member_nodes nodes ids
  | some node ↦ node ∷ member_nodes nodes ids
]

open_pool : ℕ → RoutingPool → RoutingIndex → RoutingIndex
unfolding member_nodes
open_pool i pool index = record index {
  members = index.members ++ sort (member_nodes index.nodes_by_id pool.members) ∷ [];
  default_pool = if pool.is_default then some i else index.default_pool;
}

add_pools : ℕ → ℕ → List RoutingPool → RoutingIndex → RoutingIndex
unfolding add_rules open_pool
add_pools i order [] index = index
add_pools i order (pool ∷ pools) index =
    add_pools (suc i) (order + length pool.rules) pools
      (add_rules i order pool.rules (open_pool i pool index))

number_nodes : ℕ → List ProxyRecord → Map ℕ ℕ → Map ℕ ℕ
number_nodes i [] nodes = nodes
number_nodes i (proxy ∷ proxies) nodes = number_nodes (suc i) proxies (insert proxy.id i nodes)

range_from : ℕ → List ProxyRecord → List ℕ
range_from i [] = []
range_from i (proxy ∷ proxies) = i ∷ range_from (suc i) proxies

-- The index that `RoutingIndex::build` starts from.
empty_index : List ProxyRecord → RoutingIndex
unfolding number_nodes range_from
empty_index proxies = record {
  nodes_by_id = number_nodes 0 proxies [];
  global = range_from 0 proxies;
  members = [];
  exact = [];
  suffix = [];
  catch_all = none;
  default_pool = none;
}

-- `RoutingIndex::build`.
pub build : List ProxyRecord → List RoutingPool → RoutingIndex
unfolding add_pools empty_index
build proxies pools = add_pools 0 0 pools (empty_index proxies)

-- The loop over `host.match_indices('.')`.
consider_suffixes : Map Bytes RankedPool → Option RankedPool → Bytes → Option RankedPool
consider_suffixes m best [] = best
consider_suffixes m best (c ∷ rest) =
    consider_suffixes m (if nat_beq c b'.' then consider best (get rest m) else best) rest

pub pool_or : Option RankedPool → Option ℕ → Option ℕ
pool_or none default = default
pool_or (some best) default = some best.pool

-- `RoutingSnapshot::pool_index`, on the index of the snapshot.
pub pool_index : RoutingIndex → Bytes → Option ℕ
unfolding consider_suffixes pool_or
pool_index index host =
    let with_exact = consider index.catch_all (get host index.exact) in
    let with_host = consider with_exact (get host index.suffix) in
    pool_or (consider_suffixes index.suffix with_host host) index.default_pool

-- `domain_matches`.
pub domain_matches : Bytes → Bytes → Bool
unfolding strip_prefix strip_suffix ends_with_dot
domain_matches host rule = if rule == star then true else elim (strip_prefix star_dot rule) [
  | some suffix ↦ host == suffix || is_some_and (strip_suffix host suffix) ends_with_dot
  | none ↦ host == rule
]

-- `selected` and `specificity` of `linear_pool`.
abbrev pub Selection : Type 0
Selection = Option RoutingPool × ℕ

linear_rules : Bytes → RoutingPool → List Bytes → Selection → Selection
unfolding domain_matches specificity
linear_rules host pool [] s = s
linear_rules host pool (rule ∷ rules) s = linear_rules host pool rules (
    if domain_matches host rule && (not (is_some s.0) || ltb s.1 (specificity rule))
    then (some pool, specificity rule)
    else s)

pub linear_pools : Bytes → List RoutingPool → Selection → Selection
unfolding linear_rules
linear_pools host [] s = s
linear_pools host (pool ∷ pools) s = linear_pools host pools (linear_rules host pool pool.rules s)

linear_fallback : List RoutingPool → Option RoutingPool → Option RoutingPool
linear_fallback [] fallback = fallback
linear_fallback (pool ∷ pools) fallback =
    linear_fallback pools (if pool.is_default then some pool else fallback)

option_or {ℓ} : {A : Type ℓ} → Option A → Option A → Option A
option_or none other = other
option_or (some a) other = some a

-- `RoutingSnapshot::linear_pool`: the reference search.
pub linear_pool : List RoutingPool → Bytes → Option RoutingPool
unfolding linear_pools linear_fallback option_or
linear_pool pools host =
    option_or (linear_pools host pools (none, 0)).0 (linear_fallback pools none)
