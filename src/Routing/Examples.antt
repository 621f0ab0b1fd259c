-- ===== src/Routing/Examples.antt =====
-- Routing at concrete configurations: two pools, the second of which is the default.
use proxy_load.Base.{◌≡◌, refl, List, [], ◌∷◌, none, some, true, false, get_elem?, and_then}
use proxy_load.Models.{Bytes, ProxyRecord, RoutingPool}
use proxy_load.Base.Map.{get, insert}
use proxy_load.Samples.{node}
use proxy_load.Routing.{
  consider, build, pool_index, linear_pool, empty_index, number_nodes, range_from, add_pools,
}
use proxy_load.Routing.Equivalence.{pool_index-linear}
use proxy_load.Routing.Snapshot.{RoutingSnapshot, new, default, pool, Published, Published-pool}

abbrev nodes : List ProxyRecord
nodes = node 1 ∷ node 2 ∷ []

-- The rules are `*.a.b` and `a.b` of the first pool; the second pool is the default.
abbrev first_pool : RoutingPool
first_pool = record {
  id = 7;
  name = [];
  is_default = false;
  members = 1 ∷ [];
  rules = (42 ∷ 46 ∷ 97 ∷ 46 ∷ 98 ∷ []) ∷ (97 ∷ 46 ∷ 98 ∷ []) ∷ [];
  algorithm_override = none;
  sticky_failover_seconds = 0;
  revision = 1;
}

abbrev pools : List RoutingPool
pools = first_pool ∷ record first_pool { id = 8; is_default = true; rules = [] } ∷ []

-- `x.a.b`.
abbrev host : Bytes
host = 120 ∷ 46 ∷ 97 ∷ 46 ∷ 98 ∷ []

pool_index-linear_example :
    and_then (pool_index (build nodes pools) host) (get_elem? pools) ≡ linear_pool pools host
pool_index-linear_example = pool_index-linear nodes pools host

found : pool_index (build nodes pools) host ≡ some 0
unfolding build pool_index consider get insert
found = refl

empty_build : default.index ≡ build [] []
unfolding build empty_index add_pools number_nodes range_from
empty_build = refl

abbrev published : RoutingSnapshot
published = new 1 nodes ((1, 1) ∷ (2, 1) ∷ []) pools default

Published-pool_example : pool published host ≡ linear_pool published.pools host
Published-pool_example =
    Published-pool (Published.next 1 nodes ((1, 1) ∷ (2, 1) ∷ []) pools Published.first) host
