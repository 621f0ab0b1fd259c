-- ===== src/Routing/Snapshot.antt =====
-- routing.rs: `RoutingSnapshot::new`, which keeps the previous index where it still fits, and
-- `RouteContext::new`.
use Prim.Native.String.{String}
use proxy_load.Base.{
  ℕ, suc, ◌+◌, ◌≡◌, refl, sym, ap, ◌∙◌, inl, inr, Bool, true, ◌&&◌, Option, none, some, List, [],
  ◌∷◌, arith, length, if◌then◌else◌, get_elem?, Bool-cases, and_then, unwrap_or, nat_beq,
  nat_beq_iff, bool_beq, bool_beq_iff, list_beq, list_beq_iff, zip_all, nat_eq, list_eq,
}
use proxy_load.Base.Map.{Map, get, insert}
use proxy_load.Models.{Bytes, RoutingPool, ProxyRecord}
use proxy_load.Routing.{
  RoutingIndex, build, add_pools, add_rules, open_pool, empty_index, number_nodes, range_from,
  pool_index, linear_pool,
}
use proxy_load.Routing.Equivalence.{pool_index-linear}

pub record RoutingSnapshot : Type 0 where
  pub generation : ℕ
  pub proxies : List ProxyRecord
  pub node_generations : Map ℕ ℕ
  pub pools : List RoutingPool
  pub index : RoutingIndex

same_entry : RoutingPool → RoutingPool → Bool
same_entry a b =
    nat_beq a.id b.id
    && (list_beq a.members b.members
        && (list_beq a.rules b.rules && bool_beq a.is_default b.is_default))

-- `same_index` of `RoutingSnapshot::new`.
same_index : List ProxyRecord → List RoutingPool → RoutingSnapshot → Bool
unfolding same_entry
same_index proxies pools previous =
    nat_beq (length proxies) (length previous.proxies)
    && (zip_all (λ a b. nat_beq a.id b.id) proxies previous.proxies
        && (nat_beq (length pools) (length previous.pools)
            && zip_all same_entry pools previous.pools))

-- `RoutingSnapshot::new`.
pub new : ℕ → List ProxyRecord → Map ℕ ℕ → List RoutingPool → RoutingSnapshot → RoutingSnapshot
unfolding same_index
new generation proxies node_generations pools previous = record {
  generation = generation;
  proxies = proxies;
  node_generations = node_generations;
  pools = pools;
  index = if same_index proxies pools previous then previous.index else build proxies pools;
}

-- `RoutingSnapshot::proxy`.
pub proxy : RoutingSnapshot → ℕ → Option ProxyRecord
proxy s id = and_then (get id s.index.nodes_by_id) (get_elem? s.proxies)

-- `RoutingSnapshot::pool`, at a normalized host.
pub pool : RoutingSnapshot → Bytes → Option RoutingPool
pool s host = and_then (pool_index s.index host) (get_elem? s.pools)

pub record RouteContext : Type 0 where
  pub snapshot : RoutingSnapshot
  pub host : Bytes
  pub pool : Option RoutingPool
  pub members : List ℕ
  pub algorithm : String

-- `RouteContext::new`, at a normalized host.
pub context : RoutingSnapshot → Bytes → String → RouteContext
unfolding pool
context s host global_algorithm = record {
  snapshot = s;
  host = host;
  pool = pool s host;
  members = elim (pool_index s.index host) [
    | none ↦ s.index.global
    | some i ↦ unwrap_or (get_elem? s.index.members i) []
  ];
  algorithm = unwrap_or (and_then (pool s host) (λ p. p.algorithm_override)) global_algorithm;
}

-- The index is a function of what `same_index` compares.
number_nodes_same :
    (i : ℕ) (xs ys : List ProxyRecord) (m : Map ℕ ℕ)
    → length xs ≡ length ys
    → zip_all (λ (a b : ProxyRecord). nat_beq a.id b.id) xs ys ≡ true
    → number_nodes i xs m ≡ number_nodes i ys m
unfolding number_nodes
number_nodes_same i [] [] m n h = refl
number_nodes_same i [] (y ∷ ys) m n h = absurd (omega arith)
number_nodes_same i (x ∷ xs) [] m n h = absurd (omega arith)
number_nodes_same i (x ∷ xs) (y ∷ ys) m n h = ground (
  arith,
  h,
  nat_beq_iff x.id y.id,
  number_nodes_same (suc i) xs ys (insert x.id i m) (omega arith),
)

range_from_same :
    (i : ℕ) (xs ys : List ProxyRecord) → length xs ≡ length ys → range_from i xs ≡ range_from i ys
unfolding range_from
range_from_same i [] [] n = refl
range_from_same i [] (y ∷ ys) n = absurd (omega arith)
range_from_same i (x ∷ xs) [] n = absurd (omega arith)
range_from_same i (x ∷ xs) (y ∷ ys) n = ap (◌∷◌ i) (range_from_same (suc i) xs ys (omega arith))

open_pool_same :
    (i : ℕ) (x y : RoutingPool) (index : RoutingIndex)
    → x.members ≡ y.members
    → x.is_default ≡ y.is_default
    → open_pool i x index ≡ open_pool i y index
unfolding open_pool
open_pool_same i x y index m d = ground (arith, m, d)

add_pools_same :
    (i order : ℕ) (xs ys : List RoutingPool) (index : RoutingIndex)
    → length xs ≡ length ys
    → zip_all same_entry xs ys ≡ true
    → add_pools i order xs index ≡ add_pools i order ys index
unfolding add_pools same_entry
add_pools_same i order [] [] index n h = refl
add_pools_same i order [] (y ∷ ys) index n h = absurd (omega arith)
add_pools_same i order (x ∷ xs) [] index n h = absurd (omega arith)
add_pools_same i order (x ∷ xs) (y ∷ ys) index n h =
    let rules : x.rules ≡ y.rules = ground (arith, h, list_beq_iff x.rules y.rules) in
    let members : x.members ≡ y.members = ground (arith, h, list_beq_iff x.members y.members) in
    let default : x.is_default ≡ y.is_default =
      ground (arith, h, bool_beq_iff x.is_default y.is_default) in
    let more : zip_all same_entry xs ys ≡ true = unfold same_entry in ground (arith, h) in
    let added = add_rules i order x.rules (open_pool i x index) in
    add_pools_same (suc i) (order + length x.rules) xs ys added (omega arith) more
    ∙ cc (rules, open_pool_same i x y index members default)

build_same :
    (proxies proxies' : List ProxyRecord) (pools pools' : List RoutingPool)
    → length proxies ≡ length proxies'
    → zip_all (λ (a b : ProxyRecord). nat_beq a.id b.id) proxies proxies' ≡ true
    → length pools ≡ length pools'
    → zip_all same_entry pools pools' ≡ true
    → build proxies pools ≡ build proxies' pools'
unfolding build empty_index
build_same proxies proxies' pools pools' n h k g =
    rw (number_nodes_same 0 proxies proxies' [] n h, range_from_same 0 proxies proxies' n)
      (add_pools_same 0 0 pools pools' (empty_index proxies') k g)

same_index-build :
    (proxies : List ProxyRecord) (pools : List RoutingPool) (previous : RoutingSnapshot)
    → same_index proxies pools previous ≡ true
    → build proxies pools ≡ build previous.proxies previous.pools
unfolding same_index
same_index-build proxies pools previous e =
    build_same proxies previous.proxies pools previous.pools (ground (arith, e)) (ground (arith, e))
      (ground (arith, e)) (ground (arith, e))

-- A snapshot's index is the one that `build` makes of its own proxies and pools, as long as that
-- held of the snapshot before it, whether `new` rebuilds the index or keeps it.
pub new-index :
    (generation : ℕ) (proxies : List ProxyRecord) (node_generations : Map ℕ ℕ)
    (pools : List RoutingPool) (previous : RoutingSnapshot)
    → previous.index ≡ build previous.proxies previous.pools
    → (new generation proxies node_generations pools previous).index ≡ build proxies pools
unfolding new
new-index generation proxies node_generations pools previous h =
    elim (Bool-cases (same_index proxies pools previous)) [
      | inl e ↦ rw e (h ∙ sym (same_index-build proxies pools previous e))
      | inr e ↦ rw e
    ]

-- `RoutingSnapshot::default`, and the snapshots that are published from it one after the other.
abbrev pub default : RoutingSnapshot
default = record {
  generation = 0;
  proxies = [];
  node_generations = [];
  pools = [];
  index = record {
    nodes_by_id = [];
    global = [];
    members = [];
    exact = [];
    suffix = [];
    catch_all = none;
    default_pool = none;
  };
}

pub data Published : RoutingSnapshot → Type 0 where
  first : Published default
  next :
      {previous : RoutingSnapshot} (generation : ℕ) (proxies : List ProxyRecord)
      (node_generations : Map ℕ ℕ) (pools : List RoutingPool)
      → Published previous
      → Published (new generation proxies node_generations pools previous)

Published-index : {s : RoutingSnapshot} → Published s → s.index ≡ build s.proxies s.pools
unfolding build empty_index add_pools number_nodes range_from new
Published-index first = refl
Published-index (next {previous} generation proxies node_generations pools p) =
    new-index generation proxies node_generations pools previous (Published-index p)

-- In every published snapshot, however many updates kept the old index, the search for a host
-- finds the pool that the linear search over the snapshot's own pools finds.
pub Published-pool :
    {s : RoutingSnapshot} → Published s → (host : Bytes) → pool s host ≡ linear_pool s.pools host
unfolding pool
Published-pool {s} p host = rw (Published-index p) (pool_index-linear s.proxies s.pools host)
