-- ===== src/Routing/Index.antt =====
-- routing.rs: what `RoutingIndex::build` puts into the maps, and what `pool_index` reads there.
use proxy_load.Base.{
  ℕ, suc, ◌+◌, ◌≡◌, refl, ◌∙◌, inl, inr, Bool, true, false, not, ◌||◌, ◌&&◌, none, some, List, [],
  ◌∷◌, ◌++◌, arith, length, any, if◌then◌else◌, nat_beq, Bool-cases, Option-cases, ◌==◌, list_beq,
  list_beq_iff, list_beq_comm, nat_eq, list_eq, unwrap_or, subst,
}
use proxy_load.Base.Map.{Map, get, get-insert}
use proxy_load.Models.{Bytes, RoutingPool, ProxyRecord}
use proxy_load.Routing.{
  RankedPool, RoutingIndex, consider, merge, add_rule, add_rules, open_pool, add_pools, star,
  star_dot, strip_prefix, specificity, consider_suffixes, pool_index, build, domain_matches,
  pool_or, empty_index,
}
use proxy_load.Routing.Best.{
  Ranked, best, best-append, best_or, best_cong, Grows, consider_assoc, consider-none,
}
use proxy_load.Routing.Suffix.{after_dots, dotted}

-- The ranks that `build` gives to the rules of a pool, and of all pools.
abbrev pub rank_rules : ℕ → ℕ → List Bytes → Ranked
rank_rules i order [] = []
rank_rules i order (rule ∷ rules) =
    (rule, record { pool = i; specificity = specificity rule; order = order })
    ∷ rank_rules i (suc order) rules

abbrev pub rank_pools : ℕ → ℕ → List RoutingPool → Ranked
rank_pools i order [] = []
rank_pools i order (pool ∷ pools) =
    rank_rules i order pool.rules ++ rank_pools (suc i) (order + length pool.rules) pools

-- Which rules end up in which part of the index.
abbrev pub is_star : Bytes → Bool
is_star rule = rule == star

abbrev pub is_exact : Bytes → Bytes → Bool
is_exact key rule =
    not (rule == star)
    && (elim (strip_prefix star_dot rule) [ none ↦ key == rule | some s ↦ false ])

abbrev pub is_suffix : Bytes → Bytes → Bool
is_suffix key rule =
    not (rule == star) && (elim (strip_prefix star_dot rule) [ none ↦ false | some s ↦ key == s ])

get-merge :
    (key k : Bytes) (rank : RankedPool) (m : Map Bytes RankedPool)
    → get key (merge k rank m)
      ≡ (if list_beq key k then consider (get key m) (some rank) else get key m)
unfolding merge consider
get-merge key k rank m = ground (
  arith,
  get-insert key k (unwrap_or (consider (get k m) (some rank)) rank) m,
  list_beq_iff k key,
  list_beq_comm k key,
  Option-cases (get k m),
)

-- `after` is `before` with the rules of `es` added.
pub record Adds (es : Ranked) (before after : RoutingIndex) : Type 0 where
  pub stars : after.catch_all ≡ consider before.catch_all (best is_star es)
  pub exacts :
      (key : Bytes) → get key after.exact ≡ consider (get key before.exact) (best (is_exact key) es)
  pub suffixes :
      (key : Bytes)
      → get key after.suffix ≡ consider (get key before.suffix) (best (is_suffix key) es)

Adds-trans :
    (es fs : Ranked) {a b c : RoutingIndex} → Adds es a b → Adds fs b c → Adds (es ++ fs) a c
Adds-trans es fs {a} p q = record {
  stars = rw (q.stars, p.stars, best-append is_star es fs) (consider_assoc _ _ _);
  exacts = λ key.
      rw (q.exacts key, p.exacts key, best-append (is_exact key) es fs) (consider_assoc _ _ _);
  suffixes = λ key.
      rw (q.suffixes key, p.suffixes key, best-append (is_suffix key) es fs) (consider_assoc _ _ _);
}

add_rule-Adds :
    (rule : Bytes) (k : RankedPool) (index : RoutingIndex)
    → Adds ((rule, k) ∷ []) index (add_rule rule k index)
unfolding add_rule consider
add_rule-Adds rule k index = record {
  stars = ground arith;
  exacts = λ key. ground (arith, get-merge key rule k index.exact);
  suffixes = λ key. elim (Option-cases (strip_prefix star_dot rule)) [
    | inl e ↦ ground (arith, e)
    | inr (s, e) ↦ ground (arith, e, get-merge key s k index.suffix)
  ];
}

open_pool-Adds :
    (i : ℕ) (pool : RoutingPool) (index : RoutingIndex) → Adds [] index (open_pool i pool index)
unfolding open_pool consider
open_pool-Adds i pool index = record { stars = refl; exacts = λ key. refl; suffixes = λ key. refl }

add_rules-Adds :
    (i order : ℕ) (rules : List Bytes) (index : RoutingIndex)
    → Adds (rank_rules i order rules) index (add_rules i order rules index)
unfolding add_rules consider
add_rules-Adds i order [] index = record {
  stars = refl;
  exacts = λ key. refl;
  suffixes = λ key. refl;
}
add_rules-Adds i order (rule ∷ rules) index =
    let k : RankedPool = record { pool = i; specificity = specificity rule; order = order } in
    Adds-trans ((rule, k) ∷ []) (rank_rules i (suc order) rules) (add_rule-Adds rule k index)
      (add_rules-Adds i (suc order) rules (add_rule rule k index))

add_pools-Adds :
    (i order : ℕ) (pools : List RoutingPool) (index : RoutingIndex)
    → Adds (rank_pools i order pools) index (add_pools i order pools index)
unfolding add_pools consider
add_pools-Adds i order [] index = record {
  stars = refl;
  exacts = λ key. refl;
  suffixes = λ key. refl;
}
add_pools-Adds i order (pool ∷ pools) index =
    let opened = open_pool i pool index in
    let added = add_rules i order pool.rules opened in
    Adds-trans (rank_rules i order pool.rules)
      (rank_pools (suc i) (order + length pool.rules) pools)
      (Adds-trans [] (rank_rules i order pool.rules) (open_pool-Adds i pool index)
        (add_rules-Adds i order pool.rules opened))
      (add_pools-Adds (suc i) (order + length pool.rules) pools added)

rank_rules-Grows :
    (i order : ℕ) (rules : List Bytes) (es : Ranked)
    → Grows (order + length rules) es
    → Grows order (rank_rules i order rules ++ es)
rank_rules-Grows i order [] es g = subst (λ n. Grows n es) (omega arith) g
rank_rules-Grows i order (rule ∷ rules) es g =
    (omega arith, rank_rules-Grows i (suc order) rules es (subst (λ n. Grows n es) (omega arith) g))

pub rank_pools-Grows :
    (i order : ℕ) (pools : List RoutingPool) → Grows order (rank_pools i order pools)
rank_pools-Grows i order [] = tt
rank_pools-Grows i order (pool ∷ pools) =
    rank_rules-Grows i order pool.rules (rank_pools (suc i) (order + length pool.rules) pools)
      (rank_pools-Grows (suc i) (order + length pool.rules) pools)

any-is_suffix-none :
    (rule : Bytes)
    → strip_prefix star_dot rule ≡ none
    → (keys : List Bytes) → any (λ t. is_suffix t rule) keys ≡ false
any-is_suffix-none rule n [] = refl
any-is_suffix-none rule n (key ∷ keys) = ground (arith, n, any-is_suffix-none rule n keys)

any-is_suffix-some :
    (rule s : Bytes)
    → list_beq rule star ≡ false
    → strip_prefix star_dot rule ≡ some s
    → (keys : List Bytes) → any (λ t. is_suffix t rule) keys ≡ any (λ t. t == s) keys
any-is_suffix-some rule s e m [] = refl
any-is_suffix-some rule s e m (key ∷ keys) =
    ground (arith, e, m, any-is_suffix-some rule s e m keys)

any-is_suffix-star :
    (rule : Bytes)
    → list_beq rule star ≡ true
    → (keys : List Bytes) → any (λ t. is_suffix t rule) keys ≡ false
any-is_suffix-star rule e [] = refl
any-is_suffix-star rule e (key ∷ keys) = ground (arith, e, any-is_suffix-star rule e keys)

-- The four places in which `pool_index` looks hold the rules that match the host.
domain_matches_places :
    (host rule : Bytes)
    → ((is_star rule || is_exact host rule) || is_suffix host rule)
        || any (λ t. is_suffix t rule) (after_dots host)
      ≡ domain_matches host rule
unfolding domain_matches
domain_matches_places host rule = elim (Bool-cases (list_beq rule star)) [
  | inl e ↦ ground (arith, e, any-is_suffix-star rule e (after_dots host))
  | inr e ↦ elim (Option-cases (strip_prefix star_dot rule)) [
    | inl n ↦ ground (arith, e, n, any-is_suffix-none rule n (after_dots host))
    | inr (s, m) ↦
        ground (arith, e, m, any-is_suffix-some rule s e m (after_dots host), dotted host s)
  ]
]

consider_suffixes-best :
    (n : ℕ) (es : Ranked) (m : Map Bytes RankedPool)
    → Grows n es
    → ((key : Bytes) → get key m ≡ best (is_suffix key) es)
    → (q : Bytes → Bool) (host : Bytes)
    → consider_suffixes m (best q es) host
      ≡ best (λ rule. q rule || any (λ t. is_suffix t rule) (after_dots host)) es
unfolding consider_suffixes
consider_suffixes-best n es m grows reads q [] =
    best_cong q (λ rule. q rule || false) es (λ rule. ground arith)
consider_suffixes-best n es m grows reads q (c ∷ rest) = elim (Bool-cases (nat_beq c b'.')) [
  | inl e ↦ ground (
    arith,
    e,
    reads rest,
    best_or n q (is_suffix rest) es grows,
    consider_suffixes-best n es m grows reads (λ rule. q rule || is_suffix rest rule) rest,
    best_cong
        (λ rule. (q rule || is_suffix rest rule) || any (λ t. is_suffix t rule) (after_dots rest))
        (λ rule. q rule || any (λ t. is_suffix t rule) (rest ∷ after_dots rest)) es
        (λ rule. ground arith),
  )
  | inr e ↦ ground (arith, e, consider_suffixes-best n es m grows reads q rest)
]

-- The index finds the best rank among all rules that match.
pub build-best :
    (proxies : List ProxyRecord) (pools : List RoutingPool) (host : Bytes)
    → pool_index (build proxies pools) host
      ≡ pool_or
          (best (domain_matches host) (rank_pools 0 0 pools))
          (build proxies pools).default_pool
unfolding pool_index get consider empty_index
build-best proxies pools host = ground (
  arith,
  added.stars,
  consider-none (best is_star es),
  added.exacts host,
  consider-none (best (is_exact host) es),
  added.suffixes host,
  consider-none (best (is_suffix host) es),
  best_or 0 is_star (is_exact host) es grows,
  best_or 0 (λ rule. is_star rule || is_exact host rule) (is_suffix host) es grows,
  consider_suffixes-best 0 es (build proxies pools).suffix grows
      (λ key. added.suffixes key ∙ consider-none (best (is_suffix key) es))
      (λ rule. (is_star rule || is_exact host rule) || is_suffix host rule) host,
  best_cong
      (λ rule.
        ((is_star rule || is_exact host rule) || is_suffix host rule)
        || any (λ t. is_suffix t rule) (after_dots host))
      (domain_matches host) es (domain_matches_places host),
)
  where
    es : Ranked
    es = rank_pools 0 0 pools

    grows : Grows 0 es
    grows = rank_pools-Grows 0 0 pools

    added : Adds es (empty_index proxies) (build proxies pools)
    added = unfold build in add_pools-Adds 0 0 pools (empty_index proxies)
