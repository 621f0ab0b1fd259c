-- ===== src/Selection/Examples.antt =====
-- Selection at a concrete state of two proxies.
use mathlib.Core.List.{Perm}
use proxy_load.Base.{suc, length, arith, ℕ, ◌≡◌, true, false, none, List, [], ◌∷◌}
use proxy_load.Candidate.{Candidate}
use proxy_load.Breaker.{opened}
use proxy_load.Routing.Snapshot.{RouteContext}
use proxy_load.Selection.Order.{order_proxies_in_pool}
use proxy_load.Selection.Order.Permutes.{active_first, order_proxies_in_pool-Perm}
use proxy_load.Selection.Choose.{select_from_context}
use proxy_load.Selection.Choose.Eligible.{selected_all, may_try, select_from_context-may_try}
use proxy_load.Samples.{numbers, unparsed, spread, always_ready, runtime, breaker, request, node}
use proxy_load.Base.{unwrap_or, nat_eq}
use proxy_load.Base.Map.{Map, get}
use proxy_load.Selection.Reserve.{route_context, try_reserve_proxy, increment_active, drop_lease}
use proxy_load.Selection.Reserve.Leases.{drop_lease-increment_active}
use proxy_load.Samples.{lease}
use proxy_load.Selection.Reserve.Turns.{settled}
use proxy_load.Selection.Reserve.Ends.{try_reserve_proxy-settled}

abbrev given : List Candidate
given =
    record { config = node 1; inactive = true } ∷ record { config = node 2; inactive = false } ∷ []

abbrev route : RouteContext
route = record {
  snapshot = (runtime (breaker opened none)).snapshot;
  host = 97 ∷ [];
  pool = none;
  members = 0 ∷ 1 ∷ [];
  algorithm = "round_robin";
}

order_proxies_in_pool-Perm_example :
    Perm
      (order_proxies_in_pool numbers unparsed
        (λ id. id)
        6000
        "least_connections"
        0
        true
        none
        (runtime (breaker opened none))
        given).1
      given
    × (active_first
          (order_proxies_in_pool numbers unparsed
            (λ id. id)
            6000
            "least_connections"
            0
            true
            none
            (runtime (breaker opened none))
            given).1
        ≡ true)
order_proxies_in_pool-Perm_example =
    order_proxies_in_pool-Perm numbers unparsed (λ id. id) 6000 "least_connections" 0 true none
      (runtime (breaker opened none)) given

select_from_context-may_try_example :
    selected_all
      (may_try numbers unparsed spread always_ready 6000 request
        (2 ∷ [])
        (runtime (breaker opened none)))
      (select_from_context numbers unparsed spread always_ready 6000 route request
        (2 ∷ [])
        false
        (runtime (breaker opened none))).1
    ≡ true
select_from_context-may_try_example =
    select_from_context-may_try numbers unparsed spread always_ready 6000 route request (2 ∷ [])
      false (runtime (breaker opened none))

drop_lease-increment_active_example :
    unwrap_or
      (get 1 (drop_lease lease (increment_active 1 (runtime (breaker opened none)))).active)
      0
    ≡ 0
unfolding get
drop_lease-increment_active_example =
    drop_lease-increment_active lease 1 (runtime (breaker opened none))

abbrev published : Map ℕ ℕ
published = (1, 1) ∷ (2, 1) ∷ []

abbrev enough : ℕ
enough = suc (
    length
      (route_context numbers unparsed spread always_ready request
        (runtime (breaker opened none))).members)

try_reserve_proxy-settled_example :
    settled
      (2 ∷ [])
      (try_reserve_proxy numbers unparsed spread always_ready enough 6000 request published
        (2 ∷ [])
        (runtime (breaker opened none))).1
    ≡ true
try_reserve_proxy-settled_example =
    try_reserve_proxy-settled numbers unparsed spread always_ready enough 6000 request published
      (2 ∷ []) (runtime (breaker opened none)) (omega arith)
