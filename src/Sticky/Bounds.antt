-- ===== src/Sticky/Bounds.antt =====
-- sticky_routes.rs: how many bindings there can be, and how long each lives.
use proxy_load.Base.{
  ℕ, ◌+◌, ◌≤◌, ◌≡◌, refl, true, Option, none, some, List, [], ◌∷◌, arith, length, is_some, ltb,
  Option-cases, inl, inr, saturating_add,
}
use proxy_load.Base.Map.{
  get, retain, length-remove-le, length-remove-lt, length-insert-le, length-retain-le,
}
use proxy_load.Routing.Snapshot.{RoutingSnapshot}
use proxy_load.Candidate.{Candidate}
use proxy_load.Sticky.{
  Key, Binding, Policy, StickyRoutes, key_eq, key_beq_iff, max_bindings, oldest, earlier,
  evict_oldest, remember, prefer, prefer_bound, prefer_at, bound_position,
}

found_later :
    (k : Key) (b : Binding) (m : StickyRoutes) (j : Key)
    → is_some (get j m) ≡ true
    → is_some (get j ((k, b) ∷ m)) ≡ true
unfolding get
found_later k b m j h = ground arith

found_here : (k : Key) (b : Binding) (m : StickyRoutes) → is_some (get k ((k, b) ∷ m)) ≡ true
unfolding get
found_here k b m = ground (arith, key_beq_iff k k)

earlier_found :
    (k : Key) (b : Binding) (m : StickyRoutes) (o : Option (Key × Binding))
    → ((x : Key × Binding) → o ≡ some x → is_some (get x.0 m) ≡ true)
    → is_some (get (earlier (k, b) o).0 ((k, b) ∷ m)) ≡ true
unfolding earlier
earlier_found k b m none h = found_here k b m
earlier_found k b m (some y) h = ground (arith, found_here k b m, found_later k b m y.0 (h y refl))

-- The binding to be evicted is one of the table, and there is one unless the table is empty.
oldest_found :
    (m : StickyRoutes) (x : Key × Binding) → oldest m ≡ some x → is_some (get x.0 m) ≡ true
unfolding oldest
oldest_found [] x e = cc
oldest_found ((k, b) ∷ m) x e =
    ground (arith, earlier_found k b m (oldest m) (oldest_found m), found_later k b m x.0)

oldest-none : (m : StickyRoutes) → oldest m ≡ none → length m ≡ 0
unfolding oldest
oldest-none [] e = refl
oldest-none (x ∷ m) e = cc

evict_oldest-length :
    (routes : StickyRoutes)
    → length routes ≤ max_bindings
    → length (evict_oldest routes) + 1 ≤ max_bindings
unfolding evict_oldest
evict_oldest-length routes h = elim (Option-cases (oldest routes)) [
  | inl n ↦ ground (arith, n, oldest-none routes n)
  | inr (x, e) ↦ ground (arith, e, h, length-remove-lt x.0 routes (oldest_found routes x e))
]

prefer_at-length :
    (now : ℕ) (policy : Policy) (snapshot : RoutingSnapshot) (candidates : List Candidate)
    (routes : StickyRoutes) (b : Binding) (i : Option ℕ)
    → length (prefer_at now policy snapshot candidates routes b i).0 ≤ length routes
unfolding prefer_at
prefer_at-length now policy snapshot candidates routes b none = length-remove-le policy.key routes
prefer_at-length now policy snapshot candidates routes b (some i) =
    ground (arith, length-remove-le policy.key routes)

prefer_bound-length :
    (now : ℕ) (policy : Policy) (snapshot : RoutingSnapshot) (candidates : List Candidate)
    (routes : StickyRoutes) (b : Option Binding)
    → length (prefer_bound now policy snapshot candidates routes b).0 ≤ length routes
unfolding prefer_bound
prefer_bound-length now policy snapshot candidates routes none = omega arith
prefer_bound-length now policy snapshot candidates routes (some b) =
    prefer_at-length now policy snapshot candidates routes b (bound_position b candidates)

prefer-length :
    (now : ℕ) (policy : Policy) (snapshot : RoutingSnapshot) (candidates : List Candidate)
    (routes : StickyRoutes)
    → length (prefer now policy snapshot candidates routes).0 ≤ length routes
unfolding prefer
prefer-length now policy snapshot candidates routes =
    prefer_bound-length now policy snapshot candidates routes (get policy.key routes)

-- There are never more than 4096 bindings: neither `prefer` nor `remember` takes the table past
-- that number if it was not past it before.
pub sticky-length :
    (now : ℕ) (policy : Policy) (snapshot : RoutingSnapshot) (candidates : List Candidate)
    (proxy generation : ℕ) (routes : StickyRoutes)
    → length routes ≤ max_bindings
    → (length (prefer now policy snapshot candidates routes).0 ≤ max_bindings)
      × (length (remember now policy snapshot proxy generation routes) ≤ max_bindings)
unfolding remember
sticky-length now policy snapshot candidates proxy generation routes h =
    let kept = retain (λ (k : Key) (b : Binding). ltb now b.expires) routes in
    let bounded : length kept ≤ max_bindings =
      omega (arith, h, length-retain-le (λ (k : Key) (b : Binding). ltb now b.expires) routes) in
    (
      omega (arith, h, prefer-length now policy snapshot candidates routes),
      ground (
        arith,
        h,
        evict_oldest-length kept bounded,
        length-insert-le policy.key
            (record {
              proxy = proxy;
              generation = generation;
              revision = policy.revision;
              expires = saturating_add now policy.ttl_ms;
            })
            (evict_oldest kept),
      ),
    )
