-- ===== src/Selection/Choose/Eligible.antt =====
-- proxy.rs: what `select_from_context` lets through.
use mathlib.Core.List.{Perm, Permᴰ}
use mathlib.Core.Bool.{Bool-set}
use mathlib.Core.Logic.{∥∥₁_elim}
use proxy_load.Base.{
  ℕ, ◌≡◌, refl, ap, ◌∙◌, inl, inr, Bool, true, not, ◌&&◌, Option, none, some, List, [], ◌∷◌, arith,
  all, any, nat_beq, nat_eq, Bool-cases, is_some, is_empty,
}
use proxy_load.Base.Float.{Float}
use proxy_load.Base.Map.{get}
use proxy_load.Models.{Bytes, ProxyRecord}
use proxy_load.Routing.Snapshot.{RouteContext, RoutingSnapshot}
use proxy_load.Candidate.{Candidate, TargetRequest}
use proxy_load.Sticky.{
  prefer, prefer_at, prefer_bound, is_current, bound_position, Policy, Binding, StickyRoutes,
  key_eq,
}
use proxy_load.Runtime.{Runtime, alive}
use proxy_load.Selection.Order.Permutes.{order_proxies_in_pool-Perm, swap_front-Perm}
use proxy_load.Selection.Choose.{
  pool_id_of, records, Selected, candidates, failed, sieve, blocked_by_readiness, breakers_allow,
  select_from_context, select_members, prefer_sticky, drop_cursors,
}

all-Permᴰ {ℓ} : {A : Type ℓ} (p : A → Bool) {xs ys : List A} → Permᴰ xs ys → all p xs ≡ all p ys
all-Permᴰ p Permᴰ.nil = refl
all-Permᴰ p (Permᴰ.cons {a} {b} e d) = ground (arith, ap p e, all-Permᴰ p d)
all-Permᴰ p (Permᴰ.swap e f) = ground (arith, ap p e, ap p f)
all-Permᴰ p (Permᴰ.trans d e) = all-Permᴰ p d ∙ all-Permᴰ p e

all-Perm {ℓ} : {A : Type ℓ} (p : A → Bool) {xs ys : List A} → Perm xs ys → all p xs ≡ all p ys
all-Perm p {xs} {ys} e = ∥∥₁_elim e (Bool-set (all p xs) (all p ys)) (all-Permᴰ p)

-- What is asked of every candidate of a selection.
unfoldable pub selected_all : (Candidate → Bool) → Selected → Bool
selected_all p (candidates cs) = all p cs
selected_all p (failed e) = true

prefer_at-all :
    (p : Candidate → Bool) (now : ℕ) (policy : Policy) (s : RoutingSnapshot) (cs : List Candidate)
    (routes : StickyRoutes) (b : Binding) (i : Option ℕ)
    → all p (prefer_at now policy s cs routes b i).1 ≡ all p cs
unfolding prefer_at
prefer_at-all p now policy s cs routes b none = refl
prefer_at-all p now policy s cs routes b (some i) = elim (Bool-cases (is_current now policy s b)) [
  | inl g ↦ rw g (all-Perm p (swap_front-Perm cs i))
  | inr g ↦ rw g refl
]

prefer_bound-all :
    (p : Candidate → Bool) (now : ℕ) (policy : Policy) (s : RoutingSnapshot) (cs : List Candidate)
    (routes : StickyRoutes) (b : Option Binding)
    → all p (prefer_bound now policy s cs routes b).1 ≡ all p cs
unfolding prefer_bound
prefer_bound-all p now policy s cs routes none = refl
prefer_bound-all p now policy s cs routes (some b) =
    prefer_at-all p now policy s cs routes b (bound_position b cs)

prefer-all :
    (p : Candidate → Bool) (now : ℕ) (policy : Policy) (s : RoutingSnapshot) (cs : List Candidate)
    (routes : StickyRoutes)
    → all p (prefer now policy s cs routes).1 ≡ all p cs
unfolding prefer
prefer-all p now policy s cs routes =
    prefer_bound-all p now policy s cs routes (get policy.key routes)

module _ (fl : Float) (parse_host : Bytes → Option Bytes) (affinity : ℕ → Bytes → ℕ → ℕ)
    (is_ready : ProxyRecord → Option ℕ → Bool) where
  open fl use {F}

  -- A candidate may be tried: it has proved that it is ready, if it must, is not excluded, and both
  -- of its breakers let an attempt begin.
  unfoldable pub may_try : ℕ → TargetRequest → List ℕ → Runtime F → Candidate → Bool
  may_try now request excluded rt c =
      not (blocked_by_readiness fl parse_host affinity is_ready rt c.config)
      && (not (any (nat_beq c.config.id) excluded)
          && breakers_allow fl parse_host affinity is_ready now request rt c.config)

  sieve-may_try :
      (now : ℕ) (request : TargetRequest) (excluded : List ℕ) (rt : Runtime F)
      (ps : List ProxyRecord)
      → all
          (may_try now request excluded rt)
          (sieve fl parse_host affinity is_ready now request excluded rt ps).eligible
        ≡ true
  unfolding may_try sieve
  sieve-may_try now request excluded rt [] = refl
  sieve-may_try now request excluded rt (p ∷ ps) =
      ground (arith, sieve-may_try now request excluded rt ps)

  prefer_sticky-all :
      (p : Candidate → Bool) (now : ℕ) (policy : Option Policy) (s : RoutingSnapshot)
      (x : Runtime F × List Candidate)
      → selected_all p (prefer_sticky fl parse_host affinity is_ready now policy s x).1 ≡ all p x.1
  unfolding prefer_sticky selected_all
  prefer_sticky-all p now none s (rt, cs) = refl
  prefer_sticky-all p now (some policy) s (rt, cs) = prefer-all p now policy s cs rt.sticky

  -- What is so of every candidate that passes the loop over the members is so of every candidate
  -- that is returned.
  select_members-all :
      (p : Candidate → Bool) (now : ℕ) (context : RouteContext) (request : TargetRequest)
      (excluded : List ℕ) (commit : Bool) (rt : Runtime F)
      → all p
          (sieve fl parse_host affinity is_ready now request excluded
            (drop_cursors fl parse_host affinity is_ready rt)
            (records rt.snapshot.proxies context.members)).eligible
        ≡ true
      → selected_all p
          (select_members fl parse_host affinity is_ready now context request excluded commit rt).1
        ≡ true
  unfolding select_members selected_all
  select_members-all p now context request excluded commit rt h =
      let sifted =
        sieve fl parse_host affinity is_ready now request excluded
          (drop_cursors fl parse_host affinity is_ready rt)
          (records rt.snapshot.proxies context.members) in
      elim (Bool-cases (is_empty sifted.eligible && sifted.blocked)) [
        | inl e ↦ rw e refl
        | inr e ↦ rw e (
            prefer_sticky-all p now _ (drop_cursors fl parse_host affinity is_ready rt).snapshot _
            ∙ (all-Perm p
                  (order_proxies_in_pool-Perm fl parse_host _ now context.algorithm
                    (pool_id_of context) commit _ (drop_cursors fl parse_host affinity is_ready rt)
                    sifted.eligible).0
                ∙ h))
      ]

  pub select_from_context-all :
      (p : Candidate → Bool) (now : ℕ) (context : RouteContext) (request : TargetRequest)
      (excluded : List ℕ) (commit : Bool) (rt : Runtime F)
      → all p
          (sieve fl parse_host affinity is_ready now request excluded
            (drop_cursors fl parse_host affinity is_ready rt)
            (records rt.snapshot.proxies context.members)).eligible
        ≡ true
      → selected_all p
          (select_from_context fl parse_host affinity is_ready now context request excluded commit
            rt).1
        ≡ true
  unfolding select_from_context selected_all
  select_from_context-all p now context request excluded commit rt h =
      elim (Bool-cases (is_empty rt.snapshot.proxies)) [
        | inl e ↦ rw e refl
        | inr e ↦
            elim (Bool-cases
              (is_some context.pool && is_empty (records rt.snapshot.proxies context.members))) [
                | inl f ↦ rw (e, f) refl
                | inr f ↦ rw (e, f) (select_members-all p now context request excluded commit rt h)
              ]
      ]

  -- Every candidate that `select_from_context` returns may be tried: it is ready if its policy asks
  -- for a probe, it is not excluded, and its breaker and that of the route would let an attempt
  -- begin.
  pub select_from_context-may_try :
      (now : ℕ) (context : RouteContext) (request : TargetRequest) (excluded : List ℕ)
      (commit : Bool) (rt : Runtime F)
      → selected_all
          (may_try now request excluded rt)
          (select_from_context fl parse_host affinity is_ready now context request excluded commit
            rt).1
        ≡ true
  unfolding drop_cursors may_try blocked_by_readiness breakers_allow alive
  select_from_context-may_try now context request excluded commit rt =
      select_from_context-all (may_try now request excluded rt) now context request excluded commit
        rt
        (sieve-may_try now request excluded (drop_cursors fl parse_host affinity is_ready rt)
          (records rt.snapshot.proxies context.members))
