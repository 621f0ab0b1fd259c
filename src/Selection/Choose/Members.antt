-- ===== src/Selection/Choose/Members.antt =====
-- proxy.rs: the candidates that `select_from_context` returns are members of the route, and the
-- selection leaves the snapshot, permits, counts and tokens as they are.
use proxy_load.Base.{
  ℕ, ◌≡◌, refl, ◌∙◌, Bool, true, ◌&&◌, Option, none, some, List, [], ◌∷◌, arith, all, any, nat_beq,
  nat_beq_iff, Bool-cases, inl, inr, is_empty, is_some,
}
use proxy_load.Base.Float.{Float}
use proxy_load.Models.{Bytes, ProxyRecord}
use proxy_load.Routing.Snapshot.{RouteContext, RoutingSnapshot}
use proxy_load.Candidate.{Candidate, TargetRequest}
use proxy_load.Sticky.{Policy}
use proxy_load.Runtime.{held, Runtime}
use proxy_load.Selection.Order.Frame.{order_proxies_in_pool-held}
use proxy_load.Selection.Choose.{
  sieve, records, drop_cursors, prefer_sticky, pool_id_of, select_members, select_from_context,
}
use proxy_load.Selection.Choose.Eligible.{selected_all, select_from_context-all}

-- The candidate is one of the proxies.
unfoldable pub listed : List ProxyRecord → Candidate → Bool
listed ps c = any (λ p. nat_beq p.id c.config.id) ps

pub all_weaken {ℓ} :
    {A : Type ℓ} (p q : A → Bool) (xs : List A)
    → ((x : A) → p x ≡ true → q x ≡ true)
    → all p xs ≡ true
    → all q xs ≡ true
all_weaken p q [] h e = refl
all_weaken p q (x ∷ xs) h e = ground (arith, h x, e, all_weaken p q xs h)

module _ (fl : Float) (parse_host : Bytes → Option Bytes) (affinity : ℕ → Bytes → ℕ → ℕ)
    (is_ready : ProxyRecord → Option ℕ → Bool) where
  open fl use {F}

  sieve-listed :
      (now : ℕ) (request : TargetRequest) (excluded : List ℕ) (rt : Runtime F)
      (ps : List ProxyRecord)
      → all (listed ps) (sieve fl parse_host affinity is_ready now request excluded rt ps).eligible
        ≡ true
  unfolding listed sieve
  sieve-listed now request excluded rt [] = refl
  sieve-listed now request excluded rt (p ∷ ps) =
      let rest = sieve fl parse_host affinity is_ready now request excluded rt ps in
      let later =
        all_weaken (listed ps) (listed (p ∷ ps)) rest.eligible (λ x e. ground (arith, e))
          (sieve-listed now request excluded rt ps) in
      ground (arith, later, nat_beq_iff p.id p.id)

  pub select_from_context-listed :
      (now : ℕ) (context : RouteContext) (request : TargetRequest) (excluded : List ℕ)
      (commit : Bool) (rt : Runtime F)
      → selected_all
          (listed (records rt.snapshot.proxies context.members))
          (select_from_context fl parse_host affinity is_ready now context request excluded commit
            rt).1
        ≡ true
  select_from_context-listed now context request excluded commit rt =
      select_from_context-all fl parse_host affinity is_ready _ now context request excluded commit
        rt (sieve-listed now request excluded (drop_cursors fl parse_host affinity is_ready rt) _)

  prefer_sticky-held :
      (now : ℕ) (policy : Option Policy) (s : RoutingSnapshot) (x : Runtime F × List Candidate)
      → held (prefer_sticky fl parse_host affinity is_ready now policy s x).0 ≡ held x.0
  unfolding prefer_sticky
  prefer_sticky-held now none s (rt, cs) = refl
  prefer_sticky-held now (some policy) s (rt, cs) = refl

  select_members-held :
      (now : ℕ) (context : RouteContext) (request : TargetRequest) (excluded : List ℕ)
      (commit : Bool) (rt : Runtime F)
      → held
          (select_members fl parse_host affinity is_ready now context request excluded commit rt).0
        ≡ held rt
  unfolding select_members drop_cursors
  select_members-held now context request excluded commit rt =
      let sifted =
        sieve fl parse_host affinity is_ready now request excluded
          (drop_cursors fl parse_host affinity is_ready rt)
          (records rt.snapshot.proxies context.members) in
      elim (Bool-cases (is_empty sifted.eligible && sifted.blocked)) [
        | inl e ↦ rw e refl
        | inr e ↦ rw e (
            prefer_sticky-held now _ rt.snapshot _
            ∙ order_proxies_in_pool-held fl parse_host _ now context.algorithm (pool_id_of context)
                commit _ (drop_cursors fl parse_host affinity is_ready rt) sifted.eligible)
      ]

  pub select_from_context-held :
      (now : ℕ) (context : RouteContext) (request : TargetRequest) (excluded : List ℕ)
      (commit : Bool) (rt : Runtime F)
      → held
          (select_from_context fl parse_host affinity is_ready now context request excluded commit
            rt).0
        ≡ held rt
  unfolding select_from_context
  select_from_context-held now context request excluded commit rt =
      elim (Bool-cases (is_empty rt.snapshot.proxies)) [
        | inl e ↦ rw e refl
        | inr e ↦
            elim (Bool-cases
              (is_some context.pool && is_empty (records rt.snapshot.proxies context.members))) [
                | inl f ↦ rw (e, f) refl
                | inr f ↦ rw (e, f) (select_members-held now context request excluded commit rt)
              ]
      ]
