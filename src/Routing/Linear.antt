-- ===== src/Routing/Linear.antt =====
-- routing.rs: `linear_pool` keeps the first of the best rules that match.
use proxy_load.Base.{
  ℕ, suc, ◌+◌, ◌≤◌, ◌<◌, ◌≡◌, refl, sym, ap, ◌∙◌, subst, inl, inr, true, not, ◌||◌, ◌&&◌, Option,
  none, some, List, [], ◌∷◌, arith, length, is_some, if◌then◌else◌, get_elem?, Bool-cases, ltb,
}
use proxy_load.Models.{Bytes, RoutingPool}
use proxy_load.Routing.{
  RankedPool, Selection, consider, preferred, specificity, domain_matches, linear_rules,
  linear_pools,
}
use proxy_load.Routing.Best.{Ranked, best, best-append, consider_assoc, consider-none}
use proxy_load.Routing.Index.{rank_rules, rank_pools}

-- The selection of `linear_pool` that a best rank stands for.
abbrev pub chosen : List RoutingPool → Option RankedPool → Selection
chosen pools none = (none, 0)
chosen pools (some r) = (get_elem? pools r.pool, r.specificity)

-- The rank names a pool of the list and comes before `order`.
abbrev pub Earlier : List RoutingPool → ℕ → Option RankedPool → Type 0
Earlier pools order none = Unit
Earlier pools order (some r) = (r.order < order) × (is_some (get_elem? pools r.pool) ≡ true)

module _ (host : Bytes) (pools : List RoutingPool) where
  Earlier-mono : (m n : ℕ) (a : Option RankedPool) → m ≤ n → Earlier pools m a → Earlier pools n a
  Earlier-mono m n none h e = tt
  Earlier-mono m n (some r) h e = (omega arith, e.1)

  Earlier-consider :
      (k : RankedPool) (a : Option RankedPool)
      → is_some (get_elem? pools k.pool) ≡ true
      → Earlier pools k.order a
      → Earlier pools (suc k.order) (consider a (some k))
  unfolding consider preferred
  Earlier-consider k none h e = (omega arith, h)
  Earlier-consider k (some r) h e = ground arith

  -- One round of the loop, at a rule that matches.
  chosen-consider :
      (k : RankedPool) (pool : RoutingPool) (a : Option RankedPool)
      → get_elem? pools k.pool ≡ some pool
      → Earlier pools k.order a
      → (if not (is_some (chosen pools a).0) || ltb (chosen pools a).1 k.specificity
          then (some pool, k.specificity)
          else chosen pools a)
        ≡ chosen pools (consider a (some k))
  unfolding consider preferred
  chosen-consider k pool none h e = ground arith
  chosen-consider k pool (some r) h e = ground arith

  -- The best rank before the next rule is looked at, and after.
  abbrev advance : Bytes → RankedPool → Option RankedPool → Option RankedPool
  advance rule k a = if domain_matches host rule then consider a (some k) else a

  advance-best :
      (rule : Bytes) (k : RankedPool) (es : Ranked) (a : Option RankedPool)
      → consider a (best (domain_matches host) ((rule, k) ∷ es))
        ≡ consider (advance rule k a) (best (domain_matches host) es)
  advance-best rule k es a =
      ground (arith, consider_assoc a (some k) (best (domain_matches host) es))

  Earlier-advance :
      (rule : Bytes) (k : RankedPool) (a : Option RankedPool)
      → is_some (get_elem? pools k.pool) ≡ true
      → Earlier pools k.order a
      → Earlier pools (suc k.order) (advance rule k a)
  Earlier-advance rule k a h e = elim (Bool-cases (domain_matches host rule)) [
    | inl t ↦ rw t (Earlier-consider k a h e)
    | inr f ↦ rw f (Earlier-mono k.order (suc k.order) a (omega arith) e)
  ]

  chosen-advance :
      (rule : Bytes) (k : RankedPool) (pool : RoutingPool) (a : Option RankedPool)
      → get_elem? pools k.pool ≡ some pool
      → Earlier pools k.order a
      → (if domain_matches host rule
            && (not (is_some (chosen pools a).0) || ltb (chosen pools a).1 k.specificity)
          then (some pool, k.specificity)
          else chosen pools a)
        ≡ chosen pools (advance rule k a)
  chosen-advance rule k pool a at e = ground (arith, chosen-consider k pool a at e)

  Earlier-best_rules :
      (i order : ℕ) (rules : List Bytes) (a : Option RankedPool)
      → is_some (get_elem? pools i) ≡ true
      → Earlier pools order a
      → Earlier pools
          (order + length rules)
          (consider a (best (domain_matches host) (rank_rules i order rules)))
  unfolding consider
  Earlier-best_rules i order [] a h e = Earlier-mono order (order + 0) a (omega arith) e
  Earlier-best_rules i order (rule ∷ rules) a h e =
      let k : RankedPool = record { pool = i; specificity = specificity rule; order = order } in
      let later =
        Earlier-best_rules i (suc order) rules (advance rule k a) h
          (Earlier-advance rule k a h e) in
      subst (Earlier pools (order + length (rule ∷ rules)))
        (sym (advance-best rule k (rank_rules i (suc order) rules) a))
        (subst
          (λ n. Earlier pools n (
            consider (advance rule k a)
              (best (domain_matches host) (rank_rules i (suc order) rules))))
          (omega arith) later)

  linear_rules-chosen :
      (i order : ℕ) (pool : RoutingPool) (rules : List Bytes) (a : Option RankedPool)
      → get_elem? pools i ≡ some pool
      → Earlier pools order a
      → linear_rules host pool rules (chosen pools a)
        ≡ chosen pools (consider a (best (domain_matches host) (rank_rules i order rules)))
  unfolding linear_rules consider
  linear_rules-chosen i order pool [] a at e = refl
  linear_rules-chosen i order pool (rule ∷ rules) a at e =
      let k : RankedPool = record { pool = i; specificity = specificity rule; order = order } in
      ap (linear_rules host pool rules) (chosen-advance rule k pool a at e)
      ∙ linear_rules-chosen i (suc order) pool rules (advance rule k a) at
          (Earlier-advance rule k a (ap is_some at) e)
      ∙ ap (chosen pools) (sym (advance-best rule k (rank_rules i (suc order) rules) a))

  -- The loop over the pools, `rest` of which are left.
  linear_pools-chosen :
      (i order : ℕ) (rest : List RoutingPool) (a : Option RankedPool)
      → ((j : ℕ) → get_elem? pools (i + j) ≡ get_elem? rest j)
      → Earlier pools order a
      → linear_pools host rest (chosen pools a)
        ≡ chosen pools (consider a (best (domain_matches host) (rank_pools i order rest)))
  unfolding linear_pools consider
  linear_pools-chosen i order [] a at e = refl
  linear_pools-chosen i order (pool ∷ rest) a at e =
      let here : get_elem? pools i ≡ some pool =
        subst (λ n. get_elem? pools n ≡ some pool) (omega arith) (at 0) in
      let es = rank_rules i order pool.rules in
      let fs = rank_pools (suc i) (order + length pool.rules) rest in
      let a' = consider a (best (domain_matches host) es) in
      ap (linear_pools host rest) (linear_rules-chosen i order pool pool.rules a here e)
      ∙ linear_pools-chosen (suc i) (order + length pool.rules) rest a'
          (λ j. subst (λ n. get_elem? pools n ≡ get_elem? rest j) (omega arith) (at (suc j)))
          (Earlier-best_rules i order pool.rules a (ap is_some here) e)
      ∙ ap (chosen pools) (
          consider_assoc a (best (domain_matches host) es) (best (domain_matches host) fs)
          ∙ ap (consider a) (sym (best-append (domain_matches host) es fs)))

  Earlier-best_pools :
      (i order : ℕ) (rest : List RoutingPool) (a : Option RankedPool)
      → ((j : ℕ) → get_elem? pools (i + j) ≡ get_elem? rest j)
      → Earlier pools order a
      → (n : ℕ) × Earlier pools n
          (consider a (best (domain_matches host) (rank_pools i order rest)))
  unfolding consider
  Earlier-best_pools i order [] a at e = (order, e)
  Earlier-best_pools i order (pool ∷ rest) a at e =
      let es = rank_rules i order pool.rules in
      let fs = rank_pools (suc i) (order + length pool.rules) rest in
      let here : get_elem? pools i ≡ some pool =
        subst (λ n. get_elem? pools n ≡ some pool) (omega arith) (at 0) in
      let (n, later) =
        Earlier-best_pools (suc i) (order + length pool.rules) rest
          (consider a (best (domain_matches host) es))
          (λ j. subst (λ n. get_elem? pools n ≡ get_elem? rest j) (omega arith) (at (suc j)))
          (Earlier-best_rules i order pool.rules a (ap is_some here) e) in
      (
        n,
        subst (Earlier pools n)
            (consider_assoc a (best (domain_matches host) es) (best (domain_matches host) fs)
              ∙ ap (consider a) (sym (best-append (domain_matches host) es fs)))
            later,
      )

  -- A best rank names a pool of the list.
  pub best_in_range :
      (r : RankedPool)
      → best (domain_matches host) (rank_pools 0 0 pools) ≡ some r
      → is_some (get_elem? pools r.pool) ≡ true
  best_in_range r e =
      let (n, earlier) =
        Earlier-best_pools 0 0 pools none (λ j. ap (get_elem? pools) (omega arith)) tt in
      (subst (Earlier pools n)
        (consider-none (best (domain_matches host) (rank_pools 0 0 pools)) ∙ e) earlier).1

  pub linear_pools-best :
      linear_pools host pools (none, 0)
      ≡ chosen pools (best (domain_matches host) (rank_pools 0 0 pools))
  linear_pools-best =
      linear_pools-chosen 0 0 pools none (λ j. ap (get_elem? pools) (omega arith)) tt
      ∙ ap (chosen pools) (consider-none (best (domain_matches host) (rank_pools 0 0 pools)))
