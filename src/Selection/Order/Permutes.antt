-- ===== src/Selection/Order/Permutes.antt =====
-- proxy.rs: every order of the candidates has the same candidates, those that are active first.
use mathlib.Core.List.{Perm, perm_middle, append-nil}
use mathlib.Core.List.Perm
use proxy_load.Base.{
  ℕ, zero, suc, ◌≡◌, refl, sym, subst, inl, inr, Bool, true, not, Option, some, List, [], ◌∷◌, ◌++◌,
  arith, if◌then◌else◌, all, keep, take, drop, get_elem?, set, swap_with, swap_front, Bool-cases,
  Option-cases, String, str_eq,
}
use proxy_load.Base.Float.{Float}
use proxy_load.Models.{Bytes}
use proxy_load.Candidate.{Candidate, prefer_candidates}
use proxy_load.Runtime.{Runtime}
use proxy_load.Selection.{
  insert_by, sort_by, rotate_left, round_robin, sticky_host, least_connections,
}
use proxy_load.Selection.Order.{Target, arrange, order_proxies_in_pool}

Perm-set {ℓ} :
    {A : Type ℓ} (x y : A) (xs : List A) (i : ℕ)
    → get_elem? xs i ≡ some y
    → Perm (y ∷ set xs i x) (x ∷ xs)
Perm-set x y [] i h = absurd cc
Perm-set x y (z ∷ zs) zero h =
    subst (λ w. Perm (y ∷ x ∷ zs) (x ∷ w ∷ zs)) (sym (cc h)) (Perm.swap x y zs)
Perm-set x y (z ∷ zs) (suc i) h =
    Perm.trans (Perm.swap z y (set zs i x))
      (Perm.trans (Perm.cons z (Perm-set x y zs i h)) (Perm.swap x z zs))

pub swap_front-Perm {ℓ} : {A : Type ℓ} (xs : List A) (i : ℕ) → Perm (swap_front xs i) xs
unfolding swap_front swap_with
swap_front-Perm [] i = Perm.refl []
swap_front-Perm (x ∷ xs) zero = Perm.refl (x ∷ xs)
swap_front-Perm (x ∷ xs) (suc i) = elim (Option-cases (get_elem? xs i)) [
  | inl e ↦ rw e (Perm.refl (x ∷ xs))
  | inr (y, e) ↦ rw e (Perm-set x y xs i e)
]

take_drop-Perm {ℓ} : {A : Type ℓ} (n : ℕ) (xs : List A) → Perm (drop n xs ++ take n xs) xs
take_drop-Perm zero xs = rw (append-nil xs) (Perm.refl xs)
take_drop-Perm (suc n) [] = Perm.refl []
take_drop-Perm (suc n) (x ∷ xs) =
    Perm.trans (perm_middle (drop n xs) (take n xs)) (Perm.cons x (take_drop-Perm n xs))

insert_by-Perm :
    (lt : Candidate → Candidate → Bool) (a : Candidate) (xs : List Candidate)
    → Perm (insert_by lt a xs) (a ∷ xs)
unfolding insert_by
insert_by-Perm lt a [] = Perm.refl (a ∷ [])
insert_by-Perm lt a (x ∷ xs) = elim (Bool-cases (lt x a)) [
  | inl e ↦ rw e (Perm.trans (Perm.cons x (insert_by-Perm lt a xs)) (Perm.swap a x xs))
  | inr e ↦ rw e (Perm.refl (a ∷ x ∷ xs))
]

sort_by-Perm : (lt : Candidate → Candidate → Bool) (xs : List Candidate) → Perm (sort_by lt xs) xs
unfolding sort_by
sort_by-Perm lt [] = Perm.refl []
sort_by-Perm lt (x ∷ xs) =
    Perm.trans (insert_by-Perm lt x (sort_by lt xs)) (Perm.cons x (sort_by-Perm lt xs))

partition-Perm {ℓ} :
    {A : Type ℓ} (p : A → Bool) (xs : List A) → Perm (keep (λ x. not (p x)) xs ++ keep p xs) xs
partition-Perm p [] = Perm.refl []
partition-Perm p (x ∷ xs) = elim (Bool-cases (p x)) [
  | inr e ↦ rw e (Perm.cons x (partition-Perm p xs))
  | inl e ↦ rw e (
      Perm.trans (perm_middle (keep (λ y. not (p y)) xs) (keep p xs))
        (Perm.cons x (partition-Perm p xs)))
]

prefer_candidates-Perm : (cs : List Candidate) → Perm (prefer_candidates cs) cs
unfolding prefer_candidates
prefer_candidates-Perm cs = partition-Perm (λ c. c.inactive) cs

rotate_left-Perm : (n : ℕ) (cs : List Candidate) → Perm (rotate_left n cs) cs
unfolding rotate_left
rotate_left-Perm n cs = take_drop-Perm n cs

round_robin-Perm : (last : ℕ) (cs : List Candidate) → Perm (round_robin last cs) cs
unfolding round_robin
round_robin-Perm last cs =
    Perm.trans (prefer_candidates-Perm _) (Perm.trans (rotate_left-Perm _ _) (sort_by-Perm _ cs))

sticky_host-Perm : (score : ℕ → ℕ) (cs : List Candidate) → Perm (sticky_host score cs) cs
unfolding sticky_host
sticky_host-Perm score cs = sort_by-Perm _ cs

-- No candidate that is inactive stands before one that is not.
unfoldable pub active_first : List Candidate → Bool
active_first [] = true
active_first (c ∷ cs) = if c.inactive then all (λ d. d.inactive) cs else active_first cs

all_inactive : (cs : List Candidate) → all (λ d. d.inactive) (keep (λ d. d.inactive) cs) ≡ true
all_inactive [] = refl
all_inactive (c ∷ cs) = ground (arith, all_inactive cs)

active_first-inactive :
    (cs : List Candidate) → all (λ d. d.inactive) cs ≡ true → active_first cs ≡ true
unfolding active_first
active_first-inactive [] h = refl
active_first-inactive (c ∷ cs) h = ground (arith, h)

active_first-append :
    (xs ys : List Candidate)
    → all (λ d. d.inactive) ys ≡ true
    → active_first (keep (λ d. not d.inactive) xs ++ ys) ≡ true
unfolding active_first
active_first-append [] ys h = active_first-inactive ys h
active_first-append (x ∷ xs) ys h = ground (arith, active_first-append xs ys h)

active_first-prefer : (cs : List Candidate) → active_first (prefer_candidates cs) ≡ true
unfolding prefer_candidates
active_first-prefer cs = active_first-append cs (keep (λ d. d.inactive) cs) (all_inactive cs)

module _ (fl : Float) (parse_host : Bytes → Option Bytes) where
  open fl use {F}

  arrange-Perm :
      (score : ℕ → ℕ) (now : ℕ) (algorithm : String) (pool_id : ℕ) (target : Target)
      (rt : Runtime F) (cs : List Candidate)
      → Perm (arrange fl parse_host score now algorithm pool_id target rt cs).1 cs
  unfolding arrange least_connections
  arrange-Perm score now algorithm pool_id target rt cs =
      elim (Bool-cases (str_eq algorithm "least_connections")) [
        | inl e ↦ rw e (swap_front-Perm cs _)
        | inr e ↦ elim (Bool-cases (str_eq algorithm "round_robin")) [
          | inl f ↦ rw (e, f) (round_robin-Perm _ cs)
          | inr f ↦ elim (Bool-cases (str_eq algorithm "sticky_host")) [
            | inl g ↦ rw (e, f, g) (sticky_host-Perm score cs)
            | inr g ↦ rw (e, f, g) (swap_front-Perm cs _)
          ]
        ]
      ]

  -- Whatever the algorithm, `order_proxies_in_pool` returns each of its candidates exactly once,
  -- and none that is inactive before one that is not.
  pub order_proxies_in_pool-Perm :
      (score : ℕ → ℕ) (now : ℕ) (algorithm : String) (pool_id : ℕ) (commit : Bool) (target : Target)
      (rt : Runtime F) (cs : List Candidate)
      → Perm
          (order_proxies_in_pool fl parse_host score now algorithm pool_id commit target rt cs).1
          cs
        × (active_first
              (order_proxies_in_pool fl parse_host score now algorithm pool_id commit target rt
                cs).1
            ≡ true)
  unfolding order_proxies_in_pool
  order_proxies_in_pool-Perm score now algorithm pool_id commit target rt [] =
      (Perm.refl [], active_first-inactive [] refl)
  order_proxies_in_pool-Perm score now algorithm pool_id commit target rt (c ∷ cs) = (
    Perm.trans (prefer_candidates-Perm _)
        (arrange-Perm score now algorithm pool_id target rt (c ∷ cs)),
    active_first-prefer _,
  )
