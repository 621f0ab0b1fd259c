-- ===== src/Selection/Order/Frame.antt =====
-- proxy.rs: ordering the candidates leaves the snapshot, permits, counts and tokens as they are.
use proxy_load.Base.{
  ℕ, ◌≡◌, refl, ◌∙◌, Bool, true, false, Option, none, some, List, [], ◌∷◌, arith, String, str_eq,
  Bool-cases, inl, inr,
}
use proxy_load.Base.{nat_eq}
use proxy_load.Base.Float.{Float}
use proxy_load.Models.{Bytes}
use proxy_load.Candidate.{Candidate}
use proxy_load.Metrics.{ProxyMetrics}
use proxy_load.Runtime.{held, Runtime}
use proxy_load.Selection.{commit_pool_selection, advance_cursor}
use proxy_load.Selection.Order.{
  Target, prune_metric, prune_metrics, refresh, arrange, commit_first, order_proxies_in_pool,
}

pub commit_pool_selection-held :
    {F : Type 0} (pool_id : ℕ) (algorithm : String) (id : ℕ) (rt : Runtime F)
    → held (commit_pool_selection pool_id algorithm id rt) ≡ held rt
unfolding commit_pool_selection advance_cursor
commit_pool_selection-held pool_id algorithm id rt = ground arith

module _ (fl : Float) (parse_host : Bytes → Option Bytes) where
  open fl use {F}

  prune_metric-held :
      (now id : ℕ) (m : Option (ProxyMetrics F)) (rt : Runtime F)
      → held (prune_metric fl parse_host now id m rt) ≡ held rt
  unfolding prune_metric
  prune_metric-held now id none rt = refl
  prune_metric-held now id (some m) rt = refl

  prune_metrics-held :
      (now : ℕ) (cs : List Candidate) (rt : Runtime F)
      → held (prune_metrics fl parse_host now cs rt) ≡ held rt
  unfolding prune_metrics
  prune_metrics-held now [] rt = refl
  prune_metrics-held now (c ∷ cs) rt = prune_metrics-held now cs _ ∙ prune_metric-held now _ _ rt

  arrange-held :
      (score : ℕ → ℕ) (now : ℕ) (algorithm : String) (pool_id : ℕ) (target : Target)
      (rt : Runtime F) (cs : List Candidate)
      → held (arrange fl parse_host score now algorithm pool_id target rt cs).0 ≡ held rt
  unfolding arrange refresh
  arrange-held score now algorithm pool_id target rt cs =
      elim (Bool-cases (str_eq algorithm "least_connections")) [
        | inl e ↦ rw e refl
        | inr e ↦ elim (Bool-cases (str_eq algorithm "round_robin")) [
          | inl f ↦ rw (e, f) refl
          | inr f ↦ elim (Bool-cases (str_eq algorithm "sticky_host")) [
            | inl g ↦ rw (e, f, g) refl
            | inr g ↦ rw (e, f, g) (prune_metrics-held now cs _)
          ]
        ]
      ]

  commit_first-held :
      (commit : Bool) (pool_id : ℕ) (algorithm : String) (cs : List Candidate) (rt : Runtime F)
      → held (commit_first fl parse_host commit pool_id algorithm cs rt) ≡ held rt
  unfolding commit_first
  commit_first-held commit pool_id algorithm [] rt = refl
  commit_first-held true pool_id algorithm (c ∷ cs) rt =
      commit_pool_selection-held pool_id algorithm _ rt
  commit_first-held false pool_id algorithm (c ∷ cs) rt = refl

  pub order_proxies_in_pool-held :
      (score : ℕ → ℕ) (now : ℕ) (algorithm : String) (pool_id : ℕ) (commit : Bool) (target : Target)
      (rt : Runtime F) (cs : List Candidate)
      → held (order_proxies_in_pool fl parse_host score now algorithm pool_id commit target rt cs).0
        ≡ held rt
  unfolding order_proxies_in_pool
  order_proxies_in_pool-held score now algorithm pool_id commit target rt [] = refl
  order_proxies_in_pool-held score now algorithm pool_id commit target rt (c ∷ cs) =
      commit_first-held commit pool_id algorithm _ _
      ∙ arrange-held score now algorithm pool_id target rt (c ∷ cs)
