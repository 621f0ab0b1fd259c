-- ===== src/Selection/Reserve/Permits.antt =====
-- proxy.rs: what `try_reserve_proxy` does with the global permit that it is given.
use proxy_load.Base.{
  ◌+◌, suc, zero, ◌∙◌, ap, ℕ, ◌≡◌, refl, subst, Bool, true, false, Option, none, some, List, [],
  ◌∷◌, ◌++◌, nat_beq, nat_eq, Bool-cases, Option-cases, inl, inr, is_some_and,
}
use proxy_load.Base.Float.{Float}
use proxy_load.Base.Map.{Map, get}
use proxy_load.Models.{Bytes, ProxyRecord}
use proxy_load.Routing.Snapshot.{RouteContext}
use proxy_load.Candidate.{Candidate, TargetRequest}
use proxy_load.Sticky.{Policy}
use proxy_load.Runtime.{Runtime, Lease, try_begin_attempt_token}
use proxy_load.Runtime.Frame.{try_begin_attempt_token-held}
use proxy_load.Selection.Choose.{Selected, candidates, failed, select_from_context}
use proxy_load.Selection.Choose.Members.{select_from_context-held}
use proxy_load.Selection.Reserve.{
  release_permits, drop_lease, full_slots, route_context, drop_slots, give_up, try_reserve_proxy,
  learn, enter, increment_active, reserve_loop, reserve_among, Reserved, leased, nothing, refused,
  out_of_fuel, Turn, stop, again, head_is_free, set_slots, free_slots, take_slot, record_lease,
  try_generation, try_candidate, choose_next, tried, turn,
}
use proxy_load.Selection.{quality_key}
use proxy_load.Quality.{is_adaptive}
use proxy_load.Selection.Order.Frame.{commit_pool_selection-held}
use proxy_load.Selection.Reserve.Turns.{Turn-cases}

-- Out of `free` permits, with one more taken: a lease that has its permits keeps that one, and
-- without a lease it is given back.
abbrev pub Keeps : {F : Type 0} → ℕ → Runtime F × Reserved → Type 0
Keeps free (rt, leased lease) = (rt.global_dials ≡ free) × (lease.dialing ≡ true)
Keeps free (rt, nothing full) = rt.global_dials ≡ free + 1
Keeps free (rt, refused e) = rt.global_dials ≡ free + 1
Keeps free (rt, out_of_fuel) = rt.global_dials ≡ free

abbrev TriedKeeps : {F : Type 0} → ℕ → Runtime F × (Option Lease × Bool) → Type 0
TriedKeeps free (rt, (none, full)) = rt.global_dials ≡ free
TriedKeeps free (rt, (some lease, full)) = (rt.global_dials ≡ free) × (lease.dialing ≡ true)

abbrev TurnKeeps : {F : Type 0} → ℕ → Turn F → Type 0
TurnKeeps free (stop rt r) = Keeps free (rt, r)
TurnKeeps free (again ids full rt) = rt.global_dials ≡ free

module _ {F : Type 0} where
  pub release_permits-dials :
      (lease : Lease) (rt : Runtime F)
      → lease.dialing ≡ true
      → (release_permits lease rt).global_dials ≡ rt.global_dials + 1
  unfolding release_permits set_slots
  release_permits-dials lease rt d = rw d refl

  pub drop_lease-dials :
      (lease : Lease) (rt : Runtime F)
      → lease.dialing ≡ true
      → (drop_lease lease rt).global_dials ≡ rt.global_dials + 1
  unfolding drop_lease
  drop_lease-dials lease rt d = release_permits-dials lease rt d

module _ (fl : Float) (parse_host : Bytes → Option Bytes) (affinity : ℕ → Bytes → ℕ → ℕ)
    (is_ready : ProxyRecord → Option ℕ → Bool) where
  open fl use {F}

  learn-dials :
      (now generation : ℕ) (request : TargetRequest) (p : ProxyRecord) (rt : Runtime F)
      → (learn fl parse_host affinity is_ready now generation request p rt).global_dials
        ≡ rt.global_dials
  unfolding learn
  learn-dials now generation request p rt =
      elim (Bool-cases (is_adaptive rt.settings.target_quality_mode)) [
        | inl e ↦ elim (Option-cases (quality_key fl parse_host p generation request)) [
          | inl f ↦ rw (e, f) refl
          | inr (key, f) ↦ rw (e, f) refl
        ]
        | inr e ↦ rw e refl
      ]

  enter-dials :
      (now : ℕ) (ctx : RouteContext) (request : TargetRequest) (generation : ℕ) (c : Candidate)
      (rt : Runtime F)
      → (enter fl parse_host affinity is_ready now ctx request generation c rt).global_dials
        ≡ rt.global_dials
  unfolding enter increment_active set_slots
  enter-dials now ctx request generation c rt =
      ap (λ h. h.1.0)
        (commit_pool_selection-held _ ctx.algorithm c.config.id
          (learn fl parse_host affinity is_ready now generation request c.config rt))
      ∙ learn-dials now generation request c.config rt

  take_slot-Keeps :
      (now : ℕ) (ctx : RouteContext) (request : TargetRequest) (policy : Option Policy)
      (generation : ℕ) (c : Candidate) (rt : Runtime F)
      → TriedKeeps rt.global_dials
          (take_slot fl parse_host affinity is_ready now ctx request policy generation c rt)
  unfolding take_slot set_slots record_lease
  take_slot-Keeps now ctx request policy generation c rt =
      let id = c.config.id in
      let opened = set_slots id (free_slots id rt) rt in
      let begun =
        try_begin_attempt_token fl parse_host now id request (some rt.next_token) opened in
      let same =
        ap (λ h. h.1.0)
          (try_begin_attempt_token-held fl parse_host now id request (some rt.next_token) opened) in
      elim (Bool-cases (nat_beq (free_slots id rt) 0)) [
        | inl e ↦ rw e refl
        | inr e ↦ elim (Bool-cases begun.1) [
          | inl f ↦ rw (e, f) (enter-dials now ctx request generation c begun.0 ∙ same, refl)
          | inr f ↦ rw (e, f) same
        ]
      ]

  try_generation-Keeps :
      (now : ℕ) (ctx : RouteContext) (request : TargetRequest) (policy : Option Policy)
      (latest : Map ℕ ℕ) (c : Candidate) (rt : Runtime F) (generation : Option ℕ)
      → TriedKeeps rt.global_dials (
          try_generation fl parse_host affinity is_ready now ctx request policy latest c rt
            generation)
  unfolding try_generation
  try_generation-Keeps now ctx request policy latest c rt none = refl
  try_generation-Keeps now ctx request policy latest c rt (some g) =
      elim (Bool-cases (is_some_and (get c.config.id latest) (nat_beq g))) [
        | inl f ↦ rw f (take_slot-Keeps now ctx request policy g c rt)
        | inr f ↦ rw f refl
      ]

  tried-Keeps :
      (free : ℕ) (ids : List ℕ) (full : Bool) (x : Runtime F × (Option Lease × Bool))
      → TriedKeeps free x
      → TurnKeeps free (tried fl parse_host affinity is_ready ids full x)
  unfolding tried
  tried-Keeps free ids full (rt, (some lease, slots)) k = k
  tried-Keeps free ids full (rt, (none, slots)) k = k

  turn-Keeps :
      (now : ℕ) (ctx : RouteContext) (request : TargetRequest) (policy : Option Policy)
      (latest : Map ℕ ℕ) (ids : List ℕ) (full : Bool) (rt : Runtime F) (selected : Selected)
      → TurnKeeps rt.global_dials (
          turn fl parse_host affinity is_ready now ctx request policy latest ids full
            (rt, selected))
  unfolding turn give_up try_candidate
  turn-Keeps now ctx request policy latest ids full rt (failed e) = refl
  turn-Keeps now ctx request policy latest ids full rt (candidates []) = refl
  turn-Keeps now ctx request policy latest ids full rt (candidates (c ∷ cs)) =
      tried-Keeps rt.global_dials (c.config.id ∷ ids) full _ (
        try_generation-Keeps now ctx request policy latest c rt
          (get c.config.id rt.snapshot.node_generations))

  select-dials :
      (now : ℕ) (ctx : RouteContext) (request : TargetRequest) (ids : List ℕ) (rt : Runtime F)
      → (select_from_context fl parse_host affinity is_ready now ctx request ids false
          rt).0.global_dials
        ≡ rt.global_dials
  select-dials now ctx request ids rt =
      ap (λ h. h.1.0)
        (select_from_context-held fl parse_host affinity is_ready now ctx request ids false rt)

  choose_next-dials :
      (now : ℕ) (ctx : RouteContext) (request : TargetRequest) (ids : List ℕ)
      (initial : Option (List Candidate)) (rt : Runtime F)
      → (choose_next fl parse_host affinity is_ready now ctx request ids initial rt).0.global_dials
        ≡ rt.global_dials
  unfolding choose_next
  choose_next-dials now ctx request ids none rt = select-dials now ctx request ids rt
  choose_next-dials now ctx request ids (some cs) rt = elim (Bool-cases (head_is_free ids cs)) [
    | inl e ↦ rw e refl
    | inr e ↦ rw e (select-dials now ctx request ids rt)
  ]

  loop-Keeps :
      (fuel now : ℕ) (ctx : RouteContext) (request : TargetRequest) (policy : Option Policy)
      (latest : Map ℕ ℕ) (ids : List ℕ) (initial : Option (List Candidate)) (full : Bool)
      (rt : Runtime F)
      → Keeps rt.global_dials (
          reserve_loop fl parse_host affinity is_ready fuel now ctx request policy latest ids
            initial full rt)
  unfolding reserve_loop
  loop-Keeps zero now ctx request policy latest ids initial full rt = refl
  loop-Keeps (suc fuel) now ctx request policy latest ids initial full rt =
      let x = choose_next fl parse_host affinity is_ready now ctx request ids initial rt in
      let t = turn fl parse_host affinity is_ready now ctx request policy latest ids full x in
      let kept : TurnKeeps rt.global_dials t =
        subst (λ g. TurnKeeps g t) (choose_next-dials now ctx request ids initial rt)
          (turn-Keeps now ctx request policy latest ids full x.0 x.1) in
      elim (Turn-cases t) [
        | inl (rt', r, e) ↦ rw (e, reserve_loop) (subst (TurnKeeps rt.global_dials) e kept)
        | inr (ids', full', rt', e) ↦
            let same : rt'.global_dials ≡ rt.global_dials =
              subst (TurnKeeps rt.global_dials) e kept in
            rw (e, reserve_loop)
              (subst
                (λ g. Keeps g (
                  reserve_loop fl parse_host affinity is_ready fuel now ctx request policy latest
                    ids' none full' rt'))
                same (loop-Keeps fuel now ctx request policy latest ids' none full' rt'))
      ]

  among-Keeps :
      (fuel now : ℕ) (ctx : RouteContext) (request : TargetRequest) (latest : Map ℕ ℕ)
      (ids : List ℕ) (rt : Runtime F) (selected : Selected)
      → Keeps rt.global_dials (
          reserve_among fl parse_host affinity is_ready fuel now ctx request latest ids
            (rt, selected))
  unfolding reserve_among give_up
  among-Keeps fuel now ctx request latest ids rt (failed e) = refl
  among-Keeps fuel now ctx request latest ids rt (candidates cs) =
      loop-Keeps fuel now ctx request _ latest ids (some cs) _ rt

  -- The global permit that has been taken for `try_reserve_proxy` stays taken if a lease comes of
  -- it, which then owns it, and is free again otherwise.
  pub try_reserve_proxy-Keeps :
      (fuel now : ℕ) (request : TargetRequest) (latest : Map ℕ ℕ) (excluded : List ℕ)
      (rt : Runtime F)
      → Keeps rt.global_dials
          (try_reserve_proxy fl parse_host affinity is_ready fuel now request latest excluded rt)
  unfolding try_reserve_proxy drop_slots
  try_reserve_proxy-Keeps fuel now request latest excluded rt =
      let cleaned = drop_slots rt in
      let ctx = route_context fl parse_host affinity is_ready request cleaned in
      let chosen =
        select_from_context fl parse_host affinity is_ready now ctx request excluded false
          cleaned in
      subst
        (λ g. Keeps g (
          reserve_among fl parse_host affinity is_ready fuel now ctx request latest
            (excluded ++ full_slots cleaned.dial_slots) chosen))
        (select-dials now ctx request excluded cleaned)
        (among-Keeps fuel now ctx request latest (excluded ++ full_slots cleaned.dial_slots)
          chosen.0 chosen.1)
