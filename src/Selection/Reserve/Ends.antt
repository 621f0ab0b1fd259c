-- ===== src/Selection/Reserve/Ends.antt =====
-- proxy.rs: the loop of `try_reserve_proxy` ends, and what it leases had not been ruled out.
use proxy_load.Base.{
  ap, ℕ, zero, suc, ◌≤◌, ◌<◌, ◌≡◌, refl, sym, subst, Bool, true, false, not, Option, none, some,
  List, ◌++◌, arith, length, length-keep, nat_eq, inl, inr,
}
use proxy_load.Base.Float.{Float}
use proxy_load.Base.Map.{Map}
use proxy_load.Models.{Bytes, ProxyRecord}
use proxy_load.Routing.Snapshot.{RouteContext, RoutingSnapshot}
use proxy_load.Candidate.{Candidate, TargetRequest}
use proxy_load.Sticky.{Policy}
use proxy_load.Runtime.{Runtime}
use proxy_load.Selection.Choose.{Selected, candidates, failed, records, select_from_context}
use proxy_load.Selection.Choose.Eligible.{selected_all}
use proxy_load.Selection.Choose.Members.{
  listed, select_from_context-listed, select_from_context-held,
}
use proxy_load.Selection.Reserve.{
  Reserved, leased, nothing, refused, out_of_fuel, again, has, full_slots, drop_slots,
  route_context, choose_next, turn, reserve_loop, reserve_among, try_reserve_proxy,
}
use proxy_load.Selection.Reserve.Turns.{
  left, settled, Advances, Turn-cases, has-append, length-records, turn-Advances, Initial,
  choose_next-IsOpen,
}

module _ (fl : Float) (parse_host : Bytes → Option Bytes) (affinity : ℕ → Bytes → ℕ → ℕ)
    (is_ready : ProxyRecord → Option ℕ → Bool) where
  open fl use {F}

  loop_settles :
      (fuel now : ℕ) (ctx : RouteContext) (request : TargetRequest) (policy : Option Policy)
      (latest : Map ℕ ℕ) (ids : List ℕ) (initial : Option (List Candidate)) (full : Bool)
      (rt : Runtime F)
      → left ids (records rt.snapshot.proxies ctx.members) < fuel
      → Initial (records rt.snapshot.proxies ctx.members) initial
      → settled ids
          (reserve_loop fl parse_host affinity is_ready fuel now ctx request policy latest ids
            initial full rt).1
        ≡ true
  unfolding reserve_loop
  loop_settles zero now ctx request policy latest ids initial full rt m o = absurd (omega arith)
  loop_settles (suc fuel) now ctx request policy latest ids initial full rt m o =
      let ps = records rt.snapshot.proxies ctx.members in
      let x = choose_next fl parse_host affinity is_ready now ctx request ids initial rt in
      let t = turn fl parse_host affinity is_ready now ctx request policy latest ids full x in
      let open_next =
        choose_next-IsOpen fl parse_host affinity is_ready now ctx request ids initial rt o in
      let advances : Advances ids ps rt.snapshot t =
        turn-Advances fl parse_host affinity is_ready now ctx request policy latest ids full ps
          rt.snapshot x.0 x.1 open_next.0 open_next.1 in
      elim (Turn-cases t) [
        | inl (rt', r, e) ↦ rw (e, reserve_loop) (subst (Advances ids ps rt.snapshot) e advances)
        | inr (ids', full', rt', e) ↦
            let step : Advances ids ps rt.snapshot (again ids' full' rt') =
              subst (Advances ids ps rt.snapshot) e advances in
            let fewer : left ids' (records rt'.snapshot.proxies ctx.members) < fuel =
              subst (λ z. left ids' (records z.proxies ctx.members) < fuel) (sym step.1)
                (omega (arith, step.2, m)) in
            rw (e, reserve_loop)
              (step.0 _
                (loop_settles fuel now ctx request policy latest ids' none full' rt' fewer tt))
      ]

  settled-append :
      (ids more : List ℕ) (r : Reserved) → settled (ids ++ more) r ≡ true → settled ids r ≡ true
  unfolding settled
  settled-append ids more (leased lease) h = ground (arith, h, has-append lease.proxy.id ids more)
  settled-append ids more (nothing full) h = refl
  settled-append ids more (refused e) h = refl
  settled-append ids more out_of_fuel h = h

  left-le-members :
      (ids : List ℕ) (proxies : List ProxyRecord) (members : List ℕ)
      → left ids (records proxies members) ≤ length members
  unfolding left
  left-le-members ids proxies members = omega (
    arith,
    length-keep (λ (p : ProxyRecord). not (has p.id ids)) (records proxies members),
    length-records proxies members,
  )

  among_settles :
      (fuel now : ℕ) (ctx : RouteContext) (request : TargetRequest) (latest : Map ℕ ℕ)
      (ids : List ℕ) (rt : Runtime F) (selected : Selected)
      → length ctx.members < fuel
      → selected_all (listed (records rt.snapshot.proxies ctx.members)) selected ≡ true
      → settled ids
          (reserve_among fl parse_host affinity is_ready fuel now ctx request latest ids
            (rt, selected)).1
        ≡ true
  unfolding reserve_among settled selected_all
  among_settles fuel now ctx request latest ids rt (failed e) m l = refl
  among_settles fuel now ctx request latest ids rt (candidates cs) m l =
      loop_settles fuel now ctx request _ latest ids (some cs) _ rt
        (omega (arith, m, left-le-members ids rt.snapshot.proxies ctx.members)) l

  -- `try_reserve_proxy` ends within one turn more than the route has members, whatever the state,
  -- and a proxy that it leases is none of the excluded ones.
  pub try_reserve_proxy-settled :
      (fuel now : ℕ) (request : TargetRequest) (latest : Map ℕ ℕ) (excluded : List ℕ)
      (rt : Runtime F)
      → length (route_context fl parse_host affinity is_ready request rt).members < fuel
      → settled excluded
          (try_reserve_proxy fl parse_host affinity is_ready fuel now request latest excluded rt).1
        ≡ true
  unfolding try_reserve_proxy drop_slots route_context
  try_reserve_proxy-settled fuel now request latest excluded rt m =
      let cleaned = drop_slots rt in
      let ctx = route_context fl parse_host affinity is_ready request cleaned in
      let chosen =
        select_from_context fl parse_host affinity is_ready now ctx request excluded false
          cleaned in
      let kept =
        ap (λ h. h.0)
          (select_from_context-held fl parse_host affinity is_ready now ctx request excluded false
            cleaned) in
      settled-append excluded (full_slots cleaned.dial_slots) _ (
        among_settles fuel now ctx request latest (excluded ++ full_slots cleaned.dial_slots)
          chosen.0 chosen.1 m
          (subst
            (λ (z : RoutingSnapshot).
              selected_all (listed (records z.proxies ctx.members)) chosen.1 ≡ true)
            (sym kept)
            (select_from_context-listed fl parse_host affinity is_ready now ctx request excluded
              false cleaned)))
