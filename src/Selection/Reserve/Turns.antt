-- ===== src/Selection/Reserve/Turns.antt =====
-- proxy.rs: what a turn of the loop of `try_reserve_proxy` leaves.
use proxy_load.Base.{
  ap, ℕ, ◌≤◌, ◌<◌, ◌≡◌, refl, subst, Bool, true, false, not, ◌||◌, Option, none, some, List, [],
  ◌∷◌, ◌++◌, arith, all, keep, length, nat_beq, nat_eq, nat_beq_iff, Bool-cases, Option-cases,
  get_elem?, inl, inr, ◌⊎◌, is_some_and,
}
use proxy_load.Base.Float.{Float}
use proxy_load.Base.Map.{Map, get}
use proxy_load.Models.{Bytes, ProxyRecord}
use proxy_load.Routing.Snapshot.{RouteContext, RoutingSnapshot}
use proxy_load.Candidate.{Candidate, TargetRequest, into_record}
use proxy_load.Sticky.{Policy}
use proxy_load.Runtime.{Runtime, Lease, try_begin_attempt_token}
use proxy_load.Runtime.Frame.{try_begin_attempt_token-held}
use proxy_load.Selection.Choose.{Selected, candidates, failed, records, select_from_context}
use proxy_load.Selection.Choose.Eligible.{selected_all, may_try, select_from_context-may_try}
use proxy_load.Selection.Choose.Members.{
  listed, select_from_context-listed, select_from_context-held,
}
use proxy_load.Selection.Reserve.{
  Reserved, leased, nothing, refused, out_of_fuel, Turn, stop, again, has, head_is_free, set_slots,
  free_slots, take_slot, record_lease, try_generation, try_candidate, choose_next, tried, turn,
}

-- How many proxies are not ruled out.
unfoldable pub left : List ℕ → List ProxyRecord → ℕ
left ids ps = length (keep (λ p. not (has p.id ids)) ps)

left-le : (id : ℕ) (ids : List ℕ) (ps : List ProxyRecord) → left (id ∷ ids) ps ≤ left ids ps
unfolding left has
left-le id ids [] = omega arith
left-le id ids (p ∷ ps) = ground (arith, left-le id ids ps)

-- Ruling out a candidate that was not ruled out makes them fewer.
left-lt :
    (c : Candidate) (ids : List ℕ) (ps : List ProxyRecord)
    → listed ps c ≡ true
    → has c.config.id ids ≡ false
    → left (c.config.id ∷ ids) ps < left ids ps
unfolding left has listed
left-lt c ids [] l h = absurd cc
left-lt c ids (p ∷ ps) l h =
    ground (arith, left-lt c ids ps, left-le c.config.id ids ps, nat_beq_iff p.id c.config.id, l, h)

-- The loop has ended, and a proxy that was leased had not been ruled out.
unfoldable pub settled : List ℕ → Reserved → Bool
settled ids (leased lease) = not (has lease.proxy.id ids)
settled ids (nothing full) = true
settled ids (refused e) = true
settled ids out_of_fuel = false

settled-cons :
    (id : ℕ) (ids : List ℕ) (r : Reserved) → settled (id ∷ ids) r ≡ true → settled ids r ≡ true
unfolding settled has
settled-cons id ids (leased lease) h = ground (arith, h)
settled-cons id ids (nothing full) h = refl
settled-cons id ids (refused e) h = refl
settled-cons id ids out_of_fuel h = h

-- A lease is one of the proxy; without a lease the snapshot is as it was.
abbrev Framed : {F : Type 0} → ℕ → RoutingSnapshot → Runtime F × (Option Lease × Bool) → Type 0
Framed id s (rt, (some lease, full)) = nat_beq lease.proxy.id id ≡ true
Framed id s (rt, (none, full)) = rt.snapshot ≡ s

-- What a turn of the loop leaves: either it settles the matter, or fewer proxies remain.
abbrev pub Advances : {F : Type 0} → List ℕ → List ProxyRecord → RoutingSnapshot → Turn F → Type 0
Advances ids ps s (stop rt r) = settled ids r ≡ true
Advances ids ps s (again ids' full rt) =
    ((r : Reserved) → settled ids' r ≡ true → settled ids r ≡ true)
    × (rt.snapshot ≡ s)
    × (left ids' ps < left ids ps)

pub Turn-cases :
    {F : Type 0} (t : Turn F)
    → ((rt : Runtime F) × (r : Reserved) × (t ≡ stop rt r))
      ⊎ ((ids : List ℕ) × (full : Bool) × (rt : Runtime F) × (t ≡ again ids full rt))
Turn-cases (stop rt r) = inl (rt, r, refl)
Turn-cases (again ids full rt) = inr (ids, full, rt, refl)

-- The candidates from which a turn starts: members of the route, the first of which may be tried.
abbrev pub IsOpen : List ℕ → List ProxyRecord → Selected → Type 0
IsOpen ids ps (failed e) = Unit
IsOpen ids ps (candidates []) = Unit
IsOpen ids ps (candidates (c ∷ cs)) = (listed ps c ≡ true) × (has c.config.id ids ≡ false)

pub has-append : (id : ℕ) (ids more : List ℕ) → has id (ids ++ more) ≡ (has id ids || has id more)
unfolding has
has-append id [] more = refl
has-append id (j ∷ ids) more = ground (arith, has-append id ids more)

pub length-records :
    (proxies : List ProxyRecord) (members : List ℕ)
    → length (records proxies members) ≤ length members
unfolding records
length-records proxies [] = omega arith
length-records proxies (i ∷ is) = elim (Option-cases (get_elem? proxies i)) [
  | inl e ↦ rw (e, records) (omega (arith, length-records proxies is))
  | inr (p, e) ↦ rw (e, records) (omega (arith, length-records proxies is))
]

-- `Initial`: what the loop may be given as the candidates of its first turn.
abbrev pub Initial : List ProxyRecord → Option (List Candidate) → Type 0
Initial ps none = Unit
Initial ps (some cs) = all (listed ps) cs ≡ true

module _ (fl : Float) (parse_host : Bytes → Option Bytes) (affinity : ℕ → Bytes → ℕ → ℕ)
    (is_ready : ProxyRecord → Option ℕ → Bool) where
  open fl use {F}

  take_slot-Framed :
      (now : ℕ) (ctx : RouteContext) (request : TargetRequest) (policy : Option Policy)
      (generation : ℕ) (c : Candidate) (rt : Runtime F)
      → Framed c.config.id rt.snapshot
          (take_slot fl parse_host affinity is_ready now ctx request policy generation c rt)
  unfolding take_slot set_slots record_lease into_record
  take_slot-Framed now ctx request policy generation c rt =
      let id = c.config.id in
      let opened = set_slots id (free_slots id rt) rt in
      elim (Bool-cases (nat_beq (free_slots id rt) 0)) [
        | inl e ↦ rw e refl
        | inr e ↦
            elim (Bool-cases
              (try_begin_attempt_token fl parse_host now id request (some rt.next_token)
                opened).1) [
                  | inl f ↦ rw (e, f) (ground arith)
                  | inr f ↦
                      rw (e, f)
                        (ap (λ h. h.0)
                          (try_begin_attempt_token-held fl parse_host now id request
                            (some rt.next_token) opened))
                ]
      ]

  try_generation-Framed :
      (now : ℕ) (ctx : RouteContext) (request : TargetRequest) (policy : Option Policy)
      (latest : Map ℕ ℕ) (c : Candidate) (rt : Runtime F) (generation : Option ℕ)
      → Framed c.config.id rt.snapshot (
          try_generation fl parse_host affinity is_ready now ctx request policy latest c rt
            generation)
  unfolding try_generation
  try_generation-Framed now ctx request policy latest c rt none = refl
  try_generation-Framed now ctx request policy latest c rt (some g) =
      elim (Bool-cases (is_some_and (get c.config.id latest) (nat_beq g))) [
        | inl f ↦ rw f (take_slot-Framed now ctx request policy g c rt)
        | inr f ↦ rw f refl
      ]

  try_candidate-Framed :
      (now : ℕ) (ctx : RouteContext) (request : TargetRequest) (policy : Option Policy)
      (latest : Map ℕ ℕ) (c : Candidate) (rt : Runtime F)
      → Framed c.config.id rt.snapshot
          (try_candidate fl parse_host affinity is_ready now ctx request policy latest c rt)
  unfolding try_candidate
  try_candidate-Framed now ctx request policy latest c rt =
      try_generation-Framed now ctx request policy latest c rt
        (get c.config.id rt.snapshot.node_generations)

  tried-Advances :
      (c : Candidate) (ids : List ℕ) (ps : List ProxyRecord) (s : RoutingSnapshot) (full : Bool)
      (x : Runtime F × (Option Lease × Bool))
      → listed ps c ≡ true
      → has c.config.id ids ≡ false
      → Framed c.config.id s x
      → Advances ids ps s (tried fl parse_host affinity is_ready (c.config.id ∷ ids) full x)
  unfolding tried settled has
  tried-Advances c ids ps s full (rt, (some lease, slots)) l h e =
      ground (arith, h, nat_beq_iff lease.proxy.id c.config.id, e)
  tried-Advances c ids ps s full (rt, (none, slots)) l h e =
      (settled-cons c.config.id ids, e, left-lt c ids ps l h)

  pub turn-Advances :
      (now : ℕ) (ctx : RouteContext) (request : TargetRequest) (policy : Option Policy)
      (latest : Map ℕ ℕ) (ids : List ℕ) (full : Bool) (ps : List ProxyRecord) (s : RoutingSnapshot)
      (rt : Runtime F) (selected : Selected)
      → rt.snapshot ≡ s
      → IsOpen ids ps selected
      → Advances ids ps s (
          turn fl parse_host affinity is_ready now ctx request policy latest ids full
            (rt, selected))
  unfolding turn settled
  turn-Advances now ctx request policy latest ids full ps s rt (failed e) q o = refl
  turn-Advances now ctx request policy latest ids full ps s rt (candidates []) q o = refl
  turn-Advances now ctx request policy latest ids full ps s rt (candidates (c ∷ cs)) q o =
      tried-Advances c ids ps s full _ o.0 o.1 (
        subst
          (λ z.
            Framed c.config.id z
              (try_candidate fl parse_host affinity is_ready now ctx request policy latest c rt))
          q (try_candidate-Framed now ctx request policy latest c rt))

  selected-IsOpen :
      (now : ℕ) (request : TargetRequest) (ids : List ℕ) (ps : List ProxyRecord) (rt : Runtime F)
      (selected : Selected)
      → selected_all (may_try fl parse_host affinity is_ready now request ids rt) selected ≡ true
      → selected_all (listed ps) selected ≡ true
      → IsOpen ids ps selected
  unfolding selected_all may_try has
  selected-IsOpen now request ids ps rt (failed e) m l = tt
  selected-IsOpen now request ids ps rt (candidates []) m l = tt
  selected-IsOpen now request ids ps rt (candidates (c ∷ cs)) m l = ground (arith, m, l)

  head-IsOpen :
      (ids : List ℕ) (ps : List ProxyRecord) (cs : List Candidate)
      → all (listed ps) cs ≡ true
      → head_is_free ids cs ≡ true
      → IsOpen ids ps (candidates cs)
  unfolding head_is_free
  head-IsOpen ids ps [] l h = tt
  head-IsOpen ids ps (c ∷ cs) l h = ground (arith, l, h)

  again-IsOpen :
      (now : ℕ) (ctx : RouteContext) (request : TargetRequest) (ids : List ℕ) (rt : Runtime F)
      → let x = select_from_context fl parse_host affinity is_ready now ctx request ids false rt in
        (x.0.snapshot ≡ rt.snapshot) × IsOpen ids (records rt.snapshot.proxies ctx.members) x.1
  again-IsOpen now ctx request ids rt = (
    ap (λ h. h.0)
        (select_from_context-held fl parse_host affinity is_ready now ctx request ids false rt),
    selected-IsOpen now request ids (records rt.snapshot.proxies ctx.members) rt _
        (select_from_context-may_try fl parse_host affinity is_ready now ctx request ids false rt)
        (select_from_context-listed fl parse_host affinity is_ready now ctx request ids false rt),
  )

  pub choose_next-IsOpen :
      (now : ℕ) (ctx : RouteContext) (request : TargetRequest) (ids : List ℕ)
      (initial : Option (List Candidate)) (rt : Runtime F)
      → Initial (records rt.snapshot.proxies ctx.members) initial
      → let x = choose_next fl parse_host affinity is_ready now ctx request ids initial rt in
        (x.0.snapshot ≡ rt.snapshot) × IsOpen ids (records rt.snapshot.proxies ctx.members) x.1
  unfolding choose_next
  choose_next-IsOpen now ctx request ids none rt o = again-IsOpen now ctx request ids rt
  choose_next-IsOpen now ctx request ids (some cs) rt o = elim (Bool-cases (head_is_free ids cs)) [
    | inl e ↦ rw e (refl, head-IsOpen ids _ cs o e)
    | inr e ↦ rw e (again-IsOpen now ctx request ids rt)
  ]
