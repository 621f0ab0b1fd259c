-- ===== src/Breaker/HalfOpen.antt =====
-- proxy.rs, `CircuitBreaker` under `try_begin_attempt_token`: one half-open attempt at a time.
use proxy_load.Base.{
  ℕ, ◌≤◌, ◌<◌, ◌≡◌, refl, Bool, true, false, Option, some, List, [], ◌∷◌, arith, map, All,
}
use proxy_load.Breaker.{opened, half_open, CircuitBreaker, begin_with_token}

-- A later attempt: when, which leases live then, and the token that it brings.
pub record Attempt : Type 0 where
  pub now : ℕ
  pub live : ℕ → Bool
  pub token : Option ℕ

pub attempts : List Attempt → CircuitBreaker → CircuitBreaker × List Bool
attempts [] b = (b, [])
attempts (a ∷ later) b =
    let (b', ok) = begin_with_token a.now a.live a.token b in
    let (last, oks) = attempts later b' in (last, ok ∷ oks)

held_refuses :
    (b : CircuitBreaker) (t now : ℕ) (live : ℕ → Bool) (token : Option ℕ)
    → b.state ≡ half_open
    → b.attempt ≡ some t
    → live t ≡ true
    → begin_with_token now live token b ≡ (b, false)
unfolding begin_with_token
held_refuses b t now live token s a h = ground (arith, s, a, h)

refused_while_held :
    (b : CircuitBreaker) (t : ℕ) (later : List Attempt)
    → b.state ≡ half_open
    → b.attempt ≡ some t
    → All (λ a. a.live t ≡ true) later
    → attempts later b ≡ (b, map (λ _. false) later)
unfolding attempts
refused_while_held b t [] s a h = refl
refused_while_held b t (x ∷ later) s a h =
    rw (held_refuses b t x.now x.live x.token s a h.0, refused_while_held b t later s a h.1)

-- Once the cooling time is over an open breaker lets one attempt begin, which then holds it: of the
-- attempts that try to begin after it while its lease lives and before any outcome is recorded at
-- the breaker, each is refused, whatever the time, and changes nothing.
pub half_open_exclusive :
    (b : CircuitBreaker) (t now : ℕ) (live : ℕ → Bool) (later : List Attempt)
    → b.state ≡ opened
    → b.next_attempt ≤ now
    → All (λ a. a.live t ≡ true) later
    → let (begun, ok) = begin_with_token now live (some t) b in
      (ok ≡ true) × (attempts later begun ≡ (begun, map (λ _. false) later))
unfolding begin_with_token
half_open_exclusive b t now live later s h alive = (
  ground (arith, s, h),
  refused_while_held (begin_with_token now live (some t) b).0 t later (ground (arith, s, h))
      (ground (arith, s, h)) alive,
)

-- When the lease that holds a half-open breaker is gone without a verdict, the next attempt begins
-- at once and holds the breaker in its place.
pub half_open_released :
    (b : CircuitBreaker) (t t' now : ℕ) (live : ℕ → Bool)
    → b.state ≡ half_open
    → b.attempt ≡ some t
    → live t ≡ false
    → begin_with_token now live (some t') b ≡ (record b { attempt = some t' }, true)
unfolding begin_with_token
half_open_released b t t' now live s a dead = ground (arith, s, a, dead)

-- Before the cooling time of an open breaker is over no attempt begins, and the breaker stays as
-- it is.
pub opened_refuses :
    (b : CircuitBreaker) (t : Option ℕ) (now : ℕ) (live : ℕ → Bool)
    → b.state ≡ opened
    → now < b.next_attempt
    → begin_with_token now live t b ≡ (b, false)
unfolding begin_with_token
opened_refuses b t now live s h = ground (arith, s, h)
