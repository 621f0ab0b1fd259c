-- ===== src/Breaker/Invariant.antt =====
-- proxy.rs, `CircuitBreaker`: an invariant of every operation, and when failures open the breaker.
use proxy_load.Base.{
  ℕ, ◌+◌, ◌≤◌, ◌<◌, ◌≡◌, refl, inl, inr, Bool, true, Option, List, [], ◌∷◌, arith, i64_max, is_some,
  Bool-cases, leb, if◌then◌else◌, length,
}
use proxy_load.Breaker.{
  closed, opened, half_open, is_opened, CircuitConfig, CircuitBreaker, new, apply_config,
  begin_with_token, record_success, record_failure, cancel_half_open_attempt,
}

-- A token is held only in the half-open state, and the end of the cooling time of an open breaker
-- is not before one timeout.
pub record IsValid (b : CircuitBreaker) : Type 0 where
  pub timed : b.timeout_ms ≤ i64_max
  pub cooling : is_opened b.state ≡ true → b.timeout_ms ≤ b.next_attempt
  pub held : is_some b.attempt ≡ true → b.state ≡ half_open

-- The operations, with what they read of the clock and of the live leases.
pub data Op : Type 0 where
  configures : CircuitConfig → Op
  begins : ℕ → (ℕ → Bool) → Option ℕ → Op
  succeeds : Op
  fails : ℕ → Op
  cancels : ℕ → Op

abbrev pub IsBounded : Op → Type 0
IsBounded (configures c) = c.timeout_ms ≤ i64_max
IsBounded (begins now live token) = Unit
IsBounded succeeds = Unit
IsBounded (fails now) = Unit
IsBounded (cancels now) = Unit

pub step : Op → CircuitBreaker → CircuitBreaker
step (configures c) b = apply_config c b
step (begins now live token) b = (begin_with_token now live token b).0
step succeeds b = record_success b
step (fails now) b = record_failure now b
step (cancels now) b = cancel_half_open_attempt now b

-- Every operation keeps a breaker valid, as long as a timeout that it configures fits into 64
-- bits.
pub step-IsValid : (op : Op) (b : CircuitBreaker) → IsBounded op → IsValid b → IsValid (step op b)
unfolding step apply_config begin_with_token record_success record_failure cancel_half_open_attempt
step-IsValid (configures c) b h v = record { timed = h; cooling = ground arith; held = v.held }
step-IsValid (begins now live token) b h v = record {
  timed = ground arith;
  cooling = ground arith;
  held = ground arith;
}
step-IsValid succeeds b h v = record { timed = v.timed; cooling = λ e. cc; held = λ e. cc }
step-IsValid (fails now) b h v = record {
  timed = ground arith;
  cooling = ground arith;
  held = ground arith;
}
step-IsValid (cancels now) b h v = record {
  timed = ground arith;
  cooling = ground arith;
  held = ground arith;
}

-- A run of failures at the given times.
pub fail_all : List ℕ → CircuitBreaker → CircuitBreaker
fail_all [] b = b
fail_all (now ∷ times) b = fail_all times (record_failure now b)

fail_all-opened :
    (times : List ℕ) (b : CircuitBreaker)
    → b.state ≡ opened
    → b.threshold ≤ b.failures
    → (fail_all times b).state ≡ opened
unfolding fail_all record_failure
fail_all-opened [] b o h = o
fail_all-opened (now ∷ times) b o h =
    fail_all-opened times (record_failure now b) (ground (arith, o)) (ground (arith, o))

fail_all-closed :
    (times : List ℕ) (b : CircuitBreaker)
    → b.state ≡ closed
    → b.failures < b.threshold
    → (fail_all times b).state
      ≡ (if leb b.threshold (b.failures + length times) then opened else closed)
unfolding fail_all record_failure
fail_all-closed [] b c h = ground (arith, c)
fail_all-closed (now ∷ times) b c h = elim (Bool-cases (leb b.threshold (b.failures + 1))) [
  | inl e ↦ ground (
    arith,
    e,
    fail_all-opened times (record_failure now b) (ground (arith, e)) (ground (arith, e)),
  )
  | inr e ↦ ground (
    arith,
    e,
    fail_all-closed times (record_failure now b) (ground (arith, e, c)) (ground (arith, e, c)),
  )
]

-- A new breaker with a positive threshold is open after exactly as many failures in a row as the
-- threshold says, or more, and closed after fewer.
pub fail_all-new :
    (c : CircuitConfig) (times : List ℕ)
    → 0 < c.failure_threshold
    → (fail_all times (new c)).state
      ≡ (if leb c.failure_threshold (length times) then opened else closed)
unfolding new
fail_all-new c times h = ground (arith, fail_all-closed times (new c) refl h)

-- Changing the timeout of a valid open breaker and changing it back restores the end of its
-- cooling time, as long as that time and the other timeout add up to no more than the clock's
-- largest value.
pub apply_config_back :
    (c : CircuitConfig) (b : CircuitBreaker)
    → IsValid b
    → b.state ≡ opened
    → b.next_attempt + c.timeout_ms ≤ i64_max
    → (apply_config
        (record { failure_threshold = b.threshold; timeout_ms = b.timeout_ms })
        (apply_config c b)).next_attempt
      ≡ b.next_attempt
unfolding apply_config
apply_config_back c b v o h = ground (arith, o, v.cooling)
