-- ===== src/Breaker.antt =====
-- src-tauri/src/proxy.rs: `CircuitBreaker`, the failure counter with an open and a half-open state
-- that guards a proxy or a route through it. Times are milliseconds of the monotonic clock, which
-- is an argument. The token of a half-open attempt is held weakly: `live t` says that the lease
-- which owns token `t` has not been dropped.
pub mod Invariant
pub mod HalfOpen
mod Examples
use proxy_load.Base.{
  ℕ, ◌+◌, ◌-◌, Bool, true, false, not, ◌&&◌, ◌||◌, Option, none, some, if◌then◌else◌, leb, nat_beq,
  saturating_add, is_some_and, is_none_or,
}

pub data State : Type 0 where
  closed opened half_open : State

abbrev pub is_closed : State → Bool
is_closed closed = true
is_closed opened = false
is_closed half_open = false

abbrev pub is_opened : State → Bool
is_opened closed = false
is_opened opened = true
is_opened half_open = false

abbrev pub is_half_open : State → Bool
is_half_open closed = false
is_half_open opened = false
is_half_open half_open = true

pub record CircuitConfig : Type 0 where
  pub failure_threshold : ℕ
  pub timeout_ms : ℕ

pub record CircuitBreaker : Type 0 where
  pub state : State
  pub failures : ℕ
  pub threshold : ℕ
  pub timeout_ms : ℕ
  pub next_attempt : ℕ
  pub attempt : Option ℕ

unfoldable pub new : CircuitConfig → CircuitBreaker
new c = record {
  state = closed;
  failures = 0;
  threshold = c.failure_threshold;
  timeout_ms = c.timeout_ms;
  next_attempt = 0;
  attempt = none;
}

-- `next_attempt` of an open breaker is never below `timeout_ms` (`Invariant`), so that the
-- subtraction is the one of the code.
unfoldable pub apply_config : CircuitConfig → CircuitBreaker → CircuitBreaker
apply_config c b = record b {
  next_attempt =
      if is_opened b.state && not (nat_beq b.timeout_ms c.timeout_ms)
      then saturating_add (b.next_attempt - b.timeout_ms) c.timeout_ms
      else b.next_attempt;
  threshold = c.failure_threshold;
  timeout_ms = c.timeout_ms;
}

unfoldable pub can_attempt_snapshot : ℕ → (ℕ → Bool) → CircuitBreaker → Bool
can_attempt_snapshot now live b =
    is_closed b.state
    || (is_opened b.state && leb b.next_attempt now
        || is_half_open b.state && is_some_and b.attempt (λ t. not (live t)))

unfoldable pub try_begin_attempt : ℕ → (ℕ → Bool) → CircuitBreaker → CircuitBreaker × Bool
unfolding can_attempt_snapshot
try_begin_attempt now live b =
    if is_closed b.state
    then (b, true)
    else if can_attempt_snapshot now live b
    then (record b { state = half_open }, true)
    else (b, false)

unfoldable pub half_open_in_flight : (ℕ → Bool) → CircuitBreaker → Bool
half_open_in_flight live b = is_half_open b.state && is_none_or b.attempt live

unfoldable pub record_success : CircuitBreaker → CircuitBreaker
record_success b = record b { failures = 0; state = closed; next_attempt = 0; attempt = none }

unfoldable pub record_failure : ℕ → CircuitBreaker → CircuitBreaker
record_failure now b =
    if is_half_open b.state || leb b.threshold (b.failures + 1)
    then record b {
      failures = b.failures + 1;
      state = opened;
      next_attempt = saturating_add now b.timeout_ms;
      attempt = none;
    }
    else record b { failures = b.failures + 1 }

unfoldable pub cancel_half_open_attempt : ℕ → CircuitBreaker → CircuitBreaker
cancel_half_open_attempt now b =
    if is_half_open b.state
    then record b { state = opened; next_attempt = saturating_add now b.timeout_ms; attempt = none }
    else b

unfoldable pub hold : Option ℕ → CircuitBreaker → CircuitBreaker
hold token b = if is_half_open b.state then record b { attempt = token } else b

-- What `try_begin_attempt_token` does to one breaker: nothing if no attempt may begin, else it
-- begins and, if the breaker is half open then, holds it by the token.
unfoldable pub begin_with_token : ℕ → (ℕ → Bool) → Option ℕ → CircuitBreaker → CircuitBreaker × Bool
unfolding try_begin_attempt hold
begin_with_token now live token b =
    if can_attempt_snapshot now live b
    then (hold token (try_begin_attempt now live b).0, (try_begin_attempt now live b).1)
    else (b, false)
