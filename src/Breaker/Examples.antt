-- ===== src/Breaker/Examples.antt =====
-- The circuit breaker at concrete states: threshold 3, timeout 1000 ms, open until 5000 ms.
use proxy_load.Base.{
  ℕ, ◌≡◌, refl, Bool, true, false, none, some, List, [], ◌∷◌, arith, map, nat_beq,
}
use proxy_load.Breaker.{opened, CircuitConfig, new, begin_with_token}
use proxy_load.Breaker.Invariant.{IsValid, begins, step, step-IsValid, fail_all, fail_all-new}
use proxy_load.Breaker.HalfOpen.{Attempt, attempts, half_open_exclusive}
use proxy_load.Samples.{breaker}

abbrev only_five : ℕ → Bool
only_five t = nat_beq t 5

abbrev config : CircuitConfig
config = record { failure_threshold = 2; timeout_ms = 700 }

abbrev later : List Attempt
later = record { now = 6001; live = only_five; token = some 6 } ∷ []

half_open_exclusive_example :
    (((begin_with_token 6000 only_five (some 5) (breaker opened none)).1 ≡ true)
      × (attempts later (begin_with_token 6000 only_five (some 5) (breaker opened none)).0 ≡ (
        (begin_with_token 6000 only_five (some 5) (breaker opened none)).0,
        map (λ _. false) later,
      )))
half_open_exclusive_example =
    half_open_exclusive (breaker opened none) 5 6000 only_five later refl (omega arith) (refl, tt)

open-IsValid : IsValid (breaker opened none)
open-IsValid = record { timed = omega arith; cooling = λ e. omega arith; held = λ e. absurd cc }

step-IsValid_example : IsValid (step (begins 6000 only_five (some 5)) (breaker opened none))
step-IsValid_example =
    step-IsValid (begins 6000 only_five (some 5)) (breaker opened none) tt open-IsValid

fail_all-new_example : (fail_all (1 ∷ 2 ∷ 3 ∷ []) (new config)).state ≡ opened
fail_all-new_example = fail_all-new config (1 ∷ 2 ∷ 3 ∷ []) (omega arith)
