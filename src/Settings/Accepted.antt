-- ===== src/Settings/Accepted.antt =====
-- limits.rs and `RuntimeSettings`: what settings have that are accepted.
use proxy_load.Base.{
  ℕ, ◌≡◌, ◌≤◌, false, ◌&&◌, ◌||◌, Option, none, some, arith, leb, ltb, nat_beq, String, str_eq,
  i64_max, Bool-cases, inl, inr,
}
use proxy_load.Base.Map.{get}
use proxy_load.Breaker.{CircuitConfig}
use proxy_load.Runtime.{RuntimeSettings, FailFastConfig, InboundAuth}
use proxy_load.Settings.{
  Value, null, negative_integer, other_number, compound, boolean, integer, text, Config, Read, ok,
  err, bind, as_positive, positive_i64_setting, within, read_at, read, ConcurrencyLimits,
  check_limits, limits_from_advanced, read_auth, read_circuit, read_fail_fast, from_advanced,
  text_eq,
}

-- What holds of the value if there is one.
pub Accepts : {A : Type 0} → (A → Type 0) → Read A → Type 0
Accepts P (ok a) = P a
Accepts P (err e) = Unit

Accepts-bind :
    {A B : Type 0} (P : A → Type 0) (Q : B → Type 0) (x : Read A) (f : A → Read B)
    → Accepts P x
    → ((a : A) → P a → Accepts Q (f a))
    → Accepts Q (bind x f)
unfolding Accepts bind
Accepts-bind P Q (ok a) f p q = q a p
Accepts-bind P Q (err e) f p q = tt

Accepts-bind_any :
    {A B : Type 0} (Q : B → Type 0) (x : Read A) (f : A → Read B)
    → ((a : A) → Accepts Q (f a))
    → Accepts Q (bind x f)
unfolding Accepts bind
Accepts-bind_any Q (ok a) f q = q a
Accepts-bind_any Q (err e) f q = tt

within-Accepts :
    (key : String) (maximum n : ℕ) → Accepts (λ a. (1 ≤ a) × (a ≤ maximum)) (within key maximum n)
unfolding Accepts within
within-Accepts key maximum n = elim (Bool-cases (nat_beq n 0 || ltb maximum n)) [
  | inl e ↦ rw e tt
  | inr e ↦ rw e (ground (arith, e))
]

read_at-Accepts :
    (key : String) (default maximum : ℕ) (v : Option Value)
    → Accepts (λ a. (1 ≤ a) × (a ≤ maximum)) (read_at key default maximum v)
unfolding Accepts read_at
read_at-Accepts key default maximum none = within-Accepts key maximum default
read_at-Accepts key default maximum (some (integer n)) = within-Accepts key maximum n
read_at-Accepts key default maximum (some null) = tt
read_at-Accepts key default maximum (some negative_integer) = tt
read_at-Accepts key default maximum (some other_number) = tt
read_at-Accepts key default maximum (some compound) = tt
read_at-Accepts key default maximum (some (boolean b)) = tt
read_at-Accepts key default maximum (some (text s)) = tt

read-Accepts :
    (config : Config) (key : String) (default maximum : ℕ)
    → Accepts (λ a. (1 ≤ a) × (a ≤ maximum)) (read config key default maximum)
unfolding read
read-Accepts config key default maximum = read_at-Accepts key default maximum (get key config)

-- The limits are at least 1, a proxy's dials are at most all dials, and these and the handshakes at
-- most the connections, of which there are at most 16384.
abbrev pub IsOrdered : ConcurrencyLimits → Type 0
IsOrdered l =
    (1 ≤ l.max_proxy_dials)
    × ((l.max_proxy_dials ≤ l.max_global_dials)
        × ((l.max_global_dials ≤ l.max_connections)
            × ((1 ≤ l.max_handshakes)
                × ((l.max_handshakes ≤ l.max_connections) × (l.max_connections ≤ 16384)))))

check_limits-Accepts :
    (l : ConcurrencyLimits)
    → 1 ≤ l.max_proxy_dials
    → 1 ≤ l.max_handshakes
    → l.max_connections ≤ 16384
    → Accepts IsOrdered (check_limits l)
unfolding Accepts check_limits
check_limits-Accepts l p h c =
    elim (Bool-cases (
      ltb l.max_global_dials l.max_proxy_dials
      || (ltb l.max_connections l.max_global_dials || ltb l.max_connections l.max_handshakes))) [
        | inl e ↦ rw e tt
        | inr e ↦ rw e (ground (arith, p, h, c, e))
      ]

-- The limits that `from_advanced` accepts, whatever the saved settings say, are at least 1, and in
-- order: dials through one proxy ≤ all dials ≤ connections ≤ 16384, and handshakes ≤ connections.
pub limits_from_advanced-Accepts :
    (config : Config) → Accepts IsOrdered (limits_from_advanced config)
unfolding limits_from_advanced
limits_from_advanced-Accepts config =
    Accepts-bind (λ a. (1 ≤ a) × (a ≤ 16384)) IsOrdered _ _ (read-Accepts config _ 1024 _)
      (λ c pc.
        Accepts-bind (λ a. (1 ≤ a) × (a ≤ 4096)) IsOrdered _ _ (read-Accepts config _ 128 _)
          (λ h ph.
            Accepts-bind (λ a. (1 ≤ a) × (a ≤ 2048)) IsOrdered _ _ (read-Accepts config _ 64 _)
              (λ g pg.
                Accepts-bind (λ a. (1 ≤ a) × (a ≤ 512)) IsOrdered _ _ (read-Accepts config _ 32 _)
                  (λ p pp. check_limits-Accepts _ pp.0 ph.0 pc.1))))

abbrev IsPositive : ℕ → Type 0
IsPositive n = (1 ≤ n) × (n ≤ i64_max)

as_positive-Accepts : (key : String) (v : Option Value) → Accepts IsPositive (as_positive key v)
unfolding Accepts as_positive
as_positive-Accepts key none = tt
as_positive-Accepts key (some (integer n)) = elim (Bool-cases (leb n i64_max)) [
  | inl e ↦ elim (Bool-cases (nat_beq n 0)) [
    | inl f ↦ rw (e, f) tt
    | inr f ↦ rw (e, f) (ground (arith, e, f))
  ]
  | inr e ↦ rw e tt
]
as_positive-Accepts key (some null) = tt
as_positive-Accepts key (some negative_integer) = tt
as_positive-Accepts key (some other_number) = tt
as_positive-Accepts key (some compound) = tt
as_positive-Accepts key (some (boolean b)) = tt
as_positive-Accepts key (some (text s)) = tt

positive_i64_setting-Accepts :
    (config : Config) (key : String) → Accepts IsPositive (positive_i64_setting config key)
unfolding positive_i64_setting
positive_i64_setting-Accepts config key = as_positive-Accepts key (get key config)

-- Credentials are there if they are asked for; thresholds, attempts and times are positive and fit
-- into 64 bits; one attempt does not take longer than all of them.
abbrev pub IsSound : RuntimeSettings → Type 0
IsSound s =
    ((s.inbound_auth.enabled
        && (str_eq s.inbound_auth.username "" || str_eq s.inbound_auth.password ""))
      ≡ false)
    × (IsPositive s.circuit.failure_threshold
        × (IsPositive s.circuit.timeout_ms
            × (IsPositive s.fail_fast.max_attempts
                × (IsPositive s.fail_fast.attempt_timeout_ms
                    × ((s.fail_fast.attempt_timeout_ms ≤ s.fail_fast.total_timeout_ms)
                        × (s.fail_fast.total_timeout_ms ≤ i64_max))))))

abbrev HasCredentials : InboundAuth → Type 0
HasCredentials a = (a.enabled && (str_eq a.username "" || str_eq a.password "")) ≡ false

read_auth-Accepts : (config : Config) → Accepts HasCredentials (read_auth config)
unfolding Accepts read_auth
read_auth-Accepts config = Accepts-bind_any HasCredentials _ _ (λ enabled.
    Accepts-bind_any HasCredentials _ _ (λ username.
      Accepts-bind_any HasCredentials _ _ (λ password.
        elim (Bool-cases (enabled && (str_eq username "" || str_eq password ""))) [
          | inl e ↦ rw e tt
          | inr e ↦ rw e e
        ])))

abbrev IsTimed : CircuitConfig → Type 0
IsTimed c = IsPositive c.failure_threshold × IsPositive c.timeout_ms

read_circuit-Accepts : (config : Config) → Accepts IsTimed (read_circuit config)
unfolding Accepts read_circuit
read_circuit-Accepts config =
    Accepts-bind IsPositive IsTimed _ _ (positive_i64_setting-Accepts config _) (λ a pa.
      Accepts-bind IsPositive IsTimed _ _ (positive_i64_setting-Accepts config _)
        (λ b pb. (pa, pb)))

abbrev IsBounded : FailFastConfig → Type 0
IsBounded f =
    IsPositive f.max_attempts
    × (IsPositive f.attempt_timeout_ms
        × ((f.attempt_timeout_ms ≤ f.total_timeout_ms) × (f.total_timeout_ms ≤ i64_max)))

read_fail_fast-Accepts : (config : Config) → Accepts IsBounded (read_fail_fast config)
unfolding Accepts read_fail_fast
read_fail_fast-Accepts config =
    Accepts-bind IsPositive IsBounded _ _ (positive_i64_setting-Accepts config _) (λ a pa.
      Accepts-bind IsPositive IsBounded _ _ (positive_i64_setting-Accepts config _) (λ b pb.
        elim (Bool-cases (ltb b a)) [
          | inl e ↦ rw e tt
          | inr e ↦ rw e (
              Accepts-bind_any IsBounded _ _ (λ enabled.
                Accepts-bind IsPositive IsBounded _ _ (positive_i64_setting-Accepts config _)
                  (λ n pn. (pn, (pa, (ground (arith, e), pb.1))))))
        ]))

-- The settings that `from_advanced` accepts, whatever was saved: the user name and the password are
-- not empty if they are asked for; thresholds, attempts and times are at least 1 and below 2^63;
-- and the time for one attempt is at most the total.
pub from_advanced-Accepts : (config : Config) → Accepts IsSound (from_advanced config)
unfolding Accepts from_advanced
from_advanced-Accepts config =
    Accepts-bind HasCredentials IsSound _ _ (read_auth-Accepts config) (λ a pa.
      Accepts-bind IsTimed IsSound _ _ (read_circuit-Accepts config) (λ c pc.
        Accepts-bind IsBounded IsSound _ _ (read_fail_fast-Accepts config) (λ f pf.
          Accepts-bind_any IsSound _ _ (λ m. (pa, (pc.0, (pc.1, (pf.0, (pf.1.0, pf.1.1)))))))))
