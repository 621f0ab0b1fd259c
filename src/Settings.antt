-- ===== src/Settings.antt =====
-- src-tauri/src/proxy/limits.rs, and `RuntimeSettings` of src-tauri/src/proxy.rs: the settings read
-- from the saved JSON object. A JSON number is an integer that is not
-- negative, one that is, or something else.
pub mod Accepted
mod Examples
use proxy_load.Base.{
  ℕ, ◌≡◌, ◌↔◌, Bool, true, false, not, ◌&&◌, ◌||◌, Option, none, some, List, [], ◌∷◌, if◌then◌else◌,
  leb, ltb, nat_beq, String, str_eq, str_eq_iff, i64_max, PartialEq,
}
use proxy_load.Base.Map.{Map, get}
use proxy_load.Breaker.{CircuitConfig}
use proxy_load.Quality.{Mode, off, observe, adaptive}
use proxy_load.Runtime.{RuntimeSettings, FailFastConfig, InboundAuth}

pub data Value : Type 0 where
  null negative_integer other_number compound : Value
  boolean : Bool → Value
  integer : ℕ → Value
  text : String → Value

instance abbrev pub text_eq : PartialEq String
text_eq = record { same = str_eq; same_iff = str_eq_iff }

abbrev pub Config : Type 0
Config = Map String Value

pub data Fault : Type 0 where
  not_boolean not_text not_integer out_of_range : String → Fault
  empty_credentials total_below_attempt limits_out_of_order : Fault
  unknown_mode unknown_algorithm : String → Fault

pub data Read (A : Type 0) : Type 0 where
  ok : A → Read A
  err : Fault → Read A

-- `?`.
unfoldable pub bind : {A B : Type 0} → Read A → (A → Read B) → Read B
bind (ok a) f = f a
bind (err e) f = err e

as_boolean : String → Option Value → Read Bool
as_boolean key (some (boolean b)) = ok b
as_boolean key _ = err (not_boolean key)

as_text : String → Option Value → Read String
as_text key (some (text s)) = ok s
as_text key _ = err (not_text key)

-- `as_i64`, and that the value is positive.
as_positive : String → Option Value → Read ℕ
as_positive key (some (integer n)) =
    if not (leb n i64_max)
    then err (not_integer key)
    else if nat_beq n 0
    then err (out_of_range key)
    else ok n
as_positive key (some negative_integer) = err (out_of_range key)
as_positive key _ = err (not_integer key)

-- `positive_i64_setting`.
unfoldable pub positive_i64_setting : Config → String → Read ℕ
unfolding as_positive
positive_i64_setting config key = as_positive key (get key config)

within : String → ℕ → ℕ → Read ℕ
within key maximum n = if nat_beq n 0 || ltb maximum n then err (out_of_range key) else ok n

read_at : String → ℕ → ℕ → Option Value → Read ℕ
unfolding within
read_at key default maximum none = within key maximum default
read_at key default maximum (some (integer n)) = within key maximum n
read_at key default maximum (some _) = err (not_integer key)

-- `read` of `ConcurrencyLimits::from_advanced`.
read : Config → String → ℕ → ℕ → Read ℕ
unfolding read_at
read config key default maximum = read_at key default maximum (get key config)

pub record ConcurrencyLimits : Type 0 where
  pub max_connections : ℕ
  pub max_handshakes : ℕ
  pub max_global_dials : ℕ
  pub max_proxy_dials : ℕ

check_limits : ConcurrencyLimits → Read ConcurrencyLimits
check_limits l =
    if ltb l.max_global_dials l.max_proxy_dials
      || (ltb l.max_connections l.max_global_dials || ltb l.max_connections l.max_handshakes)
    then err limits_out_of_order
    else ok l

-- `ConcurrencyLimits::from_advanced`.
unfoldable pub limits_from_advanced : Config → Read ConcurrencyLimits
unfolding read check_limits
limits_from_advanced config = bind (read config "max_connections" 1024 16384) λ connections.
    bind (read config "max_handshakes" 128 4096) λ handshakes.
      bind (read config "max_global_dials" 64 2048) λ global_dials.
        bind (read config "max_proxy_dials" 32 512) λ proxy_dials. check_limits (record {
          max_connections = connections;
          max_handshakes = handshakes;
          max_global_dials = global_dials;
          max_proxy_dials = proxy_dials;
        })

mode_of : Option Value → Read Mode
mode_of none = ok off
mode_of (some (text s)) =
    if str_eq s "off"
    then ok off
    else if str_eq s "observe"
    then ok observe
    else if str_eq s "adaptive"
    then ok adaptive
    else err (unknown_mode s)
mode_of (some _) = err (not_text "target_quality_mode")

-- `Mode::from_advanced`.
mode_from_advanced : Config → Read Mode
unfolding mode_of
mode_from_advanced config = mode_of (get "target_quality_mode" config)

read_auth : Config → Read InboundAuth
unfolding as_boolean as_text
read_auth config =
    bind (as_boolean "inbound_auth_enabled" (get "inbound_auth_enabled" config)) λ enabled.
      bind (as_text "inbound_auth_username" (get "inbound_auth_username" config)) λ username.
        bind (as_text "inbound_auth_password" (get "inbound_auth_password" config)) λ password.
          if enabled && (str_eq username "" || str_eq password "")
          then err empty_credentials
          else ok (record { enabled = enabled; username = username; password = password })

read_circuit : Config → Read CircuitConfig
read_circuit config = bind (positive_i64_setting config "circuit_failure_threshold") λ threshold.
    bind (positive_i64_setting config "circuit_timeout")
      λ timeout. ok (record { failure_threshold = threshold; timeout_ms = timeout })

read_fail_fast : Config → Read FailFastConfig
unfolding as_boolean
read_fail_fast config =
    bind (positive_i64_setting config "failfast_attempt_timeout") λ attempt_timeout.
      bind (positive_i64_setting config "failfast_total_timeout") λ total_timeout.
        if ltb total_timeout attempt_timeout
        then err total_below_attempt
        else (bind (as_boolean "failfast_enabled" (get "failfast_enabled" config)) λ enabled.
            bind (positive_i64_setting config "failfast_max_attempts") λ max_attempts. ok (record {
              enabled = enabled;
              max_attempts = max_attempts;
              attempt_timeout_ms = attempt_timeout;
              total_timeout_ms = total_timeout;
            }))

-- `RuntimeSettings::from_advanced`.
unfoldable pub from_advanced : Config → Read RuntimeSettings
unfolding read_auth read_circuit read_fail_fast mode_from_advanced
from_advanced config = bind (read_auth config) λ auth. bind (read_circuit config) λ circuit.
    bind (read_fail_fast config) λ fail_fast. bind (mode_from_advanced config) λ mode. ok (record {
      inbound_auth = auth;
      circuit = circuit;
      fail_fast = fail_fast;
      algorithm = "adaptive";
      target_quality_mode = mode;
    })

-- `set_algorithm`.
unfoldable pub set_algorithm : String → RuntimeSettings → Read RuntimeSettings
set_algorithm algorithm settings =
    if str_eq algorithm "adaptive"
      || (str_eq algorithm "round_robin"
          || (str_eq algorithm "least_connections" || str_eq algorithm "sticky_host"))
    then ok (record settings { algorithm = algorithm })
    else if str_eq algorithm "weighted_round_robin"
    then ok (record settings { algorithm = "round_robin" })
    else err (unknown_algorithm algorithm)
