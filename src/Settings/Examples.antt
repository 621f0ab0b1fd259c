-- ===== src/Settings/Examples.antt =====
-- Settings read from concrete saved objects.
use proxy_load.Base.{true, false, [], ◌∷◌}
use proxy_load.Settings.{Config, integer, boolean, text, limits_from_advanced, from_advanced}
use proxy_load.Settings.Accepted.{
  Accepts, IsOrdered, IsSound, limits_from_advanced-Accepts, from_advanced-Accepts,
}

abbrev saved : Config
saved =
    ("inbound_auth_enabled", boolean false)
    ∷ ("inbound_auth_username", text "")
    ∷ ("inbound_auth_password", text "")
    ∷ ("circuit_failure_threshold", integer 3)
    ∷ ("circuit_timeout", integer 1000)
    ∷ ("failfast_attempt_timeout", integer 1000)
    ∷ ("failfast_total_timeout", integer 3000)
    ∷ ("failfast_enabled", boolean true)
    ∷ ("failfast_max_attempts", integer 3)
    ∷ ("max_connections", integer 512)
    ∷ []

limits_from_advanced-Accepts_example : Accepts IsOrdered (limits_from_advanced saved)
limits_from_advanced-Accepts_example = limits_from_advanced-Accepts saved

from_advanced-Accepts_example : Accepts IsSound (from_advanced saved)
from_advanced-Accepts_example = from_advanced-Accepts saved
