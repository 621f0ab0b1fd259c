-- ===== src/Samples.antt =====
-- Concrete proxies, requests and states, at which the theorems are tried. Natural numbers stand in
-- for the floating-point numbers, and every host name is taken as it is written.
use proxy_load.Base.{ℕ, ◌+◌, ◌-◌, ◌*◌, Bool, true, false, Option, none, [], ◌∷◌, leb, ltb, max, min}
use proxy_load.Base.Float.{Float}
use proxy_load.Models.{RoutingPool, Bytes, ProxyRecord, HealthPolicy, transport_only}
use proxy_load.Routing.Snapshot.{default, new}
use proxy_load.Candidate.{TargetRequest, InboundProtocol}
use proxy_load.Breaker.{State, CircuitBreaker}
use proxy_load.Quality.{adaptive}
use proxy_load.Runtime.{Runtime, RuntimeSettings, Lease}

abbrev pub numbers : Float
numbers = record {
  F = ℕ;
  of_ℕ = λ n. n;
  literal = λ n k. n;
  add = λ a b. a + b;
  sub = λ a b. a - b;
  mul = λ a b. a * b;
  div = λ a b. a;
  clamp = λ a low high. min (max a low) high;
  min = λ a b. min a b;
  halving = λ a b. 1;
  ge = λ a b. leb b a;
  total_lt = λ a b. ltb a b;
}

abbrev pub unparsed : Bytes → Option Bytes
unparsed host = none

abbrev pub spread : ℕ → Bytes → ℕ → ℕ
spread pool host id = id

abbrev pub always_ready : ProxyRecord → Option ℕ → Bool
always_ready p generation = true

abbrev pub policy : HealthPolicy
policy = record {
  mode = transport_only;
  failure_threshold = 2;
  recovery_threshold = 2;
  expected_statuses = 200 ∷ 204 ∷ [];
  max_age_seconds = 600;
}

abbrev pub node : ℕ → ProxyRecord
node id = record {
  id = id;
  name = [];
  proxy_type = "socks5";
  host = 49 ∷ [];
  port = 1080;
  username = none;
  password = none;
  status = none;
  response_time = none;
  success_count = 0;
  fail_count = 0;
  priority = 0;
  enabled = 1;
  skip_cert_verify = 0;
  test_url = none;
  test_timeout = none;
  health_policy = policy;
}

abbrev pub breaker : State → Option ℕ → CircuitBreaker
breaker state attempt = record {
  state = state;
  failures = 3;
  threshold = 3;
  timeout_ms = 1000;
  next_attempt = 5000;
  attempt = attempt;
}

abbrev pub request : TargetRequest
request = record {
  host = 97 ∷ [];
  port = 443;
  address_type = 3;
  original_host = 97 ∷ [];
  inbound = InboundProtocol.socks5;
  initial_payload = [];
}

abbrev pub settings : RuntimeSettings
settings = record {
  inbound_auth = record { enabled = false; username = ""; password = "" };
  circuit = record { failure_threshold = 3; timeout_ms = 1000 };
  fail_fast = record {
    enabled = true;
    max_attempts = 3;
    attempt_timeout_ms = 1000;
    total_timeout_ms = 3000;
  };
  algorithm = "adaptive";
  target_quality_mode = adaptive;
}

abbrev pub pool_of_both : RoutingPool
pool_of_both = record {
  id = 8;
  name = [];
  is_default = true;
  members = 1 ∷ 2 ∷ [];
  rules = [];
  algorithm_override = none;
  sticky_failover_seconds = 0;
  revision = 1;
}

-- Two proxies in the default pool; the breaker of the first is as given, and token 5 is that of a live lease.
abbrev pub runtime : CircuitBreaker → Runtime ℕ
runtime b = record {
  snapshot = new 1 (node 1 ∷ node 2 ∷ []) ((1, 1) ∷ (2, 1) ∷ []) (pool_of_both ∷ []) default;
  settings = settings;
  metrics = [];
  breakers = (1, b) ∷ [];
  targets = [];
  quality = record { entries = []; expiry = []; sequence = 0 };
  active = [];
  dial_slots = [];
  max_proxy_dials = 32;
  global_dials = 64;
  round_robin = [];
  adaptive_sequence = [];
  sticky = [];
  live = 5 ∷ [];
  next_token = 6;
  pushes = [];
}

abbrev pub lease : Lease
lease = record {
  proxy = node 1;
  generation = 1;
  attempt = 4;
  dialing = false;
  failover_policy = none;
}
