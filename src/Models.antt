-- ===== src/Models.antt =====
-- src-tauri/src/models.rs and the data of src-tauri/src/routing.rs: proxies and routing pools.
-- Host names, rules and other free text are lists of bytes; words that the code compares with
-- literals (an algorithm, a status, a proxy type) are native strings.
use Prim.Native.String.{String}
use proxy_load.Base.{ℕ, Bool, List, Option}

abbrev pub Bytes : Type 0
Bytes = List ℕ

-- `HealthMode` and `HealthPolicy` of probe_health.rs.
pub data HealthMode : Type 0 where
  transport_only required_probe : HealthMode

pub record HealthPolicy : Type 0 where
  pub mode : HealthMode
  pub failure_threshold : ℕ
  pub recovery_threshold : ℕ
  pub expected_statuses : List ℕ
  pub max_age_seconds : ℕ

-- `ProxyRecord` without the fields that only the interface shows.
pub record ProxyRecord : Type 0 where
  pub id : ℕ
  pub name : Bytes
  pub proxy_type : String
  pub host : Bytes
  pub port : ℕ
  pub username : Option Bytes
  pub password : Option Bytes
  pub status : Option String
  pub response_time : Option ℕ
  pub success_count : ℕ
  pub fail_count : ℕ
  pub priority : ℕ
  pub enabled : ℕ
  pub skip_cert_verify : ℕ
  pub test_url : Option Bytes
  pub test_timeout : Option ℕ
  pub health_policy : HealthPolicy

-- `RoutingPool`; the set `members` is its list of identifiers in increasing order.
pub record RoutingPool : Type 0 where
  pub id : ℕ
  pub name : Bytes
  pub is_default : Bool
  pub members : List ℕ
  pub rules : List Bytes
  pub algorithm_override : Option String
  pub sticky_failover_seconds : ℕ
  pub revision : ℕ
