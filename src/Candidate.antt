-- ===== src/Candidate.antt =====
-- src-tauri/src/proxy.rs: what is asked for, `TargetRequest`, and whom to ask, `Candidate`.
use proxy_load.Base.{
  ℕ, ◌≡◌, ◌↔◌, Bool, true, ◌&&◌, Option, some, List, ◌++◌, arith, if◌then◌else◌, keep, not, str_eq,
  nat_beq, list_beq, list_beq_iff, nat_eq, PartialEq, is_some_and,
}
use proxy_load.Models.{Bytes, ProxyRecord}
use proxy_load.Host.{normalize_host}

pub data InboundProtocol : Type 0 where
  socks5 http_connect http_forward : InboundProtocol

pub record TargetRequest : Type 0 where
  pub host : Bytes
  pub port : ℕ
  pub address_type : ℕ
  pub original_host : Bytes
  pub inbound : InboundProtocol
  pub initial_payload : Bytes

pub record TargetRouteKey : Type 0 where
  pub proxy_id : ℕ
  pub original_host : Bytes
  pub resolved_host : Bytes
  pub port : ℕ

-- `TargetRouteKey::new`.
unfoldable pub route_key : (Bytes → Option Bytes) → ℕ → TargetRequest → TargetRouteKey
route_key parse_host proxy_id request = record {
  proxy_id = proxy_id;
  original_host = normalize_host parse_host request.original_host;
  resolved_host = normalize_host parse_host request.host;
  port = request.port;
}

abbrev pub key_beq : TargetRouteKey → TargetRouteKey → Bool
key_beq a b =
    nat_beq a.proxy_id b.proxy_id
    && (list_beq a.original_host b.original_host
        && (list_beq a.resolved_host b.resolved_host && nat_beq a.port b.port))

pub key_beq_iff : (a b : TargetRouteKey) → (key_beq a b ≡ true) ↔ (a ≡ b)
key_beq_iff a b = ground (
  arith,
  list_beq_iff a.original_host b.original_host,
  list_beq_iff a.resolved_host b.resolved_host,
)

instance abbrev pub route_key_eq : PartialEq TargetRouteKey
route_key_eq = record { same = key_beq; same_iff = key_beq_iff }

pub record Candidate : Type 0 where
  pub config : ProxyRecord
  pub inactive : Bool

-- `Candidate::into_record`.
unfoldable pub into_record : Candidate → ProxyRecord
into_record c = record (c.config) {
  status =
      if c.inactive
      then some "inactive"
      else if is_some_and c.config.status (λ s. str_eq s "inactive")
      then some "active"
      else c.config.status;
}

-- The candidates that are not inactive first, in order, then the others.
unfoldable pub prefer_candidates : List Candidate → List Candidate
prefer_candidates cs = keep (λ c. not c.inactive) cs ++ keep (λ c. c.inactive) cs
