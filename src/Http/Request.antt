-- ===== src/Http/Request.antt =====
-- src-tauri/src/proxy.rs: what a client's HTTP request asks for, and whether it may. The decoder of
-- Base64 and `url::Url::parse` are parameters.
pub mod Laid
pub mod Connect
pub mod Handled
use proxy_load.Base.{
  ℕ, Bool, true, false, not, ◌&&◌, ◌||◌, Option, none, some, List, [], ◌∷◌, ◌++◌, if◌then◌else◌,
  nat_beq, nat_eq, list_beq, is_some, is_empty, unwrap_or, any, get_elem?,
}
use proxy_load.Models.{Bytes}
use proxy_load.Host.{trim}
use proxy_load.Candidate.{TargetRequest, InboundProtocol, http_connect, http_forward}
use proxy_load.Runtime.{InboundAuth}
use proxy_load.Text.{as_bytes, split_once, split_whitespace, eq_ignore_ascii_case}
use proxy_load.Text.Lines.{join_crlf, starts_with, lines, split_crlf, to_uppercase}
use proxy_load.Wire.Compare.{constant_time_eq}
use proxy_load.Wire.Address.{address_type, parse_authority, format_authority}
use proxy_load.Http.Header.{
  blank_line, HeaderRead, read_http_request_header, is_named, rewrite_http_forward_header,
}

-- What the code asks a parsed URL for.
pub record Url : Type 0 where
  pub scheme : Bytes
  pub host_str : Option Bytes
  pub port_or_known_default : Option ℕ
  pub path : Bytes
  pub query : Option Bytes

expected : InboundAuth → Bytes
unfolding as_bytes
expected auth = as_bytes auth.username ++ (b':' ∷ as_bytes auth.password)

decodes_to : Option Bytes → Bytes → Bool
decodes_to none text = false
decodes_to (some decoded) text = constant_time_eq decoded text

-- Where a request goes: the host, the port and the path.
pub record Goal : Type 0 where
  pub host : Bytes
  pub port : ℕ
  pub path : Bytes

goal : Bytes → ℕ → Bytes → Goal
goal host port path = record { host = host; port = port; path = path }

targeted : Bytes → ℕ → InboundProtocol → Bytes → Option ℕ → Option TargetRequest
targeted host port inbound payload none = none
targeted host port inbound payload (some kind) = some (record {
  host = host;
  port = port;
  address_type = kind;
  original_host = host;
  inbound = inbound;
  initial_payload = payload;
})

connect_to : Option (Bytes × ℕ) → Bytes → Option TargetRequest
unfolding targeted
connect_to none payload = none
connect_to (some (host, port)) payload = targeted host port http_connect payload (address_type host)

-- The host header, if there is one; two of them are refused.
pub data HostHeader : Type 0 where
  absent duplicate : HostHeader
  given : Bytes → HostHeader

another : HostHeader → Bytes → HostHeader
another absent value = given value
another _ value = duplicate

after_colon : Bytes → Bytes
after_colon line = elim (split_once b':' line) [ none ↦ [] | some parts ↦ parts.1 ]

host_header : List Bytes → HostHeader → HostHeader
unfolding as_bytes another after_colon
host_header [] found = found
host_header (l ∷ ls) found =
    host_header ls
      (if is_named (as_bytes "host") l then another found (trim (after_colon l)) else found)

origin_goal : Bytes → Option (Bytes × ℕ) → Option Goal
unfolding goal
origin_goal path none = none
origin_goal path (some (host, port)) = some (goal host port path)

url_path : Url → Bytes
url_path u =
    (if is_empty u.path then b'/' ∷ [] else u.path)
    ++ elim u.query [ none ↦ [] | some query ↦ b'?' ∷ query ]

url_goal : Option Url → Option Goal
unfolding as_bytes goal url_path
url_goal none = none
url_goal (some u) = if not (list_beq u.scheme (as_bytes "http")) then none else elim u.host_str [
  | none ↦ none
  | some host ↦ some (goal host (unwrap_or u.port_or_known_default 80) (url_path u))
]

-- `send_http_auth_required`.
unfoldable pub auth_required : Bytes
unfolding as_bytes
auth_required =
    join_crlf (as_bytes "HTTP/1.1 407 Proxy Authentication Required") (
      as_bytes "Proxy-Authenticate: Basic realm=\"proxy-load\""
      ∷ as_bytes "Connection: close"
      ∷ as_bytes "Content-Length: 0"
      ∷ [])
    ++ blank_line

module _ (decode : Bytes → Option Bytes) (parse_url : Bytes → Option Url) where
  -- The scheme and the credentials of one header line.
  credentials_match : List Bytes → Bytes → Bool
  unfolding as_bytes decodes_to
  credentials_match (scheme ∷ encoded ∷ []) text =
      eq_ignore_ascii_case scheme (as_bytes "basic") && decodes_to (decode encoded) text
  credentials_match _ text = false

  unfoldable pub line_authorizes : Bytes → Bytes → Bool
  unfolding as_bytes credentials_match
  line_authorizes text line = elim (split_once b':' line) [
    | none ↦ false
    | some parts ↦
        eq_ignore_ascii_case parts.0 (as_bytes "proxy-authorization")
        && credentials_match (split_whitespace parts.1) text
  ]

  -- `http_proxy_authorized`.
  unfoldable pub http_proxy_authorized : Bytes → InboundAuth → Bool
  unfolding expected line_authorizes
  http_proxy_authorized header auth =
      not auth.enabled || any (line_authorizes (expected auth)) (lines header)

  goal_of : Bytes → HostHeader → Option Goal
  unfolding origin_goal url_goal
  goal_of target duplicate = none
  goal_of target absent =
      if list_beq target (b'*' ∷ []) || starts_with (b'/' ∷ []) target
      then none
      else url_goal (parse_url target)
  goal_of target (given host) =
      if list_beq target (b'*' ∷ []) || starts_with (b'/' ∷ []) target
      then origin_goal target (parse_authority host 80)
      else url_goal (parse_url target)

  forward_to : Bytes → Bytes → Bytes → Option Goal → Option TargetRequest
  unfolding targeted
  forward_to header method prefetched none = none
  forward_to header method prefetched (some g) =
      if nat_beq g.port 0
      then none
      else targeted g.host g.port http_forward
          (rewrite_http_forward_header header method g.path (format_authority g.host g.port 80)
            ++ prefetched)
          (address_type g.host)

  by_method : Bytes → Bytes → List Bytes → List Bytes → Option TargetRequest
  unfolding as_bytes connect_to forward_to host_header goal_of
  by_method header prefetched (method ∷ target ∷ version ∷ []) ls =
      if list_beq (to_uppercase method) (as_bytes "CONNECT")
      then connect_to (parse_authority target 443) prefetched
      else forward_to header (to_uppercase method) prefetched
          (goal_of target (host_header ls absent))
  by_method header prefetched _ ls = none

  -- `parse_http_proxy_request`.
  unfoldable pub parse_http_proxy_request : Bytes → Bytes → Option TargetRequest
  unfolding by_method
  parse_http_proxy_request header prefetched =
      by_method header prefetched (split_whitespace (split_crlf header).0) (split_crlf header).1

  -- What the client is told, and the request if it may make one.
  unfoldable pub answer_request : InboundAuth → Bytes → Bytes → Bytes × Option TargetRequest
  unfolding auth_required
  answer_request auth header prefetched =
      if http_proxy_authorized header auth
      then ([], parse_http_proxy_request header prefetched)
      else (auth_required, none)

  after_read : InboundAuth → Option HeaderRead → Bytes × Option TargetRequest
  unfolding answer_request
  after_read auth none = ([], none)
  after_read auth (some read) = answer_request auth read.header read.remainder

  -- `handle_http_proxy_header`.
  unfoldable pub handle_http_proxy_header :
      InboundAuth → List ℕ → Bytes → Bytes → Bytes × Option TargetRequest
  unfolding after_read
  handle_http_proxy_header auth reads initial incoming =
      after_read auth (read_http_request_header reads initial incoming)
