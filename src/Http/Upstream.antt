-- ===== src/Http/Upstream.antt =====
-- src-tauri/src/proxy.rs: HTTP requests to a proxy. The encoder of Base64 is a parameter.
use proxy_load.Base.{
  ℕ, Bool, false, not, ◌&&◌, ◌||◌, Option, none, some, List, [], ◌∷◌, ◌++◌, if◌then◌else◌, leb,
  nat_eq, list_beq, is_some_and, is_empty, unwrap_or, keep,
}
use proxy_load.Models.{Bytes, ProxyRecord}
use proxy_load.Candidate.{TargetRequest, InboundProtocol, http_forward}
use proxy_load.Runtime.{FailureScope, proxy, target}
use proxy_load.Text.{as_bytes, is_utf8, decimal, parse_u16, split_whitespace}
use proxy_load.Text.Lines.{lines, split_crlf, join_crlf, trim_end_matches}
use proxy_load.Wire.Address.{format_authority}
use proxy_load.Http.Header.{
  blank_line, split_http_header, read_http_request_header, HeaderRead, is_named, http_is_upgrade,
}

unfoldable pub credentials_of : ProxyRecord → Option Bytes
credentials_of p =
    if is_some_and p.username (λ u. not (is_empty u))
    then some (unwrap_or p.username [] ++ (b':' ∷ unwrap_or p.password []))
    else none

-- The lines of a request that are not passed on to a proxy.
is_for_proxy : Bytes → Bool
unfolding as_bytes
is_for_proxy line =
    is_named (as_bytes "proxy-connection") line || is_named (as_bytes "proxy-authorization") line

-- How an attempt through a proxy ends: with a tunnel and the bytes that have been read from it, with
-- a request to pass on, or with whom to blame.
pub data HttpDial : Type 0 where
  tunnelled forwarding : Bytes → HttpDial
  refused : FailureScope → HttpDial

status_field : List Bytes → Option ℕ
status_field (version ∷ code ∷ fields) = parse_u16 code
status_field _ = none

is_response : List Bytes → Bool
unfolding as_bytes
is_response [] = false
is_response (version ∷ fields) =
    list_beq version (as_bytes "HTTP/1.0") || list_beq version (as_bytes "HTTP/1.1")

within : ℕ → ℕ → Option ℕ → Bool
within low high status = is_some_and status λ s. leb low s && leb s high

first_line : List Bytes → Bytes
first_line [] = []
first_line (l ∷ ls) = l

-- The answer to a request for a tunnel.
unfoldable pub judge : List Bytes → Bytes → HttpDial
unfolding is_response status_field within
judge fields remainder =
    let status = status_field fields in
    if not (is_response fields && within 100 599 status)
    then refused proxy
    else if within 407 407 status
    then refused proxy
    else if within 200 299 status
    then tunnelled remainder
    else refused target

judge_read : Option HeaderRead → HttpDial
unfolding first_line
judge_read none = refused target
judge_read (some read) = judge (split_whitespace (first_line (lines read.header))) read.remainder

module _ (encode : Bytes → Bytes) where
  unfoldable pub credentials_line : Option Bytes → List Bytes
  unfolding as_bytes
  credentials_line none = []
  credentials_line (some text) = (as_bytes "Proxy-Authorization: Basic " ++ encode text) ∷ []

  -- The request for a tunnel.
  unfoldable pub connect_request : ProxyRecord → TargetRequest → Bytes
  unfolding as_bytes credentials_line credentials_of
  connect_request p request =
      let authority = request.host ++ (b':' ∷ decimal request.port) in
      join_crlf (as_bytes "CONNECT " ++ (authority ++ as_bytes " HTTP/1.1"))
        ((as_bytes "Host: " ++ authority) ∷ credentials_line (credentials_of p))
      ++ blank_line

  closing : Bool → List Bytes
  unfolding as_bytes
  closing upgrade = if upgrade then [] else as_bytes "Proxy-Connection: close" ∷ []

  absolute : TargetRequest → Bytes → Bytes
  unfolding as_bytes
  absolute request path =
      if list_beq path (b'*' ∷ [])
      then path
      else as_bytes "http://" ++ (format_authority request.host request.port 80 ++ path)

  payload_of : ProxyRecord → TargetRequest → Bytes → Bytes → List Bytes → List Bytes → Option Bytes
  unfolding as_bytes credentials_line credentials_of is_for_proxy closing absolute
  payload_of p request header body (method ∷ path ∷ version ∷ []) ls = some (
      join_crlf (method ++ (b' ' ∷ (absolute request path ++ (b' ' ∷ version)))) (
        keep (λ l. not (is_for_proxy l)) ls
        ++ (credentials_line (credentials_of p) ++ closing (http_is_upgrade header)))
      ++ (blank_line ++ body))
  payload_of p request header body _ ls = none

  payload_from : ProxyRecord → TargetRequest → Option (Bytes × Bytes) → Option Bytes
  unfolding payload_of
  payload_from p request none = none
  payload_from p request (some (header, body)) =
      let ls = split_crlf (trim_end_matches blank_line header) in
      if is_utf8 header then payload_of p request header body (split_whitespace ls.0) ls.1 else none

  -- `build_http_forward_proxy_payload`.
  unfoldable pub build_http_forward_proxy_payload : ProxyRecord → TargetRequest → Option Bytes
  unfolding payload_from
  build_http_forward_proxy_payload p request =
      payload_from p request (split_http_header request.initial_payload)

  forward_through : Option Bytes → HttpDial
  forward_through none = refused target
  forward_through (some payload) = forwarding payload

  through : ProxyRecord → TargetRequest → InboundProtocol → List ℕ → Bytes → HttpDial
  unfolding judge_read forward_through
  through p request http_forward reads incoming =
      forward_through (build_http_forward_proxy_payload p request)
  through p request _ reads incoming = judge_read (read_http_request_header reads [] incoming)

  -- `connect_http_proxy`: whether the proxy is reached, how much the reads get and what the proxy
  -- sends.
  unfoldable pub connect_http_proxy : ProxyRecord → TargetRequest → Bool → List ℕ → Bytes → HttpDial
  unfolding through
  connect_http_proxy p request reached reads incoming =
      if reached then through p request request.inbound reads incoming else refused proxy
