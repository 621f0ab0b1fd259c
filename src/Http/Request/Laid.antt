-- ===== src/Http/Request/Laid.antt =====
-- src-tauri/src/proxy.rs: how the request for a tunnel that the program sends to an HTTP proxy is
-- laid out, and what it asks for.
use proxy_load.Base.{
  ℕ, ◌≤◌, ◌<◌, ◌≡◌, refl, ap, ◌∙◌, false, Option, some, List, [], ◌∷◌, ◌++◌, arith, any, is_empty,
}
use proxy_load.Models.{Bytes}
use proxy_load.Host.{is_space, unplain}
use proxy_load.Candidate.{TargetRequest, http_connect}
use proxy_load.Text.{as_bytes, contains, decimal, split_whitespace}
use proxy_load.Text.Lines.{crlf, split_crlf, join_crlf, to_uppercase}
use proxy_load.Text.Numbers.{parse_u16-decimal, decimal-Digits}
use proxy_load.Text.Words.{
  contains-append, spaceless, split_crlf-first, split_whitespace-last, split_whitespace-word,
}
use proxy_load.Wire.Address.{address_type}
use proxy_load.Wire.Address.Authority.{IsHost, with_port, Digits-plain, any-append, is_empty-append}
use proxy_load.Wire.Exact.{append_assoc}
use proxy_load.Http.Header.{blank_line}
use proxy_load.Http.Request.{Url, parse_http_proxy_request, by_method, connect_to, targeted}

-- The request that results.
abbrev pub tunnel : Bytes → ℕ → ℕ → Bytes → TargetRequest
tunnel host port kind rest = record {
  host = host;
  port = port;
  address_type = kind;
  original_host = host;
  inbound = http_connect;
  initial_payload = rest;
}

-- The lines after the first two.
unfoldable pub after : List Bytes → Bytes
after [] = crlf
after (l ∷ ls) = join_crlf l ls ++ blank_line

pub laid_out :
    (first second : Bytes) (ls : List Bytes)
    → join_crlf first (second ∷ ls) ++ blank_line
      ≡ first ++ (crlf ++ (second ++ (crlf ++ after ls)))
unfolding join_crlf after
laid_out first second [] =
    append_assoc first (crlf ++ second) blank_line
    ∙ ap (λ t. first ++ t) (append_assoc crlf second blank_line)
laid_out first second (l ∷ ls) =
    append_assoc first (crlf ++ (second ++ (crlf ++ join_crlf l ls))) blank_line
    ∙ ap (λ t. first ++ (crlf ++ t))
        (append_assoc second (crlf ++ join_crlf l ls) blank_line
          ∙ ap (λ t. second ++ t) (append_assoc crlf (join_crlf l ls) blank_line))

unfoldable pub authority : TargetRequest → Bytes
authority request = request.host ++ (b':' ∷ decimal request.port)

unfoldable pub first_line : TargetRequest → Bytes
first_line request = as_bytes "CONNECT " ++ (authority request ++ as_bytes " HTTP/1.1")

pub authority-plain :
    (request : TargetRequest)
    → IsHost request.host
    → (any unplain (authority request) ≡ false) × (is_empty (authority request) ≡ false)
unfolding authority is_space unplain
authority-plain request h =
    let digits = Digits-plain (decimal request.port) (decimal-Digits request.port) in
    (
      any-append unplain request.host (b':' ∷ decimal request.port) h.1 digits.0,
      is_empty-append request.host (b':' ∷ decimal request.port) h.0,
    )

pub asks :
    (request : TargetRequest) (rest header : Bytes)
    → IsHost request.host
    → 0 < request.port
    → request.port ≤ 65535
    → header ≡ first_line request ++ (crlf ++ rest)
    → split_whitespace (split_crlf header).0
      ≡ as_bytes "CONNECT" ∷ authority request ∷ as_bytes "HTTP/1.1" ∷ []
unfolding first_line split_crlf as_bytes contains is_space unplain
asks request rest header h p q e =
    let plain = authority-plain request h in
    let whole : contains 13 (first_line request) ≡ false = ground (
      arith,
      contains-append 13 (as_bytes "CONNECT ") (authority request ++ as_bytes " HTTP/1.1"),
      contains-append 13 (authority request) (as_bytes " HTTP/1.1"),
      spaceless 13 (authority request) refl plain.0,
    ) in
    ap (λ t. split_whitespace (split_crlf t).0) e
    ∙ ap split_whitespace (split_crlf-first (first_line request) rest whole)
    ∙ split_whitespace-word (as_bytes "CONNECT") (authority request ++ as_bytes " HTTP/1.1") refl
        refl
    ∙ ap (λ ws. as_bytes "CONNECT" ∷ ws)
        (split_whitespace-word (authority request) (as_bytes "HTTP/1.1") plain.1 plain.0)
    ∙ ap (λ ws. as_bytes "CONNECT" ∷ authority request ∷ ws)
        (split_whitespace-last (as_bytes "HTTP/1.1") refl refl)

module _ (decode : Bytes → Option Bytes) (parse_url : Bytes → Option Url) where
  pub parsed :
      (request : TargetRequest) (rest header payload : Bytes) (kind : ℕ)
      → IsHost request.host
      → 0 < request.port
      → request.port ≤ 65535
      → address_type request.host ≡ some kind
      → header ≡ first_line request ++ (crlf ++ rest)
      → parse_http_proxy_request decode parse_url header payload
        ≡ some (tunnel request.host request.port kind payload)
  unfolding parse_http_proxy_request by_method connect_to targeted authority as_bytes to_uppercase
  parsed request rest header payload kind h p q typed e =
      let digits = Digits-plain (decimal request.port) (decimal-Digits request.port) in
      let port =
        with_port request.host (decimal request.port) request.port 443 h p digits.0 digits.1
          (parse_u16-decimal request.port q) in
      rw (asks request rest header h p q e, port, typed) refl
