-- ===== src/Http/Request/Handled.antt =====
-- src-tauri/src/proxy.rs: the request for a tunnel that the program sends to an HTTP proxy, from the
-- first byte that the inbound side reads of it.
use proxy_load.Base.{
  is_some_and, unwrap_or, not, subst, ap, ◌∙◌, none, List, ◌≤◌, ◌<◌, inl, inr, Bool-cases, ℕ, ◌+◌,
  length, is_empty, drop, ◌≡◌, refl, sym, true, false, Option, some, [], ◌∷◌, ◌++◌, arith, nat_beq,
  any,
}
use proxy_load.Models.{Bytes, ProxyRecord}
use proxy_load.Host.{is_space, unplain}
use proxy_load.Candidate.{TargetRequest}
use proxy_load.Runtime.{InboundAuth}
use proxy_load.Text.{as_bytes, contains, is_utf8}
use proxy_load.Text.Lines.{join_crlf, crlf, starts_with}
use proxy_load.Text.Words.{contains-append, spaceless}
use proxy_load.Wire.Address.{address_type}
use proxy_load.Wire.Address.Authority.{IsHost}
use proxy_load.Wire.Dial.Accepted.{HasCredentials}
use proxy_load.Http.Header.{
  split_http_header, blank_line, HeaderRead, max_request_header, read_http_request_header,
}
use proxy_load.Http.Header.Split.{IsHeader}
use proxy_load.Http.Header.Whole.{HasHeader, read_http_request_header-HasHeader}
use proxy_load.Http.Upstream.{connect_request, credentials_of, credentials_line}
use proxy_load.Http.Request.{Url, answer_request, after_read, handle_http_proxy_header}
use proxy_load.Http.Request.Laid.{tunnel, after, laid_out, authority, first_line, authority-plain}
use proxy_load.Http.Request.Connect.{IsInverse, http_proxies_interoperate}

-- A line before a header without its own end.
IsHeader-word : (a s : Bytes) → contains 13 a ≡ false → IsHeader s → IsHeader (a ++ s)
unfolding split_http_header starts_with contains
IsHeader-word [] s h e = e
IsHeader-word (c ∷ a) s h e =
    let other : nat_beq 13 c ≡ false = ground (arith, h) in
    rw (other, IsHeader-word a s (ground (arith, h)) e) refl

IsHeader-cons :
    (c : ℕ) (s : Bytes) → starts_with blank_line (c ∷ s) ≡ false → IsHeader s → IsHeader (c ∷ s)
unfolding split_http_header
IsHeader-cons c s h e = rw (h, e) refl

-- The end of a line that is not the last.
IsHeader-line :
    (c : ℕ) (t : Bytes) → nat_beq 13 c ≡ false → IsHeader (c ∷ t) → IsHeader (crlf ++ (c ∷ t))
unfolding starts_with
IsHeader-line c t h e = IsHeader-cons 13 (10 ∷ c ∷ t) (rw h refl) (IsHeader-cons 10 (c ∷ t) refl e)

IsHeader-blank : IsHeader blank_line
unfolding split_http_header starts_with
IsHeader-blank = refl

colon_full : (a b : Bytes) → is_empty (a ++ (b':' ∷ b)) ≡ false
colon_full [] b = refl
colon_full (c ∷ a) b = refl

credentials_of-full :
    (p : ProxyRecord) (text : Bytes) → credentials_of p ≡ some text → is_empty text ≡ false
unfolding credentials_of
credentials_of-full p text e =
    let full = colon_full (unwrap_or p.username []) (unwrap_or p.password []) in
    elim (Bool-cases (is_some_and p.username (λ u. not (is_empty u)))) [
      | inl given ↦ ground (arith, e, given, full)
      | inr none_given ↦ absurd (ground (arith, e, none_given))
    ]

module _ (decode : Bytes → Option Bytes) (parse_url : Bytes → Option Url)
    (encode : Bytes → Bytes) where
  -- The lines after the first.
  rest-IsHeader :
      (second : Bytes) (o : Option Bytes)
      → contains 13 second ≡ false
      → ((text : Bytes) → o ≡ some text → any unplain (encode text) ≡ false)
      → IsHeader (second ++ (crlf ++ after (credentials_line encode o)))
  unfolding credentials_line after as_bytes contains is_space unplain join_crlf
  rest-IsHeader second none h plain = IsHeader-word second blank_line h IsHeader-blank
  rest-IsHeader second (some text) h plain =
      let third = as_bytes "Proxy-Authorization: Basic " ++ encode text in
      let clean : contains 13 third ≡ false = ground (
        arith,
        contains-append 13 (as_bytes "Proxy-Authorization: Basic ") (encode text),
        spaceless 13 (encode text) refl (plain text refl),
      ) in
      let lines = IsHeader-word third blank_line clean IsHeader-blank in
      IsHeader-word second (crlf ++ (third ++ blank_line)) h
        (IsHeader-line b'P' (drop 1 (third ++ blank_line)) refl lines)

  request-IsHeader :
      (p : ProxyRecord) (request : TargetRequest)
      → IsHost request.host
      → ((text : Bytes) → credentials_of p ≡ some text → any unplain (encode text) ≡ false)
      → IsHeader (connect_request encode p request)
  unfolding connect_request first_line authority as_bytes contains is_space unplain
  request-IsHeader p request h plain =
      let clean = spaceless 13 (authority request) refl (authority-plain request h).0 in
      let second = as_bytes "Host: " ++ authority request in
      let two : contains 13 second ≡ false =
        ground (arith, contains-append 13 (as_bytes "Host: ") (authority request), clean) in
      let one : contains 13 (first_line request) ≡ false = ground (
        arith,
        contains-append 13 (as_bytes "CONNECT ") (authority request ++ as_bytes " HTTP/1.1"),
        contains-append 13 (authority request) (as_bytes " HTTP/1.1"),
        clean,
      ) in
      let rest = rest-IsHeader second (credentials_of p) two plain in
      let whole =
        IsHeader-word (first_line request)
          (crlf ++ (second ++ (crlf ++ after (credentials_line encode (credentials_of p))))) one
          (IsHeader-line b'H'
            (drop 1 (second ++ (crlf ++ after (credentials_line encode (credentials_of p))))) refl
            rest) in
      subst IsHeader
        (sym (laid_out (first_line request) second (credentials_line encode (credentials_of p))))
        whole

  -- What the handler gives for a request that may be made: its target, and what follows it in order.
  abbrev pub Serves : Bytes → ℕ → ℕ → Bytes → Bytes × Option TargetRequest → Type 0
  Serves host port kind rest result =
      (payload : Bytes) × (left : Bytes) × (payload ++ left ≡ rest)
      × (result ≡ ([], some (tunnel host port kind payload)))

  after_read-Serves :
      (auth : InboundAuth) (p : ProxyRecord) (request : TargetRequest) (kind : ℕ) (rest : Bytes)
      (o : Option HeaderRead)
      → IsInverse encode decode
      → HasCredentials auth.enabled auth p
      → IsHost request.host
      → 0 < request.port
      → request.port ≤ 65535
      → address_type request.host ≡ some kind
      → HasHeader (connect_request encode p request) rest o
      → Serves request.host request.port kind rest (after_read decode parse_url auth o)
  unfolding after_read
  after_read-Serves auth p request kind rest none inverse h host q b typed e =
      absurd (ground (arith, e))
  after_read-Serves auth p request kind rest (some read) inverse h host q b typed e = (
    read.remainder,
    read.incoming,
    e.1,
    ap (λ t. answer_request decode parse_url auth t read.remainder) e.0
        ∙ http_proxies_interoperate decode parse_url encode auth p request read.remainder kind
            inverse h host q b typed,
  )

  -- One proxy-load in front of another over HTTP: when the bytes that come are the request that the
  -- program sends to an HTTP proxy for a tunnel to a host in ASCII without white space and colons, in
  -- whatever pieces, and the credentials are those that are asked for, the inbound side lets it in, makes a request for the same host and port of it
  -- and loses nothing of what follows.
  pub tunnel_request_served :
      (auth : InboundAuth) (p : ProxyRecord) (request : TargetRequest) (kind : ℕ) (reads : List ℕ)
      (initial incoming rest : Bytes)
      → IsInverse encode decode
      → HasCredentials auth.enabled auth p
      → IsHost request.host
      → 0 < request.port
      → request.port ≤ 65535
      → address_type request.host ≡ some kind
      → is_utf8 (connect_request encode p request) ≡ true
      → length (connect_request encode p request) ≤ max_request_header
      → initial ++ incoming ≡ connect_request encode p request ++ rest
      → length (connect_request encode p request) ≤ length initial + length reads
      → Serves request.host request.port kind rest
          (handle_http_proxy_header decode parse_url auth reads initial incoming)
  unfolding handle_http_proxy_header
  tunnel_request_served auth p request kind reads initial incoming rest inverse h host q b typed
        valid small e enough =
      let header =
        request-IsHeader p request host
          λ text given. (inverse text (credentials_of-full p text given)).2 in
      after_read-Serves auth p request kind rest (read_http_request_header reads initial incoming)
        inverse h host q b typed
        (read_http_request_header-HasHeader reads initial incoming
          (connect_request encode p request) rest header valid small e enough)
