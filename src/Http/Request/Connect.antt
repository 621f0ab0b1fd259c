-- ===== src/Http/Request/Connect.antt =====
-- src-tauri/src/proxy.rs: the request for a tunnel that the program sends to an HTTP proxy, read by
-- its own inbound side.
use proxy_load.Base.{
  subst, length, inl, inr, Bool-cases, ℕ, ◌≤◌, ◌<◌, ◌≡◌, refl, ap, ◌∙◌, true, false, Option, some,
  [], ◌∷◌, ◌++◌, arith, any, is_empty,
}
use proxy_load.Models.{Bytes, ProxyRecord}
use proxy_load.Host.{is_space, unplain, to_ascii_lowercase, lower}
use proxy_load.Candidate.{TargetRequest}
use proxy_load.Runtime.{InboundAuth}
use proxy_load.Text.{as_bytes, contains, split_once, split_whitespace, eq_ignore_ascii_case}
use proxy_load.Text.Lines.{crlf, lines, join_crlf}
use proxy_load.Text.Words.{
  contains-append, spaceless, lines-first, split_whitespace-last, split_whitespace-word,
  split_whitespace-space,
}
use proxy_load.Wire.Address.{address_type}
use proxy_load.Wire.Address.Authority.{IsHost, is_empty-append}
use proxy_load.Wire.Compare.{constant_time_eq_self}
use proxy_load.Http.Header.{blank_line}
use proxy_load.Http.Upstream.{connect_request, credentials_of, credentials_line}
use proxy_load.Wire.Dial.Accepted.{HasCredentials}
use proxy_load.Http.Request.{
  answer_request, Url, expected, line_authorizes, credentials_match, decodes_to,
  http_proxy_authorized,
}
use proxy_load.Http.Request.Laid.{
  tunnel, after, laid_out, authority, first_line, authority-plain, parsed,
}

-- What the documentation of Base64 says of the encoder: what it gives is one word of ASCII, and the
-- decoder takes it back.
abbrev pub IsInverse : (Bytes → Bytes) → (Bytes → Option Bytes) → Type 0
IsInverse encode decode =
    (text : Bytes)
    → is_empty text ≡ false
    → (decode (encode text) ≡ some text)
      × (is_empty (encode text) ≡ false)
      × (any unplain (encode text) ≡ false)

nonempty_of : (s : Bytes) → 0 < length s → is_empty s ≡ false
nonempty_of [] h = absurd (omega arith)
nonempty_of (c ∷ s) h = refl

module _ (decode : Bytes → Option Bytes) (parse_url : Bytes → Option Url)
    (encode : Bytes → Bytes) where
  matches :
      (text code : Bytes)
      → decode code ≡ some text
      → credentials_match decode parse_url (as_bytes "Basic" ∷ code ∷ []) text ≡ true
  unfolding credentials_match decodes_to as_bytes eq_ignore_ascii_case to_ascii_lowercase lower
  matches text code e = rw (e, constant_time_eq_self text) refl

  -- The line with the credentials is accepted.
  accepts_line :
      (text : Bytes)
      → IsInverse encode decode
      → is_empty text ≡ false
      → line_authorizes decode parse_url text
          (as_bytes "Proxy-Authorization: Basic " ++ encode text)
        ≡ true
  unfolding line_authorizes as_bytes split_once eq_ignore_ascii_case to_ascii_lowercase lower
      is_space unplain
  accepts_line text inverse full =
      let code = encode text in
      let ok = inverse text full in
      let split : split_whitespace (b' ' ∷ (as_bytes "Basic" ++ (b' ' ∷ code)))
          ≡ as_bytes "Basic" ∷ code ∷ [] =
        split_whitespace-space (as_bytes "Basic" ++ (b' ' ∷ code))
        ∙ split_whitespace-word (as_bytes "Basic") code refl refl
        ∙ ap (λ ws. as_bytes "Basic" ∷ ws) (split_whitespace-last code ok.1 ok.2) in
      rw split (matches text code ok.0)

  -- The line with the credentials is the third.
  admits :
      (auth : InboundAuth) (request : TargetRequest) (rest header : Bytes)
      → IsInverse encode decode
      → IsHost request.host
      → is_empty (expected auth) ≡ false
      → header
        ≡ first_line request
          ++ (crlf
              ++ ((as_bytes "Host: " ++ authority request)
                  ++ (crlf
                      ++ ((as_bytes "Proxy-Authorization: Basic " ++ encode (expected auth))
                          ++ (crlf ++ rest)))))
      → http_proxy_authorized decode parse_url header auth ≡ true
  unfolding http_proxy_authorized first_line as_bytes contains is_space unplain
  admits auth request rest header inverse h full e =
      let plain = authority-plain request h in
      let code = encode (expected auth) in
      let ten = spaceless 10 (authority request) refl plain.0 in
      let third = as_bytes "Proxy-Authorization: Basic " ++ code in
      let second = as_bytes "Host: " ++ authority request in
      let one : contains 10 (first_line request) ≡ false = ground (
        arith,
        contains-append 10 (as_bytes "CONNECT ") (authority request ++ as_bytes " HTTP/1.1"),
        contains-append 10 (authority request) (as_bytes " HTTP/1.1"),
        ten,
      ) in
      let two : contains 10 second ≡ false =
        ground (arith, contains-append 10 (as_bytes "Host: ") (authority request), ten) in
      let three : contains 10 third ≡ false = ground (
        arith,
        contains-append 10 (as_bytes "Proxy-Authorization: Basic ") code,
        spaceless 10 code refl (inverse (expected auth) full).2,
      ) in
      let ls : lines header ≡ first_line request ∷ second ∷ third ∷ lines rest =
        ap lines e
        ∙ lines-first (first_line request) (second ++ (crlf ++ (third ++ (crlf ++ rest)))) one
        ∙ ap (λ t. first_line request ∷ t) (lines-first second (third ++ (crlf ++ rest)) two)
        ∙ ap (λ t. first_line request ∷ second ∷ t) (lines-first third rest three) in
      let found = accepts_line (expected auth) inverse full in rw (ls, found) (ground arith)

  credentials_of-expected :
      (auth : InboundAuth) (p : ProxyRecord)
      → HasCredentials true auth p
      → (credentials_of p ≡ some (expected auth)) × (is_empty (expected auth) ≡ false)
  unfolding credentials_of expected
  credentials_of-expected auth p h =
      let full = nonempty_of (as_bytes auth.username) h.2 in
      (
        rw (h.0, h.1, full) refl,
        is_empty-append (as_bytes auth.username) (b':' ∷ as_bytes auth.password) full,
      )

  allowed :
      (auth : InboundAuth) (p : ProxyRecord) (request : TargetRequest)
      → IsInverse encode decode
      → HasCredentials auth.enabled auth p
      → IsHost request.host
      → http_proxy_authorized decode parse_url (connect_request encode p request) auth ≡ true
  unfolding http_proxy_authorized connect_request credentials_line first_line authority after
      join_crlf
  allowed auth p request inverse h host = elim (Bool-cases auth.enabled) [
    | inl on ↦
        let creds = credentials_of-expected auth p (subst (λ b. HasCredentials b auth p) on h) in
        admits auth request crlf (connect_request encode p request) inverse host creds.1 (
          ap
            (λ c.
              join_crlf (first_line request)
                ((as_bytes "Host: " ++ authority request) ∷ credentials_line encode c)
              ++ blank_line)
            creds.0
          ∙ laid_out (first_line request) (as_bytes "Host: " ++ authority request)
              ((as_bytes "Proxy-Authorization: Basic " ++ encode (expected auth)) ∷ []))
    | inr off ↦ rw off refl
  ]

  -- One proxy-load in front of another over HTTP: the request for a tunnel that the program sends to
  -- an HTTP proxy is let in by the program's own inbound side if the credentials are those that are
  -- asked for there, and what it asks for is the same host and port; what follows it is the payload.
  pub http_proxies_interoperate :
      (auth : InboundAuth) (p : ProxyRecord) (request : TargetRequest) (payload : Bytes) (kind : ℕ)
      → IsInverse encode decode
      → HasCredentials auth.enabled auth p
      → IsHost request.host
      → 0 < request.port
      → request.port ≤ 65535
      → address_type request.host ≡ some kind
      → answer_request decode parse_url auth (connect_request encode p request) payload
        ≡ ([], some (tunnel request.host request.port kind payload))
  unfolding answer_request connect_request first_line authority
  http_proxies_interoperate auth p request payload kind inverse h host positive bound typed =
      let ls = credentials_line encode (credentials_of p) in
      let made =
        parsed decode parse_url request
          ((as_bytes "Host: " ++ authority request) ++ (crlf ++ after ls))
          (connect_request encode p request) payload kind host positive bound typed
          (laid_out (first_line request) (as_bytes "Host: " ++ authority request) ls) in
      let pair : Option TargetRequest → Bytes × Option TargetRequest = λ r. ([], r) in
      rw (allowed auth p request inverse h host) (ap pair made)
