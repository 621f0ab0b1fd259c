-- ===== src/Wire/Dial/Accepted.antt =====
-- src-tauri/src/proxy.rs: what `connect_socks5` sends to a proxy that accepts it.
use proxy_load.Base.{
  length-append, leb, drop, take, ◌≤◌, ◌<◌, ◌≡◌, refl, sym, ap, ◌∙◌, Bool, true, false, some, [],
  ◌∷◌, ◌++◌, arith, length, inl, inr, Bool-cases, ltb, ◌||◌, if◌then◌else◌,
}
use proxy_load.Models.{Bytes, ProxyRecord}
use proxy_load.Candidate.{TargetRequest}
use proxy_load.Runtime.{InboundAuth, FailureScope, proxy, target}
use proxy_load.Text.{as_bytes}
use proxy_load.Wire.Step.{got}
use proxy_load.Wire.Address.{build_socks5_connect_request}
use proxy_load.Wire.Deliver.{success_reply}
use proxy_load.Wire.Exact.{append_assoc}
use proxy_load.Wire.Socks.Admit.{credentials, greeting, proof_when, told_when}
use proxy_load.Wire.{Client}
use proxy_load.Wire.Read.{State, State-same, Ends}
use proxy_load.Wire.Socks.{handle_socks5_handshake}
use proxy_load.Wire.Socks.Served.{Names, handshake_serves}
use proxy_load.Text.{is_utf8, contains}
use proxy_load.Wire.Dial.{
  skip, Link, connect_socks5, send, receive, blame, taken, use_auth, offered_methods, log_in,
  negotiate, ask, require, check_code, read_socks5_bind_address, dial, text_or_empty,
  credentials_of, proxy_at_fault,
}

-- The connection was made, and these bytes are to come and have been written.
abbrev pub link : Bytes → Bytes → FailureScope → Link
link incoming written scope = record {
  reached = true;
  incoming = incoming;
  written = written;
  scope = scope;
}

-- The proxy's configuration has the credentials that are asked for.
abbrev pub HasCredentials : Bool → InboundAuth → ProxyRecord → Type 0
HasCredentials false auth p = Unit
HasCredentials true auth p =
    (p.username ≡ some (as_bytes auth.username))
    × (p.password ≡ some (as_bytes auth.password))
    × (0 < length (as_bytes auth.username))
    × (length (as_bytes auth.username) ≤ 255)
    × (length (as_bytes auth.password) ≤ 255)

-- What a proxy answers that admits the client and has connected to the target.
abbrev pub accepting : Bool → Bytes
accepting enabled = told_when enabled ++ success_reply

take-length : (xs ys : Bytes) → take (length xs) (xs ++ ys) ≡ xs
take-length [] ys = refl
take-length (x ∷ xs) ys = ap (λ r. x ∷ r) (take-length xs ys)

drop-length : (xs ys : Bytes) → drop (length xs) (xs ++ ys) ≡ ys
drop-length [] ys = refl
drop-length (x ∷ xs) ys = drop-length xs ys

receive_lem :
    (bytes rest w : Bytes) (s : FailureScope)
    → receive (length bytes) (link (bytes ++ rest) w s) ≡ got bytes (link rest w s)
unfolding receive
receive_lem bytes rest w s =
    let enough : leb (length bytes) (length (bytes ++ rest)) ≡ true =
      ground (arith, length-append bytes rest) in
    rw (enough, take-length bytes rest, drop-length bytes rest) refl

ask_accepted :
    (request : TargetRequest) (packet rest w : Bytes)
    → build_socks5_connect_request request ≡ some packet
    → ask request (link (5 ∷ 0 ∷ 0 ∷ 1 ∷ 0 ∷ 0 ∷ 0 ∷ 0 ∷ 0 ∷ 0 ∷ rest) w target)
      ≡ got tt (link rest (w ++ packet) proxy)
unfolding ask taken send require check_code blame read_socks5_bind_address proxy_at_fault skip
ask_accepted request packet rest w e =
    rw
      (
        e,
        receive_lem (5 ∷ 0 ∷ 0 ∷ 1 ∷ []) (0 ∷ 0 ∷ 0 ∷ 0 ∷ 0 ∷ 0 ∷ rest) (w ++ packet) target,
        receive_lem (0 ∷ 0 ∷ 0 ∷ 0 ∷ 0 ∷ 0 ∷ []) rest (w ++ packet) proxy,
      )
      refl

log_in_accepted :
    (auth : InboundAuth) (p : ProxyRecord) (rest w : Bytes)
    → HasCredentials true auth p
    → log_in p 2 (link (1 ∷ 0 ∷ rest) w proxy)
      ≡ got tt
          (link rest (w ++ credentials (as_bytes auth.username) (as_bytes auth.password)) proxy)
unfolding log_in send credentials_of text_or_empty
log_in_accepted auth p rest w h =
    let user = as_bytes auth.username in
    let pass = as_bytes auth.password in
    let given : use_auth p ≡ true = ground (arith, h.0, h.2) in
    let fits : (ltb 255 (length user) || ltb 255 (length pass)) ≡ false =
      ground (arith, h.3, h.4) in
    rw (given, h.0, h.1, fits, receive_lem (1 ∷ 0 ∷ []) rest (w ++ credentials user pass) proxy)
      refl

append_nil : (xs : Bytes) → xs ++ [] ≡ xs
append_nil [] = refl
append_nil (x ∷ xs) = ap (λ r. x ∷ r) (append_nil xs)

-- What follows from the choice of a method.
chosen :
    (enabled : Bool) (auth : InboundAuth) (p : ProxyRecord) (rest w : Bytes)
    → HasCredentials enabled auth p
    → log_in p (if enabled then 2 else 0) (link (drop 2 (told_when enabled) ++ rest) w proxy)
      ≡ got tt (link rest (w ++ proof_when enabled auth) proxy)
unfolding log_in
chosen true auth p rest w h = log_in_accepted auth p rest w h
chosen false auth p rest w h = ap (λ t. got tt (link rest t proxy)) (sym (append_nil w))

negotiate_accepted :
    (enabled : Bool) (auth : InboundAuth) (p : ProxyRecord) (rest w : Bytes)
    → HasCredentials enabled auth p
    → negotiate p (link (told_when enabled ++ rest) w proxy)
      ≡ got tt (link rest (w ++ (greeting (offered_methods p) ++ proof_when enabled auth)) proxy)
unfolding negotiate dial send
negotiate_accepted false auth p rest w h =
    rw (receive_lem (5 ∷ 0 ∷ []) rest (w ++ greeting (offered_methods p)) proxy) (
      chosen false auth p rest (w ++ greeting (offered_methods p)) h
      ∙ ap (λ t. got tt (link rest t proxy)) (append_assoc w (greeting (offered_methods p)) []))
negotiate_accepted true auth p rest w h =
    rw (receive_lem (5 ∷ 2 ∷ []) (1 ∷ 0 ∷ rest) (w ++ greeting (offered_methods p)) proxy) (
      chosen true auth p rest (w ++ greeting (offered_methods p)) h
      ∙ ap (λ t. got tt (link rest t proxy))
          (append_assoc w (greeting (offered_methods p)) (proof_when true auth)))

-- What `connect_socks5` sends.
abbrev pub asked : InboundAuth → ProxyRecord → Bytes → Bytes
asked auth p packet = greeting (offered_methods p) ++ (proof_when auth.enabled auth ++ packet)

connect_accepted :
    (enabled : Bool) (auth : InboundAuth) (p : ProxyRecord) (request : TargetRequest)
    (packet rest : Bytes)
    → HasCredentials enabled auth p
    → build_socks5_connect_request request ≡ some packet
    → connect_socks5 p request (link (accepting enabled ++ rest) [] proxy)
      ≡ got tt
          (link rest (greeting (offered_methods p) ++ (proof_when enabled auth ++ packet)) proxy)
unfolding connect_socks5 blame
connect_accepted enabled auth p request packet rest h e =
    let sent = greeting (offered_methods p) ++ proof_when enabled auth in
    rw
      (
        append_assoc (told_when enabled) success_reply rest,
        negotiate_accepted enabled auth p (success_reply ++ rest) [] h,
      )
      (ask_accepted request packet rest sent e
        ∙ ap (λ t. got tt (link rest t proxy))
            (append_assoc (greeting (offered_methods p)) (proof_when enabled auth) packet))

offers_method :
    (enabled : Bool) (auth : InboundAuth) (p : ProxyRecord)
    → HasCredentials enabled auth p
    → contains (if enabled then 2 else 0) (offered_methods p) ≡ true
unfolding contains offered_methods
offers_method true auth p h =
    let given : use_auth p ≡ true = ground (arith, h.0, h.2) in rw given refl
offers_method false auth p h = elim (Bool-cases (use_auth p)) [
  | inl e ↦ rw e refl
  | inr e ↦ rw e refl
]

-- One proxy-load in front of another: when the proxy that `connect_socks5` dials is the inbound side
-- of this program and the configured credentials are the ones it asks for, the inbound side reads
-- the request that was made for, however its bytes come in pieces, and with what it writes then and
-- once it has connected, the dialling side succeeds and leaves what the target sends.
pub proxies_interoperate :
    (auth : InboundAuth) (p : ProxyRecord) (request : TargetRequest)
    (packet payload response : Bytes) (c : Client)
    → HasCredentials auth.enabled auth p
    → is_utf8 request.host ≡ true
    → 0 < request.port
    → build_socks5_connect_request request ≡ some packet
    → State (asked auth p packet ++ payload) [] c
    → (connect_socks5 p request (link (accepting auth.enabled ++ response) [] proxy)
        ≡ got tt (link response (asked auth p packet) proxy))
      × Ends
          (Names request.host request.port)
          payload
          (told_when auth.enabled)
          (handle_socks5_handshake auth c)
proxies_interoperate auth p request packet payload response c h valid positive e s =
    let wire =
      append_assoc (greeting (offered_methods p)) (proof_when auth.enabled auth ++ packet) payload
      ∙ ap (λ t. greeting (offered_methods p) ++ t)
          (append_assoc (proof_when auth.enabled auth) packet payload) in
    (
      connect_accepted auth.enabled auth p request packet response h e,
      handshake_serves auth (offered_methods p) request packet payload [] c
          (offers_method auth.enabled auth p h) valid positive e (State-same _ _ [] c wire s),
    )
