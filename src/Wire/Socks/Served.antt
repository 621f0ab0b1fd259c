-- ===== src/Wire/Socks/Served.antt =====
-- src-tauri/src/proxy.rs: a client that keeps to the SOCKS5 protocol is served, however its bytes
-- come in pieces.
use proxy_load.Base.{
  inl, inr, Option-cases, nat_beq, Bool-cases, ℕ, ◌<◌, ◌≡◌, refl, ap, ◌∙◌, true, false, some, [],
  ◌∷◌, ◌++◌, arith, length,
}
use proxy_load.Models.{Bytes}
use proxy_load.Runtime.{InboundAuth}
use proxy_load.Text.{contains}
use proxy_load.Wire.{Client}
use proxy_load.Wire.Exact.{append_assoc}
use proxy_load.Wire.Read.{State-same, State, Ends, Ends->>=, read-then}
use proxy_load.Wire.Address.{
  address_of, ipv4_address, domain_address, connect_packet, build_socks5_connect_request,
  address_of, Address, address_type, addr_ipv4, addr_domain, read_domain, read_ipv4,
  read_socks_address_buffered, to_be_bytes,
}
use proxy_load.Candidate.{TargetRequest, socks5}
use proxy_load.Text.{is_utf8, Ipv4Addr, octets, parse_ipv4}
use proxy_load.Text.Addresses.{print_ipv4-parse_ipv4}
use proxy_load.Wire.Socks.Admit.{greeting, proof_when, told_when, admit-Ends}
use proxy_load.Wire.Socks.{
  selected_method, admit, socks5_request, take_request, handle_socks5_handshake,
}

-- The target of a request that an address names.
abbrev pub Names : Bytes → ℕ → TargetRequest → Client → Type 0
Names host port r c =
    (r.host ≡ host)
    × (r.original_host ≡ host)
    × (r.port ≡ port)
    × (address_type host ≡ some r.address_type)
    × (r.inbound ≡ socks5)
    × (r.initial_payload ≡ c.buffer)

abbrev NamesAddress : Bytes → ℕ → Address → Client → Type 0
NamesAddress host port a c = (a.host ≡ host) × (a.port ≡ port) × (address_type host ≡ some a.kind)

-- A domain.
read_domain-Ends :
    (host rest w : Bytes) (port : ℕ) (c : Client)
    → is_utf8 host ≡ true
    → address_type host ≡ some addr_domain
    → State ((length host ∷ host) ++ (to_be_bytes port ++ rest)) w c
    → Ends (NamesAddress host port) rest w (read_socks_address_buffered addr_domain c)
unfolding read_socks_address_buffered read_domain
read_domain-Ends host rest w port c valid kind s =
    read-then (NamesAddress host port) (length host ∷ []) (host ++ (to_be_bytes port ++ rest)) rest
      w w c _ s
      λ c1 s1. read-then _ host (to_be_bytes port ++ rest) rest w _ c1 _ s1 λ c2 s2.
        read-then _ (to_be_bytes port) rest rest w _ c2 _ s2
          λ c3 s3. rw valid ((refl, omega arith, kind), s3)

read_ipv4-Ends :
    (ip : Ipv4Addr) (host rest w : Bytes) (port : ℕ) (c : Client)
    → parse_ipv4 host ≡ some ip
    → State (octets ip ++ (to_be_bytes port ++ rest)) w c
    → Ends (NamesAddress host port) rest w (read_socks_address_buffered addr_ipv4 c)
unfolding read_socks_address_buffered read_ipv4 address_type
read_ipv4-Ends ip host rest w port c e s =
    read-then (NamesAddress host port) (octets ip ++ to_be_bytes port) rest rest w w c _ s
      λ c1 s1. ((print_ipv4-parse_ipv4 host ip e, omega arith, rw e refl), s1)

-- The request is taken when its address is read.
take-Ends :
    (host tail rest w : Bytes) (port kind : ℕ) (c : Client)
    → State (5 ∷ 1 ∷ 0 ∷ kind ∷ (tail ++ (to_be_bytes port ++ rest))) w c
    → 0 < port
    → ((d : Client)
        → State (tail ++ (to_be_bytes port ++ rest)) w d
        → Ends (NamesAddress host port) rest w (read_socks_address_buffered kind d))
    → Ends (Names host port) rest w (take_request c)
unfolding take_request socks5_request
take-Ends host tail rest w port kind c s p reads =
    read-then (Names host port) (5 ∷ 1 ∷ 0 ∷ kind ∷ []) (tail ++ (to_be_bytes port ++ rest)) rest w
      w c _ s
      λ d h.
        Ends->>= (NamesAddress host port) (Names host port) rest rest w w
          (read_socks_address_buffered kind d) _ (reads d h)
          λ a k q held.
            let given : nat_beq a.port 0 ≡ false = ground (arith, q.1, p) in
            rw given ((q.0, q.0, q.1, q.2, refl, refl), held)

-- The address that the request is built with is read back.
address-Ends :
    (host bytes rest w : Bytes) (port kind : ℕ) (c : Client)
    → is_utf8 host ≡ true
    → address_type host ≡ some kind
    → address_of host (some kind) ≡ some bytes
    → State (5 ∷ 1 ∷ 0 ∷ (bytes ++ (to_be_bytes port ++ rest))) w c
    → 0 < port
    → Ends (Names host port) rest w (take_request c)
unfolding address_of ipv4_address domain_address
address-Ends host bytes rest w port kind c valid e f s p =
    elim (Bool-cases (nat_beq kind addr_ipv4)) [
      | inl ipv4 ↦ elim (Option-cases (parse_ipv4 host)) [
        | inl no_ip ↦ absurd (ground (arith, f, ipv4, no_ip))
        | inr (ip, is_ip) ↦
            let same : bytes ≡ addr_ipv4 ∷ octets ip = ground (arith, f, ipv4, is_ip) in
            take-Ends host (octets ip) rest w port addr_ipv4 c
              (State-same _ _ w c (ap (λ b. 5 ∷ 1 ∷ 0 ∷ (b ++ (to_be_bytes port ++ rest))) same) s)
              p (λ d h. read_ipv4-Ends ip host rest w port d is_ip h)
      ]
      | inr other ↦
          let domain : kind ≡ addr_domain = ground (arith, f, other) in
          let same : bytes ≡ addr_domain ∷ length host ∷ host = ground (arith, f, other) in
          take-Ends host (length host ∷ host) rest w port addr_domain c
            (State-same _ _ w c (ap (λ b. 5 ∷ 1 ∷ 0 ∷ (b ++ (to_be_bytes port ++ rest))) same) s) p
            (λ d h. read_domain-Ends host rest w port d valid (e ∙ ap some domain) h)
    ]

packet-Ends :
    (request : TargetRequest) (packet rest w : Bytes) (c : Client)
    → is_utf8 request.host ≡ true
    → 0 < request.port
    → build_socks5_connect_request request ≡ some packet
    → State (packet ++ rest) w c
    → Ends (Names request.host request.port) rest w (take_request c)
unfolding build_socks5_connect_request connect_packet address_of
packet-Ends request packet rest w c valid p e s = elim (Option-cases (address_type request.host)) [
  | inl odd ↦ absurd (ground (arith, e, odd))
  | inr (kind, is) ↦ elim (Option-cases (address_of request.host (some kind))) [
    | inl odd ↦ absurd (ground (arith, e, is, odd))
    | inr (bytes, found) ↦
        let same : packet ≡ 5 ∷ 1 ∷ 0 ∷ (bytes ++ to_be_bytes request.port) =
          ground (arith, e, is, found) in
        address-Ends request.host bytes rest w request.port kind c valid is found
          (State-same _ _ w c
            (ap (λ t. t ++ rest) same
              ∙ ap (λ t. 5 ∷ 1 ∷ 0 ∷ t) (append_assoc bytes (to_be_bytes request.port) rest))
            s)
          p
  ]
]

-- A client that offers the method which is asked for, authenticates with the credentials that are
-- configured if it has to, and sends the request that `build_socks5_connect_request` builds for a
-- target, is let in, and the target is the one that it named. That is so however its bytes come in
-- pieces, and what it sends after the request is the payload and what is still to be read.
pub handshake_serves :
    (auth : InboundAuth) (methods : Bytes) (request : TargetRequest) (packet rest w : Bytes)
    (c : Client)
    → contains (selected_method auth) methods ≡ true
    → is_utf8 request.host ≡ true
    → 0 < request.port
    → build_socks5_connect_request request ≡ some packet
    → State (greeting methods ++ (proof_when auth.enabled auth ++ (packet ++ rest))) w c
    → Ends
        (Names request.host request.port)
        rest
        (w ++ told_when auth.enabled)
        (handle_socks5_handshake auth c)
unfolding handle_socks5_handshake
handshake_serves auth methods request packet rest w c offered valid p e s =
    Ends->>= (λ _ _. Unit {0}) (Names request.host request.port) (packet ++ rest) rest
      (w ++ told_when auth.enabled) (w ++ told_when auth.enabled) (admit auth c) _
      (admit-Ends auth methods (packet ++ rest) w c offered s)
      λ _ d _ held. packet-Ends request packet rest (w ++ told_when auth.enabled) d valid p e held
