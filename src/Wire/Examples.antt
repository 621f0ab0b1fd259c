-- ===== src/Wire/Examples.antt =====
-- Handshakes with concrete bytes: a user `u` with the password `pw`, and the target `a.io`, port 443.
use proxy_load.Base.{◌≡◌, refl, true, some, [], ◌∷◌, ◌++◌, map, arith}
use proxy_load.Models.{Bytes, ProxyRecord}
use proxy_load.Host.{is_space, unplain}
use proxy_load.Candidate.{TargetRequest, socks5}
use proxy_load.Runtime.{InboundAuth, proxy}
use proxy_load.Samples.{node}
use proxy_load.Text.{as_bytes, is_utf8, parse_ipv4, contains}
use proxy_load.Wire.{Client}
use proxy_load.Wire.Step.{got}
use proxy_load.Wire.Read.{State, Ends, Gives, stream}
use proxy_load.Wire.Address.{
  starts_bracketed, build_socks5_connect_request, address_type, parse_authority, format_authority,
}
use proxy_load.Wire.Address.Authority.{parse_authority-format_authority}
use proxy_load.Wire.Socks.{handle_socks5_handshake}
use proxy_load.Wire.Socks.Admit.{told_when}
use proxy_load.Wire.Socks.Served.{Names}
use proxy_load.Wire.Socks.Authorized.{HasAuthenticated, handshake_authorized}
use proxy_load.Wire.Dial.{connect_socks5, offered_methods}
use proxy_load.Wire.Dial.Accepted.{link, asked, accepting, proxies_interoperate}
use proxy_load.Wire.Dial.Blame.{IsFair, connect_socks5-IsFair}

abbrev auth : InboundAuth
auth = record { enabled = true; username = "u"; password = "pw" }

abbrev behind : ProxyRecord
behind = record (node 1) { username = some (b'u' ∷ []); password = some (b'p' ∷ b'w' ∷ []) }

abbrev host : Bytes
host = b'a' ∷ b'.' ∷ b'i' ∷ b'o' ∷ []

abbrev request : TargetRequest
request = record {
  host = host;
  port = 443;
  address_type = 3;
  original_host = host;
  inbound = socks5;
  initial_payload = [];
}

abbrev packet : Bytes
packet = 5 ∷ 1 ∷ 0 ∷ 3 ∷ 4 ∷ (host ++ (1 ∷ 187 ∷ []))

packet_built : build_socks5_connect_request request ≡ some packet
unfolding build_socks5_connect_request address_type parse_ipv4 contains
packet_built = refl

-- Everything comes byte by byte, and a byte after it.
abbrev client : Client
client = record {
  buffer = 5 ∷ [];
  incoming = 2 ∷ 0 ∷ 2 ∷ 1 ∷ 1 ∷ b'u' ∷ 2 ∷ b'p' ∷ b'w' ∷ (packet ++ (9 ∷ []));
  reads = map (λ _. 0) (1 ∷ 2 ∷ 3 ∷ 4 ∷ 5 ∷ 6 ∷ 7 ∷ 8 ∷ 9 ∷ (packet ++ (9 ∷ [])));
  written = [];
}

client_sends : State (asked auth behind packet ++ (9 ∷ [])) [] client
unfolding offered_methods as_bytes
client_sends = (refl, refl, omega arith)

host_valid : is_utf8 host ≡ true
unfolding is_utf8
host_valid = refl

proxies_interoperate_example :
    (connect_socks5 behind request (link (accepting true ++ (7 ∷ [])) [] proxy)
      ≡ got tt (link (7 ∷ []) (asked auth behind packet) proxy))
    × Ends (Names host 443) (9 ∷ []) (told_when true) (handle_socks5_handshake auth client)
unfolding as_bytes
proxies_interoperate_example =
    proxies_interoperate auth behind request packet (9 ∷ []) (7 ∷ []) client
      (refl, refl, omega arith, omega arith, omega arith) host_valid (omega arith) packet_built
      client_sends

handshake_authorized_example :
    Gives (λ _ _. HasAuthenticated auth (stream client)) (handle_socks5_handshake auth client)
handshake_authorized_example = handshake_authorized auth client refl

-- The proxy takes no authentication and refuses the connection with the code 5.
connect_socks5-IsFair_example :
    IsFair request
      (5 ∷ 0 ∷ 5 ∷ 5 ∷ 0 ∷ 1 ∷ [])
      (connect_socks5 behind request (link (5 ∷ 0 ∷ 5 ∷ 5 ∷ 0 ∷ 1 ∷ []) [] proxy))
connect_socks5-IsFair_example =
    connect_socks5-IsFair behind request (link (5 ∷ 0 ∷ 5 ∷ 5 ∷ 0 ∷ 1 ∷ []) [] proxy) refl

parse_authority-format_authority_example :
    parse_authority (format_authority host 8080 80) 80 ≡ some (host, 8080)
unfolding is_space unplain contains starts_bracketed
parse_authority-format_authority_example =
    parse_authority-format_authority host 8080 80 (refl, refl, refl, refl) (omega arith)
      (omega arith)
