-- ===== src/Wire/Address.antt =====
-- src-tauri/src/proxy.rs: the addresses of targets, as they are written in a request.
pub mod Authority
use proxy_load.Base.{
  ℕ, ◌+◌, ◌*◌, ◌/◌, ◌%◌, Bool, ◌||◌, Option, none, some, [], ◌∷◌, ◌++◌, if◌then◌else◌, ltb, nat_beq,
  length, is_empty, is_some, unwrap_or, get_elem?,
}
use proxy_load.Models.{Bytes}
use proxy_load.Host.{trim}
use proxy_load.Candidate.{TargetRequest}
use proxy_load.Text.{
  is_utf8, parse_u16, decimal, Ipv4Addr, octets, parse_ipv4, print_ipv4, rsplit_once, count_byte,
  contains,
}
use proxy_load.Wire.{Client, read, byte}
use proxy_load.Wire.Step.{Reply, ◌>>=◌, ◌>>◌, guard, give, gone}

-- `ADDR_IPV4` and `ADDR_DOMAIN`.
abbrev pub addr_ipv4 : ℕ
addr_ipv4 = 1

abbrev pub addr_domain : ℕ
addr_domain = 3

-- `address_type`.
unfoldable pub address_type : Bytes → Option ℕ
address_type host =
    if is_some (parse_ipv4 host)
    then some addr_ipv4
    else if contains b':' host
    then none
    else some addr_domain

-- `u16::to_be_bytes` and `u16::from_be_bytes`.
abbrev pub to_be_bytes : ℕ → Bytes
to_be_bytes port = port / 256 ∷ port % 256 ∷ []

abbrev pub from_be_bytes : ℕ → ℕ → ℕ
from_be_bytes high low = high * 256 + low

unfoldable pub domain_address : Bytes → Option Bytes
domain_address host =
    if ltb 255 (length host) then none else some (addr_domain ∷ length host ∷ host)

unfoldable pub ipv4_address : Option Ipv4Addr → Option Bytes
ipv4_address none = none
ipv4_address (some ip) = some (addr_ipv4 ∷ octets ip)

-- The address after its type; `none` for a name that is too long.
unfoldable pub address_of : Bytes → Option ℕ → Option Bytes
unfolding domain_address ipv4_address
address_of host none = none
address_of host (some kind) =
    if nat_beq kind addr_ipv4
    then ipv4_address (parse_ipv4 host)
    else if nat_beq kind addr_domain
    then domain_address host
    else none

unfoldable pub connect_packet : ℕ → Option Bytes → Option Bytes
connect_packet port none = none
connect_packet port (some address) = some (5 ∷ 1 ∷ 0 ∷ (address ++ to_be_bytes port))

-- `build_socks5_connect_request`.
unfoldable pub build_socks5_connect_request : TargetRequest → Option Bytes
unfolding address_of connect_packet
build_socks5_connect_request request =
    connect_packet request.port (address_of request.host (address_type request.host))

socks4a : Bytes → Bytes → Bytes → Option Bytes
socks4a userid host start =
    if contains b':' host
    then none
    else if ltb 255 (length host)
    then none
    else some (start ++ (0 ∷ 0 ∷ 0 ∷ 1 ∷ (userid ++ (0 ∷ (host ++ (0 ∷ []))))))

socks4_packet : Bytes → Bytes → Bytes → Option Ipv4Addr → Option Bytes
unfolding socks4a
socks4_packet userid host start (some ip) = some (start ++ (octets ip ++ (userid ++ (0 ∷ []))))
socks4_packet userid host start none = socks4a userid host start

-- `build_socks4_connect_request`.
unfoldable pub build_socks4_connect_request : TargetRequest → Bytes → Option Bytes
unfolding socks4_packet
build_socks4_connect_request request userid =
    socks4_packet userid request.host (4 ∷ 1 ∷ to_be_bytes request.port) (parse_ipv4 request.host)

-- A host, a port and the type of the address.
pub record Address : Type 0 where
  pub host : Bytes
  pub port : ℕ
  pub kind : ℕ

abbrev pub address : Bytes → ℕ → ℕ → Address
address host port kind = record { host = host; port = port; kind = kind }

unfoldable pub read_ipv4 : Client → Reply Client Address
read_ipv4 = do
  rest ← read 6
  give (
      address (print_ipv4 (byte rest 0) (byte rest 1) (byte rest 2) (byte rest 3))
        (from_be_bytes (byte rest 4) (byte rest 5)) addr_ipv4)

unfoldable pub read_domain : Client → Reply Client Address
read_domain = do
  size ← read 1
  domain ← read (byte size 0)
  port ← read 2
  guard (is_utf8 domain)
  give (address domain (from_be_bytes (byte port 0) (byte port 1)) addr_domain)

-- `read_socks_address_buffered`.
unfoldable pub read_socks_address_buffered : ℕ → Client → Reply Client Address
unfolding read_ipv4 read_domain
read_socks_address_buffered kind client =
    if nat_beq kind addr_ipv4
    then read_ipv4 client
    else if nat_beq kind addr_domain
    then read_domain client
    else gone client

checked : Bytes → Option ℕ → Option (Bytes × ℕ)
checked host none = none
checked host (some port) =
    if nat_beq port 0 || is_empty (trim host) then none else some (trim host, port)

-- The host and the port at the last colon, when there is one.
host_and_port : Bytes → ℕ → Option (Bytes × Bytes) → Option (Bytes × ℕ)
unfolding checked
host_and_port authority default_port none = some (authority, default_port)
host_and_port authority default_port (some found) = checked found.0 (parse_u16 found.1)

unfoldable pub starts_bracketed : Bytes → Bool
starts_bracketed s = nat_beq (unwrap_or (get_elem? s 0) 0) b'['

parse_trimmed : Bytes → ℕ → Option (Bytes × ℕ)
unfolding host_and_port starts_bracketed
parse_trimmed authority default_port =
    if is_empty authority || (starts_bracketed authority || ltb 1 (count_byte b':' authority))
    then none
    else host_and_port authority default_port (rsplit_once b':' authority)

-- `parse_authority`.
unfoldable pub parse_authority : Bytes → ℕ → Option (Bytes × ℕ)
unfolding parse_trimmed
parse_authority authority = parse_trimmed (trim authority)

-- `format_authority`.
unfoldable pub format_authority : Bytes → ℕ → ℕ → Bytes
format_authority host port default_port =
    if nat_beq port default_port then host else host ++ (b':' ∷ decimal port)
