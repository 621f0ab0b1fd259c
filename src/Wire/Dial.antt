-- ===== src/Wire/Dial.antt =====
-- src-tauri/src/proxy.rs: connecting to a target through a SOCKS proxy.
pub mod Accepted
pub mod Post
pub mod Refused
pub mod Blame
use proxy_load.Base.{
  ℕ, ◌+◌, Bool, true, false, ◌&&◌, ◌||◌, not, Option, none, some, [], ◌∷◌, ◌++◌, if◌then◌else◌, leb,
  ltb, nat_beq, length, is_empty, is_some_and, unwrap_or, take, drop,
}
use proxy_load.Models.{Bytes, ProxyRecord}
use proxy_load.Candidate.{TargetRequest}
use proxy_load.Runtime.{FailureScope, proxy, target}
use proxy_load.Wire.{byte}
use proxy_load.Wire.Step.{Reply, ◌>>=◌, ◌>>◌, guard, give, gone, got}
use proxy_load.Wire.Address.{
  addr_ipv4, addr_domain, build_socks5_connect_request, build_socks4_connect_request,
}

-- The connection to a proxy: whether `TcpStream::connect` succeeds, what the proxy sends before it
-- closes, what has been written to it, and whom a failure is blamed on.
pub record Link : Type 0 where
  pub reached : Bool
  pub incoming : Bytes
  pub written : Bytes
  pub scope : FailureScope

dial : Link → Reply Link (Unit {0})
dial l = guard l.reached l

-- `stream.write_all(…).await?`; the write succeeds.
unfoldable pub send : Bytes → Link → Reply Link (Unit {0})
send bytes l = got tt (record l { written = l.written ++ bytes })

-- `stream.read_exact(…).await?`.
unfoldable pub receive : ℕ → Link → Reply Link Bytes
receive n l =
    if leb n (length l.incoming)
    then got (take n l.incoming) (record l { incoming = drop n l.incoming })
    else gone l

unfoldable pub blame : FailureScope → Link → Reply Link (Unit {0})
blame scope l = got tt (record l { scope = scope })

-- `?` on a result.
taken : {A : Type 0} → Option A → Link → Reply Link A
taken none = gone
taken (some a) = got a

text_or_empty : Option Bytes → Bytes
text_or_empty o = unwrap_or o []

unfoldable pub use_auth : ProxyRecord → Bool
use_auth p = is_some_and p.username (λ u. not (is_empty u))

unfoldable pub offered_methods : ProxyRecord → Bytes
unfolding use_auth
offered_methods p = if use_auth p then 0 ∷ 2 ∷ [] else 0 ∷ []

-- The message with the name and the password.
credentials_of : Bytes → Bytes → Bytes
credentials_of username password = 1 ∷ length username ∷ (username ++ (length password ∷ password))

send_credentials : Bytes → Bytes → Link → Reply Link (Unit {0})
unfolding send receive credentials_of
send_credentials username password = do
  guard (not (ltb 255 (length username) || ltb 255 (length password)))
  send (credentials_of username password)
  answer ← receive 2
  guard (nat_beq (byte answer 0) 1 && nat_beq (byte answer 1) 0)

-- What follows from the method that the proxy chose.
log_in : ProxyRecord → ℕ → Link → Reply Link (Unit {0})
unfolding send_credentials use_auth text_or_empty
log_in p method =
    if not (nat_beq method 2)
    then guard (nat_beq method 0)
    else if use_auth p
    then send_credentials (text_or_empty p.username) (text_or_empty p.password)
    else gone

-- Reads and drops.
unfoldable pub skip : ℕ → Link → Reply Link (Unit {0})
unfolding receive
skip n = receive n >>= λ _. got tt

skip_domain : Link → Reply Link (Unit {0})
unfolding receive skip
skip_domain = do size ← receive 1; skip (byte size 0 + 2)

-- `read_socks5_bind_address`.
unfoldable pub read_socks5_bind_address : ℕ → Link → Reply Link (Unit {0})
unfolding skip skip_domain
read_socks5_bind_address kind =
    if nat_beq kind addr_ipv4
    then skip 6
    else if nat_beq kind addr_domain
    then skip_domain
    else if nat_beq kind 4
    then skip 18
    else gone

-- Blames the proxy and ends unless the test holds.
unfoldable pub require : Bool → Link → Reply Link (Unit {0})
unfolding blame
require true = got tt
require false = blame proxy >> gone

-- The proxy's own faults among the codes of RFC 1928.
unfoldable pub proxy_at_fault : ℕ → Bool
proxy_at_fault code = nat_beq code 1 || nat_beq code 7 || ltb 8 code

unfoldable pub check_code : ℕ → Link → Reply Link (Unit {0})
unfolding require proxy_at_fault
check_code code = require (not (proxy_at_fault code)) >> guard (nat_beq code 0)

pub negotiate : ProxyRecord → Link → Reply Link (Unit {0})
unfolding dial send offered_methods receive log_in
negotiate p = do
  dial
  send (5 ∷ length (offered_methods p) ∷ offered_methods p)
  answer ← receive 2
  guard (nat_beq (byte answer 0) 5)
  log_in p (byte answer 1)

pub ask : TargetRequest → Link → Reply Link (Unit {0})
unfolding taken send receive require check_code blame read_socks5_bind_address
ask request = do
  packet ← taken (build_socks5_connect_request request)
  send packet
  header ← receive 4
  require (nat_beq (byte header 0) 5 && nat_beq (byte header 2) 0)
  check_code (byte header 1)
  blame proxy
  read_socks5_bind_address (byte header 3)

-- `connect_socks5`.
unfoldable pub connect_socks5 : ProxyRecord → TargetRequest → Link → Reply Link (Unit {0})
unfolding negotiate blame ask
connect_socks5 p request = do negotiate p; blame target; ask request

-- `connect_socks4`.
unfoldable pub connect_socks4 : ProxyRecord → TargetRequest → Link → Reply Link (Unit {0})
unfolding dial blame taken send receive require text_or_empty
connect_socks4 p request = do
  dial
  guard (not (ltb 255 (length (text_or_empty p.username))))
  blame target
  packet ← taken (build_socks4_connect_request request (text_or_empty p.username))
  send packet
  response ← receive 8
  require (nat_beq (byte response 0) 0)
  require (nat_beq (byte response 1) 90 || nat_beq (byte response 1) 91)
  guard (nat_beq (byte response 1) 90)
