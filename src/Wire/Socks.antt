-- ===== src/Wire/Socks.antt =====
-- src-tauri/src/proxy.rs: the SOCKS5 handshake with a client.
pub mod Admit
pub mod Served
pub mod Authorized
use proxy_load.Base.{ℕ, Bool, true, false, ◌&&◌, not, [], ◌∷◌, if◌then◌else◌, nat_beq}
use proxy_load.Models.{Bytes}
use proxy_load.Candidate.{TargetRequest, socks5}
use proxy_load.Runtime.{InboundAuth}
use proxy_load.Text.{as_bytes, contains}
use proxy_load.Wire.{Client, read, write, buffered, byte}
use proxy_load.Wire.Step.{Reply, ◌>>=◌, ◌>>◌, guard, give, gone, got}
use proxy_load.Wire.Compare.{constant_time_eq}
use proxy_load.Wire.Address.{Address, read_socks_address_buffered}

-- Tells the client and goes on only if the test holds.
tell_and_guard : Bool → Bytes → Bytes → Client → Reply Client (Unit {0})
tell_and_guard test passed failed = do write (if test then passed else failed); guard test

-- Tells the client and ends unless the test holds.
refuse_unless : Bool → Bytes → Client → Reply Client (Unit {0})
refuse_unless true answer = got tt
refuse_unless false answer = write answer >> gone

-- `authenticate_socks5_client`.
unfoldable pub authenticate_socks5_client : InboundAuth → Client → Reply Client (Unit {0})
unfolding tell_and_guard refuse_unless
authenticate_socks5_client auth = do
  header ← read 2
  refuse_unless (nat_beq (byte header 0) 1) (1 ∷ 1 ∷ [])
  username ← read (byte header 1)
  size ← read 1
  password ← read (byte size 0)
  tell_and_guard
      (constant_time_eq username (as_bytes auth.username)
        && constant_time_eq password (as_bytes auth.password))
      (1 ∷ 0 ∷ []) (1 ∷ 1 ∷ [])

abbrev pub selected_method : InboundAuth → ℕ
selected_method auth = if auth.enabled then 2 else 0

authenticate_if : Bool → InboundAuth → Client → Reply Client (Unit {0})
authenticate_if true auth = authenticate_socks5_client auth
authenticate_if false auth = got tt

-- The method of authentication, and the authentication.
pub admit : InboundAuth → Client → Reply Client (Unit {0})
unfolding refuse_unless authenticate_if
admit auth = do
  greeting ← read 2
  guard (nat_beq (byte greeting 0) 5)
  methods ← read (byte greeting 1)
  refuse_unless (contains (selected_method auth) methods) (5 ∷ 255 ∷ [])
  write (5 ∷ selected_method auth ∷ [])
  authenticate_if auth.enabled auth

socks5_request : Address → Bytes → TargetRequest
socks5_request a payload = record {
  host = a.host;
  port = a.port;
  address_type = a.kind;
  original_host = a.host;
  inbound = socks5;
  initial_payload = payload;
}

-- The command.
take_request : Client → Reply Client TargetRequest
unfolding socks5_request
take_request = do
  header ← read 4
  guard (nat_beq (byte header 0) 5 && nat_beq (byte header 1) 1)
  address ← read_socks_address_buffered (byte header 3)
  guard (not (nat_beq address.port 0))
  payload ← buffered
  give (socks5_request address payload)

-- `handle_socks5_handshake`.
unfoldable pub handle_socks5_handshake : InboundAuth → Client → Reply Client TargetRequest
unfolding admit take_request
handle_socks5_handshake auth = admit auth >> take_request
