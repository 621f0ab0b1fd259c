-- ===== src/Http/Observer.antt =====
-- src-tauri/src/proxy/http_observer.rs: `HttpObserver`, which reads along with a response until its
-- final status is known. The counters are those of the bytes that pass.
pub mod Sent
mod Examples
use proxy_load.Base.{
  ℕ, ◌+◌, Bool, true, false, not, ◌&&◌, ◌||◌, Option, none, some, List, [], ◌∷◌, ◌++◌,
  if◌then◌else◌, leb, ltb, nat_beq, nat_eq, list_beq, length, is_some,
}
use proxy_load.Models.{Bytes}
use proxy_load.Text.{as_bytes, is_utf8, parse_u16, split_whitespace}
use proxy_load.Text.Lines.{crlf, ends_with, lines}

-- `MAX_HEADER`.
abbrev pub max_header : ℕ
max_header = 65536

-- Whether the sender is still there, and what it has sent.
pub record HttpObserver : Type 0 where
  pub prefix : Bytes
  pub observed : ℕ
  pub sending : Bool
  pub sent : Option ℕ
  pub read : ℕ
  pub written : ℕ

-- `HttpObserver::with_counters`.
unfoldable pub with_counters : Bool → ℕ → ℕ → HttpObserver
with_counters sender read written = record {
  prefix = [];
  observed = 0;
  sending = sender;
  sent = none;
  read = read;
  written = written;
}

in_range : ℕ → Option ℕ
in_range status = if leb 100 status && leb status 599 then some status else none

checked : Option ℕ → Option ℕ
unfolding in_range
checked none = none
checked (some status) = in_range status

is_http : Bytes → Bool
unfolding as_bytes
is_http version = list_beq version (as_bytes "HTTP/1.0") || list_beq version (as_bytes "HTTP/1.1")

status_of_fields : List Bytes → Option ℕ
unfolding is_http checked
status_of_fields [] = none
status_of_fields (version ∷ []) = none
status_of_fields (version ∷ status ∷ fields) =
    if is_http version then checked (parse_u16 status) else none

status_of_lines : List Bytes → Option ℕ
unfolding status_of_fields
status_of_lines [] = none
status_of_lines (line ∷ ls) = status_of_fields (split_whitespace line)

-- The status of a whole header.
unfoldable pub status_of : Bytes → Option ℕ
unfolding status_of_lines
status_of header = if is_utf8 header then status_of_lines (lines header) else none

close : HttpObserver → HttpObserver
close o = record o { sending = false; prefix = [] }

send : ℕ → HttpObserver → HttpObserver
send status o = record o { sending = false; sent = some status; prefix = [] }

-- What is done at the end of a header: an interim response is passed over.
conclude : HttpObserver → Option ℕ → HttpObserver
unfolding close send
conclude o none = close o
conclude o (some status) =
    if leb status 199 && not (nat_beq status 101) then record o { prefix = [] } else send status o

-- One byte of the response, while the sender is there.
unfoldable pub observe_byte : ℕ → HttpObserver → HttpObserver
unfolding close conclude
observe_byte byte o =
    let counted = record o { observed = o.observed + 1 } in
    let longer = record counted { prefix = o.prefix ++ (byte ∷ []) } in
    if ltb max_header counted.observed
    then close counted
    else if ends_with (crlf ++ crlf) longer.prefix
    then conclude longer (status_of longer.prefix)
    else longer

observe_all : Bytes → HttpObserver → HttpObserver
observe_all [] o = o
observe_all (byte ∷ bytes) o =
    let next = observe_byte byte o in
    let rest = observe_all bytes next in if next.sending then rest else next

-- `HttpObserver::observe`.
unfoldable pub observe : Bytes → HttpObserver → HttpObserver
unfolding observe_all
observe bytes o = if o.sending then observe_all bytes o else o

-- A read and a write that succeeded, in `poll_read` and `poll_write`.
unfoldable pub poll_read : Bytes → HttpObserver → HttpObserver
poll_read bytes o = observe bytes (record o { read = o.read + length bytes })

unfoldable pub poll_write : ℕ → HttpObserver → HttpObserver
poll_write count o = record o { written = o.written + count }
