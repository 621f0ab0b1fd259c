-- ===== src/Http/Header.antt =====
-- src-tauri/src/proxy.rs: the headers of HTTP requests, as they are read and passed on.
pub mod Split
pub mod Whole
pub mod Begun
pub mod Sniff
pub mod Forward
mod Tests
use proxy_load.Base.{
  ℕ, zero, suc, ◌+◌, Bool, true, false, not, ◌&&◌, ◌||◌, Option, none, some, List, [], ◌∷◌, ◌++◌,
  if◌then◌else◌, leb, ltb, nat_beq, nat_eq, length, is_some, is_some_and, is_empty, unwrap_or, any,
  take, drop, min, get_elem?, keep,
}
use proxy_load.Models.{Bytes}
use proxy_load.Host.{trim}
use proxy_load.Text.{
  as_bytes, is_utf8, split_once, split_whitespace, split_on, eq_ignore_ascii_case,
}
use proxy_load.Text.Lines.{
  crlf, starts_with, lines, split_crlf, join_crlf, trim_end_matches, to_uppercase,
}

abbrev pub blank_line : Bytes
blank_line = crlf ++ crlf

abbrev pub after_byte : ℕ → Option (Bytes × Bytes) → Option (Bytes × Bytes)
after_byte c none = none
after_byte c (some parts) = some (c ∷ parts.0, parts.1)

-- `split_http_header`: up to the first empty line, and what follows.
unfoldable pub split_http_header : Bytes → Option (Bytes × Bytes)
unfolding starts_with
split_http_header [] = none
split_http_header (c ∷ s) =
    let rest = split_http_header s in
    if starts_with blank_line (c ∷ s)
    then some (take 4 (c ∷ s), drop 4 (c ∷ s))
    else after_byte c rest

abbrev pub max_request_header : ℕ
max_request_header = 65536

-- A header with what has been read after it, what is still to come and how much the reads get.
pub record HeaderRead : Type 0 where
  pub header : Bytes
  pub remainder : Bytes
  pub incoming : Bytes
  pub reads : List ℕ

accept : Bytes × Bytes → Bytes → List ℕ → Option HeaderRead
accept parts incoming reads =
    if ltb max_request_header (length parts.0) || not (is_utf8 parts.0)
    then none
    else some (record { header = parts.0; remainder = parts.1; incoming = incoming; reads = reads })

accept_or : Option (Bytes × Bytes) → Bytes → List ℕ → Option HeaderRead → Option HeaderRead
unfolding accept
accept_or none incoming reads more = more
accept_or (some parts) incoming reads more = accept parts incoming reads

-- The loop of `read_http_request_header`: a read gets one byte at least and 1024 at most, and after
-- the last of them the time is up.
unfoldable pub read_http_request_header : List ℕ → Bytes → Bytes → Option HeaderRead
unfolding accept_or
read_http_request_header [] buffer incoming = accept_or (split_http_header buffer) incoming [] none
read_http_request_header (r ∷ reads) buffer incoming =
    let size = min (suc r) 1024 in
    let grown = buffer ++ take size incoming in
    let more = read_http_request_header reads grown (drop size incoming) in
    accept_or (split_http_header buffer) incoming (r ∷ reads) (
      if is_empty incoming
        || ltb max_request_header (length grown) && not (is_some (split_http_header grown))
      then none
      else more)

-- Whether a line has the name, in any case.
unfoldable pub is_named : Bytes → Bytes → Bool
is_named name line = is_some_and (split_once b':' line) λ parts. eq_ignore_ascii_case parts.0 name

value_of : Bytes → Bytes
value_of line = elim (split_once b':' line) [ none ↦ [] | some parts ↦ parts.1 ]

-- What one line says of an upgrade: whether one is named, and the last word on the connection.
upgrade_line : Bytes → Bool × Bool → Bool × Bool
unfolding as_bytes value_of
upgrade_line line (named, connection) =
    if is_named (as_bytes "upgrade") line && not (is_empty (trim (value_of line)))
    then (true, connection)
    else if is_named (as_bytes "connection") line
    then (
      named,
      any (λ token. eq_ignore_ascii_case (trim token) (as_bytes "upgrade"))
          (split_on b',' (value_of line)),
    )
    else (named, connection)

upgrade_lines : List Bytes → Bool × Bool → Bool × Bool
unfolding upgrade_line
upgrade_lines [] seen = seen
upgrade_lines (l ∷ ls) seen = upgrade_lines ls (upgrade_line l seen)

-- `http_is_upgrade`.
unfoldable pub http_is_upgrade : Bytes → Bool
unfolding upgrade_lines
http_is_upgrade header =
    let seen = upgrade_lines (drop 1 (lines header)) (false, false) in seen.0 && seen.1

-- The lines that are not passed on.
unfoldable pub is_hop : Bytes → Bool
unfolding as_bytes
is_hop line =
    is_named (as_bytes "proxy-connection") line
    || (is_named (as_bytes "proxy-authorization") line
        || (is_named (as_bytes "connection") line
            || (is_named (as_bytes "keep-alive") line || is_named (as_bytes "host") line)))

space : Bytes
space = b' ' ∷ []

unfoldable pub connection_line : Bool → Bytes
unfolding as_bytes
connection_line upgrade =
    if upgrade then as_bytes "Connection: Upgrade" else as_bytes "Connection: close"

-- The lines of the header that is passed on, the request line apart.
unfoldable pub forward_lines : Bool → Bytes → List Bytes → List Bytes
unfolding as_bytes is_hop connection_line
forward_lines upgrade authority ls =
    (as_bytes "Host: " ++ authority)
    ∷ (keep (λ l. not (is_hop l)) ls ++ (connection_line upgrade ∷ []))

-- `rewrite_http_forward_header`.
unfoldable pub rewrite_http_forward_header : Bytes → Bytes → Bytes → Bytes → Bytes
unfolding as_bytes forward_lines space
rewrite_http_forward_header header method path authority =
    let ls = split_crlf (trim_end_matches blank_line header) in
    let version = unwrap_or (get_elem? (split_whitespace ls.0) 2) (as_bytes "HTTP/1.1") in
    join_crlf (method ++ (space ++ (path ++ (space ++ version))))
      (forward_lines (http_is_upgrade header) authority ls.1)
    ++ blank_line

-- The methods that a proxied request can begin with.
unfoldable pub methods : List Bytes
unfolding as_bytes
methods =
    as_bytes "CONNECT "
    ∷ as_bytes "GET "
    ∷ as_bytes "POST "
    ∷ as_bytes "HEAD "
    ∷ as_bytes "PUT "
    ∷ as_bytes "DELETE "
    ∷ as_bytes "OPTIONS "
    ∷ as_bytes "PATCH "
    ∷ as_bytes "TRACE "
    ∷ []

-- `looks_like_http_proxy_request`.
unfoldable pub looks_like_http_proxy_request : Bytes → Bool
unfolding methods to_uppercase
looks_like_http_proxy_request bytes =
    any (λ method. starts_with method (to_uppercase (take 16 bytes))) methods

unfoldable pub is_sniffed : Bytes → Bool
is_sniffed prefix =
    nat_beq (unwrap_or (get_elem? prefix 0) 0) 5 || looks_like_http_proxy_request prefix

sniff_from : Bytes → Bytes → Option (Bytes × Bytes)
unfolding is_sniffed methods
sniff_from prefix [] = none
sniff_from prefix (c ∷ s) =
    let longer = prefix ++ (c ∷ []) in
    let rest = sniff_from longer s in
    if is_sniffed longer
    then some (longer, s)
    else if any (λ method. starts_with longer method) methods
    then rest
    else none

-- `sniff_protocol`: what has been read when the protocol is known, and what is still to come.
unfoldable pub sniff_protocol : Bytes → Option (Bytes × Bytes)
unfolding sniff_from
sniff_protocol = sniff_from []
