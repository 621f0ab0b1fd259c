-- ===== src/Http/Examples.antt =====
-- Requests and responses with concrete bytes: a user `u` with the password `pw`, and the target
-- `a.io`. In place of Base64 there is a simpler code.
use proxy_load.Base.{
  ◌/◌, ◌%◌, ◌*◌, ◌-◌, ℕ, ap, suc, length, ◌≡◌, ◌+◌, refl, true, false, none, some, Option, List, [],
  ◌∷◌, ◌++◌, map, arith, any, zero, nat_beq, ◌∙◌,
}
use proxy_load.Models.{Bytes, ProxyRecord}
use proxy_load.Host.{is_space, unplain}
use proxy_load.Candidate.{TargetRequest, http_connect}
use proxy_load.Runtime.{InboundAuth}
use proxy_load.Samples.{node}
use proxy_load.Text.{decimal, as_bytes, is_utf8, parse_ipv4, contains}
use proxy_load.Text.Lines.{join_crlf, starts_with}
use proxy_load.Wire.Address.{address_type, starts_bracketed}
use proxy_load.Http.Observer.{observe, with_counters}
use proxy_load.Http.Observer.Sent.{IsValid, observe-append, observe-IsValid}
use proxy_load.Http.Header.{split_http_header, read_http_request_header, sniff_protocol}
use proxy_load.Http.Header.Whole.{HasHeader, read_http_request_header-HasHeader}
use proxy_load.Http.Header.Sniff.{Sniffed, sniff_protocol-Sniffed}
use proxy_load.Http.Upstream.{connect_request, credentials_of, credentials_line}
use proxy_load.Http.Request.{handle_http_proxy_header}
use proxy_load.Http.Request.Connect.{IsInverse}
use proxy_load.Http.Request.Handled.{Serves, tunnel_request_served}

abbrev head : Bytes
head = b'G' ∷ b' ' ∷ b'/' ∷ 13 ∷ 10 ∷ 13 ∷ 10 ∷ []

head-cut : split_http_header head ≡ some (head, [])
unfolding split_http_header starts_with
head-cut = refl

head_valid : is_utf8 head ≡ true
unfolding is_utf8
head_valid = refl

-- Two bytes are buffered, the rest comes in pieces of three, and two bytes follow.
read_http_request_header-HasHeader_example : HasHeader head (1 ∷ 2 ∷ []) (
    read_http_request_header
      (2 ∷ 2 ∷ 2 ∷ 2 ∷ 2 ∷ [])
      (b'G' ∷ b' ' ∷ [])
      (b'/' ∷ 13 ∷ 10 ∷ 13 ∷ 10 ∷ 1 ∷ 2 ∷ []))
read_http_request_header-HasHeader_example =
    read_http_request_header-HasHeader (2 ∷ 2 ∷ 2 ∷ 2 ∷ 2 ∷ []) (b'G' ∷ b' ' ∷ [])
      (b'/' ∷ 13 ∷ 10 ∷ 13 ∷ 10 ∷ 1 ∷ 2 ∷ []) head (1 ∷ 2 ∷ []) head-cut head_valid (omega arith)
      refl (omega arith)

abbrev response : Bytes
response = b'H' ∷ b'T' ∷ 13 ∷ 10 ∷ 13 ∷ 10 ∷ []

fresh-IsValid : IsValid (with_counters true 0 0)
unfolding with_counters
fresh-IsValid = record {
  kept = omega arith;
  bounded = omega arith;
  final = λ status e. absurd (ground (arith, e));
}

observe-IsValid_example : IsValid (observe response (with_counters true 0 0))
observe-IsValid_example = observe-IsValid response (with_counters true 0 0) fresh-IsValid

observe-append_example :
    observe (response ++ head) (with_counters true 0 0)
    ≡ observe head (observe response (with_counters true 0 0))
observe-append_example = observe-append response head (with_counters true 0 0)

-- A client that sends credentials for the proxy and another host.
abbrev sent_lines : List Bytes
sent_lines = as_bytes "Proxy-Authorization: x" ∷ as_bytes "HOST: b" ∷ as_bytes "A: 1" ∷ []

sniff_protocol-Sniffed_example :
    Sniffed (as_bytes "CONNECT a:1") (sniff_protocol (as_bytes "CONNECT a:1"))
sniff_protocol-Sniffed_example = sniff_protocol-Sniffed (as_bytes "CONNECT a:1")

-- A code that is one word of ASCII: a letter, and for each byte as many letters `a` as it has times
-- 64, and one more character for the rest.
repeated : ℕ → Bytes → Bytes
repeated zero s = s
repeated (suc n) s = b'a' ∷ repeated n s

counts : Bytes → Bytes
unfolding repeated
counts [] = []
counts (c ∷ s) = repeated (c / 64) ((c % 64 + 33) ∷ counts s)

uncount : ℕ → Bytes → Bytes
uncount n [] = []
uncount n (x ∷ s) = elim (nat_beq x b'a') [
  | true ↦ uncount (suc n) s
  | false ↦ (n * 64 + (x - 33)) ∷ uncount 0 s
]

encode : Bytes → Bytes
unfolding counts
encode text = b'x' ∷ counts text

decode : Bytes → Option Bytes
unfolding uncount
decode [] = none
decode (x ∷ code) = some (uncount 0 code)

uncount-repeated :
    (n k x : ℕ) (s : Bytes)
    → nat_beq x b'a' ≡ false
    → uncount n (repeated k (x ∷ s)) ≡ ((n + k) * 64 + (x - 33)) ∷ uncount 0 s
unfolding uncount repeated
uncount-repeated n zero x s h = rw (h, uncount) (ap (λ y. y ∷ uncount 0 s) (omega arith))
uncount-repeated n (suc k) x s h =
    uncount-repeated (suc n) k x s h ∙ ap (λ y. y ∷ uncount 0 s) (omega arith)

undone : (text : Bytes) → uncount 0 (counts text) ≡ text
unfolding counts
undone [] = unfold uncount in refl
undone (c ∷ s) =
    uncount-repeated 0 (c / 64) (c % 64 + 33) (counts s) (ground arith)
    ∙ ap (λ y. y ∷ uncount 0 (counts s)) (omega arith)
    ∙ ap (λ t. c ∷ t) (undone s)

moved_by : (n : ℕ) (s : Bytes) → any unplain s ≡ false → any unplain (repeated n s) ≡ false
unfolding repeated unplain is_space
moved_by zero s h = h
moved_by (suc n) s h = moved_by n s h

moved : (text : Bytes) → any unplain (counts text) ≡ false
unfolding counts unplain is_space
moved [] = refl
moved (c ∷ s) = moved_by (c / 64) ((c % 64 + 33) ∷ counts s) (ground (arith, moved s))

encode-IsInverse : IsInverse encode decode
unfolding encode decode is_space unplain
encode-IsInverse text full = (ap some (undone text), refl, moved text)

abbrev auth : InboundAuth
auth = record { enabled = true; username = "u"; password = "pw" }

abbrev behind : ProxyRecord
behind = record (node 1) { username = some (b'u' ∷ []); password = some (b'p' ∷ b'w' ∷ []) }

abbrev host : Bytes
host = b'a' ∷ b'.' ∷ b'i' ∷ b'o' ∷ []

abbrev request : TargetRequest
request = record {
  host = host;
  port = 443;
  address_type = 3;
  original_host = host;
  inbound = http_connect;
  initial_payload = [];
}

host_typed : address_type host ≡ some 3
unfolding address_type parse_ipv4 contains
host_typed = refl

sent : Bytes
unfolding encode
sent = connect_request encode behind request

sent_valid : is_utf8 sent ≡ true
unfolding sent is_utf8 connect_request credentials_of credentials_line as_bytes decimal join_crlf
    encode
sent_valid = refl

sent_size : length sent ≡ 82
unfolding sent connect_request credentials_of credentials_line as_bytes decimal join_crlf encode
sent_size = refl

singly : Bytes → List ℕ
singly = map λ _. 0

length-singly : (s : Bytes) → length (singly s) ≡ length s
unfolding singly
length-singly [] = refl
length-singly (c ∷ s) = ap suc (length-singly s)

tunnel_request_served_example :
    Serves decode
      (λ _. none)
      encode
      host
      443
      3
      (9 ∷ [])
      (handle_http_proxy_header decode (λ _. none) auth (singly sent) [] (sent ++ (9 ∷ [])))
unfolding as_bytes is_space unplain contains starts_bracketed sent
tunnel_request_served_example =
    tunnel_request_served decode (λ _. none) encode auth behind request 3 (singly sent) []
      (sent ++ (9 ∷ [])) (9 ∷ []) encode-IsInverse
      (refl, refl, omega arith, omega arith, omega arith) (refl, refl, refl, refl) (omega arith)
      (omega arith) host_typed sent_valid (omega (arith, sent_size)) refl
      (omega (arith, length-singly sent))
