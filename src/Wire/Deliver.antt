-- ===== src/Wire/Deliver.antt =====
-- src-tauri/src/proxy.rs: what the client is told once the target is connected or is not.
use proxy_load.Base.{Option, [], ◌∷◌, ◌++◌, length, unwrap_or}
use proxy_load.Models.{Bytes}
use proxy_load.Candidate.{TargetRequest, InboundProtocol, socks5, http_connect, http_forward}
use proxy_load.Text.{as_bytes, print_digits}
use proxy_load.Text.Lines.{crlf}

-- What is written to the client and to the proxy.
pub record Delivered : Type 0 where
  pub to_client : Bytes
  pub to_upstream : Bytes

-- The reply of SOCKS5 to a request that was connected.
abbrev pub success_reply : Bytes
success_reply = 5 ∷ 0 ∷ 0 ∷ 1 ∷ 0 ∷ 0 ∷ 0 ∷ 0 ∷ 0 ∷ 0 ∷ []

greet : InboundProtocol → Bytes
unfolding as_bytes
greet socks5 = success_reply
greet http_connect = as_bytes "HTTP/1.1 200 Connection Established" ++ (13 ∷ 10 ∷ 13 ∷ 10 ∷ [])
greet http_forward = []

hand_over : InboundProtocol → Option Bytes → Bytes → Bytes
hand_over socks5 payload initial = initial
hand_over http_connect payload initial = initial
hand_over http_forward payload initial = unwrap_or payload initial

-- `complete_client_handshake`: the payload that was made for the proxy, if any, and what the proxy
-- has already sent of the response.
unfoldable pub complete_client_handshake : TargetRequest → Option Bytes → Bytes → Delivered
unfolding greet hand_over
complete_client_handshake request outbound prefetched = record {
  to_client = greet request.inbound ++ prefetched;
  to_upstream = hand_over request.inbound outbound request.initial_payload;
}

bad_gateway : Bytes → Bytes
unfolding as_bytes print_digits
bad_gateway body =
    as_bytes "HTTP/1.1 502 Bad Gateway"
    ++ (crlf
        ++ (as_bytes "Connection: close"
            ++ (crlf
                ++ (as_bytes "Content-Type: text/plain; charset=utf-8"
                    ++ (crlf
                        ++ (as_bytes "Content-Length: "
                            ++ (print_digits 20 (length body) [] ++ (crlf ++ (crlf ++ body)))))))))

-- `send_inbound_error`; a length is printed with at most twenty digits.
refusal : InboundProtocol → Bytes → Bytes
unfolding bad_gateway as_bytes
refusal socks5 message = 5 ∷ 4 ∷ 0 ∷ 1 ∷ 0 ∷ 0 ∷ 0 ∷ 0 ∷ 0 ∷ 0 ∷ []
refusal http_connect message =
    bad_gateway (as_bytes "502 Bad Gateway" ++ (10 ∷ (message ++ (10 ∷ []))))
refusal http_forward message =
    bad_gateway (as_bytes "502 Bad Gateway" ++ (10 ∷ (message ++ (10 ∷ []))))

unfoldable pub send_inbound_error : TargetRequest → Bytes → Bytes
unfolding refusal
send_inbound_error request message = refusal request.inbound message
