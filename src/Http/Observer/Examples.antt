-- ===== src/Http/Observer/Examples.antt =====
-- Observing concrete responses.
use proxy_load.Base.{◌≡◌, refl, true, some, ◌++◌}
use proxy_load.Text.{as_bytes, is_utf8, split_whitespace, parse_u16}
use proxy_load.Text.Lines.{crlf, ends_with, lines}
use proxy_load.Http.Observer.{with_counters, observe, observe_byte, status_of}

-- An interim response, then the final one.
continued :
    (observe
      (as_bytes "HTTP/1.1 100 Continue"
        ++ (crlf ++ (crlf ++ (as_bytes "HTTP/1.1 204 No Content" ++ (crlf ++ crlf)))))
      (with_counters true 0 0)).sent
    ≡ some 204
unfolding observe as_bytes with_counters observe_byte ends_with status_of is_utf8 lines
    split_whitespace parse_u16
continued = refl
