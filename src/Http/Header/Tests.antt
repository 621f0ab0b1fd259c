-- ===== src/Http/Header/Tests.antt =====
-- Runs of the functions on headers.
use proxy_load.Base.{◌≡◌, refl, none, some}
use proxy_load.Text.{as_bytes}
use proxy_load.Text.Lines.{starts_with}
use proxy_load.Http.Header.{starts_with, looks_like_http_proxy_request, sniff_protocol}

sniffs_put :
    sniff_protocol (as_bytes "PUT / HTTP/1.1") ≡ some (as_bytes "PUT ", as_bytes "/ HTTP/1.1")
unfolding sniff_protocol as_bytes looks_like_http_proxy_request starts_with
sniffs_put = refl

sniffs_no_lower_case : sniff_protocol (as_bytes "put / HTTP/1.1") ≡ none
unfolding sniff_protocol as_bytes looks_like_http_proxy_request starts_with
sniffs_no_lower_case = refl
