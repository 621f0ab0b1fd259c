-- ===== src/Http/Header/Forward.antt =====
-- src-tauri/src/proxy.rs: which lines `rewrite_http_forward_header` passes on.
use proxy_load.Base.{List, keep}
use proxy_load.Models.{Bytes}
use proxy_load.Http.Header.{is_named}

-- The lines of a name.
abbrev pub named : Bytes → List Bytes → List Bytes
named name = keep (is_named name)
