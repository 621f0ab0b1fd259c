-- ===== src/Http.antt =====
-- src-tauri/src/proxy.rs: the HTTP side of the proxy, as requests come from clients and go to
-- proxies. Base64 and the parser `url::Url::parse` are parameters.
pub mod Observer
pub mod Header
pub mod Request
pub mod Upstream
mod Examples
use proxy_load.Base.{ℕ, Bool, true, false, Option, none, some, [], ◌∷◌, ◌++◌}
use proxy_load.Models.{Bytes}
