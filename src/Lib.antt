-- ===== src/Lib.antt =====
-- proxy-load is a local proxy server that spreads connections over upstream proxies. For a request
-- it chooses a routing pool by the host name, drops the pool's proxies that are not ready or whose
-- circuit breakers are open, orders the others by the pool's algorithm, reserves one of them and
-- connects through it. What comes of the attempt goes into the proxy's metrics, its breaker, the
-- breaker of the route, the quality of the target and the sticky bindings, and so into the next
-- choice. This library models these decisions; sockets, the database and the user interface are
-- outside it.
--
-- The parts and their files (paths from the repository's root):
--
-- Base, Models, Host: helpers; the records of src-tauri/src/models.rs and
-- src-tauri/src/routing.rs; `normalize_host` and `normalize_rule`.
--
-- Routing: src-tauri/src/routing.rs. `build` is `RoutingIndex::build`, `pool_index` the indexed
-- search, `linear_pool` the search over all rules; Routing.Snapshot has `RoutingSnapshot::new`,
-- which may keep the previous index, and `RouteContext::new`.
--
-- Breaker: `CircuitBreaker` of src-tauri/src/proxy.rs, a state machine on closed, opened and half
-- open. Metrics: `ProxyMetrics` of the same file. Quality: src-tauri/src/proxy/target_quality.rs.
-- Sticky: src-tauri/src/proxy/sticky_routes.rs. Health: src-tauri/src/probe_health.rs and the
-- diagnostics of src-tauri/src/proxy/failure.rs. Settings: src-tauri/src/proxy/limits.rs and
-- `RuntimeSettings`.
--
-- Candidate, Runtime, Selection: src-tauri/src/proxy.rs. `Runtime` is the state that
-- `ProxyRuntime` keeps behind its locks; the functions of Runtime are the methods that record an
-- outcome. Selection.Choose is `select_from_context`, Selection.Order is `order_proxies_in_pool`,
-- Selection.Reserve is `try_reserve_proxy` and the end of a lease. Samples has concrete data, and
-- each Examples module tries the theorems of its part.
--
-- How the code is read. The selection lock and the status locks make each handler one step on the
-- state; the clock is an argument, read once per operation. Numbers that the code keeps from being
-- negative are natural numbers; a saturating sum stops at the largest 64-bit value and a counter
-- that wraps is taken modulo 2^64. A counter of failures that would pass 2^63 is not considered. A
-- hash map is an association list whose order stands for the order of iteration, and a set of
-- members is its increasing list. Free text is the list of its bytes in UTF-8, of which trimming
-- knows the white space of Unicode and the changes of case the letters of ASCII, although the code
-- applies `str::to_uppercase`, which knows others too, to the method of a request; words that the
-- code compares with literals are strings. A weak pointer to a lease's token is a number, and
-- `live` has the numbers of the leases that exist.
--
-- Parameters: `Float` for floating-point arithmetic, of which nothing is assumed; `parse_host` for
-- `url::Host::parse`; `affinity` for the rendezvous hash; `is_ready` for `probe_is_ready` of the
-- database; `encode` and `decode` for Base64, of which it is assumed where needed that a code is
-- one word and is decoded to its text; `parse_url` for `url::Url::parse`.
--
-- Connect: `connect_with_fail_fast` and `reserve_proxy` of src-tauri/src/proxy.rs. What the clock,
-- the network and the other threads do comes as a list of rounds, one for each turn of the loop,
-- and within a round a list of the moments at which the reservation is tried; a theorem holds for
-- every such list. Each call of `connect_through_proxy` is noted in `dials`, which no step reads
-- and on which the theorems about attempts are stated. A message of an error is left out, and the
-- number of them is kept.
--
-- Text: the functions of Rust's standard library on texts that the formats use: UTF-8, numbers,
-- IPv4 addresses, lines and words.
--
-- Wire: the SOCKS side of src-tauri/src/proxy.rs. Wire.Step is the monad in which the handshakes
-- are written: a step gives a value or ends the connection. `Client` is the connection to a
-- client, whose bytes the reads cut into pieces; Wire.Socks is `handle_socks5_handshake`,
-- Wire.Address the addresses in requests, Wire.Deliver what the client is told. `Link` in
-- Wire.Dial is the connection to a proxy with the scope of a failure; `connect_socks5` and
-- `connect_socks4` run on it. Writes succeed; one that failed would end the connection as a read
-- does.
--
-- Http: the HTTP side of the same file. Http.Header reads, sniffs and rewrites headers,
-- Http.Request is `parse_http_proxy_request` and `http_proxy_authorized`, Http.Upstream the
-- requests to proxies. Http.Observer: src-tauri/src/proxy/http_observer.rs.
--
-- Worker, Worker.Writer: src-tauri/src/database_worker.rs, and the functions of
-- src-tauri/src/database.rs that it calls. A section that holds the lock of the queue is one step,
-- and so are the writes of the thread between two of them; `run` takes any sequence of steps of
-- the thread, calls of the other threads and changes of the routing. SQLite's answers come with
-- the steps. The number of a `ClearRequest` stands for its channel and its flag. The 64-bit
-- counters of the queue are taken not to overflow. The notices to the user interface and the
-- thread's sleep after an error are left out.
--
-- Fuel: the loop of `try_reserve_proxy` runs on fuel; each turn makes one more member unavailable,
-- so one turn more than there are members is enough, which is proved, and Connect gives that many.
-- The loops of Connect, Wire, Http and Worker go along their lists. A port is printed with at most
-- five digits and a length with at most twenty.
--
-- Not modelled: the texts of errors; `handle_client`, which puts the parts together;
-- `connect_through_proxy`, whose outcome is part of a round in Connect; the probes
-- (src-tauri/src/proxy_tester.rs and src-tauri/src/proxy/probe_*.rs), which are network input and
-- output; the rest of the database, the application's state and commands, the updates, the
-- telemetry and the user interface.
pub mod Base
pub mod Models
pub mod Routing
pub mod Breaker
pub mod Metrics
pub mod Host
pub mod Candidate
pub mod Sticky
pub mod Quality
pub mod Runtime
pub mod Selection
pub mod Health
pub mod Settings
pub mod Connect
pub mod Text
pub mod Wire
pub mod Http
pub mod Worker
pub mod Samples
