-- ===== src/Sticky/Examples.antt =====
-- Bindings at a concrete failover from proxy 1 to proxy 2.
use proxy_load.Base.{◌≤◌, [], ◌∷◌, arith, length}
use proxy_load.Routing.Snapshot.{RoutingSnapshot, default}
use proxy_load.Sticky.{key_eq, Policy, max_bindings, prefer, remember}
use proxy_load.Sticky.Bounds.{sticky-length}

abbrev failover : Policy
failover = record {
  key = record { pool = 0; host = 97 ∷ []; resolved = 97 ∷ []; port = 443 };
  revision = 1;
  ttl_ms = 60000;
  preferred = 1;
}

abbrev both : RoutingSnapshot
both = record default { node_generations = (1, 1) ∷ (2, 1) ∷ [] }

sticky-length_example :
    (length (prefer 1000 failover both [] []).0 ≤ max_bindings)
    × (length (remember 1000 failover both 2 1 []) ≤ max_bindings)
sticky-length_example = sticky-length 1000 failover both [] 2 1 [] (omega arith)
