-- ===== src/Metrics/Examples.antt =====
-- The metrics of a proxy at a concrete run of samples.
use proxy_load.Base.{◌≤◌, ◌<◌, ◌^◌, true, false, none, some, List, [], ◌∷◌, length}
use proxy_load.Metrics.{new, max_metric_samples}
use proxy_load.Metrics.Accounting.{Event, pushes, prunes, run, run-in_range}
use proxy_load.Samples.{numbers}

abbrev events : List (Event numbers)
events = pushes 10 true (some 100000000000) ∷ pushes 20 false none ∷ prunes 99999999 ∷ []

run-in_range_example :
    ((run numbers events (new numbers 0)).time_sum < 2 ^ 64)
    × (length (run numbers events (new numbers 0)).requests ≤ max_metric_samples)
    × ((run numbers events (new numbers 0)).successes
        ≤ length (run numbers events (new numbers 0)).requests)
    × ((run numbers events (new numbers 0)).time_count
        ≤ length (run numbers events (new numbers 0)).requests)
run-in_range_example = run-in_range numbers 0 events
