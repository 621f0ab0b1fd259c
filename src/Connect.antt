-- ===== src/Connect.antt =====
-- src-tauri/src/proxy.rs: `connect_with_fail_fast` and `reserve_proxy`. What the clock, the network
-- and the other threads do is given as a list of rounds; times are in milliseconds since the start,
-- latencies in microseconds. The messages of errors are left out, and their number is kept.
pub mod Rounds
pub mod Attempts
pub mod Permits
mod Examples
use proxy_load.Base.{
  ℕ, zero, suc, ◌+◌, ◌-◌, Bool, true, false, not, ◌&&◌, ◌||◌, Option, none, some, List, [], ◌∷◌,
  if◌then◌else◌, leb, ltb, nat_beq, nat_eq, any, length, is_some_and, is_none_or, is_empty, str_eq,
  list_beq, list_eq,
}
use proxy_load.Base.Float.{Float}
use proxy_load.Base.Map.{Map, get}
use proxy_load.Models.{Bytes, ProxyRecord}
use proxy_load.Routing.Snapshot.{RoutingSnapshot}
use proxy_load.Routing.Snapshot
use proxy_load.Candidate.{TargetRequest}
use proxy_load.Quality.{is_off}
use proxy_load.Quality
use proxy_load.Runtime.{
  Runtime, Lease, FailureScope, FailFastConfig, proxy, target, local_route, owns_current_attempt,
  record_route_failure_locked, record_verified_connection_locked,
}
use proxy_load.Selection.{quality_key}
use proxy_load.Selection.Choose.{SelectError}
use proxy_load.Selection.Reserve.{
  Reserved, leased, nothing, refused, out_of_fuel, route_context, try_reserve_proxy,
  release_permits, drop_lease,
}

-- What comes before a try to reserve: the others' work, and the generations and the time then.
pub record Wake (F : Type 0) : Type 0 where
  pub others : Runtime F → Runtime F
  pub latest : Map ℕ ℕ
  pub now : ℕ

-- How the attempt through a proxy ends. A failure's scope is that of `connect_through_proxy`, or
-- `local_route` for an error of the local network; a connection tells whether the target has
-- answered, and its latency.
pub data Outcome : Type 0 where
  connected : Bool → ℕ → Outcome
  failed : FailureScope → Outcome

-- One turn of the loop: the time at its start, the tries to reserve, the time then, the attempt,
-- what the others do meanwhile, the routing that is published then, and the clock.
pub record Round (F : Type 0) : Type 0 where
  pub elapsed : ℕ
  pub wakes : List (Wake F)
  pub reserved : ℕ
  pub outcome : Outcome
  pub attempt_us : ℕ
  pub meanwhile : Runtime F → Runtime F
  pub configured : RoutingSnapshot
  pub now : ℕ

-- A call of `connect_through_proxy`: the proxy, and whether its outcome was used, that is, whether
-- the attempt was still current and its proxy's configuration as before when it ended.
pub record Dial : Type 0 where
  pub proxy : ℕ
  pub used : Bool

-- The variables of the loop, and the calls of `connect_through_proxy` so far, the last one first,
-- which no step of the loop reads.
pub record Progress : Type 0 where
  pub attempted : ℕ
  pub excluded : List ℕ
  pub errors : ℕ
  pub dials : List Dial

pub data Ended : Type 0 where
  established : Lease → Ended
  total_timeout wait_timeout all_open all_failed out_of_rounds : Ended
  not_selected : SelectError → Ended

same_text : Option Bytes → Option Bytes → Bool
same_text none none = true
same_text none (some b) = false
same_text (some a) none = false
same_text (some a) (some b) = list_beq a b

-- `same_routing_configuration`.
unfoldable pub same_routing_configuration : ProxyRecord → ProxyRecord → Bool
unfolding same_text
same_routing_configuration left right =
    str_eq left.proxy_type right.proxy_type
    && (list_beq left.host right.host
        && (nat_beq left.port right.port
            && (same_text left.username right.username
                && (same_text left.password right.password && nat_beq left.enabled right.enabled))))

-- `proxy_configuration_is_current`.
unfoldable pub proxy_configuration_is_current : RoutingSnapshot → ProxyRecord → Bool
proxy_configuration_is_current configured p =
    is_some_and (Snapshot.proxy configured p.id) (same_routing_configuration p)

-- What a wait for a lease comes to; it can be longer than the time that is left.
pub data Waited : Type 0 where
  waited : Reserved → Waited
  late : Waited

-- How a turn of the loop ends.
pub data Next (F : Type 0) : Type 0 where
  finish : Runtime F → Progress → Ended → Next F
  proceed : Runtime F → Progress → Next F

start : Progress
start = record { attempted = 0; excluded = []; errors = 0; dials = [] }

-- `connect_through_proxy` is called.
unfoldable pub note_dial : ℕ → Bool → Progress → Progress
note_dial id used progress = record progress {
  dials = record { proxy = id; used = used } ∷ progress.dials;
}

unfoldable pub exclude : ℕ → Progress → Progress
exclude id progress = record progress { excluded = id ∷ progress.excluded }

unfoldable pub count_attempt : Progress → Progress
count_attempt progress = record progress { attempted = progress.attempted + 1 }

unfoldable pub uncount_attempt : Progress → Progress
uncount_attempt progress = record progress {
  attempted = progress.attempted - 1;
  errors = progress.errors + 1;
}

unfoldable pub count_error : Progress → Progress
count_error progress = record progress { errors = progress.errors + 1 }

end_of : Progress → Ended
end_of progress =
    if nat_beq progress.attempted 0 && nat_beq progress.errors 0 then all_open else all_failed

module _ (fl : Float) (parse_host : Bytes → Option Bytes) (affinity : ℕ → Bytes → ℕ → ℕ)
    (is_ready : ProxyRecord → Option ℕ → Bool) where
  open fl use {F}

  take_global : Runtime F → Runtime F
  take_global rt = record rt { global_dials = rt.global_dials - 1 }

  wait_on : Runtime F × Waited → Runtime F × Reserved → Runtime F × Waited
  wait_on again (rt, leased lease) = (rt, waited (leased lease))
  wait_on again (rt, nothing full) = if full then again else (rt, waited (nothing full))
  wait_on again (rt, refused e) = (rt, waited (refused e))
  wait_on again (rt, out_of_fuel) = (rt, waited out_of_fuel)

  -- `try_reserve_proxy` with the fuel that it needs, after the global permit has been taken.
  try_with_permit : ℕ → TargetRequest → Map ℕ ℕ → List ℕ → Runtime F → Runtime F × Reserved
  unfolding take_global
  try_with_permit now request latest excluded rt =
      try_reserve_proxy fl parse_host affinity is_ready
        (suc (length (route_context fl parse_host affinity is_ready request rt).members)) now
        request latest excluded (take_global rt)

  -- `reserve_proxy`.
  unfoldable pub reserve_proxy :
      TargetRequest → List ℕ → List (Wake F) → Runtime F → Runtime F × Waited
  unfolding try_with_permit wait_on
  reserve_proxy request excluded [] rt = (rt, late)
  reserve_proxy request excluded (wake ∷ wakes) rt =
      let found = wake.others rt in
      let tried = try_with_permit wake.now request wake.latest excluded found in
      let unserved = reserve_proxy request excluded wakes found in
      if nat_beq found.global_dials 0
      then unserved
      else wait_on (reserve_proxy request excluded wakes tried.0) tried

  -- `record_target_quality`.
  record_target_quality : ℕ → Lease → TargetRequest → Bool → Option ℕ → Runtime F → Runtime F
  record_target_quality now lease request success latency rt =
      if is_off rt.settings.target_quality_mode
      then rt
      else elim (quality_key fl parse_host lease.proxy lease.generation request) [
        | none ↦ rt
        | some key ↦ record rt {
          quality = Quality.record_sample fl key success latency now rt.quality;
        }
      ]

  undialing : Lease → Lease
  undialing lease = record lease { dialing = false }

  -- A connection that the target has answered.
  verified : ℕ → ℕ → Lease → TargetRequest → Bool → ℕ → Runtime F → Runtime F
  unfolding record_target_quality
  verified now attempt_us lease request answered latency rt =
      if answered
      then record_verified_connection_locked fl parse_host now lease request latency
          (record_target_quality now lease request true (some (attempt_us - latency)) rt)
      else rt

  penalize : ℕ → Lease → TargetRequest → FailureScope → Runtime F → Runtime F
  unfolding record_target_quality
  penalize now lease request proxy rt =
      record_route_failure_locked fl parse_host now lease.proxy.id request proxy rt
  penalize now lease request target rt =
      record_route_failure_locked fl parse_host now lease.proxy.id request target
        (record_target_quality now lease request false none rt)
  penalize now lease request local_route rt = rt

  -- What follows from the outcome of an attempt that still counts.
  conclude : Round F → Lease → TargetRequest → Progress → Outcome → Runtime F → Next F
  unfolding undialing verified penalize
  conclude round lease request progress (connected answered latency) rt =
      finish
        (verified round.now round.attempt_us (undialing lease) request answered latency
          (release_permits lease rt))
        progress (established (undialing lease))
  conclude round lease request progress (failed scope) rt =
      proceed (drop_lease lease (penalize round.now lease request scope rt)) (count_error progress)

  -- The attempt through a leased proxy; `progress` already excludes it.
  attempt : ℕ → Round F → TargetRequest → Progress → Lease → Runtime F → Next F
  unfolding conclude
  attempt total round request progress lease rt =
      let after = round.meanwhile rt in
      if leb total round.reserved
      then finish (drop_lease lease rt) progress total_timeout
      else if not (proxy_configuration_is_current round.configured lease.proxy)
          || not (owns_current_attempt fl parse_host lease request after)
      then proceed (drop_lease lease after)
          (uncount_attempt (count_attempt (note_dial lease.proxy.id false progress)))
      else conclude round lease request (count_attempt (note_dial lease.proxy.id true progress))
          round.outcome after

  after_wait : ℕ → Round F → TargetRequest → Progress → Runtime F × Waited → Next F
  unfolding attempt
  after_wait total round request progress (rt, late) = finish rt progress wait_timeout
  after_wait total round request progress (rt, waited (leased lease)) =
      attempt total round request (exclude lease.proxy.id progress) lease rt
  after_wait total round request progress (rt, waited (nothing full)) =
      finish rt progress (end_of progress)
  after_wait total round request progress (rt, waited (refused e)) =
      finish rt progress (not_selected e)
  after_wait total round request progress (rt, waited out_of_fuel) =
      finish rt progress out_of_rounds

  pub connect_round : FailFastConfig → Round F → TargetRequest → Progress → Runtime F → Next F
  unfolding after_wait reserve_proxy end_of
  connect_round config round request progress rt =
      if config.enabled && leb config.max_attempts progress.attempted
      then finish rt progress (end_of progress)
      else if leb config.total_timeout_ms round.elapsed
      then finish rt progress total_timeout
      else after_wait config.total_timeout_ms round request progress
          (reserve_proxy request progress.excluded round.wakes rt)

  -- The loop of `connect_with_fail_fast`.
  unfoldable pub connect_loop :
      FailFastConfig
      → TargetRequest
      → List (Round F)
      → Progress
      → Runtime F
      → Runtime F × (Progress × Ended)
  unfolding connect_round
  connect_loop config request [] progress rt = (rt, (progress, out_of_rounds))
  connect_loop config request (round ∷ rounds) progress rt =
      elim (connect_round config round request progress rt) [
        | finish rt' progress' ended ↦ (rt', (progress', ended))
        | proceed rt' progress' ↦ connect_loop config request rounds progress' rt'
      ]

  -- `connect_with_fail_fast`; the configuration is read once.
  unfoldable pub connect_with_fail_fast :
      TargetRequest → List (Round F) → Runtime F → Runtime F × (Progress × Ended)
  unfolding connect_loop start
  connect_with_fail_fast request rounds rt =
      connect_loop rt.settings.fail_fast request rounds start rt
