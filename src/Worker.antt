-- ===== src/Worker.antt =====
-- src-tauri/src/database_worker.rs: the queue of logs and status changes. Each section of the code
-- that holds the lock is one operation. Times are in milliseconds.
pub mod Writer
mod Examples
use proxy_load.Base.{
  ℕ, zero, suc, ◌+◌, ◌-◌, ◌%◌, ◌^◌, Bool, true, false, not, ◌&&◌, ◌||◌, Option, none, some, List,
  [], ◌∷◌, ◌++◌, if◌then◌else◌, leb, ltb, nat_beq, nat_eq, any, keep, is_some, is_some_and,
  unwrap_or, length, is_empty, take, drop, position, remove_at, max, min, String, str_eq, map,
}
use proxy_load.Base.Map.{Map, get, insert, remove, retain}
use proxy_load.Models.{Bytes, ProxyRecord}

abbrev pub capacity : ℕ
capacity = 2048

abbrev pub failure_reserve : ℕ
failure_reserve = 256

abbrev pub batch_size : ℕ
batch_size = 128

pub record OwnedLog : Type 0 where
  pub proxy_id : Option ℕ
  pub host : Bytes
  pub port : ℕ
  pub success : Bool
  pub time : Option ℕ
  pub error : Option Bytes
  pub kind : String

unfoldable pub important : OwnedLog → Bool
important log =
    if str_eq log.kind "forwarded_unverified"
      || (str_eq log.kind "tunnel_established" || str_eq log.kind "transfer_finished")
    then false
    else if str_eq log.kind "proxy_exhausted"
        || (str_eq log.kind "tunnel_setup_error" || str_eq log.kind "transfer_error")
    then true
    else not log.success

pub record StatusChange : Type 0 where
  pub proxy : ProxyRecord
  pub generation : ℕ
  pub revision : ℕ
  pub status : String
  pub time : Option ℕ

-- `ClearRequest`; the ticket stands for its channel and its flag.
pub record ClearRequest : Type 0 where
  pub remaining : ℕ
  pub ticket : ℕ

-- `Queue`; `enqueued` are the times at which the jobs came.
pub record Queue : Type 0 where
  pub jobs : List OwnedLog
  pub statuses : Map ℕ StatusChange
  pub clear : Option ClearRequest
  pub enqueued : List ℕ
  pub stopped : Bool
  pub working : Bool
  pub dropped_logs : ℕ
  pub dropped_status : ℕ
  pub coalesced_status : ℕ
  pub retried_status : ℕ
  pub errors : ℕ
  pub written : ℕ
  pub max_wait_ms : ℕ
  pub max_queue_wait_ms : ℕ
  pub peak_queue_length : ℕ

-- What the writer reads and writes of the database.
pub record Store : Type 0 where
  pub generations : Map ℕ ℕ
  pub revisions : Map ℕ ℕ
  pub rows : Map ℕ (String × Option ℕ)
  pub logs : List OwnedLog

-- Where the thread is: at the top of its loop, in the pause that gathers a burst, before and after
-- it has written a batch or cleared the logs, or at its end.
pub data Flight : Type 0 where
  looping gathering exited : Flight
  writing : ℕ → List OwnedLog → List StatusChange → Flight
  wrote : ℕ → List OwnedLog → List StatusChange → ℕ → ℕ → Flight
  clearing : ClearRequest → Flight
  cleared : Flight

-- The worker: its queue, its store, its thread, the flags that are set and the answers sent.
pub record Worker : Type 0 where
  pub queue : Queue
  pub store : Store
  pub flight : Flight
  pub cancelled : List ℕ
  pub replies : List (ℕ × Option ℕ)

-- What SQLite answers to the writes of one step: for a status, whether the row is updated, and then
-- whether the routing is published again.
pub record Answers : Type 0 where
  pub persists : ℕ → Bool × Bool
  pub inserts : Bool
  pub clears : Bool

pub lower_remaining : ℕ → Option ClearRequest → Option ClearRequest
lower_remaining index none = none
lower_remaining index (some clear) =
    if ltb index clear.remaining
    then some (record clear { remaining = clear.remaining - 1 })
    else some clear

pub drop_job : Queue → Queue
drop_job q = record q { dropped_logs = q.dropped_logs + 1 }

pub push_job : ℕ → OwnedLog → Queue → Queue
push_job now job q = record q {
  jobs = q.jobs ++ job ∷ [];
  enqueued = q.enqueued ++ now ∷ [];
  peak_queue_length = max q.peak_queue_length (length (q.jobs ++ job ∷ []));
}

pub evict_at : ℕ → Queue → Queue
unfolding lower_remaining
evict_at index q = record q {
  jobs = remove_at index q.jobs;
  enqueued = remove_at index q.enqueued;
  clear = lower_remaining index q.clear;
  dropped_logs = q.dropped_logs + 1;
}

-- Whether a job that has come wakes the thread.
wakes : Queue → Bool
wakes q = nat_beq (length q.jobs) 1 || leb batch_size (length q.jobs)

accept : ℕ → OwnedLog → Queue → Queue × (Bool × Bool)
unfolding push_job wakes
accept now job q = (push_job now job q, (true, wakes (push_job now job q)))

-- The queue, whether the job was taken, and whether the thread is woken.
evict : ℕ → OwnedLog → Queue → Option ℕ → Queue × (Bool × Bool)
unfolding drop_job evict_at accept
evict now job q none = (drop_job q, (false, false))
evict now job q (some index) = accept now job (evict_at index q)

unfoldable pub enqueue : ℕ → OwnedLog → Queue → Queue × (Bool × Bool)
unfolding important drop_job accept evict
enqueue now job q =
    let limit = if important job then capacity else capacity - failure_reserve in
    if q.stopped || leb limit (length q.jobs)
    then if important job && not q.stopped
      then evict now job q (position (λ queued. not (important queued)) q.jobs)
      else (drop_job q, (false, false))
    else accept now job q

-- `Database::status_revision` and `Database::reserve_status_revision`.
unfoldable pub status_revision : ℕ → Store → ℕ
status_revision id store = unwrap_or (get id store.revisions) 0

unfoldable pub reserve_status_revision : ℕ → Store → Store
unfolding status_revision
reserve_status_revision id store = record store {
  revisions = insert id ((status_revision id store + 1) % 2 ^ 64) store.revisions;
}

unfoldable pub is_current : Store → ℕ → StatusChange → Bool
is_current store id change =
    is_some_and (get id store.generations) (λ g. nat_beq g change.generation)

change_of : ProxyRecord → ℕ → ℕ → String → Option ℕ → StatusChange
change_of proxy generation revision status time = record {
  proxy = proxy;
  generation = generation;
  revision = revision;
  status = status;
  time = time;
}

-- `DatabaseWorker::status`.
unfoldable pub push_status : ProxyRecord → ℕ → String → Option ℕ → Worker → Worker × Bool
unfolding status_revision reserve_status_revision is_current change_of
push_status proxy generation status time w =
    let q = w.queue in
    if q.stopped || not (is_some_and (get proxy.id w.store.generations) (λ g. nat_beq g generation))
    then (record w { queue = record q { dropped_status = q.dropped_status + 1 } }, false)
    else (let store = reserve_status_revision proxy.id w.store in
        let kept = retain (is_current w.store) q.statuses in
        let change = change_of proxy generation (status_revision proxy.id store) status time in
        (
          record w {
            queue = record q {
              statuses = insert proxy.id change kept;
              coalesced_status =
                  if is_some (get proxy.id kept)
                  then q.coalesced_status + 1
                  else q.coalesced_status;
            };
            store = store;
          },
          true,
        ))

-- What `flush` waits for.
unfoldable pub is_drained : Queue → Bool
is_drained q = is_empty q.jobs && (is_empty q.statuses && (not (is_some q.clear) && not q.working))

-- `clear_logs` up to where it waits; false if it is refused.
unfoldable pub begin_clear : ℕ → Queue → Queue × Bool
begin_clear ticket q =
    if q.stopped || is_some q.clear
    then (q, false)
    else (record q { clear = some (record { remaining = length q.jobs; ticket = ticket }) }, true)

pub withdraw : ℕ → Option ClearRequest → Option ClearRequest
withdraw ticket none = none
withdraw ticket (some clear) = if nat_beq clear.ticket ticket then none else some clear

-- `clear_logs` when its time is over.
unfoldable pub expire_clear : ℕ → Worker → Worker
unfolding withdraw
expire_clear ticket w = record w {
  queue = record (w.queue) { clear = withdraw ticket w.queue.clear };
  cancelled = ticket ∷ w.cancelled;
}

-- The flag that `seal_and_flush` and the end of the worker set.
unfoldable pub seal : Queue → Queue
seal q = record q { stopped = true }
