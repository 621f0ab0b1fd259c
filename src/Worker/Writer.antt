-- ===== src/Worker/Writer.antt =====
-- src-tauri/src/database_worker.rs: the thread that writes the queue. Each section that holds the
-- lock is one step, and so are the writes between two of them. What SQLite answers is given with
-- the step.
pub mod Cases
pub mod Bounds
pub mod Accounting
pub mod Flush
pub mod Pending
pub mod Drains
pub mod Split
pub mod Stored
pub mod Phases
pub mod Before
pub mod Fresh
pub mod After
pub mod Barrier
use proxy_load.Base.{
  ℕ, ◌+◌, ◌-◌, Bool, true, false, not, ◌&&◌, ◌||◌, Option, none, some, List, [], ◌∷◌, ◌++◌,
  if◌then◌else◌, ltb, nat_beq, nat_eq, any, keep, is_some, is_some_and, unwrap_or, length, is_empty,
  take, drop, max, min, String, str_eq, map,
}
use proxy_load.Base.Map.{Map, get, insert, remove}
use proxy_load.Models.{ProxyRecord}
use proxy_load.Worker.{
  batch_size, OwnedLog, StatusChange, ClearRequest, Queue, Store, Flight, Worker, Answers, enqueue,
  status_revision, is_current, push_status, begin_clear, expire_clear, seal, looping, gathering,
  exited, writing, wrote, clearing, cleared,
}

take_one :
    Option StatusChange
    → List StatusChange × Map ℕ StatusChange
    → List StatusChange × Map ℕ StatusChange
take_one none rest = rest
take_one (some change) (cs, left) = (change ∷ cs, left)

-- `filter_map` over the keys with `statuses.remove`.
take_changes : List ℕ → Map ℕ StatusChange → List StatusChange × Map ℕ StatusChange
unfolding take_one
take_changes [] m = ([], m)
take_changes (id ∷ ids) m = take_one (get id m) (take_changes ids (remove id m))

pub limit_of : Option ClearRequest → ℕ → ℕ
limit_of none n = n
limit_of (some clear) n = min n clear.remaining

pub use_up : ℕ → Option ClearRequest → Option ClearRequest
use_up n none = none
use_up n (some clear) = some (record clear { remaining = clear.remaining - n })

longest_wait : ℕ → ℕ → List ℕ → ℕ
longest_wait now longest [] = longest
longest_wait now longest (t ∷ ts) = longest_wait now (max longest (now - t)) ts

-- How many jobs the next batch has.
pub batch_count : Queue → ℕ
unfolding limit_of
batch_count q = limit_of q.clear (min (length q.jobs) batch_size)

pub take_batch : ℕ → Worker → Worker
unfolding batch_count use_up take_changes longest_wait
take_batch now w =
    let q = w.queue in
    let count = batch_count q in
    let (changes, left) = take_changes (map (λ x. x.0) (take batch_size q.statuses)) q.statuses in
    record w {
      queue = record q {
        jobs = drop count q.jobs;
        statuses = left;
        clear = use_up count q.clear;
        enqueued = drop count q.enqueued;
        max_queue_wait_ms = longest_wait now q.max_queue_wait_ms (take count q.enqueued);
        working = true;
      };
      flight = writing now (take count q.jobs) changes;
    }

pub take_clear : Option ClearRequest → Worker → Worker
take_clear none w = w
take_clear (some clear) w = record w {
  queue = record (w.queue) { clear = none; working = true };
  flight = clearing clear;
}

-- The top of the loop, once the thread holds the lock.
pub poll : ℕ → Worker → Worker
unfolding take_clear take_batch
poll now w =
    let q = w.queue in
    if is_empty q.jobs && (is_empty q.statuses && not (is_some q.clear))
    then (if q.stopped then record w { flight = exited } else w)
    else if is_some_and q.clear (λ clear. nat_beq clear.remaining 0)
    then take_clear q.clear w
    else if ltb (length q.jobs) batch_size && not q.stopped
    then record w { flight = gathering }
    else take_batch now w

-- `Database::update_passive_status`, with whether it succeeds.
update_passive_status : Bool × Bool → StatusChange → Store → Store × Bool
unfolding is_current
update_passive_status answer change store =
    let id = change.proxy.id in
    if not (is_current store id change)
      || not (is_some_and (get id store.revisions) (λ r. nat_beq r change.revision))
    then (store, true)
    else if answer.0
    then (record store { rows = insert id (change.status, change.time) store.rows }, answer.1)
    else (store, false)

-- The changes to try again, and the store after the others.
persist_all : (ℕ → Bool × Bool) → List StatusChange → Store → List StatusChange × Store
unfolding update_passive_status
persist_all persists [] store = ([], store)
persist_all persists (change ∷ changes) store =
    let (stored, success) = update_passive_status (persists change.proxy.id) change store in
    let (retry, end) = persist_all persists changes stored in
    if success then (retry, end) else (change ∷ retry, end)

-- `Database::log_requests`.
log_requests : Bool → List OwnedLog → Store → Store × Option ℕ
log_requests answer [] store = (store, some 0)
log_requests answer (log ∷ logs) store =
    if answer
    then (record store { logs = store.logs ++ log ∷ logs }, some (length (log ∷ logs)))
    else (store, none)

pub is_traffic : OwnedLog → Bool
is_traffic log = not (str_eq log.kind "health_success" || str_eq log.kind "health_failure")

-- `Database::clear_traffic_logs`; what is kept is the results of probes.
pub clear_traffic_logs : Bool → Store → Store × Option ℕ
unfolding is_traffic
clear_traffic_logs answer store =
    if answer
    then (
      record store { logs = keep (λ log. not (is_traffic log)) store.logs },
      some (length (keep is_traffic store.logs)),
    )
    else (store, none)

-- The writes of a batch, outside the lock.
pub write_batch : Answers → ℕ → List OwnedLog → List StatusChange → Worker → Worker
unfolding persist_all log_requests
write_batch answers start logs changes w =
    let (retry, stored) = persist_all answers.persists changes w.store in
    let (end, written) = log_requests answers.inserts logs stored in
    record w {
      store = end;
      flight =
          wrote start logs retry (length retry + (if is_some written then 0 else 1))
            (unwrap_or written 0);
    }

pub perform_clear : Answers → ClearRequest → Worker → Worker
unfolding clear_traffic_logs
perform_clear answers clear w =
    if any (nat_beq clear.ticket) w.cancelled
    then record w { flight = cleared }
    else (let (end, result) = clear_traffic_logs answers.clears w.store in
        record w {
          store = end;
          flight = cleared;
          replies = w.replies ++ (clear.ticket, result) ∷ [];
        })

-- A change that could not be written is queued again unless a newer one has replaced it.
retry_change : Store → StatusChange → Queue → Queue
unfolding is_current status_revision
retry_change store change q =
    let id = change.proxy.id in
    if q.stopped
    then record q { dropped_status = q.dropped_status + 1 }
    else if is_current store id change
        && (nat_beq (status_revision id store) change.revision && not (is_some (get id q.statuses)))
    then record q { statuses = insert id change q.statuses; retried_status = q.retried_status + 1 }
    else q

pub retry_all : Store → List StatusChange → Queue → Queue
unfolding retry_change
retry_all store [] q = q
retry_all store (change ∷ changes) q = retry_all store changes (retry_change store change q)

settle : ℕ → ℕ → List OwnedLog → List StatusChange → ℕ → ℕ → Worker → Worker
unfolding retry_all
settle now start logs retry errors written w =
    let q = retry_all w.store retry w.queue in
    record w {
      queue = record q {
        errors = q.errors + errors;
        dropped_logs = q.dropped_logs + (length logs - written);
        written = q.written + written;
        max_wait_ms = max q.max_wait_ms (now - start);
        working = false;
      };
      flight = looping;
    }

-- The next step of the thread, from where it is.
pub advance_from : ℕ → Answers → Flight → Worker → Worker
unfolding poll take_batch write_batch perform_clear settle
advance_from now answers looping w = poll now w
advance_from now answers gathering w = take_batch now w
advance_from now answers exited w = w
advance_from now answers (writing start logs changes) w = write_batch answers start logs changes w
advance_from now answers (wrote start logs retry errors written) w =
    settle now start logs retry errors written w
advance_from now answers (clearing clear) w = perform_clear answers clear w
advance_from now answers cleared w = record w {
  queue = record (w.queue) { working = false };
  flight = looping;
}

unfoldable pub advance : ℕ → Answers → Worker → Worker
unfolding advance_from
advance now answers w = advance_from now answers w.flight w

-- What can happen: the calls of the other threads, changes of the node generations, and the steps
-- of the writer.
pub data Event : Type 0 where
  log : ℕ → OwnedLog → Event
  status : ProxyRecord → ℕ → String → Option ℕ → Event
  clear expire : ℕ → Event
  publish : Map ℕ ℕ → Event
  sealed : Event
  writer : ℕ → Answers → Event

unfoldable pub step : Event → Worker → Worker
unfolding enqueue push_status begin_clear expire_clear seal advance
step (log now job) w = record w { queue = (enqueue now job w.queue).0 }
step (status proxy generation s time) w = (push_status proxy generation s time w).0
step (clear ticket) w = record w { queue = (begin_clear ticket w.queue).0 }
step (expire ticket) w = expire_clear ticket w
step (publish generations) w = record w { store = record (w.store) { generations = generations } }
step sealed w = record w { queue = seal w.queue }
step (writer now answers) w = advance now answers w

unfoldable pub run : List Event → Worker → Worker
unfolding step
run [] w = w
run (e ∷ es) w = run es (step e w)

abbrev pub empty_queue : Queue
empty_queue = record {
  jobs = [];
  statuses = [];
  clear = none;
  enqueued = [];
  stopped = false;
  working = false;
  dropped_logs = 0;
  dropped_status = 0;
  coalesced_status = 0;
  retried_status = 0;
  errors = 0;
  written = 0;
  max_wait_ms = 0;
  max_queue_wait_ms = 0;
  peak_queue_length = 0;
}

-- `DatabaseWorker::new`.
unfoldable pub new : Store → Worker
new store = record {
  queue = empty_queue;
  store = store;
  flight = looping;
  cancelled = [];
  replies = [];
}
