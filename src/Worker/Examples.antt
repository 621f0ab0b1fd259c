-- ===== src/Worker/Examples.antt =====
-- The worker at concrete queues and events.
use proxy_load.Base.{
  ℕ, ◌+◌, ◌≡◌, refl, Bool, true, none, some, List, [], ◌∷◌, arith, nat_beq, all, if◌then◌else◌,
}
use proxy_load.Worker.{Answers, OwnedLog, Store, Worker, exited, looping, is_drained}
use proxy_load.Worker.Writer.{Event, log, clear, writer, step, run, new, empty_queue}
use proxy_load.Worker.Writer.Accounting.{accounted, offered, run-accounted}
use proxy_load.Worker.Writer.Flush.{flush_tells}
use proxy_load.Worker.Writer.Bounds.{IsValid, run-IsValid}
use proxy_load.Worker.Writer.Pending.{pending}
use proxy_load.Worker.Writer.Drains.{counted, unsettled, stopped_drains}
use proxy_load.Worker.Writer.Phases.{purged}
use proxy_load.Worker.Writer.Barrier.{is_waiting, clear_bars}

abbrev entry : ℕ → OwnedLog
entry port = record {
  proxy_id = some 1;
  host = 97 ∷ [];
  port = port;
  success = true;
  time = some 3;
  error = none;
  kind = "tunnel_established";
}

abbrev store : Store
store = record { generations = []; revisions = []; rows = []; logs = [] }

abbrev answers : Answers
answers = record { persists = λ id. (true, true); inserts = true; clears = true }

-- A log is written, then another one comes.
abbrev events : List Event
events =
    log 5 (entry 1)
    ∷ writer 10 answers
    ∷ writer 110 answers
    ∷ writer 111 answers
    ∷ writer 112 answers
    ∷ log 120 (entry 2)
    ∷ []

run-accounted_example : accounted (run events (new store)) ≡ offered events
run-accounted_example = run-accounted events store

run-IsValid_example : IsValid (run events (new store)).queue
run-IsValid_example = run-IsValid events store

-- The first log alone, until it has been written.
abbrev drained : List Event
drained =
    log 5 (entry 1)
    ∷ writer 10 answers
    ∷ writer 110 answers
    ∷ writer 111 answers
    ∷ writer 112 answers
    ∷ []

flush_tells_example :
    let q = (run drained (new store)).queue in offered drained ≡ q.written + q.dropped_logs
unfolding is_drained run new
flush_tells_example = flush_tells drained store refl

-- A worker that has been stopped with a log in its queue.
abbrev stopped_worker : Worker
stopped_worker = record {
  queue = record empty_queue { jobs = entry 1 ∷ []; enqueued = 5 ∷ []; stopped = true };
  store = store;
  flight = looping;
  cancelled = [];
  replies = [];
}

abbrev four_steps : List Event
four_steps = writer 10 answers ∷ writer 11 answers ∷ writer 12 answers ∷ writer 13 answers ∷ []

stopped_drains_example :
    (run four_steps stopped_worker).flight ≡ exited
    × (pending (run four_steps stopped_worker).queue ≡ 0)
    × (counted (run four_steps stopped_worker) ≡ counted stopped_worker + unsettled stopped_worker)
stopped_drains_example =
    stopped_drains four_steps stopped_worker refl refl
      (record { timed = refl; bounded = omega arith; peak = omega arith; barrier = refl }) tt refl
      (omega arith)

-- A worker with an old log in its queue and another one in its table.
abbrev old_worker : Worker
old_worker = record {
  queue = record empty_queue { jobs = entry 1 ∷ []; enqueued = 5 ∷ [] };
  store = record store { logs = entry 1 ∷ [] };
  flight = looping;
  cancelled = [];
  replies = [];
}

abbrev is_old : OwnedLog → Bool
is_old x = nat_beq x.port 1

abbrev later : List Event
later =
    log 6 (entry 2)
    ∷ writer 10 answers
    ∷ writer 110 answers
    ∷ writer 111 answers
    ∷ writer 112 answers
    ∷ writer 113 answers
    ∷ writer 114 answers
    ∷ []

clear_bars_example :
    let end = run later (step (clear 7) old_worker) in
    (if is_waiting is_old 7 end
      then all is_old end.store.logs
      else all (purged is_old 7) end.store.logs)
    ≡ true
clear_bars_example = clear_bars is_old 7 later old_worker refl refl
