-- ===== src/Worker/Writer/Accounting.antt =====
-- src-tauri/src/database_worker.rs: no log is lost without being counted.
use proxy_load.Base.{
  ℕ, suc, ◌+◌, ◌≤◌, ◌≡◌, refl, Bool, true, false, not, ◌&&◌, ◌||◌, Option, none, some, List, [],
  ◌∷◌, arith, length, length-append, length-drop, length-take, length-remove_at, Bool-cases, inl,
  inr, is_some_and, nat_beq, is_some, any, nat_eq, String, unwrap_or,
}
use proxy_load.Base.Map.{get}
use proxy_load.Models.{ProxyRecord}
use proxy_load.Worker.{
  OwnedLog, Queue, Worker, ClearRequest, Flight, Store, StatusChange, looping, gathering, exited,
  writing, wrote, clearing, cleared, enqueue, evict_at, drop_job, push_job, push_status,
  begin_clear, expire_clear, seal, is_current, status_revision,
}
use proxy_load.Worker.Writer.{
  Answers, Event, log, status, clear, expire, publish, sealed, writer, step, run, new, advance,
  advance_from, poll, take_batch, take_clear, batch_count, write_batch, perform_clear, settle,
  log_requests, retry_all, retry_change,
}
use proxy_load.Worker.Writer.Bounds.{batch_count-le}
use proxy_load.Worker.Writer.Cases.{enqueue-elim, poll-elim}

-- The logs that the thread has taken and not yet counted.
abbrev pub in_flight : Flight → ℕ
in_flight looping = 0
in_flight gathering = 0
in_flight exited = 0
in_flight (writing start logs changes) = length logs
in_flight (wrote start logs retry errors written) = length logs
in_flight (clearing c) = 0
in_flight cleared = 0

-- The logs that are accounted for: queued, taken, written or dropped.
abbrev pub accounted : Worker → ℕ
accounted w = length w.queue.jobs + in_flight w.flight + w.queue.written + w.queue.dropped_logs

-- No more logs of a batch are written than it has.
abbrev pub IsWritten : Flight → Type 0
IsWritten looping = Unit
IsWritten gathering = Unit
IsWritten exited = Unit
IsWritten (writing start logs changes) = Unit
IsWritten (wrote start logs retry errors written) = written ≤ length logs
IsWritten (clearing c) = Unit
IsWritten cleared = Unit

-- The logs that were offered.
abbrev pub offered : List Event → ℕ
offered [] = 0
offered (log now job ∷ es) = suc (offered es)
offered (status p generation s time ∷ es) = offered es
offered (clear ticket ∷ es) = offered es
offered (expire ticket ∷ es) = offered es
offered (publish generations ∷ es) = offered es
offered (sealed ∷ es) = offered es
offered (writer now answers ∷ es) = offered es

-- What the queue holds or has counted.
abbrev tally : Queue → ℕ
tally q = length q.jobs + q.written + q.dropped_logs

push_job-tally : (now : ℕ) (job : OwnedLog) (q : Queue) → tally (push_job now job q) ≡ tally q + 1
unfolding push_job
push_job-tally now job q = omega (arith, length-append q.jobs (job ∷ []))

enqueue-tally : (now : ℕ) (job : OwnedLog) (q : Queue) → tally (enqueue now job q).0 ≡ tally q + 1
unfolding drop_job evict_at
enqueue-tally now job q =
    enqueue-elim (λ x. tally x ≡ tally q + 1) now job q (omega arith)
      (λ h. push_job-tally now job q)
      (λ i h. omega (arith, push_job-tally now job (evict_at i q), length-remove_at i q.jobs h))

push_status-tally :
    (p : ProxyRecord) (generation : ℕ) (s : String) (time : Option ℕ) (w : Worker)
    → let x = (push_status p generation s time w).0 in
      (tally x.queue ≡ tally w.queue) × (x.flight ≡ w.flight)
unfolding push_status
push_status-tally p generation s time w =
    elim (Bool-cases (
      w.queue.stopped
      || not (is_some_and (get p.id w.store.generations) (λ g. nat_beq g generation)))) [
        | inl e ↦ rw e (refl, refl)
        | inr e ↦ rw e (refl, refl)
      ]

begin_clear-tally : (ticket : ℕ) (q : Queue) → tally (begin_clear ticket q).0 ≡ tally q
unfolding begin_clear
begin_clear-tally ticket q = elim (Bool-cases (q.stopped || is_some q.clear)) [
  | inl e ↦ rw e refl
  | inr e ↦ rw e refl
]

retry_change-tally :
    (store : Store) (change : StatusChange) (q : Queue)
    → tally (retry_change store change q) ≡ tally q
unfolding retry_change
retry_change-tally store change q = elim (Bool-cases q.stopped) [
  | inl e ↦ rw e refl
  | inr e ↦
      elim (Bool-cases (
        is_current store change.proxy.id change
        && (nat_beq (status_revision change.proxy.id store) change.revision
            && not (is_some (get change.proxy.id q.statuses))))) [
              | inl f ↦ rw (e, f) refl
              | inr f ↦ rw (e, f) refl
            ]
]

retry_all-tally :
    (store : Store) (changes : List StatusChange) (q : Queue)
    → tally (retry_all store changes q) ≡ tally q
unfolding retry_all
retry_all-tally store [] q = refl
retry_all-tally store (change ∷ changes) q = omega (
  arith,
  retry_all-tally store changes (retry_change store change q),
  retry_change-tally store change q,
)

-- A step of the thread, from a place at which its batch is counted right, neither loses a log nor
-- counts one twice.
abbrev Counts : Worker → Worker → Type 0
Counts w x = (accounted x ≡ accounted w) × IsWritten x.flight

take_batch-Counts : (now : ℕ) (w : Worker) → in_flight w.flight ≡ 0 → Counts w (take_batch now w)
unfolding take_batch
take_batch-Counts now w h =
    let k = batch_count w.queue in
    let le = batch_count-le w.queue in
    (omega (arith, h, le, length-drop k w.queue.jobs, length-take k w.queue.jobs le), tt)

take_clear-Counts :
    (request : Option ClearRequest) (w : Worker)
    → in_flight w.flight ≡ 0
    → IsWritten w.flight
    → Counts w (take_clear request w)
unfolding take_clear
take_clear-Counts none w h v = (refl, v)
take_clear-Counts (some c) w h v = (omega (arith, h), tt)

poll-Counts :
    (now : ℕ) (w : Worker) → in_flight w.flight ≡ 0 → IsWritten w.flight → Counts w (poll now w)
poll-Counts now w h v =
    poll-elim (Counts w) now w (λ e s. (omega (arith, h), tt)) (λ s. (refl, v))
      (λ c. take_clear-Counts w.queue.clear w h v) (λ s. (omega (arith, h), tt))
      (λ e c. take_batch-Counts now w h)

log_requests-le :
    (answer : Bool) (logs : List OwnedLog) (store : Store)
    → unwrap_or (log_requests answer logs store).1 0 ≤ length logs
unfolding log_requests
log_requests-le answer [] store = omega arith
log_requests-le true (x ∷ logs) store = omega arith
log_requests-le false (x ∷ logs) store = omega arith

perform_clear-Counts :
    (answers : Answers) (c : ClearRequest) (w : Worker)
    → in_flight w.flight ≡ 0
    → Counts w (perform_clear answers c w)
unfolding perform_clear
perform_clear-Counts answers c w h = elim (Bool-cases (any (nat_beq c.ticket) w.cancelled)) [
  | inl e ↦ rw e (omega (arith, h), tt)
  | inr e ↦ rw e (omega (arith, h), tt)
]

advance-Counts :
    (now : ℕ) (answers : Answers) (flight : Flight) (w : Worker)
    → w.flight ≡ flight
    → IsWritten flight
    → Counts w (advance_from now answers flight w)
unfolding advance_from write_batch settle
advance-Counts now answers looping w e v = poll-Counts now w (rw e refl) (rw e tt)
advance-Counts now answers gathering w e v = take_batch-Counts now w (rw e refl)
advance-Counts now answers exited w e v = (refl, rw e tt)
advance-Counts now answers (writing start logs changes) w e v =
    (rw e refl, log_requests-le answers.inserts logs _)
advance-Counts now answers (wrote start logs retry errors written) w e v =
    (rw e (omega (arith, v, retry_all-tally w.store retry w.queue)), tt)
advance-Counts now answers (clearing c) w e v = perform_clear-Counts answers c w (rw e refl)
advance-Counts now answers cleared w e v = (rw e (omega arith), tt)

step-accounted :
    (e : Event) (es : List Event) (w : Worker)
    → IsWritten w.flight
    → (accounted (step e w) + offered es ≡ accounted w + offered (e ∷ es))
      × IsWritten (step e w).flight
unfolding step advance expire_clear seal
step-accounted (log now job) es w v = (omega (arith, enqueue-tally now job w.queue), v)
step-accounted (status p generation s time) es w v =
    let kept = push_status-tally p generation s time w in rw kept.1 (omega (arith, kept.0), v)
step-accounted (clear ticket) es w v = (omega (arith, begin_clear-tally ticket w.queue), v)
step-accounted (expire ticket) es w v = (refl, v)
step-accounted (publish generations) es w v = (refl, v)
step-accounted sealed es w v = (refl, v)
step-accounted (writer now answers) es w v =
    let counted = advance-Counts now answers w.flight w refl v in
    (omega (arith, counted.0), counted.1)

pub run_from-accounted :
    (es : List Event) (w : Worker)
    → IsWritten w.flight
    → accounted (run es w) ≡ accounted w + offered es
unfolding run
run_from-accounted [] w v = omega arith
run_from-accounted (e ∷ es) w v =
    let one = step-accounted e es w v in
    omega (arith, one.0, run_from-accounted es (step e w) one.1)

-- Of the logs that are offered to a new worker, whatever else happens, each is queued, or taken by
-- the thread, or counted as written or as dropped, and counted once.
pub run-accounted : (es : List Event) (store : Store) → accounted (run es (new store)) ≡ offered es
unfolding new
run-accounted es store = omega (arith, run_from-accounted es (new store) tt)
