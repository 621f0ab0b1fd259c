-- ===== src/Worker/Writer/Bounds.antt =====
-- src-tauri/src/database_worker.rs: the queue never holds more than its capacity, it has a time for
-- each job, and a request to clear the logs waits for jobs of the queue only.
use proxy_load.Base.{
  ℕ, ◌+◌, ◌-◌, ◌≤◌, ◌<◌, ◌≡◌, refl, Bool, true, not, ◌&&◌, ◌||◌, Option, none, some, List, [], ◌∷◌,
  arith, leb, length, length-append, length-drop, length-remove_at, remove_at, Bool-cases, inl, inr,
  is_none_or, is_some_and, nat_beq, min, is_some, any, nat_eq, String,
}
use proxy_load.Base.Map.{get}
use proxy_load.Models.{ProxyRecord}
use proxy_load.Worker.{
  evict_at, capacity, batch_size, OwnedLog, Queue, Worker, ClearRequest, Flight, Store,
  StatusChange, looping, gathering, exited, writing, wrote, clearing, cleared, enqueue, drop_job,
  push_job, lower_remaining, push_status, begin_clear, expire_clear, withdraw, seal, is_current,
  status_revision,
}
use proxy_load.Worker.Writer.{
  Answers, Event, log, status, clear, expire, publish, sealed, writer, step, run, new, advance,
  advance_from, poll, take_batch, take_clear, batch_count, limit_of, use_up, write_batch,
  perform_clear, settle, retry_all, retry_change,
}
use proxy_load.Worker.Writer.Cases.{enqueue-elim, poll-elim}

-- The request to clear waits for `n` jobs at most.
abbrev pub waits_within : ℕ → Option ClearRequest → Bool
waits_within n request = is_none_or request (λ c. leb c.remaining n)

pub record IsSound (jobs : List OwnedLog) (times : List ℕ) (request : Option ClearRequest)
    (longest : ℕ) : Type 0 where
  pub timed : length times ≡ length jobs
  pub bounded : length jobs ≤ capacity
  pub peak : longest ≤ capacity
  pub barrier : waits_within (length jobs) request ≡ true

abbrev pub IsValid : Queue → Type 0
IsValid q = IsSound q.jobs q.enqueued q.clear q.peak_queue_length

waits_within-suc :
    (n : ℕ) (request : Option ClearRequest)
    → waits_within n request ≡ true
    → waits_within (n + 1) request ≡ true
waits_within-suc n none h = refl
waits_within-suc n (some c) h = ground (arith, h)

push_job-IsValid :
    (now : ℕ) (job : OwnedLog) (q : Queue)
    → IsValid q
    → length q.jobs < capacity
    → IsValid (push_job now job q)
unfolding push_job
push_job-IsValid now job q v h =
    let more = length-append q.jobs (job ∷ []) in
    record {
      timed = omega (arith, v.timed, more, length-append q.enqueued (now ∷ []));
      bounded = omega (arith, more);
      peak = omega (arith, more, v.peak);
      barrier = rw more (waits_within-suc (length q.jobs) q.clear v.barrier);
    }

lower_remaining-within :
    (i m n : ℕ) (request : Option ClearRequest)
    → n + 1 ≡ m
    → waits_within m request ≡ true
    → i < m
    → waits_within n (lower_remaining i request) ≡ true
unfolding lower_remaining
lower_remaining-within i m n none e h l = refl
lower_remaining-within i m n (some c) e h l = ground (arith, h, l, e)

evict_at-IsValid :
    (i : ℕ) (q : Queue)
    → IsValid q
    → i < length q.jobs
    → IsValid (evict_at i q) × (length (evict_at i q).jobs < capacity)
unfolding evict_at
evict_at-IsValid i q v h =
    let fewer = length-remove_at i q.jobs h in
    let times = length-remove_at i q.enqueued (omega (arith, v.timed)) in
    (
      record {
        timed = omega (arith, v.timed, fewer, times);
        bounded = omega (arith, v.bounded, fewer);
        peak = v.peak;
        barrier =
            lower_remaining-within i (length q.jobs) (length (remove_at i q.jobs)) q.clear fewer
              v.barrier h;
      },
      omega (arith, v.bounded, fewer),
    )

enqueue-IsValid : (now : ℕ) (job : OwnedLog) (q : Queue) → IsValid q → IsValid (enqueue now job q).0
unfolding drop_job
enqueue-IsValid now job q v =
    enqueue-elim IsValid now job q v (push_job-IsValid now job q v) (λ i h.
      let room = evict_at-IsValid i q v h in push_job-IsValid now job (evict_at i q) room.0 room.1)

push_status-IsValid :
    (p : ProxyRecord) (generation : ℕ) (s : String) (time : Option ℕ) (w : Worker)
    → IsValid w.queue
    → IsValid (push_status p generation s time w).0.queue
unfolding push_status
push_status-IsValid p generation s time w v =
    elim (Bool-cases (
      w.queue.stopped
      || not (is_some_and (get p.id w.store.generations) (λ g. nat_beq g generation)))) [
        | inl e ↦ rw e v
        | inr e ↦ rw e v
      ]

begin_clear-IsValid : (ticket : ℕ) (q : Queue) → IsValid q → IsValid (begin_clear ticket q).0
unfolding begin_clear
begin_clear-IsValid ticket q v = elim (Bool-cases (q.stopped || is_some q.clear)) [
  | inl e ↦ rw e v
  | inr e ↦
      rw e (record { timed = v.timed; bounded = v.bounded; peak = v.peak; barrier = ground arith })
]

withdraw-within :
    (ticket n : ℕ) (request : Option ClearRequest)
    → waits_within n request ≡ true
    → waits_within n (withdraw ticket request) ≡ true
unfolding withdraw
withdraw-within ticket n none h = refl
withdraw-within ticket n (some c) h = ground (arith, h)

expire_clear-IsValid :
    (ticket : ℕ) (w : Worker) → IsValid w.queue → IsValid (expire_clear ticket w).queue
unfolding expire_clear
expire_clear-IsValid ticket w v = record {
  timed = v.timed;
  bounded = v.bounded;
  peak = v.peak;
  barrier = withdraw-within ticket (length w.queue.jobs) w.queue.clear v.barrier;
}

limit_of-le : (request : Option ClearRequest) (n : ℕ) → limit_of request n ≤ n
unfolding limit_of
limit_of-le none n = omega arith
limit_of-le (some c) n = omega arith

-- A batch takes no more than there is.
pub batch_count-le : (q : Queue) → batch_count q ≤ length q.jobs
unfolding batch_count
batch_count-le q = omega (arith, limit_of-le q.clear (min (length q.jobs) batch_size))

use_up-within :
    (k n : ℕ) (request : Option ClearRequest)
    → waits_within n request ≡ true
    → waits_within (n - k) (use_up k request) ≡ true
unfolding use_up
use_up-within k n none h = refl
use_up-within k n (some c) h = ground (arith, h)

take_batch-IsValid : (now : ℕ) (w : Worker) → IsValid w.queue → IsValid (take_batch now w).queue
unfolding take_batch
take_batch-IsValid now w v =
    let k = batch_count w.queue in
    let fewer = length-drop k w.queue.jobs in
    record {
      timed = omega (arith, v.timed, fewer, length-drop k w.queue.enqueued);
      bounded = omega (arith, v.bounded, fewer);
      peak = v.peak;
      barrier = rw fewer (use_up-within k (length w.queue.jobs) w.queue.clear v.barrier);
    }

take_clear-IsValid :
    (request : Option ClearRequest) (w : Worker)
    → IsValid w.queue
    → IsValid (take_clear request w).queue
unfolding take_clear
take_clear-IsValid none w v = v
take_clear-IsValid (some c) w v = record {
  timed = v.timed;
  bounded = v.bounded;
  peak = v.peak;
  barrier = refl;
}

poll-IsValid : (now : ℕ) (w : Worker) → IsValid w.queue → IsValid (poll now w).queue
poll-IsValid now w v =
    poll-elim (λ x. IsValid x.queue) now w (λ e s. v) (λ s. v)
      (λ c. take_clear-IsValid w.queue.clear w v) (λ s. v) (λ e c. take_batch-IsValid now w v)

retry_change-IsValid :
    (store : Store) (change : StatusChange) (q : Queue)
    → IsValid q
    → IsValid (retry_change store change q)
unfolding retry_change
retry_change-IsValid store change q v = elim (Bool-cases q.stopped) [
  | inl e ↦ rw e v
  | inr e ↦
      elim (Bool-cases (
        is_current store change.proxy.id change
        && (nat_beq (status_revision change.proxy.id store) change.revision
            && not (is_some (get change.proxy.id q.statuses))))) [
              | inl f ↦ rw (e, f) v
              | inr f ↦ rw (e, f) v
            ]
]

retry_all-IsValid :
    (store : Store) (changes : List StatusChange) (q : Queue)
    → IsValid q
    → IsValid (retry_all store changes q)
unfolding retry_all
retry_all-IsValid store [] q v = v
retry_all-IsValid store (change ∷ changes) q v =
    retry_all-IsValid store changes (retry_change store change q)
      (retry_change-IsValid store change q v)

perform_clear-queue :
    (answers : Answers) (c : ClearRequest) (w : Worker)
    → (perform_clear answers c w).queue ≡ w.queue
unfolding perform_clear
perform_clear-queue answers c w = elim (Bool-cases (any (nat_beq c.ticket) w.cancelled)) [
  | inl e ↦ rw e refl
  | inr e ↦ rw e refl
]

pub advance_from-IsValid :
    (now : ℕ) (answers : Answers) (flight : Flight) (w : Worker)
    → IsValid w.queue
    → IsValid (advance_from now answers flight w).queue
unfolding advance_from write_batch settle
advance_from-IsValid now answers looping w v = poll-IsValid now w v
advance_from-IsValid now answers gathering w v = take_batch-IsValid now w v
advance_from-IsValid now answers exited w v = v
advance_from-IsValid now answers (writing start logs changes) w v = v
advance_from-IsValid now answers (wrote start logs retry errors written) w v =
    retry_all-IsValid w.store retry w.queue v
advance_from-IsValid now answers (clearing c) w v = rw (perform_clear-queue answers c w) v
advance_from-IsValid now answers cleared w v = v

pub step-IsValid : (e : Event) (w : Worker) → IsValid w.queue → IsValid (step e w).queue
unfolding step advance seal
step-IsValid (log now job) w v = enqueue-IsValid now job w.queue v
step-IsValid (status p generation s time) w v = push_status-IsValid p generation s time w v
step-IsValid (clear ticket) w v = begin_clear-IsValid ticket w.queue v
step-IsValid (expire ticket) w v = expire_clear-IsValid ticket w v
step-IsValid (publish generations) w v = v
step-IsValid sealed w v = v
step-IsValid (writer now answers) w v = advance_from-IsValid now answers w.flight w v

pub run_from-IsValid : (es : List Event) (w : Worker) → IsValid w.queue → IsValid (run es w).queue
unfolding run
run_from-IsValid [] w v = v
run_from-IsValid (e ∷ es) w v = run_from-IsValid es (step e w) (step-IsValid e w v)

-- Whatever happens to a new worker, its queue holds 2048 logs at most, and never held more, it has a
-- time for each of them, and a request to clear the logs waits for no more logs than there are.
pub run-IsValid : (es : List Event) (store : Store) → IsValid (run es (new store)).queue
unfolding new
run-IsValid es store =
    run_from-IsValid es (new store)
      (record { timed = refl; bounded = omega arith; peak = omega arith; barrier = refl })
