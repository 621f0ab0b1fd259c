-- ===== src/Worker/Writer/Flush.antt =====
-- src-tauri/src/database_worker.rs: what `flush` may conclude from what it waits for.
use proxy_load.Base.{
  ℕ, ◌+◌, ◌≡◌, refl, Bool, true, false, not, ◌||◌, Option, none, some, List, [], ◌∷◌, arith, length,
  Bool-cases, inl, inr, is_some_and, nat_beq, is_some, any, nat_eq, String,
}
use proxy_load.Base.Map.{get}
use proxy_load.Models.{ProxyRecord}
use proxy_load.Worker.{
  OwnedLog, Queue, Worker, ClearRequest, Flight, Store, looping, gathering, exited, writing, wrote,
  clearing, cleared, enqueue, evict_at, drop_job, push_job, push_status, begin_clear, expire_clear,
  seal, is_drained,
}
use proxy_load.Worker.Writer.{
  Answers, Event, log, status, clear, expire, publish, sealed, writer, step, run, new, advance,
  advance_from, poll, take_batch, take_clear, write_batch, perform_clear, settle,
}
use proxy_load.Worker.Writer.Accounting.{offered, in_flight, run-accounted}
use proxy_load.Worker.Writer.Cases.{enqueue-elim, poll-elim}

-- The thread is between taking something and the end of its work on it.
abbrev pub is_busy : Flight → Bool
is_busy looping = false
is_busy gathering = false
is_busy exited = false
is_busy (writing start logs changes) = true
is_busy (wrote start logs retry errors written) = true
is_busy (clearing c) = true
is_busy cleared = true

-- The mark `working` tells that.
abbrev pub IsMarked : Worker → Type 0
IsMarked w = w.queue.working ≡ is_busy w.flight

enqueue-working : (now : ℕ) (job : OwnedLog) (q : Queue) → (enqueue now job q).0.working ≡ q.working
unfolding drop_job push_job evict_at
enqueue-working now job q =
    enqueue-elim (λ x. x.working ≡ q.working) now job q refl (λ h. refl) (λ i h. refl)

push_status-IsMarked :
    (p : ProxyRecord) (generation : ℕ) (s : String) (time : Option ℕ) (w : Worker)
    → IsMarked w
    → IsMarked (push_status p generation s time w).0
unfolding push_status
push_status-IsMarked p generation s time w h =
    elim (Bool-cases (
      w.queue.stopped
      || not (is_some_and (get p.id w.store.generations) (λ g. nat_beq g generation)))) [
        | inl e ↦ rw e h
        | inr e ↦ rw e h
      ]

begin_clear-working : (ticket : ℕ) (q : Queue) → (begin_clear ticket q).0.working ≡ q.working
unfolding begin_clear
begin_clear-working ticket q = elim (Bool-cases (q.stopped || is_some q.clear)) [
  | inl e ↦ rw e refl
  | inr e ↦ rw e refl
]

take_clear-IsMarked :
    (request : Option ClearRequest) (w : Worker) → IsMarked w → IsMarked (take_clear request w)
unfolding take_clear
take_clear-IsMarked none w h = h
take_clear-IsMarked (some c) w h = refl

poll-IsMarked : (now : ℕ) (w : Worker) → w.flight ≡ looping → IsMarked w → IsMarked (poll now w)
unfolding take_batch
poll-IsMarked now w l h =
    poll-elim IsMarked now w (λ e s. ground (arith, h, l)) (λ s. h)
      (λ c. take_clear-IsMarked w.queue.clear w h) (λ s. ground (arith, h, l)) (λ e c. refl)

perform_clear-IsMarked :
    (answers : Answers) (c : ClearRequest) (w : Worker)
    → w.queue.working ≡ true
    → IsMarked (perform_clear answers c w)
unfolding perform_clear
perform_clear-IsMarked answers c w h = elim (Bool-cases (any (nat_beq c.ticket) w.cancelled)) [
  | inl e ↦ rw e h
  | inr e ↦ rw e h
]

advance-IsMarked :
    (now : ℕ) (answers : Answers) (flight : Flight) (w : Worker)
    → w.flight ≡ flight
    → IsMarked w
    → IsMarked (advance_from now answers flight w)
unfolding advance_from write_batch settle take_batch
advance-IsMarked now answers looping w e h = poll-IsMarked now w e h
advance-IsMarked now answers gathering w e h = refl
advance-IsMarked now answers exited w e h = h
advance-IsMarked now answers (writing start logs changes) w e h = ground (arith, h, e)
advance-IsMarked now answers (wrote start logs retry errors written) w e h = refl
advance-IsMarked now answers (clearing c) w e h =
    perform_clear-IsMarked answers c w (ground (arith, h, e))
advance-IsMarked now answers cleared w e h = refl

pub step-IsMarked : (e : Event) (w : Worker) → IsMarked w → IsMarked (step e w)
unfolding step advance expire_clear seal
step-IsMarked (log now job) w h = ground (arith, h, enqueue-working now job w.queue)
step-IsMarked (status p generation s time) w h = push_status-IsMarked p generation s time w h
step-IsMarked (clear ticket) w h = ground (arith, h, begin_clear-working ticket w.queue)
step-IsMarked (expire ticket) w h = h
step-IsMarked (publish generations) w h = h
step-IsMarked sealed w h = h
step-IsMarked (writer now answers) w h = advance-IsMarked now answers w.flight w refl h

pub run_from-IsMarked : (es : List Event) (w : Worker) → IsMarked w → IsMarked (run es w)
unfolding run
run_from-IsMarked [] w h = h
run_from-IsMarked (e ∷ es) w h = run_from-IsMarked es (step e w) (step-IsMarked e w h)

in_flight_of_idle : (flight : Flight) → is_busy flight ≡ false → in_flight flight ≡ 0
in_flight_of_idle looping h = refl
in_flight_of_idle gathering h = refl
in_flight_of_idle exited h = refl
in_flight_of_idle (writing start logs changes) h = absurd cc
in_flight_of_idle (wrote start logs retry errors written) h = absurd cc
in_flight_of_idle (clearing c) h = refl
in_flight_of_idle cleared h = refl

drained_idle : (w : Worker) → IsMarked w → is_drained w.queue ≡ true → is_busy w.flight ≡ false
unfolding is_drained
drained_idle w m d = ground (arith, m, d)

new-IsMarked : (store : Store) → IsMarked (new store)
unfolding new
new-IsMarked store = refl

drained_empty : (q : Queue) → is_drained q ≡ true → length q.jobs ≡ 0
unfolding is_drained
drained_empty q d = ground (arith, d)

-- When the queue is drained, as `flush` asks of it before it succeeds, every log that was offered
-- to the worker since it began has been written or counted as dropped.
pub flush_tells :
    (es : List Event) (store : Store)
    → is_drained (run es (new store)).queue ≡ true
    → let q = (run es (new store)).queue in offered es ≡ q.written + q.dropped_logs
flush_tells es store d =
    let w = run es (new store) in
    let idle = drained_idle w (run_from-IsMarked es (new store) (new-IsMarked store)) d in
    omega (arith, run-accounted es store, in_flight_of_idle w.flight idle, drained_empty w.queue d)
