-- ===== src/Worker/Writer/Drains.antt =====
-- src-tauri/src/database_worker.rs: once the worker is stopped, its thread writes what there is and
-- ends, whatever SQLite answers.
use proxy_load.Base.{
  all, ℕ, ◌+◌, ◌*◌, ◌≤◌, ◌<◌, ◌≡◌, refl, Bool, true, false, not, ◌&&◌, ◌||◌, Option, none, some,
  List, [], ◌∷◌, arith, length, is_empty, Bool-cases, inl, inr, is_some_and, nat_beq, is_some, any,
  nat_eq,
}
use proxy_load.Worker.{
  Queue, Worker, ClearRequest, Flight, looping, gathering, exited, writing, wrote, clearing,
  cleared,
}
use proxy_load.Worker.Writer.{
  Answers, Event, log, status, clear, expire, publish, sealed, writer, step, run, advance,
  advance_from, poll, take_batch, take_clear, write_batch, perform_clear, settle,
}
use proxy_load.Worker.Writer.Bounds.{advance_from-IsValid, IsValid}
use proxy_load.Worker.Writer.Pending.{pending, take_batch-le, take_batch-lt, retry_all-stopped}
use proxy_load.Worker.Writer.Cases.{poll-elim}
use proxy_load.Worker.Writer.Accounting.{
  accounted, offered, in_flight, IsWritten, run_from-accounted,
}

-- How many steps of the thread are left in its turn.
abbrev rank : Flight → ℕ
rank looping = 1
rank gathering = 4
rank exited = 0
rank (writing start logs changes) = 3
rank (wrote start logs retry errors written) = 2
rank (clearing c) = 3
rank cleared = 2

-- A bound on the steps until the thread ends.
abbrev pub steps_left : Worker → ℕ
steps_left w = 3 * pending w.queue + rank w.flight

-- A worker that has been stopped, whose queue is as its operations leave it.
abbrev pub IsStopped : Worker → Type 0
IsStopped w = (w.queue.stopped ≡ true) × IsValid w.queue

abbrev pub is_exited : Flight → Bool
is_exited exited = true
is_exited looping = false
is_exited gathering = false
is_exited (writing start logs changes) = false
is_exited (wrote start logs retry errors written) = false
is_exited (clearing c) = false
is_exited cleared = false

-- If the thread has ended nothing is left.
abbrev is_spent : Worker → Bool
is_spent w = not (is_exited w.flight) || nat_beq (pending w.queue) 0

-- A step of a thread that has not ended brings its end nearer.
abbrev Nears : Worker → Worker → Type 0
Nears w x = (steps_left x < steps_left w) × (x.queue.stopped ≡ true) × (is_spent x ≡ true)

take_clear-Nears :
    (request : Option ClearRequest) (w : Worker)
    → w.queue.clear ≡ request
    → is_some_and request (λ c. nat_beq c.remaining 0) ≡ true
    → w.flight ≡ looping
    → w.queue.stopped ≡ true
    → Nears w (take_clear request w)
unfolding take_clear
take_clear-Nears none w e h l s = absurd cc
take_clear-Nears (some c) w e h l s = (rw (e, l) (omega arith), s, refl)

has_pending :
    (q : Queue)
    → (is_empty q.jobs && (is_empty q.statuses && not (is_some q.clear))) ≡ false
    → 0 < pending q
has_pending q h = ground (arith, h)

none_pending :
    (q : Queue)
    → (is_empty q.jobs && (is_empty q.statuses && not (is_some q.clear))) ≡ true
    → pending q ≡ 0
none_pending q h = ground (arith, h)

poll-Nears : (now : ℕ) (w : Worker) → w.flight ≡ looping → IsStopped w → Nears w (poll now w)
unfolding take_batch
poll-Nears now w l v =
    poll-elim (Nears w) now w
      (λ e s. (rw l (omega arith), v.0, ground (arith, none_pending w.queue e)))
      (λ s. absurd (ground (arith, s, v.0))) (λ c. take_clear-Nears w.queue.clear w refl c l v.0)
      (λ s. absurd (ground (arith, s, v.0)))
      (λ e c.
        let fewer = take_batch-lt now w v.1 c (has_pending w.queue e) in
        (rw l (omega (arith, fewer)), v.0, refl))

perform_clear-Nears :
    (answers : Answers) (c : ClearRequest) (w : Worker)
    → w.flight ≡ clearing c
    → w.queue.stopped ≡ true
    → Nears w (perform_clear answers c w)
unfolding perform_clear
perform_clear-Nears answers c w e s = elim (Bool-cases (any (nat_beq c.ticket) w.cancelled)) [
  | inl f ↦ rw f (rw e (omega arith), s, refl)
  | inr f ↦ rw f (rw e (omega arith), s, refl)
]

advance-Nears :
    (now : ℕ) (answers : Answers) (flight : Flight) (w : Worker)
    → w.flight ≡ flight
    → is_exited flight ≡ false
    → IsStopped w
    → Nears w (advance_from now answers flight w)
unfolding advance_from write_batch settle take_batch
advance-Nears now answers looping w e n v = poll-Nears now w e v
advance-Nears now answers gathering w e n v = (rw e (omega (arith, take_batch-le now w)), v.0, refl)
advance-Nears now answers exited w e n v = absurd cc
advance-Nears now answers (writing start logs changes) w e n v = (rw e (omega arith), v.0, refl)
advance-Nears now answers (wrote start logs retry errors written) w e n v =
    let settled = retry_all-stopped w.store retry w.queue v.0 in
    (rw e (omega (arith, settled.0)), settled.1, refl)
advance-Nears now answers (clearing c) w e n v = perform_clear-Nears answers c w e v.0
advance-Nears now answers cleared w e n v = (rw e (omega arith), v.0, refl)

abbrev pub is_writer : Event → Bool
is_writer (log now job) = false
is_writer (status p generation s time) = false
is_writer (clear ticket) = false
is_writer (expire ticket) = false
is_writer (publish generations) = false
is_writer sealed = false
is_writer (writer now answers) = true

-- The thread has ended, and nothing is queued.
abbrev pub HasEnded : Worker → Type 0
HasEnded w = (w.flight ≡ exited) × (pending w.queue ≡ 0)

spent-HasEnded :
    (flight : Flight) (w : Worker)
    → w.flight ≡ flight
    → is_exited flight ≡ true
    → is_spent w ≡ true
    → HasEnded w
spent-HasEnded exited w e x s = (e, ground (arith, e, s))
spent-HasEnded looping w e x s = absurd cc
spent-HasEnded gathering w e x s = absurd cc
spent-HasEnded (writing start logs changes) w e x s = absurd cc
spent-HasEnded (wrote start logs retry errors written) w e x s = absurd cc
spent-HasEnded (clearing c) w e x s = absurd cc
spent-HasEnded cleared w e x s = absurd cc

run_writer-ended :
    (es : List Event) (w : Worker) → all is_writer es ≡ true → HasEnded w → HasEnded (run es w)
unfolding run step advance advance_from
run_writer-ended [] w a h = h
run_writer-ended (writer now answers ∷ es) w a h =
    run_writer-ended es (advance_from now answers w.flight w) a (rw h.0 (refl, h.1))
run_writer-ended (log now job ∷ es) w a h = absurd cc
run_writer-ended (status p generation s time ∷ es) w a h = absurd cc
run_writer-ended (clear ticket ∷ es) w a h = absurd cc
run_writer-ended (expire ticket ∷ es) w a h = absurd cc
run_writer-ended (publish generations ∷ es) w a h = absurd cc
run_writer-ended (sealed ∷ es) w a h = absurd cc

rank_pos : (flight : Flight) → is_exited flight ≡ false → 0 < rank flight
rank_pos looping x = omega arith
rank_pos gathering x = omega arith
rank_pos exited x = absurd cc
rank_pos (writing start logs changes) x = omega arith
rank_pos (wrote start logs retry errors written) x = omega arith
rank_pos (clearing c) x = omega arith
rank_pos cleared x = omega arith

run_writer-spent :
    (es : List Event) (w : Worker)
    → all is_writer es ≡ true
    → IsStopped w
    → is_spent w ≡ true
    → steps_left w ≤ length es
    → HasEnded (run es w)
unfolding run step advance
run_writer-spent [] w a v s m = elim (Bool-cases (is_exited w.flight)) [
  | inl x ↦ spent-HasEnded w.flight w refl x s
  | inr x ↦ absurd (omega (arith, m, rank_pos w.flight x))
]
run_writer-spent (writer now answers ∷ es) w a v s m = elim (Bool-cases (is_exited w.flight)) [
  | inl x ↦ run_writer-ended (writer now answers ∷ es) w a (spent-HasEnded w.flight w refl x s)
  | inr x ↦
      let nearer = advance-Nears now answers w.flight w refl x v in
      run_writer-spent es (advance_from now answers w.flight w) a
        (nearer.1, advance_from-IsValid now answers w.flight w v.1) nearer.2
        (omega (arith, m, nearer.0))
]
run_writer-spent (log now job ∷ es) w a v s m = absurd cc
run_writer-spent (status p generation t time ∷ es) w a v s m = absurd cc
run_writer-spent (clear ticket ∷ es) w a v s m = absurd cc
run_writer-spent (expire ticket ∷ es) w a v s m = absurd cc
run_writer-spent (publish generations ∷ es) w a v s m = absurd cc
run_writer-spent (sealed ∷ es) w a v s m = absurd cc

-- The logs that are queued or that the thread has taken.
abbrev pub unsettled : Worker → ℕ
unsettled w = length w.queue.jobs + in_flight w.flight

-- The logs that are counted, as written or as dropped.
abbrev pub counted : Worker → ℕ
counted w = w.queue.written + w.queue.dropped_logs

offered_of_writer : (es : List Event) → all is_writer es ≡ true → offered es ≡ 0
offered_of_writer [] a = refl
offered_of_writer (writer now answers ∷ es) a = offered_of_writer es a
offered_of_writer (log now job ∷ es) a = absurd cc
offered_of_writer (status p generation t time ∷ es) a = absurd cc
offered_of_writer (clear ticket ∷ es) a = absurd cc
offered_of_writer (expire ticket ∷ es) a = absurd cc
offered_of_writer (publish generations ∷ es) a = absurd cc
offered_of_writer (sealed ∷ es) a = absurd cc

no_pending_jobs : (q : Queue) → pending q ≡ 0 → length q.jobs ≡ 0
no_pending_jobs q h = omega (arith, h)

HasEnded-counted : (w : Worker) → HasEnded w → accounted w ≡ counted w
HasEnded-counted w h = rw h.0 (omega (arith, no_pending_jobs w.queue h.1))

-- Once the worker is stopped, and while its thread has not ended, the steps of the thread alone
-- empty the queue and end it, within three for each log, each status and the request to clear that
-- are queued and at most four more, whatever SQLite answers to the writes; and each log that was
-- queued or in the thread's hands is then counted, as written or as dropped. The queue is to be one
-- that `IsValid` admits, and the batch in flight to count no more logs as written than it has.
pub stopped_drains :
    (es : List Event) (w : Worker)
    → all is_writer es ≡ true
    → w.queue.stopped ≡ true
    → IsValid w.queue
    → IsWritten w.flight
    → is_exited w.flight ≡ false
    → steps_left w ≤ length es
    → (run es w).flight ≡ exited
      × (pending (run es w).queue ≡ 0)
      × (counted (run es w) ≡ counted w + unsettled w)
stopped_drains es w a s v k x m =
    let ended = run_writer-spent es w a (s, v) (ground (arith, x)) m in
    (
      ended.0,
      ended.1,
      omega (
        arith,
        HasEnded-counted (run es w) ended,
        run_from-accounted es w k,
        offered_of_writer es a,
      ),
    )
