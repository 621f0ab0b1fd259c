-- ===== src/Worker/Writer/Before.antt =====
-- src-tauri/src/database_worker.rs: what happens while a request to clear the logs is queued.
use proxy_load.Base.{
  subst, ℕ, ◌≡◌, refl, Bool, true, false, ◌&&◌, ◌||◌, Option, none, some, List, arith, length,
  Bool-cases, inl, inr, is_some_and, nat_beq, min, is_some, any, all, nat_eq,
}
use proxy_load.Worker.{
  OwnedLog, Queue, Worker, ClearRequest, Flight, looping, gathering, exited, writing, wrote,
  clearing, cleared, enqueue, evict_at, drop_job, push_job, begin_clear, expire_clear, withdraw,
  seal,
}
use proxy_load.Worker.Writer.{
  Answers, Event, log, status, clear, expire, publish, sealed, writer, step, advance, advance_from,
  poll, take_batch, take_clear, batch_count, write_batch, perform_clear, settle,
}
use proxy_load.Worker.Writer.Cases.{enqueue-elim, poll-elim}
use proxy_load.Worker.Writer.Split.{split}
use proxy_load.Worker.Writer.Stored.{retry_all-jobs, write_batch-all, clear_traffic_logs-all}
use proxy_load.Worker.Writer.Phases.{
  push_status-phase, batch_of, clears_for, parts, fresh, IsBefore, before, within, InPhase, obeys,
  parts-append, parts-remove_at, parts-use_up, parts-take,
}

module _ (P : OwnedLog → Bool) (t : ℕ) where
  moved :
      {clear : Option ClearRequest} {jobs : List OwnedLog} {flight : Flight} {logs : List OwnedLog}
      {cancelled : List ℕ} (next : Flight)
      → IsBefore P t clear jobs flight logs cancelled
      → all P (batch_of next) ≡ true
      → clears_for t next ≡ false
      → IsBefore P t clear jobs next logs cancelled
  moved next b taken waits = record {
    parted = b.parted;
    taken = taken;
    waits = waits;
    stored = b.stored;
    wanted = b.wanted;
  }

  -- The thread takes the request.
  take_clear-before :
      (request : Option ClearRequest) (w : Worker)
      → w.queue.clear ≡ request
      → IsBefore P t request w.queue.jobs w.flight w.store.logs w.cancelled
      → is_some_and request (λ c. nat_beq c.remaining 0) ≡ true
      → InPhase P t (take_clear request w)
  unfolding take_clear
  take_clear-before none w e b z = absurd cc
  take_clear-before (some c) w e b z =
      let zero_left : c.remaining ≡ 0 = ground (arith, z) in
      let parted =
        subst (λ n. nat_beq c.ticket t && split P n w.queue.jobs ≡ true) zero_left b.parted in
      within (record {
        left = refl;
        newer = ground (arith, parted);
        begun = ground (arith, parted);
        stored = b.stored;
        wanted = b.wanted;
      })

  take_batch-before :
      (now : ℕ) (w : Worker)
      → IsBefore P t w.queue.clear w.queue.jobs w.flight w.store.logs w.cancelled
      → InPhase P t (take_batch now w)
  unfolding take_batch batch_count
  take_batch-before now w b =
      let n = min (length w.queue.jobs) 128 in
      before (record {
        parted = parts-use_up P t n w.queue.clear w.queue.jobs b.parted;
        taken = parts-take P t n w.queue.clear w.queue.jobs b.parted;
        waits = refl;
        stored = b.stored;
        wanted = b.wanted;
      })

  poll-before :
      (now : ℕ) (w : Worker)
      → IsBefore P t w.queue.clear w.queue.jobs w.flight w.store.logs w.cancelled
      → InPhase P t (poll now w)
  poll-before now w b =
      poll-elim (InPhase P t) now w (λ e s. before (moved exited b refl refl)) (λ s. before b)
        (λ c. take_clear-before w.queue.clear w refl b c)
        (λ s. before (moved gathering b refl refl)) (λ e c. take_batch-before now w b)

  settled-IsBefore :
      {clear : Option ClearRequest} {jobs : List OwnedLog} {flight : Flight} {logs : List OwnedLog}
      {cancelled : List ℕ} (later : List OwnedLog) (next : Flight)
      → IsBefore P t clear jobs flight logs cancelled
      → all P later ≡ true
      → all P (batch_of next) ≡ true
      → clears_for t next ≡ false
      → IsBefore P t clear jobs next later cancelled
  settled-IsBefore later next b stored taken waits = record {
    parted = b.parted;
    taken = taken;
    waits = waits;
    stored = stored;
    wanted = b.wanted;
  }

  perform_clear-before :
      (answers : Answers) (c : ClearRequest) (w : Worker)
      → IsBefore P t w.queue.clear w.queue.jobs (clearing c) w.store.logs w.cancelled
      → InPhase P t (perform_clear answers c w)
  unfolding perform_clear
  perform_clear-before answers c w b = elim (Bool-cases (any (nat_beq c.ticket) w.cancelled)) [
    | inl e ↦ rw e (before (moved cleared b refl refl))
    | inr e ↦ rw e (
        before (
          settled-IsBefore _ cleared b (clear_traffic_logs-all P answers.clears w.store b.stored)
            refl refl))
  ]

  advance-before :
      (now : ℕ) (answers : Answers) (flight : Flight) (w : Worker)
      → w.flight ≡ flight
      → IsBefore P t w.queue.clear w.queue.jobs flight w.store.logs w.cancelled
      → InPhase P t (advance_from now answers flight w)
  unfolding advance_from write_batch settle
  advance-before now answers looping w e b =
      poll-before now w (moved w.flight b (rw e refl) (rw e refl))
  advance-before now answers gathering w e b =
      take_batch-before now w (moved w.flight b (rw e refl) (rw e refl))
  advance-before now answers exited w e b = before (moved w.flight b (rw e refl) (rw e refl))
  advance-before now answers (writing start logs changes) w e b = before (
      settled-IsBefore _ _ b (write_batch-all P answers start logs changes w b.stored b.taken) refl
        refl)
  advance-before now answers (wrote start logs retry errors written) w e b =
      let kept = retry_all-jobs w.store retry w.queue in
      rw (kept.0, kept.1) (before (moved looping b refl refl))
  advance-before now answers (clearing c) w e b = perform_clear-before answers c w b
  advance-before now answers cleared w e b = before (moved looping b refl refl)

  log-IsBefore :
      (now : ℕ) (job : OwnedLog) (w : Worker)
      → IsBefore P t w.queue.clear w.queue.jobs w.flight w.store.logs w.cancelled
      → fresh P t job ≡ true
      → IsBefore P t
          (enqueue now job w.queue).0.clear
          (enqueue now job w.queue).0.jobs
          w.flight
          w.store.logs
          w.cancelled
  unfolding drop_job push_job evict_at
  log-IsBefore now job w b e =
      let parted =
        enqueue-elim (λ q. parts P t q.clear q.jobs ≡ true) now job w.queue b.parted
          (λ l. parts-append P t w.queue.clear w.queue.jobs job b.parted e)
          (λ i l.
            parts-append P t _ _ job (parts-remove_at P t i w.queue.clear w.queue.jobs b.parted)
              e) in
      record {
        parted = parted;
        taken = b.taken;
        waits = b.waits;
        stored = b.stored;
        wanted = b.wanted;
      }

  parts-some :
      (request : Option ClearRequest) (jobs : List OwnedLog)
      → parts P t request jobs ≡ true
      → is_some request ≡ true
  parts-some none jobs h = h
  parts-some (some c) jobs h = refl

  begin_clear-before :
      (ticket : ℕ) (q : Queue) → parts P t q.clear q.jobs ≡ true → (begin_clear ticket q).0 ≡ q
  unfolding begin_clear
  begin_clear-before ticket q h = elim (Bool-cases (q.stopped || is_some q.clear)) [
    | inl e ↦ simp e refl
    | inr e ↦ absurd (ground (arith, e, parts-some q.clear q.jobs h))
  ]

  withdraw-before :
      (ticket : ℕ) (request : Option ClearRequest) (jobs : List OwnedLog)
      → parts P t request jobs ≡ true
      → nat_beq ticket t ≡ false
      → withdraw ticket request ≡ request
  unfolding withdraw
  withdraw-before ticket none jobs h e = refl
  withdraw-before ticket (some c) jobs h e = ground (arith, h, e)

  -- What happens while the request is queued leaves it so, or begins to clear the logs.
  pub step-before :
      (e : Event) (w : Worker)
      → obeys P t e ≡ true
      → IsBefore P t w.queue.clear w.queue.jobs w.flight w.store.logs w.cancelled
      → InPhase P t (step e w)
  unfolding step advance expire_clear seal
  step-before (log now job) w o b = before (log-IsBefore now job w b o)
  step-before (status p generation s time) w o b =
      push_status-phase P t p generation s time w (before b)
  step-before (clear ticket) w o b = rw (begin_clear-before ticket w.queue b.parted) (before b)
  step-before (expire ticket) w o b =
      let other : nat_beq ticket t ≡ false = ground (arith, o) in
      rw (withdraw-before ticket w.queue.clear w.queue.jobs b.parted other) (
        before (record {
          parted = b.parted;
          taken = b.taken;
          waits = b.waits;
          stored = b.stored;
          wanted = ground (arith, b.wanted, other);
        }))
  step-before (publish generations) w o b = before b
  step-before sealed w o b = before b
  step-before (writer now answers) w o b = advance-before now answers w.flight w refl b
