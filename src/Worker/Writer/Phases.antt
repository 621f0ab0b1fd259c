-- ===== src/Worker/Writer/Phases.antt =====
-- src-tauri/src/database_worker.rs: the phases of a request to clear the logs: it is queued, the
-- thread has taken it, the logs have been cleared.
use proxy_load.Base.{
  ℕ, ◌≡◌, Bool, true, false, not, ◌&&◌, ◌||◌, Option, none, some, List, [], ◌∷◌, ◌++◌, arith, ltb,
  remove_at, Bool-cases, inl, inr, is_some_and, nat_beq, drop, take, min, any, all, nat_eq, String,
}
use proxy_load.Base.Map.{get}
use proxy_load.Models.{ProxyRecord}
use proxy_load.Worker.{
  reserve_status_revision, OwnedLog, Worker, ClearRequest, Flight, looping, gathering, exited,
  writing, wrote, clearing, cleared, lower_remaining, push_status,
}
use proxy_load.Worker.Writer.{
  Event, log, status, clear, expire, publish, sealed, writer, limit_of, use_up, is_traffic,
}
use proxy_load.Worker.Writer.Split.{
  split-remove_after, split-remove_before, split, split-append, split-take, split-drop,
}

-- The logs of the batch that is about to be written.
abbrev pub batch_of : Flight → List OwnedLog
batch_of looping = []
batch_of gathering = []
batch_of exited = []
batch_of (writing start logs changes) = logs
batch_of (wrote start logs retry errors written) = []
batch_of (clearing c) = []
batch_of cleared = []

-- The step clears the logs for the ticket.
abbrev pub clears_for : ℕ → Flight → Bool
clears_for t looping = false
clears_for t gathering = false
clears_for t exited = false
clears_for t (writing start logs changes) = false
clears_for t (wrote start logs retry errors written) = false
clears_for t (clearing c) = nat_beq c.ticket t
clears_for t cleared = false

-- The request with the ticket is queued.
abbrev pub is_queued : ℕ → Option ClearRequest → Bool
is_queued t request = is_some_and request (λ c. nat_beq c.ticket t)

module _ (P : OwnedLog → Bool) (t : ℕ) where
  -- The request is the one with the ticket, and it parts the queue.
  abbrev pub parts : Option ClearRequest → List OwnedLog → Bool
  parts none jobs = false
  parts (some c) jobs = nat_beq c.ticket t && split P c.remaining jobs

  abbrev pub fresh : OwnedLog → Bool
  fresh x = not (P x)

  abbrev pub purged : OwnedLog → Bool
  purged x = not (P x && is_traffic x)

  pub record IsBefore (clear : Option ClearRequest) (jobs : List OwnedLog) (flight : Flight)
      (logs : List OwnedLog) (cancelled : List ℕ) : Type 0 where
    pub parted : parts clear jobs ≡ true
    pub taken : all P (batch_of flight) ≡ true
    pub waits : clears_for t flight ≡ false
    pub stored : all P logs ≡ true
    pub wanted : any (nat_beq t) cancelled ≡ false

  pub record IsWithin (clear : Option ClearRequest) (jobs : List OwnedLog) (flight : Flight)
      (logs : List OwnedLog) (cancelled : List ℕ) : Type 0 where
    pub left : is_queued t clear ≡ false
    pub newer : all fresh jobs ≡ true
    pub begun : clears_for t flight ≡ true
    pub stored : all P logs ≡ true
    pub wanted : any (nat_beq t) cancelled ≡ false

  pub record IsAfter (clear : Option ClearRequest) (jobs : List OwnedLog) (flight : Flight)
      (logs : List OwnedLog) : Type 0 where
    pub left : is_queued t clear ≡ false
    pub newer : all fresh jobs ≡ true
    pub taken : all fresh (batch_of flight) ≡ true
    pub ended : clears_for t flight ≡ false
    pub stored : all purged logs ≡ true

  pub data Phase (clear : Option ClearRequest) (jobs : List OwnedLog) (flight : Flight)
      (logs : List OwnedLog) (cancelled : List ℕ) : Type 0 where
    before : IsBefore clear jobs flight logs cancelled → Phase clear jobs flight logs cancelled
    within : IsWithin clear jobs flight logs cancelled → Phase clear jobs flight logs cancelled
    after : IsAfter clear jobs flight logs → Phase clear jobs flight logs cancelled

  abbrev pub InPhase : Worker → Type 0
  InPhase w = Phase w.queue.clear w.queue.jobs w.flight w.store.logs w.cancelled

  -- Every log that is offered is a new one, the ticket is not used or given up again, and the
  -- logs are cleared when that is tried.
  abbrev pub obeys : Event → Bool
  obeys (log now job) = fresh job
  obeys (status p generation s time) = true
  obeys (clear ticket) = not (nat_beq ticket t)
  obeys (expire ticket) = not (nat_beq ticket t)
  obeys (publish generations) = true
  obeys sealed = true
  obeys (writer now answers) = answers.clears

  pub parts-append :
      (request : Option ClearRequest) (jobs : List OwnedLog) (job : OwnedLog)
      → parts request jobs ≡ true
      → fresh job ≡ true
      → parts request (jobs ++ job ∷ []) ≡ true
  parts-append none jobs job h e = h
  parts-append (some c) jobs job h e = ground (arith, h, e, split-append P c.remaining jobs job)

  pub parts-remove_at :
      (i : ℕ) (request : Option ClearRequest) (jobs : List OwnedLog)
      → parts request jobs ≡ true
      → parts (lower_remaining i request) (remove_at i jobs) ≡ true
  unfolding lower_remaining
  parts-remove_at i none jobs h = h
  parts-remove_at i (some c) jobs h = elim (Bool-cases (ltb i c.remaining)) [
    | inl e ↦ rw e (ground (arith, h, split-remove_before P i c.remaining jobs (ground (arith, e))))
    | inr e ↦ rw e (ground (arith, h, e, split-remove_after P i c.remaining jobs))
  ]

  pub parts-use_up :
      (n : ℕ) (request : Option ClearRequest) (jobs : List OwnedLog)
      → parts request jobs ≡ true
      → parts (use_up (limit_of request n) request) (drop (limit_of request n) jobs) ≡ true
  unfolding use_up limit_of
  parts-use_up n none jobs h = absurd cc
  parts-use_up n (some c) jobs h =
      ground (arith, h, split-drop P (min n c.remaining) c.remaining jobs (omega arith))

  pub parts-take :
      (n : ℕ) (request : Option ClearRequest) (jobs : List OwnedLog)
      → parts request jobs ≡ true
      → all P (take (limit_of request n) jobs) ≡ true
  unfolding limit_of
  parts-take n none jobs h = absurd cc
  parts-take n (some c) jobs h =
      split-take P (min n c.remaining) c.remaining jobs (omega arith) (ground (arith, h))

  pub push_status-phase :
      (p : ProxyRecord) (generation : ℕ) (s : String) (time : Option ℕ) (w : Worker)
      → InPhase w
      → InPhase (push_status p generation s time w).0
  unfolding push_status reserve_status_revision
  push_status-phase p generation s time w h =
      elim (Bool-cases (
        w.queue.stopped
        || not (is_some_and (get p.id w.store.generations) (λ g. nat_beq g generation)))) [
          | inl e ↦ simp e h
          | inr e ↦ simp e h
        ]
