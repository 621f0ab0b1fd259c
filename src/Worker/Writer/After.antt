-- ===== src/Worker/Writer/After.antt =====
-- src-tauri/src/database_worker.rs: what happens while the logs are cleared, and afterwards.
use proxy_load.Base.{
  nat_beq_iff, ◌∙◌, subst, ℕ, ◌≡◌, refl, Bool, true, false, not, Option, none, some, List, [], ◌∷◌,
  arith, Bool-cases, inl, inr, nat_beq, any, all, nat_eq, keep,
}
use proxy_load.Worker.{
  OwnedLog, Worker, ClearRequest, Flight, looping, gathering, exited, writing, wrote, clearing,
  cleared, expire_clear, seal,
}
use proxy_load.Worker.Writer.{
  Answers, Event, log, status, clear, expire, publish, sealed, writer, step, advance, advance_from,
  take_batch, take_clear, batch_count, write_batch, perform_clear, settle, is_traffic,
  clear_traffic_logs,
}
use proxy_load.Worker.Writer.Cases.{poll-elim}
use proxy_load.Worker.Writer.Split.{all-drop, all-take}
use proxy_load.Worker.Writer.Stored.{retry_all-jobs, write_batch-all, clear_traffic_logs-all}
use proxy_load.Worker.Writer.Phases.{
  push_status-phase, batch_of, clears_for, is_queued, fresh, purged, IsWithin, IsAfter, within,
  after, InPhase, obeys,
}
use proxy_load.Worker.Writer.Fresh.{
  use_up-queued, withdraw-queued, enqueue-IsFresh, begin_clear-IsFresh,
}

module _ (P : OwnedLog → Bool) (t : ℕ) where
  keep-purged :
      (logs : List OwnedLog) → all (purged P t) (keep (λ x. not (is_traffic x)) logs) ≡ true
  keep-purged [] = refl
  keep-purged (x ∷ logs) = ground (arith, keep-purged logs)

  fresh-purged : (logs : List OwnedLog) → all (fresh P t) logs ≡ true → all (purged P t) logs ≡ true
  fresh-purged [] h = refl
  fresh-purged (x ∷ logs) h = ground (arith, h, fresh-purged logs)

  clear_within :
      (answers : Answers) (c : ClearRequest) (w : Worker)
      → answers.clears ≡ true
      → IsWithin P t w.queue.clear w.queue.jobs (clearing c) w.store.logs w.cancelled
      → InPhase P t (perform_clear answers c w)
  unfolding perform_clear clear_traffic_logs
  clear_within answers c w a b =
      let live : any (nat_beq c.ticket) w.cancelled ≡ false =
        ground (arith, b.wanted, b.begun, nat_beq_iff c.ticket t) in
      rw (live, a)
        (after (record {
          left = b.left;
          newer = b.newer;
          taken = refl;
          ended = refl;
          stored = keep-purged w.store.logs;
        }))

  advance-within :
      (now : ℕ) (answers : Answers) (flight : Flight) (w : Worker)
      → answers.clears ≡ true
      → IsWithin P t w.queue.clear w.queue.jobs flight w.store.logs w.cancelled
      → InPhase P t (advance_from now answers flight w)
  unfolding advance_from
  advance-within now answers looping w a b = absurd (ground (arith, b.begun))
  advance-within now answers gathering w a b = absurd (ground (arith, b.begun))
  advance-within now answers exited w a b = absurd (ground (arith, b.begun))
  advance-within now answers (writing start logs changes) w a b = absurd (ground (arith, b.begun))
  advance-within now answers (wrote start logs retry errors written) w a b =
      absurd (ground (arith, b.begun))
  advance-within now answers (clearing c) w a b = clear_within answers c w a b
  advance-within now answers cleared w a b = absurd (ground (arith, b.begun))

  moved-IsAfter :
      {clear : Option ClearRequest} {jobs : List OwnedLog} {flight : Flight} {logs : List OwnedLog}
      (next : Flight)
      → IsAfter P t clear jobs flight logs
      → all (fresh P t) (batch_of next) ≡ true
      → clears_for t next ≡ false
      → IsAfter P t clear jobs next logs
  moved-IsAfter next b taken ended = record {
    left = b.left;
    newer = b.newer;
    taken = taken;
    ended = ended;
    stored = b.stored;
  }

  take_clear-after :
      (request : Option ClearRequest) (w : Worker)
      → w.queue.clear ≡ request
      → IsAfter P t w.queue.clear w.queue.jobs w.flight w.store.logs
      → InPhase P t (take_clear request w)
  unfolding take_clear
  take_clear-after none w e b = after b
  take_clear-after (some c) w e b = after (record {
    left = refl;
    newer = b.newer;
    taken = refl;
    ended = subst (λ r. is_queued t r ≡ false) e b.left;
    stored = b.stored;
  })

  take_batch-after :
      (now : ℕ) (w : Worker)
      → IsAfter P t w.queue.clear w.queue.jobs w.flight w.store.logs
      → InPhase P t (take_batch now w)
  unfolding take_batch
  take_batch-after now w b =
      let k = batch_count w.queue in
      after (record {
        left = use_up-queued t k w.queue.clear ∙ b.left;
        newer = all-drop (fresh P t) k w.queue.jobs b.newer;
        taken = all-take (fresh P t) k w.queue.jobs b.newer;
        ended = refl;
        stored = b.stored;
      })

  perform_clear-after :
      (answers : Answers) (c : ClearRequest) (w : Worker)
      → IsAfter P t w.queue.clear w.queue.jobs (clearing c) w.store.logs
      → InPhase P t (perform_clear answers c w)
  unfolding perform_clear
  perform_clear-after answers c w b = elim (Bool-cases (any (nat_beq c.ticket) w.cancelled)) [
    | inl e ↦ rw e (after (moved-IsAfter cleared b refl refl))
    | inr e ↦ rw e (
        after (record {
          left = b.left;
          newer = b.newer;
          taken = refl;
          ended = refl;
          stored = clear_traffic_logs-all (purged P t) answers.clears w.store b.stored;
        }))
  ]

  advance-after :
      (now : ℕ) (answers : Answers) (flight : Flight) (w : Worker)
      → w.flight ≡ flight
      → IsAfter P t w.queue.clear w.queue.jobs flight w.store.logs
      → InPhase P t (advance_from now answers flight w)
  unfolding advance_from write_batch settle
  advance-after now answers looping w e b =
      let b' = moved-IsAfter w.flight b (rw e refl) (rw e refl) in
      poll-elim (InPhase P t) now w (λ f s. after (moved-IsAfter exited b refl refl))
        (λ s. after b') (λ c. take_clear-after w.queue.clear w refl b')
        (λ s. after (moved-IsAfter gathering b refl refl)) (λ f c. take_batch-after now w b')
  advance-after now answers gathering w e b =
      take_batch-after now w (moved-IsAfter w.flight b (rw e refl) (rw e refl))
  advance-after now answers exited w e b = after (moved-IsAfter w.flight b (rw e refl) (rw e refl))
  advance-after now answers (writing start logs changes) w e b = after (record {
    left = b.left;
    newer = b.newer;
    taken = refl;
    ended = refl;
    stored =
        write_batch-all (purged P t) answers start logs changes w b.stored
          (fresh-purged logs b.taken);
  })
  advance-after now answers (wrote start logs retry errors written) w e b =
      let kept = retry_all-jobs w.store retry w.queue in
      rw (kept.0, kept.1) (after (moved-IsAfter looping b refl refl))
  advance-after now answers (clearing c) w e b = perform_clear-after answers c w b
  advance-after now answers cleared w e b = after (moved-IsAfter looping b refl refl)

  pub step-within :
      (e : Event) (w : Worker)
      → obeys P t e ≡ true
      → IsWithin P t w.queue.clear w.queue.jobs w.flight w.store.logs w.cancelled
      → InPhase P t (step e w)
  unfolding step advance expire_clear seal
  step-within (log now job) w o b =
      let newer = enqueue-IsFresh P t now job w.queue (b.left, b.newer) o in
      within (record {
        left = newer.0;
        newer = newer.1;
        begun = b.begun;
        stored = b.stored;
        wanted = b.wanted;
      })
  step-within (status p generation s time) w o b =
      push_status-phase P t p generation s time w (within b)
  step-within (clear ticket) w o b =
      let newer = begin_clear-IsFresh P t ticket w.queue (b.left, b.newer) (ground (arith, o)) in
      within (record {
        left = newer.0;
        newer = newer.1;
        begun = b.begun;
        stored = b.stored;
        wanted = b.wanted;
      })
  step-within (expire ticket) w o b = within (record {
    left = withdraw-queued t ticket w.queue.clear b.left;
    newer = b.newer;
    begun = b.begun;
    stored = b.stored;
    wanted = ground (arith, b.wanted, o, nat_beq_iff ticket t, nat_beq_iff t ticket);
  })
  step-within (publish generations) w o b = within b
  step-within sealed w o b = within b
  step-within (writer now answers) w o b = advance-within now answers w.flight w o b

  pub step-after :
      (e : Event) (w : Worker)
      → obeys P t e ≡ true
      → IsAfter P t w.queue.clear w.queue.jobs w.flight w.store.logs
      → InPhase P t (step e w)
  unfolding step advance expire_clear seal
  step-after (log now job) w o b =
      let newer = enqueue-IsFresh P t now job w.queue (b.left, b.newer) o in
      after (record {
        left = newer.0;
        newer = newer.1;
        taken = b.taken;
        ended = b.ended;
        stored = b.stored;
      })
  step-after (status p generation s time) w o b =
      push_status-phase P t p generation s time w (after b)
  step-after (clear ticket) w o b =
      let newer = begin_clear-IsFresh P t ticket w.queue (b.left, b.newer) (ground (arith, o)) in
      after (record {
        left = newer.0;
        newer = newer.1;
        taken = b.taken;
        ended = b.ended;
        stored = b.stored;
      })
  step-after (expire ticket) w o b = after (record {
    left = withdraw-queued t ticket w.queue.clear b.left;
    newer = b.newer;
    taken = b.taken;
    ended = b.ended;
    stored = b.stored;
  })
  step-after (publish generations) w o b = after b
  step-after sealed w o b = after b
  step-after (writer now answers) w o b = advance-after now answers w.flight w refl b
