-- ===== src/Worker/Writer/Barrier.antt =====
-- src-tauri/src/database_worker.rs: `clear_logs` removes the logs that came before it, and those only.
use proxy_load.Base.{
  ℕ, ◌≡◌, Bool, true, false, not, ◌&&◌, ◌||◌, Option, none, some, List, [], ◌∷◌, arith,
  if◌then◌else◌, nat_beq, is_some, any, all, nat_eq,
}
use proxy_load.Worker.{OwnedLog, Worker, ClearRequest, begin_clear}
use proxy_load.Worker.Writer.{Event, clear, step, run}
use proxy_load.Worker.Writer.Split.{split-all}
use proxy_load.Worker.Writer.Phases.{
  batch_of, clears_for, is_queued, parts, purged, before, within, after, InPhase, obeys,
}
use proxy_load.Worker.Writer.Before.{step-before}
use proxy_load.Worker.Writer.After.{step-within, step-after}

module _ (P : OwnedLog → Bool) (t : ℕ) where
  step-phase :
      (e : Event) (w : Worker) → obeys P t e ≡ true → InPhase P t w → InPhase P t (step e w)
  step-phase e w o (before b) = step-before P t e w o b
  step-phase e w o (within b) = step-within P t e w o b
  step-phase e w o (after b) = step-after P t e w o b

  run-phase :
      (es : List Event) (w : Worker)
      → all (obeys P t) es ≡ true
      → InPhase P t w
      → InPhase P t (run es w)
  unfolding run
  run-phase [] w o p = p
  run-phase (e ∷ es) w o p =
      run-phase es (step e w) (ground (arith, o)) (step-phase e w (ground (arith, o)) p)

  -- A worker that may be asked to clear the logs, all of whose logs are old.
  abbrev pub is_ready : Worker → Bool
  is_ready w =
      not w.queue.stopped
      && (not (is_some w.queue.clear)
          && (all P w.queue.jobs
              && (all P (batch_of w.flight)
                  && (all P w.store.logs
                      && (not (clears_for t w.flight) && not (any (nat_beq t) w.cancelled))))))

  -- The request with the ticket is queued or being carried out.
  abbrev pub is_waiting : Worker → Bool
  is_waiting w = is_queued t w.queue.clear || clears_for t w.flight

  clear-phase : (w : Worker) → is_ready w ≡ true → InPhase P t (step (clear t) w)
  unfolding step begin_clear
  clear-phase w r =
      let refused : (w.queue.stopped || is_some w.queue.clear) ≡ false = ground (arith, r) in
      rw refused (
        before (record {
          parted = ground (arith, r, split-all P w.queue.jobs);
          taken = ground (arith, r);
          waits = ground (arith, r);
          stored = ground (arith, r);
          wanted = ground (arith, r);
        }))

  parts-queued :
      (request : Option ClearRequest) (jobs : List OwnedLog)
      → parts P t request jobs ≡ true
      → is_queued t request ≡ true
  parts-queued none jobs h = absurd cc
  parts-queued (some c) jobs h = ground (arith, h)

  phase-tells :
      (w : Worker)
      → InPhase P t w
      → (if is_waiting w then all P w.store.logs else all (purged P t) w.store.logs) ≡ true
  phase-tells w (before b) =
      ground (arith, parts-queued w.queue.clear w.queue.jobs b.parted, b.stored)
  phase-tells w (within b) = ground (arith, b.begun, b.stored)
  phase-tells w (after b) = ground (arith, b.left, b.ended, b.stored)

  -- A worker whose logs, queued or stored, are all of one kind is asked to clear the logs, and then
  -- whatever happens only logs of the other kind are offered, the request is neither given up nor
  -- made again, and SQLite carries it out. Until the logs are cleared none of the later logs is
  -- stored, so none of them is removed, and from then on none of the earlier logs is stored but the
  -- results of probes.
  pub clear_bars :
      (es : List Event) (w : Worker)
      → is_ready w ≡ true
      → all (obeys P t) es ≡ true
      → let end = run es (step (clear t) w) in
        (if is_waiting end then all P end.store.logs else all (purged P t) end.store.logs) ≡ true
  clear_bars es w r o =
      phase-tells (run es (step (clear t) w)) (run-phase es (step (clear t) w) o (clear-phase w r))
