-- ===== src/Worker/Writer/Cases.antt =====
-- src-tauri/src/database_worker.rs: how `enqueue` and the top of the thread's loop can end.
use proxy_load.Base.{
  ℕ, ◌-◌, ◌<◌, ◌≡◌, true, false, not, ◌&&◌, ◌||◌, Option, none, some, arith, if◌then◌else◌, leb,
  ltb, length, is_empty, position, position-lt, Bool-cases, inl, inr, is_none_or, is_some_and,
  nat_beq, is_some, nat_eq,
}
use proxy_load.Worker.{
  capacity, batch_size, OwnedLog, Queue, Worker, gathering, exited, important, enqueue, evict,
  evict_at, accept, drop_job, push_job,
}
use proxy_load.Worker.Writer.{poll, take_batch, take_clear}

evicted {κ} :
    (Q : Queue → Type κ) (now : ℕ) (job : OwnedLog) (q : Queue) (o : Option ℕ)
    → is_none_or o (λ i. ltb i (length q.jobs)) ≡ true
    → Q (drop_job q)
    → ((i : ℕ) → i < length q.jobs → Q (push_job now job (evict_at i q)))
    → Q (evict now job q o).0
unfolding evict accept
evicted Q now job q none h drops replaces = drops
evicted Q now job q (some i) h drops replaces = replaces i (ground (arith, h))

-- A job is dropped, or it is queued, or it is queued in the place of another.
pub enqueue-elim {κ} :
    (Q : Queue → Type κ) (now : ℕ) (job : OwnedLog) (q : Queue)
    → Q (drop_job q)
    → (length q.jobs < capacity → Q (push_job now job q))
    → ((i : ℕ) → i < length q.jobs → Q (push_job now job (evict_at i q)))
    → Q (enqueue now job q).0
unfolding enqueue accept
enqueue-elim Q now job q drops pushes replaces =
    let limit = if important job then capacity else capacity - 256 in
    elim (Bool-cases (q.stopped || leb limit (length q.jobs))) [
      | inl e ↦ elim (Bool-cases (important job && not q.stopped)) [
        | inl f ↦
            rw (e, f)
              (evicted Q now job q (position (λ queued. not (important queued)) q.jobs)
                (position-lt (λ queued. not (important queued)) q.jobs) drops replaces)
        | inr f ↦ rw (e, f) drops
      ]
      | inr e ↦ rw e (pushes (ground (arith, e)))
    ]

-- The thread ends or waits, takes the request to clear, pauses, or takes a batch.
pub poll-elim {κ} :
    (Q : Worker → Type κ) (now : ℕ) (w : Worker)
    → (is_empty w.queue.jobs && (is_empty w.queue.statuses && not (is_some w.queue.clear)) ≡ true
        → w.queue.stopped ≡ true
        → Q (record w { flight = exited }))
    → (w.queue.stopped ≡ false → Q w)
    → (is_some_and w.queue.clear (λ c. nat_beq c.remaining 0) ≡ true
        → Q (take_clear w.queue.clear w))
    → (w.queue.stopped ≡ false → Q (record w { flight = gathering }))
    → (is_empty w.queue.jobs && (is_empty w.queue.statuses && not (is_some w.queue.clear)) ≡ false
        → is_some_and w.queue.clear (λ c. nat_beq c.remaining 0) ≡ false
        → Q (take_batch now w))
    → Q (poll now w)
unfolding poll
poll-elim Q now w ends waits clears gathers batches =
    let q = w.queue in
    elim (Bool-cases (is_empty q.jobs && (is_empty q.statuses && not (is_some q.clear)))) [
      | inl e ↦ elim (Bool-cases q.stopped) [
        | inl f ↦ simp (e, f) (ends e f)
        | inr f ↦ simp (e, f) (waits f)
      ]
      | inr e ↦ elim (Bool-cases (is_some_and q.clear (λ c. nat_beq c.remaining 0))) [
        | inl f ↦ simp (e, f) (clears f)
        | inr f ↦ elim (Bool-cases (ltb (length q.jobs) batch_size && not q.stopped)) [
          | inl g ↦ simp (e, f, g) (gathers (ground (arith, g)))
          | inr g ↦ simp (e, f, g) (batches e f)
        ]
      ]
    ]
