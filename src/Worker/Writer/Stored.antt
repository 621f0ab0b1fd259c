-- ===== src/Worker/Writer/Stored.antt =====
-- src-tauri/src/database_worker.rs: what holds of every log in the table or the queue goes on
-- holding of them.
use proxy_load.Base.{
  ◌∙◌, ℕ, ◌≡◌, refl, Bool, true, false, not, ◌&&◌, ◌||◌, List, [], ◌∷◌, arith, Bool-cases, inl, inr,
  is_some_and, nat_beq, is_some, all, nat_eq,
}
use proxy_load.Base.Map.{get}
use proxy_load.Worker.{
  OwnedLog, Queue, Worker, Store, StatusChange, enqueue, evict_at, drop_job, push_job, is_current,
  status_revision,
}
use proxy_load.Worker.Writer.{
  Answers, write_batch, log_requests, retry_all, retry_change, is_traffic, clear_traffic_logs,
  persist_all, update_passive_status,
}
use proxy_load.Worker.Writer.Cases.{enqueue-elim}
use proxy_load.Worker.Writer.Split.{all-join, all-keep, all-remove_at}

update_passive_status-logs :
    (answer : Bool × Bool) (change : StatusChange) (store : Store)
    → (update_passive_status answer change store).0.logs ≡ store.logs
unfolding update_passive_status
update_passive_status-logs answer change store =
    elim (Bool-cases (
      not (is_current store change.proxy.id change)
      || not
          (is_some_and (get change.proxy.id store.revisions) (λ r. nat_beq r change.revision)))) [
            | inl e ↦ rw e refl
            | inr e ↦ elim (Bool-cases answer.0) [ inl f ↦ rw (e, f) refl | inr f ↦ rw (e, f) refl ]
          ]

persist_all-logs :
    (persists : ℕ → Bool × Bool) (changes : List StatusChange) (store : Store)
    → (persist_all persists changes store).1.logs ≡ store.logs
unfolding persist_all
persist_all-logs persists [] store = refl
persist_all-logs persists (change ∷ changes) store =
    let one = update_passive_status (persists change.proxy.id) change store in
    let rest =
      persist_all-logs persists changes one.0
      ∙ update_passive_status-logs (persists change.proxy.id) change store in
    elim (Bool-cases one.1) [ inl e ↦ rw e rest | inr e ↦ rw e rest ]

retry_change-jobs :
    (store : Store) (change : StatusChange) (q : Queue)
    → let r = retry_change store change q in (r.jobs ≡ q.jobs) × (r.clear ≡ q.clear)
unfolding retry_change
retry_change-jobs store change q = elim (Bool-cases q.stopped) [
  | inl e ↦ rw e (refl, refl)
  | inr e ↦
      elim (Bool-cases (
        is_current store change.proxy.id change
        && (nat_beq (status_revision change.proxy.id store) change.revision
            && not (is_some (get change.proxy.id q.statuses))))) [
              | inl f ↦ rw (e, f) (refl, refl)
              | inr f ↦ rw (e, f) (refl, refl)
            ]
]

pub retry_all-jobs :
    (store : Store) (changes : List StatusChange) (q : Queue)
    → let r = retry_all store changes q in (r.jobs ≡ q.jobs) × (r.clear ≡ q.clear)
unfolding retry_all
retry_all-jobs store [] q = (refl, refl)
retry_all-jobs store (change ∷ changes) q =
    let one = retry_change-jobs store change q in
    let rest = retry_all-jobs store changes (retry_change store change q) in
    (rest.0 ∙ one.0, rest.1 ∙ one.1)

module _ (P : OwnedLog → Bool) where
  log_requests-all :
      (answer : Bool) (logs : List OwnedLog) (store : Store)
      → all P store.logs ≡ true
      → all P logs ≡ true
      → all P (log_requests answer logs store).0.logs ≡ true
  unfolding log_requests
  log_requests-all answer [] store h l = h
  log_requests-all true (x ∷ logs) store h l = all-join P store.logs (x ∷ logs) h l
  log_requests-all false (x ∷ logs) store h l = h

  pub write_batch-all :
      (answers : Answers) (start : ℕ) (logs : List OwnedLog) (changes : List StatusChange)
      (w : Worker)
      → all P w.store.logs ≡ true
      → all P logs ≡ true
      → all P (write_batch answers start logs changes w).store.logs ≡ true
  unfolding write_batch
  write_batch-all answers start logs changes w h l =
      log_requests-all answers.inserts logs _
        (rw (persist_all-logs answers.persists changes w.store) h) l

  pub clear_traffic_logs-all :
      (answer : Bool) (store : Store)
      → all P store.logs ≡ true
      → all P (clear_traffic_logs answer store).0.logs ≡ true
  unfolding clear_traffic_logs
  clear_traffic_logs-all true store h = all-keep P (λ log. not (is_traffic log)) store.logs h
  clear_traffic_logs-all false store h = h

  push_job-all :
      (now : ℕ) (job : OwnedLog) (q : Queue)
      → all P q.jobs ≡ true
      → P job ≡ true
      → all P (push_job now job q).jobs ≡ true
  unfolding push_job
  push_job-all now job q h e = all-join P q.jobs (job ∷ []) h (ground (arith, e))

  pub enqueue-all :
      (now : ℕ) (job : OwnedLog) (q : Queue)
      → all P q.jobs ≡ true
      → P job ≡ true
      → all P (enqueue now job q).0.jobs ≡ true
  unfolding drop_job evict_at
  enqueue-all now job q h e =
      enqueue-elim (λ x. all P x.jobs ≡ true) now job q h (λ l. push_job-all now job q h e)
        (λ i l. push_job-all now job (evict_at i q) (all-remove_at P i q.jobs h) e)
