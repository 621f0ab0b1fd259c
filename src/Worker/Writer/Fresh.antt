-- ===== src/Worker/Writer/Fresh.antt =====
-- src-tauri/src/database_worker.rs: the queue once the request to clear the logs has left it.
use proxy_load.Base.{
  ◌∙◌, ℕ, ◌≡◌, refl, Bool, true, false, ◌||◌, Option, none, some, [], ◌∷◌, arith, Bool-cases, inl,
  inr, nat_beq, is_some, all, nat_eq,
}
use proxy_load.Worker.{
  OwnedLog, Queue, ClearRequest, enqueue, evict_at, drop_job, push_job, lower_remaining,
  begin_clear, withdraw,
}
use proxy_load.Worker.Writer.{use_up}
use proxy_load.Worker.Writer.Cases.{enqueue-elim}
use proxy_load.Worker.Writer.Split.{all-join, all-remove_at}
use proxy_load.Worker.Writer.Phases.{is_queued, fresh}

-- The queue as far as what comes after the request goes: the request is not in it, and all logs are
-- new.
abbrev pub IsFresh : (OwnedLog → Bool) → ℕ → Queue → Type 0
IsFresh P t q = (is_queued t q.clear ≡ false) × (all (fresh P t) q.jobs ≡ true)

lower_remaining-queued :
    (t i : ℕ) (request : Option ClearRequest)
    → is_queued t (lower_remaining i request) ≡ is_queued t request
unfolding lower_remaining
lower_remaining-queued t i none = refl
lower_remaining-queued t i (some c) = ground arith

pub use_up-queued :
    (t n : ℕ) (request : Option ClearRequest) → is_queued t (use_up n request) ≡ is_queued t request
unfolding use_up
use_up-queued t n none = refl
use_up-queued t n (some c) = refl

pub withdraw-queued :
    (t ticket : ℕ) (request : Option ClearRequest)
    → is_queued t request ≡ false
    → is_queued t (withdraw ticket request) ≡ false
unfolding withdraw
withdraw-queued t ticket none h = refl
withdraw-queued t ticket (some c) h = ground (arith, h)

module _ (P : OwnedLog → Bool) (t : ℕ) where
  push_job-IsFresh :
      (now : ℕ) (job : OwnedLog) (q : Queue)
      → IsFresh P t q
      → fresh P t job ≡ true
      → IsFresh P t (push_job now job q)
  unfolding push_job
  push_job-IsFresh now job q h e =
      (h.0, all-join (fresh P t) q.jobs (job ∷ []) h.1 (ground (arith, e)))

  pub enqueue-IsFresh :
      (now : ℕ) (job : OwnedLog) (q : Queue)
      → IsFresh P t q
      → fresh P t job ≡ true
      → IsFresh P t (enqueue now job q).0
  unfolding drop_job evict_at
  enqueue-IsFresh now job q h e =
      enqueue-elim (IsFresh P t) now job q h (λ l. push_job-IsFresh now job q h e)
        (λ i l.
          push_job-IsFresh now job (evict_at i q)
            (lower_remaining-queued t i q.clear ∙ h.0, all-remove_at (fresh P t) i q.jobs h.1) e)

  pub begin_clear-IsFresh :
      (ticket : ℕ) (q : Queue)
      → IsFresh P t q
      → nat_beq ticket t ≡ false
      → IsFresh P t (begin_clear ticket q).0
  unfolding begin_clear
  begin_clear-IsFresh ticket q h e = elim (Bool-cases (q.stopped || is_some q.clear)) [
    | inl f ↦ simp f h
    | inr f ↦ simp f (e, h.1)
  ]
