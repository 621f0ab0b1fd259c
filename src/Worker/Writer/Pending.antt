-- ===== src/Worker/Writer/Pending.antt =====
-- src-tauri/src/database_worker.rs: a batch takes something from a queue that holds something.
use proxy_load.Base.{
  subst, ℕ, ◌+◌, ◌≤◌, ◌<◌, ◌≡◌, refl, true, false, Option, none, some, List, [], ◌∷◌, arith, ltb,
  length, length-drop, Bool-cases, inl, inr, is_some_and, nat_beq, take, min, is_some, map, nat_eq,
}
use proxy_load.Base.Map.{Map, get, remove, length-remove-le, length-remove-lt}
use proxy_load.Worker.{batch_size, Queue, Worker, ClearRequest, Store, StatusChange}
use proxy_load.Worker.Writer.{
  take_batch, batch_count, limit_of, use_up, retry_all, retry_change, take_one, take_changes,
}
use proxy_load.Worker.Writer.Bounds.{IsValid, waits_within}

-- How much the queue still holds.
abbrev pub count_clear : Option ClearRequest → ℕ
count_clear none = 0
count_clear (some c) = 1

abbrev pub pending : Queue → ℕ
pending q = length q.jobs + length q.statuses + count_clear q.clear

take_one-left :
    (o : Option StatusChange) (rest : List StatusChange × Map ℕ StatusChange)
    → (take_one o rest).1 ≡ rest.1
unfolding take_one
take_one-left none rest = refl
take_one-left (some c) rest = refl

take_changes-le : (ids : List ℕ) (m : Map ℕ StatusChange) → length (take_changes ids m).1 ≤ length m
unfolding take_changes
take_changes-le [] m = omega arith
take_changes-le (id ∷ ids) m =
    rw (take_one-left (get id m) (take_changes ids (remove id m)))
      (omega (arith, take_changes-le ids (remove id m), length-remove-le id m))

get_head :
    (id : ℕ) (c : StatusChange) (m : Map ℕ StatusChange) → is_some (get id ((id, c) ∷ m)) ≡ true
unfolding get
get_head id c m = ground arith

take_changes-lt :
    (m : Map ℕ StatusChange)
    → 0 < length m
    → length (take_changes (map (λ x. x.0) (take batch_size m)) m).1 < length m
unfolding take_changes
take_changes-lt [] h = absurd (omega arith)
take_changes-lt ((id, c) ∷ m) h =
    let left = remove id ((id, c) ∷ m) in
    rw (take_one-left (get id ((id, c) ∷ m)) (take_changes (map (λ x. x.0) (take 127 m)) left)) (
      omega (
        arith,
        take_changes-le (map (λ x. x.0) (take 127 m)) left,
        length-remove-lt id ((id, c) ∷ m) (get_head id c m),
      ))

count_clear-use_up :
    (k : ℕ) (request : Option ClearRequest) → count_clear (use_up k request) ≡ count_clear request
unfolding use_up
count_clear-use_up k none = refl
count_clear-use_up k (some c) = refl

-- There is room for a job before a request that is not at the head of the queue.
limit_pos :
    (request : Option ClearRequest) (n : ℕ)
    → is_some_and request (λ c. nat_beq c.remaining 0) ≡ false
    → 0 < n
    → 0 < limit_of request n
unfolding limit_of
limit_pos none n h l = l
limit_pos (some c) n h l = ground (arith, h, l)

-- No request waits in front of an empty queue without being at its head.
no_clear :
    (request : Option ClearRequest)
    → waits_within 0 request ≡ true
    → is_some_and request (λ c. nat_beq c.remaining 0) ≡ false
    → count_clear request ≡ 0
no_clear none w h = refl
no_clear (some c) w h = absurd (ground (arith, w, h))

pub take_batch-le : (now : ℕ) (w : Worker) → pending (take_batch now w).queue ≤ pending w.queue
unfolding take_batch
take_batch-le now w =
    let q = w.queue in
    omega (
      arith,
      length-drop (batch_count q) q.jobs,
      take_changes-le (map (λ x. x.0) (take batch_size q.statuses)) q.statuses,
      count_clear-use_up (batch_count q) q.clear,
    )

-- A batch of a queue that holds something, and at whose head there is no request to clear, leaves
-- less.
pub take_batch-lt :
    (now : ℕ) (w : Worker)
    → IsValid w.queue
    → is_some_and w.queue.clear (λ c. nat_beq c.remaining 0) ≡ false
    → 0 < pending w.queue
    → pending (take_batch now w).queue < pending w.queue
unfolding take_batch batch_count
take_batch-lt now w v c h =
    let q = w.queue in
    let dropped = length-drop (batch_count q) q.jobs in
    let taken = take_changes-le (map (λ x. x.0) (take batch_size q.statuses)) q.statuses in
    let same = count_clear-use_up (batch_count q) q.clear in
    elim (Bool-cases (ltb 0 (length q.jobs))) [
      | inl e ↦
          let positive = limit_pos q.clear (min (length q.jobs) batch_size) c (ground (arith, e)) in
          ground (arith, dropped, taken, same, positive, e)
      | inr e ↦
          let empty : length q.jobs ≡ 0 = ground (arith, e) in
          let none_waits =
            no_clear q.clear (subst (λ n. waits_within n q.clear ≡ true) empty v.barrier) c in
          omega (
            arith,
            dropped,
            same,
            none_waits,
            empty,
            take_changes-lt q.statuses (omega (arith, h, empty, none_waits)),
          )
    ]

retry_change-stopped :
    (store : Store) (change : StatusChange) (q : Queue)
    → q.stopped ≡ true
    → let r = retry_change store change q in (pending r ≡ pending q) × (r.stopped ≡ true)
unfolding retry_change
retry_change-stopped store change q h = rw h (refl, refl)

pub retry_all-stopped :
    (store : Store) (changes : List StatusChange) (q : Queue)
    → q.stopped ≡ true
    → let r = retry_all store changes q in (pending r ≡ pending q) × (r.stopped ≡ true)
unfolding retry_all
retry_all-stopped store [] q h = (refl, h)
retry_all-stopped store (change ∷ changes) q h =
    let one = retry_change-stopped store change q h in
    let rest = retry_all-stopped store changes (retry_change store change q) one.1 in
    (omega (arith, one.0, rest.0), rest.1)
