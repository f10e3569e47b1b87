-- ===== src/WorkerPool.antt =====
-- pkg/pool/worker_pool.go as a step relation: goroutines call `Submit` and `Shutdown` and workers
-- run tasks, in any order. A step is one communication of a `select`, one return of a task, or one
-- statement of `Shutdown`. Where several cases of a `select` are ready, Go takes any of them.
-- Tasks return: one that panics ends the process, as no worker recovers.
pub mod Invariant
pub mod Ending
use go_pay.Prelude.{
  ℕ, zero, suc, ◌+◌, ◌*◌, ◌≤◌, ◌<◌, ◌≡◌, Bool, true, false, Option, none, some, List, [], ◌∷◌, ◌++◌,
  length,
}

-- A `func()`, by a number; none is nil.
abbrev pub Task : Type 0
Task = Option ℕ

-- `idle` workers stand at their `select`, `running` ones run a task, and `exited` ones have
-- returned. `blocked` are the tasks whose `Submit` waits for room. `accepted` are the tasks that
-- were sent to the queue and `taken` those that a worker has received, both in order. `panicked`
-- is set once a goroutine has panicked.
pub record WorkerPool : Type 0 where
  pub max_workers : ℕ
  pub queue : List Task
  pub canceled : Bool
  pub closed : Bool
  pub idle : ℕ
  pub running : ℕ
  pub exited : ℕ
  pub blocked : List Task
  pub accepted : List Task
  pub taken : List Task
  pub panicked : Bool

abbrev pub new_worker_pool : ℕ → WorkerPool
new_worker_pool max_workers = record {
  max_workers = max_workers;
  queue = [];
  canceled = false;
  closed = false;
  idle = max_workers;
  running = 0;
  exited = 0;
  blocked = [];
  accepted = [];
  taken = [];
  panicked = false;
}

abbrev pub enqueue : Task → WorkerPool → WorkerPool
enqueue t p = record p { queue = p.queue ++ t ∷ []; accepted = p.accepted ++ t ∷ [] }

-- A call of `Submit`, up to its return or to the inner `select`.
pub data Submit (p q : WorkerPool) : Type 0 where
  queued :
      (t : Task)
      → p.closed ≡ false
      → length p.queue < 2 * p.max_workers
      → q ≡ enqueue t p
      → Submit p q
  refused : p.canceled ≡ true → q ≡ p → Submit p q
  panics : p.closed ≡ true → q ≡ record p { panicked = true } → Submit p q
  blocks :
      (t : Task)
      → p.canceled ≡ false
      → p.closed ≡ false
      → 2 * p.max_workers ≤ length p.queue
      → q ≡ record p { blocked = p.blocked ++ t ∷ [] }
      → Submit p q

-- What goes on with no new call: a waiting `Submit` sends its task, returns `context.Canceled` or
-- panics; a worker takes a task, passes over a nil one, ends a task, or returns.
pub data Progress (p q : WorkerPool) : Type 0 where
  resumes :
      (before after : List Task) (t : Task)
      → p.blocked ≡ before ++ t ∷ after
      → p.closed ≡ false
      → length p.queue < 2 * p.max_workers
      → q ≡ record (enqueue t p) { blocked = before ++ after }
      → Progress p q
  releases :
      (before after : List Task) (t : Task)
      → p.blocked ≡ before ++ t ∷ after
      → p.canceled ≡ true
      → q ≡ record p { blocked = before ++ after }
      → Progress p q
  breaks :
      (before after : List Task) (t : Task)
      → p.blocked ≡ before ++ t ∷ after
      → p.closed ≡ true
      → q ≡ record p { blocked = before ++ after; panicked = true }
      → Progress p q
  takes :
      (k n : ℕ) (rest : List Task)
      → p.idle ≡ suc k
      → p.queue ≡ some n ∷ rest
      → q ≡ record p {
        queue = rest;
        idle = k;
        running = suc p.running;
        taken = p.taken ++ some n ∷ [];
      }
      → Progress p q
  skips :
      (k : ℕ) (rest : List Task)
      → p.idle ≡ suc k
      → p.queue ≡ none ∷ rest
      → q ≡ record p { queue = rest; taken = p.taken ++ none ∷ [] }
      → Progress p q
  ends :
      (k : ℕ) → p.running ≡ suc k → q ≡ record p { running = k; idle = suc p.idle } → Progress p q
  exits :
      (k : ℕ)
      → p.idle ≡ suc k
      → p.canceled ≡ true
      → q ≡ record p { idle = k; exited = suc p.exited }
      → Progress p q

-- The statements of `Shutdown` before `Wait`; `close` panics on a channel that is closed.
pub data Shutdown (p q : WorkerPool) : Type 0 where
  cancels : q ≡ record p { canceled = true } → Shutdown p q
  closes : p.canceled ≡ true → p.closed ≡ false → q ≡ record p { closed = true } → Shutdown p q
  closes_again :
      p.canceled ≡ true → p.closed ≡ true → q ≡ record p { panicked = true } → Shutdown p q

-- Any step. A worker that receives from the closed, empty queue gets nil and goes on as before.
pub data Step (p q : WorkerPool) : Type 0 where
  submit : Submit p q → Step p q
  progress : Progress p q → Step p q
  shutdown : Shutdown p q → Step p q
  spin : p.closed ≡ true → p.queue ≡ [] → 0 < p.idle → q ≡ p → Step p q

pub data Reach (p : WorkerPool) : WorkerPool → Type 0 where
  here : Reach p p
  next : {q r : WorkerPool} → Reach p q → Step q r → Reach p r
