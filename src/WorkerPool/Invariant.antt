-- ===== src/WorkerPool/Invariant.antt =====
-- What holds of the worker pool of pkg/pool/worker_pool.go in every state that it reaches.
use go_pay.Prelude.{
  ℕ, ◌+◌, ◌*◌, ◌≤◌, ◌<◌, ◌≡◌, refl, sym, ap, ◌∙◌, true, false, none, some, List, [], ◌∷◌, ◌++◌,
  length, length-append, arith,
}
use mathlib.Core.Path.{subst}
use mathlib.Core.List.{append_assoc}
use go_pay.WorkerPool.{
  Task, WorkerPool, new_worker_pool, enqueue, Submit, Progress, Shutdown, Step, Reach, queued,
  refused, panics, blocks, resumes, releases, breaks, takes, skips, ends, exits, cancels, closes,
  closes_again, submit, progress, shutdown, spin, here, next,
}

-- The queue holds at most two tasks for each worker, no worker is lost, what workers have taken
-- and what is queued are the accepted tasks in order, the queue is closed only once the pool is
-- canceled, workers exit only then, and nothing panics before the queue is closed.
pub record IsValid (p : WorkerPool) : Type 0 where
  pub room : length p.queue ≤ 2 * p.max_workers
  pub workers : p.idle + p.running + p.exited ≡ p.max_workers
  pub order : p.accepted ≡ p.taken ++ p.queue
  pub close : p.closed ≡ true → p.canceled ≡ true
  pub exit : p.canceled ≡ false → p.exited ≡ 0
  pub panic : p.panicked ≡ true → p.closed ≡ true

enqueue-IsValid :
    (t : Task) (p : WorkerPool)
    → length p.queue < 2 * p.max_workers
    → IsValid p
    → IsValid (enqueue t p)
enqueue-IsValid t p lt v = record {
  room = omega (arith, length-append p.queue (t ∷ []), lt);
  workers = v.workers;
  order = ap (λ l. l ++ t ∷ []) v.order ∙ append_assoc p.taken p.queue (t ∷ []);
  close = v.close;
  exit = v.exit;
  panic = v.panic;
}

-- The submitters that wait stand apart from all else.
unblock-IsValid : (b : List Task) (p : WorkerPool) → IsValid p → IsValid (record p { blocked = b })
unblock-IsValid b p v = record {
  room = v.room;
  workers = v.workers;
  order = v.order;
  close = v.close;
  exit = v.exit;
  panic = v.panic;
}

panic-IsValid :
    (p : WorkerPool) → p.closed ≡ true → IsValid p → IsValid (record p { panicked = true })
panic-IsValid p c v = record {
  room = v.room;
  workers = v.workers;
  order = v.order;
  close = v.close;
  exit = v.exit;
  panic = λ h. c;
}

Submit-IsValid : (p q : WorkerPool) → Submit p q → IsValid p → IsValid q
Submit-IsValid p q (queued t c lt e) v = subst IsValid (sym e) (enqueue-IsValid t p lt v)
Submit-IsValid p q (refused c e) v = subst IsValid (sym e) v
Submit-IsValid p q (panics c e) v = subst IsValid (sym e) (panic-IsValid p c v)
Submit-IsValid p q (blocks t c d le e) v =
    subst IsValid (sym e) (unblock-IsValid (p.blocked ++ t ∷ []) p v)

-- A worker has received the first task of the queue.
taken-order :
    (p : WorkerPool) (t : Task) (rest : List Task)
    → p.queue ≡ t ∷ rest
    → p.accepted ≡ p.taken ++ p.queue
    → p.accepted ≡ (p.taken ++ t ∷ []) ++ rest
taken-order p t rest e v = v ∙ ap (λ l. p.taken ++ l) e ∙ sym (append_assoc p.taken (t ∷ []) rest)

pub Progress-IsValid : (p q : WorkerPool) → Progress p q → IsValid p → IsValid q
Progress-IsValid p q (resumes before after t b c lt e) v =
    subst IsValid (sym e)
      (unblock-IsValid (before ++ after) (enqueue t p) (enqueue-IsValid t p lt v))
Progress-IsValid p q (releases before after t b c e) v =
    subst IsValid (sym e) (unblock-IsValid (before ++ after) p v)
Progress-IsValid p q (breaks before after t b c e) v = subst IsValid (sym e) (
    panic-IsValid (record p { blocked = before ++ after }) c
      (unblock-IsValid (before ++ after) p v))
Progress-IsValid p q (takes k n rest i l e) v = subst IsValid (sym e) (record {
  room = omega (arith, ap length l, v.room);
  workers = omega (arith, v.workers, i);
  order = taken-order p (some n) rest l v.order;
  close = v.close;
  exit = v.exit;
  panic = v.panic;
})
Progress-IsValid p q (skips k rest i l e) v = subst IsValid (sym e) (record {
  room = omega (arith, ap length l, v.room);
  workers = v.workers;
  order = taken-order p none rest l v.order;
  close = v.close;
  exit = v.exit;
  panic = v.panic;
})
Progress-IsValid p q (ends k r e) v = subst IsValid (sym e) (record {
  room = v.room;
  workers = omega (arith, v.workers, r);
  order = v.order;
  close = v.close;
  exit = v.exit;
  panic = v.panic;
})
Progress-IsValid p q (exits k i c e) v = subst IsValid (sym e) (record {
  room = v.room;
  workers = omega (arith, v.workers, i);
  order = v.order;
  close = v.close;
  exit = λ h. absurd (ground (arith, h, c));
  panic = v.panic;
})

Shutdown-IsValid : (p q : WorkerPool) → Shutdown p q → IsValid p → IsValid q
Shutdown-IsValid p q (cancels e) v = subst IsValid (sym e) (record {
  room = v.room;
  workers = v.workers;
  order = v.order;
  close = λ h. refl;
  exit = λ h. absurd (ground (arith, h));
  panic = v.panic;
})
Shutdown-IsValid p q (closes c d e) v = subst IsValid (sym e) (record {
  room = v.room;
  workers = v.workers;
  order = v.order;
  close = λ h. c;
  exit = v.exit;
  panic = λ h. refl;
})
Shutdown-IsValid p q (closes_again c d e) v = subst IsValid (sym e) (panic-IsValid p d v)

Step-IsValid : (p q : WorkerPool) → Step p q → IsValid p → IsValid q
Step-IsValid p q (submit s) v = Submit-IsValid p q s v
Step-IsValid p q (progress s) v = Progress-IsValid p q s v
Step-IsValid p q (shutdown s) v = Shutdown-IsValid p q s v
Step-IsValid p q (spin c l i e) v = subst IsValid (sym e) v

new_worker_pool-IsValid : (n : ℕ) → IsValid (new_worker_pool n)
new_worker_pool-IsValid n = record {
  room = omega arith;
  workers = omega arith;
  order = refl;
  close = λ h. absurd (ground (arith, h));
  exit = λ h. refl;
  panic = λ h. absurd (ground (arith, h));
}

-- In every state that a new pool reaches, by any calls and any scheduling, `IsValid` holds: the
-- queue is bounded, every worker is idle, running or gone, the accepted tasks are those that
-- workers took, in order, and then the queue, no worker is gone before the pool is canceled, and
-- nothing panics before the queue is closed.
pub Reach-IsValid : (n : ℕ) {p : WorkerPool} → Reach (new_worker_pool n) p → IsValid p
Reach-IsValid n here = new_worker_pool-IsValid n
Reach-IsValid n (next r s) = Step-IsValid _ _ s (Reach-IsValid n r)
