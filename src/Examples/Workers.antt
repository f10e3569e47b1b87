-- ===== src/Examples/Workers.antt =====
-- A worker pool with one worker, and one task.
use go_pay.Prelude.{◌≤◌, ◌⊎◌, refl, some, [], ◌∷◌, arith}
use go_pay.WorkerPool.{
  WorkerPool, new_worker_pool, enqueue, Progress, Reach, queued, takes, ends, submit, progress,
  here, next,
}
use go_pay.WorkerPool.Invariant.{IsValid, Reach-IsValid}
use go_pay.WorkerPool.Ending.{work, Rested, Runs, rests, goes, runs_end}

abbrev waiting : WorkerPool
waiting = enqueue (some 7) (new_worker_pool 1)

abbrev submitted : Reach (new_worker_pool 1) waiting
submitted = next here (submit (queued (some 7) refl (omega arith) refl))

abbrev busy : WorkerPool
busy = record waiting { queue = []; idle = 0; running = 1; taken = some 7 ∷ [] }

abbrev done : WorkerPool
done = record busy { idle = 1; running = 0 }

abbrev served : Runs 2 waiting done
served = goes (takes 0 7 [] refl refl refl) (goes (ends 0 refl refl) (rests done))

Reach-IsValid_example : IsValid busy
Reach-IsValid_example = Reach-IsValid 1 (next submitted (progress (takes 0 7 [] refl refl refl)))

runs_end_example : (2 ≤ work waiting) × (((r : WorkerPool) × Progress done r) ⊎ Rested done)
runs_end_example = runs_end 1 (omega arith) submitted served
