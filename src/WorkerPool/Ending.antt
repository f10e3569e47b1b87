-- ===== src/WorkerPool/Ending.antt =====
-- That the worker pool of pkg/pool/worker_pool.go comes to rest: its queue is drained, or, once it
-- is canceled, all workers return, for which `Shutdown` waits.
use go_pay.Prelude.{
  ℕ, zero, suc, ◌+◌, ◌-◌, ◌*◌, ◌≤◌, ◌<◌, ◌≡◌, refl, ap, ◌∙◌, ◌⊎◌, inl, inr, true, false, none, some,
  List, [], ◌∷◌, ◌++◌, length, length-append, arith, Bool-cases,
}
use go_pay.WorkerPool.{
  Task, WorkerPool, new_worker_pool, Submit, Progress, Shutdown, Step, Reach, queued, refused,
  panics, blocks, resumes, releases, breaks, takes, skips, ends, exits, cancels, closes,
  closes_again, submit, progress, shutdown, spin, here, next,
}
use go_pay.WorkerPool.Invariant.{IsValid, Progress-IsValid, Reach-IsValid}

-- The progress that can be made with no new call.
abbrev pub work : WorkerPool → ℕ
work p = 3 * length p.blocked + 2 * length p.queue + 2 * p.running + p.idle

length-middle :
    (xs before after : List Task) (t : Task)
    → xs ≡ before ++ t ∷ after
    → length xs ≡ suc (length (before ++ after))
length-middle xs before after t e =
    omega (arith, ap length e, length-append before (t ∷ after), length-append before after)

Progress-work : (p q : WorkerPool) → Progress p q → work q < work p
Progress-work p q (resumes before after t b c lt e) =
    rw e (omega (arith, length-middle p.blocked before after t b, length-append p.queue (t ∷ [])))
Progress-work p q (releases before after t b c e) =
    rw e (omega (arith, length-middle p.blocked before after t b))
Progress-work p q (breaks before after t b c e) =
    rw e (omega (arith, length-middle p.blocked before after t b))
Progress-work p q (takes k n rest i l e) = rw e (omega (arith, ap length l, i))
Progress-work p q (skips k rest i l e) = rw e (omega (arith, ap length l))
Progress-work p q (ends k r e) = rw e (omega (arith, r))
Progress-work p q (exits k i c e) = rw e (omega (arith, i))

Progress-max_workers : (p q : WorkerPool) → Progress p q → q.max_workers ≡ p.max_workers
Progress-max_workers p q (resumes before after t b c lt e) = ap (λ r. r.max_workers) e
Progress-max_workers p q (releases before after t b c e) = ap (λ r. r.max_workers) e
Progress-max_workers p q (breaks before after t b c e) = ap (λ r. r.max_workers) e
Progress-max_workers p q (takes k n rest i l e) = ap (λ r. r.max_workers) e
Progress-max_workers p q (skips k rest i l e) = ap (λ r. r.max_workers) e
Progress-max_workers p q (ends k r e) = ap (λ s. s.max_workers) e
Progress-max_workers p q (exits k i c e) = ap (λ r. r.max_workers) e

-- Nothing is left to do: all workers have returned and no `Submit` waits, or all workers wait for
-- tasks, of which there are none.
pub data Rested (p : WorkerPool) : Type 0 where
  stopped : p.canceled ≡ true → p.exited ≡ p.max_workers → p.blocked ≡ [] → Rested p
  drained : p.canceled ≡ false → p.queue ≡ [] → p.blocked ≡ [] → p.idle ≡ p.max_workers → Rested p

abbrev Ahead : WorkerPool → Type 0
Ahead p = ((q : WorkerPool) × Progress p q) ⊎ Rested p

ℕ-cases : (n : ℕ) → (n ≡ 0) ⊎ ((k : ℕ) × (n ≡ suc k))
ℕ-cases zero = inl refl
ℕ-cases (suc k) = inr (k, refl)

List-cases : (l : List Task) → (l ≡ []) ⊎ ((t : Task) × (r : List Task) × (l ≡ t ∷ r))
List-cases [] = inl refl
List-cases (t ∷ r) = inr (t, r, refl)

received :
    (p : WorkerPool) (k : ℕ) (t : Task) (rest : List Task)
    → p.idle ≡ suc k
    → p.queue ≡ t ∷ rest
    → Ahead p
received p k none rest i l = inl (_, skips k rest i l refl)
received p k (some n) rest i l = inl (_, takes k n rest i l refl)

open_progress :
    (p : WorkerPool) → IsValid p → 0 < p.max_workers → p.canceled ≡ false → p.running ≡ 0 → Ahead p
open_progress p v m c r =
    let all_idle : p.idle ≡ p.max_workers = omega (arith, v.workers, v.exit c, r) in
    elim (List-cases p.queue) [
      | inr (t, rest, l) ↦ received p (p.max_workers - 1) t rest (omega (arith, all_idle, m)) l
      | inl l ↦ elim (List-cases p.blocked) [
        | inl b ↦ inr (drained c l b all_idle)
        | inr (t, rest, b) ↦ elim (Bool-cases p.closed) [
          | inl d ↦ absurd (ground (arith, v.close d, c))
          | inr d ↦ inl (_, resumes [] rest t b d (omega (arith, ap length l, m)) refl)
        ]
      ]
    ]

canceled_progress : (p : WorkerPool) → IsValid p → p.canceled ≡ true → p.running ≡ 0 → Ahead p
canceled_progress p v c r = elim (List-cases p.blocked) [
  | inr (t, rest, b) ↦ inl (_, releases [] rest t b c refl)
  | inl b ↦ elim (ℕ-cases p.idle) [
    | inl i ↦ inr (stopped c (omega (arith, v.workers, i, r)) b)
    | inr (k, i) ↦ inl (_, exits k i c refl)
  ]
]

Ahead_lem : (p : WorkerPool) → IsValid p → 0 < p.max_workers → Ahead p
Ahead_lem p v m = elim (ℕ-cases p.running) [
  | inr (k, r) ↦ inl (_, ends k r refl)
  | inl r ↦ elim (Bool-cases p.canceled) [
    | inl c ↦ canceled_progress p v c r
    | inr c ↦ open_progress p v m c r
  ]
]

-- A run of `n` steps of progress, with no new call in between.
pub data Runs : ℕ → WorkerPool → WorkerPool → Type 0 where
  rests : (p : WorkerPool) → Runs 0 p p
  goes : {n : ℕ} {p q r : WorkerPool} → Progress p q → Runs n q r → Runs (suc n) p r

runs_end_from :
    {k : ℕ} {p q : WorkerPool}
    → IsValid p
    → 0 < p.max_workers
    → Runs k p q
    → (k + work q ≤ work p) × Ahead q
runs_end_from v m (rests p) = (omega arith, Ahead_lem p v m)
runs_end_from v m (goes {p} {q} s rest) =
    let (le, ahead) =
      runs_end_from (Progress-IsValid p q s v) (omega (arith, Progress-max_workers p q s, m))
        rest in
    (omega (arith, le, Progress-work p q s), ahead)

Submit-max_workers : (p q : WorkerPool) → Submit p q → q.max_workers ≡ p.max_workers
Submit-max_workers p q (queued t c lt e) = ap (λ r. r.max_workers) e
Submit-max_workers p q (refused c e) = ap (λ r. r.max_workers) e
Submit-max_workers p q (panics c e) = ap (λ r. r.max_workers) e
Submit-max_workers p q (blocks t c d le e) = ap (λ r. r.max_workers) e

Shutdown-max_workers : (p q : WorkerPool) → Shutdown p q → q.max_workers ≡ p.max_workers
Shutdown-max_workers p q (cancels e) = ap (λ r. r.max_workers) e
Shutdown-max_workers p q (closes c d e) = ap (λ r. r.max_workers) e
Shutdown-max_workers p q (closes_again c d e) = ap (λ r. r.max_workers) e

Step-max_workers : (p q : WorkerPool) → Step p q → q.max_workers ≡ p.max_workers
Step-max_workers p q (submit s) = Submit-max_workers p q s
Step-max_workers p q (progress s) = Progress-max_workers p q s
Step-max_workers p q (shutdown s) = Shutdown-max_workers p q s
Step-max_workers p q (spin c l i e) = ap (λ r. r.max_workers) e

new-max_workers : (n : ℕ) {p : WorkerPool} → Reach (new_worker_pool n) p → p.max_workers ≡ n
new-max_workers n here = refl
new-max_workers n (next r s) = Step-max_workers _ _ s ∙ new-max_workers n r

-- From any state that a new pool of at least one worker reaches, a run with no new call has at
-- most `work` steps beside the turns of workers on a closed, empty queue, which change nothing.
-- Where it can go no further the pool is at rest: if it is canceled, all workers have returned and
-- every `Submit` has, and otherwise the queue is empty and all workers wait.
pub runs_end :
    (n : ℕ) {k : ℕ} {p q : WorkerPool}
    → 0 < n
    → Reach (new_worker_pool n) p
    → Runs k p q
    → (k ≤ work p) × (((r : WorkerPool) × Progress q r) ⊎ Rested q)
runs_end n m reach run =
    let (le, ahead) =
      runs_end_from (Reach-IsValid n reach) (omega (arith, m, new-max_workers n reach)) run in
    (omega (arith, le), ahead)
