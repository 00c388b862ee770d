-- ===== src/Workers/Drain.antt =====
-- How the pool of workers comes to its end, internal/workerpool/workerpool.go.
use go_yandex_metrics.Base.{
  ℕ, zero, suc, ◌+◌, ◌*◌, ◌≤◌, ◌<◌, ◌≡◌, refl, ap, ◌∙◌, ◌⊎◌, inl, inr, true, List, [], ◌∷◌, arith,
  length, length-append,
}
use go_yandex_metrics.Workers.{
  Pool, new_pool, start, receive, finish, end_worker, Step, adds, receives, finishes, closes, ends,
  Steps, done, more, HasEnded,
}
use go_yandex_metrics.Workers.Bounds.{total, total-empty, IsSound, start-IsSound, steps-IsSound}

module _ {Task : Type 0} where
  -- What is left to do, in steps: three for a task in the channel, two for one that runs, and one for
  -- a worker that waits.
  abbrev pub work : Pool Task → ℕ
  work p = 3 * length p.task_chan + 2 * length p.running + p.waiting

  -- After the closing no step adds work.
  Step-work :
      (p q : Pool Task) → Step Task p q → p.closed ≡ true → (q.closed ≡ true) × (work q < work p)
  Step-work p q (adds p' t opened room) c = absurd (ground (arith, opened, c))
  Step-work p q (receives p' t rest n there free) c =
      (c, omega (arith, free, ap (λ (l : List Task). length l) there))
  Step-work p q (finishes p' before after t runs) c = (
    c,
    omega (
      arith,
      ap (λ (l : List Task). length l) runs,
      length-append before (t ∷ after),
      length-append before after,
    ),
  )
  Step-work p q (closes p' opened) c = absurd (ground (arith, opened, c))
  Step-work p q (ends p' n shut empty free) c = (c, omega (arith, free))

  pub steps_of : (p q : Pool Task) → Steps Task p q → ℕ
  steps_of p q (done p') = 0
  steps_of p q (more p' m r step rest) = suc (steps_of m q rest)

  steps_of-work :
      (p q : Pool Task) (run : Steps Task p q)
      → p.closed ≡ true
      → (q.closed ≡ true) × (steps_of p q run + work q ≤ work p)
  unfolding steps_of
  steps_of-work p q (done p') c = (c, omega arith)
  steps_of-work p q (more p' m r step rest) c =
      let (c', less) = Step-work p m step c in
      let (c'', bound) = steps_of-work m q rest c' in (c'', omega (arith, less, bound))

  -- A pool that is closed goes on, or all of its workers have ended.
  proceeds :
      (p : Pool Task)
      → IsSound p
      → p.closed ≡ true
      → HasEnded Task p ⊎ ((q : Pool Task) × Step Task p q)
  proceeds p s c = by_running p.running refl p.waiting refl p.task_chan refl
    where
      by_running :
          (running : List Task)
          → p.running ≡ running
          → (waiting : ℕ) → p.waiting ≡ waiting
          → (task_chan : List Task) → p.task_chan ≡ task_chan
          → HasEnded Task p ⊎ ((q : Pool Task) × Step Task p q)
      by_running (t ∷ ts) e n e' l e'' = inr (finish Task [] t ts p, finishes p [] ts t e)
      by_running [] e zero e' l e'' =
          inl (omega (arith, s.workers, e', ap (λ (x : List Task). length x) e))
      by_running [] e (suc n) e' [] e'' = inr (end_worker Task n p, ends p n c e'' e')
      by_running [] e (suc n) e' (t ∷ l) e'' = inr (receive Task t l n p, receives p t l n e'' e')

  max_workers-Step : (p q : Pool Task) → Step Task p q → q.max_workers ≡ p.max_workers
  max_workers-Step p q (adds p' t opened room) = refl
  max_workers-Step p q (receives p' t rest n there free) = refl
  max_workers-Step p q (finishes p' before after t runs) = refl
  max_workers-Step p q (closes p' opened) = refl
  max_workers-Step p q (ends p' n shut empty free) = refl

  max_workers-steps : (p q : Pool Task) → Steps Task p q → q.max_workers ≡ p.max_workers
  max_workers-steps p q (done p') = refl
  max_workers-steps p q (more p' m r step rest) =
      max_workers-steps m q rest ∙ max_workers-Step p m step

  -- However its steps come, a pool of `n` workers that was started never runs more than `n` tasks at
  -- once, nor holds more than `n` in its channel.
  pub steps-bounded :
      (n : ℕ) (p : Pool Task)
      → Steps Task (start Task (new_pool Task n)) p
      → (length p.running ≤ n) × (length p.task_chan ≤ n)
  steps-bounded n p run =
      let s = steps-IsSound _ p run (start-IsSound n) in
      let same = max_workers-steps _ p run in
      (omega (arith, s.workers, same), omega (arith, s.capacity, same))

  ended-empty : (p : Pool Task) → IsSound p → HasEnded Task p → length p.task_chan ≡ 0
  ended-empty p s e = by_ended p.ended refl
    where
      by_ended : (n : ℕ) → p.ended ≡ n → length p.task_chan ≡ 0
      by_ended zero e' = omega (arith, s.capacity, e, e')
      by_ended (suc n) e' = ap (λ (l : List Task). length l) (s.drained (omega (arith, e'))).1

  ended-total :
      (p : Pool Task)
      → IsSound p
      → HasEnded Task p
      → (f : Task → ℕ) → total f p.finished ≡ total f p.added
  ended-total p s e f =
      let idle : length p.running ≡ 0 = omega (arith, s.workers, e) in
      omega (
        arith,
        s.accounted f,
        total-empty f p.running idle,
        total-empty f p.task_chan (ended-empty p s e),
      )

  -- After the closing of a pool that was started, every run takes at most the steps that were left to
  -- do, and stops only where `Wait` returns; there every task that was ever added has finished exactly
  -- once.
  pub close-drains :
      (n : ℕ) (p q : Pool Task) (run : Steps Task p q)
      → Steps Task (start Task (new_pool Task n)) p
      → p.closed ≡ true
      → (steps_of p q run ≤ work p)
        × (HasEnded Task q ⊎ ((r : Pool Task) × Step Task q r))
        × (HasEnded Task q → (f : Task → ℕ) → total f q.finished ≡ total f q.added)
  close-drains n p q run before c =
      let s = steps-IsSound p q run (steps-IsSound _ p before (start-IsSound n)) in
      let (c', bound) = steps_of-work p q run c in
      (omega (arith, bound), proceeds q s c', ended-total q s)
