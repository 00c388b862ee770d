-- ===== src/Workers/Bounds.antt =====
-- How much the pool of workers holds, internal/workerpool/workerpool.go.
use go_yandex_metrics.Base.{
  ℕ, ◌+◌, ◌≤◌, ◌<◌, ◌≡◌, refl, ap, true, List, [], ◌∷◌, ◌++◌, arith, length, length-append,
}
use go_yandex_metrics.Workers.{
  Pool, new_pool, start, Step, adds, receives, finishes, closes, ends, Steps, done, more,
}

module _ {Task : Type 0} where
  -- The sum of a weight over tasks; two lists with the same sum for each weight have the same tasks
  -- equally often.
  pub total : (Task → ℕ) → List Task → ℕ
  total f [] = 0
  total f (t ∷ ts) = f t + total f ts

  pub total-append :
      (f : Task → ℕ) (ts us : List Task) → total f (ts ++ us) ≡ total f ts + total f us
  unfolding total
  total-append f [] us = omega arith
  total-append f (t ∷ ts) us = omega (arith, total-append f ts us)

  -- An empty list weighs nothing.
  pub total-empty : (f : Task → ℕ) (ts : List Task) → length ts ≡ 0 → total f ts ≡ 0
  unfolding total
  total-empty f [] e = refl
  total-empty f (t ∷ ts) e = absurd (omega (arith, e))

  pub total-one : (f : Task → ℕ) (t : Task) → total f (t ∷ []) ≡ f t
  unfolding total
  total-one f t = omega arith

  pub total-cons : (f : Task → ℕ) (t : Task) (ts : List Task) → total f (t ∷ ts) ≡ f t + total f ts
  unfolding total
  total-cons f t ts = refl

  -- Every worker waits, runs a task or has ended; the channel is not over its capacity; and each
  -- task that was added is in the channel, runs, or has finished, exactly once.
  pub record IsSound (p : Pool Task) : Type 0 where
    pub workers : p.waiting + length p.running + p.ended ≡ p.max_workers
    pub capacity : length p.task_chan ≤ p.max_workers
    pub accounted :
        (f : Task → ℕ)
        → total f p.added ≡ total f p.task_chan + total f p.running + total f p.finished
    pub drained : 0 < p.ended → (p.closed ≡ true) × (p.task_chan ≡ [])

  Step-IsSound : (p q : Pool Task) → Step Task p q → IsSound p → IsSound q
  Step-IsSound p q (adds p' t opened room) s = record {
    workers = s.workers;
    capacity = omega (arith, length-append p.task_chan (t ∷ []), room);
    accounted = λ f. omega (
      arith,
      s.accounted f,
      total-append f p.added (t ∷ []),
      total-append f p.task_chan (t ∷ []),
    );
    drained = λ e. absurd (ground (arith, opened, s.drained e));
  }
  Step-IsSound p q (receives p' t rest n there free) s = record {
    workers = omega (arith, s.workers, free);
    capacity = omega (arith, s.capacity, ap (λ (l : List Task). length l) there);
    accounted = λ f. omega (
      arith,
      s.accounted f,
      ap (λ (l : List Task). total f l) there,
      total-cons f t rest,
      total-cons f t p.running,
    );
    drained = λ e. absurd (ground (arith, there, s.drained e));
  }
  Step-IsSound p q (finishes p' before after t runs) s = record {
    workers = omega (
      arith,
      s.workers,
      ap (λ (l : List Task). length l) runs,
      length-append before (t ∷ after),
      length-append before after,
    );
    capacity = s.capacity;
    accounted = λ f. omega (
      arith,
      s.accounted f,
      ap (λ (l : List Task). total f l) runs,
      total-append f before (t ∷ after),
      total-cons f t after,
      total-append f before after,
      total-append f p.finished (t ∷ []),
      total-one f t,
    );
    drained = s.drained;
  }
  Step-IsSound p q (closes p' opened) s = record {
    workers = s.workers;
    capacity = s.capacity;
    accounted = s.accounted;
    drained = λ e. (refl, (s.drained e).1);
  }
  Step-IsSound p q (ends p' n shut empty free) s = record {
    workers = omega (arith, s.workers, free);
    capacity = s.capacity;
    accounted = s.accounted;
    drained = λ e. (shut, empty);
  }

  pub start-IsSound : (n : ℕ) → IsSound (start Task (new_pool Task n))
  unfolding total
  start-IsSound n = record {
    workers = omega arith;
    capacity = omega arith;
    accounted = λ f. omega arith;
    drained = λ e. absurd (omega (arith, e));
  }

  pub steps-IsSound : (p q : Pool Task) → Steps Task p q → IsSound p → IsSound q
  steps-IsSound p q (done p') s = s
  steps-IsSound p q (more p' m r step rest) s = steps-IsSound m q rest (Step-IsSound p m step s)
