-- ===== src/Workers.antt =====
-- internal/workerpool/workerpool.go: the pool of workers. A step is what the runtime lets happen next:
-- a send into the channel, a receive from it, the end of a task, the closing of the channel, and the
-- end of a worker. A task runs between its receive and its end; which of these comes next is open.
pub mod Bounds
pub mod Drain
use go_yandex_metrics.Base.{ℕ, suc, ◌+◌, ◌<◌, ◌≡◌, Bool, true, false, List, [], ◌∷◌, ◌++◌, length}

module _ (Task : Type 0) where
  -- `Pool`, with the workers that wait for a task, the tasks that run, and the numbers of workers
  -- that have ended; `added` and `finished` are the history.
  pub record Pool : Type 0 where
    pub max_workers : ℕ
    pub task_chan : List Task
    pub closed : Bool
    pub waiting : ℕ
    pub running : List Task
    pub ended : ℕ
    pub added : List Task
    pub finished : List Task

  -- `NewPool`
  abbrev pub new_pool : ℕ → Pool
  new_pool n = record {
    max_workers = n;
    task_chan = [];
    closed = false;
    waiting = 0;
    running = [];
    ended = 0;
    added = [];
    finished = [];
  }

  -- `Start`
  abbrev pub start : Pool → Pool
  start p = record p { waiting = p.waiting + p.max_workers }

  -- `AddTask`, once the channel takes the task.
  abbrev pub add_task : Task → Pool → Pool
  add_task t p = record p { task_chan = p.task_chan ++ t ∷ []; added = p.added ++ t ∷ [] }

  -- `Close`
  abbrev pub close : Pool → Pool
  close p = record p { closed = true }

  -- The loop of `worker`: a receive, the end of the task, and the end of the loop.
  abbrev pub receive : Task → List Task → ℕ → Pool → Pool
  receive t rest waiting p = record p {
    task_chan = rest;
    waiting = waiting;
    running = t ∷ p.running;
  }

  abbrev pub finish : List Task → Task → List Task → Pool → Pool
  finish before t after p = record p {
    waiting = suc p.waiting;
    running = before ++ after;
    finished = p.finished ++ t ∷ [];
  }

  abbrev pub end_worker : ℕ → Pool → Pool
  end_worker waiting p = record p { waiting = waiting; ended = suc p.ended }

  -- A send blocks while the channel is full. A task is handed over by way of the channel also to a
  -- worker that waits.
  pub data Step : Pool → Pool → Type 0 where
    adds :
        (p : Pool) (t : Task)
        → p.closed ≡ false
        → length p.task_chan < p.max_workers
        → Step p (add_task t p)
    receives :
        (p : Pool) (t : Task) (rest : List Task) (n : ℕ)
        → p.task_chan ≡ t ∷ rest
        → p.waiting ≡ suc n
        → Step p (receive t rest n p)
    finishes :
        (p : Pool) (before after : List Task) (t : Task)
        → p.running ≡ before ++ t ∷ after
        → Step p (finish before t after p)
    closes : (p : Pool) → p.closed ≡ false → Step p (close p)
    ends :
        (p : Pool) (n : ℕ)
        → p.closed ≡ true
        → p.task_chan ≡ []
        → p.waiting ≡ suc n
        → Step p (end_worker n p)

  -- Any number of steps.
  pub data Steps : Pool → Pool → Type 0 where
    done : (p : Pool) → Steps p p
    more : (p q r : Pool) → Step p q → Steps q r → Steps p r

  -- `Wait` returns once every worker has ended.
  abbrev pub HasEnded : Pool → Type 0
  HasEnded p = p.ended ≡ p.max_workers
