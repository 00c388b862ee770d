-- ===== src/Retry.antt =====
-- The retry loop that internal/repository/postgres.go (`withRetry`, `withRetryValue`) and
-- internal/agent (`sendAllMetricsWithRetry`, `sendAllMetricsGRPCWithRetry`) write out: an attempt,
-- and after a failure that may be retried a wait and another attempt, as long as there are
-- intervals left. An operation changes a world `W`; the waits are recorded in order, in seconds.
use mathlib.Core.List.{append_assoc, append-nil}
use go_yandex_metrics.Base.{
  ℕ, zero, suc, ◌≤◌, ◌≡◌, refl, ◌⊎◌, inl, inr, Bool, true, false, List, [], ◌∷◌, ◌++◌, arith,
  if◌then◌else◌, Bool-cases, length, take, Error, Result, ok, err, panic,
}

-- The intervals of `postgresRetryIntervals`, `retryIntervals` and `auditRetryIntervals`.
abbrev pub retry_intervals : List ℕ
retry_intervals = 1 ∷ 3 ∷ 5 ∷ []

module _ {W A : Type 0} (retriable : Error → Bool) (operation : W → Result A × W) where
  -- The round `attempt` of the loop stands at the intervals from `attempt` on; it is the last one
  -- where none is left.
  unfoldable pub retry_loop : List ℕ → List ℕ → W → Result A × W × List ℕ
  retry_loop [] slept w = let (r, w') = operation w in (r, w', slept)
  retry_loop (interval ∷ intervals) slept w =
      let (r, w') = operation w in
      elim r [
        | ok a ↦ (ok a, w', slept)
        | err e ↦
            let again = retry_loop intervals (slept ++ interval ∷ []) w' in
            if retriable e then again else (err e, w', slept)
        | panic ↦ (panic, w', slept)
      ]

  -- The world before the attempt `k`, and what that attempt gives.
  unfoldable pub world_at : ℕ → W → W
  world_at zero w = w
  world_at (suc k) w = world_at k (operation w).1

  -- The first `k` attempts all fail in a way that may be retried.
  abbrev pub FailsBefore : ℕ → W → Type 0
  FailsBefore zero w = Unit
  FailsBefore (suc k) w =
      ((e : Error) × ((operation w).0 ≡ err e) × (retriable e ≡ true))
      × FailsBefore k (operation w).1

  abbrev pub IsFinal : Result A → Type 0
  IsFinal r = (e : Error) → r ≡ err e → retriable e ≡ false

  -- The loop returns what its attempt `last` gives: every attempt before failed in a way that may
  -- be retried, the waits between them were the first intervals in order, and the attempt `last`
  -- either needs no retry or is the one after the last interval.
  pub record Retries (intervals slept : List ℕ) (w : W) : Type 0 where
    pub last : ℕ
    pub bounded : last ≤ length intervals
    pub before : FailsBefore last w
    pub returns : retry_loop intervals slept w ≡ (
      (operation (world_at last w)).0,
      (operation (world_at last w)).1,
      slept ++ take last intervals,
    )
    pub final : IsFinal (operation (world_at last w)).0 ⊎ (last ≡ length intervals)

  Retries-now :
      (interval : ℕ) (intervals slept : List ℕ) (w : W)
      → IsFinal (operation w).0
      → retry_loop (interval ∷ intervals) slept w ≡ ((operation w).0, (operation w).1, slept ++ [])
      → Retries (interval ∷ intervals) slept w
  unfolding world_at
  Retries-now interval intervals slept w done returns' = record {
    last = 0;
    bounded = omega arith;
    before = tt;
    returns = returns';
    final = inl done;
  }

  Retries-later :
      (interval : ℕ) (intervals slept : List ℕ) (w : W) (e : Error)
      → (operation w).0 ≡ err e
      → retriable e ≡ true
      → Retries intervals (slept ++ interval ∷ []) (operation w).1
      → Retries (interval ∷ intervals) slept w
  unfolding retry_loop world_at
  Retries-later interval intervals slept w e fails again rest = record {
    last = suc rest.last;
    bounded = omega (arith, rest.bounded);
    before = ((e, fails, again), rest.before);
    returns = ground (
      arith,
      fails,
      again,
      rest.returns,
      append_assoc slept (interval ∷ []) (take rest.last intervals),
    );
    final = elim rest.final [ inl done ↦ inl done | inr all ↦ inr (omega (arith, all)) ];
  }

  Retries-last : (slept : List ℕ) (w : W) → slept ++ [] ≡ slept → Retries [] slept w
  unfolding retry_loop world_at
  Retries-last slept w nothing = record {
    last = 0;
    bounded = omega arith;
    before = tt;
    returns = ground (arith, nothing);
    final = inr refl;
  }

  -- The retry loop over any intervals, with any operation: it returns what one of its attempts gave,
  -- all attempts before that one failed in a way that may be retried, the waits were the first
  -- intervals in order, and that attempt needs no retry or is the one after the last interval.
  pub retry_loop-Retries : (intervals slept : List ℕ) (w : W) → Retries intervals slept w
  unfolding retry_loop
  retry_loop-Retries [] slept w = Retries-last slept w (append-nil slept)
  retry_loop-Retries (interval ∷ intervals) slept w =
      go (operation w).0 refl
        (retry_loop-Retries intervals (slept ++ interval ∷ []) (operation w).1)
    where
      go :
          (r : Result A)
          → (operation w).0 ≡ r
          → Retries intervals (slept ++ interval ∷ []) (operation w).1
          → Retries (interval ∷ intervals) slept w
      go (ok a) h rest =
          Retries-now interval intervals slept w (λ e h'. cc) (ground (arith, h, append-nil slept))
      go panic h rest =
          Retries-now interval intervals slept w (λ e h'. cc) (ground (arith, h, append-nil slept))
      go (err e) h rest = elim (Bool-cases (retriable e)) [
        | inl again ↦ Retries-later interval intervals slept w e h again rest
        | inr final ↦
            Retries-now interval intervals slept w (λ e' h'. cc)
              (ground (arith, h, append-nil slept))
      ]
