-- ===== src/Postgres/Retried.antt =====
-- What `withRetryValue` and `withRetry` of internal/repository/postgres.go make of an operation that
-- changes the table by a whole step or not at all.
use go_yandex_metrics.Base.{
  ℕ, zero, suc, ◌≤◌, ◌≡◌, refl, sym, ap, ◌∙◌, subst, ◌⊎◌, inl, inr, false, [], arith, Error, Result,
  ok, err,
}
use go_yandex_metrics.Repository.Merge.{View}
use go_yandex_metrics.Retry.{retry_intervals, world_at, FailsBefore, retry_loop-Retries}
use go_yandex_metrics.Postgres.{Database, is_retriable_postgres_error, with_retry}
use go_yandex_metrics.Postgres.Laws.{Sql, IsRejection}

-- A step, as often as said.
abbrev pub times : (View → View) → ℕ → View → View
times step zero f = f
times step (suc n) f = times step n (step f)

module _ (db : Database) (sql : Sql db) {A : Type 0} (step : View → View) (result : View → A)
    (operation : db.State → Result A × db.State) where
  open sql use {table}

  -- How one attempt ends: the step was made, with its result; or there is an error, and nothing was
  -- done, unless the error leaves that open, where the step was made as a whole or not at all.
  pub data AttemptEnds (s : db.State) (r : Result A × db.State) : Type 0 where
    succeeded : r.0 ≡ ok (result (table s)) → table r.1 ≡ step (table s) → AttemptEnds s r
    stopped :
        (e : Error)
        → r.0 ≡ err e
        → (table r.1 ≡ table s) ⊎ (¬ (IsRejection e) × (table r.1 ≡ step (table s)))
        → AttemptEnds s r

  -- What the attempts before the last one have left: each of them failed with an error of class 08,
  -- and some of them, by their number at most, made the step.
  pub record Earlier (s : db.State) (f : View) : Type 0 where
    pub tries : ℕ
    pub few : tries ≤ 3
    pub failures : FailsBefore is_retriable_postgres_error operation tries s
    pub made : ℕ
    pub within : made ≤ tries
    pub leaves : f ≡ times step made (table s)

  -- How the operation ends with its retries, `f` being what the earlier attempts left: the last
  -- attempt made the step, once; or it failed with an error that is not of class 08 or after all
  -- retries, and has left `f`, or made the step as a whole where the error leaves that open.
  pub data Retried (s : db.State) (r : Result A × db.State) : Type 0 where
    done : (f : View) → Earlier s f → r.0 ≡ ok (result f) → table r.1 ≡ step f → Retried s r
    failed :
        (f : View) (earlier : Earlier s f) (e : Error)
        → r.0 ≡ err e
        → (is_retriable_postgres_error e ≡ false) ⊎ (earlier.tries ≡ 3)
        → (table r.1 ≡ f) ⊎ (¬ (IsRejection e) × (table r.1 ≡ step f))
        → Retried s r

  module _ (P : View → Type 0) (keeps : (f : View) → P f → P (step f))
      (ends : (s : db.State) → P (table s) → AttemptEnds s (operation s)) where
    after_failure :
        (s : db.State) (e : Error)
        → P (table s)
        → (operation s).0 ≡ err e
        → (table (operation s).1 ≡ table s) ⊎ (table (operation s).1 ≡ step (table s))
    after_failure s e p fails = elim (ends s p) [
      | succeeded h h' ↦ absurd (cc (h, fails))
      | stopped e' h (inl same) ↦ inl same
      | stopped e' h (inr (open_end, made)) ↦ inr made
    ]

    table-world_at :
        (k : ℕ) (s : db.State)
        → P (table s)
        → FailsBefore is_retriable_postgres_error operation k s
        → let s' = world_at is_retriable_postgres_error operation k s in
          P (table s') × ((n : ℕ) × (n ≤ k) × (table s' ≡ times step n (table s)))
    unfolding world_at
    table-world_at zero s p fails = (p, (0, omega arith, refl))
    table-world_at (suc k) s p ((e, fails, again), rest) = elim (after_failure s e p fails) [
      | inl same ↦
          let (p', (n, h, h')) = table-world_at k (operation s).1 (subst P (sym same) p) rest in
          (p', (n, omega (arith, h), h' ∙ ap (times step n) same))
      | inr made ↦
          let (p', (n, h, h')) =
            table-world_at k (operation s).1 (subst P (sym made) (keeps (table s) p)) rest in
          (p', (suc n, omega (arith, h), h' ∙ ap (times step n) made))
    ]

    last-Retried :
        (s before : db.State) (earlier : Earlier s (table before))
        → ((e : Error) → (operation before).0 ≡ err e → is_retriable_postgres_error e ≡ false)
          ⊎ (earlier.tries ≡ 3)
        → P (table before)
        → AttemptEnds before (operation before)
        → Retried s (operation before) × P (table (operation before).1)
    last-Retried s before earlier final p (succeeded h h') =
        (done (table before) earlier h h', subst P (sym h') (keeps (table before) p))
    last-Retried s before earlier final p (stopped e h left) = (
      failed (table before) earlier e h (elim final [ inl f ↦ inl (f e h) | inr all ↦ inr all ])
          left,
      elim left [
        | inl same ↦ subst P (sym same) p
        | inr (open_end, made) ↦ subst P (sym made) (keeps (table before) p)
      ],
    )

    pub with_retry-Retried :
        (s : db.State)
        → P (table s)
        → let r = with_retry db operation s in Retried s r × P (table r.1)
    unfolding with_retry
    with_retry-Retried s p =
        let r = retry_loop-Retries is_retriable_postgres_error operation retry_intervals [] s in
        let before = world_at is_retriable_postgres_error operation r.last s in
        let (p', (n, h, h')) = table-world_at r.last s p r.before in
        let earlier : Earlier s (table before) = record {
          tries = r.last;
          few = r.bounded;
          failures = r.before;
          made = n;
          within = h;
          leaves = h';
        } in
        rw r.returns (last-Retried s before earlier r.final p' (ends before p'))
