-- ===== src/Postgres/Save.antt =====
-- `SaveMetrics` of internal/repository/postgres.go with its retries, and the last attempt of a read.
use go_yandex_metrics.Base.{
  ℕ, zero, suc, ◌≡◌, refl, ap, ◌∙◌, subst, ◌⊎◌, inl, inr, true, Option, some, [], arith,
  Option-cases, Error, Result, err,
}
use go_yandex_metrics.Model.{Metrics, MetricKey, key_of}
use go_yandex_metrics.Repository.Merge.{Context, validate_metric, IsValid, upsert, saved_view}
use go_yandex_metrics.Retry.{retry_intervals, world_at, FailsBefore, IsFinal, retry_loop-Retries}
use go_yandex_metrics.Postgres.{
  Database, is_retriable_postgres_error, scanned, scan_row, save_metric, with_retry, save_metrics,
}
use go_yandex_metrics.Postgres.Retried.{
  AttemptEnds, succeeded, stopped, Retried, with_retry-Retried,
}
use go_yandex_metrics.Postgres.Laws.{Sql, IsSound, upserted, stored_row, statement_of}
use go_yandex_metrics.Postgres.Upsert.{
  save_metric-statement_of, statement_key-statement_of, upserted-upsert, run_statement-saved_view,
  saved_view-IsSound,
}

module _ (db : Database) (sql : Sql db) where
  open sql use {table}

  -- The attempt whose outcome the retries return: the table was as before the first one, and either
  -- the attempt needs no retry, or three others have failed before it.
  pub record LastAttempt {A : Type 0} (operation : db.State → Result A × db.State) (s : db.State)
      : Type 0 where
    pub before : db.State
    pub same : table before ≡ table s
    pub returns : with_retry db operation s ≡ operation before
    pub final :
        IsFinal is_retriable_postgres_error operation (operation before).0
        ⊎ FailsBefore is_retriable_postgres_error operation 3 s

  -- An operation whose failures that are tried again change nothing, from the table of `s`.
  abbrev pub FailsClean : {A : Type 0} → (db.State → Result A × db.State) → db.State → Type 0
  FailsClean operation s =
      (before : db.State) (e : Error)
      → table before ≡ table s
      → (operation before).0 ≡ err e
      → is_retriable_postgres_error e ≡ true
      → table (operation before).1 ≡ table s

  table-world_at :
      {A : Type 0} (operation : db.State → Result A × db.State) (k : ℕ) (s before : db.State)
      → FailsClean operation s
      → table before ≡ table s
      → FailsBefore is_retriable_postgres_error operation k before
      → table (world_at is_retriable_postgres_error operation k before) ≡ table s
  unfolding world_at
  table-world_at operation zero s before clean same fails = same
  table-world_at operation (suc k) s before clean same ((e, fails, again), rest) =
      table-world_at operation k s (operation before).1 clean (clean before e same fails again) rest

  pub with_retry-LastAttempt :
      {A : Type 0} (operation : db.State → Result A × db.State) (s : db.State)
      → FailsClean operation s
      → LastAttempt operation s
  unfolding with_retry
  with_retry-LastAttempt operation s clean =
      let r = retry_loop-Retries is_retriable_postgres_error operation retry_intervals [] s in
      record {
        before = world_at is_retriable_postgres_error operation r.last s;
        same = table-world_at operation r.last s s clean refl r.before;
        returns = rw r.returns refl;
        final = elim r.final [
          | inl done ↦ inl done
          | inr all ↦
              inr (subst (λ k. FailsBefore is_retriable_postgres_error operation k s) all r.before)
        ];
      }

  -- How a save ends: the metric was valid, and the upsert of what the table keeps of it was tried; or
  -- it was invalid, and nothing was done.
  pub data SaveEnds (ctx : Context) (m : Metrics) (s : db.State) (r : Result Metrics × db.State)
      : Type 0 where
    tried :
        IsValid m
        → Retried db sql
            (λ f. saved_view f (stored_row m))
            (λ f. upsert (f (key_of m)) (stored_row m))
            (save_metric (db.query_row ctx) m)
            s
            r
        → IsSound (table r.1)
        → SaveEnds ctx m s r
    rejected : (e : Error) → validate_metric m ≡ some e → r ≡ (err e, s) → SaveEnds ctx m s r

  row-AttemptEnds :
      (ctx : Context) (m : Metrics) (s : db.State) (x : (Error ⊎ Option Metrics) × db.State)
      → db.query_row ctx (statement_of m) s ≡ x
      → IsValid m
      → IsSound (table s)
      → AttemptEnds db sql
          (λ f. saved_view f (stored_row m))
          (λ f. upsert (f (key_of m)) (stored_row m))
          (save_metric (db.query_row ctx) m)
          s
          (scan_row x)
  row-AttemptEnds ctx m s (inl e, s') does v sound =
      stopped e refl (elim (sql.fails ctx (statement_of m) s s' e does) [
        | inl same ↦ inl same
        | inr (open_end, made) ↦ inr (open_end, made ∙ run_statement-saved_view (table s) m sound v)
      ])
  row-AttemptEnds ctx m s (inr o, s') does v sound =
      let (row, after) = sql.runs ctx (statement_of m) s s' o does in
      let stored : o ≡ some (upsert (table s (key_of m)) (stored_row m)) =
        row
        ∙ ap (λ (k : MetricKey). upserted (table s k) (statement_of m))
            (statement_key-statement_of m)
        ∙ upserted-upsert (table s) m sound v in
      succeeded (ap {B = Result Metrics} (λ (x : Option Metrics). scanned (inr x)) stored)
        (after ∙ run_statement-saved_view (table s) m sound v)

  attempt-AttemptEnds :
      (ctx : Context) (m : Metrics) (s : db.State)
      → IsValid m
      → IsSound (table s)
      → AttemptEnds db sql
          (λ f. saved_view f (stored_row m))
          (λ f. upsert (f (key_of m)) (stored_row m))
          (save_metric (db.query_row ctx) m)
          s
          (save_metric (db.query_row ctx) m s)
  attempt-AttemptEnds ctx m s v sound =
      rw (save_metric-statement_of (db.query_row ctx) m s v)
        (row-AttemptEnds ctx m s (db.query_row ctx (statement_of m) s) refl v sound)

  -- `SaveMetrics` of the storage in Postgres, with its retries, on a table whose rows are valid, for
  -- any metric and any context, and a database that does what PostgreSQL documents. An invalid metric
  -- does nothing. For a valid one all rows are valid again, up to three attempts fail with an error of
  -- class 08 first, and each of these made the whole upsert or nothing. If the call succeeds, the last
  -- attempt has made the upsert once more, so once in all if no attempt failed, and the result is the
  -- row that it left. If it fails, its error is not of class 08 or all retries are used, and the last
  -- attempt has changed nothing, unless the error leaves that open, as that of an answer that was
  -- lost does: then it has made the whole upsert or nothing.
  pub save_metrics-SaveEnds :
      (ctx : Context) (m : Metrics) (s : db.State)
      → IsSound (table s)
      → SaveEnds ctx m s (save_metrics db ctx m s)
  unfolding save_metrics
  save_metrics-SaveEnds ctx m s sound = elim (Option-cases (validate_metric m)) [
    | inr (e, h) ↦
        let ends : save_metrics db ctx m s ≡ (err e, s) = ground (arith, h) in rejected e h ends
    | inl h ↦
        let (ended, sound') =
          with_retry-Retried db sql (λ f. saved_view f (stored_row m))
            (λ f. upsert (f (key_of m)) (stored_row m)) (save_metric (db.query_row ctx) m) IsSound
            (λ f x. saved_view-IsSound f m x h) (λ before x. attempt-AttemptEnds ctx m before h x) s
            sound in
        let ends : save_metrics db ctx m s ≡ with_retry db (save_metric (db.query_row ctx) m) s =
          ground (arith, h) in
        rw ends (tried h ended sound')
  ]
