-- ===== src/Postgres/Reads.antt =====
-- `GetMetricsByID` and `GetAllMetrics` of internal/repository/postgres.go with their retries.
use go_yandex_metrics.Base.{
  String, ◌≡◌, refl, sym, ap, ◌∙◌, subst, ◌⊎◌, inl, inr, false, Option, none, some, List, [], ◌∷◌,
  ◌++◌, map, arith, Error, Result, ok, err,
}
use mathlib.Core.List.{append_assoc, append-nil}
use go_yandex_metrics.Model.{Metrics}
use go_yandex_metrics.Repository.Merge.{Context, View}
use go_yandex_metrics.Repository.Contract.{Found, found, Lists}
use go_yandex_metrics.Postgres.{
  is_retriable_postgres_error, select_metric, Database, scan_rows, find_metric, list_metrics,
  get_metrics_by_id, get_all_metrics,
}
use go_yandex_metrics.Retry.{FailsBefore, IsFinal}
use go_yandex_metrics.Postgres.Laws.{Sql}
use go_yandex_metrics.Postgres.Save.{FailsClean, with_retry-LastAttempt}

-- Rows that all scan give their metrics, in order; one that does not gives its error.
data Scans (rows : List (Error ⊎ Metrics)) (metrics : List Metrics) (r : Result (List Metrics))
    : Type 0 where
  scanned_all :
      (ms : List Metrics) → rows ≡ map inr ms → r ≡ ok (metrics ++ ms) → Scans rows metrics r
  scan_failed : (e : Error) → r ≡ err e → Scans rows metrics r

scan_rows-Scans :
    (rows : List (Error ⊎ Metrics)) (metrics : List Metrics)
    → Scans rows metrics (scan_rows rows metrics)
unfolding scan_rows
scan_rows-Scans [] metrics =
    scanned_all [] refl (ap {B = Result (List Metrics)} ok (sym (append-nil metrics)))
scan_rows-Scans (inl e ∷ rows) metrics = scan_failed e refl
scan_rows-Scans (inr m ∷ rows) metrics = elim (scan_rows-Scans rows (metrics ++ m ∷ [])) [
  | scan_failed e h ↦ scan_failed e h
  | scanned_all ms h h' ↦
      scanned_all (m ∷ ms) (ap (λ (l : List (Error ⊎ Metrics)). inr m ∷ l) h)
        (h' ∙ ap {B = Result (List Metrics)} ok (append_assoc metrics (m ∷ []) ms))
]

module _ (db : Database) (sql : Sql db) where
  open sql use {table}

  -- How a listing ends: with each row of the table once, or with an error.
  pub data ListEnds (s : db.State) (r : Result (List Metrics)) : Type 0 where
    listed : (ms : List Metrics) → r ≡ ok ms → Lists (table s) ms → ListEnds s r
    failed : (e : Error) → r ≡ err e → ListEnds s r

  rows-ListEnds :
      (ctx : Context) (s before s' : db.State) (rows : List (Error ⊎ Metrics))
      (rows_error : Option Error)
      → table before ≡ table s
      → db.query_all ctx before ≡ (inr (rows, rows_error), s')
      → Scans rows [] (scan_rows rows [])
      → ListEnds s (list_metrics db ctx before).0
  unfolding list_metrics
  rows-ListEnds ctx s before s' rows rows_error same does (scan_failed e h) =
      failed e (ground (arith, does, h))
  rows-ListEnds ctx s before s' rows (some e) same does (scanned_all ms h h') =
      failed e (ground (arith, does, h'))
  rows-ListEnds ctx s before s' rows none same does (scanned_all ms h h') =
      listed ms (ground (arith, does, h'))
        (subst (λ (f : View). Lists f ms) same (sql.lists_all ctx before s' rows ms does h))

  attempt-ListEnds :
      (ctx : Context) (s before : db.State)
      (x : (Error ⊎ (List (Error ⊎ Metrics) × Option Error)) × db.State)
      → table before ≡ table s
      → db.query_all ctx before ≡ x
      → ListEnds s (list_metrics db ctx before).0
  unfolding list_metrics
  attempt-ListEnds ctx s before (inl e, s') same does = failed e (ground (arith, does))
  attempt-ListEnds ctx s before (inr (rows, rows_error), s') same does =
      rows-ListEnds ctx s before s' rows rows_error same does (scan_rows-Scans rows [])

  list_metrics-FailsClean :
      (ctx : Context) (s : db.State) → FailsClean db sql (list_metrics db ctx) s
  unfolding list_metrics
  list_metrics-FailsClean ctx s before e same fails again = sql.reads_only ctx before ∙ same

  -- `GetAllMetrics` of the storage in Postgres, with its retries, on a database that does what
  -- PostgreSQL documents: the table stays as it is, and the call returns each of its rows once, or an
  -- error.
  pub get_all_metrics-ListEnds :
      (ctx : Context) (s : db.State)
      → let (r, s') = get_all_metrics db ctx s in ListEnds s r × (table s' ≡ table s)
  unfolding get_all_metrics list_metrics
  get_all_metrics-ListEnds ctx s =
      let a =
        with_retry-LastAttempt db sql (list_metrics db ctx) s (list_metrics-FailsClean ctx s) in
      rw a.returns (
        attempt-ListEnds ctx s a.before (db.query_all ctx a.before) a.same refl,
        sql.reads_only ctx a.before ∙ a.same,
      )

  -- How a lookup ends: with what the table holds under the key, which may be nothing; or with the
  -- error that the statement of an attempt gave, on the same table, where that error is not of class
  -- 08 or three attempts have failed with such errors before. A missing row is no error.
  pub data LookupEnds (ctx : Context) (id m_type : String) (s : db.State) (r : Result Found)
      : Type 0 where
    looked_up :
        r ≡ ok (found (table s (record { id = id; m_type = m_type })))
        → LookupEnds ctx id m_type s r
    lookup_failed :
        (before : db.State) (e : Error)
        → table before ≡ table s
        → (db.query_row ctx (select_metric id m_type) before).0 ≡ inl e
        → r ≡ err e
        → (is_retriable_postgres_error e ≡ false)
          ⊎ FailsBefore is_retriable_postgres_error (find_metric db ctx id m_type) 3 s
        → LookupEnds ctx id m_type s r

  attempt-LookupEnds :
      (ctx : Context) (id m_type : String) (s before : db.State)
      (x : (Error ⊎ Option Metrics) × db.State)
      → table before ≡ table s
      → IsFinal is_retriable_postgres_error
          (find_metric db ctx id m_type)
          (find_metric db ctx id m_type before).0
        ⊎ FailsBefore is_retriable_postgres_error (find_metric db ctx id m_type) 3 s
      → db.query_row ctx (select_metric id m_type) before ≡ x
      → LookupEnds ctx id m_type s (find_metric db ctx id m_type before).0
  unfolding find_metric
  attempt-LookupEnds ctx id m_type s before (inl e, s') same final does =
      lookup_failed before e same (ground (arith, does)) (ground (arith, does))
        (elim final [ inl done ↦ inl (done e (ground (arith, does))) | inr all ↦ inr all ])
  attempt-LookupEnds ctx id m_type s before (inr o, s') same final does =
      let row = (sql.runs ctx (select_metric id m_type) before s' o does).0 in
      looked_up (ground (arith, does, row, same))

  -- `GetMetricsByID` of the storage in Postgres, with its retries, on a database that does what
  -- PostgreSQL documents: the table stays as it is, and the call answers without an error what the
  -- table holds under the name and the type, a missing row as not found, or returns an error that
  -- the statement itself gave on that table, which is not of class 08 or that of the fourth attempt.
  pub get_metrics_by_id-LookupEnds :
      (ctx : Context) (id m_type : String) (s : db.State)
      → let (r, s') = get_metrics_by_id db ctx id m_type s in
        LookupEnds ctx id m_type s r × (table s' ≡ table s)
  unfolding get_metrics_by_id find_metric
  get_metrics_by_id-LookupEnds ctx id m_type s =
      let a =
        with_retry-LastAttempt db sql (find_metric db ctx id m_type) s
          (λ before e same fails again. sql.selects_only ctx id m_type before ∙ same) in
      rw a.returns (
        attempt-LookupEnds ctx id m_type s a.before
            (db.query_row ctx (select_metric id m_type) a.before) a.same a.final refl,
        sql.selects_only ctx id m_type a.before ∙ a.same,
      )
