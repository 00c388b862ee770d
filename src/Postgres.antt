-- ===== src/Postgres.antt =====
-- internal/repository/postgres.go: the storage in PostgreSQL. The database and its driver are a
-- parameter: connections run the statements of the source, each of which may fail, and what a
-- statement does to the table is documented by PostgreSQL (`Sql` in Laws). One call of the storage is
-- one step: other clients run before it and after it.
pub mod Laws
pub mod Upsert
pub mod Retried
pub mod Save
pub mod Batch
pub mod Reads
use go_yandex_metrics.Base.{
  ℕ, String, ◌⊎◌, inl, inr, Bool, false, ◌&&◌, Option, none, some, List, [], ◌∷◌, ◌++◌, ◌==◌,
  if◌then◌else◌, str_eq, set, Error, message, detail, code, wrap, join, Result, ok, err, panic,
}
use go_yandex_metrics.Base.Text.{Bytes, codes}
use go_yandex_metrics.Model.{Metrics, counter, gauge}
use go_yandex_metrics.Repository.Merge.{Context, validate_metric}
use go_yandex_metrics.Repository.Memory.{validate_all}
use go_yandex_metrics.Repository.Contract.{Storage, Found, found}
use go_yandex_metrics.Retry.{retry_intervals, retry_loop}

-- The statements of the source with their arguments; an argument of `none` is NULL.
pub data Statement : Type 0 where
  select_metric : String → String → Statement
  upsert_delta upsert_value : String → String → Option ℕ → Statement

-- `*sql.DB` and `*sql.Tx`. `query_row` is `QueryRowContext` with `Scan`, where `none` is
-- `sql.ErrNoRows`; `query_all` is `QueryContext` of the whole table, with what each `Scan` gives and
-- with `rows.Err`.
pub record Database : Type 1 where
  pub State : Type 0
  pub Tx : Type 0
  pub query_row : Context → Statement → State → (Error ⊎ Option Metrics) × State
  pub query_all : Context → State → (Error ⊎ (List (Error ⊎ Metrics) × Option Error)) × State
  pub begin : Context → State → (Error ⊎ Tx) × State
  pub tx_query_row : Context → Statement → Tx → (Error ⊎ Option Metrics) × Tx
  pub commit : Tx → State → Option Error × State
  pub rollback : Tx → State → Option Error × State

-- The code of the first `PgError` in an error, as `errors.As` searches it.
unfoldable pub pg_code : Error → Option String
pg_code (code c) = some c
pg_code (wrap text e) = pg_code e
pg_code (join e e') = elim (pg_code e) [ some c ↦ some c | none ↦ pg_code e' ]
pg_code _ = none

unfoldable pub begins_08 : Bytes → Bool
begins_08 (a ∷ b ∷ rest) = a == 48 && b == 56
begins_08 _ = false

-- `isRetriablePostgresError`
unfoldable pub is_retriable_postgres_error : Error → Bool
unfolding pg_code begins_08
is_retriable_postgres_error e = elim (pg_code e) [ none ↦ false | some c ↦ begins_08 (codes c) ]

-- `errors.Join(err, other)` where `err` is not nil.
abbrev pub join_errors : Error → Option Error → Error
join_errors e none = e
join_errors e (some other) = join e other

-- What `Scan` of one row makes of its outcome.
abbrev pub scanned : Error ⊎ Option Metrics → Result Metrics
scanned (inl e) = err e
scanned (inr none) = err (message "sql: no rows in result set")
scanned (inr (some m)) = ok m

abbrev pub scan_row : {Q : Type 0} → (Error ⊎ Option Metrics) × Q → Result Metrics × Q
scan_row (row, q) = (scanned row, q)

-- The loop over the rows.
unfoldable pub scan_rows : List (Error ⊎ Metrics) → List Metrics → Result (List Metrics)
scan_rows [] metrics = ok metrics
scan_rows (row ∷ rows) metrics = elim row [
  | inl e ↦ err e
  | inr metric ↦ scan_rows rows (metrics ++ metric ∷ [])
]

-- `saveMetric` over a connection or a transaction `Q`.
unfoldable pub save_metric :
    {Q : Type 0} → (Statement → Q → (Error ⊎ Option Metrics) × Q) → Metrics → Q → Result Metrics × Q
save_metric query_row metric q =
    if str_eq metric.m_type counter
    then scan_row (query_row (upsert_delta metric.id metric.m_type metric.delta) q)
    else if str_eq metric.m_type gauge
    then scan_row (query_row (upsert_value metric.id metric.m_type metric.value) q)
    else (err (detail "unsupported metric type" metric.m_type), q)

module _ (db : Database) where
  -- The operation of `GetMetricsByID`.
  unfoldable pub find_metric : Context → String → String → db.State → Result Found × db.State
  find_metric ctx id m_type s =
      let (row, s') = db.query_row ctx (select_metric id m_type) s in
      (elim row [ inl e ↦ err e | inr o ↦ ok (found o) ], s')

  -- The operation of `GetAllMetrics`.
  unfoldable pub list_metrics : Context → db.State → Result (List Metrics) × db.State
  list_metrics ctx s =
      let (rows, s') = db.query_all ctx s in
      (
        elim rows [
          | inl e ↦ err e
          | inr (scans, rows_error) ↦ elim (scan_rows scans []) [
            | err e ↦ err e
            | panic ↦ panic
            | ok metrics ↦ elim rows_error [ some e ↦ err e | none ↦ ok metrics ]
          ]
        ],
        s',
      )

  -- The loop over the metrics of a batch in its transaction.
  unfoldable pub save_in_tx :
      Context → List Metrics → List Metrics → db.Tx → Result (List Metrics) × db.Tx
  save_in_tx ctx [] saved tx = (ok saved, tx)
  save_in_tx ctx (metric ∷ metrics) saved tx =
      let (r, tx') = save_metric (db.tx_query_row ctx) metric tx in
      elim r [
        | ok saved_metric ↦ save_in_tx ctx metrics (saved ++ saved_metric ∷ []) tx'
        | err e ↦ (err e, tx')
        | panic ↦ (panic, tx')
      ]

  -- The operation of `SaveMetricsBatch`.
  unfoldable pub save_all_in_tx :
      Context → List Metrics → db.State → Result (List Metrics) × db.State
  save_all_in_tx ctx metrics s =
      let (t, s') = db.begin ctx s in
      elim t [
        | inl e ↦ (err e, s')
        | inr tx ↦
            let (r, tx') = save_in_tx ctx metrics [] tx in
            elim r [
              | err e ↦ let (rolled, s'') = db.rollback tx' s' in (err (join_errors e rolled), s'')
              | panic ↦ (panic, s')
              | ok saved ↦
                  let (committed, s'') = db.commit tx' s' in
                  (elim committed [ some e ↦ err e | none ↦ ok saved ], s'')
            ]
      ]

  -- `withRetryValue` and `withRetry`, without the waits.
  unfoldable pub with_retry :
      {A : Type 0} → (db.State → Result A × db.State) → db.State → Result A × db.State
  with_retry operation s =
      let (r, s', slept) = retry_loop is_retriable_postgres_error operation retry_intervals [] s in
      (r, s')

  unfoldable pub get_metrics_by_id : Context → String → String → db.State → Result Found × db.State
  get_metrics_by_id ctx id m_type = with_retry (find_metric ctx id m_type)

  unfoldable pub get_all_metrics : Context → db.State → Result (List Metrics) × db.State
  get_all_metrics ctx = with_retry (list_metrics ctx)

  unfoldable pub save_metrics : Context → Metrics → db.State → Result Metrics × db.State
  save_metrics ctx metric s = elim (validate_metric metric) [
    | some e ↦ (err e, s)
    | none ↦ with_retry (save_metric (db.query_row ctx) metric) s
  ]

  unfoldable pub save_metrics_batch :
      Context → List Metrics → db.State → Result (List Metrics) × db.State
  save_metrics_batch ctx metrics s = elim (validate_all metrics) [
    | some e ↦ (err e, s)
    | none ↦ with_retry (save_all_in_tx ctx metrics) s
  ]

-- `NewPostgresStorage`, as a storage of the service.
abbrev pub postgres_storage : Database → Storage
postgres_storage db = record {
  State = db.State;
  get_metrics_by_id = get_metrics_by_id db;
  get_all_metrics = get_all_metrics db;
  save_metrics = save_metrics db;
  save_metrics_batch = save_metrics_batch db;
}
