-- ===== src/Postgres/Laws.antt =====
-- What PostgreSQL documents of the statements of internal/repository/postgres.go, on the table of
-- migrations/000001_create_tables.up.sql, and what the retries make of it.
use go_yandex_metrics.Base.{
  ℕ, String, ◌≡◌, ◌≢◌, ◌⊎◌, inl, inr, false, Option, none, some, List, map, arith, if◌then◌else◌,
  str_eq, str_eq_iff, Error,
}
use go_yandex_metrics.Base.Text.{codes}
use go_yandex_metrics.Model.{Metrics, MetricKey, counter, gauge, key_of, key_eq}
use go_yandex_metrics.Base.Int64.{add64}
use go_yandex_metrics.Repository.Merge.{Context, validate_metric, IsValid, View}
use go_yandex_metrics.Repository.Contract.{Lists}
use go_yandex_metrics.Postgres.{
  Statement, select_metric, upsert_delta, upsert_value, Database, pg_code, begins_08,
}

-- `delta + EXCLUDED.delta`: NULL if one of them is, and no wrap, since the sum must fit a bigint.
abbrev pub sum_null : Option ℕ → Option ℕ → Option ℕ
sum_null none b = none
sum_null (some a) none = none
sum_null (some a) (some b) = some (add64 a b)

-- The row after an upsert, by the row before it.
abbrev pub upserted : Option Metrics → Statement → Option Metrics
upserted o (select_metric id m_type) = o
upserted none (upsert_delta id m_type d) =
    some (record { id = id; m_type = m_type; delta = d; value = none; hash = "" })
upserted (some old) (upsert_delta id m_type d) = some (record old { delta = sum_null old.delta d })
upserted none (upsert_value id m_type v) =
    some (record { id = id; m_type = m_type; delta = none; value = v; hash = "" })
upserted (some old) (upsert_value id m_type v) = some (record old { value = v })

abbrev pub statement_key : Statement → MetricKey
statement_key (select_metric id m_type) = record { id = id; m_type = m_type }
statement_key (upsert_delta id m_type d) = record { id = id; m_type = m_type }
statement_key (upsert_value id m_type v) = record { id = id; m_type = m_type }

-- The table after a statement.
abbrev pub run_statement : View → Statement → View
run_statement f stmt k =
    if key_eq (statement_key stmt) k then upserted (f (statement_key stmt)) stmt else f k

-- An error that tells that nothing was done: one that the server gives, outside class 08 (the
-- connection, where also 08007 leaves the outcome of a transaction open) and not 40003, where the
-- completion of the statement is unknown. Any other error may be that of an answer that was lost.
abbrev pub IsRejection : Error → Type 0
IsRejection e = (c : String) × (pg_code e ≡ some c) × (begins_08 (codes c) ≡ false) × (c ≢ "40003")

-- What is documented. A statement that succeeds returns the row that it leaves and has changed that
-- row alone; one that fails has changed nothing, unless its error leaves that open, where it has
-- been done or not. A transaction starts from the table; a commit that succeeds puts its rows in
-- place, one that fails has put none, unless its error leaves that open, where it has put all or
-- none; and a rollback leaves the table, also where it fails.
pub record Sql (db : Database) : Type 0 where
  pub table : db.State → View
  pub tx_table : db.Tx → View
  pub runs :
      (ctx : Context) (stmt : Statement) (s s' : db.State) (o : Option Metrics)
      → db.query_row ctx stmt s ≡ (inr o, s')
      → (o ≡ upserted (table s (statement_key stmt)) stmt)
        × (table s' ≡ run_statement (table s) stmt)
  pub fails :
      (ctx : Context) (stmt : Statement) (s s' : db.State) (e : Error)
      → db.query_row ctx stmt s ≡ (inl e, s')
      → (table s' ≡ table s) ⊎ (¬ (IsRejection e) × (table s' ≡ run_statement (table s) stmt))
  pub lists_all :
      (ctx : Context) (s s' : db.State) (rows : List (Error ⊎ Metrics)) (ms : List Metrics)
      → db.query_all ctx s ≡ (inr (rows, none), s')
      → rows ≡ map inr ms
      → Lists (table s) ms
  pub reads_only : (ctx : Context) (s : db.State) → table (db.query_all ctx s).1 ≡ table s
  pub selects_only :
      (ctx : Context) (id m_type : String) (s : db.State)
      → table (db.query_row ctx (select_metric id m_type) s).1 ≡ table s
  pub begins :
      (ctx : Context) (s s' : db.State) (tx : db.Tx)
      → db.begin ctx s ≡ (inr tx, s')
      → (tx_table tx ≡ table s) × (table s' ≡ table s)
  pub begin_fails :
      (ctx : Context) (s s' : db.State) (e : Error)
      → db.begin ctx s ≡ (inl e, s')
      → table s' ≡ table s
  pub tx_runs :
      (ctx : Context) (stmt : Statement) (tx tx' : db.Tx) (o : Option Metrics)
      → db.tx_query_row ctx stmt tx ≡ (inr o, tx')
      → (o ≡ upserted (tx_table tx (statement_key stmt)) stmt)
        × (tx_table tx' ≡ run_statement (tx_table tx) stmt)
  pub commits :
      (tx : db.Tx) (s s' : db.State) → db.commit tx s ≡ (none, s') → table s' ≡ tx_table tx
  pub commit_fails :
      (tx : db.Tx) (s s' : db.State) (e : Error)
      → db.commit tx s ≡ (some e, s')
      → (table s' ≡ table s) ⊎ (¬ (IsRejection e) × (table s' ≡ tx_table tx))
  pub rolls_back : (tx : db.Tx) (s : db.State) → table (db.rollback tx s).1 ≡ table s

-- A table whose rows the program has written: each under its own key, and valid.
pub record IsSound (f : View) : Type 0 where
  pub rows :
      (k : MetricKey) (m : Metrics) → f k ≡ some m → IsValid m × (key_of m ≡ k) × (m.hash ≡ "")

-- What the table keeps of a metric: the number of its type.
abbrev pub stored_row : Metrics → Metrics
stored_row m = record m {
  delta = if str_eq m.m_type counter then m.delta else none;
  value = if str_eq m.m_type gauge then m.value else none;
  hash = "";
}

-- The statement of a metric.
abbrev pub statement_of : Metrics → Statement
statement_of m =
    if str_eq m.m_type counter
    then upsert_delta m.id m.m_type m.delta
    else upsert_value m.id m.m_type m.value

pub stored_row-IsValid : (m : Metrics) → IsValid m → IsValid (stored_row m)
unfolding validate_metric
stored_row-IsValid m v = ground (arith, v, str_eq_iff m.m_type counter, str_eq_iff m.m_type gauge)
