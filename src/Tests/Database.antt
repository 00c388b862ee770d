-- ===== src/Tests/Database.antt =====
-- The storage in Postgres over a toy database: a table that takes the counter `Hits` only, behind a
-- connection that loses its answer a number of times first.
use go_yandex_metrics.Base.{
  ℕ, zero, suc, String, ◌≡◌, refl, sym, ap, ◌∙◌, subst, ◌⊎◌, inl, inr, false, Option, none, some,
  List, [], ◌∷◌, map, arith, if◌then◌else◌, Bool-cases, Error, message, code, ok,
}
use mathlib.Core.Path.{fun_ext}
use go_yandex_metrics.Base.Int64.{add64}
use go_yandex_metrics.Base.Text.{codes}
use go_yandex_metrics.Model.{Metrics, MetricKey, counter, key_eq, key_eq_iff}
use go_yandex_metrics.Repository.Merge.{background, View, IsValid, validate_metric}
use go_yandex_metrics.Repository.Contract.{Lists}
use go_yandex_metrics.Retry.{retry_loop}
use go_yandex_metrics.Postgres.{
  begins_08, pg_code, with_retry, save_metric, Statement, select_metric, upsert_delta, upsert_value,
  Database, is_retriable_postgres_error, save_metrics, save_metrics_batch, get_all_metrics,
  get_metrics_by_id,
}
use go_yandex_metrics.Postgres.Laws.{
  Sql, IsRejection, IsSound, upserted, statement_key, run_statement,
}
use go_yandex_metrics.Postgres.Save.{SaveEnds, save_metrics-SaveEnds}
use go_yandex_metrics.Postgres.Batch.{BatchEnds, save_metrics_batch-BatchEnds}
use go_yandex_metrics.Postgres.Reads.{
  ListEnds, get_all_metrics-ListEnds, LookupEnds, get_metrics_by_id-LookupEnds,
}
use go_yandex_metrics.Tests.Data.{hits, full}

abbrev hits_key : MetricKey
hits_key = record { id = "Hits"; m_type = counter }

abbrev row : ℕ → Metrics
row d = record { id = "Hits"; m_type = counter; delta = some d; value = none; hash = "" }

abbrev row_of : Option ℕ → Option Metrics
row_of none = none
row_of (some d) = some (row d)

abbrev view_of : Option ℕ → View
view_of o k = if key_eq hits_key k then row_of o else none

abbrev grown : Option ℕ → ℕ → ℕ
grown none d = d
grown (some c) d = add64 c d

run : Statement → Option ℕ → (Error ⊎ Option Metrics) × Option ℕ
run (upsert_delta id m_type (some d)) o =
    if key_eq hits_key (record { id = id; m_type = m_type })
    then (inr (some (row (grown o d))), some (grown o d))
    else (inl (message "no such table"), o)
run (upsert_delta id m_type none) o = (inl (message "no such table"), o)
run (select_metric id m_type) o =
    if key_eq hits_key (record { id = id; m_type = m_type })
    then (inr (row_of o), o)
    else (inl (message "no such table"), o)
run (upsert_value id m_type v) o = (inl (message "no such table"), o)

record Server : Type 0 where
  failures : ℕ
  held : Option ℕ

after_failure : Server → ℕ → Server
after_failure s n = record s { failures = n }

attempt : Statement → Server → (Error ⊎ Option Metrics) × Server
unfolding after_failure
attempt stmt s = elim s.failures [
  | zero ↦ let (r, held) = run stmt s.held in (r, record s { held = held })
  | suc n ↦ (inl (code "08006"), record { failures = n; held = (run stmt s.held).1 })
]

list_rows : Option ℕ → List Metrics
list_rows none = []
list_rows (some d) = row d ∷ []

list : Server → (Error ⊎ (List (Error ⊎ Metrics) × Option Error)) × Server
unfolding after_failure list_rows
list s = elim s.failures [
  | zero ↦ (inr (map inr (list_rows s.held), none), s)
  | suc n ↦ (inl (code "08006"), after_failure s n)
]

abbrev toy : Database
toy = record {
  State = Server;
  Tx = Option ℕ;
  query_row = λ ctx stmt s. attempt stmt s;
  query_all = λ ctx s. list s;
  begin = λ ctx s. (inr s.held, s);
  tx_query_row = λ ctx stmt tx. run stmt tx;
  commit = λ tx s. (none, record s { held = tx });
  rollback = λ tx s. (none, s);
}

abbrev Runs : Statement → Option ℕ → Option Metrics → Option ℕ → Type 0
Runs stmt o r o' =
    (r ≡ upserted (view_of o (statement_key stmt)) stmt)
    × (view_of o' ≡ run_statement (view_of o) stmt)

hits_upsert :
    (d : ℕ) (o : Option ℕ)
    → Runs (upsert_delta "Hits" counter (some d)) o (some (row (grown o d))) (some (grown o d))
hits_upsert d none = (refl, fun_ext (λ k. ground arith))
hits_upsert d (some c) = (refl, fun_ext (λ k. ground arith))

hits_select : (o : Option ℕ) → Runs (select_metric "Hits" counter) o (row_of o) o
hits_select o = (refl, fun_ext (λ k. ground arith))

run_returns :
    (stmt : Statement) (o o' : Option ℕ) (r : Option Metrics)
    → run stmt o ≡ (inr r, o')
    → Runs stmt o r o'
unfolding run
run_returns (upsert_delta id m_type none) o o' r e = absurd (ground (arith, e))
run_returns (upsert_value id m_type v) o o' r e = absurd (ground (arith, e))
run_returns (upsert_delta id m_type (some d)) o o' r e =
    elim (Bool-cases (key_eq hits_key (record { id = id; m_type = m_type }))) [
      | inr other ↦ absurd (ground (arith, other, e))
      | inl same ↦
          let key = (key_eq_iff hits_key (record { id = id; m_type = m_type })).0 same in
          let parts : (some (row (grown o d)) ≡ r) × (some (grown o d) ≡ o') =
            ground (arith, same, e) in
          rw (← parts.0) (
            rw (← parts.1) (
              subst
                (λ (k : MetricKey).
                  Runs (upsert_delta k.id k.m_type (some d)) o (some (row (grown o d)))
                    (some (grown o d)))
                key (hits_upsert d o)))
    ]
run_returns (select_metric id m_type) o o' r e =
    elim (Bool-cases (key_eq hits_key (record { id = id; m_type = m_type }))) [
      | inr other ↦ absurd (ground (arith, other, e))
      | inl same ↦
          let key = (key_eq_iff hits_key (record { id = id; m_type = m_type })).0 same in
          let parts : (row_of o ≡ r) × (o ≡ o') = ground (arith, same, e) in
          rw (← parts.0) (
            rw (← parts.1) (
              subst (λ (k : MetricKey). Runs (select_metric k.id k.m_type) o (row_of o) o) key
                (hits_select o)))
    ]

ℕ-cases : (n : ℕ) → (n ≡ 0) ⊎ ((k : ℕ) × (n ≡ suc k))
ℕ-cases zero = inl refl
ℕ-cases (suc k) = inr (k, refl)

attempt_ready :
    (stmt : Statement) (s : Server) (r : Error ⊎ Option Metrics) (s' : Server)
    → s.failures ≡ 0
    → attempt stmt s ≡ (r, s')
    → run stmt s.held ≡ (r, s'.held)
unfolding attempt
attempt_ready stmt s r s' ready e =
    let does : attempt stmt s ≡ ((run stmt s.held).0, record s { held = (run stmt s.held).1 }) =
      ground (arith, ready) in
    ap (λ (x : (Error ⊎ Option Metrics) × Server). (x.0, x.1.held)) (sym does ∙ e)

attempt_returns :
    (stmt : Statement) (s s' : Server) (r : Option Metrics)
    → attempt stmt s ≡ (inr r, s')
    → Runs stmt s.held r s'.held
unfolding attempt
attempt_returns stmt s s' r e = elim (ℕ-cases s.failures) [
  | inl ready ↦ run_returns stmt s.held s'.held r (attempt_ready stmt s (inr r) s' ready e)
  | inr (n, down) ↦ absurd (ground (arith, down, e))
]

select-held :
    (id m_type : String) (s : Server) → (attempt (select_metric id m_type) s).1.held ≡ s.held
unfolding attempt run after_failure
select-held id m_type s = ground arith

run_fails : (stmt : Statement) (o o' : Option ℕ) (e : Error) → run stmt o ≡ (inl e, o') → o' ≡ o
unfolding run
run_fails (upsert_delta id m_type none) o o' e h = ground (arith, h)
run_fails (upsert_value id m_type v) o o' e h = ground (arith, h)
run_fails (upsert_delta id m_type (some d)) o o' e h = ground (arith, h)
run_fails (select_metric id m_type) o o' e h = ground (arith, h)

lost_is_open : ¬ (IsRejection (code "08006"))
unfolding pg_code begins_08
lost_is_open (c, same, other, rest) =
    let it : "08006" ≡ c = ground (arith, same) in
    absurd (cc (subst (λ (x : String). begins_08 (codes x) ≡ false) (sym it) other))

-- A lost answer leaves the statement done, if it could be.
attempt_fails :
    (stmt : Statement) (s s' : Server) (e : Error)
    → attempt stmt s ≡ (inl e, s')
    → (view_of s'.held ≡ view_of s.held)
      ⊎ (¬ (IsRejection e) × (view_of s'.held ≡ run_statement (view_of s.held) stmt))
unfolding attempt
attempt_fails stmt s s' e h = elim (ℕ-cases s.failures) [
  | inl ready ↦
      inl (ap view_of (run_fails stmt s.held s'.held e (attempt_ready stmt s (inl e) s' ready h)))
  | inr (n, down) ↦
      let same : code "08006" ≡ e = ground (arith, down, h) in
      let held : (run stmt s.held).1 ≡ s'.held = ground (arith, down, h) in
      elim (go (run stmt s.held).0 (run stmt s.held).1 refl) [
        | inl kept ↦ inl (ap view_of (sym held ∙ kept))
        | inr made ↦
            inr (subst (λ x. ¬ (IsRejection x)) same lost_is_open, ap view_of (sym held) ∙ made)
      ]
]
  where
    go :
        (r : Error ⊎ Option Metrics) (o : Option ℕ)
        → run stmt s.held ≡ (r, o)
        → (o ≡ s.held) ⊎ (view_of o ≡ run_statement (view_of s.held) stmt)
    go (inl x) o does = inl (run_fails stmt s.held o x does)
    go (inr row') o does = inr (run_returns stmt s.held o row' does).1

list-held : (s : Server) → (list s).1.held ≡ s.held
unfolding list after_failure
list-held s = ground arith

rows-Lists :
    (o : Option ℕ) (ms : List Metrics)
    → map {B = Error ⊎ Metrics} inr (list_rows o) ≡ map inr ms
    → Lists (view_of o) ms
unfolding list_rows
rows-Lists none [] e = record { once = tt; holds = λ k. ground arith }
rows-Lists none (m ∷ ms) e = absurd (cc e)
rows-Lists (some d) [] e = absurd (cc e)
rows-Lists (some d) (m ∷ []) e =
    let same : row d ≡ m = ground (arith, e) in
    rw (← same) (record { once = (refl, tt); holds = λ k. ground arith })
rows-Lists (some d) (m ∷ n ∷ ms) e = absurd (ground (arith, e))

list_returns :
    (s s' : Server) (rows : List (Error ⊎ Metrics)) (ms : List Metrics)
    → list s ≡ (inr (rows, none), s')
    → rows ≡ map inr ms
    → Lists (view_of s.held) ms
unfolding list
list_returns s s' rows ms e h = elim (ℕ-cases s.failures) [
  | inl ready ↦ rows-Lists s.held ms (ground (arith, ready, e, h))
  | inr (n, down) ↦ absurd (ground (arith, down, e))
]

toy-Sql : Sql toy
toy-Sql = record {
  table = λ (s : Server). view_of s.held;
  tx_table = view_of;
  runs = λ ctx stmt s s' o e. attempt_returns stmt s s' o e;
  fails = λ ctx stmt s s' e h. attempt_fails stmt s s' e h;
  lists_all = λ ctx s s' rows ms e h. list_returns s s' rows ms e h;
  reads_only = λ ctx s. ap view_of (list-held s);
  selects_only = λ ctx id m_type s. ap view_of (select-held id m_type s);
  begins = λ ctx s s' tx e. ground (arith, e);
  begin_fails = λ ctx s s' e h. absurd (cc h);
  tx_runs = λ ctx stmt tx tx' o e. run_returns stmt tx tx' o e;
  commits = λ tx s s' e. ground (arith, e);
  commit_fails = λ tx s s' e h. absurd (cc h);
  rolls_back = λ tx s. refl;
}

-- Two answers are lost, and the counter stands at 5.
abbrev busy : Server
busy = record { failures = 2; held = some (5) }

row-IsValid : (d : ℕ) → IsValid (row d)
unfolding validate_metric
row-IsValid d = refl

busy-IsSound : IsSound (toy-Sql.table busy)
unfolding toy-Sql
busy-IsSound = record {
  rows = λ k m e. elim (Bool-cases (key_eq hits_key k)) [
    | inr other ↦ absurd (ground (arith, other, e))
    | inl same ↦
        let it : row (5) ≡ m = ground (arith, same, e) in
        rw (← it) (row-IsValid (5), (key_eq_iff hits_key k).0 same, refl)
  ];
}

-- Each of the two attempts whose answer was lost has added 3, and the last one once more.
saves :
    save_metrics toy background hits busy ≡ (ok (row 14), record { failures = 0; held = some 14 })
unfolding save_metrics with_retry retry_loop is_retriable_postgres_error save_metric attempt run
    after_failure validate_metric pg_code
saves = refl

save_metrics-SaveEnds_example :
    SaveEnds toy toy-Sql background hits busy (save_metrics toy background hits busy)
save_metrics-SaveEnds_example = save_metrics-SaveEnds toy toy-Sql background hits busy busy-IsSound

save_metrics_batch-BatchEnds_example :
    BatchEnds toy toy-Sql background
      (hits ∷ full ∷ [])
      busy
      (save_metrics_batch toy background (hits ∷ full ∷ []) busy)
save_metrics_batch-BatchEnds_example =
    save_metrics_batch-BatchEnds toy toy-Sql background (hits ∷ full ∷ []) busy busy-IsSound

get_all_metrics-ListEnds_example :
    let (r, s') = get_all_metrics toy background busy in
    ListEnds toy toy-Sql busy r × (toy-Sql.table s' ≡ toy-Sql.table busy)
get_all_metrics-ListEnds_example = get_all_metrics-ListEnds toy toy-Sql background busy

get_metrics_by_id-LookupEnds_example :
    let (r, s') = get_metrics_by_id toy background "Hits" counter busy in
    LookupEnds toy toy-Sql background "Hits" counter busy r
    × (toy-Sql.table s' ≡ toy-Sql.table busy)
get_metrics_by_id-LookupEnds_example =
    get_metrics_by_id-LookupEnds toy toy-Sql background "Hits" counter busy
