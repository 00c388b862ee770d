-- ===== src/Postgres/Batch.antt =====
-- `SaveMetricsBatch` of internal/repository/postgres.go with its transaction and its retries.
use go_yandex_metrics.Base.{
  ◌≡◌, refl, sym, ap, ◌∙◌, subst, ◌⊎◌, inl, inr, Option, none, some, List, [], ◌∷◌, ◌++◌, map,
  arith, Option-cases, All, Error, message, Result, ok, err,
}
use mathlib.Core.List.{append_assoc, append-nil}
use go_yandex_metrics.Model.{Metrics, MetricKey, key_of}
use go_yandex_metrics.Repository.Merge.{
  Context, IsValid, View, upsert, saved_view, batch_view, batch_results,
}
use go_yandex_metrics.Repository.Memory.{validate_all}
use go_yandex_metrics.Repository.Memory.Batch.{validate_all-All}
use go_yandex_metrics.Postgres.{
  Database, join_errors, save_in_tx, save_all_in_tx, with_retry, save_metrics_batch,
}
use go_yandex_metrics.Postgres.Laws.{
  Sql, IsSound, upserted, statement_key, run_statement, stored_row, statement_of,
}
use go_yandex_metrics.Postgres.Upsert.{
  save_metric-statement_of, statement_key-statement_of, upserted-upsert, run_statement-saved_view,
  saved_view-IsSound,
}
use go_yandex_metrics.Postgres.Retried.{
  AttemptEnds, succeeded, stopped, Retried, with_retry-Retried,
}

module _ (db : Database) (sql : Sql db) where
  open sql use {table, tx_table}

  -- How the loop in a transaction ends: with every row upserted in order, or with an error.
  data LoopEnds (ms saved : List Metrics) (f : View) (r : Result (List Metrics) × db.Tx)
      : Type 0 where
    done :
        r.0 ≡ ok (saved ++ batch_results f (map stored_row ms))
        → tx_table r.1 ≡ batch_view f (map stored_row ms)
        → IsSound (tx_table r.1)
        → LoopEnds ms saved f r
    broken : (e : Error) → r.0 ≡ err e → LoopEnds ms saved f r

  joined :
      (saved : List Metrics) (new : Metrics) (f : View) (m : Metrics) (ms : List Metrics)
      → new ≡ upsert (f (key_of m)) (stored_row m)
      → (saved ++ new ∷ []) ++ batch_results (saved_view f (stored_row m)) (map stored_row ms)
        ≡ saved ++ batch_results f (map stored_row (m ∷ ms))
  joined saved new f m ms e =
      append_assoc saved (new ∷ [])
        (batch_results (saved_view f (stored_row m)) (map stored_row ms))
      ∙ ap
          (λ (x : Metrics).
            saved ++ x ∷ batch_results (saved_view f (stored_row m)) (map stored_row ms))
          e

  loop_step :
      (ctx : Context) (m : Metrics) (ms saved : List Metrics) (tx : db.Tx) (f : View)
      (x : (Error ⊎ Option Metrics) × db.Tx)
      → IsValid m
      → IsSound f
      → tx_table tx ≡ f
      → db.tx_query_row ctx (statement_of m) tx ≡ x
      → ((new : Metrics) (tx' : db.Tx)
          → tx_table tx' ≡ saved_view f (stored_row m)
          → IsSound (saved_view f (stored_row m))
          → LoopEnds ms
              (saved ++ new ∷ [])
              (saved_view f (stored_row m))
              (save_in_tx db ctx ms (saved ++ new ∷ []) tx'))
      → LoopEnds (m ∷ ms) saved f (save_in_tx db ctx (m ∷ ms) saved tx)
  unfolding save_in_tx
  loop_step ctx m ms saved tx f (inl e, tx') v sound same does rest =
      let ends : save_in_tx db ctx (m ∷ ms) saved tx ≡ (err e, tx') =
        ground (arith, save_metric-statement_of (db.tx_query_row ctx) m tx v, does) in
      rw ends (broken e refl)
  loop_step ctx m ms saved tx f (inr none, tx') v sound same does rest =
      let ends : save_in_tx db ctx (m ∷ ms) saved tx
          ≡ (err (message "sql: no rows in result set"), tx') =
        ground (arith, save_metric-statement_of (db.tx_query_row ctx) m tx v, does) in
      rw ends (broken (message "sql: no rows in result set") refl)
  loop_step ctx m ms saved tx f (inr (some new), tx') v sound same does rest =
      let ends : save_in_tx db ctx (m ∷ ms) saved tx
          ≡ save_in_tx db ctx ms (saved ++ new ∷ []) tx' =
        ground (arith, save_metric-statement_of (db.tx_query_row ctx) m tx v, does) in
      let (row, after) = sql.tx_runs ctx (statement_of m) tx tx' (some new) does in
      let stored : some new ≡ some (upsert (f (key_of m)) (stored_row m)) =
        row
        ∙ ap (λ (g : View). upserted (g (statement_key (statement_of m))) (statement_of m)) same
        ∙ ap (λ (k : MetricKey). upserted (f k) (statement_of m)) (statement_key-statement_of m)
        ∙ upserted-upsert f m sound v in
      let after' : tx_table tx' ≡ saved_view f (stored_row m) =
        after
        ∙ ap (λ (g : View). run_statement g (statement_of m)) same
        ∙ run_statement-saved_view f m sound v in
      rw ends (elim (rest new tx' after' (saved_view-IsSound f m sound v)) [
        | broken e h ↦ broken e h
        | done h h' h'' ↦
            done
              (h
                ∙ ap {B = Result (List Metrics)} ok
                    (joined saved new f m ms (ground (arith, stored))))
              h' h''
      ])

  loop-LoopEnds :
      (ctx : Context) (ms saved : List Metrics) (tx : db.Tx) (f : View)
      → All IsValid ms
      → IsSound f
      → tx_table tx ≡ f
      → LoopEnds ms saved f (save_in_tx db ctx ms saved tx)
  unfolding save_in_tx
  loop-LoopEnds ctx [] saved tx f v sound same =
      done (ap {B = Result (List Metrics)} ok (sym (append-nil saved))) same
        (subst IsSound (sym same) sound)
  loop-LoopEnds ctx (m ∷ ms) saved tx f v sound same =
      loop_step ctx m ms saved tx f (db.tx_query_row ctx (statement_of m) tx) v.0 sound same refl
        (λ new tx' same' sound'.
          loop-LoopEnds ctx ms (saved ++ new ∷ []) tx' (saved_view f (stored_row m)) v.1 sound'
            same')

  batch_view-IsSound :
      (f : View) (ms : List Metrics)
      → IsSound f
      → All IsValid ms
      → IsSound (batch_view f (map stored_row ms))
  batch_view-IsSound f [] sound v = sound
  batch_view-IsSound f (m ∷ ms) sound v =
      batch_view-IsSound (saved_view f (stored_row m)) ms (saved_view-IsSound f m sound v.0) v.1

  -- One attempt: the transaction.
  abbrev Attempt : Context → List Metrics → db.State → Type 0
  Attempt ctx ms s =
      AttemptEnds db sql (λ f. batch_view f (map stored_row ms))
        (λ f. batch_results f (map stored_row ms)) (save_all_in_tx db ctx ms) s
        (save_all_in_tx db ctx ms s)

  tx_Attempt :
      (ctx : Context) (ms : List Metrics) (s s' : db.State) (tx : db.Tx)
      → db.begin ctx s ≡ (inr tx, s')
      → LoopEnds ms [] (table s) (save_in_tx db ctx ms [] tx)
      → Attempt ctx ms s
  unfolding save_all_in_tx
  tx_Attempt ctx ms s s' tx begun (broken e h) =
      let tx' = (save_in_tx db ctx ms [] tx).1 in
      let rolled = db.rollback tx' s' in
      let ends : save_all_in_tx db ctx ms s ≡ (err (join_errors e rolled.0), rolled.1) =
        ground (arith, begun, h) in
      rw ends (
        stopped (join_errors e rolled.0) refl
          (inl (sql.rolls_back tx' s' ∙ (sql.begins ctx s s' tx begun).1)))
  tx_Attempt ctx ms s s' tx begun (done h t sound') =
      commit_ends (db.commit (save_in_tx db ctx ms [] tx).1 s') refl
    where
      commit_ends :
          (x : Option Error × db.State)
          → db.commit (save_in_tx db ctx ms [] tx).1 s' ≡ x
          → Attempt ctx ms s
      commit_ends (some e, s'') does =
          let tx' = (save_in_tx db ctx ms [] tx).1 in
          let ends : save_all_in_tx db ctx ms s ≡ (err e, s'') = ground (arith, begun, h, does) in
          rw ends (
            stopped e refl (elim (sql.commit_fails tx' s' s'' e does) [
              | inl same ↦ inl (same ∙ (sql.begins ctx s s' tx begun).1)
              | inr (open_end, made) ↦ inr (open_end, made ∙ t)
            ]))
      commit_ends (none, s'') does =
          let tx' = (save_in_tx db ctx ms [] tx).1 in
          let ends : save_all_in_tx db ctx ms s
              ≡ (ok (batch_results (table s) (map stored_row ms)), s'') =
            ground (arith, begun, h, does) in
          rw ends (succeeded refl (sql.commits tx' s' s'' does ∙ t))

  begin_Attempt :
      (ctx : Context) (ms : List Metrics) (s : db.State) (x : (Error ⊎ db.Tx) × db.State)
      → All IsValid ms
      → IsSound (table s)
      → db.begin ctx s ≡ x
      → Attempt ctx ms s
  unfolding save_all_in_tx
  begin_Attempt ctx ms s (inl e, s') v sound begun =
      let ends : save_all_in_tx db ctx ms s ≡ (err e, s') = ground (arith, begun) in
      rw ends (stopped e refl (inl (sql.begin_fails ctx s s' e begun)))
  begin_Attempt ctx ms s (inr tx, s') v sound begun =
      tx_Attempt ctx ms s s' tx begun
        (loop-LoopEnds ctx ms [] tx (table s) v sound (sql.begins ctx s s' tx begun).0)

  -- How a batch ends: every metric was valid, and the whole batch was tried; or one was invalid, and
  -- nothing was done.
  pub data BatchEnds (ctx : Context) (ms : List Metrics) (s : db.State)
      (r : Result (List Metrics) × db.State) : Type 0 where
    tried :
        All IsValid ms
        → Retried db sql
            (λ f. batch_view f (map stored_row ms))
            (λ f. batch_results f (map stored_row ms))
            (save_all_in_tx db ctx ms)
            s
            r
        → IsSound (table r.1)
        → BatchEnds ctx ms s r
    rejected : (e : Error) → validate_all ms ≡ some e → r ≡ (err e, s) → BatchEnds ctx ms s r

  -- `SaveMetricsBatch` of the storage in Postgres, with its transaction and its retries, on a table
  -- whose rows are valid, for any batch and any context, and a database that does what PostgreSQL
  -- documents. A batch with an invalid metric does nothing. For a valid one all rows are valid again,
  -- up to three attempts fail with an error of class 08 first, and each of these applied the whole
  -- batch, in order, or nothing. If the call succeeds, the last attempt has applied the batch once
  -- more, so once in all if no attempt failed, and the results are its rows. If it fails, its error is
  -- not of class 08 or all retries are used, and the last attempt has changed nothing, unless the error
  -- leaves that open, as that of an answer that was lost does: then it has applied the whole batch or
  -- nothing. Whatever the error is, the call leaves no part of
  -- the batch in the table without the rest.
  pub save_metrics_batch-BatchEnds :
      (ctx : Context) (ms : List Metrics) (s : db.State)
      → IsSound (table s)
      → BatchEnds ctx ms s (save_metrics_batch db ctx ms s)
  unfolding save_metrics_batch
  save_metrics_batch-BatchEnds ctx ms s sound = elim (Option-cases (validate_all ms)) [
    | inr (e, h) ↦
        let ends : save_metrics_batch db ctx ms s ≡ (err e, s) = ground (arith, h) in
        rejected e h ends
    | inl h ↦
        let v = validate_all-All ms h in
        let (ended, sound') =
          with_retry-Retried db sql (λ f. batch_view f (map stored_row ms))
            (λ f. batch_results f (map stored_row ms)) (save_all_in_tx db ctx ms) IsSound
            (λ f x. batch_view-IsSound f ms x v)
            (λ before x. begin_Attempt ctx ms before (db.begin ctx before) v x refl) s sound in
        let ends : save_metrics_batch db ctx ms s ≡ with_retry db (save_all_in_tx db ctx ms) s =
          ground (arith, h) in
        rw ends (tried v ended sound')
  ]
