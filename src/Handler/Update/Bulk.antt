-- ===== src/Handler/Update/Bulk.antt =====
-- `BulkUpdateMetrics` of internal/handler/server/handler.go as a whole.
use go_yandex_metrics.Base.{
  String, ◌≡◌, refl, sym, ap, ◌∙◌, subst, ◌≢◌, inl, inr, List, [], ◌∷◌, ◌++◌, arith, if◌then◌else◌,
  Bool-cases, All, Result, ok, err, panic,
}
use mathlib.Core.List.{append-nil}
use go_yandex_metrics.Handler.Event.{new_event}
use go_yandex_metrics.Base.Text.{Bytes}
use go_yandex_metrics.Model.{Metrics}
use go_yandex_metrics.Repository.Merge.{IsValid, batch_view, batch_results}
use go_yandex_metrics.Repository.Contract.{Storage, Promises, SavesMany}
use go_yandex_metrics.Service
use go_yandex_metrics.Handler.Http.{
  Event, Request, Library, Handler, World, WriterCall, write, json_metrics, set_header, call,
  write_header, served_status, all_marshal,
}
use go_yandex_metrics.Handler.Body.{read_and_verify_request_body}
use go_yandex_metrics.Handler.Update.{
  bulk_update_metrics, save_batch, any_refused, metric_names, publish_audit,
}

module _ (lib : Library) (st : Storage) (promises : Promises st) (h : Handler) where
  open promises use {IsConsistent, view}

  -- The event of metrics that were stored, if there is a publisher.
  abbrev pub event_of : Request → List String → List Event
  event_of req [] = []
  event_of req (name ∷ names) = if h.audit then new_event lib (name ∷ names) req ∷ [] else []

  -- What `BulkUpdateMetrics` may have done when it ends: nothing, with an answer that is not 200
  -- and no audit event; or the whole batch, with an answer of 200 and one event of the names of all
  -- metrics, unless what is stored holds a value that is no finite number: then with 500 and no event.
  pub data BulkEnds (req : Request) (ms : List Metrics) (w w' : World st.State) : Type 0 where
    refused :
        w'.state ≡ w.state
        → w'.published ≡ w.published
        → w'.crashed ≡ w.crashed
        → served_status w'.calls ≢ 200
        → BulkEnds req ms w w'
    applied :
        All IsValid ms
        → IsConsistent w'.state
        → view w'.state ≡ batch_view (view w.state) ms
        → w'.crashed ≡ w.crashed
        → served_status w'.calls
          ≡ (if all_marshal (batch_results (view w.state) ms) then 200 else 500)
        → w'.published
          ≡ w.published
            ++ (if all_marshal (batch_results (view w.state) ms)
                then event_of req (metric_names (batch_results (view w.state) ms))
                else [])
        → BulkEnds req ms w w'

  BulkEnds-call :
      {req : Request} {ms : List Metrics} (c : WriterCall) (w : World st.State)
      {w' : World st.State}
      → BulkEnds req ms (call c w) w'
      → BulkEnds req ms w w'
  BulkEnds-call c w (refused a b d e) = refused a b d e
  BulkEnds-call c w (applied a b d e f g) = applied a b d e f g

  publish_audit-rest :
      (req : Request) (names : List String) (w : World st.State)
      → let w' = publish_audit lib st h req names w in
        (w'.state ≡ w.state) × (w'.calls ≡ w.calls) × (w'.crashed ≡ w.crashed)
  unfolding publish_audit
  publish_audit-rest req [] w = (refl, refl, refl)
  publish_audit-rest req (name ∷ names) w = ground arith

  publish_audit-event_of :
      (req : Request) (names : List String) (w : World st.State)
      → (publish_audit lib st h req names w).published ≡ w.published ++ event_of req names
  unfolding publish_audit
  publish_audit-event_of req [] w = sym (append-nil w.published)
  publish_audit-event_of req (name ∷ names) w = ground (arith, append-nil w.published)

  save_batch-BulkEnds :
      (req : Request) (ms : List Metrics) (w : World st.State)
      (r : Result (List Metrics) × st.State)
      → st.save_metrics_batch req.context ms w.state ≡ r
      → SavesMany IsConsistent view ms w.state r
      → w.calls ≡ set_header "Content-Type" "application/json" ∷ []
      → BulkEnds req ms w (save_batch lib st h req ms w)
  unfolding save_batch Service.create_or_update_metrics_batch served_status
  save_batch-BulkEnds req ms w (ok news, s') e k calls =
      let w2 : World st.State =
        call (write (json_metrics news)) (call (write_header 200) (record w { state = s' })) in
      let rest = publish_audit-rest req (metric_names news) w2 in
      let state : (save_batch lib st h req ms w).state ≡ s' = ground (arith, e, rest) in
      applied k.0 (subst IsConsistent (sym state) k.2) (ap view state ∙ k.3)
        (ground (arith, e, rest)) (ground (arith, e, rest, calls, k.1))
        (ground (
          arith,
          e,
          k.1,
          publish_audit-event_of req (metric_names news) w2,
          append-nil w.published,
        ))
  save_batch-BulkEnds req ms w (err x, s') e k calls =
      refused (ground (arith, e, k)) (ground (arith, e)) (ground (arith, e))
        (ground (arith, e, calls))
  save_batch-BulkEnds req ms w (panic, s') e k calls = absurd k

  -- `BulkUpdateMetrics` with a body that is read and decoded, on a consistent storage, whether its
  -- context is cancelled or not: either nothing was stored and the answer is not 200, or every
  -- metric was valid, the whole list was stored in order, and the answer is 200 exactly if all that
  -- the saves returned can be encoded, with an audit event of their names, if there is a publisher, and
  -- else 500 without one.
  pub bulk_update_metrics-BulkEnds :
      (req : Request) (body : Bytes) (ms : List Metrics) (w : World st.State)
      → IsConsistent w.state
      → w.calls ≡ []
      → read_and_verify_request_body lib h req ≡ ok body
      → lib.decode_metrics body ≡ ok ms
      → BulkEnds req ms w (bulk_update_metrics lib st h req w)
  unfolding bulk_update_metrics served_status
  bulk_update_metrics-BulkEnds req body [] w c e read decoded =
      refused (ground (arith, e, read, decoded)) (ground (arith, e, read, decoded))
        (ground (arith, e, read, decoded)) (ground (arith, e, read, decoded))
  bulk_update_metrics-BulkEnds req body (m ∷ ms) w c e read decoded =
      elim (Bool-cases (any_refused (m ∷ ms))) [
        | inl bad ↦
            refused (ground (arith, e, read, decoded, bad)) (ground (arith, e, read, decoded, bad))
              (ground (arith, e, read, decoded, bad)) (ground (arith, e, read, decoded, bad))
        | inr fine ↦
            let w1 = call (set_header "Content-Type" "application/json") w in
            let does : bulk_update_metrics lib st h req w ≡ save_batch lib st h req (m ∷ ms) w1 =
              ground (arith, read, decoded, fine) in
            rw does (
              BulkEnds-call (set_header "Content-Type" "application/json") w (
                save_batch-BulkEnds req (m ∷ ms) w1
                  (st.save_metrics_batch req.context (m ∷ ms) w.state) refl
                  (promises.saves_batch req.context (m ∷ ms) w.state c)
                  (ap
                    (λ (l : List WriterCall).
                      l ++ set_header "Content-Type" "application/json" ∷ [])
                    e)))
      ]
