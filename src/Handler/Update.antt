-- ===== src/Handler/Update.antt =====
-- The handlers of internal/handler/server/handler.go that write: `UpdateMetrics`,
-- `UpdateMetricsByJSON` and `BulkUpdateMetrics`. As in the source, an update of a metric that
-- exists drops the result of the save and answers with the metric as it was found.
pub mod Single
pub mod Url
pub mod Json
pub mod Bulk
use go_yandex_metrics.Base.{
  ℕ, String, Bool, true, false, not, ◌&&◌, ◌||◌, Option, none, some, List, [], ◌∷◌, ◌++◌,
  if◌then◌else◌, str_eq, Error, ok, err, panic,
}
use go_yandex_metrics.Base.Text.{Bytes}
use go_yandex_metrics.Base.Decimal.{parse_int}
use go_yandex_metrics.Model.{Metrics, counter, gauge}
use go_yandex_metrics.Repository.Contract.{Storage}
use go_yandex_metrics.Service
use go_yandex_metrics.Handler.Http.{
  Request, Library, Handler, World, text, error_text, json_metric, json_metrics, set_header,
  write_header, write, call, crash, http_error, write_error, marshals, all_marshal,
  unsupported_value,
}
use go_yandex_metrics.Handler.Body.{read_and_verify_request_body}
use go_yandex_metrics.Handler.Event.{new_event}
use go_yandex_metrics.Handler.Query.{as_found}

-- `metricNames`
abbrev pub metric_names : List Metrics → List String
metric_names [] = []
metric_names (m ∷ ms) = m.id ∷ metric_names ms

-- The numbers of a body, zero where there is none.
abbrev pub or_zero : Option ℕ → ℕ
or_zero none = 0
or_zero (some n) = n

-- What `UpdateMetrics` reads of its URL: the delta and the value, by the type; `none` is a 400.
unfoldable pub parse_value : Library → String → Bytes → Option (ℕ × ℕ)
parse_value lib metric_type metric_value =
    if str_eq metric_type gauge
    then elim (lib.parse_float metric_value) [ none ↦ none | some v ↦ some (0, v) ]
    else if str_eq metric_type counter
    then elim (parse_int metric_value) [ none ↦ none | some d ↦ some (d, 0) ]
    else none

-- The tests of `UpdateMetricsByJSON` on the type and the numbers of its metric; `some` is the
-- status of a refusal.
unfoldable pub refusal : Metrics → Option ℕ
refusal m =
    if str_eq m.m_type "" || str_eq m.id ""
    then some 404
    else if not (str_eq m.m_type counter) && not (str_eq m.m_type gauge)
    then some 400
    else if str_eq m.m_type counter
    then elim m.delta [ none ↦ some 400 | some _ ↦ none ]
    else elim m.value [ none ↦ some 400 | some _ ↦ none ]

-- The test of `BulkUpdateMetrics` on each metric.
abbrev pub is_refused : Metrics → Bool
is_refused m =
    (str_eq m.m_type counter && elim m.delta [ none ↦ true | some _ ↦ false ])
    || (str_eq m.m_type gauge && elim m.value [ none ↦ true | some _ ↦ false ])
    || (not (str_eq m.m_type counter) && not (str_eq m.m_type gauge))

abbrev pub any_refused : List Metrics → Bool
any_refused [] = false
any_refused (m ∷ ms) = if is_refused m then true else any_refused ms

module _ (lib : Library) (st : Storage) (h : Handler) where
  -- `publishAudit`: the event that it hands to the publisher, whose errors are only logged. What the
  -- publisher does with the event, its panic where no file or no URL is configured included, is
  -- `publish` of Audit, and not part of the world of a handler.
  unfoldable pub publish_audit : Request → List String → World st.State → World st.State
  publish_audit req [] w = w
  publish_audit req (name ∷ names) w =
      if h.audit
      then record w { published = w.published ++ new_event lib (name ∷ names) req ∷ [] }
      else w

  -- The end of both updates: the answer to a metric, and its audit event.
  unfoldable pub answer_saved : Request → String → Metrics → World st.State → World st.State
  unfolding publish_audit
  answer_saved req name m w =
      if marshals m
      then publish_audit req (name ∷ []) (call (write (json_metric m)) (call (write_header 200) w))
      else http_error (error_text unsupported_value) 500 w

  -- What `UpdateMetrics` and `UpdateMetricsByJSON` do of a name, a type and its numbers.
  unfoldable pub update_or_create :
      Request → String → String → ℕ → ℕ → World st.State → World st.State
  update_or_create req name m_type delta value w =
      let (r, s) = Service.get_metrics_by_id st name m_type w.state in
      let w1 = record w { state = s } in
      elim (as_found r) [
        | none ↦ crash w1
        | some f ↦ elim f.error [
          | some e ↦ http_error (error_text e) 500 w1
          | none ↦
              if f.exists
              then elim f.metric [
                | none ↦ crash w1
                | some existing ↦
                    let (saved, s') = Service.update_metrics st existing delta value s in
                    let w2 = record w1 { state = s' } in
                    elim saved [
                      | panic ↦ crash w2
                      | err e ↦ answer_saved req name existing w2
                      | ok new ↦ answer_saved req name existing w2
                    ]
              ]
              else let (created, s') = Service.create_metrics st name m_type delta value s in
                let w2 = record w1 { state = s' } in
                elim created [
                  | panic ↦ crash w2
                  | err e ↦ http_error (error_text e) 500 w2
                  | ok new ↦ answer_saved req name new w2
                ]
        ]
      ]

  unfoldable pub update_metrics : Request → World st.State → World st.State
  update_metrics req w =
      let w1 = call (set_header "Content-Type" "text/plain") w in
      if not (str_eq req.method "POST")
      then call (write_header 404) w1
      else if str_eq req.metric_type "" || str_eq req.metric_name ""
      then call (write_header 404) w1
      else elim (parse_value lib req.metric_type req.metric_value) [
        | none ↦ call (write_header 400) w1
        | some (delta, value) ↦ update_or_create req req.metric_name req.metric_type delta value w1
      ]

  unfoldable pub update_metrics_by_json : Request → World st.State → World st.State
  update_metrics_by_json req w =
      let w1 = call (set_header "Content-Type" "application/json") w in
      elim (read_and_verify_request_body lib h req) [
        | panic ↦ crash w1
        | err e ↦ write_error (error_text e) 400 w1
        | ok body ↦ elim (lib.decode_metric body) [
          | panic ↦ crash w1
          | err e ↦ write_error (error_text e) 400 w1
          | ok m ↦ elim (refusal m) [
            | some status ↦ call (write_header status) w1
            | none ↦ update_or_create req m.id m.m_type (or_zero m.delta) (or_zero m.value) w1
          ]
        ]
      ]

  -- `BulkUpdateMetrics` after its list has been decoded.
  unfoldable pub save_batch : Request → List Metrics → World st.State → World st.State
  save_batch req ms w =
      let (r, s) = Service.create_or_update_metrics_batch st req.context ms w.state in
      let w1 = record w { state = s } in
      elim r [
        | panic ↦ crash w1
        | err e ↦ http_error (text "Internal Server Error") 500 w1
        | ok news ↦
            if all_marshal news
            then publish_audit req (metric_names news)
                (call (write (json_metrics news)) (call (write_header 200) w1))
            else http_error (error_text unsupported_value) 500 w1
      ]

  unfoldable pub bulk_update_metrics : Request → World st.State → World st.State
  bulk_update_metrics req w =
      let w1 = call (set_header "Content-Type" "application/json") w in
      elim (read_and_verify_request_body lib h req) [
        | panic ↦ crash w1
        | err e ↦ write_error (error_text e) 400 w1
        | ok body ↦ elim (lib.decode_metrics body) [
          | panic ↦ crash w1
          | err e ↦ write_error (error_text e) 400 w1
          | ok ms ↦ elim ms [
            | [] ↦ write_error (text "Пустой массив") 400 w1
            | m ∷ rest ↦
                if any_refused (m ∷ rest)
                then call (write_header 400) w1
                else save_batch req (m ∷ rest) w1
          ]
        ]
      ]
