-- ===== src/Handler/Query.antt =====
-- The handlers of internal/handler/server/handler.go that only read: `Ping`, `GetAllMetrics`,
-- `GetMetricsByID` and `GetMetricsByIDWithJSON`. A nil pointer that is followed crashes.
use go_yandex_metrics.Base.{
  false, not, ◌||◌, Option, none, some, List, [], ◌∷◌, if◌then◌else◌, str_eq, Result, ok, err,
  panic,
}
use go_yandex_metrics.Base.Decimal.{format_int}
use go_yandex_metrics.Model.{Metrics, counter, gauge}
use go_yandex_metrics.Repository.Contract.{Storage, Found}
use go_yandex_metrics.Service
use go_yandex_metrics.Handler.Http.{
  Request, Library, Handler, World, raw, error_text, float_text, metric_line, json_metric,
  set_header, write_header, write, call, crash, http_error, write_error, marshals,
  unsupported_value,
}
use go_yandex_metrics.Handler.Body.{read_and_verify_request_body}

-- The three results of a lookup; an error alone comes with a nil metric.
abbrev pub as_found : Result Found → Option Found
as_found (ok f) = some f
as_found (err e) = some (record { metric = none; exists = false; error = some e })
as_found panic = none

-- `Ping`
unfoldable pub ping : {S : Type 0} → Handler → World S → World S
ping h w = elim h.db [
  | none ↦ call (write_header 500) w
  | some answer ↦ elim answer [
    | some e ↦ call (write_header 500) w
    | none ↦ call (write_header 200) w
  ]
]

module _ (lib : Library) (st : Storage) (h : Handler) where
  -- The loop of `GetAllMetrics`.
  pub write_lines : List Metrics → World st.State → World st.State
  write_lines [] w = w
  write_lines (m ∷ ms) w = write_lines ms (call (write (metric_line m)) w)

  unfoldable pub get_all_metrics : World st.State → World st.State
  get_all_metrics w =
      let w1 = call (set_header "Content-Type" "text/html") w in
      let (r, s) = Service.get_all_metrics st w.state in
      let w2 = record w1 { state = s } in
      elim r [ panic ↦ crash w2 | err e ↦ call (write_header 500) w2 | ok ms ↦ write_lines ms w2 ]

  -- The value of a metric, as `GetMetricsByID` writes it.
  unfoldable pub write_value : Metrics → World st.State → World st.State
  write_value m w =
      if str_eq m.m_type counter
      then elim m.delta [ none ↦ crash w | some d ↦ call (write (raw (format_int d))) w ]
      else if str_eq m.m_type gauge
      then elim m.value [ none ↦ crash w | some v ↦ call (write (float_text v)) w ]
      else w

  unfoldable pub get_metrics_by_id : Request → World st.State → World st.State
  get_metrics_by_id req w =
      let w1 = call (set_header "Content-Type" "text/plain") w in
      if str_eq req.metric_name ""
      then call (write_header 404) w1
      else let (r, s) = Service.get_metrics_by_id st req.metric_name req.metric_type w.state in
        let w2 = record w1 { state = s } in
        elim (as_found r) [
          | none ↦ crash w2
          | some f ↦
              if not f.exists
              then call (write_header 404) w2
              else let w3 : World st.State = elim f.error [
                | none ↦ w2
                | some e ↦ call (write_header 404) w2
              ] in
                elim f.metric [ none ↦ crash w3 | some m ↦ write_value m w3 ]
        ]

  -- The answer of `GetMetricsByIDWithJSON` to a decoded metric.
  unfoldable pub answer_metric : Metrics → World st.State → World st.State
  answer_metric metrics w =
      if str_eq metrics.m_type "" || str_eq metrics.id ""
      then call (write_header 404) w
      else let (r, s) = Service.get_metrics_by_id st metrics.id metrics.m_type w.state in
        let w1 = record w { state = s } in
        elim (as_found r) [
          | none ↦ crash w1
          | some f ↦ elim f.error [
            | some e ↦ call (write_header 404) w1
            | none ↦ if not f.exists then call (write_header 404) w1 else elim f.metric [
              | none ↦ crash w1
              | some m ↦
                  if marshals m
                  then call (write (json_metric m)) (call (write_header 200) w1)
                  else http_error (error_text unsupported_value) 500 w1
            ]
          ]
        ]

  unfoldable pub get_metrics_by_id_with_json : Request → World st.State → World st.State
  get_metrics_by_id_with_json req w =
      let w1 = call (set_header "Content-Type" "application/json") w in
      elim (read_and_verify_request_body lib h req) [
        | panic ↦ crash w1
        | err e ↦ write_error (error_text e) 400 w1
        | ok body ↦ elim body [
          | [] ↦ call (write_header 404) w1
          | b ∷ rest ↦ elim (lib.decode_metric (b ∷ rest)) [
            | panic ↦ crash w1
            | err e ↦ write_error (error_text e) 400 w1
            | ok metrics ↦ answer_metric metrics w1
          ]
        ]
      ]
