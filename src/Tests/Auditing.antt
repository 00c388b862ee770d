-- ===== src/Tests/Auditing.antt =====
-- The audit publisher, with a receiver that is busy twice.
use go_yandex_metrics.Base.{
  ℕ, ◌+◌, ◌≡◌, refl, ◌≢◌, inl, none, [], ◌∷◌, ◌++◌, arith, ltb, if◌then◌else◌, Result, ok, panic,
}
use go_yandex_metrics.Base.Text.{Bytes}
use go_yandex_metrics.Retry.{retry_intervals}
use go_yandex_metrics.Handler.Http.{Event}
use go_yandex_metrics.Repository.Merge.{background}
use go_yandex_metrics.Audit.{
  Outside, AuditWorld, nil_observer, file_observer, new_manager, server_publisher, do_request,
  publish, close, should_retry_http,
}
use go_yandex_metrics.Audit.Absent.{publish_panics}
use go_yandex_metrics.Audit.Sequence.{publish_each, all_lines, publish_each-writes}
use go_yandex_metrics.Audit.Delivery.{Ends, do_request-Ends}

-- The receiver counts its requests.
busy : Bytes → ℕ → Result ℕ × ℕ
busy payload n = (if ltb n 2 then ok 503 else ok 200, n + 1)

abbrev outside : Outside ℕ
outside = record {
  marshal = λ event. 123 ∷ 125 ∷ [];
  open_file = none;
  write_file = none;
  close_file = none;
  post = busy;
}

abbrev event : Event
event = record { timestamp = 5; metrics = "Hits" ∷ []; ip_address = 9 ∷ [] }

abbrev start : AuditWorld ℕ
start = record { lines = []; receiver = 0 }

-- A nil interface is left out, a nil pointer is not.
filters : new_manager (nil_observer ∷ file_observer none ∷ []) ≡ file_observer none ∷ []
unfolding new_manager
filters = refl

-- Closing the publisher of a server without an audit file panics as well.
close_panics : (close outside (file_observer none ∷ [])).0 ≡ panic
unfolding close
close_panics = refl

third : do_request outside background retry_intervals [] 0 ≡ (ok 200, 3)
unfolding do_request busy should_retry_http
third = refl

do_request-Ends_example :
    Ends outside [] background retry_intervals 0
      (do_request outside background retry_intervals [] 0)
do_request-Ends_example = do_request-Ends outside [] background retry_intervals 0

publish_panics_example : (publish outside background event (server_publisher "" "") start).0 ≡ panic
publish_panics_example = publish_panics outside "" "" background event start (inl refl)

-- The receiver never panics.
busy_returns : (payload : Bytes) (n : ℕ) → (busy payload n).0 ≢ panic
unfolding busy
busy_returns payload n e = ground (arith, e)

publish_each-writes_example :
    let (r, observers, w') =
      publish_each outside
        ((background, event) ∷ (background, event) ∷ [])
        (server_publisher "audit.log" "http://audit")
        start in
    (r ≡ ok tt)
    × (w'.lines ≡ [] ++ all_lines outside ((background, event) ∷ (background, event) ∷ []))
publish_each-writes_example =
    publish_each-writes outside "audit.log" "http://audit"
      ((background, event) ∷ (background, event) ∷ []) start busy_returns (λ e. cc e) (λ e. cc e)
