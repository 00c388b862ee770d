-- ===== src/Tests/Serving.antt =====
-- The HTTP and gRPC services, on concrete requests to the storage in memory.
use go_yandex_metrics.Base.{◌≡◌, refl, ◌≢◌, ◌⊎◌, none, some, [], ◌∷◌, Error, message, wrap, ok, err}
use go_yandex_metrics.Base.Text.{bytes_eq}
use go_yandex_metrics.Base.Decimal.{parse_int, parse_uint, parse_digits}
use go_yandex_metrics.Model.{counter}
use go_yandex_metrics.Service.{build_metrics}
use go_yandex_metrics.Repository.Merge.{background}
use go_yandex_metrics.Repository.Memory.Promised.{memory_storage, memory-Promises}
use go_yandex_metrics.Handler.Body.{is_gzip_body, read_and_verify_request_body, verify_signature}
use go_yandex_metrics.Handler.Query.{get_metrics_by_id}
use go_yandex_metrics.Handler.Reads.{Answers, lookup_status, lookup_body, get_metrics_by_id-Answers}
use go_yandex_metrics.Handler.Update.{
  update_metrics, update_metrics_by_json, bulk_update_metrics, parse_value, refusal,
}
use go_yandex_metrics.Handler.Update.Url.{Accepts, update_metrics-Accepts}
use go_yandex_metrics.Handler.Update.Json.{update_metrics_by_json-Accepts}
use go_yandex_metrics.Handler.Update.Bulk.{BulkEnds, bulk_update_metrics-BulkEnds}
use go_yandex_metrics.Handler.Routes.{update_by_url, RouteEnds, serve_route-RouteEnds}
use go_yandex_metrics.Grpc.{
  ProtoMetric, gauge_type, counter_type, Code, ok_code, internal, permission_denied,
  metric_to_model, metrics_to_models, IsTrusted, trusted_subnet_interceptor,
}
use go_yandex_metrics.Grpc.Ends.{
  CallEnds, update_metrics-CallEnds, trusted_subnet_interceptor-cases,
}
use go_yandex_metrics.Crypto.{decrypt}
use go_yandex_metrics.Grpc
use go_yandex_metrics.Tests.Data.{
  hits, batch, stocked, stocked-IsConsistent, library, handler, open_handler, post, idle,
}

consistent : memory-Promises.IsConsistent stocked
unfolding memory-Promises
consistent = stocked-IsConsistent

parsed : parse_value library counter (52 ∷ 50 ∷ []) ≡ some (42, 0)
unfolding parse_value parse_int parse_uint parse_digits
parsed = refl

update_metrics-Accepts_example :
    Accepts library memory_storage memory-Promises handler post "Hits" counter
      (build_metrics "Hits" counter 42 0)
      idle
      (update_metrics library memory_storage handler post idle)
update_metrics-Accepts_example =
    update_metrics-Accepts library memory_storage memory-Promises handler post 42 0 idle consistent
      refl refl (λ e. cc e) parsed

accepts : read_and_verify_request_body library open_handler post ≡ ok (1 ∷ 2 ∷ [])
unfolding read_and_verify_request_body verify_signature is_gzip_body
accepts = refl

passes : refusal hits ≡ none
unfolding refusal
passes = refl

update_metrics_by_json-Accepts_example :
    Accepts library memory_storage memory-Promises open_handler post "Hits" counter
      (build_metrics "Hits" counter 3 0)
      idle
      (update_metrics_by_json library memory_storage open_handler post idle)
update_metrics_by_json-Accepts_example =
    update_metrics_by_json-Accepts library memory_storage memory-Promises open_handler post
      (1 ∷ 2 ∷ []) hits idle consistent refl accepts refl passes

bulk_update_metrics-BulkEnds_example :
    BulkEnds library memory_storage memory-Promises open_handler post batch idle
      (bulk_update_metrics library memory_storage open_handler post idle)
bulk_update_metrics-BulkEnds_example =
    bulk_update_metrics-BulkEnds library memory_storage memory-Promises open_handler post
      (1 ∷ 2 ∷ []) batch idle consistent refl accepts refl

get_metrics_by_id-Answers_example :
    let o = memory-Promises.view stocked (record { id = "Hits"; m_type = counter }) in
    Answers library memory_storage memory-Promises handler idle
      (get_metrics_by_id library memory_storage handler post idle)
      (lookup_status o)
      (lookup_body o)
get_metrics_by_id-Answers_example =
    get_metrics_by_id-Answers library memory_storage memory-Promises handler post idle consistent
      refl

-- The address 9 of this request is not the trusted 10.
serve_route-RouteEnds_example :
    RouteEnds library memory_storage handler update_by_url
      (some (λ ip. bytes_eq ip (10 ∷ [])))
      post
      idle
serve_route-RouteEnds_example =
    serve_route-RouteEnds library memory_storage handler update_by_url post idle refl

abbrev proto_hits : ProtoMetric
proto_hits = record { id = "Hits"; type_of = counter_type; delta = 3; value = 0 }

always_internal : Error → Code
always_internal e = internal

never_ok : (e : Error) → always_internal e ≢ ok_code
unfolding always_internal
never_ok e h = cc h

update_metrics-CallEnds_example :
    CallEnds memory_storage memory-Promises always_internal (some proto_hits ∷ none ∷ []) stocked (
      Grpc.update_metrics memory_storage always_internal background none
        (some proto_hits ∷ none ∷ [])
        stocked)
update_metrics-CallEnds_example =
    update_metrics-CallEnds memory_storage memory-Promises always_internal background none
      (some proto_hits ∷ none ∷ []) stocked never_ok consistent

trusted_subnet_interceptor-cases_example :
    (IsTrusted (λ ip. some ip) (some (λ ip. bytes_eq ip (10 ∷ []))) (some ((9 ∷ []) ∷ []))
      × (trusted_subnet_interceptor memory_storage
            (λ ip. some ip)
            (some (λ ip. bytes_eq ip (10 ∷ [])))
            (some ((9 ∷ []) ∷ []))
            (Grpc.update_metrics memory_storage always_internal background none
              (some proto_hits ∷ []))
            stocked
          ≡ Grpc.update_metrics memory_storage always_internal background none
              (some proto_hits ∷ [])
              stocked))
    ⊎ ((IsTrusted (λ ip. some ip) (some (λ ip. bytes_eq ip (10 ∷ []))) (some ((9 ∷ []) ∷ [])) → ⊥)
        × (trusted_subnet_interceptor memory_storage
              (λ ip. some ip)
              (some (λ ip. bytes_eq ip (10 ∷ [])))
              (some ((9 ∷ []) ∷ []))
              (Grpc.update_metrics memory_storage always_internal background none
                (some proto_hits ∷ []))
              stocked
            ≡ (permission_denied, stocked)))
trusted_subnet_interceptor-cases_example =
    trusted_subnet_interceptor-cases memory_storage (λ ip. some ip)
      (some (λ ip. bytes_eq ip (10 ∷ []))) (some ((9 ∷ []) ∷ []))
      (Grpc.update_metrics memory_storage always_internal background none (some proto_hits ∷ []))
      stocked

-- Two bytes are no whole block of the handler's key.
unreadable :
    read_and_verify_request_body library handler post
    ≡ err (
        wrap "decrypt request body"
          (message "decrypt: ciphertext length is not a multiple of RSA block size"))
unfolding read_and_verify_request_body decrypt
unreadable = refl
