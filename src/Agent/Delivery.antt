-- ===== src/Agent/Delivery.antt =====
-- From the snapshot of the agent to the storage of the server, by gRPC.
use go_yandex_metrics.Base.{
  ℕ, ◌+◌, ◌%◌, ◌<◌, ◌≡◌, refl, ap, ◌≢◌, ◌⊎◌, inl, inr, Option, none, some, List, [], ◌∷◌, arith,
  Error,
}
use mathlib.Core.List.{Perm}
use go_yandex_metrics.Base.Int64.{word_mod}
use go_yandex_metrics.Base.Text.{Bytes}
use go_yandex_metrics.Model.{Metrics}
use go_yandex_metrics.Repository.Merge.{background}
use go_yandex_metrics.Repository.Contract.{Storage, Promises}
use go_yandex_metrics.Repository.Memory.Totals.{
  sum_deltas, sum_deltas-nil, count_of, count_of-batch_view,
}
use go_yandex_metrics.Grpc.{ProtoMetric, Code, ok_code, metrics_to_models, update_metrics}
use go_yandex_metrics.Grpc.Ends.{
  CallEnds, stored, failed, update_metrics-CallEnds, update_metrics_succeeds,
}
use go_yandex_metrics.Agent.{AgentMetrics}
use go_yandex_metrics.Agent.Table.{MemStats, Entry, build_mem_metrics, ParsesFloats}
use go_yandex_metrics.Agent.Payload.{poll_count_key}
use go_yandex_metrics.Agent.Snapshot.{build_mem_metrics-all_named, payload_of-build_mem_metrics}
use go_yandex_metrics.Agent.Proto.{
  metrics_to_proto_request, received, SameMetrics, metrics_to_proto_request-SameMetrics,
}

module _ (st : Storage) (promises : Promises st) (from_context_error : Error → Code)
    (parse_float : Bytes → Option ℕ) (format_float : ℕ → Bytes) where
  open promises use {IsConsistent, view}

  -- The count that the storage has for PollCount.
  abbrev pub stored_poll_count : st.State → ℕ
  stored_poll_count s = count_of (view s poll_count_key)

  -- A call that answers OK has brought the count of the snapshot.
  pub Delivers : st.State → ℕ → Error ⊎ List ProtoMetric → Type 0
  Delivers s n (inl e) = ⊥
  Delivers s n (inr ps) =
      let (c, s') = update_metrics st from_context_error background none (received ps) s in
      (c ≡ ok_code) × (stored_poll_count s' % word_mod ≡ (stored_poll_count s + n) % word_mod)

  call-Delivers :
      (ps : List (Option ProtoMetric)) (ms : List Metrics) (s : st.State) (r : Code × st.State)
      → r.0 ≡ ok_code
      → metrics_to_models ps [] ≡ inr ms
      → CallEnds st promises from_context_error ps s r
      → stored_poll_count r.1 % word_mod
        ≡ (stored_poll_count s + sum_deltas poll_count_key ms) % word_mod
  call-Delivers ps ms s r is_ok e (failed ne same) = absurd (ne is_ok)
  call-Delivers ps ms s r is_ok e (stored models _ e' c v) =
      let same : models ≡ ms = ground (arith, e, e') in
      rw v (rw same (count_of-batch_view ms (view s) poll_count_key refl))

  not_empty :
      (ps : List (Option ProtoMetric)) (ms : List Metrics)
      → 0 < sum_deltas poll_count_key ms
      → metrics_to_models ps [] ≡ inr ms
      → ps ≢ []
  unfolding metrics_to_models
  not_empty ps [] pos e none_left = absurd (omega (arith, pos, sum_deltas-nil poll_count_key))
  not_empty ps (m ∷ ms) pos e none_left =
      cc (ap (λ (l : List (Option ProtoMetric)). metrics_to_models l []) none_left, e)

  request-Delivers :
      (s : st.State) (n : ℕ) (ms : List Metrics) (x : Error ⊎ List ProtoMetric)
      → ((e : Error) → from_context_error e ≢ ok_code)
      → IsConsistent s
      → 0 < n
      → sum_deltas poll_count_key ms ≡ n
      → SameMetrics (some ms) x
      → Delivers s n x
  unfolding Delivers
  request-Delivers s n ms (inl e) never c pos total h = absurd h
  request-Delivers s n ms (inr ps) never c pos total h =
      let is_ok =
        update_metrics_succeeds st promises from_context_error none (received ps) ms s c
          (not_empty (received ps) ms (rw total pos) h) h in
      (
        is_ok,
        rw (← total) (
            call-Delivers (received ps) ms s _ is_ok h (
              update_metrics-CallEnds st promises from_context_error background none (received ps) s
                never c)),
      )

  -- The request that the gRPC client makes of a snapshot, in whatever order the table is iterated,
  -- is answered OK by the service on any storage that keeps its promises, and the counter PollCount
  -- that is stored grows by the whole count of the snapshot, modulo 2^64: for a count that is not
  -- zero, if the texts of the gauges parse, the call is not cancelled and the code of a context's
  -- error is never OK.
  pub metrics_to_proto_request-Delivers :
      (m : AgentMetrics MemStats) (es : List Entry) (s : st.State)
      → ParsesFloats parse_float format_float
      → ((e : Error) → from_context_error e ≢ ok_code)
      → IsConsistent s
      → 0 < m.poll_count
      → m.poll_count < word_mod
      → Perm (build_mem_metrics format_float m) es
      → Delivers s m.poll_count (metrics_to_proto_request parse_float es)
  metrics_to_proto_request-Delivers m es s fl never c pos small p =
      let (ms, made, valid, total) =
        payload_of-build_mem_metrics parse_float format_float fl m es small p in
      request-Delivers s m.poll_count ms (metrics_to_proto_request parse_float es) never c pos total
        (rw (← made) (
          metrics_to_proto_request-SameMetrics parse_float es
            (build_mem_metrics-all_named parse_float format_float fl m es small p)))
