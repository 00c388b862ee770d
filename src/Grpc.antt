-- ===== src/Grpc.antt =====
-- internal/grpcserver/server.go: the gRPC service Metrics and the interceptor of the trusted
-- subnet. A request is the list of its metrics as the generated getters read them, with a nil
-- metric as `none`.
pub mod Ends
use go_yandex_metrics.Base.{
  ℕ, ◌+◌, String, ◌≡◌, ◌⊎◌, inl, inr, Bool, true, not, Option, none, some, List, [], ◌∷◌, ◌++◌,
  if◌then◌else◌, str_eq, Error, ok, err, panic,
}
use go_yandex_metrics.Base.Text.{Bytes}
use go_yandex_metrics.Model.{Metrics, counter, gauge}
use go_yandex_metrics.Repository.Merge.{Context}
use go_yandex_metrics.Repository.Contract.{Storage}
use go_yandex_metrics.Service

-- The type of a protobuf metric: `pb.Metric_GAUGE`, `pb.Metric_COUNTER`, or another number.
pub data MetricType : Type 0 where
  gauge_type counter_type : MetricType
  other_type : ℕ → MetricType

-- `*pb.Metric` through its getters.
pub record ProtoMetric : Type 0 where
  pub id : String
  pub type_of : MetricType
  pub delta : ℕ
  pub value : ℕ

-- The codes of google.golang.org/grpc/codes that the service answers with.
pub data Code : Type 0 where
  ok_code invalid_argument permission_denied internal canceled_code deadline_code : Code

-- `metricToModel`; the error is the code of its status.
unfoldable pub metric_to_model : Option ProtoMetric → Code ⊎ Metrics
metric_to_model none = inl invalid_argument
metric_to_model (some m) = if str_eq m.id "" then inl invalid_argument else elim m.type_of [
  | gauge_type ↦
      inr (record { id = m.id; m_type = gauge; delta = none; value = some m.value; hash = "" })
  | counter_type ↦
      inr (record { id = m.id; m_type = counter; delta = some m.delta; value = none; hash = "" })
  | other_type n ↦ inl invalid_argument
]

-- The loop of `UpdateMetrics`, with the metrics so far.
unfoldable pub metrics_to_models : List (Option ProtoMetric) → List Metrics → Code ⊎ List Metrics
metrics_to_models [] metrics = inr metrics
metrics_to_models (m ∷ ms) metrics = elim (metric_to_model m) [
  | inl code ↦ inl code
  | inr model ↦ metrics_to_models ms (metrics ++ model ∷ [])
]

-- `status.FromContextError` is a parameter: the code that it gives an error of a context.
module _ (st : Storage) (from_context_error : Error → Code) where
  -- The save of `UpdateMetrics` and its answer. The first answer of the context has been read, the
  -- storage reads the next ones, and `late` is what it answers after a save that failed.
  unfoldable pub save_models : Context → Option Error → List Metrics → st.State → Code × st.State
  save_models ctx late metrics s =
      let (r, s') = Service.create_or_update_metrics_batch st (λ n. ctx (n + 1)) metrics s in
      (
        elim r [
          | ok saved ↦ ok_code
          | err e ↦ elim late [ some x ↦ from_context_error x | none ↦ internal ]
          | panic ↦ internal
        ],
        s',
      )

  -- `UpdateMetrics` of MetricsServer; a nil request is an empty one.
  unfoldable pub update_metrics :
      Context → Option Error → List (Option ProtoMetric) → st.State → Code × st.State
  update_metrics ctx late [] s = (invalid_argument, s)
  update_metrics ctx late (m ∷ ms) s = elim (metrics_to_models (m ∷ ms) []) [
    | inl code ↦ (code, s)
    | inr metrics ↦ elim (ctx 0) [
      | some e ↦ (from_context_error e, s)
      | none ↦ save_models ctx late metrics s
    ]
  ]

-- What the interceptor lets through: a call, where no subnet is set, or where the first address
-- that the metadata has is in the subnet.
abbrev pub IsTrusted : (Bytes → Option Bytes) → Option (Bytes → Bool) → Option (List Bytes) → Type 0
IsTrusted parse_ip none addresses = Unit
IsTrusted parse_ip (some contains) addresses =
    (first : Bytes) × (rest : List Bytes) × (agent_ip : Bytes) × (addresses ≡ some (first ∷ rest))
    × (parse_ip first ≡ some agent_ip)
    × (contains agent_ip ≡ true)

module _ (st : Storage) where
  -- `TrustedSubnetInterceptor`: `addresses` is what the metadata has under x-real-ip, `none` if
  -- there is no metadata; the address is parsed by `net.ParseIP`.
  unfoldable pub trusted_subnet_interceptor :
      (Bytes → Option Bytes)
      → Option (Bytes → Bool)
      → Option (List Bytes)
      → (st.State → Code × st.State)
      → st.State
      → Code × st.State
  trusted_subnet_interceptor parse_ip none addresses handler s = handler s
  trusted_subnet_interceptor parse_ip (some contains) none handler s = (permission_denied, s)
  trusted_subnet_interceptor parse_ip (some contains) (some []) handler s = (permission_denied, s)
  trusted_subnet_interceptor parse_ip (some contains) (some (address ∷ rest)) handler s =
      elim (parse_ip address) [
        | none ↦ (permission_denied, s)
        | some agent_ip ↦ if not (contains agent_ip) then (permission_denied, s) else handler s
      ]
