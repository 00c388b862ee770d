-- ===== src/Service.antt =====
-- internal/service/service.go: the operations of the application, over any storage. Except for the
-- two saves that take the request's context, the service calls the storage with the background.
use go_yandex_metrics.Base.{
  ℕ, String, ◌≡◌, ◌≢◌, ◌⊎◌, inl, inr, none, some, List, arith, if◌then◌else◌, str_eq, str_eq_iff,
  Result, ok, err, panic,
}
use go_yandex_metrics.Model.{Metrics, counter, gauge, gauge-not-counter}
use go_yandex_metrics.Repository.Merge.{Context, background, IsValid, validate_metric}
use go_yandex_metrics.Repository.Contract.{Storage, Found}

-- The metric that `UpdateMetrics` and `CreateMetrics` build: the number that the type asks for,
-- and none for any other type.
unfoldable pub build_metrics : String → String → ℕ → ℕ → Metrics
build_metrics name m_type delta value = record {
  id = name;
  m_type = m_type;
  delta = if str_eq m_type counter then some delta else none;
  value = if str_eq m_type counter then none else if str_eq m_type gauge then some value else none;
  hash = "";
}

module _ (st : Storage) where
  unfoldable pub get_all_metrics : st.State → Result (List Metrics) × st.State
  get_all_metrics = st.get_all_metrics background

  unfoldable pub get_metrics_by_id : String → String → st.State → Result Found × st.State
  get_metrics_by_id = st.get_metrics_by_id background

  unfoldable pub update_metrics : Metrics → ℕ → ℕ → st.State → Result Metrics × st.State
  update_metrics existing_metric delta value =
      st.save_metrics background
        (build_metrics existing_metric.id existing_metric.m_type delta value)

  unfoldable pub create_or_update_metrics : Context → Metrics → st.State → Result Metrics × st.State
  create_or_update_metrics = st.save_metrics

  unfoldable pub create_or_update_metrics_batch :
      Context → List Metrics → st.State → Result (List Metrics) × st.State
  create_or_update_metrics_batch = st.save_metrics_batch

  unfoldable pub create_metrics : String → String → ℕ → ℕ → st.State → Result Metrics × st.State
  create_metrics metric_name metric_type delta value s =
      let (r, s') =
        st.save_metrics background (build_metrics metric_name metric_type delta value) s in
      (elim r [ ok saved ↦ ok saved | err e ↦ err e | panic ↦ panic ], s')

-- What is built under a name is valid exactly if the name is not empty and the type is one of two.
pub build_metrics-IsValid :
    (name m_type : String) (delta value : ℕ)
    → name ≢ ""
    → (m_type ≡ counter) ⊎ (m_type ≡ gauge)
    → IsValid (build_metrics name m_type delta value)
unfolding build_metrics validate_metric
build_metrics-IsValid name m_type delta value ne (inl t) =
    ground (arith, str_eq_iff name "", str_eq_iff m_type counter)
build_metrics-IsValid name m_type delta value ne (inr t) =
    ground (arith, str_eq_iff name "", str_eq_iff m_type gauge, gauge-not-counter m_type t)
