-- ===== src/Model.antt =====
-- internal/model/metrics.go: the metric that agent, server and storage exchange, and the pair of
-- name and type by which the storages find it.
use go_yandex_metrics.Base.{
  ℕ, String, ◌≡◌, refl, ◌↔◌, Bool, true, false, ◌&&◌, Option, arith, str_eq, str_eq_iff,
}
use go_yandex_metrics.Base.Assoc.{Eq}

-- `models.Counter`
abbrev pub counter : String
counter = "counter"

-- `models.Gauge`
abbrev pub gauge : String
gauge = "gauge"

-- An int64 and a float64 stand as their 64-bit patterns; a nil pointer is `none`.
pub record Metrics : Type 0 where
  pub id : String
  pub m_type : String
  pub delta : Option ℕ
  pub value : Option ℕ
  pub hash : String

-- `metricKey` of internal/repository/memory.go.
pub record MetricKey : Type 0 where
  pub id : String
  pub m_type : String

abbrev pub key_of : Metrics → MetricKey
key_of m = record { id = m.id; m_type = m.m_type }

abbrev pub key_eq : MetricKey → MetricKey → Bool
key_eq a b = str_eq a.id b.id && str_eq a.m_type b.m_type

pub key_eq_iff : (a b : MetricKey) → (key_eq a b ≡ true) ↔ (a ≡ b)
key_eq_iff a b = (
  λ h. ground (arith, str_eq_iff a.id b.id, str_eq_iff a.m_type b.m_type),
  λ h. ground (arith, str_eq_iff a.id b.id, str_eq_iff a.m_type b.m_type),
)

instance abbrev pub metric_key_eq : Eq MetricKey
metric_key_eq = record { beq = key_eq; beq_iff = key_eq_iff }

-- No metric is of both types.
pub gauge-not-counter : (t : String) → t ≡ gauge → str_eq t counter ≡ false
gauge-not-counter t e = rw e refl

pub counter-not-gauge : (t : String) → t ≡ counter → str_eq t gauge ≡ false
counter-not-gauge t e = rw e refl
