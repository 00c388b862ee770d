-- ===== src/Repository/Merge.antt =====
-- What a storage holds of a metric, and how a save changes it: `validateMetric` of
-- internal/repository/memory.go and the merge rule of `saveMetricsLocked`.
use go_yandex_metrics.Base.{
  ℕ, ◌≡◌, ◌⊎◌, Option, none, some, List, [], ◌∷◌, arith, if◌then◌else◌, str_eq, str_eq_iff, Error,
  message, detail,
}
use go_yandex_metrics.Base.Int64.{add64}
use go_yandex_metrics.Model.{Metrics, MetricKey, counter, gauge, key_of, key_eq}

-- `ctx.Err()`, call by call.
abbrev pub Context : Type 0
Context = ℕ → Option Error

-- `context.Background()` is never cancelled.
abbrev pub background : Context
background _ = none

-- `validateMetric`; `none` is a nil error.
unfoldable pub validate_metric : Metrics → Option Error
validate_metric m =
    if str_eq m.id ""
    then some (message "metric id is required")
    else if str_eq m.m_type counter
    then elim m.delta [ none ↦ some (detail "counter has no delta" m.id) | some _ ↦ none ]
    else if str_eq m.m_type gauge
    then elim m.value [ none ↦ some (detail "gauge has no value" m.id) | some _ ↦ none ]
    else some (detail "unsupported metric type" m.m_type)

abbrev pub IsValid : Metrics → Type 0
IsValid m = validate_metric m ≡ none

-- The update of a metric that is stored already: a counter adds, a gauge replaces.
unfoldable pub merge : Metrics → Metrics → Metrics
merge old m =
    let counted =
      if str_eq m.m_type counter
      then elim m.delta [
        | none ↦ old
        | some d ↦ record old { delta = some (elim old.delta [ none ↦ d | some e ↦ add64 e d ]) }
      ]
      else old in
    if str_eq m.m_type gauge
    then elim m.value [ none ↦ counted | some v ↦ record counted { value = some v } ]
    else counted

-- A view of a storage: what is stored under each key.
abbrev pub View : Type 0
View = MetricKey → Option Metrics

abbrev pub upsert : Option Metrics → Metrics → Metrics
upsert none m = m
upsert (some old) m = merge old m

-- The view after a save.
abbrev pub saved_view : View → Metrics → View
saved_view f m k = if key_eq (key_of m) k then some (upsert (f (key_of m)) m) else f k

pub key_of-merge : (old m : Metrics) → key_of (merge old m) ≡ key_of old
unfolding merge
key_of-merge old m = ground arith

pub merge-IsValid : (old m : Metrics) → IsValid old → IsValid (merge old m)
unfolding merge validate_metric
merge-IsValid old m h = ground arith

-- A valid metric has one of the two types, and the number that its type needs.
pub IsValid-cases :
    (m : Metrics)
    → IsValid m
    → ((m.m_type ≡ counter) × ((d : ℕ) × (m.delta ≡ some d)))
      ⊎ ((m.m_type ≡ gauge) × ((v : ℕ) × (m.value ≡ some v)))
unfolding validate_metric
IsValid-cases m h = ground (arith, str_eq_iff m.m_type counter, str_eq_iff m.m_type gauge)

-- The view after a batch, and what each save of the batch returns.
abbrev pub batch_view : View → List Metrics → View
batch_view f [] = f
batch_view f (m ∷ ms) = batch_view (saved_view f m) ms

abbrev pub batch_results : View → List Metrics → List Metrics
batch_results f [] = []
batch_results f (m ∷ ms) = upsert (f (key_of m)) m ∷ batch_results (saved_view f m) ms
