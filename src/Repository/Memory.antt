-- ===== src/Repository/Memory.antt =====
-- internal/repository/memory.go: the storage in memory, a slice of metrics and an index from keys
-- to positions. A read or a write at a position outside the slice panics. The read-write lock
-- makes each method one step; copies of pointers (`cloneMetric`) are values here.
pub mod Index
pub mod Batch
pub mod Promised
pub mod History
pub mod Totals
use go_yandex_metrics.Base.{
  ℕ, ◌-◌, String, true, false, Option, none, some, List, [], ◌∷◌, ◌++◌, length, get_elem?, set,
  Error, Result, ok, err, panic,
}
use go_yandex_metrics.Base.Assoc.{lookup, insert}
use go_yandex_metrics.Model.{Metrics, MetricKey, key_of, metric_key_eq}
use go_yandex_metrics.Repository.Contract.{Found}
use go_yandex_metrics.Repository.Merge.{Context, validate_metric, merge}

pub record MemoryStorage : Type 0 where
  pub metrics : List Metrics
  pub index : List (MetricKey × ℕ)

-- `NewMemoryStorage`
abbrev pub new_memory_storage : MemoryStorage
new_memory_storage = record { metrics = []; index = [] }

unfoldable pub get_metrics_by_id : Context → String → String → MemoryStorage → Result Found
get_metrics_by_id _ id m_type s = elim (lookup (record { id = id; m_type = m_type }) s.index) [
  | none ↦ ok (record { metric = none; exists = false; error = none })
  | some i ↦ elim (get_elem? s.metrics i) [
    | none ↦ panic
    | some m ↦ ok (record { metric = some m; exists = true; error = none })
  ]
]

unfoldable pub get_all_metrics : Context → MemoryStorage → Result (List Metrics)
get_all_metrics _ s = ok s.metrics

unfoldable pub save_metrics_locked : Metrics → MemoryStorage → Result Metrics × MemoryStorage
save_metrics_locked m s = elim (lookup (key_of m) s.index) [
  | some i ↦ elim (get_elem? s.metrics i) [
    | none ↦ (panic, s)
    | some old ↦ (ok (merge old m), record s { metrics = set s.metrics i (merge old m) })
  ]
  | none ↦
      let grown = s.metrics ++ m ∷ [] in
      let s' : MemoryStorage = record {
        metrics = grown;
        index = insert (key_of m) (length grown - 1) s.index;
      } in
      (elim (get_elem? grown (length grown - 1)) [ none ↦ panic | some new ↦ ok new ], s')
]

unfoldable pub save_metrics : Context → Metrics → MemoryStorage → Result Metrics × MemoryStorage
save_metrics ctx m s = elim (ctx 0) [
  | some e ↦ (err e, s)
  | none ↦ elim (validate_metric m) [
    | some e ↦ (err e, s)
    | none ↦ elim (ctx 1) [ some e ↦ (err e, s) | none ↦ save_metrics_locked m s ]
  ]
]

-- The first check of `SaveMetricsBatch`: the error of the first invalid metric.
unfoldable pub validate_all : List Metrics → Option Error
validate_all [] = none
validate_all (m ∷ ms) = elim (validate_metric m) [ some e ↦ some e | none ↦ validate_all ms ]

-- The second loop: save in order, collecting what is stored.
unfoldable pub save_all :
    List Metrics → List Metrics → MemoryStorage → Result (List Metrics) × MemoryStorage
save_all [] saved s = (ok saved, s)
save_all (m ∷ ms) saved s =
    let (r, s') = save_metrics_locked m s in
    elim r [
      | ok new ↦ save_all ms (saved ++ new ∷ []) s'
      | err e ↦ (err e, s')
      | panic ↦ (panic, s')
    ]

unfoldable pub save_metrics_batch :
    Context → List Metrics → MemoryStorage → Result (List Metrics) × MemoryStorage
unfolding save_all
save_metrics_batch ctx ms s = elim (ctx 0) [
  | some e ↦ (err e, s)
  | none ↦ elim (validate_all ms) [
    | some e ↦ (err e, s)
    | none ↦ elim (ctx 1) [ some e ↦ (err e, s) | none ↦ save_all ms [] s ]
  ]
]
