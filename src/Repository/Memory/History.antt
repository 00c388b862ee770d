-- ===== src/Repository/Memory/History.antt =====
-- Any history of calls on a memory storage, from its creation: what its states and its lookups are.
use go_yandex_metrics.Base.{String, ◌≡◌, some, List, [], ◌∷◌, arith, ok}
use go_yandex_metrics.Model.{Metrics, MetricKey, key_of, metric_key_eq}
use go_yandex_metrics.Repository.Contract.{found, SavesOne-IsConsistent, SavesMany-IsConsistent}
use go_yandex_metrics.Repository.Merge.{Context, IsValid}
use go_yandex_metrics.Repository.Memory.{
  MemoryStorage, new_memory_storage, get_metrics_by_id, save_metrics, save_metrics_batch,
}
use go_yandex_metrics.Repository.Memory.Index.{
  view, IsConsistent, new-IsConsistent, absent, present, standing,
}
use go_yandex_metrics.Repository.Memory.Batch.{save_metrics-Saves, save_metrics_batch-SavesBatch}

-- A call that may change the storage. The lock makes the calls of concurrent clients one sequence.
pub data Call : Type 0 where
  save : Context → Metrics → Call
  save_batch : Context → List Metrics → Call

unfoldable pub serve : Call → MemoryStorage → MemoryStorage
serve (save ctx m) s = (save_metrics ctx m s).1
serve (save_batch ctx ms) s = (save_metrics_batch ctx ms s).1

unfoldable pub serve_all : List Call → MemoryStorage → MemoryStorage
unfolding serve
serve_all [] s = s
serve_all (c ∷ cs) s = serve_all cs (serve c s)

serve-IsConsistent :
    (call : Call) (s : MemoryStorage) → IsConsistent s → IsConsistent (serve call s)
unfolding serve
serve-IsConsistent (save ctx m) s c =
    SavesOne-IsConsistent IsConsistent view m s (save_metrics ctx m s) c
      (save_metrics-Saves ctx m s c)
serve-IsConsistent (save_batch ctx ms) s c =
    SavesMany-IsConsistent IsConsistent view ms s (save_metrics_batch ctx ms s) c
      (save_metrics_batch-SavesBatch ctx ms s c)

pub serve_all-IsConsistent :
    (calls : List Call) (s : MemoryStorage) → IsConsistent s → IsConsistent (serve_all calls s)
unfolding serve_all
serve_all-IsConsistent [] s c = c
serve_all-IsConsistent (call ∷ calls) s c =
    serve_all-IsConsistent calls (serve call s) (serve-IsConsistent call s c)

-- On a consistent storage a lookup returns the entry of the view.
pub get_metrics_by_id-eq-view :
    (ctx : Context) (id m_type : String) (s : MemoryStorage)
    → IsConsistent s
    → get_metrics_by_id ctx id m_type s ≡ ok (found (view s (record { id = id; m_type = m_type })))
unfolding get_metrics_by_id
get_metrics_by_id-eq-view ctx id m_type s c =
    elim (standing (record { id = id; m_type = m_type }) s c) [
      | absent e ↦ ground (arith, e)
      | present i m e at key ↦ ground (arith, e, at)
    ]

-- What is found in a consistent storage is valid and stands under its own key.
pub view-IsValid :
    (s : MemoryStorage) (k : MetricKey) (m : Metrics)
    → IsConsistent s
    → view s k ≡ some m
    → IsValid m × (key_of m ≡ k)
view-IsValid s k m c h = elim (standing k s c) [
  | absent e ↦ absurd (ground (arith, e))
  | present i x e at key ↦
      let same : x ≡ m = ground (arith, e, at) in rw (← same) (c.valid i x at, key)
]

-- After any history of saves and batches from a new storage, whatever they end in, each lookup
-- returns without a panic or an error, and a metric that it finds is valid and has the name and
-- the type that were asked for.
pub get-after-history :
    (calls : List Call) (ctx : Context) (id m_type : String)
    → let s = serve_all calls new_memory_storage in
      let k : MetricKey = record { id = id; m_type = m_type } in
      (get_metrics_by_id ctx id m_type s ≡ ok (found (view s k)))
      × ((m : Metrics) → view s k ≡ some m → IsValid m × (key_of m ≡ k))
get-after-history calls ctx id m_type =
    let s = serve_all calls new_memory_storage in
    let c = serve_all-IsConsistent calls new_memory_storage new-IsConsistent in
    (
      get_metrics_by_id-eq-view ctx id m_type s c,
      λ m h. view-IsValid s (record { id = id; m_type = m_type }) m c h,
    )
