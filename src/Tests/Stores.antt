-- ===== src/Tests/Stores.antt =====
-- The storage in memory, on concrete calls.
use go_yandex_metrics.Base.{◌+◌, ◌%◌, ◌≡◌, refl, some, List, [], ◌∷◌, ok}
use go_yandex_metrics.Base.Int64.{word_mod}
use go_yandex_metrics.Model.{Metrics, MetricKey, counter, gauge, key_of}
use go_yandex_metrics.Repository.Contract.{found}
use go_yandex_metrics.Repository.Merge.{background, IsValid, validate_metric, merge, batch_results}
use go_yandex_metrics.Repository.Memory.{
  MemoryStorage, get_metrics_by_id, save_metrics_locked, save_metrics, validate_all, save_all,
  save_metrics_batch,
}
use go_yandex_metrics.Repository.Memory.Index.{view}
use go_yandex_metrics.Repository.Memory.Batch.{
  Saves, SavesBatch, save_metrics-Saves, save_metrics_batch-SavesBatch,
}
use go_yandex_metrics.Repository.Memory.History.{serve, serve_all, get-after-history}
use go_yandex_metrics.Repository.Memory.Totals.{
  stored_count, sum_deltas, last_value, value_of, save_metrics_batch-adds,
  save_metrics_batch-replaces,
}
use go_yandex_metrics.Tests.Data.{
  hits, temperature, full, batch, calls, stocked, stocked-IsConsistent,
}

abbrev hits_key : MetricKey
hits_key = record { id = "Hits"; m_type = counter }

abbrev temperature_key : MetricKey
temperature_key = record { id = "Temperature"; m_type = gauge }

-- The history leaves one counter and one gauge: the refused batch has done nothing.
stocked-metrics : stocked.metrics ≡ hits ∷ temperature ∷ []
unfolding serve serve_all save_metrics save_metrics_batch save_metrics_locked validate_all
    validate_metric
stocked-metrics = refl

save_metrics-Saves_example : Saves full stocked (save_metrics background full stocked)
save_metrics-Saves_example = save_metrics-Saves background full stocked stocked-IsConsistent

save_metrics_batch-SavesBatch_example :
    SavesBatch batch stocked (save_metrics_batch background batch stocked)
save_metrics_batch-SavesBatch_example =
    save_metrics_batch-SavesBatch background batch stocked stocked-IsConsistent

abbrev news : List Metrics
news = batch_results (view stocked) batch

abbrev after : MemoryStorage
after = (save_metrics_batch background batch stocked).1

batch_is_saved : save_metrics_batch background batch stocked ≡ (ok news, after)
unfolding serve serve_all save_metrics save_metrics_batch save_all save_metrics_locked validate_all
    validate_metric merge
batch_is_saved = refl

-- The counter has wrapped: 3 + 3 + (2^64 - 1).
count_after : stored_count after hits_key ≡ 5
unfolding serve serve_all save_metrics save_metrics_batch save_all save_metrics_locked validate_all
    validate_metric merge
count_after = refl

save_metrics_batch-adds_example :
    stored_count after hits_key % word_mod
    ≡ (stored_count stocked hits_key + sum_deltas hits_key batch) % word_mod
save_metrics_batch-adds_example =
    save_metrics_batch-adds background batch news stocked after hits_key stocked-IsConsistent
      batch_is_saved refl

save_metrics_batch-replaces_example :
    value_of (view after temperature_key)
    ≡ last_value temperature_key (value_of (view stocked temperature_key)) batch
save_metrics_batch-replaces_example =
    save_metrics_batch-replaces background batch news stocked after temperature_key
      stocked-IsConsistent batch_is_saved refl

get-after-history_example :
    (get_metrics_by_id background "Hits" counter stocked ≡ ok (found (view stocked hits_key)))
    × ((m : Metrics) → view stocked hits_key ≡ some m → IsValid m × (key_of m ≡ hits_key))
get-after-history_example = get-after-history calls background "Hits" counter
