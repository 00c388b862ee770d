-- ===== src/Repository/Memory/Promised.antt =====
-- The storage in memory keeps the contract of `repository.Storage`.
use go_yandex_metrics.Base.{
  ℕ, zero, suc, ◌≡◌, refl, sym, ap, ◌∙◌, subst, inl, inr, Option, none, some, List, [], ◌∷◌, arith,
  Bool-cases, Option-cases, get_elem?, All, ok,
}
use go_yandex_metrics.Base.Assoc.{lookup}
use go_yandex_metrics.Model.{Metrics, MetricKey, key_of, key_eq, key_eq_iff, metric_key_eq}
use go_yandex_metrics.Repository.Merge.{background, IsValid}
use go_yandex_metrics.Repository.Contract.{Storage, Promises, find_key, NoRepeats, Lists}
use go_yandex_metrics.Repository.Memory.{
  MemoryStorage, get_metrics_by_id, get_all_metrics, save_metrics, save_metrics_batch,
}
use go_yandex_metrics.Repository.Memory.Index.{view, IsConsistent, absent, present, standing}
use go_yandex_metrics.Repository.Memory.Batch.{
  save_metrics-Saves, save_metrics_batch-SavesBatch, save_metrics_succeeds,
  save_metrics_batch_succeeds,
}
use go_yandex_metrics.Repository.Memory.History.{get_metrics_by_id-eq-view, view-IsValid}

abbrev pub memory_storage : Storage
memory_storage = record {
  State = MemoryStorage;
  get_metrics_by_id = λ ctx id m_type s. (get_metrics_by_id ctx id m_type s, s);
  get_all_metrics = λ ctx s. (get_all_metrics ctx s, s);
  save_metrics = save_metrics;
  save_metrics_batch = save_metrics_batch;
}

-- A metric that is found stands at some position, and has the key that was looked for.
find_key-position :
    (k : MetricKey) (ms : List Metrics) {m : Metrics}
    → find_key k ms ≡ some m
    → (i : ℕ) × (get_elem? ms i ≡ some m) × (key_of m ≡ k)
find_key-position k [] h = absurd (cc h)
find_key-position k (x ∷ ms) {m} h = elim (Bool-cases (key_eq (key_of x) k)) [
  | inl same ↦
      let e : x ≡ m = ground (arith, same) in
      (0, ap {B = Option Metrics} some e, ap key_of (sym e) ∙ (key_eq_iff (key_of x) k).0 same)
  | inr other ↦
      let (i, at, key) = find_key-position k ms {m = m} (ground (arith, other)) in (suc i, at, key)
]

find_key-none :
    (k : MetricKey) (ms : List Metrics)
    → ((i : ℕ) (m : Metrics) → get_elem? ms i ≡ some m → ¬ (key_of m ≡ k))
    → find_key k ms ≡ none
find_key-none k [] h = refl
find_key-none k (x ∷ ms) h =
    ground
      (arith, h 0 x refl, key_eq_iff (key_of x) k, find_key-none k ms (λ i m at. h (suc i) m at))

-- Positions tell keys apart.
abbrev Distinct : List Metrics → Type 0
Distinct ms =
    (i j : ℕ) (m n : Metrics)
    → get_elem? ms i ≡ some m
    → get_elem? ms j ≡ some n
    → key_of m ≡ key_of n
    → i ≡ j

Distinct-NoRepeats : (ms : List Metrics) → Distinct ms → NoRepeats ms
Distinct-NoRepeats [] d = tt
Distinct-NoRepeats (m ∷ ms) d = (
  find_key-none (key_of m) ms
      (λ i n at same. absurd (suc_ne_zero i (d (suc i) 0 n m at refl same))),
  Distinct-NoRepeats ms (λ i j x y at at' same. suc_inj i j (d (suc i) (suc j) x y at at' same)),
)
  where
    suc_ne_zero : (i : ℕ) → suc i ≡ 0 → ⊥
    suc_ne_zero i h = omega arith

    suc_inj : (i j : ℕ) → suc i ≡ suc j → i ≡ j
    suc_inj i j h = omega arith

not-find_key :
    (k : MetricKey) (ms : List Metrics) (i : ℕ) (m : Metrics)
    → find_key k ms ≡ none
    → get_elem? ms i ≡ some m
    → ¬ (key_of m ≡ k)
not-find_key k [] i m h at = absurd (cc at)
not-find_key k (x ∷ ms) zero m h at = λ same. ground (arith, key_eq_iff (key_of x) k)
not-find_key k (x ∷ ms) (suc i) m h at =
    not-find_key k ms i m (ground (arith, key_eq_iff (key_of x) k)) at

find_key-at :
    (ms : List Metrics) (i : ℕ) (m : Metrics)
    → Distinct ms
    → get_elem? ms i ≡ some m
    → find_key (key_of m) ms ≡ some m
find_key-at ms i m d at = elim (Option-cases (find_key (key_of m) ms)) [
  | inl e ↦ absurd (not-find_key (key_of m) ms i m e at refl)
  | inr (x, e) ↦
      let (j, at', key) = find_key-position (key_of m) ms {m = x} e in
      let same : i ≡ j = d i j m x at at' (sym key) in ground (arith, at, at', e)
]

IsConsistent-Distinct : (s : MemoryStorage) → IsConsistent s → Distinct s.metrics
IsConsistent-Distinct s c i j m n at at' same = ground (arith, c.listed i m at, c.listed j n at')

All-IsValid :
    (ms : List Metrics)
    → ((i : ℕ) (m : Metrics) → get_elem? ms i ≡ some m → IsValid m)
    → All IsValid ms
All-IsValid [] h = tt
All-IsValid (m ∷ ms) h = (h 0 m refl, All-IsValid ms (λ i x at. h (suc i) x at))

find_key-eq-view :
    (s : MemoryStorage) (k : MetricKey) → IsConsistent s → find_key k s.metrics ≡ view s k
find_key-eq-view s k c = elim (standing k s c) [
  | absent e ↦
      let missing : view s k ≡ none = ground (arith, e) in
      find_key-none k s.metrics (λ i m at same.
        ground (arith, e, subst (λ j. lookup j s.index ≡ some i) same (c.listed i m at)))
      ∙ sym missing
  | present i m e at key ↦
      let there : view s k ≡ some m = ground (arith, e, at) in
      rw there (rw key at (find_key-at s.metrics i m (IsConsistent-Distinct s c) at))
]

pub memory-Lists :
    (s : MemoryStorage)
    → IsConsistent s
    → (ms : List Metrics) × (memory_storage.get_all_metrics background s ≡ (ok ms, s))
      × Lists (view s) ms
      × All IsValid ms
unfolding get_all_metrics
memory-Lists s c = (
  s.metrics,
  refl,
  record {
    once = Distinct-NoRepeats s.metrics (IsConsistent-Distinct s c);
    holds = λ k. find_key-eq-view s k c;
  },
  All-IsValid s.metrics c.valid,
)

-- The contract of `repository.Storage`, filled by the storage in memory.
unfoldable pub memory-Promises : Promises memory_storage
memory-Promises = record {
  IsConsistent = IsConsistent;
  view = view;
  stored = view-IsValid;
  gets = λ id m_type s c. ap (λ r. (r, s)) (get_metrics_by_id-eq-view background id m_type s c);
  gets_all = memory-Lists;
  saves = save_metrics-Saves;
  saves_valid = save_metrics_succeeds;
  saves_batch = save_metrics_batch-SavesBatch;
  saves_batch_valid = save_metrics_batch_succeeds;
}
