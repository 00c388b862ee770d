-- ===== src/Repository/Memory/Totals.antt =====
-- What batches add up to: counters sum modulo 2^64 in any order, gauges keep the last value.
use go_yandex_metrics.Base.{
  ℕ, ◌+◌, ◌%◌, ◌≡◌, refl, ap, ◌∙◌, subst, inl, inr, Option, none, some, List, [], ◌∷◌, arith,
  if◌then◌else◌, str_eq_iff, Bool-cases, All, ok,
}
use mathlib.Core.Logic.{∥∥₁_elim}
use native.Mathlib.Nat.{ℕ_set}
use mathlib.Core.List.{Perm, Permᴰ}
use go_yandex_metrics.Base.Int64.{word_mod}
use go_yandex_metrics.Model.{
  gauge-not-counter, Metrics, MetricKey, counter, gauge, key_of, key_eq, key_eq_iff,
}
use go_yandex_metrics.Repository.Merge.{
  Context, merge, validate_metric, View, upsert, saved_view, batch_view, IsValid,
}
use go_yandex_metrics.Repository.Memory.{MemoryStorage, save_metrics_batch}
use go_yandex_metrics.Repository.Memory.Index.{view, IsConsistent}
use go_yandex_metrics.Repository.Memory.Batch.{SavesBatch, save_metrics_batch-SavesBatch}

-- The number that a counter stands at, zero where there is none.
abbrev pub delta_or_zero : Metrics → ℕ
delta_or_zero m = elim m.delta [ none ↦ 0 | some d ↦ d ]

abbrev pub count_of : Option Metrics → ℕ
count_of none = 0
count_of (some m) = delta_or_zero m

-- The plain sum, without wrap, of the deltas that a batch brings for a key.
pub sum_deltas : MetricKey → List Metrics → ℕ
sum_deltas k [] = 0
sum_deltas k (m ∷ ms) = (if key_eq (key_of m) k then delta_or_zero m else 0) + sum_deltas k ms

pub sum_deltas-nil : (k : MetricKey) → sum_deltas k [] ≡ 0
unfolding sum_deltas
sum_deltas-nil k = refl

pub sum_deltas-cons :
    (k : MetricKey) (m : Metrics) (ms : List Metrics)
    → sum_deltas k (m ∷ ms) ≡ (if key_eq (key_of m) k then delta_or_zero m else 0) + sum_deltas k ms
unfolding sum_deltas
sum_deltas-cons k m ms = refl

delta-merge :
    (old m : Metrics)
    → m.m_type ≡ counter
    → delta_or_zero (merge old m) % word_mod ≡ (delta_or_zero old + delta_or_zero m) % word_mod
unfolding merge
delta-merge old m t = ground (arith, str_eq_iff m.m_type counter)

count_of-upsert :
    (o : Option Metrics) (m : Metrics)
    → m.m_type ≡ counter
    → count_of (some (upsert o m)) % word_mod ≡ (count_of o + delta_or_zero m) % word_mod
count_of-upsert none m t = omega arith
count_of-upsert (some old) m t = delta-merge old m t

count_of-saved_view :
    (f : View) (m : Metrics) (k : MetricKey)
    → k.m_type ≡ counter
    → count_of (saved_view f m k) % word_mod
      ≡ (count_of (f k) + (if key_eq (key_of m) k then delta_or_zero m else 0)) % word_mod
count_of-saved_view f m k t = elim (Bool-cases (key_eq (key_of m) k)) [
  | inl same ↦
      let e : key_of m ≡ k = (key_eq_iff (key_of m) k).0 same in
      rw same (rw e (count_of-upsert (f k) m (ap (λ (j : MetricKey). j.m_type) e ∙ t)))
  | inr other ↦ rw other (omega arith)
]

-- The counter after a batch, on views.
pub count_of-batch_view :
    (ms : List Metrics) (f : View) (k : MetricKey)
    → k.m_type ≡ counter
    → count_of (batch_view f ms k) % word_mod ≡ (count_of (f k) + sum_deltas k ms) % word_mod
unfolding sum_deltas
count_of-batch_view [] f k t = omega arith
count_of-batch_view (m ∷ ms) f k t =
    omega (arith, count_of-batch_view ms (saved_view f m) k t, count_of-saved_view f m k t)

-- The counter `k` of a storage.
abbrev pub stored_count : MemoryStorage → MetricKey → ℕ
stored_count s k = count_of (view s k)

-- A batch that is saved moves each counter by the sum of the deltas that it brings for it, modulo
-- 2^64, from any consistent storage.
pub save_metrics_batch-adds :
    (ctx : Context) (ms news : List Metrics) (s s' : MemoryStorage) (k : MetricKey)
    → IsConsistent s
    → save_metrics_batch ctx ms s ≡ (ok news, s')
    → k.m_type ≡ counter
    → stored_count s' k % word_mod ≡ (stored_count s k + sum_deltas k ms) % word_mod
save_metrics_batch-adds ctx ms news s s' k c e t =
    let saved : SavesBatch ms s (ok news, s') =
      subst (SavesBatch ms s) e (save_metrics_batch-SavesBatch ctx ms s c) in
    rw (saved.3) (count_of-batch_view ms (view s) k t)

-- The sum does not depend on the order of the batch.
sum_deltas-permᴰ :
    (k : MetricKey) {ms ns : List Metrics} → Permᴰ ms ns → sum_deltas k ms ≡ sum_deltas k ns
unfolding sum_deltas
sum_deltas-permᴰ k Permᴰ.nil = refl
sum_deltas-permᴰ k (Permᴰ.cons {a = a} {b = b} {l₁ = l₁} {l₂ = l₂} e p) = cc (
  ap (λ (m : Metrics). if key_eq (key_of m) k then delta_or_zero m else 0) e,
  sum_deltas-permᴰ k p,
)
sum_deltas-permᴰ k (Permᴰ.swap {a = a} {b = b} {a' = a'} {b' = b'} e e') = omega (
  arith,
  ap (λ (m : Metrics). if key_eq (key_of m) k then delta_or_zero m else 0) e,
  ap (λ (m : Metrics). if key_eq (key_of m) k then delta_or_zero m else 0) e',
)
sum_deltas-permᴰ k (Permᴰ.trans p q) = sum_deltas-permᴰ k p ∙ sum_deltas-permᴰ k q

-- Two orders of one batch, saved from the same consistent storage, leave every counter at the same
-- number modulo 2^64.
pub save_metrics_batch-order :
    (ctx ctx' : Context) (ms ns news news' : List Metrics) (s s' s'' : MemoryStorage)
    (k : MetricKey)
    → IsConsistent s
    → Perm ms ns
    → save_metrics_batch ctx ms s ≡ (ok news, s')
    → save_metrics_batch ctx' ns s ≡ (ok news', s'')
    → k.m_type ≡ counter
    → stored_count s' k % word_mod ≡ stored_count s'' k % word_mod
save_metrics_batch-order ctx ctx' ms ns news news' s s' s'' k c p e e' t =
    let same : sum_deltas k ms ≡ sum_deltas k ns =
      ∥∥₁_elim p (ℕ_set _ _) (λ d. sum_deltas-permᴰ k d) in
    omega (
      arith,
      same,
      save_metrics_batch-adds ctx ms news s s' k c e t,
      save_metrics_batch-adds ctx' ns news' s s'' k c e' t,
    )

-- The value that a batch leaves a gauge at: the last one that it brings for the key.
pub last_value : MetricKey → Option ℕ → List Metrics → Option ℕ
last_value k v [] = v
last_value k v (m ∷ ms) = last_value k (if key_eq (key_of m) k then m.value else v) ms

abbrev pub value_of : Option Metrics → Option ℕ
value_of none = none
value_of (some m) = m.value

value-merge : (old m : Metrics) → IsValid m → m.m_type ≡ gauge → (merge old m).value ≡ m.value
unfolding merge validate_metric
value-merge old m v t = ground (arith, str_eq_iff m.m_type gauge, gauge-not-counter m.m_type t, v)

value-upsert :
    (o : Option Metrics) (m : Metrics) → IsValid m → m.m_type ≡ gauge → (upsert o m).value ≡ m.value
value-upsert none m v t = refl
value-upsert (some old) m v t = value-merge old m v t

value_of-saved_view :
    (f : View) (m : Metrics) (k : MetricKey)
    → IsValid m
    → k.m_type ≡ gauge
    → value_of (saved_view f m k) ≡ (if key_eq (key_of m) k then m.value else value_of (f k))
value_of-saved_view f m k v t = elim (Bool-cases (key_eq (key_of m) k)) [
  | inl same ↦
      let e : key_of m ≡ k = (key_eq_iff (key_of m) k).0 same in
      rw same (value-upsert (f (key_of m)) m v (ap (λ (j : MetricKey). j.m_type) e ∙ t))
  | inr other ↦ rw other refl
]

last_value-batch_view :
    (ms : List Metrics) (f : View) (k : MetricKey)
    → All IsValid ms
    → k.m_type ≡ gauge
    → value_of (batch_view f ms k) ≡ last_value k (value_of (f k)) ms
unfolding last_value
last_value-batch_view [] f k v t = refl
last_value-batch_view (m ∷ ms) f k v t =
    last_value-batch_view ms (saved_view f m) k v.1 t
    ∙ ap (λ (x : Option ℕ). last_value k x ms) (value_of-saved_view f m k v.0 t)

-- A batch that is saved leaves each gauge at the last value that it brings for it, or at the value
-- it had, from any consistent storage.
pub save_metrics_batch-replaces :
    (ctx : Context) (ms news : List Metrics) (s s' : MemoryStorage) (k : MetricKey)
    → IsConsistent s
    → save_metrics_batch ctx ms s ≡ (ok news, s')
    → k.m_type ≡ gauge
    → value_of (view s' k) ≡ last_value k (value_of (view s k)) ms
save_metrics_batch-replaces ctx ms news s s' k c e t =
    let saved : SavesBatch ms s (ok news, s') =
      subst (SavesBatch ms s) e (save_metrics_batch-SavesBatch ctx ms s c) in
    rw (saved.3) (last_value-batch_view ms (view s) k saved.0 t)
