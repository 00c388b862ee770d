-- ===== src/Repository/Memory/Batch.antt =====
-- `SaveMetrics` and `SaveMetricsBatch` as a whole: what each outcome says of the storage after it.
use go_yandex_metrics.Base.{
  ◌≡◌, refl, ap, ◌∙◌, inl, inr, none, List, [], ◌∷◌, ◌++◌, arith, Option-cases, All, Result, ok,
  err,
}
use mathlib.Core.Path.{fun_ext}
use mathlib.Core.List.{append_assoc, append-nil}
use go_yandex_metrics.Model.{Metrics, key_of}
use go_yandex_metrics.Repository.Contract.{SavesOne, SavesMany}
use go_yandex_metrics.Repository.Merge.{
  Context, background, validate_metric, IsValid, upsert, saved_view, batch_view, batch_results,
}
use go_yandex_metrics.Repository.Memory.{
  MemoryStorage, save_metrics_locked, save_metrics, validate_all, save_all, save_metrics_batch,
}
use go_yandex_metrics.Repository.Memory.Index.{view, IsConsistent, save_metrics_locked-Upserts}

-- What the storage holds after a call that began at `s`, by how the call ended.
abbrev pub Saves : Metrics → MemoryStorage → Result Metrics × MemoryStorage → Type 0
Saves = SavesOne IsConsistent view

abbrev pub SavesBatch :
    List Metrics → MemoryStorage → Result (List Metrics) × MemoryStorage → Type 0
SavesBatch = SavesMany IsConsistent view

locked-Saves :
    (m : Metrics) (s : MemoryStorage)
    → IsConsistent s
    → IsValid m
    → Saves m s (save_metrics_locked m s)
locked-Saves m s c v =
    let u = save_metrics_locked-Upserts m s c v in rw u.saves (v, refl, u.keeps, fun_ext u.views)

-- `SaveMetrics` on a consistent storage, whatever its context answers and whatever the metric is:
-- it never panics, an error leaves the storage as it was, and a success means that the metric was
-- valid, that the view changed by one `upsert`, and that the result is what now stands there.
pub save_metrics-Saves :
    (ctx : Context) (m : Metrics) (s : MemoryStorage)
    → IsConsistent s
    → Saves m s (save_metrics ctx m s)
unfolding save_metrics
save_metrics-Saves ctx m s c = elim (Option-cases (ctx 0)) [
  | inr (e, h) ↦ let ends : save_metrics ctx m s ≡ (err e, s) = ground (arith, h) in rw ends refl
  | inl h ↦ elim (Option-cases (validate_metric m)) [
    | inr (e, h') ↦
        let ends : save_metrics ctx m s ≡ (err e, s) = ground (arith, h, h') in rw ends refl
    | inl h' ↦ elim (Option-cases (ctx 1)) [
      | inr (e, h'') ↦
          let ends : save_metrics ctx m s ≡ (err e, s) = ground (arith, h, h', h'') in rw ends refl
      | inl h'' ↦
          let ends : save_metrics ctx m s ≡ save_metrics_locked m s = ground (arith, h, h', h'') in
          rw ends (locked-Saves m s c h')
    ]
  ]
]

pub validate_all-All : (ms : List Metrics) → validate_all ms ≡ none → All IsValid ms
unfolding validate_all
validate_all-All [] h = tt
validate_all-All (m ∷ ms) h = elim (Option-cases (validate_metric m)) [
  | inr (e, h') ↦ absurd (ground (arith, h'))
  | inl h' ↦ (h', validate_all-All ms (ground (arith, h')))
]

pub All-validate_all : (ms : List Metrics) → All IsValid ms → validate_all ms ≡ none
unfolding validate_all
All-validate_all [] h = refl
All-validate_all (m ∷ ms) h = ground (arith, h.0, All-validate_all ms h.1)

-- The loop of the batch, from any list of results so far.
pub record LoopEnds (ms saved : List Metrics) (s : MemoryStorage) : Type 0 where
  pub after : MemoryStorage
  pub saves : save_all ms saved s ≡ (ok (saved ++ batch_results (view s) ms), after)
  pub keeps : IsConsistent after
  pub views : view after ≡ batch_view (view s) ms

pub saving-LoopEnds :
    (ms saved : List Metrics) (s : MemoryStorage)
    → IsConsistent s
    → All IsValid ms
    → LoopEnds ms saved s
unfolding save_all
saving-LoopEnds [] saved s c v = record {
  after = s;
  saves = rw append-nil refl;
  keeps = c;
  views = refl;
}
saving-LoopEnds (m ∷ ms) saved s c v =
    let u = save_metrics_locked-Upserts m s c v.0 in
    let rest =
      saving-LoopEnds ms (saved ++ upsert (view s (key_of m)) m ∷ []) u.after u.keeps v.1 in
    let same : view u.after ≡ saved_view (view s) m = fun_ext u.views in
    record {
      after = rest.after;
      saves = ground (
        arith,
        u.saves,
        rest.saves,
        same,
        append_assoc saved (upsert (view s (key_of m)) m ∷ []) (batch_results (view u.after) ms),
      );
      keeps = rest.keeps;
      views = rest.views ∙ ap (λ f. batch_view f ms) same;
    }

loop-SavesBatch :
    (ms : List Metrics) (s : MemoryStorage)
    → IsConsistent s
    → All IsValid ms
    → SavesBatch ms s (save_all ms [] s)
loop-SavesBatch ms s c v =
    let r = saving-LoopEnds ms [] s c v in rw r.saves (v, refl, r.keeps, r.views)

-- `SaveMetricsBatch` on a consistent storage, whatever its context answers and whatever the batch
-- is: it never panics, an error leaves the storage as it was before the batch, and a success means
-- that every metric was valid and that the whole batch was applied in order, with the results
-- listing what each save stored.
pub save_metrics_batch-SavesBatch :
    (ctx : Context) (ms : List Metrics) (s : MemoryStorage)
    → IsConsistent s
    → SavesBatch ms s (save_metrics_batch ctx ms s)
unfolding save_metrics_batch
save_metrics_batch-SavesBatch ctx ms s c = elim (Option-cases (ctx 0)) [
  | inr (e, h) ↦
      let ends : save_metrics_batch ctx ms s ≡ (err e, s) = ground (arith, h) in rw ends refl
  | inl h ↦ elim (Option-cases (validate_all ms)) [
    | inr (e, h') ↦
        let ends : save_metrics_batch ctx ms s ≡ (err e, s) = ground (arith, h, h') in rw ends refl
    | inl h' ↦ elim (Option-cases (ctx 1)) [
      | inr (e, h'') ↦
          let ends : save_metrics_batch ctx ms s ≡ (err e, s) = ground (arith, h, h', h'') in
          rw ends refl
      | inl h'' ↦
          let ends : save_metrics_batch ctx ms s ≡ save_all ms [] s = ground (arith, h, h', h'') in
          rw ends (loop-SavesBatch ms s c (validate_all-All ms h'))
    ]
  ]
]

-- With a context that is not cancelled, a batch of valid metrics is saved.
pub save_metrics_batch_succeeds :
    (ms : List Metrics) (s : MemoryStorage)
    → IsConsistent s
    → All IsValid ms
    → (save_metrics_batch background ms s).0 ≡ ok (batch_results (view s) ms)
unfolding save_metrics_batch
save_metrics_batch_succeeds ms s c v =
    ground (arith, All-validate_all ms v, (saving-LoopEnds ms [] s c v).saves)

pub save_metrics_succeeds :
    (m : Metrics) (s : MemoryStorage)
    → IsConsistent s
    → IsValid m
    → (save_metrics background m s).0 ≡ ok (upsert (view s (key_of m)) m)
unfolding save_metrics
save_metrics_succeeds m s c v = ground (arith, v, (save_metrics_locked-Upserts m s c v).saves)
