-- ===== src/Repository/Contract.antt =====
-- internal/repository/repository.go: the interface of a storage, and what a storage promises.
-- `Storage` has the four methods as state transformers. `Promises` is the contract of the
-- interface: behind the state there is a map from keys to metrics, a save is one `upsert` of it, a
-- batch is all or nothing, and a failure changes nothing.
use go_yandex_metrics.Base.{
  String, ◌≡◌, refl, sym, ap, ◌∙◌, subst, Bool, true, false, Option, none, some, List, [], ◌∷◌,
  if◌then◌else◌, All, Error, Result, ok, err, panic,
}
use go_yandex_metrics.Model.{Metrics, MetricKey, key_of, key_eq}
use go_yandex_metrics.Repository.Merge.{
  Context, background, IsValid, View, upsert, saved_view, batch_view, batch_results,
}

-- The results `(*Metrics, bool, error)` of a lookup.
pub record Found : Type 0 where
  pub metric : Option Metrics
  pub exists : Bool
  pub error : Option Error

-- The lookup result of a view's entry.
abbrev pub found : Option Metrics → Found
found none = record { metric = none; exists = false; error = none }
found (some m) = record { metric = some m; exists = true; error = none }

-- `repository.Storage`
pub record Storage : Type 1 where
  pub State : Type 0
  pub get_metrics_by_id : Context → String → String → State → Result Found × State
  pub get_all_metrics : Context → State → Result (List Metrics) × State
  pub save_metrics : Context → Metrics → State → Result Metrics × State
  pub save_metrics_batch : Context → List Metrics → State → Result (List Metrics) × State

module _ {S : Type 0} (IsConsistent : S → Type 0) (view : S → View) where
  -- What the storage holds after a save that began at `s`, by how the call ended.
  abbrev pub SavesOne : Metrics → S → Result Metrics × S → Type 0
  SavesOne m s (ok new, s') =
      IsValid m
      × (new ≡ upsert (view s (key_of m)) m)
      × IsConsistent s'
      × (view s' ≡ saved_view (view s) m)
  SavesOne m s (err e, s') = s' ≡ s
  SavesOne m s (panic, s') = ⊥

  -- The same of a batch.
  abbrev pub SavesMany : List Metrics → S → Result (List Metrics) × S → Type 0
  SavesMany ms s (ok news, s') =
      All IsValid ms
      × (news ≡ batch_results (view s) ms)
      × IsConsistent s'
      × (view s' ≡ batch_view (view s) ms)
  SavesMany ms s (err e, s') = s' ≡ s
  SavesMany ms s (panic, s') = ⊥

  -- A save keeps the storage consistent, however it ends.
  pub SavesOne-IsConsistent :
      (m : Metrics) (s : S) (r : Result Metrics × S)
      → IsConsistent s
      → SavesOne m s r
      → IsConsistent r.1
  SavesOne-IsConsistent m s (ok new, s') c h = h.2
  SavesOne-IsConsistent m s (err e, s') c h = subst IsConsistent (sym h) c
  SavesOne-IsConsistent m s (panic, s') c h = absurd h

  pub SavesMany-IsConsistent :
      (ms : List Metrics) (s : S) (r : Result (List Metrics) × S)
      → IsConsistent s
      → SavesMany ms s r
      → IsConsistent r.1
  SavesMany-IsConsistent ms s (ok news, s') c h = h.2
  SavesMany-IsConsistent ms s (err e, s') c h = subst IsConsistent (sym h) c
  SavesMany-IsConsistent ms s (panic, s') c h = absurd h

-- The first metric of a key in a list.
abbrev pub find_key : MetricKey → List Metrics → Option Metrics
find_key k [] = none
find_key k (m ∷ ms) = if key_eq (key_of m) k then some m else find_key k ms

-- A list without two metrics of one key.
abbrev pub NoRepeats : List Metrics → Type 0
NoRepeats [] = Unit
NoRepeats (m ∷ ms) = (find_key (key_of m) ms ≡ none) × NoRepeats ms

-- A list of all that a view holds: each key once, and what stands under it.
pub record Lists (f : View) (ms : List Metrics) : Type 0 where
  pub once : NoRepeats ms
  pub holds : (k : MetricKey) → find_key k ms ≡ f k

pub record Promises (st : Storage) : Type 1 where
  pub IsConsistent : st.State → Type 0
  pub view : st.State → View
  pub stored :
      (s : st.State) (k : MetricKey) (m : Metrics)
      → IsConsistent s
      → view s k ≡ some m
      → IsValid m × (key_of m ≡ k)
  pub gets :
      (id m_type : String) (s : st.State)
      → IsConsistent s
      → st.get_metrics_by_id background id m_type s
        ≡ (ok (found (view s (record { id = id; m_type = m_type }))), s)
  pub gets_all :
      (s : st.State)
      → IsConsistent s
      → (ms : List Metrics) × (st.get_all_metrics background s ≡ (ok ms, s))
        × Lists (view s) ms
        × All IsValid ms
  pub saves :
      (ctx : Context) (m : Metrics) (s : st.State)
      → IsConsistent s
      → SavesOne IsConsistent view m s (st.save_metrics ctx m s)
  pub saves_valid :
      (m : Metrics) (s : st.State)
      → IsConsistent s
      → IsValid m
      → (st.save_metrics background m s).0 ≡ ok (upsert (view s (key_of m)) m)
  pub saves_batch :
      (ctx : Context) (ms : List Metrics) (s : st.State)
      → IsConsistent s
      → SavesMany IsConsistent view ms s (st.save_metrics_batch ctx ms s)
  pub saves_batch_valid :
      (ms : List Metrics) (s : st.State)
      → IsConsistent s
      → All IsValid ms
      → (st.save_metrics_batch background ms s).0 ≡ ok (batch_results (view s) ms)

module _ (st : Storage) (promises : Promises st) where
  open promises use {IsConsistent, view, saves, saves_valid}

  -- A save of a valid metric, without a cancelled context, succeeds.
  pub record Saved (m : Metrics) (s : st.State) : Type 0 where
    pub after : st.State
    pub does : st.save_metrics background m s ≡ (ok (upsert (view s (key_of m)) m), after)
    pub keeps : IsConsistent after
    pub views : view after ≡ saved_view (view s) m

  background_save :
      (m : Metrics) (s : st.State) (r : Result Metrics × st.State)
      → st.save_metrics background m s ≡ r
      → SavesOne IsConsistent view m s r
      → r.0 ≡ ok (upsert (view s (key_of m)) m)
      → Saved m s
  background_save m s (ok new, s') e h same = record {
    after = s';
    does = e ∙ ap (λ (x : Result Metrics). (x, s')) same;
    keeps = h.2;
    views = h.3;
  }
  background_save m s (err x, s') e h same = absurd (cc same)
  background_save m s (panic, s') e h same = absurd h

  pub save-Saved : (m : Metrics) (s : st.State) → IsConsistent s → IsValid m → Saved m s
  save-Saved m s c v =
      background_save m s (st.save_metrics background m s) refl (saves background m s c)
        (saves_valid m s c v)
