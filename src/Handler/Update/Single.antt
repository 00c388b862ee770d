-- ===== src/Handler/Update/Single.antt =====
-- What the two updates of single metrics do to a storage that keeps its contract, and what they
-- answer.
use go_yandex_metrics.Base.{
  ℕ, String, ◌≡◌, refl, ◌≢◌, ◌⊎◌, inl, inr, Option, none, some, arith, Option-cases,
}
use go_yandex_metrics.Model.{Metrics, MetricKey, counter, gauge, key_of}
use go_yandex_metrics.Repository.Merge.{saved_view}
use go_yandex_metrics.Repository.Contract.{Storage, Promises, Saved, save-Saved}
use go_yandex_metrics.Service
use go_yandex_metrics.Service.{build_metrics, build_metrics-IsValid}
use go_yandex_metrics.Handler.Http.{Request, Library, Handler, World}
use go_yandex_metrics.Handler.Update.{answer_saved, update_or_create}

abbrev pub key : String → String → MetricKey
key name m_type = record { id = name; m_type = m_type }

-- The metric that an update shows in its answer: the one that was found, or the new one.
abbrev pub shown : Option Metrics → Metrics → Metrics
shown none m = m
shown (some old) m = old

module _ (lib : Library) (st : Storage) (promises : Promises st) (h : Handler) where
  open promises use {IsConsistent, view}

  -- What an update does to a consistent storage: one `upsert` of what the numbers build.
  pub record Updates (req : Request) (name m_type : String) (delta value : ℕ) (w : World st.State)
      : Type 0 where
    pub after : st.State
    pub does :
        update_or_create lib st h req name m_type delta value w
        ≡ answer_saved lib st h req name
            (shown (view w.state (key name m_type)) (build_metrics name m_type delta value))
            (record w { state = after })
    pub keeps : IsConsistent after
    pub views : view after ≡ saved_view (view w.state) (build_metrics name m_type delta value)

  module _ (req : Request) (name m_type : String) (delta value : ℕ) (w : World st.State)
      (c : IsConsistent w.state) where
    new : Metrics
    new = build_metrics name m_type delta value

    key_of-new : key_of new ≡ key name m_type
    unfolding new build_metrics
    key_of-new = refl

    absent_key :
        view w.state (key name m_type) ≡ none
        → Saved st promises new w.state
        → Updates req name m_type delta value w
    unfolding update_or_create new Service.get_metrics_by_id Service.create_metrics
    absent_key absent saved = record {
      after = saved.after;
      does = ground (arith, absent, promises.gets name m_type w.state c, saved.does, key_of-new);
      keeps = saved.keeps;
      views = saved.views;
    }

    present_key :
        (old : Metrics)
        → view w.state (key name m_type) ≡ some old
        → key_of old ≡ key name m_type
        → Saved st promises new w.state
        → Updates req name m_type delta value w
    unfolding update_or_create new Service.get_metrics_by_id Service.update_metrics
    present_key old present same saved = record {
      after = saved.after;
      does =
          ground
            (arith, present, promises.gets name m_type w.state c, saved.does, key_of-new, same);
      keeps = saved.keeps;
      views = saved.views;
    }

    pub update_or_create-Updates :
        name ≢ "" → (m_type ≡ counter) ⊎ (m_type ≡ gauge) → Updates req name m_type delta value w
    unfolding new
    update_or_create-Updates ne t =
        let saved =
          save-Saved st promises new w.state c
            (build_metrics-IsValid name m_type delta value ne t) in
        elim (Option-cases (view w.state (key name m_type))) [
          | inl absent ↦ absent_key absent saved
          | inr (old, present) ↦
              present_key old present (promises.stored w.state (key name m_type) old c present).1
                saved
        ]
