-- ===== src/Persistence/Loop.antt =====
-- The goroutine of `SaveMetricsToFileWithContext`, internal/server/server.go: what its last save
-- leaves in the file.
use go_yandex_metrics.Base.{
  ℕ, ◌*◌, ◌%◌, ◌^◌, ◌≡◌, refl, inl, inr, not, ◌&&◌, Option, some, List, [], ◌∷◌, arith, Bool-cases,
  Result, ok, err, panic,
}
use go_yandex_metrics.Base.Text.{Bytes}
use go_yandex_metrics.Model.{Metrics}
use go_yandex_metrics.Repository.Contract.{Storage, Promises, Lists}
use go_yandex_metrics.Persistence.{
  Disk, Faults, Codec, Moment, tick, done, elsewhere, save_metrics, is_positive, saving_loop,
  keep_saving,
}
use go_yandex_metrics.Persistence.Restart.{save_metrics-Filed}

module _ (codec : Codec) (st : Storage) (promises : Promises st) where
  open promises use {IsConsistent, view}

  -- What the other goroutines do keeps the storage consistent.
  abbrev pub Keeps : List (Moment st) → Type 0
  Keeps [] = Unit
  Keeps (elsewhere change ∷ moments) =
      ((s : st.State) → IsConsistent s → IsConsistent (change s)) × Keeps moments
  Keeps (tick f ∷ moments) = Keeps moments
  Keeps (done f ∷ moments) = Keeps moments

  -- The file holds the encoding of a list of all that the storage holds.
  pub record Written (s : st.State) (d : Disk) : Type 0 where
    pub metrics_list : List Metrics
    pub text : Bytes
    pub encoded : codec.encode metrics_list ≡ inr text
    pub there : d.file ≡ some text
    pub lists : Lists (view s) metrics_list

  Written-save_metrics :
      (f : Faults) (s : st.State) (d : Disk)
      → IsConsistent s
      → (save_metrics codec st f s d).0 ≡ ok tt
      → Written (save_metrics codec st f s d).1 (save_metrics codec st f s d).2
  Written-save_metrics f s d c saved =
      let filed = save_metrics-Filed codec st promises f s d c saved in
      rw filed.does (record {
        metrics_list = filed.metrics_list;
        text = filed.text;
        encoded = filed.encoded;
        there = filed.there;
        lists = filed.lists;
      })

  abbrev Ends : Option (Result {0} Unit) × st.State × Disk → Type 0
  Ends (r, s, d) = r ≡ some (ok tt) → Written s d

  -- The case of a tick, by what its save returned.
  tick-Ends :
      (store_interval : ℕ) (f : Faults) (moments : List (Moment st)) (s : st.State) (d : Disk)
      → IsConsistent s
      → ((d' : Disk) → Ends (saving_loop codec st store_interval moments s d'))
      → Ends (saving_loop codec st store_interval (tick f ∷ moments) s d)
  unfolding saving_loop
  tick-Ends store_interval f moments s d c rest =
      elim (Bool-cases (not (is_positive codec st store_interval))) [
        | inl off ↦ rw off (rest d)
        | inr on ↦ rw on (go (save_metrics codec st f s d).0 refl)
      ]
    where
      go :
          (r : Result {0} Unit)
          → (save_metrics codec st f s d).0 ≡ r
          → Ends (elim r [
            | ok _ ↦
                saving_loop codec st store_interval moments
                  (save_metrics codec st f s d).1
                  (save_metrics codec st f s d).2
            | err e ↦
                (some (err e), (save_metrics codec st f s d).1, (save_metrics codec st f s d).2)
            | panic ↦ (some panic, (save_metrics codec st f s d).1, (save_metrics codec st f s d).2)
          ])
      go (ok u) h =
          let filed = save_metrics-Filed codec st promises f s d c h in
          rw filed.does (rest filed.disk)
      go (err e) h = λ same. cc same
      go panic h = λ same. cc same

  saving_loop-Ends :
      (store_interval : ℕ) (moments : List (Moment st)) (s : st.State) (d : Disk)
      → IsConsistent s
      → Keeps moments
      → Ends (saving_loop codec st store_interval moments s d)
  unfolding saving_loop
  saving_loop-Ends store_interval [] s d c k = λ same. cc same
  saving_loop-Ends store_interval (elsewhere change ∷ moments) s d c k =
      saving_loop-Ends store_interval moments (change s) d (k.0 s c) k.1
  saving_loop-Ends store_interval (tick f ∷ moments) s d c k =
      tick-Ends store_interval f moments s d c
        (λ d'. saving_loop-Ends store_interval moments s d' c k)
  saving_loop-Ends store_interval (done f ∷ moments) s d c k =
      λ same. Written-save_metrics f s d c (ground (arith, same))

  keep_saving-Ends :
      (store_interval : ℕ) (moments : List (Moment st)) (s : st.State) (d : Disk)
      → IsConsistent s
      → Keeps moments
      → Ends (keep_saving codec st store_interval moments s d)
  unfolding keep_saving
  keep_saving-Ends store_interval moments s d c k =
      elim (Bool-cases (
        is_positive codec st store_interval
        && not (is_positive codec st ((store_interval * 1000000000) % 2 ^ 64)))) [
          | inl bad ↦ rw bad (λ same. absurd (cc same))
          | inr good ↦ rw good (saving_loop-Ends store_interval moments s d c k)
        ]

  -- The loop with any interval, on a storage that keeps its promises, over any sequence of ticks,
  -- changes of the storage that keep it consistent, and the end of the context, whichever calls of
  -- the file system fail: if it ends without an error, the file holds the encoding of a list of
  -- exactly what the storage holds then.
  pub keep_saving-Written :
      (store_interval : ℕ) (moments : List (Moment st)) (s : st.State) (d : Disk)
      → IsConsistent s
      → Keeps moments
      → (keep_saving codec st store_interval moments s d).0 ≡ some (ok tt)
      → let (r, s', d') = keep_saving codec st store_interval moments s d in Written s' d'
  keep_saving-Written store_interval moments s d c k ended =
      keep_saving-Ends store_interval moments s d c k ended
