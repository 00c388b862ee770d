-- ===== src/Persistence/Restart.antt =====
-- Saving the metrics to the file and restoring them: `saveMetrics` and the restoring of
-- `SaveMetricsToFileWithContext`, internal/server/server.go.
use go_yandex_metrics.Base.{
  ℕ, ◌+◌, ◌≡◌, refl, ap, ◌∙◌, subst, inl, inr, none, some, List, [], ◌∷◌, arith, Bool-cases, All,
  ok,
}
use go_yandex_metrics.Base.Text.{Bytes}
use go_yandex_metrics.Model.{Metrics, MetricKey, key_of, key_eq, key_eq_iff}
use go_yandex_metrics.Repository.Merge.{background, IsValid, View, saved_view, batch_view}
use go_yandex_metrics.Repository.Contract.{
  Storage, Promises, find_key, NoRepeats, Lists, save-Saved,
}
use go_yandex_metrics.Service
use go_yandex_metrics.Persistence.{
  Disk, Faults, Codec, write_event, read_metrics_list, new_consumer, save_metrics, restore_all,
  restore,
}
use go_yandex_metrics.Persistence.Atomic.{kept, replaced, write_event-WriteEnds}

-- What encoding/json documents of the metrics: the text of a list decodes to the list.
abbrev pub Inverse : Codec → Type 0
Inverse codec =
    (ms : List Metrics) (text : Bytes)
    → codec.encode ms ≡ inr text
    → codec.decode text ≡ some (inr ms)

-- Saving a list without repeated keys, over a view that holds none of them, adds exactly the list.
abbrev added : View → List Metrics → View
added f ms k = elim (find_key k ms) [ none ↦ f k | some m ↦ some m ]

-- The view after the first metric of a list, of which the view holds no key.
added_step :
    (f : View) (m : Metrics) (ms : List Metrics) (k : MetricKey)
    → f (key_of m) ≡ none
    → find_key (key_of m) ms ≡ none
    → added (saved_view f m) ms k ≡ added f (m ∷ ms) k
added_step f m ms k fresh once = elim (Bool-cases (key_eq (key_of m) k)) [
  | inl same ↦
      let e : key_of m ≡ k = (key_eq_iff (key_of m) k).0 same in
      let none_left : find_key k ms ≡ none = subst (λ j. find_key j ms ≡ none) e once in
      ground (arith, same, none_left, fresh)
  | inr other ↦ ground (arith, other)
]

added_nothing :
    (f : View) (ms : List Metrics) (k : MetricKey) → f k ≡ none → added f ms k ≡ find_key k ms
added_nothing f ms k h = ground (arith, h)

batch_view-added :
    (ms : List Metrics) (f : View)
    → NoRepeats ms
    → ((k : MetricKey) (m : Metrics) → find_key k ms ≡ some m → f k ≡ none)
    → (k : MetricKey) → batch_view f ms k ≡ added f ms k
batch_view-added [] f once fresh k = refl
batch_view-added (m ∷ ms) f once fresh k =
    batch_view-added ms (saved_view f m) once.1 still k
    ∙ added_step f m ms k (fresh (key_of m) m first) once.0
  where
    first : find_key (key_of m) (m ∷ ms) ≡ some m
    first = rw ((key_eq_iff (key_of m) (key_of m)).1 refl) refl

    still : (j : MetricKey) (x : Metrics) → find_key j ms ≡ some x → saved_view f m j ≡ none
    still j x h = elim (Bool-cases (key_eq (key_of m) j)) [
      | inl same ↦
          let e : key_of m ≡ j = (key_eq_iff (key_of m) j).0 same in
          absurd (ground (arith, h, subst (λ i. find_key i ms ≡ none) e once.0))
      | inr other ↦ rw other (fresh j x (rw other h))
    ]

module _ (codec : Codec) (st : Storage) (promises : Promises st) where
  open promises use {IsConsistent, view}

  -- The loop of the restoring, from any consistent storage, with a context that is not cancelled.
  record Restores (n : ℕ) (ms : List Metrics) (s : st.State) : Type 0 where
    after : st.State
    does : restore_all codec st (λ i. background) n ms s ≡ (ok tt, after)
    keeps : IsConsistent after
    views : view after ≡ batch_view (view s) ms

  restoring-Restores :
      (n : ℕ) (ms : List Metrics) (s : st.State) → IsConsistent s → All IsValid ms → Restores n ms s
  unfolding restore_all Service.create_or_update_metrics
  restoring-Restores n [] s c v = record { after = s; does = refl; keeps = c; views = refl }
  restoring-Restores n (m ∷ ms) s c v =
      let saved = save-Saved st promises m s c v.0 in
      let rest = restoring-Restores (n + 1) ms saved.after saved.keeps v.1 in
      record {
        after = rest.after;
        does = ground (arith, saved.does, rest.does);
        keeps = rest.keeps;
        views = rest.views ∙ ap (λ f. batch_view f ms) saved.views;
      }

  -- A list that a save has put into the file is read back.
  pub record Filed (f : Faults) (s : st.State) (d : Disk) : Type 0 where
    pub metrics_list : List Metrics
    pub text : Bytes
    pub disk : Disk
    pub encoded : codec.encode metrics_list ≡ inr text
    pub does : save_metrics codec st f s d ≡ (ok tt, s, disk)
    pub there : disk.file ≡ some text
    pub lists : Lists (view s) metrics_list
    pub valid : All IsValid metrics_list

  pub save_metrics-Filed :
      (f : Faults) (s : st.State) (d : Disk)
      → IsConsistent s
      → (save_metrics codec st f s d).0 ≡ ok tt
      → Filed f s d
  unfolding save_metrics Service.get_all_metrics
  save_metrics-Filed f s d c saved =
      let (ms, gets, lists, valid) = promises.gets_all s c in
      elim (write_event-WriteEnds codec f ms d).0 [
        | kept x failed same ↦ absurd (ground (arith, gets, failed, saved))
        | replaced text fine encoded there gone ↦ record {
          metrics_list = ms;
          text = text;
          disk = (write_event codec f ms d).1;
          encoded = encoded;
          does = ground (arith, gets, fine);
          there = there;
          lists = lists;
          valid = valid;
        }
      ]

  restore_text :
      (text : Bytes) (ms : List Metrics) (s : st.State) (d : Disk)
      → d.file ≡ some text
      → codec.decode text ≡ some (inr ms)
      → let (r, s') = restore_all codec st (λ i. background) 0 ms s in
        restore codec st none (λ i. background) s d ≡ (r, s', d)
  unfolding restore new_consumer read_metrics_list
  restore_text text ms s d there decoded = ground (arith, there, decoded)

  -- A save of the metrics that returns no error, and a restart that restores them into a storage
  -- that holds nothing, with an open that succeeds and a context that is not cancelled: the
  -- restoring succeeds, leaves the file alone, and the new storage holds under every key what the
  -- old one held. The storage keeps its promises, and JSON decoding inverts encoding.
  pub restore-save_metrics :
      (f : Faults) (s fresh : st.State) (d : Disk)
      → Inverse codec
      → IsConsistent s
      → IsConsistent fresh
      → ((k : MetricKey) → view fresh k ≡ none)
      → (save_metrics codec st f s d).0 ≡ ok tt
      → let d' = (save_metrics codec st f s d).2 in
        let (r, s', d'') = restore codec st none (λ i. background) fresh d' in
        (r ≡ ok tt) × (d'' ≡ d') × IsConsistent s' × ((k : MetricKey) → view s' k ≡ view s k)
  restore-save_metrics f s fresh d inverse c c' empty saved =
      let filed = save_metrics-Filed f s d c saved in
      let restored = restoring-Restores 0 filed.metrics_list fresh c' filed.valid in
      let read =
        restore_text filed.text filed.metrics_list fresh filed.disk filed.there
          (inverse filed.metrics_list filed.text filed.encoded) in
      let same : (k : MetricKey) → view restored.after k ≡ view s k = λ k.
        ap (λ (g : View). g k) restored.views
        ∙ batch_view-added filed.metrics_list (view fresh) filed.lists.once (λ j m h. empty j) k
        ∙ added_nothing (view fresh) filed.metrics_list k (empty k)
        ∙ filed.lists.holds k in
      rw filed.does (rw read (rw restored.does (refl, refl, restored.keeps, same)))

  -- `saveMetrics` returns no error where the storage lists its metrics, they can be encoded, and no
  -- call of the file system fails but perhaps the removal of the temporary file; the file then holds
  -- the encoded list.
  pub save_metrics_succeeds :
      (f : Faults) (ms : List Metrics) (text : Bytes) (s : st.State) (d : Disk)
      → st.get_all_metrics background s ≡ (ok ms, s)
      → codec.encode ms ≡ inr text
      → f.create_temp ≡ none
      → f.write ≡ none
      → f.sync ≡ none
      → f.close ≡ none
      → f.rename ≡ none
      → save_metrics codec st f s d ≡ (ok tt, s, record { file = some text; temp = none })
  unfolding save_metrics write_event Service.get_all_metrics
  save_metrics_succeeds f ms text s d gets encoded creates writes syncs closes renames =
      ground (arith, gets, encoded, creates, writes, syncs, closes, renames)
