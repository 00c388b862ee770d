-- ===== src/Repository/Memory/Index.antt =====
-- The index of the memory storage and its slice agree, every operation keeps it so, and under
-- that agreement the detailed save is one `upsert` of the view.
use go_yandex_metrics.Base.{
  ℕ, ◌-◌, ◌≡◌, inl, inr, none, some, List, [], ◌∷◌, ◌++◌, arith, ◌==◌, if◌then◌else◌, Bool-cases,
  Option-cases, length, get_elem?, set, length-append, ok,
}
use go_yandex_metrics.Base.{
  get_elem?-append_last, get_elem?-append_one, get_elem?-lt, get_elem?-set,
}
use go_yandex_metrics.Base.Assoc.{lookup, insert, lookup-insert}
use go_yandex_metrics.Model.{Metrics, MetricKey, key_of, key_eq, key_eq_iff, metric_key_eq}
use go_yandex_metrics.Repository.Merge.{
  merge, IsValid, View, upsert, saved_view, key_of-merge, merge-IsValid,
}
use go_yandex_metrics.Repository.Memory.{MemoryStorage, new_memory_storage, save_metrics_locked}

-- What stands under a key.
abbrev pub view : MemoryStorage → View
view s k = elim (lookup k s.index) [ none ↦ none | some i ↦ get_elem? s.metrics i ]

-- The index points at metrics of its keys, every metric is indexed at its own position (so no key
-- occurs twice), and every metric is valid.
pub record IsConsistent (s : MemoryStorage) : Type 0 where
  pub pointed :
      (k : MetricKey) (i : ℕ)
      → lookup k s.index ≡ some i
      → (m : Metrics) × (get_elem? s.metrics i ≡ some m) × (key_of m ≡ k)
  pub listed :
      (i : ℕ) (m : Metrics) → get_elem? s.metrics i ≡ some m → lookup (key_of m) s.index ≡ some i
  pub valid : (i : ℕ) (m : Metrics) → get_elem? s.metrics i ≡ some m → IsValid m

-- A storage as it is created agrees.
pub new-IsConsistent : IsConsistent new_memory_storage
new-IsConsistent = record {
  pointed = λ k i h. absurd (cc h);
  listed = λ i m h. absurd (cc h);
  valid = λ i m h. absurd (cc h);
}

-- The three ways in which a key can stand in a consistent storage.
pub data Standing (k : MetricKey) (s : MemoryStorage) : Type 0 where
  absent : lookup k s.index ≡ none → Standing k s
  present :
      (i : ℕ) (old : Metrics)
      → lookup k s.index ≡ some i
      → get_elem? s.metrics i ≡ some old
      → key_of old ≡ k
      → Standing k s

pub standing : (k : MetricKey) (s : MemoryStorage) → IsConsistent s → Standing k s
standing k s c = elim (Option-cases (lookup k s.index)) [
  | inl e ↦ absent e
  | inr (i, e) ↦ let (m, at, key) = c.pointed k i e in present i m e at key
]

-- The state after a save, by the standing of its key.
pub replaced : MemoryStorage → ℕ → Metrics → MemoryStorage
replaced s i new = record s { metrics = set s.metrics i new }

pub appended : MemoryStorage → Metrics → MemoryStorage
appended s m = record {
  metrics = s.metrics ++ m ∷ [];
  index = insert (key_of m) (length s.metrics) s.index;
}

pub save_present :
    (m : Metrics) (s : MemoryStorage) (i : ℕ) (old : Metrics)
    → lookup (key_of m) s.index ≡ some i
    → get_elem? s.metrics i ≡ some old
    → save_metrics_locked m s ≡ (ok (merge old m), replaced s i (merge old m))
unfolding save_metrics_locked replaced
save_present m s i old e at = ground arith

-- `len(s.metrics) - 1` after the append is the old length.
length-append_one {ℓ} : {A : Type ℓ} (xs : List A) (x : A) → length (xs ++ x ∷ []) - 1 ≡ length xs
length-append_one xs x = omega (arith, length-append xs (x ∷ []))

pub save_absent :
    (m : Metrics) (s : MemoryStorage)
    → lookup (key_of m) s.index ≡ none
    → save_metrics_locked m s ≡ (ok m, appended s m)
unfolding save_metrics_locked appended
save_absent m s e = ground (arith, length-append_one s.metrics m, get_elem?-append_last s.metrics m)

-- One save in place keeps the agreement.
replaced-IsConsistent :
    (s : MemoryStorage) (i : ℕ) (old new : Metrics)
    → IsConsistent s
    → get_elem? s.metrics i ≡ some old
    → key_of new ≡ key_of old
    → IsValid new
    → IsConsistent (replaced s i new)
unfolding replaced
replaced-IsConsistent s i old new c at key v = record {
  pointed = λ k j e.
      let (m, at', key') = c.pointed k j e in
      (if i == j then new else m, ground (arith, get_elem?-set s.metrics i j new at), ground arith);
  listed =
      λ j m e. ground (arith, get_elem?-set s.metrics i j new at, c.listed j m, c.listed i old at);
  valid = λ j m e. ground (arith, get_elem?-set s.metrics i j new at, c.valid j m);
}

-- A new key at the end keeps the agreement.
appended-IsConsistent :
    (s : MemoryStorage) (m : Metrics)
    → IsConsistent s
    → lookup (key_of m) s.index ≡ none
    → IsValid m
    → IsConsistent (appended s m)
unfolding appended
appended-IsConsistent s m c fresh v = record {
  pointed = λ k j e. elim (Bool-cases (key_eq (key_of m) k)) [
    | inl same ↦ (
      m,
      ground (
        arith,
        lookup-insert (key_of m) k (length s.metrics) s.index,
        get_elem?-append_last s.metrics m,
      ),
      (key_eq_iff (key_of m) k).0 same,
    )
    | inr other ↦
        let old : lookup k s.index ≡ some j =
          ground (arith, lookup-insert (key_of m) k (length s.metrics) s.index) in
        let (x, at, key) = c.pointed k j old in
        (x, ground (arith, get_elem?-append_one s.metrics m j, get_elem?-lt s.metrics j at), key)
  ];
  listed = λ j x e. ground (
    arith,
    get_elem?-append_one s.metrics m j,
    get_elem?-lt s.metrics j {x = x},
    lookup-insert (key_of m) (key_of x) (length s.metrics) s.index,
    key_eq_iff (key_of m) (key_of x),
    c.listed j x,
  );
  valid = λ j x e. ground (arith, get_elem?-append_one s.metrics m j, c.valid j x);
}

-- The view after each of the two changes.
view-appended :
    (s : MemoryStorage) (m : Metrics) (k : MetricKey)
    → IsConsistent s
    → lookup (key_of m) s.index ≡ none
    → view (appended s m) k ≡ (if key_eq (key_of m) k then some m else view s k)
unfolding appended
view-appended s m k c fresh = elim (standing k s c) [
  | absent e ↦ ground (
    arith,
    e,
    lookup-insert (key_of m) k (length s.metrics) s.index,
    get_elem?-append_last s.metrics m,
  )
  | present j x e at key ↦ ground (
    arith,
    e,
    at,
    lookup-insert (key_of m) k (length s.metrics) s.index,
    get_elem?-append_last s.metrics m,
    get_elem?-append_one s.metrics m j,
    get_elem?-lt s.metrics j at,
  )
]

view-replaced :
    (s : MemoryStorage) (i : ℕ) (old new : Metrics) (k : MetricKey)
    → IsConsistent s
    → lookup (key_of old) s.index ≡ some i
    → get_elem? s.metrics i ≡ some old
    → view (replaced s i new) k ≡ (if key_eq (key_of old) k then some new else view s k)
unfolding replaced
view-replaced s i old new k c e at = elim (standing k s c) [
  | absent e' ↦ ground (arith, e', key_eq_iff (key_of old) k)
  | present j x e' at' key ↦
      ground (arith, e', at', key, key_eq_iff (key_of old) k, get_elem?-set s.metrics i j new at)
]

-- Under the agreement a save is one `upsert` of the view: it neither fails nor panics, it returns
-- what then stands under the key, it changes no other key, and it keeps the agreement.
pub record Upserts (m : Metrics) (s : MemoryStorage) : Type 0 where
  pub after : MemoryStorage
  pub saves : save_metrics_locked m s ≡ (ok (upsert (view s (key_of m)) m), after)
  pub keeps : IsConsistent after
  pub views : (k : MetricKey) → view after k ≡ saved_view (view s) m k

pub save_metrics_locked-Upserts :
    (m : Metrics) (s : MemoryStorage) → IsConsistent s → IsValid m → Upserts m s
save_metrics_locked-Upserts m s c v = elim (standing (key_of m) s c) [
  | absent e ↦ record {
    after = appended s m;
    saves = rw (save_absent m s e) (ground (arith, e));
    keeps = appended-IsConsistent s m c e v;
    views = λ k. rw (view-appended s m k c e) (ground (arith, e));
  }
  | present i old e at key ↦ record {
    after = replaced s i (merge old m);
    saves = rw (save_present m s i old e at) (ground (arith, e, at));
    keeps =
        replaced-IsConsistent s i old (merge old m) c at (key_of-merge old m)
          (merge-IsValid old m (c.valid i old at));
    views = λ k.
        rw (view-replaced s i old (merge old m) k c (rw key e) at) (ground (arith, e, at, key));
  }
]
