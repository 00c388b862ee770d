-- ===== src/Postgres/Upsert.antt =====
-- The statements of internal/repository/postgres.go as upserts of the table.
use go_yandex_metrics.Base.{
  ◌≡◌, refl, ap, ◌∙◌, ◌⊎◌, inl, inr, Option, none, some, arith, str_eq_iff, Bool-cases,
  Option-cases, Error,
}
use mathlib.Core.Path.{fun_ext}
use go_yandex_metrics.Model.{
  Metrics, MetricKey, counter, gauge, key_of, key_eq, key_eq_iff, gauge-not-counter,
  counter-not-gauge,
}
use go_yandex_metrics.Repository.Merge.{
  IsValid, View, merge, upsert, saved_view, IsValid-cases, key_of-merge, merge-IsValid,
}
use go_yandex_metrics.Postgres.{Statement, scan_row, save_metric}
use go_yandex_metrics.Postgres.Laws.{
  IsSound, upserted, statement_key, run_statement, stored_row, statement_of, stored_row-IsValid,
}

-- The statement of a valid metric is on its key.
pub statement_key-statement_of : (m : Metrics) → statement_key (statement_of m) ≡ key_of m
statement_key-statement_of m = ground arith

-- `saveMetric` of a valid metric runs its statement.
pub save_metric-statement_of :
    {Q : Type 0} (query_row : Statement → Q → (Error ⊎ Option Metrics) × Q) (m : Metrics) (q : Q)
    → IsValid m
    → save_metric query_row m q ≡ scan_row (query_row (statement_of m) q)
unfolding save_metric
save_metric-statement_of query_row m q v = elim (IsValid-cases m v) [
  | inl (t, (d, x)) ↦ ground (arith, str_eq_iff m.m_type counter, t)
  | inr (t, (d, x)) ↦ ground (arith, gauge-not-counter m.m_type t, str_eq_iff m.m_type gauge, t)
]

inserted :
    (m : Metrics) → IsValid m → upserted none (statement_of m) ≡ some (upsert none (stored_row m))
inserted m v = elim (IsValid-cases m v) [
  | inl (t, (d, x)) ↦ ground (arith, str_eq_iff m.m_type counter, t, counter-not-gauge m.m_type t)
  | inr (t, (d, x)) ↦ ground (arith, gauge-not-counter m.m_type t, str_eq_iff m.m_type gauge, t)
]

updated :
    (old m : Metrics)
    → IsValid m
    → IsValid old
    → old.m_type ≡ m.m_type
    → upserted (some old) (statement_of m) ≡ some (upsert (some old) (stored_row m))
unfolding merge
updated old m v v' same = elim (IsValid-cases m v) [
  | inl (t, (d, x)) ↦ elim (IsValid-cases old v') [
    | inl (t', (d', x')) ↦
        ground (arith, str_eq_iff m.m_type counter, t, counter-not-gauge m.m_type t, x, x')
    | inr (t', (d', x')) ↦
        absurd
          (ground (arith, counter-not-gauge m.m_type t, str_eq_iff m.m_type gauge, same ∙ t, t'))
  ]
  | inr (t, (d, x)) ↦ ground (arith, gauge-not-counter m.m_type t, str_eq_iff m.m_type gauge, t, x)
]

-- On a sound table the statement of a valid metric is the upsert of what the table keeps of it.
pub upserted-upsert :
    (f : View) (m : Metrics)
    → IsSound f
    → IsValid m
    → upserted (f (key_of m)) (statement_of m) ≡ some (upsert (f (key_of m)) (stored_row m))
upserted-upsert f m sound v = elim (Option-cases (f (key_of m))) [
  | inl e ↦ rw e (inserted m v)
  | inr (old, e) ↦
      let (valid, key, hash) = sound.rows (key_of m) old e in
      rw e (updated old m v valid (ap (λ (k : MetricKey). k.m_type) key))
]

pub run_statement-saved_view :
    (f : View) (m : Metrics)
    → IsSound f
    → IsValid m
    → run_statement f (statement_of m) ≡ saved_view f (stored_row m)
run_statement-saved_view f m sound v =
    fun_ext (λ k. rw (statement_key-statement_of m) (rw (upserted-upsert f m sound v) refl))

hash-merge : (old m : Metrics) → (merge old m).hash ≡ old.hash
unfolding merge
hash-merge old m = ground arith

upsert-IsSound :
    (f : View) (m : Metrics)
    → IsSound f
    → IsValid m
    → let x = upsert (f (key_of m)) (stored_row m) in
      IsValid x × (key_of x ≡ key_of m) × (x.hash ≡ "")
upsert-IsSound f m sound v = elim (Option-cases (f (key_of m))) [
  | inl e ↦ rw e (stored_row-IsValid m v, refl, refl)
  | inr (old, e) ↦
      let (valid, key, hash) = sound.rows (key_of m) old e in
      rw e (
        merge-IsValid old (stored_row m) valid,
        key_of-merge old (stored_row m) ∙ key,
        hash-merge old (stored_row m) ∙ hash,
      )
]

sound_row :
    (f : View) (m : Metrics)
    → IsSound f
    → IsValid m
    → (k : MetricKey) (x : Metrics) → saved_view f (stored_row m) k ≡ some x
    → IsValid x × (key_of x ≡ k) × (x.hash ≡ "")
sound_row f m sound v k x e = elim (Bool-cases (key_eq (key_of m) k)) [
  | inl same ↦
      let key : key_of m ≡ k = (key_eq_iff (key_of m) k).0 same in
      let it : upsert (f (key_of m)) (stored_row m) ≡ x = ground (arith, same, e) in
      rw (← it) (rw (← key) (upsert-IsSound f m sound v))
  | inr other ↦ sound.rows k x (ground (arith, other, e))
]

pub saved_view-IsSound :
    (f : View) (m : Metrics) → IsSound f → IsValid m → IsSound (saved_view f (stored_row m))
saved_view-IsSound f m sound v = record { rows = λ k x e. sound_row f m sound v k x e }
