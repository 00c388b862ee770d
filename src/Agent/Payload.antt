-- ===== src/Agent/Payload.antt =====
-- What `SendRequestToServer` of internal/agent/agent.go makes of the table of `buildMemMetrics`.
use go_yandex_metrics.Base.{
  ℕ, ◌+◌, String, ◌≡◌, refl, sym, ap, ◌∙◌, subst, inl, inr, Bool, true, false, not, ◌&&◌, Option,
  none, some, List, [], ◌∷◌, arith, if◌then◌else◌, str_eq, str_eq_iff, Bool-cases, Option-cases,
  All,
}
use Prim.Native.String as Text
use text.Mathlib.TextLemmas.{cons≢nil, cons-append}
use mathlib.Core.List.{Permᴰ}
use mathlib.Core.Bool.{true≢false}
use go_yandex_metrics.Base.Text.{Bytes}
use go_yandex_metrics.Model.{Metrics, MetricKey, counter, key_of, key_eq}
use go_yandex_metrics.Repository.Merge.{IsValid, validate_metric}
use go_yandex_metrics.Repository.Memory.Totals.{
  sum_deltas, delta_or_zero, sum_deltas-nil, sum_deltas-cons,
}
use go_yandex_metrics.Agent.{updated_metrics, payload_of}
use go_yandex_metrics.Agent.Table.{Entry, all_named, cpu_name}

abbrev pub poll_count_key : MetricKey
poll_count_key = record { id = "PollCount"; m_type = counter }

append-named : (s t : String) → str_eq s "" ≡ false → str_eq (Text.◌++◌ s t) "" ≡ false
append-named Text.[] t named = absurd (true≢false named)
append-named (Text.◌∷◌ c s) t named = elim (Bool-cases (str_eq (Text.◌++◌ (Text.◌∷◌ c s) t) "")) [
  | inl e ↦ absurd (cons≢nil (sym (cons-append c s t) ∙ (str_eq_iff _ "").0 e))
  | inr e ↦ e
]

pub cpu_name-named : (i : ℕ) → str_eq (cpu_name i) "" ≡ false
unfolding cpu_name
cpu_name-named i = append-named "CPUutilization" _ refl

module _ (parse_float : Bytes → Option ℕ) where
  -- An entry with a name that becomes a metric, and what it brings for PollCount.
  unfoldable pub is_sent : Entry → Bool
  is_sent (name, m_type, value) =
      not (str_eq name "")
      && elim (updated_metrics parse_float name m_type value) [ none ↦ false | some m ↦ true ]

  unfoldable pub all_sent : List Entry → Bool
  all_sent [] = true
  all_sent (e ∷ es) = is_sent e && all_sent es

  unfoldable pub weight : Entry → ℕ
  weight (name, m_type, value) = elim (updated_metrics parse_float name m_type value) [
    | none ↦ 0
    | some m ↦ if key_eq (key_of m) poll_count_key then delta_or_zero m else 0
  ]

  unfoldable pub total_weight : List Entry → ℕ
  total_weight [] = 0
  total_weight (e ∷ es) = weight e + total_weight es

  -- Neither depends on the order of the entries.
  pub all_sent-permᴰ : {es fs : List Entry} → Permᴰ es fs → all_sent es ≡ all_sent fs
  unfolding all_sent
  all_sent-permᴰ Permᴰ.nil = refl
  all_sent-permᴰ (Permᴰ.cons {a = a} {b = b} {l₁ = l₁} {l₂ = l₂} e p) =
      cc (ap (λ (x : Entry). is_sent x) e, all_sent-permᴰ p)
  all_sent-permᴰ (Permᴰ.swap {a = a} {b = b} {a' = a'} {b' = b'} e e') =
      ground (arith, ap (λ (x : Entry). is_sent x) e, ap (λ (x : Entry). is_sent x) e')
  all_sent-permᴰ (Permᴰ.trans p q) = all_sent-permᴰ p ∙ all_sent-permᴰ q

  pub total_weight-permᴰ : {es fs : List Entry} → Permᴰ es fs → total_weight es ≡ total_weight fs
  unfolding total_weight
  total_weight-permᴰ Permᴰ.nil = refl
  total_weight-permᴰ (Permᴰ.cons {a = a} {b = b} {l₁ = l₁} {l₂ = l₂} e p) =
      cc (ap (λ (x : Entry). weight x) e, total_weight-permᴰ p)
  total_weight-permᴰ (Permᴰ.swap {a = a} {b = b} {a' = a'} {b' = b'} e e') =
      omega (arith, ap (λ (x : Entry). weight x) e, ap (λ (x : Entry). weight x) e')
  total_weight-permᴰ (Permᴰ.trans p q) = total_weight-permᴰ p ∙ total_weight-permᴰ q

  -- A metric that is made of an entry with a name is valid.
  updated_metrics-IsValid :
      (name m_type : String) (value : Bytes) (m : Metrics)
      → str_eq name "" ≡ false
      → updated_metrics parse_float name m_type value ≡ some m
      → IsValid m
  unfolding updated_metrics validate_metric
  updated_metrics-IsValid name m_type value m named h = ground arith

  -- The entries are the whole payload: none is refused, and each metric is valid.
  pub IsPayload : List Entry → Option (List Metrics) → Type 0
  IsPayload es none = ⊥
  IsPayload es (some ms) = All IsValid ms × (sum_deltas poll_count_key ms ≡ total_weight es)

  IsPayload-cons :
      (name m_type : String) (value : Bytes) (es : List Entry) (o : Option (List Metrics))
      → is_sent (name, m_type, value) ≡ true
      → payload_of parse_float es ≡ o
      → IsPayload es o
      → IsPayload ((name, m_type, value) ∷ es) (payload_of parse_float ((name, m_type, value) ∷ es))
  unfolding is_sent payload_of IsPayload total_weight weight
  IsPayload-cons name m_type value es none h e p = absurd p
  IsPayload-cons name m_type value es (some ms) h e p =
      elim (Option-cases (updated_metrics parse_float name m_type value)) [
        | inl refused ↦ ground (arith, h, refused)
        | inr (m, made) ↦
            let named : str_eq name "" ≡ false = ground (arith, h) in
            let ends : payload_of parse_float ((name, m_type, value) ∷ es) ≡ some (m ∷ ms) =
              ground (arith, made, e) in
            let weighs : weight (name, m_type, value)
                ≡ (if key_eq (key_of m) poll_count_key then delta_or_zero m else 0) =
              ground (arith, made) in
            subst (IsPayload ((name, m_type, value) ∷ es)) (sym ends) (
              (updated_metrics-IsValid name m_type value m named made, p.0),
              omega (arith, sum_deltas-cons poll_count_key m ms, p.1, weighs),
            )
      ]

  pub payload_of-IsPayload :
      (es : List Entry) → all_sent es ≡ true → IsPayload es (payload_of parse_float es)
  unfolding all_sent
  payload_of-IsPayload [] h =
      unfold payload_of IsPayload total_weight in (tt, sum_deltas-nil poll_count_key)
  payload_of-IsPayload ((name, m_type, value) ∷ es) h =
      IsPayload-cons name m_type value es (payload_of parse_float es) (ground (arith, h)) refl
        (payload_of-IsPayload es (ground (arith, h)))

  pub all_sent-all_named : (es : List Entry) → all_sent es ≡ true → all_named es ≡ true
  unfolding all_sent is_sent
  all_sent-all_named [] h = refl
  all_sent-all_named ((name, m_type, value) ∷ es) h =
      ground (arith, h, all_sent-all_named es (ground (arith, h)))

  pub payload_ends :
      {n : ℕ} (es : List Entry) (o : Option (List Metrics))
      → IsPayload es o
      → total_weight es ≡ n
      → (ms : List Metrics) × (o ≡ some ms) × All IsValid ms × (sum_deltas poll_count_key ms ≡ n)
  unfolding IsPayload
  payload_ends es none p e = absurd p
  payload_ends es (some ms) p e = (ms, refl, p.0, p.1 ∙ e)
