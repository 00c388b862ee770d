-- ===== src/Grpc/Ends.antt =====
-- How calls of the gRPC service end, internal/grpcserver/server.go.
use go_yandex_metrics.Base.{
  ℕ, ◌+◌, String, ◌≡◌, refl, subst, ◌≢◌, ◌⊎◌, inl, inr, Bool, Option, none, some, List, [], ◌∷◌,
  ◌++◌, arith, str_eq, Bool-cases, Option-cases, All, Error, Result, ok, err, panic,
}
use go_yandex_metrics.Base.Text.{Bytes}
use go_yandex_metrics.Model.{Metrics, counter, gauge}
use go_yandex_metrics.Repository.Merge.{Context, background, IsValid, validate_metric, batch_view}
use go_yandex_metrics.Repository.Contract.{Storage, Promises, SavesMany}
use go_yandex_metrics.Service
use go_yandex_metrics.Grpc.{
  MetricType, gauge_type, counter_type, other_type, ProtoMetric, Code, ok_code, invalid_argument,
  permission_denied, internal, metric_to_model, metrics_to_models, save_models, update_metrics,
  IsTrusted, trusted_subnet_interceptor,
}

converted-IsValid :
    (id : String) (t : MetricType) (delta value : ℕ) (model : Metrics)
    → metric_to_model (some (record { id = id; type_of = t; delta = delta; value = value }))
      ≡ inr model
    → IsValid model
unfolding metric_to_model validate_metric
converted-IsValid id gauge_type delta value model e = elim (Bool-cases (str_eq id "")) [
  | inl h ↦ absurd (ground (arith, e, h))
  | inr h ↦
      let same : record { id = id; m_type = gauge; delta = none; value = some value; hash = "" }
          ≡ model =
        ground (arith, e, h) in
      rw (← same) (ground (arith, h))
]
converted-IsValid id counter_type delta value model e = elim (Bool-cases (str_eq id "")) [
  | inl h ↦ absurd (ground (arith, e, h))
  | inr h ↦
      let same : record { id = id; m_type = counter; delta = some delta; value = none; hash = "" }
          ≡ model =
        ground (arith, e, h) in
      rw (← same) (ground (arith, h))
]
converted-IsValid id (other_type n) delta value model e = absurd (ground (arith, e))

-- What the conversion gives is valid.
metric_to_model-IsValid :
    (m : Option ProtoMetric) (model : Metrics) → metric_to_model m ≡ inr model → IsValid model
unfolding metric_to_model
metric_to_model-IsValid none model e = absurd (ground (arith, e))
metric_to_model-IsValid (some m) model e = converted-IsValid m.id m.type_of m.delta m.value model e

All-append_one {ℓ κ} :
    {A : Type ℓ} (P : A → Type κ) (xs : List A) (x : A) → All P xs → P x → All P (xs ++ x ∷ [])
All-append_one P [] x h p = (p, tt)
All-append_one P (y ∷ xs) x h p = (h.0, All-append_one P xs x h.1 p)

-- One step of the loop: the first metric is converted, and the rest follow.
metrics_to_models-cases :
    (m : Option ProtoMetric) (ms : List (Option ProtoMetric)) (metrics models : List Metrics)
    → metrics_to_models (m ∷ ms) metrics ≡ inr models
    → (model : Metrics) × (metric_to_model m ≡ inr model)
      × (metrics_to_models ms (metrics ++ model ∷ []) ≡ inr models)
unfolding metrics_to_models
metrics_to_models-cases m ms metrics models e = go (metric_to_model m) refl
  where
    go :
        (r : Code ⊎ Metrics)
        → metric_to_model m ≡ r
        → (model : Metrics) × (metric_to_model m ≡ inr model)
          × (metrics_to_models ms (metrics ++ model ∷ []) ≡ inr models)
    go (inl code) x = absurd (ground (arith, e, x))
    go (inr model) x = (model, x, ground (arith, e, x))

metrics_to_models-IsValid :
    (ms : List (Option ProtoMetric)) (metrics models : List Metrics)
    → All IsValid metrics
    → metrics_to_models ms metrics ≡ inr models
    → All IsValid models
unfolding metrics_to_models
metrics_to_models-IsValid [] metrics models h e = subst (All IsValid) (ground (arith, e)) h
metrics_to_models-IsValid (m ∷ ms) metrics models h e =
    let (model, x, rest) = metrics_to_models-cases m ms metrics models e in
    metrics_to_models-IsValid ms (metrics ++ model ∷ []) models
      (All-append_one IsValid metrics model h (metric_to_model-IsValid m model x)) rest

-- A conversion that fails answers InvalidArgument.
metric_to_model-refuses :
    (m : Option ProtoMetric) (code : Code) → metric_to_model m ≡ inl code → code ≡ invalid_argument
unfolding metric_to_model
metric_to_model-refuses none code e = ground (arith, e)
metric_to_model-refuses (some m) code e = ground (arith, e)

metrics_to_models_step :
    (m : Option ProtoMetric) (ms : List (Option ProtoMetric)) (metrics : List Metrics) (code : Code)
    → metrics_to_models (m ∷ ms) metrics ≡ inl code
    → ((acc : List Metrics) (k : Code) → metrics_to_models ms acc ≡ inl k → k ≡ invalid_argument)
    → code ≡ invalid_argument
unfolding metrics_to_models
metrics_to_models_step m ms metrics code e rest = go (metric_to_model m) refl
  where
    go : (r : Code ⊎ Metrics) → metric_to_model m ≡ r → code ≡ invalid_argument
    go (inl k) x = metric_to_model-refuses m code (ground (arith, e, x))
    go (inr model) x = rest (metrics ++ model ∷ []) code (ground (arith, e, x))

metrics_to_models-refuses :
    (ms : List (Option ProtoMetric)) (metrics : List Metrics) (code : Code)
    → metrics_to_models ms metrics ≡ inl code
    → code ≡ invalid_argument
unfolding metrics_to_models
metrics_to_models-refuses [] metrics code e = absurd (ground (arith, e))
metrics_to_models-refuses (m ∷ ms) metrics code e =
    metrics_to_models_step m ms metrics code e (metrics_to_models-refuses ms)

module _ (st : Storage) (promises : Promises st) (from_context_error : Error → Code) where
  open promises use {IsConsistent, view, saves_batch, saves_batch_valid}

  -- A call of the gRPC service has done all or nothing: it failed and the storage is as before,
  -- or it answers OK, each of its metrics was converted, and the batch was applied in order.
  pub data CallEnds (ms : List (Option ProtoMetric)) (s : st.State) (r : Code × st.State)
      : Type 0 where
    failed : r.0 ≢ ok_code → r.1 ≡ s → CallEnds ms s r
    stored :
        (models : List Metrics)
        → r.0 ≡ ok_code
        → metrics_to_models ms [] ≡ inr models
        → IsConsistent r.1
        → view r.1 ≡ batch_view (view s) models
        → CallEnds ms s r

  internal-fails : internal ≢ ok_code
  internal-fails e = cc e

  save_ends :
      (ctx : Context) (late : Option Error) (ms : List (Option ProtoMetric)) (models : List Metrics)
      (s : st.State) (r : Result (List Metrics) × st.State)
      → ((e : Error) → from_context_error e ≢ ok_code)
      → metrics_to_models ms [] ≡ inr models
      → st.save_metrics_batch (λ n. ctx (n + 1)) models s ≡ r
      → SavesMany IsConsistent view models s r
      → CallEnds ms s (save_models st from_context_error ctx late models s)
  unfolding save_models Service.create_or_update_metrics_batch
  save_ends ctx late ms models s (ok news, s') never c e h = rw e (stored models refl c h.2 h.3)
  save_ends ctx none ms models s (err x, s') never c e h = rw e (failed internal-fails h)
  save_ends ctx (some y) ms models s (err x, s') never c e h = rw e (failed (never y) h)
  save_ends ctx late ms models s (panic, s') never c e h = absurd h

  converted_ends :
      (ctx : Context) (late : Option Error) (ms : List (Option ProtoMetric)) (s : st.State)
      (r : Code ⊎ List Metrics)
      → ((e : Error) → from_context_error e ≢ ok_code)
      → IsConsistent s
      → metrics_to_models ms [] ≡ r
      → CallEnds ms s (elim r [
        | inl code ↦ (code, s)
        | inr metrics ↦ elim (ctx 0) [
          | some e ↦ (from_context_error e, s)
          | none ↦ save_models st from_context_error ctx late metrics s
        ]
      ])
  converted_ends ctx late ms s (inl code) never c e =
      failed (λ is_ok. cc (is_ok, metrics_to_models-refuses ms [] code e)) refl
  converted_ends ctx late ms s (inr models) never c e = elim (Option-cases (ctx 0)) [
    | inr (x, h) ↦ rw h (failed (never x) refl)
    | inl h ↦ rw h (
        save_ends ctx late ms models s (st.save_metrics_batch (λ n. ctx (n + 1)) models s) never e
          refl (saves_batch (λ n. ctx (n + 1)) models s c))
  ]

  -- `UpdateMetrics` of the gRPC service, on any storage that keeps its promises, whatever the
  -- context answers, for any request, where the code of a context's error is never OK: either the
  -- answer is not OK and the storage is as before, or the answer is OK, every metric of the request
  -- was converted, and the storage has the whole batch in order.
  pub update_metrics-CallEnds :
      (ctx : Context) (late : Option Error) (ms : List (Option ProtoMetric)) (s : st.State)
      → ((e : Error) → from_context_error e ≢ ok_code)
      → IsConsistent s
      → CallEnds ms s (update_metrics st from_context_error ctx late ms s)
  unfolding update_metrics
  update_metrics-CallEnds ctx late [] s never c = failed (λ e. cc e) refl
  update_metrics-CallEnds ctx late (m ∷ ms) s never c =
      converted_ends ctx late (m ∷ ms) s (metrics_to_models (m ∷ ms) []) never c refl

  -- On any storage that keeps its promises, with a context that is not cancelled, a request that
  -- is not empty and whose metrics can all be converted is answered OK.
  pub update_metrics_succeeds :
      (late : Option Error) (ms : List (Option ProtoMetric)) (models : List Metrics) (s : st.State)
      → IsConsistent s
      → ms ≢ []
      → metrics_to_models ms [] ≡ inr models
      → (update_metrics st from_context_error background late ms s).0 ≡ ok_code
  unfolding update_metrics save_models Service.create_or_update_metrics_batch
  update_metrics_succeeds late [] models s c ne e = absurd (ne refl)
  update_metrics_succeeds late (m ∷ ms) models s c ne e =
      ground
        (arith, e, saves_batch_valid models s c (metrics_to_models-IsValid (m ∷ ms) [] models tt e))

module _ (st : Storage) where
  -- The interceptor of the trusted subnet either finds the call trusted and runs the service, or
  -- answers PermissionDenied and leaves the storage as it was, whatever the service would do.
  pub trusted_subnet_interceptor-cases :
      (parse_ip : Bytes → Option Bytes) (subnet : Option (Bytes → Bool))
      (addresses : Option (List Bytes)) (handler : st.State → Code × st.State) (s : st.State)
      → (IsTrusted parse_ip subnet addresses
          × (trusted_subnet_interceptor st parse_ip subnet addresses handler s ≡ handler s))
        ⊎ ((IsTrusted parse_ip subnet addresses → ⊥)
            × (trusted_subnet_interceptor st parse_ip subnet addresses handler s
                ≡ (permission_denied, s)))
  unfolding trusted_subnet_interceptor
  trusted_subnet_interceptor-cases parse_ip none addresses handler s = inl (tt, refl)
  trusted_subnet_interceptor-cases parse_ip (some contains) none handler s =
      inr ((λ h. cc (h.3)), refl)
  trusted_subnet_interceptor-cases parse_ip (some contains) (some []) handler s =
      inr ((λ h. cc (h.3)), refl)
  trusted_subnet_interceptor-cases parse_ip (some contains) (some (address ∷ rest)) handler s =
      elim (Option-cases (parse_ip address)) [
        | inl h ↦ inr ((λ t. ground (arith, h, t.3, t.4)), ground (arith, h))
        | inr (ip, h) ↦ elim (Bool-cases (contains ip)) [
          | inl inside ↦ inl ((address, rest, ip, refl, h, inside), ground (arith, h, inside))
          | inr outside ↦
              inr ((λ t. ground (arith, h, outside, t.3, t.4, t.5)), ground (arith, h, outside))
        ]
      ]
