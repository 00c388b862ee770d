-- ===== src/Agent/Proto.antt =====
-- `metricsToProtoRequest` of internal/agent/grpc.go, and what the gRPC service reads of it.
use go_yandex_metrics.Base.{
  ℕ, String, ◌≡◌, refl, sym, subst, ◌⊎◌, inl, inr, true, false, Option, none, some, List, [], ◌∷◌,
  ◌++◌, arith, if◌then◌else◌, str_eq, str_eq_iff, Error, detail,
}
use mathlib.Core.List.{append_assoc, append-nil}
use go_yandex_metrics.Base.Text.{Bytes}
use go_yandex_metrics.Base.Decimal.{parse_int}
use go_yandex_metrics.Model.{Metrics, counter, gauge}
use go_yandex_metrics.Grpc.{
  gauge_type, counter_type, ProtoMetric, metric_to_model, metrics_to_models,
}
use go_yandex_metrics.Agent.{updated_metrics, payload_of}
use go_yandex_metrics.Agent.Table.{Entry, all_named}

-- The case of the loop of `metricsToProtoRequest`; an error keeps its text and the name.
unfoldable pub proto_metric : (Bytes → Option ℕ) → Entry → Error ⊎ ProtoMetric
proto_metric parse_float (name, m_type, value) =
    if str_eq m_type counter
    then elim (parse_int value) [
      | none ↦ inl (detail "parse counter" name)
      | some d ↦ inr (record { id = name; type_of = counter_type; delta = d; value = 0 })
    ]
    else if str_eq m_type gauge
    then elim (parse_float value) [
      | none ↦ inl (detail "parse gauge" name)
      | some v ↦ inr (record { id = name; type_of = gauge_type; delta = 0; value = v })
    ]
    else inl (detail "unsupported metric type" m_type)

-- `metricsToProtoRequest`, of the entries of the table in the order of their iteration; the first
-- error ends it.
unfoldable pub metrics_to_proto_request : (Bytes → Option ℕ) → List Entry → Error ⊎ List ProtoMetric
metrics_to_proto_request parse_float [] = inr []
metrics_to_proto_request parse_float (e ∷ es) =
    let rest = metrics_to_proto_request parse_float es in
    elim (proto_metric parse_float e) [
      | inl x ↦ inl x
      | inr p ↦ elim rest [ inl x ↦ inl x | inr ps ↦ inr (p ∷ ps) ]
    ]

-- What a server reads of a request that has these metrics.
abbrev pub received : List ProtoMetric → List (Option ProtoMetric)
received [] = []
received (p ∷ ps) = some p ∷ received ps

-- Both transports refuse the table, or a server reads of the one what the other sends.
abbrev pub SameMetrics : Option (List Metrics) → Error ⊎ List ProtoMetric → Type 0
SameMetrics none (inl e) = Unit
SameMetrics none (inr ps) = ⊥
SameMetrics (some ms) (inl e) = ⊥
SameMetrics (some ms) (inr ps) = metrics_to_models (received ps) [] ≡ inr ms

-- The model of each of the metrics.
Models : List ProtoMetric → List Metrics → Type 0
Models [] [] = Unit
Models (p ∷ ps) (m ∷ ms) = (metric_to_model (some p) ≡ inr m) × Models ps ms
Models [] (m ∷ ms) = ⊥
Models (p ∷ ps) [] = ⊥

-- The loop of the server appends the models to those it has.
metrics_to_models-received :
    (ps : List ProtoMetric) (ms before : List Metrics)
    → Models ps ms
    → metrics_to_models (received ps) before ≡ inr (before ++ ms)
unfolding metrics_to_models Models
metrics_to_models-received [] [] before h = ground (arith, append-nil before)
metrics_to_models-received [] (m ∷ ms) before h = absurd h
metrics_to_models-received (p ∷ ps) [] before h = absurd h
metrics_to_models-received (p ∷ ps) (m ∷ ms) before h = ground (
  arith,
  h.0,
  metrics_to_models-received ps ms (before ++ m ∷ []) h.1,
  append_assoc before (m ∷ []) ms,
)

module _ (parse_float : Bytes → Option ℕ) where
  abbrev SameMetric : Option Metrics → Error ⊎ ProtoMetric → Type 0
  SameMetric none (inl e) = Unit
  SameMetric none (inr p) = ⊥
  SameMetric (some m) (inl e) = ⊥
  SameMetric (some m) (inr p) = metric_to_model (some p) ≡ inr m

  proto_metric-SameMetric :
      (name m_type : String) (value : Bytes)
      → str_eq name "" ≡ false
      → SameMetric
          (updated_metrics parse_float name m_type value)
          (proto_metric parse_float (name, m_type, value))
  unfolding updated_metrics proto_metric metric_to_model
  proto_metric-SameMetric name m_type value named =
      ground (arith, named, str_eq_iff m_type counter, str_eq_iff m_type gauge)

  SameModels : Option (List Metrics) → Error ⊎ List ProtoMetric → Type 0
  SameModels none (inl e) = Unit
  SameModels none (inr ps) = ⊥
  SameModels (some ms) (inl e) = ⊥
  SameModels (some ms) (inr ps) = Models ps ms

  at_ends :
      {o : Option (List Metrics)} {x : Error ⊎ List ProtoMetric} (o' : Option (List Metrics))
      (x' : Error ⊎ List ProtoMetric)
      → o ≡ o'
      → x ≡ x'
      → SameModels o' x'
      → SameModels o x
  at_ends {x = x} o' x' e e' h =
      subst (λ (p : Option (List Metrics)). SameModels p x) (sym e)
        (subst (SameModels o') (sym e') h)

  SameModels-cons :
      (e : Entry) (es : List Entry) (o : Option Metrics) (x : Error ⊎ ProtoMetric)
      (os : Option (List Metrics)) (xs : Error ⊎ List ProtoMetric)
      → updated_metrics parse_float e.0 e.1 e.2 ≡ o
      → proto_metric parse_float e ≡ x
      → payload_of parse_float es ≡ os
      → metrics_to_proto_request parse_float es ≡ xs
      → SameMetric o x
      → SameModels os xs
      → SameModels (payload_of parse_float (e ∷ es)) (metrics_to_proto_request parse_float (e ∷ es))
  unfolding payload_of metrics_to_proto_request SameModels Models
  SameModels-cons (name, m_type, value) es none (inl e) os xs a b c d h t =
      at_ends none (inl e) (ground (arith, a)) (ground (arith, b)) tt
  SameModels-cons (name, m_type, value) es none (inr e) os xs a b c d h t = absurd h
  SameModels-cons (name, m_type, value) es (some m) (inl e) os xs a b c d h t = absurd h
  SameModels-cons (name, m_type, value) es (some m) (inr p) none (inl e) a b c d h t =
      at_ends none (inl e) (ground (arith, a, c)) (ground (arith, b, d)) tt
  SameModels-cons (name, m_type, value) es (some m) (inr p) none (inr ps) a b c d h t = absurd t
  SameModels-cons (name, m_type, value) es (some m) (inr p) (some ms) (inl e) a b c d h t = absurd t
  SameModels-cons (name, m_type, value) es (some m) (inr p) (some ms) (inr ps) a b c d h t =
      at_ends (some (m ∷ ms)) (inr (p ∷ ps)) (ground (arith, a, c)) (ground (arith, b, d)) (h, t)

  request-SameModels :
      (es : List Entry)
      → all_named es ≡ true
      → SameModels (payload_of parse_float es) (metrics_to_proto_request parse_float es)
  request-SameModels [] h = unfold SameModels payload_of metrics_to_proto_request Models in tt
  request-SameModels ((name, m_type, value) ∷ es) h =
      SameModels-cons (name, m_type, value) es _ _ _ _ refl refl refl refl
        (proto_metric-SameMetric name m_type value (ground (arith, h)))
        (request-SameModels es (ground (arith, h)))

  SameModels-SameMetrics :
      (o : Option (List Metrics)) (x : Error ⊎ List ProtoMetric) → SameModels o x → SameMetrics o x
  unfolding SameModels
  SameModels-SameMetrics none (inl e) h = tt
  SameModels-SameMetrics none (inr ps) h = absurd h
  SameModels-SameMetrics (some ms) (inl e) h = absurd h
  SameModels-SameMetrics (some ms) (inr ps) h = metrics_to_models-received ps ms [] h

  -- Of a table whose names are not empty: the list of metrics that the HTTP client encodes as its
  -- payload can be built exactly if the gRPC request can, and then the metrics that the gRPC service
  -- reads from the request are those of the list, in order. The encoding of the list, which fails at a
  -- number that JSON does not have, comes after it.
  pub metrics_to_proto_request-SameMetrics :
      (es : List Entry)
      → all_named es ≡ true
      → SameMetrics (payload_of parse_float es) (metrics_to_proto_request parse_float es)
  metrics_to_proto_request-SameMetrics es h = SameModels-SameMetrics _ _ (request-SameModels es h)
