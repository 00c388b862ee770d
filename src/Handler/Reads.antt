-- ===== src/Handler/Reads.antt =====
-- What the reading handlers of internal/handler/server/handler.go answer, for any storage that
-- keeps its contract.
use go_yandex_metrics.Base.{
  ℕ, ◌≡◌, refl, ap, ◌∙◌, ◌≢◌, ◌⊎◌, inl, inr, Option, none, some, List, [], ◌∷◌, ◌++◌, arith,
  if◌then◌else◌, str_eq, str_eq_iff,
}
use go_yandex_metrics.Base.Decimal.{format_int}
use go_yandex_metrics.Model.{Metrics, MetricKey, counter, gauge, gauge-not-counter}
use go_yandex_metrics.Repository.Merge.{validate_metric, IsValid-cases}
use go_yandex_metrics.Repository.Contract.{Storage, Promises}
use go_yandex_metrics.Service
use go_yandex_metrics.Handler.Http.{
  Request, Library, Handler, World, Chunk, raw, float_text, WriterCall, set_header, call,
  served_status, body_of,
}
use go_yandex_metrics.Handler.Query.{get_metrics_by_id, write_value}

-- The number of a metric as text: the delta of a counter, the value of a gauge.
abbrev pub value_text : Metrics → List Chunk
value_text m =
    if str_eq m.m_type counter
    then elim m.delta [ none ↦ [] | some d ↦ raw (format_int d) ∷ [] ]
    else elim m.value [ none ↦ [] | some v ↦ float_text v ∷ [] ]

-- The answer to a lookup: nothing and 404, or the number and 200.
abbrev pub lookup_status : Option Metrics → ℕ
lookup_status none = 404
lookup_status (some m) = 200

abbrev pub lookup_body : Option Metrics → List Chunk
lookup_body none = []
lookup_body (some m) = value_text m

module _ (lib : Library) (st : Storage) (promises : Promises st) (h : Handler) where
  open promises use {IsConsistent, view}

  -- A handler that only reads has left everything but its answer.
  pub record Answers (w w' : World st.State) (status : ℕ) (body : List Chunk) : Type 0 where
    pub same : w'.state ≡ w.state
    pub silent : w'.published ≡ w.published
    pub alive : w'.crashed ≡ w.crashed
    pub status_is : served_status w'.calls ≡ status
    pub body_is : body_of w'.calls ≡ body

  write_value-Answers :
      (m : Metrics) (w : World st.State)
      → w.calls ≡ set_header "Content-Type" "text/plain" ∷ []
      → ((m.m_type ≡ counter) × ((d : ℕ) × (m.delta ≡ some d)))
        ⊎ ((m.m_type ≡ gauge) × ((v : ℕ) × (m.value ≡ some v)))
      → Answers w (write_value lib st h m w) 200 (value_text m)
  unfolding write_value served_status body_of
  write_value-Answers m w e (inl (t, (d, x))) = ground (arith, str_eq_iff m.m_type counter, t, x, e)
  write_value-Answers m w e (inr (t, (v, x))) =
      ground (arith, gauge-not-counter m.m_type t, str_eq_iff m.m_type gauge, t, x, e)

  Answers-call :
      (c : WriterCall) (w : World st.State) {w' : World st.State} {status : ℕ} {body : List Chunk}
      → Answers (call c w) w' status body
      → Answers w w' status body
  Answers-call c w a = record {
    same = a.same;
    silent = a.silent;
    alive = a.alive;
    status_is = a.status_is;
    body_is = a.body_is;
  }

  module _ (req : Request) (w : World st.State) (c : IsConsistent w.state) (e : w.calls ≡ []) where
    asked : MetricKey
    asked = record { id = req.metric_name; m_type = req.metric_type }

    get_absent : view w.state asked ≡ none → Answers w (get_metrics_by_id lib st h req w) 404 []
    unfolding get_metrics_by_id asked served_status body_of Service.get_metrics_by_id
    get_absent absent =
        ground (arith, e, absent, promises.gets req.metric_name req.metric_type w.state c)

    -- Nothing is stored under the empty name.
    stored_is_named : (m : Metrics) → view w.state asked ≡ some m → req.metric_name ≢ ""
    unfolding asked validate_metric
    stored_is_named m present = λ unnamed.
        let (valid, key) = promises.stored w.state asked m c present in
        let id : m.id ≡ req.metric_name = ap (λ (k : MetricKey). k.id) key in
        absurd (ground (arith, valid, id ∙ unnamed, str_eq_iff m.id ""))

    get_present :
        (m : Metrics)
        → view w.state asked ≡ some m
        → get_metrics_by_id lib st h req w
          ≡ write_value lib st h m (call (set_header "Content-Type" "text/plain") w)
    unfolding get_metrics_by_id asked Service.get_metrics_by_id
    get_present m present = ground (
      arith,
      present,
      promises.gets req.metric_name req.metric_type w.state c,
      str_eq_iff req.metric_name "",
      stored_is_named m present,
    )

    get_cases :
        (o : Option Metrics)
        → view w.state asked ≡ o
        → Answers w (get_metrics_by_id lib st h req w) (lookup_status o) (lookup_body o)
    get_cases none absent = get_absent absent
    get_cases (some m) present = rw (get_present m present) (
        Answers-call (set_header "Content-Type" "text/plain") w (
          write_value-Answers m (call (set_header "Content-Type" "text/plain") w)
            (ap (λ (l : List WriterCall). l ++ set_header "Content-Type" "text/plain" ∷ []) e)
            (IsValid-cases m (promises.stored w.state asked m c present).0)))

  -- `GetMetricsByID` on a consistent storage, which answers every lookup, for any name, the empty one
  -- included, and any type: it follows no nil pointer, changes nothing, and answers 404 with an empty
  -- body if nothing stands under the name and the type, and otherwise 200 with the number that stands
  -- there.
  pub get_metrics_by_id-Answers :
      (req : Request) (w : World st.State)
      → IsConsistent w.state
      → w.calls ≡ []
      → let o = view w.state (record { id = req.metric_name; m_type = req.metric_type }) in
        Answers w (get_metrics_by_id lib st h req w) (lookup_status o) (lookup_body o)
  unfolding asked
  get_metrics_by_id-Answers req w c e =
      get_cases req w c e (view w.state (record { id = req.metric_name; m_type = req.metric_type }))
        refl
