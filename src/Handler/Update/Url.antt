-- ===== src/Handler/Update/Url.antt =====
-- `UpdateMetrics` of internal/handler/server/handler.go as a whole, for any storage that keeps its
-- contract.
use go_yandex_metrics.Base.{
  ℕ, String, ◌≡◌, refl, sym, ap, ◌∙◌, subst, ◌≢◌, ◌⊎◌, inl, inr, false, ◌&&◌, none, some, List, [],
  ◌∷◌, ◌++◌, arith, if◌then◌else◌, str_eq, str_eq_iff, Bool-cases,
}
use mathlib.Core.List.{append-nil}
use go_yandex_metrics.Model.{Metrics, counter, gauge}
use go_yandex_metrics.Repository.Merge.{saved_view}
use go_yandex_metrics.Repository.Contract.{Storage, Promises}
use go_yandex_metrics.Service.{build_metrics}
use go_yandex_metrics.Handler.Http.{
  Request, Library, Handler, World, WriterCall, Chunk, error_text, json_metric, set_header, call,
  marshals, unsupported_value, served_status, body_of, Event,
}
use go_yandex_metrics.Handler.Event.{new_event}
use go_yandex_metrics.Handler.Update.{answer_saved, update_or_create, update_metrics, parse_value}
use go_yandex_metrics.Handler.Update.Single.{update_or_create-Updates, key, shown}

known-nonempty : (t : String) → (t ≡ counter) ⊎ (t ≡ gauge) → str_eq t "" ≡ false
known-nonempty t (inl e) = rw e refl
known-nonempty t (inr e) = rw e refl

-- A parsed value has one of the two types.
pub parse_value-type :
    (lib : Library) (req : Request) (numbers : ℕ × ℕ)
    → parse_value lib req.metric_type req.metric_value ≡ some numbers
    → (req.metric_type ≡ counter) ⊎ (req.metric_type ≡ gauge)
unfolding parse_value
parse_value-type lib req numbers e =
    ground (arith, str_eq_iff req.metric_type counter, str_eq_iff req.metric_type gauge)

-- The answer of an update: the metric with status 200 if it can be encoded, and 500 if not.
abbrev pub answer_status : Metrics → ℕ
answer_status m = if marshals m then 200 else 500

abbrev pub answer_body : Metrics → List Chunk
answer_body m = if marshals m then json_metric m ∷ [] else error_text unsupported_value ∷ []

module _ (lib : Library) (st : Storage) (promises : Promises st) (h : Handler) where
  open promises use {IsConsistent, view}

  -- The audit events of a handler that has saved a metric.
  abbrev pub audited : Request → String → Metrics → List Event
  audited req name m = if marshals m && h.audit then new_event lib (name ∷ []) req ∷ [] else []

  pub answer_saved-parts :
      (req : Request) (name header : String) (m : Metrics) (w : World st.State)
      → w.calls ≡ set_header "Content-Type" header ∷ []
      → let w' = answer_saved lib st h req name m w in
        (w'.state ≡ w.state)
        × (w'.crashed ≡ w.crashed)
        × (served_status w'.calls ≡ answer_status m)
        × (body_of w'.calls ≡ answer_body m)
        × (w'.published ≡ w.published ++ audited req name m)
  unfolding answer_saved served_status body_of
  answer_saved-parts req name header m w e = elim (Bool-cases (marshals m)) [
    | inl fine ↦ ground (arith, fine, e, append-nil w.published)
    | inr unfit ↦ ground (arith, unfit, e, append-nil w.published)
  ]

  -- What a request that is accepted does to the storage, and what it answers.
  pub record Accepts (req : Request) (name m_type : String) (built : Metrics)
      (w w' : World st.State) : Type 0 where
    pub keeps : IsConsistent w'.state
    pub views : view w'.state ≡ saved_view (view w.state) built
    pub alive : w'.crashed ≡ w.crashed
    pub status :
        served_status w'.calls ≡ answer_status (shown (view w.state (key name m_type)) built)
    pub body : body_of w'.calls ≡ answer_body (shown (view w.state (key name m_type)) built)
    pub audit :
        w'.published
        ≡ w.published ++ audited req name (shown (view w.state (key name m_type)) built)

  -- A writer call before it makes no difference.
  pub Accepts-call :
      {req : Request} {name m_type : String} {built : Metrics} (c : WriterCall) (w : World st.State)
      {w' : World st.State}
      → Accepts req name m_type built (call c w) w'
      → Accepts req name m_type built w w'
  Accepts-call c w a = record {
    keeps = a.keeps;
    views = a.views;
    alive = a.alive;
    status = a.status;
    body = a.body;
    audit = a.audit;
  }

  pub update_or_create-Accepts :
      (req : Request) (name m_type header : String) (delta value : ℕ) (w : World st.State)
      → IsConsistent w.state
      → w.calls ≡ set_header "Content-Type" header ∷ []
      → name ≢ ""
      → (m_type ≡ counter) ⊎ (m_type ≡ gauge)
      → Accepts req name m_type
          (build_metrics name m_type delta value)
          w
          (update_or_create lib st h req name m_type delta value w)
  update_or_create-Accepts req name m_type header delta value w c e ne t =
      let u = update_or_create-Updates lib st promises h req name m_type delta value w c ne t in
      let m = shown (view w.state (key name m_type)) (build_metrics name m_type delta value) in
      let (state, crashed, status, body, audit) =
        answer_saved-parts req name header m (record w { state = u.after }) e in
      rw u.does (record {
        keeps = subst IsConsistent (sym state) u.keeps;
        views = ap view state ∙ u.views;
        alive = crashed;
        status = status;
        body = body;
        audit = audit;
      })

  -- `UpdateMetrics` by a URL with a name, a known type and a number that parses, on a consistent
  -- storage: the number is saved by one `upsert` of the key, the handler does not panic, it answers
  -- 200 with the metric that it found or else created (500 if that holds no finite number), and it
  -- publishes one audit event that names the metric exactly if the answer is 200 and there is a
  -- publisher.
  pub update_metrics-Accepts :
      (req : Request) (delta value : ℕ) (w : World st.State)
      → IsConsistent w.state
      → w.calls ≡ []
      → req.method ≡ "POST"
      → req.metric_name ≢ ""
      → parse_value lib req.metric_type req.metric_value ≡ some (delta, value)
      → Accepts req req.metric_name req.metric_type
          (build_metrics req.metric_name req.metric_type delta value)
          w
          (update_metrics lib st h req w)
  unfolding update_metrics
  update_metrics-Accepts req delta value w c e post ne parsed =
      let t = parse_value-type lib req (delta, value) parsed in
      let w1 = call (set_header "Content-Type" "text/plain") w in
      let does : update_metrics lib st h req w
          ≡ update_or_create lib st h req req.metric_name req.metric_type delta value w1 =
        ground (
          arith,
          parsed,
          known-nonempty req.metric_type t,
          str_eq_iff req.metric_name "",
          str_eq_iff req.method "POST",
        ) in
      rw does (
        Accepts-call (set_header "Content-Type" "text/plain") w (
          update_or_create-Accepts req req.metric_name req.metric_type "text/plain" delta value w1 c
            (ap (λ (l : List WriterCall). l ++ set_header "Content-Type" "text/plain" ∷ []) e) ne
            t))

  -- A request that `UpdateMetrics` refuses, for its method, its name, its type or its number,
  -- changes no storage and publishes nothing, and the answer is 404 or 400.
  pub update_metrics-refuses :
      (req : Request) (w : World st.State)
      → w.calls ≡ []
      → (req.method ≢ "POST")
        ⊎ (req.metric_name ≡ "")
        ⊎ (parse_value lib req.metric_type req.metric_value ≡ none)
      → let w' = update_metrics lib st h req w in
        (w'.state ≡ w.state)
        × (w'.published ≡ w.published)
        × (w'.crashed ≡ w.crashed)
        × ((served_status w'.calls ≡ 404) ⊎ (served_status w'.calls ≡ 400))
        × (body_of w'.calls ≡ [])
  unfolding update_metrics served_status body_of
  update_metrics-refuses req w e reason =
      ground (arith, e, str_eq_iff req.metric_name "", str_eq_iff req.method "POST")
