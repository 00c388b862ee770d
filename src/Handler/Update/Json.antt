-- ===== src/Handler/Update/Json.antt =====
-- `UpdateMetricsByJSON` of internal/handler/server/handler.go as a whole.
use go_yandex_metrics.Base.{
  ℕ, ◌≡◌, ap, ◌≢◌, ◌⊎◌, none, some, List, [], ◌∷◌, ◌++◌, arith, str_eq_iff, Error, ok, err,
}
use go_yandex_metrics.Base.Text.{Bytes}
use go_yandex_metrics.Model.{Metrics, counter, gauge}
use go_yandex_metrics.Repository.Contract.{Storage, Promises}
use go_yandex_metrics.Service.{build_metrics}
use go_yandex_metrics.Handler.Http.{
  Request, Library, Handler, World, WriterCall, set_header, call, served_status,
}
use go_yandex_metrics.Handler.Body.{read_and_verify_request_body}
use go_yandex_metrics.Handler.Update.{update_or_create, update_metrics_by_json, refusal, or_zero}
use go_yandex_metrics.Handler.Update.Url.{Accepts, Accepts-call, update_or_create-Accepts}

-- What passes the tests has a name and one of the two types.
passed-named : (m : Metrics) → refusal m ≡ none → m.id ≢ ""
unfolding refusal
passed-named m h = ground (arith, str_eq_iff m.id "")

passed-typed : (m : Metrics) → refusal m ≡ none → (m.m_type ≡ counter) ⊎ (m.m_type ≡ gauge)
unfolding refusal
passed-typed m h = ground (arith, str_eq_iff m.m_type counter, str_eq_iff m.m_type gauge)

refusal_status :
    (m : Metrics) (status : ℕ) → refusal m ≡ some status → (status ≡ 404) ⊎ (status ≡ 400)
unfolding refusal
refusal_status m status h = ground arith

module _ (lib : Library) (st : Storage) (promises : Promises st) (h : Handler) where
  open promises use {IsConsistent, view}

  -- `UpdateMetricsByJSON` with a body that is read, decoded and not refused, on a consistent
  -- storage: the numbers of the body are saved by one `upsert` of the key, the handler does not
  -- panic, it answers 200 with the metric that it found or else created (500 if that holds no finite
  -- number), and it publishes one audit event that names the metric exactly if the answer is 200 and
  -- there is a publisher.
  pub update_metrics_by_json-Accepts :
      (req : Request) (body : Bytes) (m : Metrics) (w : World st.State)
      → IsConsistent w.state
      → w.calls ≡ []
      → read_and_verify_request_body lib h req ≡ ok body
      → lib.decode_metric body ≡ ok m
      → refusal m ≡ none
      → Accepts lib st promises h req m.id m.m_type
          (build_metrics m.id m.m_type (or_zero m.delta) (or_zero m.value))
          w
          (update_metrics_by_json lib st h req w)
  unfolding update_metrics_by_json
  update_metrics_by_json-Accepts req body m w c e read decoded passed =
      let header : WriterCall = set_header "Content-Type" "application/json" in
      let does : update_metrics_by_json lib st h req w
          ≡ update_or_create lib st h req m.id m.m_type (or_zero m.delta) (or_zero m.value)
              (call header w) =
        ground (arith, read, decoded, passed) in
      rw does (
        Accepts-call lib st promises h header w (
          update_or_create-Accepts lib st promises h req m.id m.m_type "application/json"
            (or_zero m.delta) (or_zero m.value) (call header w) c
            (ap (λ (l : List WriterCall). l ++ header ∷ []) e) (passed-named m passed)
            (passed-typed m passed)))

  -- Why `UpdateMetricsByJSON` refuses a request: its body, its JSON text, or its metric.
  pub data Refuses (req : Request) : Type 0 where
    unread : (e : Error) → read_and_verify_request_body lib h req ≡ err e → Refuses req
    undecoded :
        (body : Bytes) (e : Error)
        → read_and_verify_request_body lib h req ≡ ok body
        → lib.decode_metric body ≡ err e
        → Refuses req
    unfit :
        (body : Bytes) (m : Metrics) (status : ℕ)
        → read_and_verify_request_body lib h req ≡ ok body
        → lib.decode_metric body ≡ ok m
        → refusal m ≡ some status
        → Refuses req

  -- A body that cannot be read, verified or decoded, or whose metric is refused, changes no storage
  -- and publishes nothing; the answer is 400, or the status of the refusal.
  pub update_metrics_by_json-Refuses :
      (req : Request) (w : World st.State)
      → w.calls ≡ []
      → Refuses req
      → let w' = update_metrics_by_json lib st h req w in
        (w'.state ≡ w.state)
        × (w'.published ≡ w.published)
        × (w'.crashed ≡ w.crashed)
        × ((served_status w'.calls ≡ 404) ⊎ (served_status w'.calls ≡ 400))
  unfolding update_metrics_by_json served_status
  update_metrics_by_json-Refuses req w e (unread x read) = ground (arith, e, read)
  update_metrics_by_json-Refuses req w e (undecoded body x read decoded) =
      ground (arith, e, read, decoded)
  update_metrics_by_json-Refuses req w e (unfit body m status read decoded refused) =
      ground (arith, e, read, decoded, refused, refusal_status m status refused)
