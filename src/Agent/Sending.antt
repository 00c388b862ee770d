-- ===== src/Agent/Sending.antt =====
-- The sending of a snapshot with its retries, over HTTP (internal/agent/agent.go) and over gRPC
-- (internal/agent/grpc.go). The clients of the libraries are parameters that change a world `W`.
use go_yandex_metrics.Base.{
  ℕ, String, ◌⊎◌, inl, inr, Bool, true, false, not, ◌||◌, Option, none, some, List, [], ltb, leb,
  ◌==◌, if◌then◌else◌, str_eq, Error, canceled, deadline_exceeded, message, wrap, join, status,
  in_url, Result, ok, err, panic,
}
use go_yandex_metrics.Base.Text.{Bytes}
use go_yandex_metrics.Model.{Metrics}
use go_yandex_metrics.Crypto.{PublicKey}
use go_yandex_metrics.Retry.{retry_intervals, retry_loop}
use go_yandex_metrics.Grpc.{ProtoMetric}
use go_yandex_metrics.Agent.{payload_of, request_body, request_header}
use go_yandex_metrics.Agent.Table.{Entry}
use go_yandex_metrics.Agent.Proto.{metrics_to_proto_request}

-- The status of the first `httpStatusError` in an error, as `errors.As` searches it.
unfoldable pub as_status : Error → Option ℕ
as_status (status n) = some n
as_status (wrap text e) = as_status e
as_status (in_url e) = as_status e
as_status (join e e') = elim (as_status e) [ some n ↦ some n | none ↦ as_status e' ]
as_status _ = none

-- What the first `url.Error` in an error holds.
unfoldable pub as_url : Error → Option Error
as_url (in_url e) = some e
as_url (wrap text e) = as_url e
as_url (join e e') = elim (as_url e) [ some x ↦ some x | none ↦ as_url e' ]
as_url _ = none

-- `isRetriableRequestError`: `is_net_error` is `errors.As` with a `net.Error`.
unfoldable pub is_retriable_request_error : (Error → Bool) → Error → Bool
is_retriable_request_error is_net_error e = elim (as_status e) [
  | some n ↦ n == 429 || leb 500 n
  | none ↦ is_net_error (elim (as_url e) [ some inner ↦ inner | none ↦ e ])
]

-- `errors.Is` with an error that wraps nothing.
unfoldable pub is_deadline_or_canceled : Error → Bool
is_deadline_or_canceled deadline_exceeded = true
is_deadline_or_canceled canceled = true
is_deadline_or_canceled (wrap text e) = is_deadline_or_canceled e
is_deadline_or_canceled (in_url e) = is_deadline_or_canceled e
is_deadline_or_canceled (join e e') = is_deadline_or_canceled e || is_deadline_or_canceled e'
is_deadline_or_canceled _ = false

-- The codes of google.golang.org/grpc/codes that the agent tells apart.
pub data StatusCode : Type 0 where
  unavailable resource_exhausted aborted deadline_status internal_status other_status : StatusCode

-- `isRetriableGRPCError`: `status_code` is `status.Code`.
unfoldable pub is_retriable_grpc_error : (Error → StatusCode) → Error → Bool
is_retriable_grpc_error status_code e = is_deadline_or_canceled e || elim (status_code e) [
  | unavailable ↦ true
  | resource_exhausted ↦ true
  | aborted ↦ true
  | deadline_status ↦ true
  | internal_status ↦ true
  | other_status ↦ false
]

-- `sendAllMetricsGRPCWithRetry`: `call` is `UpdateMetrics` of the client with a fresh timeout.
unfoldable pub send_all_metrics_grpc_with_retry :
    {W : Type 0}
    → (Error → StatusCode)
    → (List ProtoMetric → W → Result (Unit {0}) × W)
    → (Bytes → Option ℕ)
    → List Entry
    → W
    → Result (Unit {0}) × W × List ℕ
send_all_metrics_grpc_with_retry status_code call parse_float es w =
    elim (metrics_to_proto_request parse_float es) [
      | inl e ↦ (err e, w, [])
      | inr request ↦
          retry_loop (is_retriable_grpc_error status_code) (call request) retry_intervals [] w
    ]

-- `*http.Response`: `body` is what reading it to its end gives.
pub record HttpResponse : Type 0 where
  pub status_code : ℕ
  pub content_encoding : String
  pub body : Result Bytes

-- A POST request to `/updates/`.
pub record HttpPost : Type 0 where
  pub body : Bytes
  pub header : String → Bytes

-- What the agent calls: `json.Marshal` of the payload, the HMAC of a body, `gzip.NewReader` with
-- `io.ReadAll`, `http.NewRequest` with the address of the server, and `client.Do`, whose errors are
-- of the type `url.Error`.
pub record Client (W : Type 0) : Type 0 where
  pub marshal : List Metrics → Error ⊎ Bytes
  pub sign_body : Bytes → String → Bytes
  pub gunzip : Bytes → Result Bytes
  pub new_request : Option Error
  pub call : HttpPost → W → (Error ⊎ HttpResponse) × W

-- `Unzip`
unfoldable pub unzip : (Bytes → Result Bytes) → HttpResponse → Result Bytes
unzip gunzip response = elim response.body [
  | ok body ↦ if str_eq response.content_encoding "gzip" then gunzip body else ok body
  | err e ↦ err e
  | panic ↦ panic
]

module _ {W : Type 0} (client : Client W) where
  -- From `client.Do` on.
  unfoldable pub exchange : HttpPost → W → Result HttpResponse × W
  exchange post w =
      let (answer, w') = client.call post w in
      elim answer [
        | inl e ↦ (err (wrap "send request" (in_url e)), w')
        | inr response ↦ elim (unzip client.gunzip response) [
          | ok out ↦ (ok (record response { body = ok out }), w')
          | err e ↦ (err e, w')
          | panic ↦ (panic, w')
        ]
      ]

  -- `SendRequestToServer`, but for the status that it returns beside the response.
  unfoldable pub send_request_to_server :
      (Bytes → Option ℕ)
      → List Entry
      → String
      → Option PublicKey
      → Bytes
      → W
      → Result HttpResponse × W
  send_request_to_server parse_float es key public_key host_ip w =
      elim (payload_of parse_float es) [
        | none ↦ (err (message "bad metrics"), w)
        | some payload ↦ elim (client.marshal payload) [
          | inl e ↦ (err e, w)
          | inr body ↦ elim (request_body public_key body) [
            | err e ↦ (err e, w)
            | panic ↦ (panic, w)
            | ok sealed ↦ elim client.new_request [
              | some e ↦ (err e, w)
              | none ↦
                  exchange
                    (record {
                      body = sealed;
                      header = request_header client.sign_body key host_ip body;
                    })
                    w
            ]
          ]
        ]
      ]

  abbrev pub is_success : ℕ → Bool
  is_success n = not (ltb n 200 || leb 300 n)

  -- `sendAllMetrics`
  unfoldable pub send_all_metrics :
      (Bytes → Option ℕ) → List Entry → String → Option PublicKey → Bytes → W → Result Bytes × W
  send_all_metrics parse_float es key public_key host_ip w =
      let (r, w') = send_request_to_server parse_float es key public_key host_ip w in
      elim r [
        | err e ↦ (err e, w')
        | panic ↦ (panic, w')
        | ok response ↦ elim response.body [
          | err e ↦ (err e, w')
          | panic ↦ (panic, w')
          | ok body ↦
              if is_success response.status_code
              then (ok body, w')
              else (err (status response.status_code), w')
        ]
      ]

  -- `sendAllMetricsWithRetry`, of one snapshot; its table is iterated anew by each attempt.
  unfoldable pub send_all_metrics_with_retry :
      (Error → Bool)
      → (Bytes → Option ℕ)
      → (W → List Entry)
      → String
      → Option PublicKey
      → Bytes
      → W
      → Result Bytes × W × List ℕ
  send_all_metrics_with_retry is_net_error parse_float iterate key public_key host_ip w =
      retry_loop (is_retriable_request_error is_net_error)
        (λ w'. send_all_metrics parse_float (iterate w') key public_key host_ip w') retry_intervals
        [] w
