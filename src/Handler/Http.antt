-- ===== src/Handler/Http.antt =====
-- What the HTTP handlers of internal/handler/server work on: the request as net/http hands it
-- over, the calls that a handler makes on its ResponseWriter, the library functions it calls, and
-- the configuration of `Handler`. A writer call is recorded, and the two writers of the program
-- read the record: net/http's own, where the first status counts, and `hashResponseWriter`, where
-- the last one does.
use go_yandex_metrics.Base.{
  ℕ, ◌/◌, ◌%◌, ◌^◌, String, Bool, true, not, ◌&&◌, Option, none, some, List, [], ◌∷◌, ◌++◌, ◌==◌,
  Error, message, Result,
}
use go_yandex_metrics.Base.Text.{Bytes}
use go_yandex_metrics.Crypto.{PrivateKey}
use go_yandex_metrics.Model.{Metrics}
use go_yandex_metrics.Repository.Merge.{Context}

-- `*http.Request` with its URL parameters: `body` is what reading the body gives, `header` is
-- `Header.Get`, `seconds` is the clock when an audit event is made of the request.
pub record Request : Type 0 where
  pub method : String
  pub metric_type : String
  pub metric_name : String
  pub metric_value : Bytes
  pub body : Result Bytes
  pub header : String → Bytes
  pub remote_addr : Bytes
  pub seconds : ℕ
  pub context : Context

-- What goes into a response body. JSON texts are kept as the values that they encode, and a
-- float64 and a metric that are printed as their values.
pub data Chunk : Type 0 where
  raw : Bytes → Chunk
  text : String → Chunk
  error_text : Error → Chunk
  float_text : ℕ → Chunk
  metric_line : Metrics → Chunk
  json_metric : Metrics → Chunk
  json_metrics : List Metrics → Chunk

-- The calls on a ResponseWriter.
pub data WriterCall : Type 0 where
  set_header : String → String → WriterCall
  write_header : ℕ → WriterCall
  write : Chunk → WriterCall

-- `audit.Event`
pub record Event : Type 0 where
  pub timestamp : ℕ
  pub metrics : List String
  pub ip_address : Bytes

-- What a handler changes: the storage, the calls made so far on its writer, the audit events that
-- were published, and whether it has panicked.
pub record World (S : Type 0) : Type 0 where
  pub state : S
  pub calls : List WriterCall
  pub published : List Event
  pub crashed : Bool

-- Functions of the standard library that the handlers call: `json.Unmarshal` into a metric and
-- into a list of metrics, `gzip.NewReader` with `io.ReadAll`, the HMAC-SHA256 of a body in
-- hexadecimal digits, `strconv.ParseFloat`,
-- `net.ParseIP`, and the host that `net.SplitHostPort` gives.
pub record Library : Type 0 where
  pub decode_metric : Bytes → Result Metrics
  pub decode_metrics : Bytes → Result (List Metrics)
  pub gunzip : Bytes → Result Bytes
  pub sign_body : Bytes → String → Bytes
  pub parse_float : Bytes → Option ℕ
  pub parse_ip : Bytes → Option Bytes
  pub split_host_port : Bytes → Option Bytes

-- `Handler` but for its services and its logger. `db` is nil, or the answer of a ping; `audit` says
-- whether the publisher is there; a trusted subnet is its `Contains`.
pub record Handler : Type 0 where
  pub db : Option (Option Error)
  pub key : String
  pub audit : Bool
  pub private_key : Option PrivateKey
  pub trusted_subnet : Option (Bytes → Bool)

module _ {S : Type 0} where
  abbrev pub call : WriterCall → World S → World S
  call c w = record w { calls = w.calls ++ c ∷ [] }

  abbrev pub crash : World S → World S
  crash w = record w { crashed = true }

  -- `http.Error`
  abbrev pub http_error : Chunk → ℕ → World S → World S
  http_error chunk status w = record w {
    calls =
        w.calls
        ++ set_header "Content-Type" "text/plain; charset=utf-8"
          ∷ set_header "X-Content-Type-Options" "nosniff"
          ∷ write_header status
          ∷ write chunk
          ∷ [];
  }

  -- `writeError`
  abbrev pub write_error : Chunk → ℕ → World S → World S
  write_error chunk status w = record w {
    calls = w.calls ++ write_header status ∷ write chunk ∷ [];
  }

-- A float64 is a number, not a NaN or an infinity.
abbrev pub is_finite : ℕ → Bool
is_finite bits = not (((bits / 2 ^ 52) % 2 ^ 11) == 2047)

-- `json.Marshal` of a metric fails exactly at a value that is no number.
abbrev pub marshals : Metrics → Bool
marshals m = elim m.value [ none ↦ true | some v ↦ is_finite v ]

abbrev pub all_marshal : List Metrics → Bool
all_marshal [] = true
all_marshal (m ∷ ms) = marshals m && all_marshal ms

abbrev pub unsupported_value : Error
unsupported_value = message "json: unsupported value"

-- The status that net/http sends: that of the first `WriteHeader`, or 200 at the first `Write`.
unfoldable pub served_status : List WriterCall → ℕ
served_status [] = 200
served_status (set_header k v ∷ calls) = served_status calls
served_status (write_header status ∷ calls) = status
served_status (write chunk ∷ calls) = 200

-- The status of `hashResponseWriter`: that of the last `WriteHeader`, 200 if there is none.
unfoldable pub buffered_status : ℕ → List WriterCall → ℕ
buffered_status status [] = status
buffered_status status (write_header status' ∷ calls) = buffered_status status' calls
buffered_status status (_ ∷ calls) = buffered_status status calls

-- The body, which both writers collect in order.
unfoldable pub body_of : List WriterCall → List Chunk
body_of [] = []
body_of (write chunk ∷ calls) = chunk ∷ body_of calls
body_of (_ ∷ calls) = body_of calls
