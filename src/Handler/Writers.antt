-- ===== src/Handler/Writers.antt =====
-- The writers that a response goes through: internal/server/logger, internal/server/gzip and
-- `HashResponseMiddleware` of internal/handler/server. The compressor is a parameter.
use go_yandex_metrics.Base.{
  ℕ, ◌+◌, String, ◌⊎◌, inl, inr, Bool, true, false, not, ◌&&◌, ◌||◌, Option, none, some, List, [],
  ◌∷◌, ◌++◌, ◌==◌, if◌then◌else◌, str_eq, length, Error, Result,
}
use go_yandex_metrics.Base.Text.{Bytes, codes}
use go_yandex_metrics.Handler.Http.{Request, Chunk, WriterCall, set_header, write_header, write}
use go_yandex_metrics.Handler.Body.{header_name}

-- `http.Header`: the values of each name.
abbrev pub Headers : Type 0
Headers = String → List Bytes

abbrev pub no_headers : Headers
no_headers name = []

-- `Header.Set`
abbrev pub set_value : String → Bytes → Headers → Headers
set_value key value headers name = if str_eq name key then value ∷ [] else headers name

-- `http.ResponseWriter`: `change_header` writes to the map that `Header()` gives.
pub record Writer : Type 1 where
  pub State : Type 0
  pub header : State → Headers
  pub change_header : Headers → State → State
  pub write_bytes : Bytes → State → State
  pub write_status : ℕ → State → State

-- A handler, by what it does with any writer.
abbrev pub Serve : Type 1
Serve = (wr : Writer) → wr.State → wr.State

-- The calls that a handler has recorded, made on a writer; `render` gives the bytes of a chunk.
unfoldable pub replay : (Chunk → Bytes) → List WriterCall → Serve
replay render [] wr s = s
replay render (set_header key value ∷ calls) wr s =
    replay render calls wr (wr.change_header (set_value key (codes value) (wr.header s)) s)
replay render (write_header n ∷ calls) wr s = replay render calls wr (wr.write_status n s)
replay render (write chunk ∷ calls) wr s = replay render calls wr (wr.write_bytes (render chunk) s)

-- What net/http has sent: the headers count as they are at the first status.
pub record Sent : Type 0 where
  pub header : Headers
  pub status : Option ℕ
  pub sent_header : Headers
  pub body : Bytes

abbrev pub nothing_sent : Sent
nothing_sent = record { header = no_headers; status = none; sent_header = no_headers; body = [] }

abbrev send_status : ℕ → Sent → Sent
send_status n s = elim s.status [
  | some m ↦ s
  | none ↦ record s { status = some n; sent_header = s.header }
]

-- The writer of net/http: a first `Write` sends the status 200, and a second status is ignored.
abbrev pub net_writer : Writer
net_writer = record {
  State = Sent;
  header = λ (s : Sent). s.header;
  change_header = λ (h : Headers) (s : Sent). record s { header = h };
  write_bytes =
      λ (b : Bytes) (s : Sent). let t = send_status 200 s in record t { body = t.body ++ b };
  write_status = send_status;
}

-- `hashResponseWriter`
pub record HashResponseWriter : Type 0 where
  pub header : Headers
  pub body : Bytes
  pub status : ℕ

abbrev pub new_hash_response_writer : HashResponseWriter
new_hash_response_writer = record { header = no_headers; body = []; status = 200 }

abbrev pub hash_writer : Writer
hash_writer = record {
  State = HashResponseWriter;
  header = λ (s : HashResponseWriter). s.header;
  change_header = λ (h : Headers) (s : HashResponseWriter). record s { header = h };
  write_bytes = λ (b : Bytes) (s : HashResponseWriter). record s { body = s.body ++ b };
  write_status = λ (n : ℕ) (s : HashResponseWriter). record s { status = n };
}

-- `HashResponseMiddleware`. Each name gets its values in order, in whatever order the names come.
unfoldable pub hash_response_middleware : (Bytes → String → Bytes) → String → Serve → Serve
hash_response_middleware sign_body key next wr s =
    if str_eq key ""
    then next wr s
    else let buffered = next hash_writer new_hash_response_writer in
      let s1 = wr.change_header (λ name. wr.header s name ++ buffered.header name) s in
      let s2 =
        wr.change_header (set_value header_name (sign_body buffered.body key) (wr.header s1)) s1 in
      wr.write_bytes buffered.body (wr.write_status buffered.status s2)

-- `gzip.Writer` at the level BestSpeed: each write and the closing give the writes below.
pub record Compressor : Type 1 where
  pub State : Type 0
  pub new_writer : Error ⊎ State
  pub write_bytes : Bytes → State → List Bytes × State
  pub close : State → List Bytes

unfoldable pub write_all : (wr : Writer) → List Bytes → wr.State → wr.State
write_all wr [] s = s
write_all wr (b ∷ bs) s = write_all wr bs (wr.write_bytes b s)

-- `gzipWriter`: only the bytes go through the compressor.
abbrev pub gzip_writer : Compressor → Writer → Writer
gzip_writer gz wr = record {
  State = wr.State × gz.State;
  header = λ (s : wr.State × gz.State). wr.header s.0;
  change_header = λ (h : Headers) (s : wr.State × gz.State). (wr.change_header h s.0, s.1);
  write_bytes = λ (b : Bytes) (s : wr.State × gz.State).
      let (out, z) = gz.write_bytes b s.1 in (write_all wr out s.0, z);
  write_status = λ (n : ℕ) (s : wr.State × gz.State). (wr.write_status n s.0, s.1);
}

-- The response of `ZipMiddleware`; `accepted` is whether Accept-Encoding contains gzip.
unfoldable pub zip_response : (Error → Bytes) → Compressor → Bool → Serve → Serve
zip_response error_text gz accepted next wr s =
    if not accepted
    then next wr s
    else let s1 = wr.change_header (set_value "Content-Encoding" (codes "gzip") (wr.header s)) s in
      elim gz.new_writer [
        | inl e ↦ next wr (wr.write_bytes (error_text e) s1)
        | inr z ↦ let (s2, z2) = next (gzip_writer gz wr) (s1, z) in write_all wr (gz.close z2) s2
      ]

-- `responseData`; a `Write` takes all of its bytes.
abbrev pub logging_writer : Writer → Writer
logging_writer wr = record {
  State = wr.State × ℕ × ℕ;
  header = λ (s : wr.State × ℕ × ℕ). wr.header s.0;
  change_header = λ (h : Headers) (s : wr.State × ℕ × ℕ). (wr.change_header h s.0, s.1, s.2);
  write_bytes = λ (b : Bytes) (s : wr.State × ℕ × ℕ).
      (wr.write_bytes b s.0, if s.1 == 0 then 200 else s.1, s.2 + length b);
  write_status = λ (n : ℕ) (s : wr.State × ℕ × ℕ). (wr.write_status n s.0, n, s.2);
}

-- `WithLogging`, with the status and the size that it logs.
unfoldable pub with_logging : Serve → (wr : Writer) → wr.State → wr.State × ℕ × ℕ
with_logging next wr s =
    let (s', status', size) = next (logging_writer wr) (s, 0, 0) in
    (s', if status' == 0 then 200 else status', size)

-- `strings.Contains`
unfoldable pub begins : Bytes → Bytes → Bool
begins [] s = true
begins (b ∷ bs) [] = false
begins (b ∷ bs) (c ∷ s) = b == c && begins bs s

unfoldable pub contains : Bytes → Bytes → Bool
unfolding begins
contains [] bs = begins bs []
contains (c ∷ s) bs = begins bs (c ∷ s) || contains s bs

-- `ZipMiddleware`: `gzip_reader` is `gzip.NewReader` of a body, with what reading it then gives.
unfoldable pub zip_middleware :
    (Result Bytes → Option (Result Bytes))
    → (Error → Bytes)
    → Compressor
    → (Request → Serve)
    → Request
    → Serve
zip_middleware gzip_reader error_text gz next req wr s =
    let accepted = contains (req.header "Accept-Encoding") (codes "gzip") in
    if contains (req.header "Content-Encoding") (codes "gzip")
    then elim (gzip_reader req.body) [
      | none ↦ wr.write_status 400 s
      | some body ↦ zip_response error_text gz accepted (next (record req { body = body })) wr s
    ]
    else zip_response error_text gz accepted (next req) wr s

-- The chain that `InitRoutes` sets up, around the routes, of which `calls` gives what they do with
-- their writer.
unfoldable pub init_routes :
    (Result Bytes → Option (Result Bytes))
    → (Error → Bytes)
    → Compressor
    → (Bytes → String → Bytes)
    → String
    → (Chunk → Bytes)
    → (Request → List WriterCall)
    → Request
    → (wr : Writer) → wr.State
    → wr.State × ℕ × ℕ
init_routes gzip_reader error_text gz sign_body key render calls req = with_logging (
    zip_middleware gzip_reader error_text gz
      (λ r. hash_response_middleware sign_body key (replay render (calls r))) req)
