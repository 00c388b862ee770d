-- ===== src/Handler/Served.antt =====
-- What a client gets of a request, through the chain of `InitRoutes`, internal/handler/server/handler.go.
use go_yandex_metrics.Base.{
  ℕ, String, ◌≡◌, refl, inl, inr, Bool, true, false, Option, none, some, List, [], ◌==◌,
  if◌then◌else◌, str_eq, Bool-cases, Option-cases, Error, Result,
}
use go_yandex_metrics.Base.Text.{Bytes, codes}
use go_yandex_metrics.Handler.Http.{Request, Chunk, WriterCall, buffered_status, body_of}
use go_yandex_metrics.Handler.Writers.{
  no_headers, set_value, replay, Sent, nothing_sent, net_writer, hash_response_middleware,
  Compressor, gzip_writer, zip_response, logging_writer, with_logging, contains, zip_middleware,
  init_routes,
}
use go_yandex_metrics.Handler.Signed.{
  bytes_of, IsLossless, Signed, zipped, hash_response_middleware-replay, signed_calls-Signed,
  zipped-Signed,
}

module _ (gunzip : Bytes → Result Bytes) (sign_body : Bytes → String → Bytes) (key : String)
    (gzip_reader : Result Bytes → Option (Result Bytes)) (error_text : Error → Bytes)
    (gz : Compressor) (render : Chunk → Bytes) (calls : Request → List WriterCall) where
  abbrev accepts_gzip : Request → Bool
  accepts_gzip req = contains (req.header "Accept-Encoding") (codes "gzip")

  -- The request that the routes get, if its body can be unzipped where it says that it is zipped.
  abbrev pub unzipped : Request → Option Request
  unzipped req =
      if contains (req.header "Content-Encoding") (codes "gzip")
      then elim (gzip_reader req.body) [
        | none ↦ none
        | some body ↦ some (record req { body = body })
      ]
      else some req

  -- What the client gets, by whether the routes get a request.
  pub IsServed : Bool → Option Request → Sent × ℕ × ℕ → Type 0
  IsServed accepted none (s, status', size) =
      (s.status ≡ some 400) × (s.body ≡ []) × (status' ≡ 400) × (size ≡ 0)
  IsServed accepted (some req) r =
      Signed gunzip sign_body key accepted (bytes_of render (body_of (calls req)))
        (buffered_status 200 (calls req)) r

  zip_response-Signed :
      (accepted : Bool) (made : List WriterCall)
      → IsLossless gz gunzip
      → str_eq key "" ≡ false
      → (buffered_status 200 made == 0) ≡ false
      → Signed gunzip sign_body key accepted
          (bytes_of render (body_of made))
          (buffered_status 200 made)
          (with_logging
            (zip_response error_text gz accepted
              (hash_response_middleware sign_body key (replay render made)))
            net_writer
            nothing_sent)
  unfolding with_logging zip_response zipped
  zip_response-Signed false made lossless keyed valid =
      rw
        (hash_response_middleware-replay sign_body key render made (logging_writer net_writer)
          (nothing_sent, 0, 0) keyed)
        (signed_calls-Signed gunzip sign_body key _ _ (buffered_status 200 made) valid)
  zip_response-Signed true made lossless keyed valid =
      rw
        (
          lossless.starts,
          hash_response_middleware-replay sign_body key render made
              (gzip_writer gz (logging_writer net_writer))
              (
                (
                  record nothing_sent {
                    header = set_value "Content-Encoding" (codes "gzip") no_headers;
                  },
                  0,
                  0,
                ),
                lossless.start,
              )
              keyed,
        )
        (zipped-Signed gunzip sign_body key gz
          (set_value "Content-Encoding" (codes "gzip") no_headers) _ _ (buffered_status 200 made)
          lossless valid)

  -- The chain of `InitRoutes` with a key, around any handlers, over a compressor that is lossless: the
  -- client gets the last status that the handler set, its whole body, compressed exactly if the
  -- request accepts gzip, and the signature of the body before the compression; that status and the
  -- size that is sent are logged. A body that cannot be unzipped is answered with 400 and nothing.
  -- The handler sets no status of zero.
  pub init_routes-IsServed :
      (req : Request)
      → IsLossless gz gunzip
      → str_eq key "" ≡ false
      → ((r : Request) → (buffered_status 200 (calls r) == 0) ≡ false)
      → IsServed (accepts_gzip req) (unzipped req) (
          init_routes gzip_reader error_text gz sign_body key render calls req net_writer
            nothing_sent)
  unfolding init_routes with_logging zip_middleware IsServed
  init_routes-IsServed req lossless keyed valid =
      elim (Bool-cases (contains (req.header "Content-Encoding") (codes "gzip"))) [
        | inr plain ↦
            rw plain (zip_response-Signed (accepts_gzip req) (calls req) lossless keyed (valid req))
        | inl zipped_body ↦ elim (Option-cases (gzip_reader req.body)) [
          | inl bad ↦ rw (zipped_body, bad) (refl, refl, refl, refl)
          | inr (body, good) ↦
              rw (zipped_body, good)
                (zip_response-Signed (accepts_gzip req) (calls (record req { body = body }))
                  lossless keyed (valid (record req { body = body })))
        ]
      ]
