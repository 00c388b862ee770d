-- ===== src/Handler/Signed.antt =====
-- What a client gets of a response that is signed, through all the writers of `InitRoutes`.
use go_yandex_metrics.Base.{
  ℕ, ◌+◌, String, ◌≡◌, refl, sym, ap, ◌∙◌, inr, Bool, true, false, some, List, [], ◌∷◌, ◌++◌, arith,
  ◌==◌, if◌then◌else◌, str_eq, length, length-append, Result, ok,
}
use mathlib.Core.List.{append_assoc, append-nil}
use go_yandex_metrics.Base.Text.{Bytes, codes}
use go_yandex_metrics.Handler.Http.{
  Chunk, WriterCall, set_header, write_header, write, buffered_status, body_of,
}
use go_yandex_metrics.Handler.Body.{header_name}
use go_yandex_metrics.Handler.Writers.{
  Headers, no_headers, set_value, Writer, replay, Sent, nothing_sent, net_writer,
  HashResponseWriter, new_hash_response_writer, hash_writer, hash_response_middleware, Compressor,
  write_all, gzip_writer, logging_writer,
}

unfoldable pub concat : List Bytes → Bytes
concat [] = []
concat (b ∷ bs) = b ++ concat bs

concat-one : (b : Bytes) → concat (b ∷ []) ≡ b
unfolding concat
concat-one b = append-nil b

-- The bytes of a body.
pub bytes_of : (Chunk → Bytes) → List Chunk → Bytes
bytes_of render [] = []
bytes_of render (c ∷ cs) = render c ++ bytes_of render cs

-- The writes that a compressor makes for some writes and the closing.
unfoldable pub compressed : (gz : Compressor) → gz.State → List Bytes → List Bytes
compressed gz z [] = gz.close z
compressed gz z (b ∷ bs) = let (out, z') = gz.write_bytes b z in out ++ compressed gz z' bs

-- What compress/gzip documents: the level BestSpeed is valid, and what is compressed can be read
-- back.
pub record IsLossless (gz : Compressor) (gunzip : Bytes → Result Bytes) : Type 0 where
  pub start : gz.State
  pub starts : gz.new_writer ≡ inr start
  pub reads : (bs : List Bytes) → gunzip (concat (compressed gz start bs)) ≡ ok (concat bs)

abbrev buffered : Headers → Bytes → ℕ → HashResponseWriter
buffered h b n = record { header = h; body = b; status = n }

-- The buffer collects the body, and keeps the last status.
replay-hash_writer :
    (render : Chunk → Bytes) (calls : List WriterCall) (h : Headers) (b : Bytes) (n : ℕ)
    → ((replay render calls hash_writer (buffered h b n)).body
        ≡ b ++ bytes_of render (body_of calls))
      × ((replay render calls hash_writer (buffered h b n)).status ≡ buffered_status n calls)
unfolding replay bytes_of body_of buffered_status
replay-hash_writer render [] h b n = (sym (append-nil b), refl)
replay-hash_writer render (set_header key value ∷ calls) h b n =
    replay-hash_writer render calls (set_value key (codes value) h) b n
replay-hash_writer render (write_header m ∷ calls) h b n = replay-hash_writer render calls h b m
replay-hash_writer render (write chunk ∷ calls) h b n =
    let (body_is, status_is) = replay-hash_writer render calls h (b ++ render chunk) n in
    (body_is ∙ append_assoc b (render chunk) (bytes_of render (body_of calls)), status_is)

abbrev sent : Headers → ℕ → Headers → Bytes → Sent
sent h m sh b = record { header = h; status = some m; sent_header = sh; body = b }

-- Writes after the status.
write_all-sent :
    (bs : List Bytes) (h sh : Headers) (b : Bytes) (m k : ℕ)
    → (m == 0) ≡ false
    → write_all (logging_writer net_writer) bs (sent h m sh b, m, k)
      ≡ (sent h m sh (b ++ concat bs), m, k + length (concat bs))
unfolding write_all concat
write_all-sent [] h sh b m k ne = ground (arith, append-nil b)
write_all-sent (x ∷ bs) h sh b m k ne = rw ne (
    write_all-sent bs h sh (b ++ x) m (k + length x) ne
    ∙ ground (arith, append_assoc b x (concat bs), length-append x (concat bs)))

-- What the hash middleware does with its writer, if there is a key.
abbrev pub signed_calls :
    (Bytes → String → Bytes) → String → (wr : Writer) → Headers → Bytes → ℕ → wr.State → wr.State
signed_calls sign_body key wr headers body n s =
    let s1 = wr.change_header (λ name. wr.header s name ++ headers name) s in
    let s2 = wr.change_header (set_value header_name (sign_body body key) (wr.header s1)) s1 in
    wr.write_bytes body (wr.write_status n s2)

pub hash_response_middleware-replay :
    (sign_body : Bytes → String → Bytes) (key : String) (render : Chunk → Bytes)
    (made : List WriterCall) (wr : Writer) (s : wr.State)
    → str_eq key "" ≡ false
    → hash_response_middleware sign_body key (replay render made) wr s
      ≡ signed_calls sign_body key wr
          (replay render made hash_writer new_hash_response_writer).header
          (bytes_of render (body_of made))
          (buffered_status 200 made)
          s
unfolding hash_response_middleware
hash_response_middleware-replay sign_body key render made wr s keyed =
    let (body_is, status_is) = replay-hash_writer render made no_headers [] 200 in
    rw keyed (
      ap
        (λ (b : Bytes).
          signed_calls sign_body key wr
            (replay render made hash_writer new_hash_response_writer).header b
            (replay render made hash_writer new_hash_response_writer).status s)
        body_is
      ∙ ap
          (λ (n : ℕ).
            signed_calls sign_body key wr
              (replay render made hash_writer new_hash_response_writer).header
              (bytes_of render (body_of made)) n s)
          status_is)

module _ (gunzip : Bytes → Result Bytes) (sign_body : Bytes → String → Bytes) (key : String) where
  -- The client can read a body.
  abbrev Readable : Bool → Bytes → Bytes → Type 0
  Readable true received body = gunzip received ≡ ok body
  Readable false received body = received ≡ body

  -- What the client gets, and what is logged: the status, the body, compressed if the client accepts
  -- that, and its signature.
  pub Signed : Bool → Bytes → ℕ → Sent × ℕ × ℕ → Type 0
  Signed accepted body n (s, logged, size) =
      (s.status ≡ some n)
      × (s.sent_header header_name ≡ sign_body body key ∷ [])
      × Readable accepted s.body body
      × (logged ≡ n)
      × (size ≡ length s.body)

  -- The end of `WithLogging`.
  abbrev pub logged : Sent × ℕ × ℕ → Sent × ℕ × ℕ
  logged (s, n, size) = (s, if n == 0 then 200 else n, size)

  pub signed_calls-Signed :
      (headers : Headers) (body : Bytes) (n : ℕ)
      → (n == 0) ≡ false
      → Signed false body n (
          logged (
            signed_calls sign_body key
              (logging_writer net_writer)
              headers
              body
              n
              (nothing_sent, 0, 0)))
  unfolding Signed
  signed_calls-Signed headers body n valid = (refl, refl, refl, ground (arith, valid), omega arith)

  module _ (gz : Compressor) where
    unfoldable pub zipped : (before headers : Headers) → Bytes → ℕ → gz.State → Sent × ℕ × ℕ
    zipped before headers body n z =
        let (s2, z2) =
          signed_calls sign_body key (gzip_writer gz (logging_writer net_writer)) headers body n
            ((record nothing_sent { header = before }, 0, 0), z) in
        write_all (logging_writer net_writer) (gz.close z2) s2

    abbrev signed_header : (before headers : Headers) → Bytes → Headers
    signed_header before headers body =
        set_value header_name (sign_body body key) (λ name. before name ++ headers name)

    write_all-append :
        (wr : Writer) (xs ys : List Bytes) (s : wr.State)
        → write_all wr ys (write_all wr xs s) ≡ write_all wr (xs ++ ys) s
    unfolding write_all
    write_all-append wr [] ys s = refl
    write_all-append wr (x ∷ xs) ys s = write_all-append wr xs ys (wr.write_bytes x s)

    zipped-sent :
        (before headers : Headers) (body : Bytes) (n : ℕ) (z : gz.State)
        → (n == 0) ≡ false
        → let out = concat (compressed gz z (body ∷ [])) in
          let h = signed_header before headers body in
          zipped before headers body n z ≡ (sent h n h out, n, 0 + length out)
    unfolding zipped compressed
    zipped-sent before headers body n z valid =
        let h = signed_header before headers body in
        write_all-append (logging_writer net_writer) (gz.write_bytes body z).0
          (gz.close (gz.write_bytes body z).1) (sent h n h [], n, 0)
        ∙ write_all-sent ((gz.write_bytes body z).0 ++ gz.close (gz.write_bytes body z).1) h h [] n
            0 valid

    pub zipped-Signed :
        (before headers : Headers) (body : Bytes) (n : ℕ) (lossless : IsLossless gz gunzip)
        → (n == 0) ≡ false
        → Signed true body n (logged (zipped before headers body n lossless.start))
    unfolding Signed
    zipped-Signed before headers body n lossless valid =
        rw (zipped-sent before headers body n lossless.start valid) (
          refl,
          refl,
          lossless.reads (body ∷ []) ∙ ap {B = Result Bytes} ok (concat-one body),
          rw valid refl,
          omega arith,
        )
