-- ===== src/Handler/Body.antt =====
-- `readAndVerifyRequestBody` of internal/handler/server/handler.go, and the signatures of
-- internal/hashutil/hash.go.
use go_yandex_metrics.Base.{
  String, ◌≡◌, ◌≢◌, Bool, false, not, ◌&&◌, none, some, [], ◌∷◌, arith, ◌==◌, if◌then◌else◌, str_eq,
  str_eq_iff, message, wrap, Result, ok, err, panic,
}
use go_yandex_metrics.Base.Text.{Bytes, bytes_eq, bytes_eq_iff}
use go_yandex_metrics.Crypto.{PublicKey, PrivateKey, encrypt, decrypt}
use go_yandex_metrics.Crypto.RoundTrip.{KeyPair, decrypt-encrypt}
use go_yandex_metrics.Handler.Http.{Request, Library, Handler}

-- `hashutil.HeaderName`
abbrev pub header_name : String
header_name = "HashSHA256"

unfoldable pub is_gzip_body : Bytes → Bool
is_gzip_body (a ∷ b ∷ rest) = a == 0x1f && b == 0x8b
is_gzip_body _ = false

module _ (lib : Library) where
  -- `VerifySignature`
  unfoldable pub verify_signature : Bytes → Bytes → String → Bool
  verify_signature body signature key = bytes_eq (lib.sign_body body key) signature

  -- The three steps after the body has been read.
  decrypted : Handler → Bytes → Result Bytes
  decrypted h body = elim h.private_key [
    | none ↦ ok body
    | some key ↦ elim (decrypt (some key) body) [
      | ok plain ↦ ok plain
      | err e ↦ err (wrap "decrypt request body" e)
      | panic ↦ panic
    ]
  ]

  unzipped : Bytes → Result Bytes
  unzipped body = if is_gzip_body body then lib.gunzip body else ok body

  verified : Handler → Request → Bytes → Result Bytes
  verified h req body =
      if str_eq h.key ""
      then ok body
      else if not (bytes_eq (req.header header_name) [])
          && not (verify_signature body (req.header header_name) h.key)
      then err (message "invalid request hash")
      else ok body

  unfoldable pub read_and_verify_request_body : Handler → Request → Result Bytes
  unfolding decrypted unzipped verified
  read_and_verify_request_body h req = elim req.body [
    | err e ↦ err e
    | panic ↦ panic
    | ok body ↦ elim (decrypted h body) [
      | err e ↦ err e
      | panic ↦ panic
      | ok plain ↦ elim (unzipped plain) [
        | err e ↦ err e
        | panic ↦ panic
        | ok unpacked ↦ verified h req unpacked
      ]
    ]
  ]

  -- A body that the handler accepts under a key, from a request that carries a signature, is the
  -- body that was signed with that key: its signature is the one received.
  pub accepted-signed :
      (h : Handler) (req : Request) (body : Bytes)
      → h.key ≢ ""
      → req.header header_name ≢ []
      → read_and_verify_request_body h req ≡ ok body
      → lib.sign_body body h.key ≡ req.header header_name
  unfolding read_and_verify_request_body verify_signature
  accepted-signed h req body keyed signed accepted = ground (
    arith,
    str_eq_iff h.key "",
    bytes_eq_iff (req.header header_name) [],
    bytes_eq_iff (lib.sign_body body h.key) (req.header header_name),
  )

  -- What the agent sends, `Encrypt` of a body under the public key with the signature of the plain
  -- body, is read back by a server that has the private key and the same signing key. The plain
  -- body must not begin like a gzip stream, since it would be unpacked.
  pub reads_what_was_sent :
      (h : Handler) (req : Request) (pk : PublicKey) (sk : PrivateKey) (plain encrypted : Bytes)
      → KeyPair pk sk
      → h.private_key ≡ some sk
      → encrypt (some pk) plain ≡ ok encrypted
      → req.body ≡ ok encrypted
      → req.header header_name ≡ lib.sign_body plain h.key
      → is_gzip_body plain ≡ false
      → read_and_verify_request_body h req ≡ ok plain
  unfolding read_and_verify_request_body verify_signature
  reads_what_was_sent h req pk sk plain encrypted pair hk he hb hs hz =
      let (encrypted', e, d) = decrypt-encrypt pk sk plain pair in
      ground (
        arith,
        he,
        e,
        d,
        hk,
        hb,
        hs,
        hz,
        bytes_eq_iff (lib.sign_body plain h.key) (req.header header_name),
      )
