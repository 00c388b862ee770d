-- ===== src/Tests/Codecs.antt =====
-- The keys, the bodies and the retries, on concrete inputs.
use go_yandex_metrics.Base.{
  ℕ, ◌+◌, ◌≡◌, refl, true, false, some, [], ◌∷◌, ◌++◌, ltb, if◌then◌else◌, deadline_exceeded,
  Result, ok, err,
}
use go_yandex_metrics.Base.Text.{Bytes}
use go_yandex_metrics.Crypto.{encrypt, encrypt_blocks, decrypt}
use go_yandex_metrics.Crypto.RoundTrip.{decrypt-encrypt}
use go_yandex_metrics.Retry.{retry_loop, retry_intervals}
use go_yandex_metrics.Handler.Http.{Request}
use go_yandex_metrics.Handler.Body.{
  header_name, is_gzip_body, read_and_verify_request_body, verify_signature, accepted-signed,
}
use go_yandex_metrics.Tests.Data.{
  public_key, private_key, keys-KeyPair, toy_encrypt, zeros, library, open_handler, post,
}

-- Two bytes are two blocks of the toy keys.
decrypt-encrypt_example :
    (encrypted : Bytes) × (encrypt (some public_key) (1 ∷ 2 ∷ []) ≡ ok encrypted)
    × (decrypt (some private_key) encrypted ≡ ok (1 ∷ 2 ∷ []))
decrypt-encrypt_example = decrypt-encrypt public_key private_key (1 ∷ 2 ∷ []) keys-KeyPair

abbrev sealed : Bytes
sealed = 1 ∷ 1 ∷ zeros 65 ++ 1 ∷ 2 ∷ zeros 65

seals : encrypt (some public_key) (1 ∷ 2 ∷ []) ≡ ok sealed
unfolding encrypt encrypt_blocks toy_encrypt zeros
seals = refl

abbrev sealed_post : Request
sealed_post = record post { body = ok sealed }

is_not_zipped : is_gzip_body (1 ∷ 2 ∷ []) ≡ false
unfolding is_gzip_body
is_not_zipped = refl

accepts : read_and_verify_request_body library open_handler post ≡ ok (1 ∷ 2 ∷ [])
unfolding read_and_verify_request_body verify_signature is_gzip_body
accepts = refl

accepted-signed_example : library.sign_body (1 ∷ 2 ∷ []) "secret" ≡ post.header header_name
accepted-signed_example =
    accepted-signed library open_handler post (1 ∷ 2 ∷ []) (λ e. cc e) (λ e. cc e) accepts

-- An operation that times out until its world has counted to two.
flaky : ℕ → Result ℕ × ℕ
flaky n = if ltb n 2 then (err deadline_exceeded, n + 1) else (ok n, n)

-- Two failures, the first two waits, and the third attempt's result.
flaky_run : retry_loop (λ e. true) flaky retry_intervals [] 0 ≡ (ok 2, 2, 1 ∷ 3 ∷ [])
unfolding retry_loop flaky
flaky_run = refl
