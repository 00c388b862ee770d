-- ===== src/Base/Results.antt =====
-- What a Go call can end in: a value, an error value, or a run-time panic.
use Prim.Native.Nat.{ℕ}
use Prim.Native.String.{String}

-- `join` is `errors.Join`; `wrap` is `fmt.Errorf` with `%w`; `message` is an error that only
-- carries a text, `code` one that carries an SQLSTATE, `status` one that carries an
-- HTTP status, and `in_url` the `url.Error` of an HTTP client.
pub data Error : Type 0 where
  canceled deadline_exceeded : Error
  message : String → Error
  detail : String → String → Error
  code : String → Error
  wrap : String → Error → Error
  join : Error → Error → Error
  status : ℕ → Error
  in_url : Error → Error

pub data Result {ℓ} (A : Type ℓ) : Type ℓ where
  ok : A → Result A
  err : Error → Result A
  panic : Result A
