-- ===== src/Crypto.antt =====
-- internal/cryptoutil/rsa.go: encryption in blocks. RSA-OAEP itself is a parameter: the size of a
-- key in bytes, and a block operation that may fail. `EncryptOAEP` reads random bytes, so it takes
-- the number of the call besides. The loops run on fuel, the length of the data, which is enough
-- since every round takes at least one byte; running out of it would be a panic.
pub mod RoundTrip
use go_yandex_metrics.Base.{
  ℕ, zero, suc, ◌+◌, ◌-◌, ◌*◌, ◌%◌, not, Option, none, some, [], ◌∷◌, ◌++◌, ltb, leb, ◌==◌,
  if◌then◌else◌, length, take, drop, message, wrap, Result, ok, err, panic,
}
use go_yandex_metrics.Base.Text.{Bytes}

pub record PublicKey : Type 0 where
  pub size : ℕ
  pub encrypt_oaep : ℕ → Bytes → Result Bytes

pub record PrivateKey : Type 0 where
  pub size : ℕ
  pub decrypt_oaep : Bytes → Result Bytes

-- `2*sha256.Size + 2`: what OAEP takes of a block.
abbrev pub oaep_overhead : ℕ
oaep_overhead = 2 * 32 + 2

-- `for len(data) > 0` of `Encrypt`, with the output so far.
unfoldable pub encrypt_blocks : PublicKey → ℕ → ℕ → Bytes → Bytes → Result Bytes
encrypt_blocks key fuel round [] encrypted = ok encrypted
encrypt_blocks key zero round (b ∷ data_rest) encrypted = panic
encrypt_blocks key (suc fuel) round (b ∷ data_rest) encrypted =
    let all = b ∷ data_rest in
    let chunk_size = key.size - oaep_overhead in
    let part_size = if ltb chunk_size (length all) then chunk_size else length all in
    elim (key.encrypt_oaep round (take part_size all)) [
      | ok block ↦ encrypt_blocks key fuel (round + 1) (drop part_size all) (encrypted ++ block)
      | err e ↦ err (wrap "encrypt RSA block" e)
      | panic ↦ panic
    ]

-- `Encrypt`; `none` is a nil key. The chunk size is an int, so a small key makes it negative.
unfoldable pub encrypt : Option PublicKey → Bytes → Result Bytes
encrypt none plain = err (message "encrypt: public key is nil")
encrypt (some key) [] = ok []
encrypt (some key) (b ∷ rest) =
    if leb key.size oaep_overhead
    then err (message "encrypt: RSA key is too small")
    else encrypt_blocks key (length (b ∷ rest)) 0 (b ∷ rest) []

-- `for len(data) > 0` of `Decrypt`.
unfoldable pub decrypt_blocks : PrivateKey → ℕ → Bytes → Bytes → Result Bytes
decrypt_blocks key fuel [] decrypted = ok decrypted
decrypt_blocks key zero (b ∷ rest) decrypted = panic
decrypt_blocks key (suc fuel) (b ∷ rest) decrypted =
    elim (key.decrypt_oaep (take key.size (b ∷ rest))) [
      | ok block ↦ decrypt_blocks key fuel (drop key.size (b ∷ rest)) (decrypted ++ block)
      | err e ↦ err (wrap "decrypt RSA block" e)
      | panic ↦ panic
    ]

-- `Decrypt`; a remainder by a size of zero would panic.
unfoldable pub decrypt : Option PrivateKey → Bytes → Result Bytes
decrypt none cipher = err (message "decrypt: private key is nil")
decrypt (some key) [] = ok []
decrypt (some key) (b ∷ rest) =
    if key.size == 0
    then panic
    else if (length (b ∷ rest) % key.size) == 0
    then decrypt_blocks key (length (b ∷ rest)) (b ∷ rest) []
    else err (message "decrypt: ciphertext length is not a multiple of RSA block size")
