-- ===== src/Tests/Data.antt =====
-- What the examples run on: metrics, a storage with some of them, a toy key pair and library.
use go_yandex_metrics.Base.{
  ℕ, zero, suc, ◌+◌, ◌-◌, ◌^◌, ◌≤◌, ◌≡◌, refl, true, false, none, some, List, [], ◌∷◌, arith,
  if◌then◌else◌, str_eq, length, message, Result, ok, err,
}
use go_yandex_metrics.Base.Text.{Bytes, bytes_eq}
use go_yandex_metrics.Crypto.{PublicKey, PrivateKey}
use go_yandex_metrics.Crypto.RoundTrip.{KeyPair}
use go_yandex_metrics.Model.{Metrics, counter, gauge}
use go_yandex_metrics.Repository.Merge.{background}
use go_yandex_metrics.Repository.Memory.{MemoryStorage, new_memory_storage}
use go_yandex_metrics.Repository.Memory.Index.{IsConsistent, new-IsConsistent}
use go_yandex_metrics.Repository.Memory.History.{
  Call, save, save_batch, serve_all, serve_all-IsConsistent,
}
use go_yandex_metrics.Handler.Http.{Request, Library, Handler, World}

abbrev pub hits : Metrics
hits = record { id = "Hits"; m_type = counter; delta = some 3; value = none; hash = "" }

abbrev pub temperature : Metrics
temperature = record {
  id = "Temperature";
  m_type = gauge;
  delta = none;
  value = some 42;
  hash = "";
}

-- A counter that stands just below the wrap.
abbrev pub full : Metrics
full = record { id = "Hits"; m_type = counter; delta = some (2 ^ 64 - 1); value = none; hash = "" }

abbrev pub batch : List Metrics
batch = hits ∷ temperature ∷ full ∷ []

-- A storage after a save and a batch that is refused for its second metric.
abbrev pub calls : List Call
calls =
    save background hits
    ∷ save_batch background (temperature ∷ record hits { delta = none } ∷ [])
    ∷ save background temperature
    ∷ []

abbrev pub stocked : MemoryStorage
stocked = serve_all calls new_memory_storage

pub stocked-IsConsistent : IsConsistent stocked
stocked-IsConsistent = serve_all-IsConsistent calls new_memory_storage new-IsConsistent

unfoldable pub zeros : ℕ → Bytes
zeros zero = []
zeros (suc n) = 0 ∷ zeros n

-- A toy of the documented shape: blocks of 67 bytes that carry one byte at most.
unfoldable pub toy_encrypt : ℕ → Bytes → Result Bytes
unfolding zeros
toy_encrypt round [] = ok (0 ∷ zeros 66)
toy_encrypt round (x ∷ []) = ok (1 ∷ x ∷ zeros 65)
toy_encrypt round (x ∷ y ∷ rest) = err (message "message too long")

unfoldable pub toy_decrypt : Bytes → Result Bytes
toy_decrypt (zero ∷ rest) = ok []
toy_decrypt (suc n ∷ x ∷ rest) = ok (x ∷ [])
toy_decrypt rest = err (message "decryption error")

abbrev pub public_key : PublicKey
public_key = record { size = 67; encrypt_oaep = toy_encrypt }

abbrev pub private_key : PrivateKey
private_key = record { size = 67; decrypt_oaep = toy_decrypt }

toy_inverse :
    (round : ℕ) (msg : Bytes)
    → length msg + 66 ≤ 67
    → (block : Bytes) × (toy_encrypt round msg ≡ ok block)
      × (length block ≡ 67)
      × (toy_decrypt block ≡ ok msg)
unfolding toy_encrypt toy_decrypt
toy_inverse round [] h = (0 ∷ zeros 66, refl, refl, refl)
toy_inverse round (x ∷ []) h = (1 ∷ x ∷ zeros 65, refl, refl, refl)
toy_inverse round (x ∷ y ∷ rest) h = absurd (omega arith)

pub keys-KeyPair : KeyPair public_key private_key
keys-KeyPair = record { same_size = refl; large = omega arith; inverse = toy_inverse }

abbrev pub library : Library
library = record {
  decode_metric = λ body. ok hits;
  decode_metrics = λ body. ok batch;
  gunzip = λ body. ok body;
  sign_body = λ body key. 7 ∷ body;
  parse_float = λ s. some 42;
  parse_ip = λ s. if bytes_eq s [] then none else some s;
  split_host_port = λ s. some s;
}

abbrev pub handler : Handler
handler = record {
  db = none;
  key = "secret";
  audit = true;
  private_key = some private_key;
  trusted_subnet = some (λ ip. bytes_eq ip (10 ∷ []));
}

-- The same without decryption.
abbrev pub open_handler : Handler
open_handler = record handler { private_key = none }

abbrev pub post : Request
post = record {
  method = "POST";
  metric_type = counter;
  metric_name = "Hits";
  metric_value = 52 ∷ 50 ∷ [];
  body = ok (1 ∷ 2 ∷ []);
  header = λ name. if str_eq name "HashSHA256" then 7 ∷ 1 ∷ 2 ∷ [] else 9 ∷ [];
  remote_addr = 9 ∷ [];
  seconds = 5;
  context = background;
}

abbrev pub idle : World MemoryStorage
idle = record { state = stocked; calls = []; published = []; crashed = false }
