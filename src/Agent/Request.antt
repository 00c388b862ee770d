-- ===== src/Agent/Request.antt =====
-- The request of the agent is one that the server reads.
use go_yandex_metrics.Base.{
  String, ◌≡◌, refl, sym, ◌∙◌, ◌≢◌, ◌⊎◌, inl, inr, true, false, Option, none, some, arith, str_eq,
  str_eq_iff, Bool-cases, ok,
}
use go_yandex_metrics.Base.Text.{Bytes, bytes_eq, bytes_eq_iff}
use go_yandex_metrics.Crypto.{PublicKey, PrivateKey, decrypt}
use go_yandex_metrics.Crypto.RoundTrip.{KeyPair}
use go_yandex_metrics.Crypto.RoundTrip.{decrypt-encrypt}
use go_yandex_metrics.Handler.Http.{Request, Library, Handler}
use go_yandex_metrics.Handler.Body.{
  header_name, is_gzip_body, read_and_verify_request_body, verify_signature,
}
use go_yandex_metrics.Agent.{request_body, request_header}

-- The keys of an agent and of a server fit: both without encryption, or a pair.
abbrev pub Paired : Option PublicKey → Option PrivateKey → Type 0
Paired none none = Unit
Paired (some pk) (some sk) = KeyPair pk sk
Paired none (some sk) = ⊥
Paired (some pk) none = ⊥

module _ (lib : Library) where
  -- The request has the body and the headers that the agent sets.
  abbrev pub Carries : Request → Option PublicKey → String → Bytes → Bytes → Type 0
  Carries req pk key host_ip body =
      (req.body ≡ request_body pk body)
      × ((name : String) → req.header name ≡ request_header lib.sign_body key host_ip body name)

  signed_header :
      (key : String) (host_ip body : Bytes)
      → key ≢ ""
      → request_header lib.sign_body key host_ip body header_name ≡ lib.sign_body body key
  unfolding request_header
  signed_header key host_ip body ne = ground (arith, str_eq_iff key "")

  -- The signature is not looked at, or fits.
  Signed : Handler → Request → Bytes → Type 0
  Signed h req body =
      (str_eq h.key "" ≡ true)
      ⊎ (bytes_eq (lib.sign_body body h.key) (req.header header_name) ≡ true)

  header-Signed :
      (h : Handler) (req : Request) (pk : Option PublicKey) (host_ip body : Bytes)
      → Carries req pk h.key host_ip body
      → Signed h req body
  unfolding Signed
  header-Signed h req pk host_ip body carries = elim (Bool-cases (str_eq h.key "")) [
    | inl keyless ↦ inl keyless
    | inr keyed ↦ inr (
        (bytes_eq_iff (lib.sign_body body h.key) (req.header header_name)).1 (
          sym (
            carries.1 header_name
            ∙ signed_header h.key host_ip body (λ e. ground (arith, keyed, str_eq_iff h.key "")))))
  ]

  read_open :
      (h : Handler) (req : Request) (body : Bytes)
      → h.private_key ≡ none
      → req.body ≡ ok body
      → is_gzip_body body ≡ false
      → Signed h req body
      → read_and_verify_request_body lib h req ≡ ok body
  unfolding read_and_verify_request_body verify_signature Signed
  read_open h req body no_key there plain (inl keyless) =
      ground (arith, no_key, there, plain, keyless)
  read_open h req body no_key there plain (inr fits) = ground (arith, no_key, there, plain, fits)

  read_sealed :
      (h : Handler) (req : Request) (sk : PrivateKey) (body sealed : Bytes)
      → h.private_key ≡ some sk
      → req.body ≡ ok sealed
      → decrypt (some sk) sealed ≡ ok body
      → is_gzip_body body ≡ false
      → Signed h req body
      → read_and_verify_request_body lib h req ≡ ok body
  unfolding read_and_verify_request_body verify_signature Signed
  read_sealed h req sk body sealed key there opens plain (inl keyless) =
      ground (arith, key, there, opens, plain, keyless)
  read_sealed h req sk body sealed key there opens plain (inr fits) =
      ground (arith, key, there, opens, plain, fits)

  read_cases :
      (h : Handler) (req : Request) (pk : Option PublicKey) (sk : Option PrivateKey)
      (body host_ip : Bytes)
      → h.private_key ≡ sk
      → Paired pk sk
      → is_gzip_body body ≡ false
      → Carries req pk h.key host_ip body
      → read_and_verify_request_body lib h req ≡ ok body
  unfolding request_body
  read_cases h req none none body host_ip key pair plain carries =
      read_open h req body key carries.0 plain (header-Signed h req none host_ip body carries)
  read_cases h req (some pk) (some sk) body host_ip key pair plain carries =
      let (sealed, seals, opens) = decrypt-encrypt pk sk body pair in
      read_sealed h req sk body sealed key (ground (arith, carries.0, seals)) opens plain
        (header-Signed h req (some pk) host_ip body carries)
  read_cases h req none (some sk) body host_ip key pair plain carries = absurd pair
  read_cases h req (some pk) none body host_ip key pair plain carries = absurd pair

  -- A request of `SendRequestToServer`, from an agent whose keys fit those of the server and whose
  -- signing key is the server's, is read by the server as the body that the agent encoded, with or
  -- without encryption and with or without a signing key. The body must not begin like a gzip
  -- stream, which JSON does not.
  pub agent_request_is_read :
      (h : Handler) (req : Request) (pk : Option PublicKey) (body host_ip : Bytes)
      → Paired pk h.private_key
      → is_gzip_body body ≡ false
      → Carries req pk h.key host_ip body
      → read_and_verify_request_body lib h req ≡ ok body
  agent_request_is_read h req pk body host_ip pair plain carries =
      read_cases h req pk h.private_key body host_ip refl pair plain carries
