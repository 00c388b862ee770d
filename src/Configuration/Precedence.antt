-- ===== src/Configuration/Precedence.antt =====
-- Which source of the configuration wins, cmd/server/flags.go.
use go_yandex_metrics.Base.{
  ℕ, ◌*◌, ◌^◌, ◌<◌, String, ◌≡◌, refl, subst, ◌≢◌, ◌⊎◌, inl, inr, true, Option, none, some, List,
  [], ◌∷◌, arith, str_eq_iff,
}
use go_yandex_metrics.Configuration.{
  file_interval, FlagConfig, Settings, FileConfig, Inputs, or_else, duration_seconds, set_variables,
  apply_file, apply_file_config, parse_config_path, parse_rest, parse_flags,
}

-- The first of the sources that sets a variable, or its default.
abbrev pub first_of {ℓ} : {A : Type ℓ} → List (Option A) → A → A
first_of [] default = default
first_of (o ∷ os) default = or_else o (first_of os default)

-- The configuration of four sources, the command line first, then the environment (where
-- STORE_FILE stands before FILE_STORAGE_PATH), then the file, then the defaults.
abbrev pub chosen :
    Settings → Settings → Option String → FileConfig → Option ℕ → String → FlagConfig
chosen flags env store_file f seconds path = record {
  run_address = first_of (flags.run_address ∷ env.run_address ∷ f.address ∷ []) "localhost:8080";
  interval = first_of (flags.interval ∷ env.interval ∷ seconds ∷ []) 300;
  storage_path =
      first_of (flags.storage_path ∷ store_file ∷ env.storage_path ∷ f.store_file ∷ [])
        "storage.json";
  is_restore = first_of (flags.is_restore ∷ env.is_restore ∷ f.restore ∷ []) true;
  database_dsn = first_of (flags.database_dsn ∷ env.database_dsn ∷ f.database_dsn ∷ []) "";
  key = first_of (flags.key ∷ env.key ∷ f.key ∷ []) "";
  audit_file = first_of (flags.audit_file ∷ env.audit_file ∷ f.audit_file ∷ []) "";
  audit_url = first_of (flags.audit_url ∷ env.audit_url ∷ f.audit_url ∷ []) "";
  crypto_key = first_of (flags.crypto_key ∷ env.crypto_key ∷ f.crypto_key ∷ []) "";
  trusted_subnet = first_of (flags.trusted_subnet ∷ env.trusted_subnet ∷ f.trusted_subnet ∷ []) "";
  grpc_address = first_of (flags.grpc_address ∷ env.grpc_address ∷ f.grpc_address ∷ []) "";
  grpc_cert_file = first_of (flags.grpc_cert_file ∷ env.grpc_cert_file ∷ f.grpc_cert_file ∷ []) "";
  grpc_key_file = first_of (flags.grpc_key_file ∷ env.grpc_key_file ∷ f.grpc_key_file ∷ []) "";
  config = first_of (flags.config ∷ env.config ∷ []) path;
}

-- The interval of a file: absent, or a positive whole number of seconds.
abbrev pub IsSeconds : (String → Option ℕ) → Option String → Option ℕ → Type 0
IsSeconds parse_duration none none = Unit
IsSeconds parse_duration (some text) (some n) =
    (0 < n) × (n * 1000000000 < 2 ^ 63) × (parse_duration text ≡ some (n * 1000000000))
IsSeconds parse_duration none (some n) = ⊥
IsSeconds parse_duration (some text) none = ⊥

pub whole_seconds :
    (parse_duration : String → Option ℕ) (name text : String) (n : ℕ)
    → IsSeconds parse_duration (some text) (some n)
    → duration_seconds parse_duration name text ≡ inr n
unfolding duration_seconds
whole_seconds parse_duration name text n (pos, small, parsed) = ground (arith, pos, small, parsed)

file_interval-or_else :
    (parse_duration : String → Option ℕ) (o : Option String) (seconds : Option ℕ) (old : ℕ)
    → IsSeconds parse_duration o seconds
    → file_interval parse_duration o old ≡ inr (or_else seconds old)
unfolding file_interval
file_interval-or_else parse_duration none none old s = refl
file_interval-or_else parse_duration (some text) (some n) old s =
    whole_seconds parse_duration "store_interval" text n s
file_interval-or_else parse_duration none (some n) old s = absurd s
file_interval-or_else parse_duration (some text) none old s = absurd s

-- A file that sets nothing.
abbrev pub no_file : FileConfig
no_file = record {
  address = none;
  restore = none;
  store_interval = none;
  store_file = none;
  database_dsn = none;
  key = none;
  audit_file = none;
  audit_url = none;
  crypto_key = none;
  trusted_subnet = none;
  grpc_address = none;
  grpc_cert_file = none;
  grpc_key_file = none;
}

-- What the file sets: nothing where no path is named, or what is read at the path.
abbrev pub Reads : Inputs → String → FileConfig → Type 0
Reads i path f = ((path ≡ "") × (f ≡ no_file)) ⊎ ((path ≢ "") × (i.read_json path ≡ inr f))

with_file :
    (i : Inputs) (flags env : Settings) (f : FileConfig) (seconds : Option ℕ) (path : String)
    → i.command_line ≡ inr flags
    → i.environment ≡ inr env
    → or_else flags.config i.config_variable ≡ path
    → path ≢ ""
    → i.read_json path ≡ inr f
    → IsSeconds i.parse_duration f.store_interval seconds
    → parse_flags i ≡ inr (chosen flags env i.store_file_variable f seconds path)
unfolding parse_flags parse_config_path apply_file_config apply_file parse_rest set_variables
with_file i flags env f seconds path cl en at ne read s = ground (
  arith,
  cl,
  en,
  at,
  str_eq_iff path "",
  read,
  file_interval-or_else i.parse_duration f.store_interval seconds 300 s,
)

without_file :
    (i : Inputs) (flags env : Settings) (path : String)
    → i.command_line ≡ inr flags
    → i.environment ≡ inr env
    → or_else flags.config i.config_variable ≡ path
    → path ≡ ""
    → parse_flags i ≡ inr (chosen flags env i.store_file_variable no_file none path)
unfolding parse_flags parse_config_path parse_rest set_variables
without_file i flags env path cl en at e = ground (arith, cl, en, at, str_eq_iff path "", e)

-- With a command line and an environment that parse, and either no path of a file or a file that
-- reads, with no interval or a positive whole number of seconds, the server starts with each variable
-- from the first source that sets it: command line, environment (STORE_FILE before
-- FILE_STORAGE_PATH), file, default. Without a path the file sets nothing.
pub parse_flags-eq-chosen :
    (i : Inputs) (flags env : Settings) (f : FileConfig) (seconds : Option ℕ) (path : String)
    → i.command_line ≡ inr flags
    → i.environment ≡ inr env
    → or_else flags.config i.config_variable ≡ path
    → Reads i path f
    → IsSeconds i.parse_duration f.store_interval seconds
    → parse_flags i ≡ inr (chosen flags env i.store_file_variable f seconds path)
parse_flags-eq-chosen i flags env f seconds path cl en at (inr (ne, read)) s =
    with_file i flags env f seconds path cl en at ne read s
parse_flags-eq-chosen i flags env f (some n) path cl en at (inl (e, h)) s =
    absurd (subst (λ (x : FileConfig). IsSeconds i.parse_duration x.store_interval (some n)) h s)
parse_flags-eq-chosen i flags env f none path cl en at (inl (e, h)) s =
    rw h (without_file i flags env path cl en at e)
