-- ===== src/Configuration.antt =====
-- internal/config/config.go and cmd/server/flags.go: the configuration of the server. What the flag
-- package makes of the command line, what github.com/caarlos0/env reads of the environment and what
-- encoding/json reads of the file are parameters: the variables that each of them sets.
pub mod Precedence
pub mod Agent
pub mod Choice
use go_yandex_metrics.Base.{
  ℕ, ◌/◌, ◌%◌, ◌^◌, String, ◌⊎◌, inl, inr, Bool, true, not, ◌||◌, Option, none, some, leb, ◌==◌,
  if◌then◌else◌, str_eq, Error, detail,
}

-- `FlagConfig`
pub record FlagConfig : Type 0 where
  pub run_address : String
  pub interval : ℕ
  pub storage_path : String
  pub is_restore : Bool
  pub database_dsn : String
  pub key : String
  pub audit_file : String
  pub audit_url : String
  pub crypto_key : String
  pub trusted_subnet : String
  pub grpc_address : String
  pub grpc_cert_file : String
  pub grpc_key_file : String
  pub config : String

-- The variables that the command line or the environment sets.
pub record Settings : Type 0 where
  pub run_address : Option String
  pub interval : Option ℕ
  pub storage_path : Option String
  pub is_restore : Option Bool
  pub database_dsn : Option String
  pub key : Option String
  pub audit_file : Option String
  pub audit_url : Option String
  pub crypto_key : Option String
  pub trusted_subnet : Option String
  pub grpc_address : Option String
  pub grpc_cert_file : Option String
  pub grpc_key_file : Option String
  pub config : Option String

-- `fileConfig`
pub record FileConfig : Type 0 where
  pub address : Option String
  pub restore : Option Bool
  pub store_interval : Option String
  pub store_file : Option String
  pub database_dsn : Option String
  pub key : Option String
  pub audit_file : Option String
  pub audit_url : Option String
  pub crypto_key : Option String
  pub trusted_subnet : Option String
  pub grpc_address : Option String
  pub grpc_cert_file : Option String
  pub grpc_key_file : Option String

-- What the program reads: the command line, the environment and two of its variables, and the files.
pub record Inputs : Type 0 where
  pub command_line : Error ⊎ Settings
  pub environment : Error ⊎ Settings
  pub config_variable : String
  pub store_file_variable : Option String
  pub read_json : String → Error ⊎ FileConfig
  pub parse_duration : String → Option ℕ

-- A variable that is set, or else what it was.
abbrev pub or_else {ℓ} : {A : Type ℓ} → Option A → A → A
or_else o old = elim o [ none ↦ old | some new ↦ new ]

-- `DurationSeconds` of a duration, an int64 of nanoseconds.
unfoldable pub duration_seconds : (String → Option ℕ) → String → String → Error ⊎ ℕ
duration_seconds parse_duration name value = elim (parse_duration value) [
  | none ↦ inl (detail "parse" name)
  | some duration ↦
      if duration == 0 || leb (2 ^ 63) duration || not (duration % 1000000000 == 0)
      then inl (detail "duration must be a positive whole number of seconds" name)
      else inr (duration / 1000000000)
]

-- The defaults of `parseFlags`.
abbrev pub default_config : FlagConfig
default_config = record {
  run_address = "localhost:8080";
  interval = 300;
  storage_path = "storage.json";
  is_restore = true;
  database_dsn = "";
  key = "";
  audit_file = "";
  audit_url = "";
  crypto_key = "";
  trusted_subnet = "";
  grpc_address = "";
  grpc_cert_file = "";
  grpc_key_file = "";
  config = "";
}

-- `registerFlags` takes the values of the configuration as the flags' defaults, so what the command
-- line does not set stays; the same of the environment.
unfoldable pub set_variables : Settings → FlagConfig → FlagConfig
set_variables v cfg = record {
  run_address = or_else v.run_address cfg.run_address;
  interval = or_else v.interval cfg.interval;
  storage_path = or_else v.storage_path cfg.storage_path;
  is_restore = or_else v.is_restore cfg.is_restore;
  database_dsn = or_else v.database_dsn cfg.database_dsn;
  key = or_else v.key cfg.key;
  audit_file = or_else v.audit_file cfg.audit_file;
  audit_url = or_else v.audit_url cfg.audit_url;
  crypto_key = or_else v.crypto_key cfg.crypto_key;
  trusted_subnet = or_else v.trusted_subnet cfg.trusted_subnet;
  grpc_address = or_else v.grpc_address cfg.grpc_address;
  grpc_cert_file = or_else v.grpc_cert_file cfg.grpc_cert_file;
  grpc_key_file = or_else v.grpc_key_file cfg.grpc_key_file;
  config = or_else v.config cfg.config;
}

-- The interval of `applyFileConfig`.
unfoldable pub file_interval : (String → Option ℕ) → Option String → ℕ → Error ⊎ ℕ
file_interval parse_duration none old = inr old
file_interval parse_duration (some text) old = duration_seconds parse_duration "store_interval" text

-- `applyFileConfig` after the file has been read.
unfoldable pub apply_file : (String → Option ℕ) → FileConfig → FlagConfig → Error ⊎ FlagConfig
apply_file parse_duration f cfg =
    elim (file_interval parse_duration f.store_interval cfg.interval) [
      | inl e ↦ inl e
      | inr seconds ↦ inr (record {
        run_address = or_else f.address cfg.run_address;
        interval = seconds;
        storage_path = or_else f.store_file cfg.storage_path;
        is_restore = or_else f.restore cfg.is_restore;
        database_dsn = or_else f.database_dsn cfg.database_dsn;
        key = or_else f.key cfg.key;
        audit_file = or_else f.audit_file cfg.audit_file;
        audit_url = or_else f.audit_url cfg.audit_url;
        crypto_key = or_else f.crypto_key cfg.crypto_key;
        trusted_subnet = or_else f.trusted_subnet cfg.trusted_subnet;
        grpc_address = or_else f.grpc_address cfg.grpc_address;
        grpc_cert_file = or_else f.grpc_cert_file cfg.grpc_cert_file;
        grpc_key_file = or_else f.grpc_key_file cfg.grpc_key_file;
        config = cfg.config;
      })
    ]

unfoldable pub apply_file_config : Inputs → FlagConfig → Error ⊎ FlagConfig
unfolding apply_file
apply_file_config i cfg = elim (i.read_json cfg.config) [
  | inl e ↦ inl e
  | inr f ↦ apply_file i.parse_duration f cfg
]

-- `parseConfigPath`
unfoldable pub parse_config_path : Inputs → Error ⊎ String
parse_config_path i = elim i.command_line [
  | inl e ↦ inl e
  | inr flags ↦ inr (or_else flags.config i.config_variable)
]

-- `parseFlags` after the file: the environment, STORE_FILE, and the command line once more.
unfoldable pub parse_rest : Inputs → FlagConfig → Error ⊎ FlagConfig
unfolding set_variables
parse_rest i cfg = elim i.environment [
  | inl e ↦ inl e
  | inr env ↦
      let cfg1 = set_variables env cfg in
      let cfg2 : FlagConfig = record cfg1 {
        storage_path = or_else i.store_file_variable cfg1.storage_path;
      } in
      elim i.command_line [ inl e ↦ inl e | inr flags ↦ inr (set_variables flags cfg2) ]
]

-- `parseFlags`
unfoldable pub parse_flags : Inputs → Error ⊎ FlagConfig
unfolding parse_rest apply_file_config
parse_flags i = elim (parse_config_path i) [
  | inl e ↦ inl e
  | inr path ↦
      let cfg : FlagConfig = record default_config { config = path } in
      if str_eq path ""
      then parse_rest i cfg
      else elim (apply_file_config i cfg) [ inl e ↦ inl e | inr cfg' ↦ parse_rest i cfg' ]
]
