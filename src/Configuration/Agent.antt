-- ===== src/Configuration/Agent.antt =====
-- cmd/agent/flags.go: the configuration of the agent, over the same readers of the command line, the
-- environment and the file as that of the server.
use Prim.Native.String as Text
use text.Mathlib.Text.{starts_with}
use go_yandex_metrics.Base.{
  ℕ, String, ◌⊎◌, inl, inr, not, ◌&&◌, Option, none, some, if◌then◌else◌, str_eq, Error,
}
use go_yandex_metrics.Configuration.{or_else, duration_seconds}

-- `FlagConfig`
pub record FlagConfig : Type 0 where
  pub external_address : String
  pub poll_interval : ℕ
  pub report_interval : ℕ
  pub key : String
  pub rate_limit : ℕ
  pub crypto_key : String
  pub grpc_address : String
  pub grpc_cert_file : String
  pub grpc_server_name : String
  pub config : String

-- The variables that the command line or the environment sets.
pub record Settings : Type 0 where
  pub external_address : Option String
  pub poll_interval : Option ℕ
  pub report_interval : Option ℕ
  pub key : Option String
  pub rate_limit : Option ℕ
  pub crypto_key : Option String
  pub grpc_address : Option String
  pub grpc_cert_file : Option String
  pub grpc_server_name : Option String
  pub config : Option String

-- `fileConfig`
pub record FileConfig : Type 0 where
  pub address : Option String
  pub poll_interval : Option String
  pub report_interval : Option String
  pub key : Option String
  pub rate_limit : Option ℕ
  pub crypto_key : Option String
  pub grpc_address : Option String
  pub grpc_cert_file : Option String
  pub grpc_server_name : Option String

-- What the program reads: the command line, the environment and CONFIG, and the files. Each of the
-- two passes over the command line gives the same settings or fails.
pub record Inputs : Type 0 where
  pub command_line : Error ⊎ Settings
  pub environment : Error ⊎ Settings
  pub config_variable : String
  pub read_json : String → Error ⊎ FileConfig
  pub parse_duration : String → Option ℕ

-- The defaults of `parseFlags`.
abbrev pub default_config : FlagConfig
default_config = record {
  external_address = "localhost:8080";
  poll_interval = 2;
  report_interval = 10;
  key = "";
  rate_limit = 1;
  crypto_key = "";
  grpc_address = "";
  grpc_cert_file = "";
  grpc_server_name = "";
  config = "";
}

-- `registerFlags` with the parsing, and `env.Parse`: what is not set stays.
unfoldable pub set_variables : Settings → FlagConfig → FlagConfig
set_variables v cfg = record {
  external_address = or_else v.external_address cfg.external_address;
  poll_interval = or_else v.poll_interval cfg.poll_interval;
  report_interval = or_else v.report_interval cfg.report_interval;
  key = or_else v.key cfg.key;
  rate_limit = or_else v.rate_limit cfg.rate_limit;
  crypto_key = or_else v.crypto_key cfg.crypto_key;
  grpc_address = or_else v.grpc_address cfg.grpc_address;
  grpc_cert_file = or_else v.grpc_cert_file cfg.grpc_cert_file;
  grpc_server_name = or_else v.grpc_server_name cfg.grpc_server_name;
  config = or_else v.config cfg.config;
}

-- An interval of `applyFileConfig`, under its name.
unfoldable pub file_interval : (String → Option ℕ) → String → Option String → ℕ → Error ⊎ ℕ
file_interval parse_duration name none old = inr old
file_interval parse_duration name (some text) old = duration_seconds parse_duration name text

-- `applyFileConfig` after the file has been read; an error leaves no configuration to start with.
unfoldable pub apply_file : (String → Option ℕ) → FileConfig → FlagConfig → Error ⊎ FlagConfig
apply_file parse_duration f cfg =
    elim (file_interval parse_duration "poll_interval" f.poll_interval cfg.poll_interval) [
      | inl e ↦ inl e
      | inr poll ↦
          elim (file_interval parse_duration "report_interval" f.report_interval
            cfg.report_interval) [
              | inl e ↦ inl e
              | inr report ↦ inr (record {
                external_address = or_else f.address cfg.external_address;
                poll_interval = poll;
                report_interval = report;
                key = or_else f.key cfg.key;
                rate_limit = or_else f.rate_limit cfg.rate_limit;
                crypto_key = or_else f.crypto_key cfg.crypto_key;
                grpc_address = or_else f.grpc_address cfg.grpc_address;
                grpc_cert_file = or_else f.grpc_cert_file cfg.grpc_cert_file;
                grpc_server_name = or_else f.grpc_server_name cfg.grpc_server_name;
                config = cfg.config;
              })
            ]
    ]

unfoldable pub apply_file_config : Inputs → FlagConfig → Error ⊎ FlagConfig
unfolding apply_file
apply_file_config i cfg = elim (i.read_json cfg.config) [
  | inl e ↦ inl e
  | inr f ↦ apply_file i.parse_duration f cfg
]

-- `parseConfigPath`
unfoldable pub parse_config_path : Inputs → Error ⊎ String
parse_config_path i = elim i.command_line [
  | inl e ↦ inl e
  | inr flags ↦ inr (or_else flags.config i.config_variable)
]

-- The end of `parseFlags`: an address without a scheme gets one.
unfoldable pub with_scheme : String → String
with_scheme address =
    if not (starts_with address "http://") && not (starts_with address "https://")
    then Text.◌++◌ "http://" address
    else address

-- `parseFlags` after the file: the environment, and the command line once more.
unfoldable pub parse_rest : Inputs → FlagConfig → Error ⊎ FlagConfig
unfolding set_variables
parse_rest i cfg = elim i.environment [
  | inl e ↦ inl e
  | inr env ↦ elim i.command_line [
    | inl e ↦ inl e
    | inr flags ↦
        let cfg' = set_variables flags (set_variables env cfg) in
        inr (record cfg' { external_address = with_scheme cfg'.external_address })
  ]
]

-- `parseFlags`
unfoldable pub parse_flags : Inputs → Error ⊎ FlagConfig
unfolding parse_rest apply_file_config
parse_flags i = elim (parse_config_path i) [
  | inl e ↦ inl e
  | inr path ↦
      let cfg : FlagConfig = record default_config { config = path } in
      if str_eq path ""
      then parse_rest i cfg
      else elim (apply_file_config i cfg) [ inl e ↦ inl e | inr cfg' ↦ parse_rest i cfg' ]
]
