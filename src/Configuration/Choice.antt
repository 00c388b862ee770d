-- ===== src/Configuration/Choice.antt =====
-- Which source of the agent's configuration wins, cmd/agent/flags.go.
use go_yandex_metrics.Base.{
  ℕ, String, ◌≡◌, refl, subst, ◌≢◌, ◌⊎◌, inl, inr, Option, none, some, [], ◌∷◌, arith, str_eq_iff,
}
use go_yandex_metrics.Configuration.{or_else}
use go_yandex_metrics.Configuration.Precedence.{first_of, IsSeconds, whole_seconds}
use go_yandex_metrics.Configuration.Agent.{
  FlagConfig, Settings, FileConfig, Inputs, file_interval, set_variables, apply_file,
  apply_file_config, parse_config_path, with_scheme, parse_rest, parse_flags,
}

-- The configuration of four sources, the command line first, then the environment, the file and the
-- defaults.
abbrev pub chosen : Settings → Settings → FileConfig → Option ℕ → Option ℕ → String → FlagConfig
chosen flags env f poll report path = record {
  external_address =
      with_scheme (
        first_of (flags.external_address ∷ env.external_address ∷ f.address ∷ []) "localhost:8080");
  poll_interval = first_of (flags.poll_interval ∷ env.poll_interval ∷ poll ∷ []) 2;
  report_interval = first_of (flags.report_interval ∷ env.report_interval ∷ report ∷ []) 10;
  key = first_of (flags.key ∷ env.key ∷ f.key ∷ []) "";
  rate_limit = first_of (flags.rate_limit ∷ env.rate_limit ∷ f.rate_limit ∷ []) 1;
  crypto_key = first_of (flags.crypto_key ∷ env.crypto_key ∷ f.crypto_key ∷ []) "";
  grpc_address = first_of (flags.grpc_address ∷ env.grpc_address ∷ f.grpc_address ∷ []) "";
  grpc_cert_file = first_of (flags.grpc_cert_file ∷ env.grpc_cert_file ∷ f.grpc_cert_file ∷ []) "";
  grpc_server_name =
      first_of (flags.grpc_server_name ∷ env.grpc_server_name ∷ f.grpc_server_name ∷ []) "";
  config = first_of (flags.config ∷ env.config ∷ []) path;
}

file_interval-or_else :
    (parse_duration : String → Option ℕ) (name : String) (o : Option String) (seconds : Option ℕ)
    (old : ℕ)
    → IsSeconds parse_duration o seconds
    → file_interval parse_duration name o old ≡ inr (or_else seconds old)
unfolding file_interval
file_interval-or_else parse_duration name none none old s = refl
file_interval-or_else parse_duration name (some text) (some n) old s =
    whole_seconds parse_duration name text n s
file_interval-or_else parse_duration name none (some n) old s = absurd s
file_interval-or_else parse_duration name (some text) none old s = absurd s

-- A file that sets nothing.
abbrev pub no_file : FileConfig
no_file = record {
  address = none;
  poll_interval = none;
  report_interval = none;
  key = none;
  rate_limit = none;
  crypto_key = none;
  grpc_address = none;
  grpc_cert_file = none;
  grpc_server_name = none;
}

-- What the file sets: nothing where no path is named, or what is read at the path.
abbrev pub Reads : Inputs → String → FileConfig → Type 0
Reads i path f = ((path ≡ "") × (f ≡ no_file)) ⊎ ((path ≢ "") × (i.read_json path ≡ inr f))

with_file :
    (i : Inputs) (flags env : Settings) (f : FileConfig) (poll report : Option ℕ) (path : String)
    → i.command_line ≡ inr flags
    → i.environment ≡ inr env
    → or_else flags.config i.config_variable ≡ path
    → path ≢ ""
    → i.read_json path ≡ inr f
    → IsSeconds i.parse_duration f.poll_interval poll
    → IsSeconds i.parse_duration f.report_interval report
    → parse_flags i ≡ inr (chosen flags env f poll report path)
unfolding parse_flags parse_config_path apply_file_config apply_file parse_rest set_variables
with_file i flags env f poll report path cl en at ne read p r = ground (
  arith,
  cl,
  en,
  at,
  str_eq_iff path "",
  read,
  file_interval-or_else i.parse_duration "poll_interval" f.poll_interval poll 2 p,
  file_interval-or_else i.parse_duration "report_interval" f.report_interval report 10 r,
)

without_file :
    (i : Inputs) (flags env : Settings) (f : FileConfig) (poll report : Option ℕ) (path : String)
    → i.command_line ≡ inr flags
    → i.environment ≡ inr env
    → or_else flags.config i.config_variable ≡ path
    → path ≡ ""
    → f ≡ no_file
    → IsSeconds i.parse_duration none poll
    → IsSeconds i.parse_duration none report
    → parse_flags i ≡ inr (chosen flags env f poll report path)
unfolding parse_flags parse_config_path parse_rest set_variables
without_file i flags env f none none path cl en at e h p r =
    rw h (ground (arith, cl, en, at, str_eq_iff path "", e))
without_file i flags env f (some n) report path cl en at e h p r = absurd p
without_file i flags env f none (some n) path cl en at e h p r = absurd r

-- With a command line and an environment that parse, and either no path of a file or a file that
-- reads, with intervals that are absent or a positive whole number of seconds, the agent starts with
-- each variable from the first source that sets it, the command line, the environment, the file or
-- the default, and with a scheme before its address. Without a path the file sets nothing.
pub parse_agent_flags-eq-chosen :
    (i : Inputs) (flags env : Settings) (f : FileConfig) (poll report : Option ℕ) (path : String)
    → i.command_line ≡ inr flags
    → i.environment ≡ inr env
    → or_else flags.config i.config_variable ≡ path
    → Reads i path f
    → IsSeconds i.parse_duration f.poll_interval poll
    → IsSeconds i.parse_duration f.report_interval report
    → parse_flags i ≡ inr (chosen flags env f poll report path)
parse_agent_flags-eq-chosen i flags env f poll report path cl en at (inr (ne, read)) p r =
    with_file i flags env f poll report path cl en at ne read p r
parse_agent_flags-eq-chosen i flags env f poll report path cl en at (inl (e, h)) p r =
    without_file i flags env f poll report path cl en at e h
      (subst (λ (x : FileConfig). IsSeconds i.parse_duration x.poll_interval poll) h p)
      (subst (λ (x : FileConfig). IsSeconds i.parse_duration x.report_interval report) h r)
