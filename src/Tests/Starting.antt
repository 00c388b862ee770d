-- ===== src/Tests/Starting.antt =====
-- The configuration of a server with a file, an environment and a command line.
use go_yandex_metrics.Base.{◌≡◌, refl, inr, true, false, none, some, arith}
use go_yandex_metrics.Configuration.Agent
use go_yandex_metrics.Configuration.Choice
use go_yandex_metrics.Server.{
  Startup, Setup, ready, start_subnet, start_key, start_storage, start_grpc, start_server,
}
use go_yandex_metrics.Server.Start.{IsConfigured, start_server-IsConfigured}
use go_yandex_metrics.Tests.Data.{private_key}
use go_yandex_metrics.Configuration.{
  FlagConfig, default_config, Settings, FileConfig, Inputs, parse_flags,
}
use go_yandex_metrics.Configuration.Precedence.{chosen, parse_flags-eq-chosen}

abbrev unset : Settings
unset = record {
  run_address = none;
  interval = none;
  storage_path = none;
  is_restore = none;
  database_dsn = none;
  key = none;
  audit_file = none;
  audit_url = none;
  crypto_key = none;
  trusted_subnet = none;
  grpc_address = none;
  grpc_cert_file = none;
  grpc_key_file = none;
  config = none;
}

abbrev flags : Settings
flags = record unset { key = some "from flags"; config = some "server.json" }

abbrev variables : Settings
variables = record unset { key = some "from environment"; storage_path = some "old.json" }

abbrev file : FileConfig
file = record {
  address = some "localhost:9090";
  restore = some false;
  store_interval = some "1m";
  store_file = some "file.json";
  database_dsn = none;
  key = some "from file";
  audit_file = some "audit.log";
  audit_url = none;
  crypto_key = none;
  trusted_subnet = none;
  grpc_address = none;
  grpc_cert_file = none;
  grpc_key_file = none;
}

abbrev inputs : Inputs
inputs = record {
  command_line = inr flags;
  environment = inr variables;
  config_variable = "other.json";
  store_file_variable = some "new.json";
  read_json = λ path. inr file;
  parse_duration = λ text. some 60000000000;
}

-- The key is that of the command line, the storage that of STORE_FILE, the address that of the file.
summary :
    ((chosen flags variables (some "new.json") file (some 60) "server.json").key ≡ "from flags")
    × ((chosen flags variables (some "new.json") file (some 60) "server.json").storage_path
        ≡ "new.json")
    × ((chosen flags variables (some "new.json") file (some 60) "server.json").run_address
        ≡ "localhost:9090")
summary = (refl, refl, refl)

parse_flags-eq-chosen_example :
    parse_flags inputs ≡ inr (chosen flags variables (some "new.json") file (some 60) "server.json")
parse_flags-eq-chosen_example =
    parse_flags-eq-chosen inputs flags variables file (some 60) "server.json" refl refl refl
      (inr (λ e. cc e, refl)) (omega arith, omega arith, refl)

-- The agent, on the same sources.
abbrev agent_unset : Agent.Settings
agent_unset = record {
  external_address = none;
  poll_interval = none;
  report_interval = none;
  key = none;
  rate_limit = none;
  crypto_key = none;
  grpc_address = none;
  grpc_cert_file = none;
  grpc_server_name = none;
  config = none;
}

abbrev agent_flags : Agent.Settings
agent_flags = record agent_unset { config = some "agent.json"; rate_limit = some 4 }

abbrev agent_variables : Agent.Settings
agent_variables = record agent_unset { rate_limit = some 2; external_address = some "metrics:80" }

abbrev agent_file : Agent.FileConfig
agent_file = record {
  address = some "https://file";
  poll_interval = some "1m";
  report_interval = none;
  key = none;
  rate_limit = some 3;
  crypto_key = some "agent.pem";
  grpc_address = none;
  grpc_cert_file = none;
  grpc_server_name = none;
}

abbrev agent_inputs : Agent.Inputs
agent_inputs = record {
  command_line = inr agent_flags;
  environment = inr agent_variables;
  config_variable = "";
  read_json = λ path. inr agent_file;
  parse_duration = λ text. some 60000000000;
}

parse_agent_flags-eq-chosen_example :
    Agent.parse_flags agent_inputs
    ≡ inr (Choice.chosen agent_flags agent_variables agent_file (some 60) none "agent.json")
parse_agent_flags-eq-chosen_example =
    Choice.parse_agent_flags-eq-chosen agent_inputs agent_flags agent_variables agent_file (some 60)
      none "agent.json" refl refl refl (inr (λ e. cc e, refl)) (omega arith, omega arith, refl) tt

runs_on :
    (Choice.chosen agent_flags agent_variables agent_file
      (some 60)
      none
      "agent.json").external_address
    ≡ "http://metrics:80"
unfolding Agent.with_scheme
runs_on = refl

-- A server in memory, with a subnet and gRPC.
abbrev startup : Startup
startup = record {
  parse_cidr = λ text. inr (λ ip. true);
  load_private_key = λ path. inr private_key;
  sql_open = λ dsn. none;
  with_instance = none;
  new_migration = none;
  up = none;
  load_server_credentials = λ cert key. none;
  listen = λ address. none;
}

abbrev server_config : FlagConfig
server_config = record default_config {
  trusted_subnet = "10.0.0.0/8";
  grpc_address = "localhost:3200";
  grpc_cert_file = "server.crt";
  grpc_key_file = "server.key";
}

abbrev server_setup : Setup
server_setup = record {
  trusted_subnet = some (λ ip. true);
  private_key = none;
  on_database = false;
  key = "";
  audit_file = "";
  audit_url = "";
  has_grpc = true;
  file_storage = some (300, "storage.json", true);
  run_address = "localhost:8080";
}

starts : start_server startup server_config ≡ ready server_setup
unfolding start_server start_subnet start_key start_storage start_grpc
starts = refl

start_server-IsConfigured_example : IsConfigured startup server_config server_setup
start_server-IsConfigured_example =
    start_server-IsConfigured startup server_config server_setup starts
