-- ===== src/Tests/Sending.antt =====
-- Snapshots that the agent sends, to the storage in memory and to a server that is busy at first.
use go_yandex_metrics.Base.{
  ℕ, ◌+◌, ◌<◌, ◌≡◌, refl, ◌⊎◌, inl, inr, Bool, false, message, Option, none, some, List, [], ◌∷◌,
  arith, ltb, if◌then◌else◌, length, Error, ok,
}
use mathlib.Core.List.Permᴰ
use go_yandex_metrics.Base.Text.{Bytes}
use go_yandex_metrics.Repository.Memory.Promised.{memory_storage, memory-Promises}
use go_yandex_metrics.Grpc.{Code, internal}
use go_yandex_metrics.Base.Int64.{word_mod}
use go_yandex_metrics.Crypto.{PublicKey}
use go_yandex_metrics.Agent.{
  AgentMetrics, Sample, payload_of, send_unsent_metrics, collect, collect_all, has_unsent,
  mark_sent,
}
use go_yandex_metrics.Agent.Run.{
  AgentStartup, Arguments, Task, collecting, sending, run_agent, agent_key, agent_client, run_loop,
  run_tasks, send_last,
}
use go_yandex_metrics.Agent.Stops.{AgentEnds, run_agent-delivers_last}
use go_yandex_metrics.Agent.Backed.{collections}
use go_yandex_metrics.Agent.Table.{MemStats, Entry, build_mem_metrics, ParsesFloats}
use go_yandex_metrics.Agent.Proto.{
  metrics_to_proto_request, SameMetrics, metrics_to_proto_request-SameMetrics,
}
use go_yandex_metrics.Agent.Delivery.{Delivers, metrics_to_proto_request-Delivers}
use go_yandex_metrics.Agent.Sending.{HttpPost, HttpResponse, Client, send_all_metrics_with_retry}
use go_yandex_metrics.Agent.Attempts.{PostEnds, send_all_metrics_with_retry-PostEnds}
use go_yandex_metrics.Tests.Data.{stocked, stocked-IsConsistent}

abbrev statistics : MemStats
statistics = record {
  alloc = 1;
  buck_hash_sys = 2;
  frees = 3;
  gc_cpu_fraction = 4;
  gc_sys = 5;
  heap_alloc = 6;
  heap_idle = 7;
  heap_inuse = 8;
  heap_objects = 9;
  heap_released = 10;
  heap_sys = 11;
  last_gc = 12;
  lookups = 13;
  m_cache_inuse = 14;
  m_cache_sys = 15;
  m_span_inuse = 16;
  m_span_sys = 17;
  mallocs = 18;
  next_gc = 19;
  num_forced_gc = 20;
  num_gc = 21;
  other_sys = 22;
  pause_total_ns = 23;
  stack_inuse = 24;
  stack_sys = 25;
  sys = 26;
  total_alloc = 27;
}

abbrev snapshot : AgentMetrics MemStats
snapshot = record {
  poll_count = 2;
  mem_stats = statistics;
  random_value = 28;
  total_memory = 29;
  free_memory = 30;
  cpu_utilization = 31 ∷ 32 ∷ [];
}

abbrev parse_float : Bytes → Option ℕ
parse_float s = some (length s)

abbrev format_float : ℕ → Bytes
format_float n = n ∷ []

floats : ParsesFloats parse_float format_float
floats = record { of_uint = λ n. (_, refl); of_float = λ x. (_, refl) }

abbrev context_code : Error → Code
context_code e = internal

consistent : memory-Promises.IsConsistent stocked
unfolding memory-Promises
consistent = stocked-IsConsistent

metrics_to_proto_request-Delivers_example :
    Delivers memory_storage memory-Promises context_code parse_float format_float stocked 2
      (metrics_to_proto_request parse_float (build_mem_metrics format_float snapshot))
metrics_to_proto_request-Delivers_example =
    metrics_to_proto_request-Delivers memory_storage memory-Promises context_code parse_float
      format_float snapshot (build_mem_metrics format_float snapshot) stocked floats (λ e h. cc h)
      consistent (omega arith) (omega arith) ∣ Permᴰ.refl _ ∣₁

abbrev table : List Entry
table = ("Hits", "counter", 51 ∷ []) ∷ ("Alloc", "gauge", 55 ∷ []) ∷ []

metrics_to_proto_request-SameMetrics_example :
    SameMetrics (payload_of parse_float table) (metrics_to_proto_request parse_float table)
metrics_to_proto_request-SameMetrics_example =
    metrics_to_proto_request-SameMetrics parse_float table refl

-- The server is busy twice; the world counts its answers.
answer : HttpPost → ℕ → (Error ⊎ HttpResponse) × ℕ
answer post n = (
  inr (record {
    status_code = if ltb n 2 then 503 else 200;
    content_encoding = "";
    body = ok (79 ∷ 75 ∷ []);
  }),
  n + 1,
)

abbrev client : Client ℕ
client = record {
  marshal = λ ms. inr (91 ∷ 93 ∷ []);
  sign_body = λ body key. body;
  gunzip = λ body. ok body;
  new_request = none;
  call = answer;
}

send_all_metrics_with_retry-PostEnds_example :
    PostEnds client
      (λ e. false)
      parse_float
      (λ n. table)
      ""
      none
      []
      0
      (send_all_metrics_with_retry client (λ e. false) parse_float (λ n. table) "" none [] 0)
send_all_metrics_with_retry-PostEnds_example =
    send_all_metrics_with_retry-PostEnds client (λ e. false) parse_float (λ n. table) "" none [] 0

-- An agent whose first delivery fails, while it collects once more.
abbrev sample : Sample MemStats
sample = record { memory = inr none; cpu = inr (5 ∷ []); mem_stats = statistics; random = 6 }

abbrev agent_startup : AgentStartup
agent_startup = record {
  load_public_key = λ path. inl (message "no file");
  load_client_credentials = λ cert name. none;
  new_client = λ address. none;
}

abbrev arguments : Arguments
arguments = record {
  poll_count = 2;
  report_interval = 10;
  rate_limit = 1;
  crypto_key_path = "";
  grpc = none;
}

deliver : Option PublicKey → Bool → AgentMetrics MemStats → ℕ → Option Error × ℕ
deliver key by_grpc m n = (if ltb n 1 then some (message "busy") else none, n + 1)

abbrev tasks : List Task
tasks = collecting sample ∷ sending (sample ∷ []) ∷ []

collects : collections tasks < word_mod
unfolding collections
collects = omega arith

returns : (run_agent deliver agent_startup arguments false tasks 0).0 ≡ some (ok tt)
unfolding run_agent agent_key agent_client run_loop run_tasks send_last deliver send_unsent_metrics
    collect collect_all has_unsent mark_sent
returns = refl

run_agent-delivers_last_example :
    AgentEnds deliver agent_startup arguments tasks
      (run_agent deliver agent_startup arguments false tasks 0).1
run_agent-delivers_last_example =
    run_agent-delivers_last deliver agent_startup arguments tasks 0 collects returns
