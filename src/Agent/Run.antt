-- ===== src/Agent/Run.antt =====
-- `RunAgent` and `hostIP` of internal/agent/agent.go, and the two ways in which a snapshot is
-- delivered. The tasks of the pool stand in the order in which they take effect.
use go_yandex_metrics.Base.{
  ℕ, ◌*◌, ◌%◌, ◌^◌, String, ◌⊎◌, inl, inr, Bool, true, false, not, ◌&&◌, ◌||◌, Option, none, some,
  List, [], ◌∷◌, ltb, leb, ◌==◌, if◌then◌else◌, str_eq, Error, message, wrap, Result, ok, err,
  panic,
}
use go_yandex_metrics.Base.Text.{Bytes}
use go_yandex_metrics.Crypto.{PublicKey}
use go_yandex_metrics.Grpc.{ProtoMetric}
use go_yandex_metrics.Agent.{AgentMetrics, SafeMetrics, Sample, collect, send_unsent_metrics}
use go_yandex_metrics.Agent.Table.{MemStats, Entry, build_mem_metrics}
use go_yandex_metrics.Agent.Sending.{
  Client, StatusCode, send_all_metrics_with_retry, send_all_metrics_grpc_with_retry,
}

-- The error of a call whose result is dropped. A panic of the encryption, which ends the program,
-- stands as an error.
abbrev pub error_of {ℓ} : {A : Type ℓ} → Result A → Option Error
error_of (ok a) = none
error_of (err e) = some e
error_of panic = some (message "panic")

-- `hostIP`, over the addresses of the interfaces as `net.ParseCIDR` reads them.
pub record HostAddress : Type 0 where
  pub is_v4 : Bool
  pub is_loopback : Bool
  pub text : Bytes

unfoldable pub first_address : (HostAddress → Bool) → List (Option HostAddress) → Option Bytes
first_address fits [] = none
first_address fits (none ∷ addresses) = first_address fits addresses
first_address fits (some a ∷ addresses) =
    let rest = first_address fits addresses in if fits a then some a.text else rest

unfoldable pub host_ip : Bytes → Error ⊎ List (Option HostAddress) → Bytes
unfolding first_address
host_ip localhost (inl e) = localhost
host_ip localhost (inr addresses) =
    elim (first_address (λ a. a.is_v4 && not a.is_loopback) addresses) [
      | some ip ↦ ip
      | none ↦ elim (first_address (λ a. not a.is_loopback) addresses) [
        | some ip ↦ ip
        | none ↦ localhost
      ]
    ]

-- The arguments of `RunAgent`; an int64 is its 64-bit pattern, and `grpc` stands for the first of the
-- configurations, if there is one.
pub record GrpcConfig : Type 0 where
  pub address : String
  pub cert_file : String
  pub server_name : String

pub record Arguments : Type 0 where
  pub poll_count : ℕ
  pub report_interval : ℕ
  pub rate_limit : ℕ
  pub crypto_key_path : String
  pub grpc : Option GrpcConfig

-- What `RunAgent` calls before it starts: `LoadPublicKey`, `LoadClientCredentials`, `grpc.NewClient`.
pub record AgentStartup : Type 0 where
  pub load_public_key : String → Error ⊎ PublicKey
  pub load_client_credentials : String → String → Option Error
  pub new_client : String → Option Error

unfoldable pub agent_key : AgentStartup → Arguments → Error ⊎ Option PublicKey
agent_key lib args =
    if str_eq args.crypto_key_path ""
    then inr none
    else elim (lib.load_public_key args.crypto_key_path) [
      | inl e ↦ inl (wrap "load agent crypto key" e)
      | inr key ↦ inr (some key)
    ]

-- Whether the agent sends by gRPC.
unfoldable pub agent_client : AgentStartup → Arguments → Error ⊎ Bool
agent_client lib args = elim args.grpc [
  | none ↦ inr false
  | some config ↦
      if str_eq config.address ""
      then inr false
      else if str_eq config.cert_file ""
      then inl (message "gRPC TLS certificate is required")
      else elim (lib.load_client_credentials config.cert_file config.server_name) [
        | some e ↦ inl (wrap "load gRPC client credentials" e)
        | none ↦ elim (lib.new_client config.address) [
          | some e ↦ inl (wrap "create gRPC client" e)
          | none ↦ inr true
        ]
      ]
]

-- A duration of whole seconds is an int64 of nanoseconds, and `NewTicker` panics unless it is positive.
abbrev pub ticks : ℕ → Bool
ticks seconds = let d = (seconds * 1000000000) % 2 ^ 64 in not (d == 0) && ltb d (2 ^ 63)

-- A task of the pool, when it takes effect: a collection, or a sending with what is collected while it
-- runs.
pub data Task : Type 0 where
  collecting : Sample MemStats → Task
  sending : List (Sample MemStats) → Task

abbrev pub is_empty : List Task → Bool
is_empty [] = true
is_empty (task ∷ tasks) = false

abbrev no_stats : MemStats
no_stats = record {
  alloc = 0;
  buck_hash_sys = 0;
  frees = 0;
  gc_cpu_fraction = 0;
  gc_sys = 0;
  heap_alloc = 0;
  heap_idle = 0;
  heap_inuse = 0;
  heap_objects = 0;
  heap_released = 0;
  heap_sys = 0;
  last_gc = 0;
  lookups = 0;
  m_cache_inuse = 0;
  m_cache_sys = 0;
  m_span_inuse = 0;
  m_span_sys = 0;
  mallocs = 0;
  next_gc = 0;
  num_forced_gc = 0;
  num_gc = 0;
  other_sys = 0;
  pause_total_ns = 0;
  stack_inuse = 0;
  stack_sys = 0;
  sys = 0;
  total_alloc = 0;
}

-- `&SafeMetrics{}`
abbrev pub new_metrics : SafeMetrics MemStats
new_metrics = record {
  current = record {
    poll_count = 0;
    mem_stats = no_stats;
    random_value = 0;
    total_memory = 0;
    free_memory = 0;
    cpu_utilization = [];
  };
  revision = 0;
  sent_revision = 0;
}

module _ {W : Type 0}
    (deliver : Option PublicKey → Bool → AgentMetrics MemStats → W → Option Error × W) where
  -- The tasks of the loop; the errors are logged.
  unfoldable pub run_tasks :
      Option PublicKey → Bool → List Task → SafeMetrics MemStats → W → SafeMetrics MemStats × W
  run_tasks key by_grpc [] m w = (m, w)
  run_tasks key by_grpc (collecting sample ∷ tasks) m w =
      run_tasks key by_grpc tasks (collect MemStats sample m).1 w
  run_tasks key by_grpc (sending during ∷ tasks) m w =
      let (r, m', w') = send_unsent_metrics MemStats (deliver key by_grpc) during m w in
      run_tasks key by_grpc tasks m' w'

  -- The branch of `ctx.Done`, after `pool.Wait`: nothing is collected any more.
  unfoldable pub send_last :
      Option PublicKey
      → Bool
      → SafeMetrics MemStats
      → W
      → Result (Unit {0}) × SafeMetrics MemStats × W
  send_last key by_grpc m w =
      let (r, m', w') = send_unsent_metrics MemStats (deliver key by_grpc) [] m w in
      (elim r.1 [ none ↦ ok tt | some x ↦ err (wrap "send metrics during shutdown" x) ], m', w')

  -- The pool, the tickers and the loop. A negative rate limit or an interval that is not positive
  -- panics; with a rate limit of zero the first task is waited for without end, `none`.
  unfoldable pub run_loop :
      Arguments
      → Option PublicKey
      → Bool
      → List Task
      → SafeMetrics MemStats
      → W
      → Option (Result (Unit {0})) × SafeMetrics MemStats × W
  run_loop args key by_grpc tasks m w =
      if leb (2 ^ 63) args.rate_limit
        || not (ticks args.poll_count)
        || not (ticks args.report_interval)
      then (some panic, m, w)
      else if args.rate_limit == 0 && not (is_empty tasks)
      then (none, m, w)
      else let (m1, w1) = run_tasks key by_grpc tasks m w in
        let (r, m2, w2) = send_last key by_grpc m1 w1 in (some r, m2, w2)

  -- `RunAgent`: `cancelled_early` is that the context ends before the timer of the start.
  unfoldable pub run_agent :
      AgentStartup
      → Arguments
      → Bool
      → List Task
      → W
      → Option (Result (Unit {0})) × SafeMetrics MemStats × W
  unfolding run_loop
  run_agent lib args cancelled_early tasks w = elim (agent_key lib args) [
    | inl e ↦ (some (err e), new_metrics, w)
    | inr key ↦ elim (agent_client lib args) [
      | inl e ↦ (some (err e), new_metrics, w)
      | inr by_grpc ↦
          if cancelled_early
          then (some (ok tt), new_metrics, w)
          else run_loop args key by_grpc tasks new_metrics w
    ]
  ]

-- The two ways to deliver, in the order in which a world iterates the table.
module _ {W : Type 0} (format_float : ℕ → Bytes) (parse_float : Bytes → Option ℕ)
    (iterate : List Entry → W → List Entry) where
  unfoldable pub deliver_http :
      Client W
      → (Error → Bool)
      → String
      → Bytes
      → Option PublicKey
      → AgentMetrics MemStats
      → W
      → Option Error × W
  deliver_http client is_net_error secret ip key m w =
      let (r, w', slept) =
        send_all_metrics_with_retry client is_net_error parse_float
          (iterate (build_mem_metrics format_float m)) secret key ip w in
      (error_of r, w')

  unfoldable pub deliver_grpc :
      (Error → StatusCode)
      → (List ProtoMetric → W → Result (Unit {0}) × W)
      → AgentMetrics MemStats
      → W
      → Option Error × W
  deliver_grpc status_code call m w =
      let (r, w', slept) =
        send_all_metrics_grpc_with_retry status_code call parse_float
          (iterate (build_mem_metrics format_float m) w) w in
      (error_of r, w')
