-- ===== src/Server.antt =====
-- `RunServer` and `migrateDb` of cmd/server/main.go: the checks before the start, and the order of the
-- shutdown. The saving loop is that of Persistence; what the servers do to the storage stands in its
-- moments.
pub mod Flush
pub mod Start
use go_yandex_metrics.Base.{
  ℕ, String, ◌⊎◌, inl, inr, Bool, true, false, ◌||◌, Option, none, some, List, [], ◌∷◌, ◌++◌,
  if◌then◌else◌, str_eq, Error, message, wrap, join, Result, ok, err, panic,
}
use go_yandex_metrics.Base.Text.{Bytes}
use go_yandex_metrics.Crypto.{PrivateKey}
use go_yandex_metrics.Repository.Contract.{Storage}
use go_yandex_metrics.Persistence.{Disk, Faults, Codec, Moment, done, elsewhere, keep_saving}
use go_yandex_metrics.Configuration.{FlagConfig}

-- What the start of the server calls: `net.ParseCIDR`, `LoadPrivateKey`, `sql.Open` (also by the
-- migration), the driver of the migration, the migration itself (where `migrate.ErrNoChange` is no
-- error), `LoadServerCredentials`, and `net.Listen`.
pub record Startup : Type 0 where
  pub parse_cidr : String → Error ⊎ (Bytes → Bool)
  pub load_private_key : String → Error ⊎ PrivateKey
  pub sql_open : String → Option Error
  pub with_instance : Option Error
  pub new_migration : Option Error
  pub up : Option Error
  pub load_server_credentials : String → String → Option Error
  pub listen : String → Option Error

-- What the server runs with: the subnet of the handlers and of the interceptor, the private key and
-- the signing key of the handlers, the storage, the file and the URL of the audit, whether there is a
-- gRPC server, the saving loop with its interval, path and restoring, which runs without a database
-- only, and the address of the HTTP server.
pub record Setup : Type 0 where
  pub trusted_subnet : Option (Bytes → Bool)
  pub private_key : Option PrivateKey
  pub on_database : Bool
  pub key : String
  pub audit_file : String
  pub audit_url : String
  pub has_grpc : Bool
  pub file_storage : Option (ℕ × String × Bool)
  pub run_address : String

-- The start ends with a setup, with an error that is returned, or with the exit of `Fatal`.
pub data Started (A : Type 0) : Type 0 where
  ready : A → Started A
  failed : Error → Started A
  fatal : Error → Started A

abbrev pub and_then : {A B : Type 0} → Started A → (A → Started B) → Started B
and_then (ready a) next = next a
and_then (failed e) next = failed e
and_then (fatal e) next = fatal e

abbrev fatal_or : Option Error → Started (Unit {0}) → Started (Unit {0})
fatal_or none next = next
fatal_or (some e) next = fatal e

-- `migrateDb`
unfoldable pub migrate_db : Startup → FlagConfig → Started (Unit {0})
migrate_db lib cfg =
    if str_eq cfg.database_dsn ""
    then ready tt
    else fatal_or (lib.sql_open cfg.database_dsn)
        (fatal_or lib.with_instance (fatal_or lib.new_migration (fatal_or lib.up (ready tt))))

unfoldable pub start_subnet : Startup → FlagConfig → Started (Option (Bytes → Bool))
start_subnet lib cfg =
    if str_eq cfg.trusted_subnet "" then ready none else elim (lib.parse_cidr cfg.trusted_subnet) [
      | inl e ↦ failed (wrap "parse trusted subnet" e)
      | inr subnet ↦ ready (some subnet)
    ]

unfoldable pub start_key : Startup → FlagConfig → Started (Option PrivateKey)
start_key lib cfg =
    if str_eq cfg.crypto_key "" then ready none else elim (lib.load_private_key cfg.crypto_key) [
      | inl e ↦ failed (wrap "load server crypto key" e)
      | inr key ↦ ready (some key)
    ]

-- The choice of the storage: whether it is the database.
unfoldable pub start_storage : Startup → FlagConfig → Started Bool
unfolding migrate_db
start_storage lib cfg =
    if str_eq cfg.database_dsn "" then ready false else elim (lib.sql_open cfg.database_dsn) [
      | some e ↦ failed e
      | none ↦ and_then (migrate_db lib cfg) (λ (u : Unit {0}). ready true)
    ]

-- The gRPC server: whether there is one.
unfoldable pub start_grpc : Startup → FlagConfig → Started Bool
start_grpc lib cfg =
    if str_eq cfg.grpc_address ""
    then ready false
    else if str_eq cfg.grpc_cert_file "" || str_eq cfg.grpc_key_file ""
    then failed (message "gRPC TLS certificate and private key are required")
    else elim (lib.load_server_credentials cfg.grpc_cert_file cfg.grpc_key_file) [
      | some e ↦ failed (wrap "load gRPC server credentials" e)
      | none ↦ elim (lib.listen cfg.grpc_address) [
        | some e ↦ failed (wrap "listen gRPC address" e)
        | none ↦ ready true
      ]
    ]

-- `RunServer` up to the start of its servers.
unfoldable pub start_server : Startup → FlagConfig → Started Setup
unfolding start_subnet start_key start_storage start_grpc
start_server lib cfg = and_then (start_subnet lib cfg) (λ subnet.
    and_then (start_key lib cfg) (λ key. and_then (start_storage lib cfg) (λ on_database.
      and_then (start_grpc lib cfg) (λ has_grpc. ready (record {
        trusted_subnet = subnet;
        private_key = key;
        on_database = on_database;
        key = cfg.key;
        audit_file = cfg.audit_file;
        audit_url = cfg.audit_url;
        has_grpc = has_grpc;
        file_storage =
            if str_eq cfg.database_dsn ""
            then some (cfg.interval, cfg.storage_path, cfg.is_restore)
            else none;
        run_address = cfg.run_address;
      })))))

-- An error, or nil.
abbrev pub returned : Option Error → Result (Unit {0})
returned none = ok tt
returned (some e) = err e

-- `errors.Join`, which drops nil errors; the wrapping of a single error is left out. A panic of a
-- goroutine ends the program.
abbrev pub join_errors : Result (Unit {0}) → Result (Unit {0}) → Result (Unit {0})
join_errors panic r = panic
join_errors (ok u) r = r
join_errors (err e) panic = panic
join_errors (err e) (ok u) = err e
join_errors (err e) (err e') = err (join e e')

-- An error that is waited for; `none` is that it never comes.
abbrev pub join_last : Result (Unit {0}) → Option (Result (Unit {0})) → Option (Result (Unit {0}))
join_last r none = none
join_last r (some r') = some (join_errors r r')

-- What the `select` of `RunServer` receives: the error of a server, the error of the saving loop (nil
-- where its channel is closed), or the end of the context.
pub data Event : Type 0 where
  server_error : Error → Event
  file_storage_done : Event
  context_done : Event

module _ (codec : Codec) (st : Storage) where
  -- What the handlers do to the storage, where no loop saves it.
  unfoldable pub changed : List (Moment st) → st.State → st.State
  changed [] s = s
  changed (elsewhere change ∷ moments) s = changed moments (change s)
  changed (_ ∷ moments) s = changed moments s

  -- `stopAndFlushFileStorage`, over what the loop has seen so far: it ends the loop's context, and
  -- waits for the loop. On a database there is nothing to cancel.
  unfoldable pub stop_and_flush_file_storage :
      Bool
      → ℕ
      → List (Moment st)
      → Faults
      → st.State
      → Disk
      → Option (Result (Unit {0})) × st.State × Disk
  stop_and_flush_file_storage true interval moments last s d = (some (ok tt), changed moments s, d)
  stop_and_flush_file_storage false interval moments last s d =
      keep_saving codec st interval (moments ++ done last ∷ []) s d

  -- The end of `RunServer`. `before` is what happens until the event, and `draining` what happens while
  -- the servers shut down, which end only after the handlers that run. `is_server_closed` and
  -- `is_server_stopped` are `errors.Is` with the errors of an HTTP and a gRPC server that was stopped,
  -- `shutdown_error` what `Shutdown` returns. The result
  -- `none` is that the event never comes, since there is no loop or it goes on.
  unfoldable pub shut_down :
      (Error → Bool)
      → (Error → Bool)
      → Bool
      → ℕ
      → Event
      → Option Error
      → List (Moment st)
      → List (Moment st)
      → Faults
      → st.State
      → Disk
      → Option (Result (Unit {0})) × st.State × Disk
  shut_down is_server_closed is_server_stopped on_database interval (server_error e) shutdown_error
        before draining last s d =
      let server = if is_server_closed e || is_server_stopped e then ok tt else err e in
      let (flush, s', d') =
        stop_and_flush_file_storage on_database interval (before ++ draining) last s d in
      (join_last (join_errors server (returned shutdown_error)) flush, s', d')
  shut_down is_server_closed is_server_stopped on_database interval file_storage_done shutdown_error
        before draining last s d =
      if on_database
      then (none, changed before s, d)
      else let (r, s', d') = keep_saving codec st interval before s d in
        elim r [
          | none ↦ (none, s', d')
          | some ended ↦
              let shutdown : Result (Unit {0}) = elim shutdown_error [
                | none ↦ ok tt
                | some e ↦ if is_server_closed e then ok tt else err e
              ] in
              (some (join_errors ended shutdown), changed draining s', d')
        ]
  shut_down is_server_closed is_server_stopped on_database interval context_done shutdown_error
        before draining last s d =
      let (flush, s', d') =
        stop_and_flush_file_storage on_database interval (before ++ draining) last s d in
      (join_last (returned shutdown_error) flush, s', d')
