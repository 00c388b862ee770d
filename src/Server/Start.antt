-- ===== src/Server/Start.antt =====
-- What the start of the server has checked, cmd/server/main.go.
use go_yandex_metrics.Base.{
  String, ◌≡◌, refl, ◌≢◌, ◌⊎◌, inl, inr, Bool, true, false, Option, none, some, arith,
  if◌then◌else◌, str_eq, str_eq_iff, Bool-cases, Error,
}
use go_yandex_metrics.Base.Text.{Bytes}
use go_yandex_metrics.Crypto.{PrivateKey}
use go_yandex_metrics.Configuration.{FlagConfig}
use go_yandex_metrics.Server.{
  Startup, Setup, Started, ready, failed, fatal, migrate_db, start_subnet, start_key, start_storage,
  start_grpc, start_server,
}

-- A setting that is absent, or has been loaded from its text.
abbrev pub Loaded : {A : Type 0} → (String → Error ⊎ A) → String → Option A → Type 0
Loaded {A} load text o =
    ((text ≡ "") × (o ≡ none)) ⊎ ((text ≢ "") × ((a : A) × (load text ≡ inr a) × (o ≡ some a)))

-- What a start without an error has found of its configuration.
pub record IsConfigured (lib : Startup) (cfg : FlagConfig) (setup : Setup) : Type 0 where
  pub subnet_loaded : Loaded lib.parse_cidr cfg.trusted_subnet setup.trusted_subnet
  pub key_loaded : Loaded lib.load_private_key cfg.crypto_key setup.private_key
  pub storage_chosen :
      ((cfg.database_dsn ≡ "")
        × (setup.on_database ≡ false)
        × (setup.file_storage ≡ some (cfg.interval, cfg.storage_path, cfg.is_restore)))
      ⊎ ((cfg.database_dsn ≢ "")
          × (setup.on_database ≡ true)
          × (setup.file_storage ≡ none)
          × (lib.sql_open cfg.database_dsn ≡ none)
          × (lib.up ≡ none))
  pub grpc_secured :
      ((cfg.grpc_address ≡ "") × (setup.has_grpc ≡ false))
      ⊎ ((cfg.grpc_address ≢ "")
          × (setup.has_grpc ≡ true)
          × (cfg.grpc_cert_file ≢ "")
          × (cfg.grpc_key_file ≢ "")
          × (lib.load_server_credentials cfg.grpc_cert_file cfg.grpc_key_file ≡ none)
          × (lib.listen cfg.grpc_address ≡ none))
  pub rest_kept :
      (setup.key ≡ cfg.key)
      × (setup.audit_file ≡ cfg.audit_file)
      × (setup.audit_url ≡ cfg.audit_url)
      × (setup.run_address ≡ cfg.run_address)

module _ (lib : Startup) (cfg : FlagConfig) where
  subnet_lem :
      (o : Option (Bytes → Bool))
      → start_subnet lib cfg ≡ ready o
      → Loaded lib.parse_cidr cfg.trusted_subnet o
  unfolding start_subnet
  subnet_lem o e = elim (Bool-cases (str_eq cfg.trusted_subnet "")) [
    | inl empty ↦ inl ((str_eq_iff cfg.trusted_subnet "").0 empty, ground (arith, e, empty))
    | inr there ↦ go (lib.parse_cidr cfg.trusted_subnet) refl there
  ]
    where
      go :
          (r : Error ⊎ (Bytes → Bool))
          → lib.parse_cidr cfg.trusted_subnet ≡ r
          → str_eq cfg.trusted_subnet "" ≡ false
          → Loaded lib.parse_cidr cfg.trusted_subnet o
      go (inl x) h there = absurd (ground (arith, e, h, there))
      go (inr a) h there = inr (
        λ empty. ground (arith, there, str_eq_iff cfg.trusted_subnet "", empty),
        (a, h, ground (arith, e, h, there)),
      )

  key_lem :
      (o : Option PrivateKey)
      → start_key lib cfg ≡ ready o
      → Loaded lib.load_private_key cfg.crypto_key o
  unfolding start_key
  key_lem o e = elim (Bool-cases (str_eq cfg.crypto_key "")) [
    | inl empty ↦ inl ((str_eq_iff cfg.crypto_key "").0 empty, ground (arith, e, empty))
    | inr there ↦ go (lib.load_private_key cfg.crypto_key) refl there
  ]
    where
      go :
          (r : Error ⊎ PrivateKey)
          → lib.load_private_key cfg.crypto_key ≡ r
          → str_eq cfg.crypto_key "" ≡ false
          → Loaded lib.load_private_key cfg.crypto_key o
      go (inl x) h there = absurd (ground (arith, e, h, there))
      go (inr a) h there = inr (
        λ empty. ground (arith, there, str_eq_iff cfg.crypto_key "", empty),
        (a, h, ground (arith, e, h, there)),
      )

  storage_lem :
      (b : Bool)
      → start_storage lib cfg ≡ ready b
      → ((cfg.database_dsn ≡ "") × (b ≡ false))
        ⊎ ((cfg.database_dsn ≢ "")
            × (b ≡ true)
            × (lib.sql_open cfg.database_dsn ≡ none)
            × (lib.up ≡ none))
  unfolding start_storage migrate_db
  storage_lem b e = ground (arith, e, str_eq_iff cfg.database_dsn "")

  grpc_lem :
      (b : Bool)
      → start_grpc lib cfg ≡ ready b
      → ((cfg.grpc_address ≡ "") × (b ≡ false))
        ⊎ ((cfg.grpc_address ≢ "")
            × (b ≡ true)
            × (cfg.grpc_cert_file ≢ "")
            × (cfg.grpc_key_file ≢ "")
            × (lib.load_server_credentials cfg.grpc_cert_file cfg.grpc_key_file ≡ none)
            × (lib.listen cfg.grpc_address ≡ none))
  unfolding start_grpc
  grpc_lem b e = ground (
    arith,
    e,
    str_eq_iff cfg.grpc_address "",
    str_eq_iff cfg.grpc_cert_file "",
    str_eq_iff cfg.grpc_key_file "",
  )

  abbrev setup_of : Option (Bytes → Bool) → Option PrivateKey → Bool → Bool → Setup
  setup_of a k b g = record {
    trusted_subnet = a;
    private_key = k;
    on_database = b;
    key = cfg.key;
    audit_file = cfg.audit_file;
    audit_url = cfg.audit_url;
    has_grpc = g;
    file_storage =
        if str_eq cfg.database_dsn ""
        then some (cfg.interval, cfg.storage_path, cfg.is_restore)
        else none;
    run_address = cfg.run_address;
  }

  configured :
      (a : Option (Bytes → Bool)) (k : Option PrivateKey) (b g : Bool)
      → start_subnet lib cfg ≡ ready a
      → start_key lib cfg ≡ ready k
      → start_storage lib cfg ≡ ready b
      → start_grpc lib cfg ≡ ready g
      → IsConfigured lib cfg (setup_of a k b g)
  configured a k b g h h' h'' h''' = record {
    subnet_loaded = subnet_lem a h;
    key_loaded = key_lem k h';
    storage_chosen = elim (storage_lem b h'') [
      | inl (empty, e) ↦ inl (empty, e, ground (arith, empty, str_eq_iff cfg.database_dsn ""))
      | inr (there, e, opened, up) ↦
          inr (there, e, ground (arith, there, str_eq_iff cfg.database_dsn ""), opened, up)
    ];
    grpc_secured = grpc_lem g h''';
    rest_kept = (refl, refl, refl, refl);
  }

  -- A server that starts: a subnet and a private key are there exactly if they are configured, and
  -- are the loaded ones; it is on the database exactly if there is a DSN, which was opened and
  -- migrated, and else saves to the file with the configured interval, path and restoring; there is a
  -- gRPC server exactly if it has an address, which is the one that it listens on, and its
  -- certificate and key are named and loaded; and the signing key, the file and the URL of the audit
  -- and the HTTP address are the configured ones.
  pub start_server-IsConfigured :
      (setup : Setup) → start_server lib cfg ≡ ready setup → IsConfigured lib cfg setup
  unfolding start_server
  start_server-IsConfigured setup e =
      go (start_subnet lib cfg) refl (start_key lib cfg) refl (start_storage lib cfg) refl
        (start_grpc lib cfg) refl
    where
      go :
          (a : Started (Option (Bytes → Bool)))
          → start_subnet lib cfg ≡ a
          → (k : Started (Option PrivateKey)) → start_key lib cfg ≡ k
          → (b : Started Bool) → start_storage lib cfg ≡ b
          → (g : Started Bool) → start_grpc lib cfg ≡ g
          → IsConfigured lib cfg setup
      go (ready a) h (ready k) h' (ready b) h'' (ready g) h''' =
          let same : setup_of a k b g ≡ setup = ground (arith, e, h, h', h'', h''') in
          rw (← same) (configured a k b g h h' h'' h''')
      go (failed x) h k h' b h'' g h''' = absurd (ground (arith, e, h))
      go (fatal x) h k h' b h'' g h''' = absurd (ground (arith, e, h))
      go (ready a) h (failed x) h' b h'' g h''' = absurd (ground (arith, e, h, h'))
      go (ready a) h (fatal x) h' b h'' g h''' = absurd (ground (arith, e, h, h'))
      go (ready a) h (ready k) h' (failed x) h'' g h''' = absurd (ground (arith, e, h, h', h''))
      go (ready a) h (ready k) h' (fatal x) h'' g h''' = absurd (ground (arith, e, h, h', h''))
      go (ready a) h (ready k) h' (ready b) h'' (failed x) h''' =
          absurd (ground (arith, e, h, h', h'', h'''))
      go (ready a) h (ready k) h' (ready b) h'' (fatal x) h''' =
          absurd (ground (arith, e, h, h', h'', h'''))
