-- ===== src/Shell/Sync.antt =====
-- The `service` and `config` commands keep port, target and limit of each rule the same in memory
-- and in the database.
use gotaxy.Prelude.{String, refl, Bool, not, List, [], ◌∷◌, str_eq, Option-cases, inl, inr}
use gotaxy.Utils.{is_validate_ip, is_validate_email}
use gotaxy.Storage.Sql.{Tables, update_config}
use gotaxy.Storage.Laws.{IsSql}
use gotaxy.Storage.{Engine, update_cfg}
use gotaxy.Server.{GotaxyServer, set_run_status}
use gotaxy.Control.{is_port, check_server_cert_exist, stop_server}
use gotaxy.Control.Sync.{IsSynced, both}
use gotaxy.Control.Stored.{quiet-IsSynced}
use gotaxy.Shell.{
  Said, start_service, stop_service, handle_service, set_server_ip, set_listen_port, set_email,
  set_config, config_set, handle_config,
}

module _ {Db : Type 0} (tables : Db → Tables) where
  pub stop_server-IsSynced :
      (s : GotaxyServer Db)
      → IsSynced s.sessions (tables s.db)
      → IsSynced (stop_server s).sessions (tables (stop_server s).db)
  unfolding stop_server set_run_status
  stop_server-IsSynced s v = elim (Option-cases s.cancel) [
    | inl e ↦ rw (e, stop_server) v
    | inr (i, e) ↦ rw (e, stop_server) v
  ]

  abbrev Kept : GotaxyServer Db × Said → Type 0
  Kept o = IsSynced o.0.sessions (tables o.0.db)

  pub handle_service-IsSynced :
      (exists : String → Bool) (args : List String) (s : GotaxyServer Db)
      → IsSynced s.sessions (tables s.db)
      → IsSynced
          (handle_service exists args s).0.sessions
          (tables (handle_service exists args s).0.db)
  unfolding handle_service start_service stop_service set_run_status
  handle_service-IsSynced exists [] s v = v
  handle_service-IsSynced exists (command ∷ args) s v =
      both Kept (str_eq command "start")
        (λ _.
          both Kept s.is_run (λ _. v)
            (λ _. both Kept (not (check_server_cert_exist exists)) (λ _. v) (λ _. v)))
        (λ _.
          both Kept (str_eq command "stop")
            (λ _. both Kept (not s.is_run) (λ _. v) (λ _. stop_server-IsSynced s v))
            (λ _. both Kept (str_eq command "status") (λ _. v) (λ _. v)))

module _ {Db : Type 0} (engine : Engine Db) (tables : Db → Tables)
    (laws : IsSql engine tables) where
  pub set_server_ip-IsSynced :
      (s : GotaxyServer Db) (value : String)
      → IsSynced s.sessions (tables s.db)
      → IsSynced (set_server_ip engine s value).sessions (tables (set_server_ip engine s value).db)
  unfolding set_server_ip update_cfg
  set_server_ip-IsSynced s value v =
      quiet-IsSynced engine tables laws s.db (update_config value "server_ip") (λ rules j. refl) v

  pub set_listen_port-IsSynced :
      (s : GotaxyServer Db) (value : String)
      → IsSynced s.sessions (tables s.db)
      → IsSynced
          (set_listen_port engine s value).sessions
          (tables (set_listen_port engine s value).db)
  unfolding set_listen_port update_cfg
  set_listen_port-IsSynced s value v =
      quiet-IsSynced engine tables laws s.db (update_config value "listen_port") (λ rules j. refl) v

  pub set_email-IsSynced :
      (s : GotaxyServer Db) (value : String)
      → IsSynced s.sessions (tables s.db)
      → IsSynced (set_email engine s value).sessions (tables (set_email engine s value).db)
  unfolding set_email update_cfg
  set_email-IsSynced s value v =
      quiet-IsSynced engine tables laws s.db (update_config value "email") (λ rules j. refl) v

  set_config-Kept :
      (key value : String) (s : GotaxyServer Db)
      → IsSynced s.sessions (tables s.db)
      → Kept tables (set_config engine key value s)
  unfolding set_config
  set_config-Kept key value s v =
      both (Kept tables) (str_eq key "ip")
        (λ _.
          both (Kept tables) (not (is_validate_ip value)) (λ _. v)
            (λ _. set_server_ip-IsSynced s value v))
        (λ _.
          both (Kept tables) (str_eq key "port")
            (λ _.
              both (Kept tables) (not (is_port value)) (λ _. v)
                (λ _. set_listen_port-IsSynced s value v))
            (λ _.
              both (Kept tables) (str_eq key "email")
                (λ _.
                  both (Kept tables) (not (is_validate_email value)) (λ _. v)
                    (λ _. set_email-IsSynced s value v))
                (λ _. v)))

  config_set-Kept :
      (args : List String) (s : GotaxyServer Db)
      → IsSynced s.sessions (tables s.db)
      → Kept tables (config_set engine args s)
  unfolding config_set
  config_set-Kept [] s v = v
  config_set-Kept (key ∷ []) s v = v
  config_set-Kept (key ∷ value ∷ args) s v = set_config-Kept key value s v

  pub handle_config-IsSynced :
      (args : List String) (s : GotaxyServer Db)
      → IsSynced s.sessions (tables s.db)
      → IsSynced
          (handle_config engine args s).0.sessions
          (tables (handle_config engine args s).0.db)
  unfolding handle_config
  handle_config-IsSynced [] s v = v
  handle_config-IsSynced (command ∷ args) s v =
      both (Kept tables) (str_eq command "show") (λ _. v)
        (λ _. both (Kept tables) (str_eq command "set") (λ _. config_set-Kept args s v) (λ _. v))
