-- ===== src/Web/Sync.antt =====
-- The requests for the service and its configuration keep the rules in memory and in the database
-- in step.
use gotaxy.Prelude.{String, Bool, not, Option, none, some, str_eq}
use gotaxy.Utils.{is_validate_ip, is_validate_email}
use gotaxy.Storage.Sql.{Tables}
use gotaxy.Storage.Laws.{IsSql}
use gotaxy.Storage.{Engine}
use gotaxy.Server.{GotaxyServer, set_run_status}
use gotaxy.Control.{is_port, check_server_cert_exist}
use gotaxy.Control.Sync.{IsSynced, both}
use gotaxy.Shell.{set_server_ip, set_listen_port, set_email}
use gotaxy.Shell.Sync.{
  stop_server-IsSynced, set_server_ip-IsSynced, set_listen_port-IsSynced, set_email-IsSynced,
}
use gotaxy.Web.{
  Status, ConfigRequest, renew_context, start_service_handler, stop_service_handler, assign_config,
  unless_empty, rejected, update_config_handler,
}

module _ {Db : Type 0} (tables : Db → Tables) where
  abbrev Synced : GotaxyServer Db → Type 0
  Synced s = IsSynced s.sessions (tables s.db)

  abbrev Kept : GotaxyServer Db × Status → Type 0
  Kept o = Synced o.0

  pub start_service_handler-IsSynced :
      (exists : String → Bool) (s : GotaxyServer Db)
      → IsSynced s.sessions (tables s.db)
      → IsSynced
          (start_service_handler exists s).0.sessions
          (tables (start_service_handler exists s).0.db)
  unfolding start_service_handler set_run_status renew_context
  start_service_handler-IsSynced exists s v =
      both Kept s.is_run (λ _. v)
        (λ _. both Kept (not (check_server_cert_exist exists)) (λ _. v) (λ _. v))

  pub stop_service_handler-IsSynced :
      (s : GotaxyServer Db)
      → IsSynced s.sessions (tables s.db)
      → IsSynced (stop_service_handler s).0.sessions (tables (stop_service_handler s).0.db)
  unfolding stop_service_handler
  stop_service_handler-IsSynced s v =
      both Kept (not s.is_run) (λ _. v) (λ _. stop_server-IsSynced tables s v)

module _ {Db : Type 0} (engine : Engine Db) (tables : Db → Tables)
    (laws : IsSql engine tables) where
  unless_empty-Synced :
      (assign : GotaxyServer Db → String → GotaxyServer Db) (value : String) (s : GotaxyServer Db)
      → ((s : GotaxyServer Db) (value : String) → Synced tables s → Synced tables (assign s value))
      → Synced tables s
      → Synced tables (unless_empty engine assign value s)
  unless_empty-Synced assign value s h v =
      both (Synced tables) (str_eq value "") (λ _. v) (λ _. h s value v)

  assign_config-Synced :
      (req : ConfigRequest) (s : GotaxyServer Db)
      → Synced tables s
      → Synced tables (assign_config engine req s)
  unfolding assign_config
  assign_config-Synced req s v =
      unless_empty-Synced (set_email engine) req.email _ (set_email-IsSynced engine tables laws) (
        unless_empty-Synced (set_listen_port engine) req.listen_port _
          (set_listen_port-IsSynced engine tables laws)
          (unless_empty-Synced (set_server_ip engine) req.server_ip s
            (set_server_ip-IsSynced engine tables laws) v))

  pub update_config_handler-IsSynced :
      (body : Option ConfigRequest) (s : GotaxyServer Db)
      → IsSynced s.sessions (tables s.db)
      → IsSynced
          (update_config_handler engine body s).0.sessions
          (tables (update_config_handler engine body s).0.db)
  unfolding update_config_handler
  update_config_handler-IsSynced none s v = v
  update_config_handler-IsSynced (some req) s v =
      both (Kept tables) (rejected is_validate_ip req.server_ip) (λ _. v)
        (λ _.
          both (Kept tables) (rejected is_validate_email req.email) (λ _. v)
            (λ _.
              both (Kept tables) (rejected is_port req.listen_port) (λ _. v)
                (λ _. assign_config-Synced req s v)))
