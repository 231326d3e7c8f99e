-- ===== src/Web/Settings.antt =====
-- The requests for the service and its configuration, and the settings.
use gotaxy.Prelude.{String, ◌≡◌, Bool, true, false, Option, none, some, arith, str_eq}
use gotaxy.Utils.{is_validate_ip, is_validate_email}
use gotaxy.Storage.{Engine}
use gotaxy.Server.{GotaxyServer, IsQuiet, set_run_status}
use gotaxy.Control.{is_port}
use gotaxy.Control.Sync.{both}
use gotaxy.Control.Settings.{IsConfigured}
use gotaxy.Shell.{set_server_ip, set_listen_port, set_email}
use gotaxy.Shell.Settings.{
  stop_server-IsQuiet, set_server_ip-IsConfigured, set_listen_port-IsConfigured,
  set_email-IsConfigured,
}
use gotaxy.Web.{
  Status, ConfigRequest, renew_context, start_service_handler, stop_service_handler, assign_config,
  unless_empty, rejected, update_config_handler,
}

module _ {Db : Type 0} where
  pub start_service_handler-IsQuiet :
      (exists : String → Bool) (s : GotaxyServer Db) → IsQuiet s (start_service_handler exists s).0
  unfolding start_service_handler set_run_status renew_context
  start_service_handler-IsQuiet exists s = ground arith

  pub stop_service_handler-IsQuiet : (s : GotaxyServer Db) → IsQuiet s (stop_service_handler s).0
  unfolding stop_service_handler
  stop_service_handler-IsQuiet s = ground (arith, stop_server-IsQuiet s)

  abbrev Kept : GotaxyServer Db × Status → Type 0
  Kept o = IsConfigured o.0.config

  abbrev Configured : GotaxyServer Db → Type 0
  Configured s = IsConfigured s.config

module _ {Db : Type 0} (engine : Engine Db) where
  -- An assignment of a value that was not rejected.
  unless_empty-IsConfigured :
      (valid : String → Bool) (assign : GotaxyServer Db → String → GotaxyServer Db) (value : String)
      (s : GotaxyServer Db)
      → rejected valid value ≡ false
      → ((s : GotaxyServer Db) (value : String)
          → valid value ≡ true
          → Configured s
          → Configured (assign s value))
      → Configured s
      → Configured (unless_empty engine assign value s)
  unless_empty-IsConfigured valid assign value s passed h v =
      both Configured (str_eq value "") (λ _. v) (λ given. h s value (ground arith) v)

  assign_config-IsConfigured :
      (req : ConfigRequest) (s : GotaxyServer Db)
      → rejected is_validate_ip req.server_ip ≡ false
      → rejected is_validate_email req.email ≡ false
      → rejected is_port req.listen_port ≡ false
      → Configured s
      → Configured (assign_config engine req s)
  unfolding assign_config
  assign_config-IsConfigured req s ip email port v =
      unless_empty-IsConfigured is_validate_email (set_email engine) req.email _ email
        (set_email-IsConfigured engine)
        (unless_empty-IsConfigured is_port (set_listen_port engine) req.listen_port _ port
          (set_listen_port-IsConfigured engine)
          (unless_empty-IsConfigured is_validate_ip (set_server_ip engine) req.server_ip s ip
            (set_server_ip-IsConfigured engine) v))

  pub update_config_handler-IsConfigured :
      (body : Option ConfigRequest) (s : GotaxyServer Db)
      → IsConfigured s.config
      → IsConfigured (update_config_handler engine body s).0.config
  unfolding update_config_handler
  update_config_handler-IsConfigured none s v = v
  update_config_handler-IsConfigured (some req) s v =
      both Kept (rejected is_validate_ip req.server_ip) (λ _. v)
        (λ ip.
          both Kept (rejected is_validate_email req.email) (λ _. v)
            (λ email.
              both Kept (rejected is_port req.listen_port) (λ _. v)
                (λ port. assign_config-IsConfigured req s ip email port v)))
