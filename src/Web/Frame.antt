-- ===== src/Web/Frame.antt =====
-- The requests for the service and its configuration leave the rules and the subscriptions alone.
use gotaxy.Prelude.{String, ◌≡◌, refl, Bool, Option, none, some, arith}
use gotaxy.Storage.{Engine}
use gotaxy.Server.{GotaxyServer, set_run_status}
use gotaxy.Shell.{set_server_ip, set_listen_port, set_email}
use gotaxy.Shell.Frame.{stop_server-sessions}
use gotaxy.Web.{
  ConfigRequest, renew_context, start_service_handler, stop_service_handler, assign_config,
  update_config_handler,
}

module _ {Db : Type 0} (s : GotaxyServer Db) where
  pub start_service_handler-sessions :
      (exists : String → Bool) → (start_service_handler exists s).0.sessions ≡ s.sessions
  unfolding start_service_handler set_run_status renew_context
  start_service_handler-sessions exists = ground arith

  pub stop_service_handler-sessions : (stop_service_handler s).0.sessions ≡ s.sessions
  unfolding stop_service_handler
  stop_service_handler-sessions = ground (arith, stop_server-sessions s)

module _ {Db : Type 0} (engine : Engine Db) (s : GotaxyServer Db) where
  assign_config-sessions :
      (req : ConfigRequest) → (assign_config engine req s).sessions ≡ s.sessions
  unfolding assign_config set_server_ip set_listen_port set_email
  assign_config-sessions req = ground arith

  pub update_config_handler-sessions :
      (body : Option ConfigRequest) → (update_config_handler engine body s).0.sessions ≡ s.sessions
  unfolding update_config_handler
  update_config_handler-sessions none = refl
  update_config_handler-sessions (some req) = ground (arith, assign_config-sessions req)

  assign_config-event_bus :
      (req : ConfigRequest) → (assign_config engine req s).event_bus ≡ s.event_bus
  unfolding assign_config set_server_ip set_listen_port set_email
  assign_config-event_bus req = ground arith

  pub update_config_handler-event_bus :
      (body : Option ConfigRequest)
      → (update_config_handler engine body s).0.event_bus ≡ s.event_bus
  unfolding update_config_handler
  update_config_handler-event_bus none = refl
  update_config_handler-event_bus (some req) = ground (arith, assign_config-event_bus req)
