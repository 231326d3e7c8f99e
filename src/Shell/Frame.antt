-- ===== src/Shell/Frame.antt =====
-- The `service` and `config` commands leave the rules and the subscriptions alone.
use gotaxy.Prelude.{String, ◌≡◌, refl, Bool, List, [], ◌∷◌, arith}
use gotaxy.Storage.{Engine}
use gotaxy.Server.{GotaxyServer, set_run_status}
use gotaxy.Control.{stop_server}
use gotaxy.Shell.{
  start_service, stop_service, handle_service, set_server_ip, set_listen_port, set_email,
  set_config, config_set, handle_config,
}

module _ {Db : Type 0} (s : GotaxyServer Db) where
  pub stop_server-sessions : (stop_server s).sessions ≡ s.sessions
  unfolding stop_server set_run_status
  stop_server-sessions = ground arith

  pub handle_service-sessions :
      (exists : String → Bool) (args : List String)
      → (handle_service exists args s).0.sessions ≡ s.sessions
  unfolding handle_service start_service stop_service set_run_status
  handle_service-sessions exists [] = refl
  handle_service-sessions exists (command ∷ args) = ground (arith, stop_server-sessions)

module _ {Db : Type 0} (engine : Engine Db) (s : GotaxyServer Db) where
  config_set-sessions : (args : List String) → (config_set engine args s).0.sessions ≡ s.sessions
  unfolding config_set set_config set_server_ip set_listen_port set_email
  config_set-sessions args = ground arith

  pub handle_config-sessions :
      (args : List String) → (handle_config engine args s).0.sessions ≡ s.sessions
  unfolding handle_config
  handle_config-sessions [] = refl
  handle_config-sessions (command ∷ args) = ground (arith, config_set-sessions args)

  config_set-event_bus : (args : List String) → (config_set engine args s).0.event_bus ≡ s.event_bus
  unfolding config_set set_config set_server_ip set_listen_port set_email
  config_set-event_bus args = ground arith

  pub handle_config-event_bus :
      (args : List String) → (handle_config engine args s).0.event_bus ≡ s.event_bus
  unfolding handle_config
  handle_config-event_bus [] = refl
  handle_config-event_bus (command ∷ args) = ground (arith, config_set-event_bus args)
