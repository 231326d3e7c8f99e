-- ===== src/Shell.antt =====
-- internal/shell/shellcmd.go: the commands of the terminal. A handler gives the server afterwards and
-- what it printed, by the kind of the message.
pub mod Mappings
pub mod Sync
pub mod Terminal
pub mod Registry
pub mod Settings
pub mod Frame
use gotaxy.Prelude.{
  ℕ, String, Bool, true, false, not, Option, none, some, List, [], ◌∷◌, str_eq, if◌then◌else◌,
}
use gotaxy.Utils.{is_validate_ip, is_validate_email}
use gotaxy.Config.{Config}
use gotaxy.Server.{GotaxyServer, control, spawn, set_run_status}
use gotaxy.Storage.{Engine, update_cfg}
use gotaxy.Control.{is_port, check_server_cert_exist, stop_server}

pub data Said : Type 0 where
  usage unknown shown : Said
  already_running not_running no_certificates : Said
  bad_value missing exists_already busy storage_failed : Said
  done : Said

module _ {Db : Type 0} where
  start_service : (String → Bool) → GotaxyServer Db → GotaxyServer Db × Said
  unfolding check_server_cert_exist set_run_status
  start_service exists server =
      if server.is_run
      then (server, already_running)
      else if not (check_server_cert_exist exists)
      then (server, no_certificates)
      else (set_run_status (spawn server control) true, done)

  stop_service : GotaxyServer Db → GotaxyServer Db × Said
  unfolding stop_server
  stop_service server =
      if not server.is_run then (server, not_running) else (stop_server server, done)

  unfoldable pub handle_service :
      (String → Bool) → List String → GotaxyServer Db → GotaxyServer Db × Said
  unfolding start_service stop_service
  handle_service exists [] server = (server, usage)
  handle_service exists (command ∷ args) server =
      if str_eq command "start"
      then start_service exists server
      else if str_eq command "stop"
      then stop_service server
      else if str_eq command "status"
      then (server, shown)
      else (server, unknown)

module _ {Db : Type 0} (engine : Engine Db) where
  -- An assignment to a field of the configuration, and `_ = models.UpdateCfg(…)`.
  unfoldable pub set_server_ip : GotaxyServer Db → String → GotaxyServer Db
  unfolding update_cfg
  set_server_ip server value = record server {
    config = record server.config { server_ip = value };
    db = (update_cfg engine server.db "server_ip" value).0;
  }

  unfoldable pub set_listen_port : GotaxyServer Db → String → GotaxyServer Db
  unfolding update_cfg
  set_listen_port server value = record server {
    config = record server.config { listen_port = value };
    db = (update_cfg engine server.db "listen_port" value).0;
  }

  unfoldable pub set_email : GotaxyServer Db → String → GotaxyServer Db
  unfolding update_cfg
  set_email server value = record server {
    config = record server.config { email = value };
    db = (update_cfg engine server.db "email" value).0;
  }

  set_config : String → String → GotaxyServer Db → GotaxyServer Db × Said
  unfolding set_server_ip set_listen_port set_email
  set_config key value server =
      if str_eq key "ip"
      then if not (is_validate_ip value)
        then (server, bad_value)
        else (set_server_ip server value, done)
      else if str_eq key "port"
      then if not (is_port value) then (server, bad_value) else (set_listen_port server value, done)
      else if str_eq key "email"
      then if not (is_validate_email value)
        then (server, bad_value)
        else (set_email server value, done)
      else (server, unknown)

  config_set : List String → GotaxyServer Db → GotaxyServer Db × Said
  unfolding set_config
  config_set (key ∷ value ∷ args) server = set_config key value server
  config_set _ server = (server, usage)

  unfoldable pub handle_config : List String → GotaxyServer Db → GotaxyServer Db × Said
  unfolding config_set
  handle_config [] server = (server, usage)
  handle_config (command ∷ args) server =
      if str_eq command "show"
      then (server, shown)
      else if str_eq command "set"
      then config_set args server
      else (server, unknown)
