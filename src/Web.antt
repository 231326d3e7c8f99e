-- ===== src/Web.antt =====
-- internal/web/web.go: the requests of the web panel. A handler gives the server afterwards, the
-- status of the response and whether its body is a message or an error. The request is what
-- `c.ShouldBindJSON` makes of the body, `none` where it fails.
pub mod Mappings
pub mod Sync
pub mod Settings
pub mod Frame
use gotaxy.Prelude.{
  ℕ, String, Bool, true, false, not, ◌&&◌, Option, none, some, str_eq, if◌then◌else◌,
}
use gotaxy.Context.{background, with_cancel}
use gotaxy.Utils.{is_validate_ip, is_validate_email}
use gotaxy.Server.{GotaxyServer, control, spawn, set_run_status}
use gotaxy.Storage.{Engine}
use gotaxy.Control.{is_port, check_server_cert_exist, stop_server}
use gotaxy.Shell.{set_server_ip, set_listen_port, set_email}

-- The constants of net/http
pub data Status : Type 0 where
  status_ok status_bad_request status_not_found status_internal_server_error : Status

pub record ConfigRequest : Type 0 where
  pub server_ip : String
  pub listen_port : String
  pub email : String

-- What a template or `c.JSON` shows of the server.
pub data Shown : Type 0 where
  is_running : Bool → Shown

module _ {Db : Type 0} where
  unfoldable pub status_handler : GotaxyServer Db → Status × Shown
  status_handler server = (status_ok, is_running server.is_run)

  -- w.server.Ctx, w.server.Cancel = context.WithCancel(context.Background())
  unfoldable pub renew_context : GotaxyServer Db → GotaxyServer Db
  renew_context server =
      let (ctx, cancel_func, contexts) = with_cancel server.contexts background in
      record server { ctx = ctx; cancel = some cancel_func; contexts = contexts }

  unfoldable pub start_service_handler :
      (String → Bool) → GotaxyServer Db → GotaxyServer Db × Status
  unfolding check_server_cert_exist set_run_status renew_context
  start_service_handler exists server =
      if server.is_run
      then (server, status_bad_request)
      else if not (check_server_cert_exist exists)
      then (server, status_bad_request)
      else (set_run_status (spawn (renew_context server) control) true, status_ok)

  unfoldable pub stop_service_handler : GotaxyServer Db → GotaxyServer Db × Status
  unfolding stop_server
  stop_service_handler server =
      if not server.is_run then (server, status_bad_request) else (stop_server server, status_ok)

-- s != "" && !valid(s)
abbrev pub rejected : (String → Bool) → String → Bool
rejected valid s = not (str_eq s "") && not (valid s)

module _ {Db : Type 0} (engine : Engine Db) where
  -- if value != "" { … }
  abbrev pub unless_empty :
      (GotaxyServer Db → String → GotaxyServer Db) → String → GotaxyServer Db → GotaxyServer Db
  unless_empty assign value server = if str_eq value "" then server else assign server value

  -- The assignments at the end of `updateConfigHandler`.
  unfoldable pub assign_config : ConfigRequest → GotaxyServer Db → GotaxyServer Db
  unfolding set_server_ip set_listen_port set_email
  assign_config req server = unless_empty (set_email engine) req.email (
      unless_empty (set_listen_port engine) req.listen_port
        (unless_empty (set_server_ip engine) req.server_ip server))

  unfoldable pub update_config_handler :
      Option ConfigRequest → GotaxyServer Db → GotaxyServer Db × Status
  unfolding assign_config
  update_config_handler none server = (server, status_bad_request)
  update_config_handler (some req) server =
      if rejected is_validate_ip req.server_ip
      then (server, status_bad_request)
      else if rejected is_validate_email req.email
      then (server, status_bad_request)
      else if rejected is_port req.listen_port
      then (server, status_bad_request)
      else (assign_config req server, status_ok)
