-- ===== src/System.antt =====
-- The server as a whole: what reaches it from the terminal
-- (internal/shell/shellcli.go), from the web panel (the routes of internal/web/web.go), from
-- the event bus, from the ticker and from the tunnel. Go's scheduler picks the order: a list of events is one order.
pub mod Sync
pub mod Settings
pub mod Wired
pub mod Inv
pub mod Counted
pub mod Held
pub mod Forwarding
pub mod Lifecycle
pub mod Stopping
pub mod Switching
pub mod Startup
pub mod Boot
pub mod Meeting
pub mod Restart
use gotaxy.Prelude.{ℕ, String, Bool, Option, List, [], ◌∷◌}
use gotaxy.EventBus.{Payload}
use gotaxy.Storage.{Engine}
use gotaxy.Config.{config_load}
use gotaxy.Server.{GotaxyServer, new_server, on_traffic_report, persist}
use gotaxy.Relay.{Step, relay}
use gotaxy.Shell.Terminal.{Input, enter}
use gotaxy.Web.{ConfigRequest, start_service_handler, stop_service_handler, update_config_handler}
use gotaxy.Web.Mappings.{
  ToggleRequest, MappingRequest, toggle_mapping_handler, add_mapping_handler,
  delete_mapping_handler, update_mapping_handler,
}

-- An input of the terminal, a request with its body, a traffic report, a tick of the persistence, a step of the tunnel. The
-- files that `os.Stat` finds come with what may look for them.
pub data Event : Type 0 where
  terminal : (String → Bool) → Input → Event
  api_start : (String → Bool) → Event
  api_stop : Event
  api_config_update : Option ConfigRequest → Event
  api_mappings_add : Option MappingRequest → Event
  api_mappings_delete : Option String → Event
  api_mappings_update : Option MappingRequest → Event
  api_mappings_toggle : Option ToggleRequest → Event
  traffic_report : Payload → Event
  tick : Event
  tunnel : Step → Event

module _ {Db : Type 0} (engine : Engine Db) where
  unfoldable pub serve : GotaxyServer Db → Event → GotaxyServer Db
  serve s (terminal exists input) = (enter engine exists input s).0
  serve s (api_start exists) = (start_service_handler exists s).0
  serve s api_stop = (stop_service_handler s).0
  serve s (api_config_update body) = (update_config_handler engine body s).0
  serve s (api_mappings_add body) = (add_mapping_handler engine body s).0
  serve s (api_mappings_delete body) = (delete_mapping_handler engine body s).0
  serve s (api_mappings_update body) = (update_mapping_handler engine body s).0
  serve s (api_mappings_toggle body) = (toggle_mapping_handler body s).0
  serve s (traffic_report payload) = on_traffic_report s payload
  serve s tick = persist engine s
  serve s (tunnel step) = relay step s

  unfoldable pub run : GotaxyServer Db → List Event → GotaxyServer Db
  unfolding serve
  run s [] = s
  run s (e ∷ events) = run (serve s e) events

  -- `main`: the server, with the configuration and the rules loaded into it.
  unfoldable pub start_up : Db → GotaxyServer Db
  unfolding new_server config_load
  start_up db =
      let server = new_server db in
      let loaded =
        config_load engine
          (record { cfg = server.config; sessions = server.sessions; db = server.db }) in
      record server { config = loaded.cfg; sessions = loaded.sessions; db = loaded.db }
