-- ===== src/System/Settings.antt =====
-- The settings stay valid under every event.
use gotaxy.Prelude.{arith, ◌≡◌, sym, subst, List, [], ◌∷◌}
use gotaxy.EventBus.{Payload, traffic, connected, disconnected}
use gotaxy.Storage.{Engine}
use gotaxy.Config.{Config}
use gotaxy.Server.{GotaxyServer, on_traffic_report, persist}
use gotaxy.Control.Settings.{IsConfigured}
use gotaxy.Shell.Settings.{handle_service-IsQuiet, handle_config-IsConfigured}
use gotaxy.Shell.Mappings.Frame.{handle_mapping-IsQuiet}
use gotaxy.Web.Settings.{
  start_service_handler-IsQuiet, stop_service_handler-IsQuiet, update_config_handler-IsConfigured,
}
use gotaxy.Web.Mappings.Frame.{
  toggle_mapping_handler-IsQuiet, add_mapping_handler-IsQuiet, delete_mapping_handler-IsQuiet,
  update_mapping_handler-IsQuiet,
}
use gotaxy.Shell.Terminal.{cancel_server}
use gotaxy.Shell.Terminal.Inv.{IsKept, enter_inv}
use gotaxy.Relay.Frame.{relay-Untouched}
use gotaxy.System.{
  Event, terminal, api_start, api_stop, api_config_update, api_mappings_add, api_mappings_delete,
  api_mappings_update, api_mappings_toggle, traffic_report, tick, tunnel, serve, run,
}

module _ {Db : Type 0} (engine : Engine Db) where
  same_config : {c d : Config} → d ≡ c → IsConfigured c → IsConfigured d
  same_config e v = subst IsConfigured (sym e) v

  on_traffic_report-IsConfigured :
      (s : GotaxyServer Db) (p : Payload)
      → IsConfigured s.config
      → IsConfigured (on_traffic_report s p).config
  unfolding on_traffic_report
  on_traffic_report-IsConfigured s (traffic name bytes) v = record {
    server_ip = v.server_ip;
    listen_port = v.listen_port;
    email = v.email;
  }
  on_traffic_report-IsConfigured s (disconnected _ _) v = v
  on_traffic_report-IsConfigured s (connected _ _) v = v

  cancel_server-config : (s : GotaxyServer Db) → (cancel_server engine s).config ≡ s.config
  unfolding cancel_server
  cancel_server-config s = ground arith

  commands-IsKept : IsKept engine (λ s. IsConfigured s.config)
  commands-IsKept = record {
    service = λ exists args s v. same_config (handle_service-IsQuiet exists args s).0 v;
    config = handle_config-IsConfigured engine;
    mapping = λ args s _ v. same_config (handle_mapping-IsQuiet engine s args).0 v;
    cancelled = λ s v. same_config (cancel_server-config s) v;
  }

  serve-IsConfigured :
      (s : GotaxyServer Db) (e : Event)
      → IsConfigured s.config
      → IsConfigured (serve engine s e).config
  unfolding serve persist
  serve-IsConfigured s (terminal exists input) v =
      enter_inv engine (λ s. IsConfigured s.config) commands-IsKept exists input s v
  serve-IsConfigured s (api_start exists) v =
      same_config (start_service_handler-IsQuiet exists s).0 v
  serve-IsConfigured s api_stop v = same_config (stop_service_handler-IsQuiet s).0 v
  serve-IsConfigured s (api_config_update body) v =
      update_config_handler-IsConfigured engine body s v
  serve-IsConfigured s (api_mappings_add body) v =
      same_config (add_mapping_handler-IsQuiet engine s body).0 v
  serve-IsConfigured s (api_mappings_delete body) v =
      same_config (delete_mapping_handler-IsQuiet engine s body).0 v
  serve-IsConfigured s (api_mappings_update body) v =
      same_config (update_mapping_handler-IsQuiet engine s body).0 v
  serve-IsConfigured s (api_mappings_toggle body) v =
      same_config (toggle_mapping_handler-IsQuiet s body).0 v
  serve-IsConfigured s (traffic_report payload) v = on_traffic_report-IsConfigured s payload v
  serve-IsConfigured s tick v = record {
    server_ip = v.server_ip;
    listen_port = v.listen_port;
    email = v.email;
  }
  serve-IsConfigured s (tunnel step) v = same_config (relay-Untouched step s).0 v

  -- Whatever the server serves, and whatever of it the database refuses: if the settings in memory
  -- are an IP address, a port from 1 to 65535, and a mail address or none, they stay so.
  pub run-IsConfigured :
      (s : GotaxyServer Db) (events : List Event)
      → IsConfigured s.config
      → IsConfigured (run engine s events).config
  unfolding run
  run-IsConfigured s [] v = v
  run-IsConfigured s (e ∷ events) v =
      run-IsConfigured (serve engine s e) events (serve-IsConfigured s e v)
