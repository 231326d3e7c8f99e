-- ===== src/Examples/Alerts.antt =====
-- The loss of a client in a server that has run for a while, and the mail about it.
use gotaxy.Prelude.{String, ◌≡◌, refl, sym, ap, subst, true, none, List, [], ◌∷◌, arith, eq_iff}
use gotaxy.Prelude.Dict.{IsMap, lookup, insert}
use gotaxy.Utils.{is_validate_ip, is_validate_email}
use gotaxy.Session.{get_session}
use gotaxy.Strconv.{parse_int}
use gotaxy.Config.{config_load, set_rows}
use gotaxy.Storage.{get_all_cfg, get_all_mpg, scan_config, scan_rules}
use gotaxy.Storage.Memory.{Memory, memory}
use gotaxy.EventBus.{Event as Signal, traffic}
use gotaxy.Alert.{sent, handle_client_disconnected}
use gotaxy.Control.{is_port}
use gotaxy.Control.Settings.{IsConfigured}
use gotaxy.Server.{alerts, new_server, on_traffic_report, persist}
use gotaxy.Tunnel.{lose_client, client, wait_control_conn}
use gotaxy.Tunnel.Heartbeats.{lost_mail}
use gotaxy.Relay.{arrives, relay}
use gotaxy.System.{Event, traffic_report, tick, tunnel, start_up, run, serve}
use gotaxy.System.Wired.{lose_client-told}
use gotaxy.Examples.{web_tables, web_tables-IsValid}

abbrev settings : List (String × String)
settings =
    ("server_ip", "127.0.0.1")
    ∷ ("listen_port", "9000")
    ∷ ("email", "ops@example.org")
    ∷ ("total_traffic", "700")
    ∷ []

settings-IsMap : IsMap settings
unfolding lookup
settings-IsMap = (refl, (refl, (refl, (refl, tt))))

abbrev watched_db : Memory
watched_db = record {
  tables = web_tables settings;
  valid = web_tables-IsValid settings settings-IsMap;
}

abbrev before : List Event
before = tunnel (arrives 3 (client "a" 7)) ∷ traffic_report (traffic "web" 300) ∷ []

started-config : (start_up memory watched_db).config ≡ record {
  name = "";
  server_ip = "127.0.0.1";
  listen_port = "9000";
  email = "ops@example.org";
  total_traffic = 700;
}
unfolding start_up new_server config_load get_all_cfg get_all_mpg scan_config scan_rules insert
    set_rows parse_int gotaxy.Strconv.signed lookup
started-config = refl

started-IsConfigured : IsConfigured (start_up memory watched_db).config
unfolding is_validate_ip is_validate_email is_port gotaxy.Strconv.atoi
started-IsConfigured =
    subst IsConfigured (sym started-config)
      (record { server_ip = refl; listen_port = refl; email = refl })

later_email :
    (run memory
      (lose_client 9 "a" 7 (run memory (start_up memory watched_db) before)).0
      (tick ∷ [])).config.email
    ≡ "ops@example.org"
unfolding run serve relay wait_control_conn lose_client on_traffic_report persist
later_email = ap (λ c. c.email) started-config

lose_client-told_example :
    let (left, started, ended) =
      lose_client 9 "a" 7 (run memory (start_up memory watched_db) before) in
    (get_session left.sessions "a" ≡ none)
    × (ended ≡ 7)
    × (e : Signal) × (started ≡ (alerts, e) ∷ [])
    × (handle_client_disconnected (λ m. true) (run memory left (tick ∷ [])).config.email e
        ≡ sent (lost_mail "ops@example.org" "a" 9))
lose_client-told_example =
    lose_client-told memory watched_db (λ m. true) 9 "a" "ops@example.org" 7 before (tick ∷ [])
      started-IsConfigured later_email (λ e. ground (arith, eq_iff "ops@example.org" "")) refl
