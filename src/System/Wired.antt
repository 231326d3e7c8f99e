-- ===== src/System/Wired.antt =====
-- The subscriptions of `NewServer` stay what they are, so that the loss of a client is always told.
use gotaxy.Prelude.{arith, ◌≡◌, List, [], ◌∷◌}
use gotaxy.EventBus.{Payload, traffic, connected, disconnected}
use gotaxy.Storage.{Engine}
use gotaxy.Server.{GotaxyServer, on_traffic_report, persist}
use gotaxy.Control.Settings.{IsConfigured}
use gotaxy.Shell.Settings.{handle_service-IsQuiet}
use gotaxy.Shell.Mappings.Frame.{handle_mapping-IsQuiet}
use gotaxy.Web.Settings.{start_service_handler-IsQuiet, stop_service_handler-IsQuiet}
use gotaxy.Web.Mappings.Frame.{
  toggle_mapping_handler-IsQuiet, add_mapping_handler-IsQuiet, delete_mapping_handler-IsQuiet,
  update_mapping_handler-IsQuiet,
}
use gotaxy.Shell.Terminal.{cancel_server}
use gotaxy.Shell.Terminal.Inv.{IsKept, enter_inv}
use gotaxy.Relay.Frame.{relay-Untouched}
use gotaxy.System.{
  Event, terminal, api_start, api_stop, api_config_update, api_mappings_add, api_mappings_delete,
  api_mappings_update, api_mappings_toggle, traffic_report, tick, tunnel, serve, run,
}
use gotaxy.Prelude.{ℕ, String, ◌≢◌, ◌∙◌, refl, Bool, true, none, eq_iff}
use gotaxy.Utils.{is_validate_email}
use gotaxy.Session.{Smux, get_session}
use gotaxy.EventBus.{EventBus, Event as Signal}
use gotaxy.Alert.{Mail, sent, handle_client_disconnected}
use gotaxy.Server.{Handler, alerts, new_server}
use gotaxy.Tunnel.{lose_client}
use gotaxy.Tunnel.Heartbeats.{lost_mail, lose_client-sent}
use gotaxy.Shell.Frame.{handle_config-event_bus}
use gotaxy.Web.Frame.{update_config_handler-event_bus}
use gotaxy.System.{start_up}
use gotaxy.System.Settings.{run-IsConfigured}

module _ {Db : Type 0} (engine : Engine Db) where
  -- The subscriptions are `b`.
  abbrev Wired : EventBus Handler → GotaxyServer Db → Type 0
  Wired b s = s.event_bus ≡ b

  commands-Wired : (b : EventBus Handler) → IsKept engine (Wired b)
  unfolding cancel_server
  commands-Wired b = record {
    service = λ exists args s v. (handle_service-IsQuiet exists args s).1 ∙ v;
    config = λ args s v. handle_config-event_bus engine s args ∙ v;
    mapping = λ args s _ v. (handle_mapping-IsQuiet engine s args).1 ∙ v;
    cancelled = λ s v. ground (arith, v);
  }

  on_traffic_report-Wired :
      (s : GotaxyServer Db) (p : Payload) → (on_traffic_report s p).event_bus ≡ s.event_bus
  unfolding on_traffic_report
  on_traffic_report-Wired s (traffic name bytes) = refl
  on_traffic_report-Wired s (disconnected _ _) = refl
  on_traffic_report-Wired s (connected _ _) = refl

  serve-event_bus : (s : GotaxyServer Db) (e : Event) → (serve engine s e).event_bus ≡ s.event_bus
  unfolding serve persist
  serve-event_bus s (terminal exists input) =
      enter_inv engine (Wired s.event_bus) (commands-Wired s.event_bus) exists input s refl
  serve-event_bus s (api_start exists) = (start_service_handler-IsQuiet exists s).1
  serve-event_bus s api_stop = (stop_service_handler-IsQuiet s).1
  serve-event_bus s (api_config_update body) = update_config_handler-event_bus engine s body
  serve-event_bus s (api_mappings_add body) = (add_mapping_handler-IsQuiet engine s body).1
  serve-event_bus s (api_mappings_delete body) = (delete_mapping_handler-IsQuiet engine s body).1
  serve-event_bus s (api_mappings_update body) = (update_mapping_handler-IsQuiet engine s body).1
  serve-event_bus s (api_mappings_toggle body) = (toggle_mapping_handler-IsQuiet s body).1
  serve-event_bus s (traffic_report payload) = on_traffic_report-Wired s payload
  serve-event_bus s tick = refl
  serve-event_bus s (tunnel step) = (relay-Untouched step s).2

  pub run-event_bus :
      (s : GotaxyServer Db) (events : List Event) → (run engine s events).event_bus ≡ s.event_bus
  unfolding run
  run-event_bus s [] = refl
  run-event_bus s (e ∷ events) = run-event_bus (serve engine s e) events ∙ serve-event_bus s e

  start_up-event_bus : (db : Db) → (start_up engine db).event_bus ≡ (new_server db).event_bus
  unfolding start_up
  start_up-event_bus db = refl

  -- Whenever the heartbeat gives a client up, in a server that was started from settings that are valid and
  -- has served any events since: no session of the client is left, its session is closed, and
  -- the alert router is started and nothing else. When this runs, after any more events, it sends the mail
  -- about the client to the address that is set then, if one is and the dialer takes the mail.
  pub lose_client-told :
      (db : Db) (dial_and_send : Mail → Bool) (now : ℕ) (client_id email : String) (session : Smux)
      (events later : List Event)
      → IsConfigured (start_up engine db).config
      → (run engine
          (lose_client now client_id session (run engine (start_up engine db) events)).0
          later).config.email
        ≡ email
      → email ≢ ""
      → dial_and_send (lost_mail email client_id now) ≡ true
      → let (left, started, ended) =
          lose_client now client_id session (run engine (start_up engine db) events) in
        (get_session left.sessions client_id ≡ none)
        × (ended ≡ session)
        × (e : Signal) × (started ≡ (alerts, e) ∷ [])
        × (handle_client_disconnected dial_and_send (run engine left later).config.email e
            ≡ sent (lost_mail email client_id now))
  unfolding lose_client
  lose_client-told db dial_and_send now client_id email session events later v set given accepted =
      let s = run engine (start_up engine db) events in
      let left = (lose_client now client_id session s).0 in
      let wired = run-event_bus (start_up engine db) events ∙ start_up-event_bus db in
      let kept =
        run-IsConfigured engine left later
          (run-IsConfigured engine (start_up engine db) events v) in
      let valid : is_validate_email email ≡ true =
        ground (arith, kept.email, set, given, eq_iff email "") in
      rw set (lose_client-sent db dial_and_send now client_id session s email wired valid accepted)
