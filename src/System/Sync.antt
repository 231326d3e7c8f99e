-- ===== src/System/Sync.antt =====
-- Port, target and limit of each rule stay the same in memory and in the database, under every event.
use gotaxy.Prelude.{refl, Option, none, some, List, [], ◌∷◌, Option-cases, inl, inr}
use gotaxy.Int64.{is_positive}
use gotaxy.Strconv.{format_int}
use gotaxy.EventBus.{Payload, traffic, connected, disconnected}
use gotaxy.Session.{Mapping, Manager, Ref, read, add_traffic, with_more_traffic, get_all_mappings}
use gotaxy.Storage.Sql.{Tables, update_config, update_traffic}
use gotaxy.Storage.Laws.{IsSql, IsReliable}
use gotaxy.Storage.{Engine, update_cfg, update_tra}
use gotaxy.Server.{GotaxyServer, on_traffic_report, persist_mapping, persist_mappings, persist}
use gotaxy.Control.Sync.{IsSynced, both, change-IsSynced_same}
use gotaxy.Control.Stored.{quiet-IsSynced}
use gotaxy.Shell.Sync.{handle_service-IsSynced, handle_config-IsSynced}
use gotaxy.Shell.Mappings.Sync.{handle_mapping-IsSynced}
use gotaxy.Shell.Terminal.{cancel_server}
use gotaxy.Shell.Terminal.Inv.{IsKept, enter_inv}
use gotaxy.Web.Sync.{
  start_service_handler-IsSynced, stop_service_handler-IsSynced, update_config_handler-IsSynced,
}
use gotaxy.Web.Mappings.Sync.{
  toggle_mapping_handler-IsSynced, add_mapping_handler-IsSynced, delete_mapping_handler-IsSynced,
  update_mapping_handler-IsSynced,
}
use gotaxy.Relay.Sync.{relay-IsSynced}
use gotaxy.System.{
  Event, terminal, api_start, api_stop, api_config_update, api_mappings_add, api_mappings_delete,
  api_mappings_update, api_mappings_toggle, traffic_report, tick, tunnel, serve, run,
}

module _ {Db : Type 0} (engine : Engine Db) (tables : Db → Tables)
    (laws : IsSql engine tables) where
  abbrev Synced : GotaxyServer Db → Type 0
  Synced s = IsSynced s.sessions (tables s.db)

  on_traffic_report-Synced :
      (s : GotaxyServer Db) (p : Payload) → Synced s → Synced (on_traffic_report s p)
  unfolding on_traffic_report add_traffic
  on_traffic_report-Synced s (traffic name bytes) v =
      change-IsSynced_same name (with_more_traffic bytes) (λ x. refl) (λ x. refl) v
  on_traffic_report-Synced s (disconnected _ _) v = v
  on_traffic_report-Synced s (connected _ _) v = v

  persist_mapping-IsSynced :
      {m : Manager} (db : Db) (o : Option Mapping)
      → IsSynced m (tables db)
      → IsSynced m (tables (persist_mapping engine db o))
  unfolding persist_mapping update_tra
  persist_mapping-IsSynced db none v = v
  persist_mapping-IsSynced {m} db (some x) v =
      both (λ d. IsSynced m (tables d)) (is_positive x.traffic)
        (λ _.
          quiet-IsSynced engine tables laws db (update_traffic x.traffic x.name) (λ rules j. refl)
            v)
        (λ _. v)

  persist_mappings-IsSynced :
      {m : Manager} (n : Manager) (db : Db) (l : List Ref)
      → IsSynced m (tables db)
      → IsSynced m (tables (persist_mappings engine n db l))
  unfolding persist_mappings
  persist_mappings-IsSynced n db [] v = v
  persist_mappings-IsSynced n db (r ∷ l) v =
      persist_mappings-IsSynced n (persist_mapping engine db (read n r)) l
        (persist_mapping-IsSynced db (read n r) v)

  persist-Synced : (s : GotaxyServer Db) → Synced s → Synced (persist engine s)
  unfolding persist update_cfg
  persist-Synced s v = persist_mappings-IsSynced s.sessions _ (get_all_mappings s.sessions) (
      quiet-IsSynced engine tables laws s.db
        (update_config (format_int s.config.total_traffic) "total_traffic") (λ rules j. refl) v)

  module _ (works : IsReliable engine tables) where
    cancel_server-Synced : (s : GotaxyServer Db) → Synced s → Synced (cancel_server engine s)
    unfolding cancel_server
    cancel_server-Synced s v = elim (Option-cases s.cancel) [
      | inl e ↦ rw (e, cancel_server) v
      | inr (i, e) ↦ rw (e, cancel_server) v
    ]

    commands-IsKept : IsKept engine Synced
    commands-IsKept = record {
      service = handle_service-IsSynced tables;
      config = handle_config-IsSynced engine tables laws;
      mapping = handle_mapping-IsSynced engine tables laws works;
      cancelled = cancel_server-Synced;
    }

    serve-Synced : (s : GotaxyServer Db) (e : Event) → Synced s → Synced (serve engine s e)
    unfolding serve
    serve-Synced s (terminal exists input) v =
        enter_inv engine Synced commands-IsKept exists input s v
    serve-Synced s (api_start exists) v = start_service_handler-IsSynced tables exists s v
    serve-Synced s api_stop v = stop_service_handler-IsSynced tables s v
    serve-Synced s (api_config_update body) v =
        update_config_handler-IsSynced engine tables laws body s v
    serve-Synced s (api_mappings_add body) v =
        add_mapping_handler-IsSynced engine tables laws body s v
    serve-Synced s (api_mappings_delete body) v =
        delete_mapping_handler-IsSynced engine tables laws works body s v
    serve-Synced s (api_mappings_update body) v =
        update_mapping_handler-IsSynced engine tables laws works body s v
    serve-Synced s (api_mappings_toggle body) v =
        toggle_mapping_handler-IsSynced engine tables laws body s v
    serve-Synced s (traffic_report payload) v = on_traffic_report-Synced s payload v
    serve-Synced s tick v = persist-Synced s v
    serve-Synced s (tunnel step) v = relay-IsSynced tables step s v

    -- Whatever lines, requests, reports, ticks and steps of the tunnel the server serves, in whatever
    -- order: if memory and database had the same rules, with the same port, target address and rate limit
    -- for each name, in a linked table without an empty name, they still have, on a database that fails only
    -- where SQL says. Flags and counters are not compared.
    pub run-IsSynced :
        (s : GotaxyServer Db) (events : List Event)
        → IsSynced s.sessions (tables s.db)
        → IsSynced (run engine s events).sessions (tables (run engine s events).db)
    unfolding run
    run-IsSynced s [] v = v
    run-IsSynced s (e ∷ events) v = run-IsSynced (serve engine s e) events (serve-Synced s e v)
