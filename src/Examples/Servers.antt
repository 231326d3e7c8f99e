-- ===== src/Examples/Servers.antt =====
-- The theorems on the configuration, the tables and the server, for a server with one rule.
use mathlib.Core.Option
use mathlib.Core.Option.{get_or}
use gotaxy.Prelude.{◌≡◌, refl, true, some, List, [], ◌∷◌, arith}
use gotaxy.Prelude.Dict.{lookup}
use gotaxy.Strconv.{parsed, parse_int}
use gotaxy.Context.{done}
use gotaxy.Session.{new_manager}
use gotaxy.Session.View.{view, new_manager-IsLinked}
use gotaxy.Storage.Rules.{durable}
use gotaxy.Storage.Memory.{tables, memory, memory-IsSql, memory-IsReliable}
use gotaxy.Config.{config_load, value_of}
use gotaxy.Config.Load.{IsLoaded, IsCompleted, config_load-stored, config_load-IsCompleted}
use gotaxy.Server.{new_server, persist}
use gotaxy.Server.Persistence.{stored, persist-rows, persist-total}
use gotaxy.EventBus.{traffic}
use gotaxy.Control.{check_server_cert_exist}
use gotaxy.Control.Sync.{IsSynced}
use gotaxy.Shell.{handle_service}
use gotaxy.Shell.Terminal.{line}
use gotaxy.System.{
  Event, terminal, api_mappings_update, api_mappings_toggle, traffic_report, tick, run,
}
use gotaxy.System.Sync.{run-IsSynced}
use gotaxy.System.Lifecycle.{service_restart-done}
use gotaxy.Examples.{
  web_row, web_manager, web_manager-IsLinked, web_manager-IsMap, one_setting, full_db, partial_db,
  empty_db, web_server, all_files, loading,
}

-- A rule is added, counted, updated, switched on, deleted in vain, and the counters are stored.
abbrev events : List Event
events =
    terminal all_files (line "mapping add web  8080 127.0.0.1:80")
    ∷ traffic_report (traffic "web" 300)
    ∷ api_mappings_update (
        some (record {
          name = "web";
          public_port = "8081";
          target_addr = "127.0.0.1:81";
          rate_limit = 1000;
        }))
    ∷ terminal all_files (line " service start ")
    ∷ api_mappings_toggle (some (record { name = "web"; enable = true }))
    ∷ terminal all_files (line "config set port 9100")
    ∷ terminal all_files (line "mapping del other")
    ∷ tick
    ∷ []

new_server-IsSynced : IsSynced (new_server empty_db).sessions (tables (new_server empty_db).db)
unfolding new_server view lookup durable
new_server-IsSynced = record { linked = new_manager-IsLinked; unnamed = refl; rules = λ k. refl }

run-IsSynced_example :
    IsSynced
      (run memory (new_server empty_db) events).sessions
      (tables (run memory (new_server empty_db) events).db)
run-IsSynced_example =
    run-IsSynced memory tables memory-IsSql memory-IsReliable (new_server empty_db) events
      new_server-IsSynced

persist-rows_example :
    lookup (tables (persist memory (web_server true)).db).mapping "web"
    ≡ Option.map (stored (view web_manager "web")) (lookup (tables full_db).mapping "web")
persist-rows_example =
    persist-rows memory tables memory-IsSql memory-IsReliable (web_server true) "web"
      web_manager-IsMap web_manager-IsLinked

persist-total_example :
    parse_int (value_of (tables (persist memory (web_server true)).db).config "total_traffic")
    ≡ parsed 1000
persist-total_example =
    persist-total memory tables memory-IsSql memory-IsReliable (web_server true) "700" (omega arith)
      (unfold lookup in refl)

parse_700 : parse_int (value_of (tables full_db).config "total_traffic") ≡ parsed 700
unfolding lookup parse_int gotaxy.Strconv.signed
parse_700 = refl

config_load-stored_example :
    IsLoaded tables new_manager (config_load memory (loading full_db))
    × ((config_load memory (loading full_db)).db ≡ full_db)
config_load-stored_example =
    config_load-stored memory tables memory-IsSql memory-IsReliable (loading full_db) 700 refl
      parse_700 new_manager-IsLinked

parse_0 : parse_int (get_or (lookup (tables partial_db).config "total_traffic") "0") ≡ parsed 0
unfolding lookup parse_int gotaxy.Strconv.signed
parse_0 = refl

config_load-IsCompleted_example :
    IsLoaded tables new_manager (config_load memory (loading partial_db))
    × IsCompleted one_setting (tables (config_load memory (loading partial_db)).db).config
    × ((tables (config_load memory (loading partial_db)).db).mapping ≡ ("web", web_row) ∷ [])
config_load-IsCompleted_example =
    config_load-IsCompleted memory tables memory-IsSql memory-IsReliable (loading partial_db) 0
      (λ e. omega arith) parse_0 new_manager-IsLinked

service_restart-done_example :
    let stopped = (handle_service all_files ("stop" ∷ []) (web_server true)).0 in
    let started = (handle_service all_files ("start" ∷ []) stopped).0 in
    (started.is_run ≡ true) × (done started.contexts started.ctx ≡ true)
service_restart-done_example =
    service_restart-done all_files (web_server true) 0 [] refl refl refl
      (unfold check_server_cert_exist in refl)
