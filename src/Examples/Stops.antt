-- ===== src/Examples/Stops.antt =====
-- The service is stopped, and started again at once; and a rule is switched on while it does not run.
use gotaxy.Strconv.{parse_int, signed}
use gotaxy.Session.{update_enable, with_enable, get_mapping}
use gotaxy.Session.View.{view, IsLinked, change-IsLinked}
use gotaxy.Storage.Memory.{Memory, tables, memory, memory-IsSql, memory-IsReliable}
use gotaxy.Server.{GotaxyServer}
use gotaxy.Control.{mapping_of}
use gotaxy.Shell.Mappings.{handle_mapping}
use gotaxy.Web.Mappings.{toggle_mapping_handler}
use gotaxy.System.{start_up}
use gotaxy.System.Startup.{IsReadable}
use gotaxy.System.Switching.{handle_mapping-switched}
use gotaxy.Prelude.{◌≡◌, refl, true, false, some, [], ◌∷◌, arith}
use gotaxy.Prelude.Dict.{insert, lookup}
use gotaxy.Int64.{add64}
use gotaxy.Control.{check_server_cert_exist}
use gotaxy.Session.{Mapping, read, set_mapping, add_traffic, change, modify, new_mapping, write}
use gotaxy.Session.Refinement.{call, calls}
use gotaxy.Shell.{handle_service}
use gotaxy.Web.{start_service_handler, stop_service_handler}
use gotaxy.Tunnel.{unaccepted, wait_control_conn}
use gotaxy.Proxy.{ends, listener_round, unaccepted as not_accepted}
use gotaxy.System.Stopping.{IsRunning, stop_service_handler-ends, start_service_handler-spins}
use gotaxy.Examples.{web_manager, web_server, all_files, full_db, web_row, web_manager-IsLinked}

abbrev web_mapping : Mapping
web_mapping = record (new_mapping "web" "8080" "127.0.0.1:80" true 0 2097152) { traffic = 300 }

read-web : read web_manager 0 ≡ some web_mapping
unfolding calls call set_mapping add_traffic change insert lookup write modify add64
read-web = refl

web_server-IsRunning : IsRunning (web_server true) 0 []
web_server-IsRunning = record {
  running = refl;
  cancels = refl;
  context = refl;
  given = omega arith;
}

stop_service_handler-ends_example :
    let stopped = (stop_service_handler (web_server true)).0 in
    (stopped ≡ (handle_service all_files ("stop" ∷ []) (web_server true)).0)
    × ((wait_control_conn 5 unaccepted stopped).2 ≡ false)
    × (listener_round (0 ∷ []) 0 "127.0.0.1:80" (web_server true) not_accepted stopped ≡ ends false)
stop_service_handler-ends_example =
    stop_service_handler-ends all_files (web_server true) 0 [] 5 0 "127.0.0.1:80" (web_server true)
      web_mapping web_server-IsRunning read-web

start_service_handler-spins_example :
    let restarted =
      (start_service_handler all_files (stop_service_handler (web_server true)).0).0 in
    ((wait_control_conn 5 unaccepted restarted).2 ≡ true)
    × (listener_round (0 ∷ []) 0 "127.0.0.1:80" (web_server true) not_accepted restarted
        ≡ ends false)
start_service_handler-spins_example =
    start_service_handler-spins all_files (web_server true) 0 [] 5 0 "127.0.0.1:80"
      (web_server true) web_mapping web_server-IsRunning tt (unfold check_server_cert_exist in refl)
      read-web

full_db-IsReadable : IsReadable (tables full_db) 700
unfolding parse_int signed lookup
full_db-IsReadable = record { parses = refl; present = λ _. λ h. cc; named = refl }

-- The rule `web` is off in memory, and its row is enabled.
abbrev switched_off : GotaxyServer Memory
switched_off = record (web_server false) { sessions = (update_enable web_manager "web" false).0 }

abbrev web_off : Mapping
web_off =
    with_enable false
      (record (new_mapping "web" "8080" "127.0.0.1:80" true 0 2097152) { traffic = 300 })

off_found : mapping_of switched_off.sessions "web" ≡ some (0, web_off)
unfolding get_mapping update_enable change write modify calls call set_mapping add_traffic insert
    lookup add64
off_found = refl

off-IsLinked : IsLinked switched_off.sessions
unfolding update_enable
off-IsLinked = change-IsLinked "web" (with_enable false) (λ x. refl) web_manager-IsLinked

handle_mapping-switched_example :
    let typed = (handle_mapping memory ("start" ∷ "web" ∷ []) switched_off).0 in
    let panel =
      (toggle_mapping_handler (some (record { name = "web"; enable = true })) switched_off).0 in
    (view typed.sessions "web" ≡ some (with_enable true web_off))
    × (view panel.sessions "web" ≡ some (with_enable true web_off))
    × ((y : Mapping) × (view (start_up memory typed.db).sessions "web" ≡ some y)
        × (y.enable ≡ true))
    × ((y : Mapping) × (view (start_up memory panel.db).sessions "web" ≡ some y)
        × (y.enable ≡ web_row.enable))
handle_mapping-switched_example =
    handle_mapping-switched memory tables memory-IsSql memory-IsReliable switched_off "web" 0
      web_off web_row 700 off_found refl off-IsLinked (unfold lookup in refl) full_db-IsReadable
