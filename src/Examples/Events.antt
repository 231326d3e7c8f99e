-- ===== src/Examples/Events.antt =====
-- The theorems on the settings, the event bus and the alerts, for a lost client.
use gotaxy.Prelude.{not, ◌≡◌, refl, true, false, some, [], ◌∷◌}
use gotaxy.Utils.{is_validate_ip}
use gotaxy.Strconv.{atoi}
use gotaxy.Control.{is_port}
use gotaxy.Config.{Config}
use gotaxy.Server.{GotaxyServer}
use gotaxy.Storage.Memory.{Memory, memory}
use gotaxy.Control.Settings.{IsConfigured}
use gotaxy.Shell.Terminal.{line}
use gotaxy.System.{terminal, api_config_update, tick, run}
use gotaxy.System.Settings.{run-IsConfigured}
use gotaxy.Shell.{handle_service, handle_config}
use gotaxy.Shell.Mappings.{handle_mapping}
use gotaxy.Shell.Terminal.{read_command, vim_mode}
use gotaxy.Strings.{trim_space, fields, cut_prefix}
use gotaxy.Certs.Handlers.{cert_command}
use gotaxy.Shell.Registry.{build_completer, below, offers}
use gotaxy.Shell.Mappings.Completion.{
  is_given, is_known, is_unknown, IsWord, handle-build_completer,
}
use gotaxy.Examples.{web_server, all_files, web_server, all_files}

abbrev settings : Config
settings = record {
  name = "";
  server_ip = "127.0.0.1";
  listen_port = "9000";
  email = "";
  total_traffic = 0;
}

settings-IsConfigured : IsConfigured settings
unfolding is_validate_ip is_port atoi gotaxy.Strconv.signed
settings-IsConfigured = record { server_ip = refl; listen_port = refl; email = refl }

abbrev configured_server : GotaxyServer Memory
configured_server = record (web_server true) { config = settings }

run-IsConfigured_example :
    IsConfigured
      (run memory configured_server (
        terminal all_files (line "config set port 70000")
        ∷ api_config_update (some (record { server_ip = "10.0.0.1"; listen_port = ""; email = "" }))
        ∷ tick
        ∷ [])).config
run-IsConfigured_example =
    run-IsConfigured memory configured_server
      (terminal all_files (line "config set port 70000")
        ∷ api_config_update (some (record { server_ip = "10.0.0.1"; listen_port = ""; email = "" }))
        ∷ tick
        ∷ [])
      settings-IsConfigured

service-IsWord : IsWord "service"
unfolding trim_space fields cut_prefix gotaxy.Strings.is_space gotaxy.Strings.trim_left
    gotaxy.Strings.trim_right gotaxy.Strings.split_words
service-IsWord = record { filled = refl; trimmed = refl; one = refl; unparted = refl }

handle-build_completer_example :
    (offers build_completer "service" ≡ is_known (read_command "service"))
    × (offers (below build_completer "service") "service"
        ≡ not (is_unknown (handle_service all_files ("service" ∷ []) (web_server false)).1))
    × (offers (below build_completer "config") "service"
        ≡ not (is_unknown (handle_config memory ("service" ∷ []) (web_server false)).1))
    × (offers (below (below build_completer "config") "set") "service"
        ≡ not (
            is_unknown
              (handle_config memory ("set" ∷ "service" ∷ "9100" ∷ []) (web_server false)).1))
    × (offers (below build_completer "mapping") "service"
        ≡ not (is_unknown (handle_mapping memory ("service" ∷ []) (web_server false)).1))
    × (offers (below build_completer "cert") "service" ≡ is_given (cert_command "service"))
    × (offers (below build_completer "mode") "service" ≡ is_given (vim_mode "service"))
handle-build_completer_example =
    handle-build_completer memory all_files "service" "9100" (web_server false) service-IsWord
