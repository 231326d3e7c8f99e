-- ===== src/Shell/Registry.antt =====
-- The commands that `RegisterCMD` of internal/shell/shellcmd.go puts into the map of the terminal, and the words
-- that `buildCompleter` of internal/shell/shellcli.go offers.
use gotaxy.Prelude.{String, Bool, false, ◌||◌, List, [], ◌∷◌, str_eq, if◌then◌else◌}
use gotaxy.Prelude.Dict.{Dict, insert}
use gotaxy.Server.{GotaxyServer}
use gotaxy.Storage.{Engine}
use gotaxy.Shell.{handle_service, handle_config}
use gotaxy.Shell.Mappings.{handle_mapping}

-- The functions that are registered; `cert` and `clear` do not touch the server.
pub data CommandHandler : Type 0 where
  service config mapping cert clear : CommandHandler

abbrev pub Commands : Type 0
Commands = Dict CommandHandler

abbrev pub register : Commands → String → CommandHandler → Commands
register commands cmd handler = insert commands cmd handler

unfoldable pub register_cmd : Commands → Commands
register_cmd commands =
    let with_service = register commands "service" service in
    let with_config = register with_service "config" config in
    let with_mapping = register with_config "mapping" mapping in
    register (register with_mapping "cert" cert) "clear" clear

module _ {Db : Type 0} (engine : Engine Db) where
  unfoldable pub run_handler :
      CommandHandler → (String → Bool) → List String → GotaxyServer Db → GotaxyServer Db
  run_handler service exists args server = (handle_service exists args server).0
  run_handler config exists args server = (handle_config engine args server).0
  run_handler mapping exists args server = (handle_mapping engine args server).0
  run_handler cert exists args server = server
  run_handler clear exists args server = server

-- `readline.PcItem`: a word, the words below it, and the words beside it.
pub data Items : Type 0 where
  stop : Items
  pc_item : String → Items → Items → Items

abbrev leaves : List String → Items
leaves [] = stop
leaves (word ∷ words) = pc_item word stop (leaves words)

unfoldable pub build_completer : Items
build_completer = pc_item "service" (leaves ("start" ∷ "stop" ∷ "status" ∷ [])) (
    pc_item "config"
      (pc_item "show" stop (pc_item "set" (leaves ("ip" ∷ "port" ∷ "email" ∷ [])) stop))
      (pc_item "mapping" (leaves ("list" ∷ "add" ∷ "del" ∷ "upd" ∷ "start" ∷ "stop" ∷ [])) (
        pc_item "cert" (leaves ("ca" ∷ "gen" ∷ [])) (
          pc_item "mode" (leaves ("vi" ∷ "emacs" ∷ []))
            (leaves ("help" ∷ "exit" ∷ "clear" ∷ []))))))

-- The words below a path of words, and whether a word is among them.
abbrev pub below : Items → String → Items
below stop word = stop
below (pc_item w under beside) word = if str_eq w word then under else below beside word

abbrev pub offers : Items → String → Bool
offers stop word = false
offers (pc_item w under beside) word = str_eq word w || offers beside word
