-- ===== src/Shell/Terminal.antt =====
-- internal/shell/shellcli.go: the loop that reads a line and dispatches it to a command. The line
-- editor itself is not part of the program: what `Readline` gives is an `Input`.
pub mod Inv
use gotaxy.Prelude.{
  String, Bool, true, false, not, Option, none, some, List, [], ◌∷◌, str_eq, if◌then◌else◌,
}
use gotaxy.Strings.{trim_space, fields, cut_prefix}
use gotaxy.Context.{cancel}
use gotaxy.Server.{GotaxyServer}
use gotaxy.Storage.{Engine}
use gotaxy.Prelude.Dict.{lookup}
use gotaxy.Shell.Registry.{register_cmd, run_handler}

-- A line, an interrupt with what was typed so far, or the end of the input.
pub data Input : Type 0 where
  line : String → Input
  interrupt : String → Input
  eof : Input

-- A line as the loop reads it: one of the fixed commands, or the words of another.
pub data Command : Type 0 where
  nothing help exit mode : Command
  set_mode : String → Command
  words : List String → Command

unfoldable pub read_command : String → Command
read_command text =
    let line = trim_space text in
    if str_eq line "" then nothing else elim (cut_prefix line "mode ") [
      | some name ↦ set_mode name
      | none ↦
          if str_eq line "mode"
          then mode
          else if str_eq line "help"
          then help
          else if str_eq line "exit"
          then exit
          else words (fields line)
    ]

-- What `mode <name>` sets the Vim mode to, if it knows the name.
unfoldable pub vim_mode : String → Option Bool
vim_mode name =
    if str_eq name "vi" then some true else if str_eq name "emacs" then some false else none

module _ {Db : Type 0} (engine : Engine Db) where
  -- The handler that `RegisterCMD` has put into the map under the first word, if there is one; an unknown
  -- word is reported. There is always a first word.
  unfoldable pub dispatch : (String → Bool) → List String → GotaxyServer Db → GotaxyServer Db
  unfolding register_cmd run_handler
  dispatch exists [] server = server
  dispatch exists (cmd ∷ args) server = elim (lookup (register_cmd []) cmd) [
    | none ↦ server
    | some handler ↦ run_handler engine handler exists args server
  ]

  -- `exit`: server.Cancel(), if there is one.
  unfoldable pub cancel_server : GotaxyServer Db → GotaxyServer Db
  cancel_server server = elim server.cancel [
    | none ↦ server
    | some i ↦ record server { contexts = cancel server.contexts i }
  ]

  unfoldable pub run_command : (String → Bool) → Command → GotaxyServer Db → GotaxyServer Db × Bool
  unfolding dispatch cancel_server
  run_command exists (words parts) server = (dispatch exists parts server, true)
  run_command exists exit server = (cancel_server server, false)
  run_command exists nothing server = (server, true)
  run_command exists help server = (server, true)
  run_command exists mode server = (server, true)
  run_command exists (set_mode name) server = (server, true)

  -- One round of the loop of `Run`: the server, and whether there is another round.
  unfoldable pub enter : (String → Bool) → Input → GotaxyServer Db → GotaxyServer Db × Bool
  unfolding run_command read_command
  enter exists (line text) server = run_command exists (read_command text) server
  enter exists (interrupt typed) server = (server, not (str_eq typed ""))
  enter exists eof server = (server, false)
