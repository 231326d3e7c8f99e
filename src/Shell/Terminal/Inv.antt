-- ===== src/Shell/Terminal/Inv.antt =====
-- What every command keeps, the terminal keeps; and a line always has a first word.
use gotaxy.Prelude.{
  String, ◌≡◌, ◌≢◌, Bool, List, [], ◌∷◌, arith, str_eq, eq_iff, All, Option-cases, inl, inr,
}
use gotaxy.Strings.{trim_space, cut_prefix}
use gotaxy.Strings.Fields.{IsFilled, fields-IsFilled, fields-trim_space_ne}
use gotaxy.Server.{GotaxyServer}
use gotaxy.Storage.{Engine}
use gotaxy.Control.Sync.{both}
use gotaxy.Shell.{handle_service, handle_config}
use gotaxy.Shell.Mappings.{handle_mapping}
use gotaxy.Prelude.Dict.{lookup}
use gotaxy.Shell.Registry.{
  CommandHandler, service, config, mapping, cert, clear, register_cmd, run_handler,
}
use gotaxy.Shell.Terminal.{
  Input, line, interrupt, eof, Command, nothing, help, exit, mode, set_mode, words, read_command,
  dispatch, cancel_server, run_command, enter,
}

-- The words of a command are not empty, and there is a first one.
abbrev pub IsSpoken : Command → Type 0
IsSpoken (words parts) = (parts ≢ []) × All IsFilled parts
IsSpoken _ = Unit

-- Whatever the line, the words that `parts[0]` is taken of are not none, and no word is empty.
pub read_command-IsSpoken : (text : String) → IsSpoken (read_command text)
unfolding read_command
read_command-IsSpoken text =
    let said = trim_space text in
    both IsSpoken (str_eq said "") (λ _. tt)
      (λ e. elim (Option-cases (cut_prefix said "mode ")) [
        | inr (name, p) ↦ rw p tt
        | inl p ↦ rw p (
            both IsSpoken (str_eq said "mode") (λ _. tt)
              (λ _.
                both IsSpoken (str_eq said "help") (λ _. tt)
                  (λ _.
                    both IsSpoken (str_eq said "exit") (λ _. tt)
                      (λ _. (
                        fields-trim_space_ne text
                            (λ (q : said ≡ ""). ground (arith, eq_iff said "")),
                        fields-IsFilled said,
                      )))))
      ])

module _ {ℓ} {Db : Type 0} (engine : Engine Db) (P : GotaxyServer Db → Type ℓ) where
  -- The handlers and `exit` keep `P`.
  pub record IsKept : Type ℓ where
    pub service :
        (exists : String → Bool) (args : List String) (s : GotaxyServer Db)
        → P s
        → P (handle_service exists args s).0
    pub config :
        (args : List String) (s : GotaxyServer Db) → P s → P (handle_config engine args s).0
    pub mapping :
        (args : List String) (s : GotaxyServer Db)
        → All IsFilled args
        → P s
        → P (handle_mapping engine args s).0
    pub cancelled : (s : GotaxyServer Db) → P s → P (cancel_server engine s)

  module _ (kept : IsKept) where
    run_handler_inv :
        (handler : CommandHandler) (exists : String → Bool) (args : List String)
        (s : GotaxyServer Db)
        → All IsFilled args
        → P s
        → P (run_handler engine handler exists args s)
    unfolding run_handler
    run_handler_inv service exists args s h v = kept.service exists args s v
    run_handler_inv config exists args s h v = kept.config args s v
    run_handler_inv mapping exists args s h v = kept.mapping args s h v
    run_handler_inv cert exists args s h v = v
    run_handler_inv clear exists args s h v = v

    dispatch_inv :
        (exists : String → Bool) (parts : List String) (s : GotaxyServer Db)
        → All IsFilled parts
        → P s
        → P (dispatch engine exists parts s)
    unfolding dispatch
    dispatch_inv exists [] s h v = v
    dispatch_inv exists (cmd ∷ args) s h v = elim (Option-cases (lookup (register_cmd []) cmd)) [
      | inl e ↦ rw (e, dispatch) v
      | inr (handler, e) ↦ rw (e, dispatch) (run_handler_inv handler exists args s h.1 v)
    ]

    run_command_inv :
        (exists : String → Bool) (c : Command) (s : GotaxyServer Db)
        → IsSpoken c
        → P s
        → P (run_command engine exists c s).0
    unfolding run_command
    run_command_inv exists (words parts) s h v = dispatch_inv exists parts s h.1 v
    run_command_inv exists exit s h v = kept.cancelled s v
    run_command_inv exists nothing s h v = v
    run_command_inv exists help s h v = v
    run_command_inv exists mode s h v = v
    run_command_inv exists (set_mode name) s h v = v

    pub enter_inv :
        (exists : String → Bool) (i : Input) (s : GotaxyServer Db)
        → P s
        → P (enter engine exists i s).0
    unfolding enter
    enter_inv exists (line text) s v =
        run_command_inv exists (read_command text) s (read_command-IsSpoken text) v
    enter_inv exists (interrupt typed) s v = v
    enter_inv exists eof s v = v
