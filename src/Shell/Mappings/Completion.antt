-- ===== src/Shell/Mappings/Completion.antt =====
-- The map of commands and the completer against what the terminal takes.
use gotaxy.Prelude.{
  String, ◌≡◌, ◌∙◌, ap, Option, if◌then◌else◌, Bool, true, false, not, ◌||◌, none, some, [], ◌∷◌,
  arith, str_eq, eq_iff,
}
use gotaxy.Prelude.Dict.{lookup, insert}
use gotaxy.Server.{GotaxyServer}
use gotaxy.Storage.{Engine}
use gotaxy.Shell.{
  Said, unknown, handle_service, handle_config, start_service, stop_service, config_set, set_config,
}
use gotaxy.Shell.Mappings.{handle_mapping, with_name, add_args, upd_args}
use gotaxy.Strings.{trim_space, fields, cut_prefix}
use gotaxy.Certs.Handlers.{cert_command}
use gotaxy.Shell.Terminal.{
  Command, nothing, help, exit, mode, set_mode, words, read_command, vim_mode,
}
use gotaxy.Shell.Registry.{register_cmd, build_completer, below, offers}

abbrev pub is_registered : String → Bool
is_registered cmd = elim (lookup (register_cmd []) cmd) [ none ↦ false | some _ ↦ true ]

abbrev pub is_given {ℓ} : {A : Type ℓ} → Option A → Bool
is_given none = false
is_given (some _) = true

abbrev pub is_unknown : Said → Bool
is_unknown unknown = true
is_unknown _ = false

-- The two orders of a comparison.
str_eq_comm : (a b : String) → str_eq a b ≡ str_eq b a
str_eq_comm a b = ground (arith, eq_iff a b, eq_iff b a)

is_registered-str_eq :
    (w : String)
    → is_registered w ≡ (
        str_eq "service" w
        || str_eq "config" w
        || str_eq "mapping" w
        || str_eq "cert" w
        || str_eq "clear" w)
unfolding register_cmd insert lookup
is_registered-str_eq w = ground arith

offers-registered :
    (w : String)
    → offers build_completer w
      ≡ (str_eq w "mode" || str_eq w "help" || str_eq w "exit" || is_registered w)
unfolding build_completer
offers-registered w =
    rw
      (
        is_registered-str_eq w,
        str_eq_comm "service" w,
        str_eq_comm "config" w,
        str_eq_comm "mapping" w,
        str_eq_comm "cert" w,
        str_eq_comm "clear" w,
      )
      (ground arith)

-- Whether a line is one of the fixed commands, or begins with a word that is registered.
abbrev pub is_known : Command → Bool
is_known nothing = false
is_known help = true
is_known exit = true
is_known mode = true
is_known (set_mode name) = is_given (vim_mode name)
is_known (words []) = false
is_known (words (cmd ∷ args)) = is_registered cmd

-- A line that consists of one word.
pub record IsWord (w : String) : Type 0 where
  pub filled : str_eq w "" ≡ false
  pub trimmed : trim_space w ≡ w
  pub one : fields w ≡ w ∷ []
  pub unparted : cut_prefix w "mode " ≡ none

read_command-word :
    (w : String)
    → IsWord w
    → read_command w ≡ (
        if str_eq w "mode"
        then mode
        else if str_eq w "help"
        then help
        else if str_eq w "exit"
        then exit
        else words (w ∷ []))
unfolding read_command
read_command-word w v =
    ap
      (λ t. if str_eq t "" then nothing else elim (cut_prefix t "mode ") [
        | some name ↦ set_mode name
        | none ↦
            if str_eq t "mode"
            then mode
            else if str_eq t "help"
            then help
            else if str_eq t "exit"
            then exit
            else words (fields t)
      ])
      v.trimmed
    ∙ rw (v.filled, v.unparted)
        (ap
          (λ p.
            if str_eq w "mode"
            then mode
            else if str_eq w "help"
            then help
            else if str_eq w "exit"
            then exit
            else words p)
          v.one)

first-offers : (w : String) → IsWord w → offers build_completer w ≡ is_known (read_command w)
first-offers w v = rw (read_command-word w v) (ground (arith, offers-registered w))

cert-offers : (w : String) → offers (below build_completer "cert") w ≡ is_given (cert_command w)
unfolding build_completer cert_command
cert-offers w = ground arith

mode-offers : (w : String) → offers (below build_completer "mode") w ≡ is_given (vim_mode w)
unfolding build_completer vim_mode
mode-offers w = ground arith

module _ {Db : Type 0} (engine : Engine Db) where
  service-offers :
      (exists : String → Bool) (w : String) (server : GotaxyServer Db)
      → offers (below build_completer "service") w
        ≡ not (is_unknown (handle_service exists (w ∷ []) server).1)
  unfolding build_completer handle_service start_service stop_service
  service-offers exists w server = ground arith

  config-offers :
      (w : String) (server : GotaxyServer Db)
      → offers (below build_completer "config") w
        ≡ not (is_unknown (handle_config engine (w ∷ []) server).1)
  unfolding build_completer handle_config config_set
  config-offers w server = ground arith

  set-offers :
      (w value : String) (server : GotaxyServer Db)
      → offers (below (below build_completer "config") "set") w
        ≡ not (is_unknown (handle_config engine ("set" ∷ w ∷ value ∷ []) server).1)
  unfolding build_completer handle_config config_set set_config
  set-offers w value server = ground arith

  mapping-offers :
      (w : String) (server : GotaxyServer Db)
      → offers (below build_completer "mapping") w
        ≡ not (is_unknown (handle_mapping engine (w ∷ []) server).1)
  unfolding build_completer handle_mapping with_name add_args upd_args
  mapping-offers w server = ground arith

  -- The completer offers just the words that are taken: as a line of one word, those that the loop has a
  -- fixed command for or that are registered; and below `service`, `config`, `mapping`, `cert`, `mode` and
  -- `config set`, those that the command does not call unknown.
  pub handle-build_completer :
      (exists : String → Bool) (w value : String) (server : GotaxyServer Db)
      → IsWord w
      → (offers build_completer w ≡ is_known (read_command w))
        × (offers (below build_completer "service") w
            ≡ not (is_unknown (handle_service exists (w ∷ []) server).1))
        × (offers (below build_completer "config") w
            ≡ not (is_unknown (handle_config engine (w ∷ []) server).1))
        × (offers (below (below build_completer "config") "set") w
            ≡ not (is_unknown (handle_config engine ("set" ∷ w ∷ value ∷ []) server).1))
        × (offers (below build_completer "mapping") w
            ≡ not (is_unknown (handle_mapping engine (w ∷ []) server).1))
        × (offers (below build_completer "cert") w ≡ is_given (cert_command w))
        × (offers (below build_completer "mode") w ≡ is_given (vim_mode w))
  handle-build_completer exists w value server v = (
    first-offers w v,
    service-offers exists w server,
    config-offers w server,
    set-offers w value server,
    mapping-offers w server,
    cert-offers w,
    mode-offers w,
  )
