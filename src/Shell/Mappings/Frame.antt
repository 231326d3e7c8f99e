-- ===== src/Shell/Mappings/Frame.antt =====
-- What the `mapping` commands leave alone.
use gotaxy.Prelude.{String, refl, List, [], ◌∷◌, arith}
use gotaxy.Storage.{Engine}
use gotaxy.Server.{GotaxyServer, IsQuiet}
use gotaxy.Control.{start_listener}
use gotaxy.Shell.Mappings.{
  start_mapping, stop_mapping, add_mapping, del_mapping, store_update, upd_mapping, with_name,
  add_args, upd_args, handle_mapping,
}

module _ {Db : Type 0} (engine : Engine Db) (s : GotaxyServer Db) where
  start_mapping-IsQuiet : (name : String) → IsQuiet s (start_mapping engine name s).0
  unfolding start_mapping start_listener
  start_mapping-IsQuiet name = ground arith

  stop_mapping-IsQuiet : (name : String) → IsQuiet s (stop_mapping engine name s).0
  unfolding stop_mapping
  stop_mapping-IsQuiet name = ground arith

  add_args-IsQuiet : (args : List String) → IsQuiet s (add_args engine args s).0
  unfolding add_args add_mapping
  add_args-IsQuiet args = ground arith

  del_mapping-IsQuiet : (name : String) → IsQuiet s (del_mapping engine name s).0
  unfolding del_mapping
  del_mapping-IsQuiet name = ground arith

  upd_args-IsQuiet : (args : List String) → IsQuiet s (upd_args engine args s).0
  unfolding upd_args upd_mapping store_update
  upd_args-IsQuiet args = ground arith

  -- A `mapping` command changes no setting.
  pub handle_mapping-IsQuiet : (args : List String) → IsQuiet s (handle_mapping engine args s).0
  unfolding handle_mapping with_name
  handle_mapping-IsQuiet [] = (refl, refl)
  handle_mapping-IsQuiet (command ∷ []) = ground (arith, add_args-IsQuiet [], upd_args-IsQuiet [])
  handle_mapping-IsQuiet (command ∷ name ∷ args) = ground (
    arith,
    start_mapping-IsQuiet name,
    stop_mapping-IsQuiet name,
    add_args-IsQuiet (name ∷ args),
    del_mapping-IsQuiet name,
    upd_args-IsQuiet (name ∷ args),
  )
