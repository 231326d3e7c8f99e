-- ===== src/Web/Mappings/Frame.antt =====
-- What the requests for mapping rules leave alone.
use gotaxy.Prelude.{String, refl, Option, none, some, arith}
use gotaxy.Storage.{Engine}
use gotaxy.Server.{GotaxyServer, IsQuiet}
use gotaxy.Control.{start_listener}
use gotaxy.Web.Mappings.{
  ToggleRequest, MappingRequest, enable_mapping, disable_mapping, toggle_mapping_handler,
  insert_mapping, add_mapping_handler, delete_mapping_handler, store_mapping,
  update_mapping_handler,
}

module _ {Db : Type 0} (s : GotaxyServer Db) where
  pub toggle_mapping_handler-IsQuiet :
      (body : Option ToggleRequest) → IsQuiet s (toggle_mapping_handler body s).0
  unfolding toggle_mapping_handler enable_mapping disable_mapping start_listener
  toggle_mapping_handler-IsQuiet none = (refl, refl)
  toggle_mapping_handler-IsQuiet (some req) = ground arith

module _ {Db : Type 0} (engine : Engine Db) (s : GotaxyServer Db) where
  pub add_mapping_handler-IsQuiet :
      (body : Option MappingRequest) → IsQuiet s (add_mapping_handler engine body s).0
  unfolding add_mapping_handler insert_mapping
  add_mapping_handler-IsQuiet none = (refl, refl)
  add_mapping_handler-IsQuiet (some req) = ground arith

  pub delete_mapping_handler-IsQuiet :
      (body : Option String) → IsQuiet s (delete_mapping_handler engine body s).0
  unfolding delete_mapping_handler
  delete_mapping_handler-IsQuiet none = (refl, refl)
  delete_mapping_handler-IsQuiet (some name) = ground arith

  pub update_mapping_handler-IsQuiet :
      (body : Option MappingRequest) → IsQuiet s (update_mapping_handler engine body s).0
  unfolding update_mapping_handler store_mapping
  update_mapping_handler-IsQuiet none = (refl, refl)
  update_mapping_handler-IsQuiet (some req) = ground arith
