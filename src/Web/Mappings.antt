-- ===== src/Web/Mappings.antt =====
-- The handlers of internal/web/web.go for the mapping rules.
pub mod Sync
pub mod Frame
pub mod Inv
pub mod Races
use gotaxy.Prelude.{
  ℕ, String, Bool, true, false, not, ◌&&◌, ◌||◌, Option, none, some, List, [], ◌∷◌, str_eq, ◌==◌,
  if◌then◌else◌,
}
use gotaxy.Int64.{Int64}
use gotaxy.Utils.{is_validate_addr}
use gotaxy.Session.{
  Mapping, Ref, get_all_mappings, get_mapping, set_mapping, delete_mapping, update_enable,
  update_mapping, close_mapping,
}
use gotaxy.Server.{GotaxyServer}
use gotaxy.Storage.{Engine, insert_mpg, delete_map_by_name, update_map}
use gotaxy.Control.{mapping_of, start_listener}
use gotaxy.Shell.Mappings.{default_limit}
use gotaxy.Web.{
  Status, status_ok, status_bad_request, status_not_found, status_internal_server_error, rejected,
}

pub record ToggleRequest : Type 0 where
  pub name : String
  pub enable : Bool

pub record MappingRequest : Type 0 where
  pub name : String
  pub public_port : String
  pub target_addr : String
  pub rate_limit : Int64

module _ {Db : Type 0} where
  unfoldable pub get_mappings_handler : GotaxyServer Db → Status × List Ref
  get_mappings_handler server = (status_ok, get_all_mappings server.sessions)

  -- The branch of `toggleMappingHandler` for a running server and `enable`. The pointer is not nil,
  -- since `UpdateEnable` has just found the name.
  enable_mapping : String → GotaxyServer Db → GotaxyServer Db × Status
  unfolding start_listener
  enable_mapping name server =
      let (sessions, found) = update_enable server.sessions name true in
      if not found
      then (record server { sessions = sessions }, status_not_found)
      else elim (mapping_of sessions name) [
        | none ↦ (record server { sessions = sessions }, status_ok)
        | some (r, _) ↦
            (start_listener (record server { sessions = sessions }) r server.ctx, status_ok)
      ]

  -- Its last branch.
  disable_mapping : String → GotaxyServer Db → GotaxyServer Db × Status
  disable_mapping name server =
      let (contexts, found) = close_mapping server.sessions server.contexts name in
      if not found then (server, status_internal_server_error) else (
        record server {
          contexts = contexts;
          sessions = (update_enable server.sessions name false).0;
        },
        status_ok,
      )

  unfoldable pub toggle_mapping_handler :
      Option ToggleRequest → GotaxyServer Db → GotaxyServer Db × Status
  unfolding enable_mapping disable_mapping
  toggle_mapping_handler none server = (server, status_bad_request)
  toggle_mapping_handler (some req) server =
      if not server.is_run && req.enable
      then (record server { sessions = (update_enable server.sessions req.name true).0 }, status_ok)
      else if req.enable
      then enable_mapping req.name server
      else disable_mapping req.name server

module _ {Db : Type 0} (engine : Engine Db) where
  -- The end of `addMappingHandler`, with the limit.
  insert_mapping : MappingRequest → Int64 → GotaxyServer Db → GotaxyServer Db × Status
  unfolding insert_mpg
  insert_mapping req limit server =
      let (db, stored) = insert_mpg engine server.db (record {
        id = 0;
        name = req.name;
        public_port = req.public_port;
        target_addr = req.target_addr;
        enable = false;
        traffic = 0;
        rate_limit = limit;
      }) in
      if not stored then (record server { db = db }, status_internal_server_error) else (
        record server {
          db = db;
          sessions =
              set_mapping server.sessions req.name req.public_port req.target_addr false 0 limit;
        },
        status_ok,
      )

  unfoldable pub add_mapping_handler :
      Option MappingRequest → GotaxyServer Db → GotaxyServer Db × Status
  unfolding insert_mapping
  add_mapping_handler none server = (server, status_bad_request)
  add_mapping_handler (some req) server =
      if str_eq req.name "" || str_eq req.public_port "" || str_eq req.target_addr ""
      then (server, status_bad_request)
      else if not (is_validate_addr req.target_addr)
      then (server, status_bad_request)
      else elim (get_mapping server.sessions req.name) [
        | some _ ↦ (server, status_bad_request)
        | none ↦
            insert_mapping req (if req.rate_limit == 0 then default_limit else req.rate_limit)
              server
      ]

  unfoldable pub delete_mapping_handler : Option String → GotaxyServer Db → GotaxyServer Db × Status
  unfolding delete_map_by_name
  delete_mapping_handler none server = (server, status_bad_request)
  delete_mapping_handler (some name) server = elim (mapping_of server.sessions name) [
    | none ↦ (server, status_not_found)
    | some (_, mapping) ↦ if str_eq mapping.status "active" then (server, status_bad_request) else (
      record server {
        sessions = delete_mapping server.sessions name;
        db = (delete_map_by_name engine server.db name).0;
      },
      status_ok,
    )
  ]

  -- The end of `updateMappingHandler`.
  store_mapping : MappingRequest → Bool → GotaxyServer Db → GotaxyServer Db × Status
  unfolding update_map
  store_mapping req enable server =
      let (db, row) =
        update_map engine server.db req.name req.public_port req.target_addr enable
          req.rate_limit in
      elim row [
        | none ↦ (record server { db = db }, status_internal_server_error)
        | some _ ↦ (
          record server {
            db = db;
            sessions =
                update_mapping server.sessions req.name req.public_port req.target_addr
                  req.rate_limit;
          },
          status_ok,
        )
      ]

  unfoldable pub update_mapping_handler :
      Option MappingRequest → GotaxyServer Db → GotaxyServer Db × Status
  unfolding store_mapping
  update_mapping_handler none server = (server, status_bad_request)
  update_mapping_handler (some req) server = elim (mapping_of server.sessions req.name) [
    | none ↦ (server, status_not_found)
    | some (_, mapping) ↦
        if str_eq mapping.status "active"
        then (server, status_bad_request)
        else if rejected is_validate_addr req.target_addr
        then (server, status_bad_request)
        else store_mapping req mapping.enable server
  ]
