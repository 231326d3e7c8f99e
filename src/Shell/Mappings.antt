-- ===== src/Shell/Mappings.antt =====
-- `handleMapping` of internal/shell/shellcmd.go.
pub mod Sync
pub mod Frame
pub mod Inv
pub mod Completion
pub mod Stopping
use gotaxy.Prelude.{
  ℕ, String, Bool, true, false, not, ◌*◌, Option, none, some, List, [], ◌∷◌, str_eq, if◌then◌else◌,
}
use gotaxy.Int64.{Int64}
use gotaxy.Strconv.{atoi}
use gotaxy.Context.{background}
use gotaxy.Utils.{is_validate_addr}
use gotaxy.Session.{
  Mapping, Manager, get_mapping, set_mapping, delete_mapping, update_enable, update_mapping,
  close_mapping,
}
use gotaxy.Server.{GotaxyServer}
use gotaxy.Storage.{Engine, insert_mpg, delete_map_by_name, update_map}
use gotaxy.Control.{is_port, mapping_of, start_listener}
use gotaxy.Shell.{
  Said, usage, unknown, shown, bad_value, missing, exists_already, busy, storage_failed, done,
}

-- 2 MB a second
abbrev pub default_limit : Int64
default_limit = 1024 * 1024 * 2

module _ {Db : Type 0} (engine : Engine Db) where
  -- mapping start <name>: a running server starts a listener, else the flag is set and stored. The
  -- pointer is not nil, since `UpdateEnable` has just found the name.
  start_mapping : String → GotaxyServer Db → GotaxyServer Db × Said
  unfolding start_listener update_map
  start_mapping name server =
      let (sessions, found) = update_enable server.sessions name true in
      if not found then (server, missing) else elim (mapping_of sessions name) [
        | none ↦ (record server { sessions = sessions }, done)
        | some (r, x) ↦
            if not server.is_run
            then (
              record server {
                sessions = sessions;
                db =
                    (update_map engine server.db x.name x.public_port x.target_addr true
                      x.rate_limit).0;
              },
              done,
            )
            else (start_listener (record server { sessions = sessions }) r background, done)
      ]

  -- mapping stop <name>
  stop_mapping : String → GotaxyServer Db → GotaxyServer Db × Said
  stop_mapping name server =
      let (contexts, found) = close_mapping server.sessions server.contexts name in
      if not found then (server, missing) else (
        record server {
          contexts = contexts;
          sessions = (update_enable server.sessions name false).0;
        },
        done,
      )

  -- mapping add <name> <public_port> <target_addr>
  add_mapping : String → String → String → GotaxyServer Db → GotaxyServer Db × Said
  unfolding insert_mpg
  add_mapping name port target server =
      if not (is_port port)
      then (server, bad_value)
      else if not (is_validate_addr target)
      then (server, bad_value)
      else elim (get_mapping server.sessions name) [
        | some _ ↦ (server, exists_already)
        | none ↦
            let (db, stored) = insert_mpg engine server.db (record {
              id = 0;
              name = name;
              public_port = port;
              target_addr = target;
              enable = false;
              traffic = 0;
              rate_limit = default_limit;
            }) in
            if not stored then (record server { db = db }, storage_failed) else (
              record server {
                db = db;
                sessions = set_mapping server.sessions name port target false 0 default_limit;
              },
              done,
            )
      ]

  -- mapping del <name>
  del_mapping : String → GotaxyServer Db → GotaxyServer Db × Said
  unfolding delete_map_by_name
  del_mapping name server = elim (mapping_of server.sessions name) [
    | none ↦ (server, missing)
    | some (r, mpg) ↦ if str_eq mpg.status "active" then (server, busy) else (
      record server {
        sessions = delete_mapping server.sessions name;
        db = (delete_map_by_name engine server.db name).0;
      },
      done,
    )
  ]

  -- The end of `mapping upd`, with the limit that was read.
  store_update : String → String → String → Bool → Int64 → GotaxyServer Db → GotaxyServer Db × Said
  unfolding update_map
  store_update name port target enable limit server =
      let (db, row) = update_map engine server.db name port target enable limit in
      elim row [
        | none ↦ (record server { db = db }, storage_failed)
        | some _ ↦ (
          record server {
            db = db;
            sessions = update_mapping server.sessions name port target limit;
          },
          done,
        )
      ]

  -- mapping upd <name> <port> <target_addr> <rate_limit>
  upd_mapping : String → String → String → String → GotaxyServer Db → GotaxyServer Db × Said
  unfolding store_update
  upd_mapping name port target limit server = elim (mapping_of server.sessions name) [
    | none ↦ (server, missing)
    | some (r, mpg) ↦
        if str_eq mpg.status "active"
        then (server, busy)
        else if not (is_validate_addr target)
        then (server, bad_value)
        else elim (atoi limit) [
          | none ↦ (server, bad_value)
          | some l ↦ store_update name port target mpg.enable l server
        ]
  ]

  with_name :
      (String → GotaxyServer Db → GotaxyServer Db × Said)
      → List String
      → GotaxyServer Db
      → GotaxyServer Db × Said
  with_name handler [] server = (server, usage)
  with_name handler (name ∷ args) server = handler name server

  add_args : List String → GotaxyServer Db → GotaxyServer Db × Said
  unfolding add_mapping
  add_args (name ∷ port ∷ target ∷ args) server = add_mapping name port target server
  add_args _ server = (server, usage)

  upd_args : List String → GotaxyServer Db → GotaxyServer Db × Said
  unfolding upd_mapping
  upd_args (name ∷ port ∷ target ∷ limit ∷ args) server = upd_mapping name port target limit server
  upd_args _ server = (server, usage)

  unfoldable pub handle_mapping : List String → GotaxyServer Db → GotaxyServer Db × Said
  unfolding with_name start_mapping stop_mapping add_args del_mapping upd_args
  handle_mapping [] server = (server, usage)
  handle_mapping (command ∷ args) server =
      if str_eq command "list"
      then (server, shown)
      else if str_eq command "start"
      then with_name start_mapping args server
      else if str_eq command "stop"
      then with_name stop_mapping args server
      else if str_eq command "add"
      then add_args args server
      else if str_eq command "del"
      then with_name del_mapping args server
      else if str_eq command "upd"
      then upd_args args server
      else (server, unknown)
