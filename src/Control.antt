-- ===== src/Control.antt =====
-- What the handlers of the shell and of the web panel have in common. A handler runs without an
-- interruption by another; what it starts in a goroutine is a task of the server.
pub mod Sync
pub mod Stored
pub mod Inv
pub mod Pointers
pub mod Settings
use gotaxy.Prelude.{
  ℕ, String, Bool, true, false, not, ◌&&◌, ◌||◌, Option, none, some, ltb, if◌then◌else◌,
}
use gotaxy.Int64.{Int64, is_nonpositive}
use gotaxy.Strconv.{atoi}
use gotaxy.Context.{Context, with_cancel, cancel}
use gotaxy.Session.{
  Mapping, Manager, Ref, get_mapping, read, write, close_mapping, update_enable, delete_mapping,
}
use gotaxy.Server.{GotaxyServer, listener, spawn, set_run_status}
use gotaxy.Storage.{Engine, delete_map_by_name}

-- `port, err := strconv.Atoi(s)`, and not `err != nil || port <= 0 || port > 65535`
unfoldable pub is_port : String → Bool
is_port s = elim (atoi s) [ none ↦ false | some port ↦ not (is_nonpositive port || ltb 65535 port) ]

-- Both certificates and both keys of the server are there (`CheckServerCertExist` of
-- pkg/tlsgen/gen.go); `exists` tells whether `os.Stat` finds a file.
unfoldable pub check_server_cert_exist : (String → Bool) → Bool
check_server_cert_exist exists =
    exists "certs/ca.crt"
    && exists "certs/ca.key"
    && exists "certs/server.crt"
    && exists "certs/server.key"

-- GetMapping: the pointer with what it points to; `none` is the nil pointer.
abbrev pub mapping_of : Manager → String → Option (Ref × Mapping)
mapping_of m name = elim (get_mapping m name) [
  | none ↦ none
  | some r ↦ elim (read m r) [ none ↦ none | some x ↦ some (r, x) ]
]

module _ {Db : Type 0} where
  -- if server.Cancel != nil { server.Cancel() }; server.SetRunStatus(false)
  unfoldable pub stop_server : GotaxyServer Db → GotaxyServer Db
  unfolding set_run_status
  stop_server s = elim s.cancel [
    | none ↦ set_run_status s false
    | some i ↦ set_run_status (record s { contexts = cancel s.contexts i }) false
  ]

  -- mapping.Ctx, mapping.CtxCancel = context.WithCancel(parent)
  -- go proxy.StartPublicListener(server.Ctx, mapping, server)
  unfoldable pub start_listener : GotaxyServer Db → Ref → Context → GotaxyServer Db
  unfolding write
  start_listener s r parent =
      let (ctx, cancel_func, contexts) = with_cancel s.contexts parent in
      spawn
        (record s {
          contexts = contexts;
          sessions =
              write s.sessions r λ x. record x { ctx = some ctx; ctx_cancel = some cancel_func };
        })
        (listener s.ctx r)
