-- ===== src/Web/Mappings/Races.antt =====
-- The handlers of internal/web/web.go for the mapping rules, call by call: gin serves each request in a
-- goroutine of its own, and another may run between any two calls of the manager or of the
-- database. A handler is where it stands, with what it holds in its variables.
pub mod Alone
pub mod Panics
pub mod Deletions
pub mod Pending
pub mod Additions
pub mod Synced
pub mod Turns
pub mod Settled
pub mod Rewrites
use gotaxy.Prelude.{
  ℕ, zero, suc, String, Bool, true, false, not, ◌&&◌, ◌||◌, Option, none, some, List, [], ◌∷◌,
  str_eq, ◌==◌, get_elem?, set, if◌then◌else◌,
}
use gotaxy.Int64.{Int64}
use gotaxy.Utils.{is_validate_addr}
use gotaxy.Session.{
  Mapping, Manager, Ref, read, get_mapping, set_mapping, delete_mapping, update_enable,
  update_mapping, close_mapping,
}
use gotaxy.Server.{GotaxyServer}
use gotaxy.Storage.{Engine, insert_mpg, delete_map_by_name, update_map}
use gotaxy.Control.{start_listener}
use gotaxy.Shell.Mappings.{default_limit}
use gotaxy.Web.{
  Status, status_ok, status_bad_request, status_not_found, status_internal_server_error, rejected,
}
use gotaxy.Web.Mappings.{ToggleRequest, MappingRequest}

-- The call that comes next; `panicked` is a nil pointer that was followed.
pub data Progress : Type 0 where
  toggles : ToggleRequest → Progress
  marks enables finds closes disables : String → Progress
  derives : Ref → Progress
  adds : MappingRequest → Progress
  inserts sets : MappingRequest → Int64 → Progress
  deletes erases forgets : String → Progress
  inspects : String → Ref → Progress
  updates : MappingRequest → Progress
  compares : MappingRequest → Ref → Progress
  stores : MappingRequest → Bool → Progress
  rewrites : MappingRequest → Progress
  answered : Status → Progress
  panicked : Progress

-- The four requests, and the first call of their handlers.
pub data Request : Type 0 where
  toggle : ToggleRequest → Request
  add update : MappingRequest → Request
  delete : String → Request

unfoldable pub begins : Request → Progress
begins (toggle req) = toggles req
begins (add req) = adds req
begins (update req) = updates req
begins (delete name) = deletes name

-- The checks of `addMappingHandler` on the request alone, and the limit.
unfoldable pub is_rejected : MappingRequest → Bool
is_rejected req =
    str_eq req.name ""
    || str_eq req.public_port ""
    || str_eq req.target_addr ""
    || not (is_validate_addr req.target_addr)

abbrev pub limit_of : MappingRequest → Int64
limit_of req = if req.rate_limit == 0 then default_limit else req.rate_limit

-- After `mapping := GetMapping(...)` of the deletion: `mapping == nil`, and `mapping.Status`.
unfoldable pub inspect : String → Option Mapping → Progress
inspect name none = panicked
inspect name (some mapping) =
    if str_eq mapping.status "active" then answered status_bad_request else erases name

-- The same of the update, with the target address, up to the read of `mapping.Enable`.
unfoldable pub compare : MappingRequest → Option Mapping → Progress
compare req none = panicked
compare req (some mapping) =
    if str_eq mapping.status "active" || rejected is_validate_addr req.target_addr
    then answered status_bad_request
    else stores req mapping.enable

module _ {Db : Type 0} (engine : Engine Db) where
  -- One call, and where the handler stands after it.
  unfoldable pub advance : Progress → GotaxyServer Db → GotaxyServer Db × Progress
  unfolding is_rejected inspect compare insert_mpg delete_map_by_name update_map start_listener
  advance (toggles req) s = (
    s,
    if not s.is_run && req.enable
        then marks req.name
        else if req.enable
        then enables req.name
        else closes req.name,
  )
  advance (marks name) s =
      (record s { sessions = (update_enable s.sessions name true).0 }, answered status_ok)
  advance (enables name) s =
      let (sessions, found) = update_enable s.sessions name true in
      (record s { sessions = sessions }, if found then finds name else answered status_not_found)
  advance (finds name) s =
      (s, elim (get_mapping s.sessions name) [ none ↦ panicked | some r ↦ derives r ])
  advance (derives r) s = (start_listener s r s.ctx, answered status_ok)
  advance (closes name) s =
      let (contexts, found) = close_mapping s.sessions s.contexts name in
      (
        record s { contexts = contexts },
        if found then disables name else answered status_internal_server_error,
      )
  advance (disables name) s =
      (record s { sessions = (update_enable s.sessions name false).0 }, answered status_ok)
  advance (adds req) s = (
    s,
    if is_rejected req
        then answered status_bad_request
        else elim (get_mapping s.sessions req.name) [
          | some _ ↦ answered status_bad_request
          | none ↦ inserts req (limit_of req)
        ],
  )
  advance (inserts req limit) s =
      let (db, stored) = insert_mpg engine s.db (record {
        id = 0;
        name = req.name;
        public_port = req.public_port;
        target_addr = req.target_addr;
        enable = false;
        traffic = 0;
        rate_limit = limit;
      }) in
      (
        record s { db = db },
        if stored then sets req limit else answered status_internal_server_error,
      )
  advance (sets req limit) s = (
    record s {
      sessions = set_mapping s.sessions req.name req.public_port req.target_addr false 0 limit;
    },
    answered status_ok,
  )
  advance (deletes name) s = (
    s,
    elim (get_mapping s.sessions name) [
      | none ↦ answered status_not_found
      | some r ↦ inspects name r
    ],
  )
  advance (inspects name r) s = (s, inspect name (read s.sessions r))
  advance (erases name) s = (record s { sessions = delete_mapping s.sessions name }, forgets name)
  advance (forgets name) s =
      (record s { db = (delete_map_by_name engine s.db name).0 }, answered status_ok)
  advance (updates req) s = (
    s,
    elim (get_mapping s.sessions req.name) [
      | none ↦ answered status_not_found
      | some r ↦ compares req r
    ],
  )
  advance (compares req r) s = (s, compare req (read s.sessions r))
  advance (stores req enable) s =
      let (db, row) =
        update_map engine s.db req.name req.public_port req.target_addr enable req.rate_limit in
      (
        record s { db = db },
        elim row [ none ↦ answered status_internal_server_error | some _ ↦ rewrites req ],
      )
  advance (rewrites req) s = (
    record s {
      sessions = update_mapping s.sessions req.name req.public_port req.target_addr req.rate_limit;
    },
    answered status_ok,
  )
  advance (answered code) s = (s, answered code)
  advance panicked s = (s, panicked)

  -- A handler that nothing interrupts, for so many calls.
  unfoldable pub alone : ℕ → Progress → GotaxyServer Db → GotaxyServer Db × Progress
  unfolding advance
  alone zero p s = (s, p)
  alone (suc n) p s = let (s', p') = advance p s in alone n p' s'

  -- The handlers in progress, one of which makes its next call.
  unfoldable pub turn : ℕ → GotaxyServer Db × List Progress → GotaxyServer Db × List Progress
  unfolding advance
  turn i (s, pool) = elim (get_elem? pool i) [
    | none ↦ (s, pool)
    | some p ↦ let (s', p') = advance p s in (s', set pool i p')
  ]

  -- The scheduler says who is next.
  unfoldable pub interleave :
      List ℕ → GotaxyServer Db × List Progress → GotaxyServer Db × List Progress
  unfolding turn
  interleave [] o = o
  interleave (i ∷ schedule) o = interleave schedule (turn i o)
