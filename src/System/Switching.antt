-- ===== src/System/Switching.antt =====
-- A rule that is switched on while the service does not run: by `mapping start` of
-- internal/shell/shellcmd.go, which stores the flag, or by `POST /api/mappings/toggle` of
-- internal/web/web.go, which does not; and the next start of the program, which reads it.
use mathlib.Core.Option
use mathlib.Core.Option.{some-injective}
use gotaxy.Prelude.{String, ◌≡◌, ◌∙◌, refl, sym, ap, true, false, some, [], ◌∷◌, arith, eq_iff}
use gotaxy.Prelude.Dict.{lookup}
use gotaxy.Int64.{Int64}
use gotaxy.Session.{Mapping, Ref, update_enable, with_enable}
use gotaxy.Session.View.{view, IsLinked, view-change}
use gotaxy.Storage.Sql.{Tables, Row, revise, sql, update_rule}
use gotaxy.Storage.Laws.{IsSql, IsReliable, lookup-revise}
use gotaxy.Storage.{Engine, update_map}
use gotaxy.Config.Load.{mapping_of_row}
use gotaxy.Server.{GotaxyServer}
use gotaxy.Control.{mapping_of}
use gotaxy.Control.Sync.{mapping_of-view, mapping_of-name}
use gotaxy.Shell.Mappings.{handle_mapping}
use gotaxy.Shell.Mappings.Stopping.{stored_state}
use gotaxy.Web.Mappings.{toggle_mapping_handler}
use gotaxy.System.{start_up}
use gotaxy.System.Startup.{IsReadable, view-start_up}

-- What the row of a rule becomes that is stored as enabled.
abbrev with_flag : Mapping → Row → Row
with_flag x r = record r {
  public_port = x.public_port;
  target_addr = x.target_addr;
  enable = true;
  rate_limit = x.rate_limit;
}

module _ {Db : Type 0} (engine : Engine Db) (tables : Db → Tables) (laws : IsSql engine tables)
    (works : IsReliable engine tables) where
  abbrev stored_db : Db → String → Mapping → Db
  stored_db db k x = (update_map engine db k x.public_port x.target_addr true x.rate_limit).0

  tables-stored_db :
      (db : Db) (k : String) (x : Mapping)
      → tables (stored_db db k x)
        ≡ record (tables db) { mapping = revise (tables db).mapping k (with_flag x) }
  unfolding update_map sql
  tables-stored_db db k x =
      let s = update_rule x.public_port x.target_addr true x.rate_limit k in
      let done = works.accepts db s _ refl in sym (some-injective _ _ (laws.exec_done db s done))

  stored_db-IsReadable :
      (db : Db) (k : String) (x : Mapping) (total : Int64)
      → IsReadable (tables db) total
      → IsReadable (tables (stored_db db k x)) total
  stored_db-IsReadable db k x total v = rw (tables-stored_db db k x) (record {
    parses = v.parses;
    present = v.present;
    named = lookup-revise (tables db).mapping k "" (with_flag x) ∙ ground (arith, v.named);
  })

  restarted :
      (db : Db) (k : String) (total : Int64) (row : Row)
      → IsReadable (tables db) total
      → lookup (tables db).mapping k ≡ some row
      → (y : Mapping) × (view (start_up engine db).sessions k ≡ some y) × (y.enable ≡ row.enable)
  restarted db k total row v e = (
    mapping_of_row row,
    view-start_up engine tables laws works db total k v ∙ ap (Option.map mapping_of_row) e,
    refl,
  )

  switched :
      (s : GotaxyServer Db) (k : String) (x : Mapping)
      → IsLinked s.sessions
      → view s.sessions k ≡ some x
      → view (update_enable s.sessions k true).0 k ≡ some (with_enable true x)
  unfolding update_enable
  switched s k x v e = ground (arith, view-change k k (with_enable true) v, e, eq_iff k k)

  -- If the service does not run, and the rule has a row, in a linked table, on a database that fails only
  -- where SQL says and that the program can read at its start: `mapping start` and a request that switches
  -- the rule on both enable it in memory; after the next start of the program, it is enabled if it
  -- was switched on from the terminal, but as its row was before if it was switched on from the web panel.
  pub handle_mapping-switched :
      (s : GotaxyServer Db) (k : String) (r : Ref) (x : Mapping) (row : Row) (total : Int64)
      → mapping_of s.sessions k ≡ some (r, x)
      → s.is_run ≡ false
      → IsLinked s.sessions
      → lookup (tables s.db).mapping k ≡ some row
      → IsReadable (tables s.db) total
      → let typed = (handle_mapping engine ("start" ∷ k ∷ []) s).0 in
        let panel = (toggle_mapping_handler (some (record { name = k; enable = true })) s).0 in
        (view typed.sessions k ≡ some (with_enable true x))
        × (view panel.sessions k ≡ some (with_enable true x))
        × ((y : Mapping) × (view (start_up engine typed.db).sessions k ≡ some y)
            × (y.enable ≡ true))
        × ((y : Mapping) × (view (start_up engine panel.db).sessions k ≡ some y)
            × (y.enable ≡ row.enable))
  unfolding toggle_mapping_handler
  handle_mapping-switched s k r x row total h stopped v e readable =
      let (_, seen) = mapping_of-view s.sessions k r x h in
      let on = switched s k x v seen in
      let typed = stored_state engine k s r x h stopped (mapping_of-name k r x v h) in
      let flagged =
        ap (λ t. lookup t.mapping k) (tables-stored_db s.db k x)
        ∙ lookup-revise (tables s.db).mapping k k (with_flag x)
        ∙ ground (arith, e, eq_iff k k) in
      rw (typed, stopped)
        (
          on,
          on,
          restarted (stored_db s.db k x) k total (with_flag x row)
              (stored_db-IsReadable s.db k x total readable) flagged,
          restarted s.db k total row readable e,
        )
