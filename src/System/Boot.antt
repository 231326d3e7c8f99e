-- ===== src/System/Boot.antt =====
-- cmd/server/server.go behind the set-up of its logs: the database is opened, and what is opened is loaded.
use gotaxy.Prelude.{◌≡◌, subst, sym, Bool, List, []}
use gotaxy.Int64.{Int64}
use gotaxy.Storage.{Engine}
use gotaxy.Storage.Sql.{Tables}
use gotaxy.Storage.Laws.{IsSql}
use gotaxy.Storage.Schema.{
  Schema, IsSchema, IsSound, Ready, ready_engine, ready_tables, ready_engine-IsSql,
  ready_engine-IsReliable,
}
use gotaxy.Inits.{Host, returns, db_init}
use gotaxy.Inits.Ready.{IsHost, CanOpen, db_init-IsOpened}
use gotaxy.Session.Count.{IsCounted}
use gotaxy.Server.{GotaxyServer}
use gotaxy.Control.Sync.{IsSynced}
use gotaxy.System.{Event, run, start_up}
use gotaxy.System.Startup.{IsReadable, run-start_up}

module _ {Db : Type 0} (engine : Engine Db) (schema : Db → Schema)
    (schemas : IsSchema engine schema) where
  -- The server that `main` has after the events, on the database that it opened.
  abbrev pub served :
      Ready engine schema schemas → List Event → GotaxyServer (Ready engine schema schemas)
  served db events =
      run (ready_engine engine schema schemas) (start_up (ready_engine engine schema schemas) db)
        events

module _ {Disk Db : Type 0} (host : Host Disk Db) (engine : Engine Db) (tables : Db → Tables)
    (schema : Db → Schema) (hosted : IsHost host tables) (laws : IsSql engine tables)
    (schemas : IsSchema engine schema) (works : IsSound engine tables schema) where
  -- From the opening of the database on: if the folder is there or can be made, and the file opens and
  -- answers, with a total that can be read and no rule of an empty name, on a database that fails only
  -- where SQL says: DBInit returns a database with both tables and with the rows of the file; and in the
  -- server that is started on it, whatever it serves, memory and database have the same rules, with
  -- the same port, target address and rate limit for each name, and the count of names is right. Flags are not
  -- compared.
  pub db_init-run :
      (error_log : Bool) (disk : Disk) (before : Db) (total : Int64) (events : List Event)
      → CanOpen host disk before
      → IsReadable (tables before) total
      → (db : Ready engine schema schemas) × (db_init host engine error_log disk
          ≡ (returns db.0, []))
        × (tables db.0 ≡ tables before)
        × IsSynced
            (served engine schema schemas db events).sessions
            (tables (served engine schema schemas db events).db.0)
        × IsCounted (served engine schema schemas db events).sessions
  db_init-run error_log disk before total events can readable =
      let (db, out, there, same) =
        db_init-IsOpened host engine tables schema hosted laws schemas works error_log disk before
          can in
      let readable' = subst (λ t. IsReadable t total) (sym same) readable in
      let (synced, counted) =
        run-start_up (ready_engine engine schema schemas)
          (ready_tables engine schema schemas tables)
          (ready_engine-IsSql engine schema schemas tables laws)
          (ready_engine-IsReliable engine schema schemas tables works) (db, there) total events
          readable' in
      ((db, there), out, same, synced, counted)
