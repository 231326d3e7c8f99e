-- ===== src/System/Startup.antt =====
-- cmd/server/server.go: the server as `main` assembles it, and what holds of it from then on.
use mathlib.Core.Option
use mathlib.Core.Option.{get_or}
use gotaxy.Prelude.{
  String, ◌≡◌, ◌≢◌, ◌∙◌, refl, sym, ap, subst, none, List, arith, length, Option-cases, inl, inr,
}
use native.Mathlib.Decide.{ℕ_discrete}
use gotaxy.Prelude.Dict.{Dict, lookup}
use gotaxy.Int64.{Int64}
use gotaxy.Strconv.{parsed, parse_int}
use gotaxy.Session.{new_manager}
use gotaxy.Session.View.{view, IsLinked, new_manager-IsLinked}
use gotaxy.Session.Count.{IsCounted, new_manager-IsCounted}
use gotaxy.Storage.Sql.{Tables, Row}
use gotaxy.Storage.Laws.{IsSql, IsReliable}
use gotaxy.Storage.Rules.{durable}
use gotaxy.Storage.{Engine}
use gotaxy.Config.{Loaded, config_load, value_of}
use gotaxy.Config.Load.{
  IsLoaded, mapping_of_row, config_load-stored, config_load-IsCompleted, rows_over,
}
use gotaxy.Config.Rules.{set_rows-IsLinked, set_rows-IsCounted}
use gotaxy.Server.{new_server}
use gotaxy.Control.Sync.{IsSynced, rule_of}
use gotaxy.System.{Event, run, start_up}
use gotaxy.System.Sync.{run-IsSynced}
use gotaxy.System.Counted.{run-IsCounted}

-- What `ConfigLoad` can read: a total that is a number or is missing with another setting, and no rule
-- with an empty name.
pub record IsReadable (t : Tables) (total : Int64) : Type 0 where
  pub parses : parse_int (get_or (lookup t.config "total_traffic") "0") ≡ parsed total
  pub present : length t.config ≡ 4 → lookup t.config "total_traffic" ≢ none
  pub named : lookup t.mapping "" ≡ none

module _ {Db : Type 0} (engine : Engine Db) (tables : Db → Tables) (laws : IsSql engine tables)
    (works : IsReliable engine tables) where
  abbrev blank : Db → Loaded Db
  blank db = record { cfg = (new_server db).config; sessions = new_manager; db = db }

  value-get_or :
      (m : Dict String) (k d : String) → lookup m k ≢ none → value_of m k ≡ get_or (lookup m k) d
  value-get_or m k d h = elim (Option-cases (lookup m k)) [
    | inl e ↦ absurd (h e)
    | inr (v, e) ↦ rw e
  ]

  -- Loading succeeds on such a database, and does not touch the rules there.
  loads :
      (s : Loaded Db) (total : Int64)
      → IsReadable (tables s.db) total
      → IsLinked s.sessions
      → IsLoaded tables s.sessions (config_load engine s)
        × ((tables (config_load engine s).db).mapping ≡ (tables s.db).mapping)
  loads s total r v = elim (ℕ_discrete (length (tables s.db).config) 4) [
    | yes four ↦
        let parses =
          ap parse_int (value-get_or (tables s.db).config "total_traffic" "0" (r.present four))
          ∙ r.parses in
        let (loaded, same) = config_load-stored engine tables laws works s total four parses v in
        (loaded, ap (λ db. (tables db).mapping) same)
    | no other ↦
        let (loaded, _, same) =
          config_load-IsCompleted engine tables laws works s total other r.parses v in
        (loaded, same)
  ]

  start_up-IsLoaded :
      (db : Db) (total : Int64)
      → IsReadable (tables db) total
      → IsLoaded tables new_manager (config_load engine (blank db))
        × ((tables (start_up engine db).db).mapping ≡ (tables db).mapping)
  unfolding start_up new_server
  start_up-IsLoaded db total r = loads (blank db) total r new_manager-IsLinked

  -- `main` gives each row of the table of rules its mapping, with the row's flag and counter, and makes
  -- no other; on a database that fails only where SQL says, with a total that can be read.
  pub view-start_up :
      (db : Db) (total : Int64) (k : String)
      → IsReadable (tables db) total
      → view (start_up engine db).sessions k
        ≡ Option.map mapping_of_row (lookup (tables db).mapping k)
  unfolding start_up new_server view lookup
  view-start_up db total k r =
      let (loaded, same) = start_up-IsLoaded db total r in
      loaded.rules k ∙ ap (λ (m : Dict Row). rows_over m (view new_manager) k) same ∙ ground arith

  start_up-rules :
      (db : Db) (total : Int64) (k : String)
      → IsReadable (tables db) total
      → Option.map rule_of (view (start_up engine db).sessions k)
        ≡ durable (tables (start_up engine db).db) k
  unfolding durable
  start_up-rules db total k r =
      let (_, same) = start_up-IsLoaded db total r in
      ground (arith, view-start_up db total k r, ap (λ (m : Dict Row). lookup m k) same)

  start_up-IsLinked :
      (db : Db) (total : Int64)
      → IsReadable (tables db) total
      → IsLinked (start_up engine db).sessions
  unfolding start_up new_server
  start_up-IsLinked db total r =
      let (loaded, _) = start_up-IsLoaded db total r in
      subst IsLinked (sym loaded.added) (
        set_rows-IsLinked new_manager (tables (config_load engine (blank db)).db).mapping
          new_manager-IsLinked)

  start_up-IsSynced :
      (db : Db) (total : Int64)
      → IsReadable (tables db) total
      → IsSynced (start_up engine db).sessions (tables (start_up engine db).db)
  start_up-IsSynced db total r = record {
    linked = start_up-IsLinked db total r;
    unnamed = view-start_up db total "" r ∙ ap (Option.map mapping_of_row) r.named;
    rules = λ k. start_up-rules db total k r;
  }

  start_up-IsCounted :
      (db : Db) (total : Int64)
      → IsReadable (tables db) total
      → IsCounted (start_up engine db).sessions
  unfolding start_up new_server lookup
  start_up-IsCounted db total r =
      let (loaded, _) = start_up-IsLoaded db total r in
      subst IsCounted (sym loaded.added) (
        set_rows-IsCounted new_manager _ (laws.rule_unique _) (laws.rule_named _) (λ k r e. refl)
          new_manager-IsCounted)

  -- From its start on, whatever it serves, memory and database have the same rules, but for flags and counters, and
  -- `totalConns` counts the names; on a database that fails only where SQL says, with a total that
  -- can be read and no rule of an empty name.
  pub run-start_up :
      (db : Db) (total : Int64) (events : List Event)
      → IsReadable (tables db) total
      → IsSynced
          (run engine (start_up engine db) events).sessions
          (tables (run engine (start_up engine db) events).db)
        × IsCounted (run engine (start_up engine db) events).sessions
  run-start_up db total events r = (
    run-IsSynced engine tables laws works (start_up engine db) events
        (start_up-IsSynced db total r),
    run-IsCounted engine (start_up engine db) events (start_up-IsCounted db total r),
  )
