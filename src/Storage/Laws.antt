-- ===== src/Storage/Laws.antt =====
-- What the program relies on of the database. `IsSql` is what SQL promises of an engine that may
-- fail at any call; `IsReliable` adds that it fails only where a constraint or a missing row makes it.
use gotaxy.Prelude.{
  String, true, false, some, map, ◌≡◌, sym, ◌∙◌, ap, Bool-cases, arith, if◌then◌else◌, Option-cases,
  inl, inr, eq_iff, str_eq,
}
use mathlib.Core.Option
use mathlib.Core.Option.{get_or, some-injective}
use gotaxy.Prelude.Dict.{Dict, lookup, IsMap, lookup-insert}
use gotaxy.Storage.Sql.{Statement, Row, Tables, sql, revise}
use gotaxy.Storage.{Engine, Cursor}

pub record IsSql {Db : Type 0} (engine : Engine Db) (tables : Db → Tables) : Type 0 where
  -- A statement that succeeds has done what it means; one that fails has done nothing.
  pub exec_done :
      (db : Db) (s : Statement)
      → (engine.exec db s).1 ≡ true
      → sql (tables db) s ≡ some (tables (engine.exec db s).0)
  pub exec_failed :
      (db : Db) (s : Statement)
      → (engine.exec db s).1 ≡ false
      → tables (engine.exec db s).0 ≡ tables db
  -- A query that is read to its end without an error has given every row.
  pub config_rows :
      (db : Db) (c : Cursor (String × String))
      → engine.query_config db ≡ some c
      → c.complete ≡ true
      → c.rows ≡ map some (tables db).config
  pub rule_rows :
      (db : Db) (c : Cursor Row)
      → engine.query_rules db ≡ some c
      → c.complete ≡ true
      → c.rows ≡ map (λ e. some e.1) (tables db).mapping
  pub rule_row :
      (db : Db) (name : String) (r : Row)
      → engine.query_rule db name ≡ some r
      → lookup (tables db).mapping name ≡ some r
  -- The unique columns, by which `Tables` holds the rows.
  pub config_unique : (db : Db) → IsMap (tables db).config
  pub rule_unique : (db : Db) → IsMap (tables db).mapping
  pub rule_named :
      (db : Db) (name : String) (r : Row) → lookup (tables db).mapping name ≡ some r → r.name ≡ name

pub record IsReliable {Db : Type 0} (engine : Engine Db) (tables : Db → Tables) : Type 0 where
  pub accepts :
      (db : Db) (s : Statement) (t : Tables)
      → sql (tables db) s ≡ some t
      → (engine.exec db s).1 ≡ true
  pub finds :
      (db : Db) (name : String) (r : Row)
      → lookup (tables db).mapping name ≡ some r
      → engine.query_rule db name ≡ some r
  pub reads_config :
      (db : Db)
      → (c : Cursor (String × String)) × (engine.query_config db ≡ some c) × (c.complete ≡ true)
  pub reads_rules :
      (db : Db) → (c : Cursor Row) × (engine.query_rules db ≡ some c) × (c.complete ≡ true)

pub lookup-revise {ℓ} :
    {V : Type ℓ} (m : Dict V) (k j : String) (f : V → V)
    → lookup (revise m k f) j ≡ (if str_eq k j then Option.map f (lookup m j) else lookup m j)
unfolding revise
lookup-revise m k j f = elim (Option-cases (lookup m k)) [
  | inl e ↦ rw (e, revise) (ground (arith, eq_iff k j, λ (p : k ≡ j). ap (lookup m) p))
  | inr (v, e) ↦
      rw (e, revise) (rw lookup-insert (ground (arith, eq_iff k j, λ (p : k ≡ j). ap (lookup m) p)))
]

-- On a reliable engine the tables after a statement are what it means, or the same if a constraint
-- rejects it.
pub tables-exec :
    {Db : Type 0} (engine : Engine Db) (tables : Db → Tables) (db : Db) (s : Statement)
    → IsSql engine tables
    → IsReliable engine tables
    → tables (engine.exec db s).0 ≡ get_or (sql (tables db) s) (tables db)
tables-exec engine tables db s laws works = elim (Option-cases (sql (tables db) s)) [
  | inl e ↦ elim (Bool-cases (engine.exec db s).1) [
    | inl done ↦ ground (arith, laws.exec_done db s done)
    | inr failed ↦ rw e (laws.exec_failed db s failed)
  ]
  | inr (t, e) ↦
      let done = works.accepts db s t e in
      rw e (some-injective _ _ (sym (laws.exec_done db s done) ∙ e))
]

-- A statement that leaves the tables as they are leaves the database's as they are.
pub exec-kept :
    {Db : Type 0} (engine : Engine Db) (tables : Db → Tables)
    → IsSql engine tables
    → (db : Db) (s : Statement) → sql (tables db) s ≡ some (tables db)
    → (engine.exec db s).1 ≡ true
    → tables (engine.exec db s).0 ≡ tables db
exec-kept engine tables laws db s kept done =
    some-injective _ _ (sym (laws.exec_done db s done) ∙ kept)
