-- ===== src/Storage/Rules.antt =====
-- The durable rules: what the table `mapping` says of a name, but for the flag and the counter, of which the
-- table may be behind the memory.
use mathlib.Core.Option
use gotaxy.Prelude.{
  String, Bool, true, false, Option, none, some, ◌≡◌, ap, arith, if◌then◌else◌, Bool-cases, inl,
  inr, eq_iff, str_eq,
}
use gotaxy.Prelude.Dict.{lookup, lookup-insert, lookup-erase}
use gotaxy.Int64.{Int64}
use gotaxy.Storage.Sql.{
  Statement, Row, Tables, sql, create_config, create_mapping, insert_config, update_config,
  insert_rule, delete_rule, update_rule, update_traffic,
}
use gotaxy.Storage.Laws.{IsSql, lookup-revise}
use gotaxy.Storage.{Engine, update_map}

pub record Rule : Type 0 where
  pub port : String
  pub target : String
  pub limit : Int64

abbrev pub rule_of_row : Row → Rule
rule_of_row r = record { port = r.public_port; target = r.target_addr; limit = r.rate_limit }

unfoldable pub durable : Tables → String → Option Rule
durable t k = Option.map rule_of_row (lookup t.mapping k)

-- What a statement means for the durable rules.
abbrev pub durable_step : Statement → (String → Option Rule) → String → Option Rule
durable_step (insert_rule name port addr enable limit) rules j =
    if str_eq name j then some (record { port = port; target = addr; limit = limit }) else rules j
durable_step (delete_rule name) rules j = if str_eq name j then none else rules j
durable_step (update_rule port addr enable limit name) rules j =
    if str_eq name j
    then Option.map (λ _. record { port = port; target = addr; limit = limit }) (rules j)
    else rules j
durable_step _ rules j = rules j

pub durable-sql :
    (t u : Tables) (s : Statement) (j : String)
    → sql t s ≡ some u
    → durable u j ≡ durable_step s (durable t) j
unfolding durable sql
durable-sql t u create_config j h = ground arith
durable-sql t u create_mapping j h = ground arith
durable-sql t u (insert_config key value) j h = ground arith
durable-sql t u (update_config value key) j h = ground arith
durable-sql t u (insert_rule name port addr enable limit) j h = ground (
  arith,
  lookup-insert t.mapping name j (record {
    id = t.next_id;
    name = name;
    public_port = port;
    target_addr = addr;
    enable = enable;
    traffic = 0;
    rate_limit = limit;
  }),
)
durable-sql t u (delete_rule name) j h = ground (arith, lookup-erase t.mapping name j)
durable-sql t u (update_rule port addr enable limit name) j h = ground (
  arith,
  lookup-revise t.mapping name j λ (r : Row). record r {
    public_port = port;
    target_addr = addr;
    enable = enable;
    rate_limit = limit;
  },
)
durable-sql t u (update_traffic traffic name) j h =
    ground (arith, lookup-revise t.mapping name j (λ (r : Row). record r { traffic = traffic }))

module _ {Db : Type 0} (engine : Engine Db) (tables : Db → Tables)
    (laws : IsSql engine tables) where
  -- The durable rules after a statement that the engine has executed.
  pub durable-exec :
      (db : Db) (s : Statement) (j : String)
      → (engine.exec db s).1 ≡ true
      → durable (tables (engine.exec db s).0) j ≡ durable_step s (durable (tables db)) j
  durable-exec db s j h = durable-sql (tables db) _ s j (laws.exec_done db s h)

  pub durable-failed :
      (db : Db) (s : Statement) (j : String)
      → (engine.exec db s).1 ≡ false
      → durable (tables (engine.exec db s).0) j ≡ durable (tables db) j
  durable-failed db s j h = ap (λ t. durable t j) (laws.exec_failed db s h)

  -- On an engine that keeps to SQL, a row that `UpdateMap` returns has the port, the address and
  -- the limit that were sent.
  pub update_map-row :
      (db : Db) (name port addr : String) (enable : Bool) (limit : Int64) (r : Row)
      → (update_map engine db name port addr enable limit).1 ≡ some r
      → rule_of_row r ≡ record { port = port; target = addr; limit = limit }
  unfolding update_map
  update_map-row db name port addr enable limit r h =
      let s = update_rule port addr enable limit name in
      elim (Bool-cases (engine.exec db s).1) [
        | inl done ↦
            let found : engine.query_rule (engine.exec db s).0 name ≡ some r = ground arith in
            let kept : durable (tables (engine.exec db s).0) name ≡ some (rule_of_row r) =
              unfold durable in rw (laws.rule_row (engine.exec db s).0 name r found) in
            ground (arith, durable-exec db s name done, eq_iff name name)
        | inr failed ↦ ground arith
      ]
