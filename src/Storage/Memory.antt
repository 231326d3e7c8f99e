-- ===== src/Storage/Memory.antt =====
-- A database in memory that never fails, as an instance of the laws.
use gotaxy.Prelude.{
  suc, String, Bool, true, false, Option, none, some, map, ◌≡◌, refl, sym, ◌∙◌, subst, ap, arith,
  Option-cases, ◌⊎◌, inl, inr, eq_iff,
}
use mathlib.Core.Option.{some-injective}
use gotaxy.Prelude.Dict.{
  Dict, lookup, insert, erase, IsMap, insert-IsMap, erase-IsMap, lookup-insert, lookup-erase,
}
use gotaxy.Storage.Sql.{
  Statement, Row, Tables, sql, revise, create_config, create_mapping, insert_config, update_config,
  insert_rule, delete_rule, update_rule, update_traffic,
}
use gotaxy.Storage.{Engine}
use gotaxy.Storage.Laws.{IsSql, IsReliable}

-- The unique columns are unique, and a row has the name by which it is held.
pub record IsValid (t : Tables) : Type 0 where
  pub config_unique : IsMap t.config
  pub rule_unique : IsMap t.mapping
  pub rule_named : (k : String) (r : Row) → lookup t.mapping k ≡ some r → r.name ≡ k

revise-IsMap {ℓ} :
    {V : Type ℓ} (m : Dict V) (k : String) (f : V → V) → IsMap m → IsMap (revise m k f)
unfolding revise
revise-IsMap m k f h = elim (Option-cases (lookup m k)) [
  | inl e ↦ rw (e, revise) h
  | inr (v, e) ↦ rw (e, revise) (insert-IsMap m k (f v) h)
]

insert_named :
    (m : Dict Row) (k : String) (v : Row)
    → v.name ≡ k
    → ((j : String) (r : Row) → lookup m j ≡ some r → r.name ≡ j)
    → (j : String) (r : Row) → lookup (insert m k v) j ≡ some r
    → r.name ≡ j
insert_named m k v n h j r e = ground (arith, lookup-insert m k j v, eq_iff k j, h j r)

revise_named :
    (m : Dict Row) (k : String) (f : Row → Row)
    → ((r : Row) → (f r).name ≡ r.name)
    → ((j : String) (r : Row) → lookup m j ≡ some r → r.name ≡ j)
    → (j : String) (r : Row) → lookup (revise m k f) j ≡ some r
    → r.name ≡ j
unfolding revise
revise_named m k f keeps h j r = elim (Option-cases (lookup m k)) [
  | inl e ↦ rw (e, revise) (h j r)
  | inr (v, e) ↦ rw (e, revise) (insert_named m k (f v) (keeps v ∙ h k v e) h j r)
]

erase_named :
    (m : Dict Row) (k : String)
    → ((j : String) (r : Row) → lookup m j ≡ some r → r.name ≡ j)
    → (j : String) (r : Row) → lookup (erase m k) j ≡ some r
    → r.name ≡ j
erase_named m k h j r e = ground (arith, lookup-erase m k j, h j r)

-- A statement keeps the constraints.
pub sql-IsValid : (t u : Tables) (s : Statement) → IsValid t → sql t s ≡ some u → IsValid u
unfolding sql
sql-IsValid t u create_config v h = subst IsValid (some-injective _ _ h) v
sql-IsValid t u create_mapping v h = subst IsValid (some-injective _ _ h) v
sql-IsValid t u (insert_config key value) v h =
    let same : record t { config = insert t.config key value } ≡ u = ground arith in
    subst IsValid same (record {
      config_unique = insert-IsMap t.config key value v.config_unique;
      rule_unique = v.rule_unique;
      rule_named = v.rule_named;
    })
sql-IsValid t u (update_config value key) v h = subst IsValid (some-injective _ _ h) (record {
  config_unique = revise-IsMap t.config key (λ _. value) v.config_unique;
  rule_unique = v.rule_unique;
  rule_named = v.rule_named;
})
sql-IsValid t u (insert_rule name port addr enable limit) v h =
    let row : Row = record {
      id = t.next_id;
      name = name;
      public_port = port;
      target_addr = addr;
      enable = enable;
      traffic = 0;
      rate_limit = limit;
    } in
    let same : record t { mapping = insert t.mapping name row; next_id = suc t.next_id } ≡ u =
      ground arith in
    subst IsValid same (record {
      config_unique = v.config_unique;
      rule_unique = insert-IsMap t.mapping name row v.rule_unique;
      rule_named = insert_named t.mapping name row refl v.rule_named;
    })
sql-IsValid t u (delete_rule name) v h = subst IsValid (some-injective _ _ h) (record {
  config_unique = v.config_unique;
  rule_unique = erase-IsMap t.mapping name v.rule_unique;
  rule_named = erase_named t.mapping name v.rule_named;
})
sql-IsValid t u (update_rule port addr enable limit name) v h =
    subst IsValid (some-injective _ _ h) (record {
      config_unique = v.config_unique;
      rule_unique = revise-IsMap t.mapping name _ v.rule_unique;
      rule_named = revise_named t.mapping name _ (λ r. refl) v.rule_named;
    })
sql-IsValid t u (update_traffic traffic name) v h = subst IsValid (some-injective _ _ h) (record {
  config_unique = v.config_unique;
  rule_unique = revise-IsMap t.mapping name _ v.rule_unique;
  rule_named = revise_named t.mapping name _ (λ r. refl) v.rule_named;
})

-- Tables that keep the constraints.
pub record Memory : Type 0 where
  pub tables : Tables
  pub valid : IsValid tables

abbrev pub tables : Memory → Tables
tables db = db.tables

-- Whether the constraints accept a statement.
abbrev accepted : (o : Option Tables) → (o ≡ none) ⊎ ((t : Tables) × (o ≡ some t))
accepted none = inl refl
accepted (some t) = inr (t, refl)

abbrev Executed : Memory → Statement → Type 0
Executed db s = (sql db.tables s ≡ none) ⊎ ((t : Tables) × (sql db.tables s ≡ some t))

abbrev execute : (db : Memory) (s : Statement) → Executed db s → Memory × Bool
execute db s (inl e) = (db, false)
execute db s (inr (t, e)) =
    (record { tables = t; valid = sql-IsValid db.tables t s db.valid e }, true)

abbrev pub memory : Engine Memory
memory = record {
  exec = λ db s. execute db s (accepted (sql db.tables s));
  query_config = λ db. some (record { rows = map some db.tables.config; complete = true });
  query_rules =
      λ db. some (record { rows = map (λ e. some e.1) db.tables.mapping; complete = true });
  query_rule = λ db name. lookup db.tables.mapping name;
}

execute-done :
    (db : Memory) (s : Statement) (o : Executed db s)
    → (execute db s o).1 ≡ true
    → sql db.tables s ≡ some (execute db s o).0.tables
execute-done db s (inl e) h = ground arith
execute-done db s (inr (t, e)) h = e

execute-failed :
    (db : Memory) (s : Statement) (o : Executed db s)
    → (execute db s o).1 ≡ false
    → (execute db s o).0.tables ≡ db.tables
execute-failed db s (inl e) h = refl
execute-failed db s (inr (t, e)) h = ground arith

execute-accepts :
    (db : Memory) (s : Statement) (t : Tables) (o : Executed db s)
    → sql db.tables s ≡ some t
    → (execute db s o).1 ≡ true
execute-accepts db s t (inl e) h = cc
execute-accepts db s t (inr (u, e)) h = refl

pub memory-IsSql : IsSql memory tables
memory-IsSql = record {
  exec_done = λ db s. execute-done db s (accepted (sql db.tables s));
  exec_failed = λ db s. execute-failed db s (accepted (sql db.tables s));
  config_rows = λ db c h full. ap (λ c. c.rows) (sym (some-injective _ _ h));
  rule_rows = λ db c h full. ap (λ c. c.rows) (sym (some-injective _ _ h));
  rule_row = λ db name r h. h;
  config_unique = λ db. db.valid.config_unique;
  rule_unique = λ db. db.valid.rule_unique;
  rule_named = λ db. db.valid.rule_named;
}

pub memory-IsReliable : IsReliable memory tables
memory-IsReliable = record {
  accepts = λ db s t. execute-accepts db s t (accepted (sql db.tables s));
  finds = λ db name r h. h;
  reads_config = λ db. (_, refl, refl);
  reads_rules = λ db. (_, refl, refl);
}
