-- ===== src/Storage/Files.antt =====
-- A database in memory in which tables may be missing, as an instance of the laws of `Storage.Schema`.
use gotaxy.Prelude.{Bool, true, false, none, some, ◌≡◌, refl, sym, subst, if◌then◌else◌, arith}
use gotaxy.Storage.Sql.{
  Statement, Tables, sql, create_config, create_mapping, insert_config, update_config, insert_rule,
  delete_rule, update_rule, update_traffic,
}
use gotaxy.Storage.{Engine}
use gotaxy.Storage.Laws.{IsSql}
use gotaxy.Storage.Memory.{Memory, memory, memory-IsSql, memory-IsReliable}
use gotaxy.Storage.Schema.{Schema, IsSchema, IsComplete, IsSound}

pub record File : Type 0 where
  pub held : Memory
  pub schema : Schema

abbrev pub file_schema : File → Schema
file_schema f = f.schema

abbrev pub file_tables : File → Tables
file_tables f = f.held.tables

-- The table that a statement needs.
abbrev needs : Statement → Schema → Bool
needs create_config t = true
needs create_mapping t = true
needs (insert_config _ _) t = t.config
needs (update_config _ _) t = t.config
needs (insert_rule _ _ _ _ _) t = t.mapping
needs (delete_rule _) t = t.mapping
needs (update_rule _ _ _ _ _) t = t.mapping
needs (update_traffic _ _) t = t.mapping

abbrev made : Statement → Schema → Schema
made create_config t = record t { config = true }
made create_mapping t = record t { mapping = true }
made _ t = t

abbrev attempt : Bool → File → Statement → File × Bool
attempt true f s =
    (record { held = (memory.exec f.held s).0; schema = made s f.schema }, (memory.exec f.held s).1)
attempt false f s = (f, false)

abbrev pub file : Engine File
file = record {
  exec = λ f s. attempt (needs s f.schema) f s;
  query_config = λ f. if f.schema.config then memory.query_config f.held else none;
  query_rules = λ f. if f.schema.mapping then memory.query_rules f.held else none;
  query_rule = λ f name. if f.schema.mapping then memory.query_rule f.held name else none;
}

exec-config_made :
    (f : File)
    → (file.exec f create_config).1 ≡ true
    → (file.exec f create_config).0.schema.config ≡ true
exec-config_made f h = refl

attempt-config :
    (b : Bool) (f : File) (s : Statement)
    → f.schema.config ≡ true
    → (attempt b f s).0.schema.config ≡ true
attempt-config false f s h = h
attempt-config true f create_config h = refl
attempt-config true f create_mapping h = h
attempt-config true f (insert_config _ _) h = h
attempt-config true f (update_config _ _) h = h
attempt-config true f (insert_rule _ _ _ _ _) h = h
attempt-config true f (delete_rule _) h = h
attempt-config true f (update_rule _ _ _ _ _) h = h
attempt-config true f (update_traffic _ _) h = h

attempt-mapping :
    (b : Bool) (f : File) (s : Statement)
    → f.schema.mapping ≡ true
    → (attempt b f s).0.schema.mapping ≡ true
attempt-mapping false f s h = h
attempt-mapping true f create_config h = h
attempt-mapping true f create_mapping h = refl
attempt-mapping true f (insert_config _ _) h = h
attempt-mapping true f (update_config _ _) h = h
attempt-mapping true f (insert_rule _ _ _ _ _) h = h
attempt-mapping true f (delete_rule _) h = h
attempt-mapping true f (update_rule _ _ _ _ _) h = h
attempt-mapping true f (update_traffic _ _) h = h

pub file-IsSchema : IsSchema file file_schema
file-IsSchema = record {
  config_made = exec-config_made;
  mapping_made = λ f h. refl;
  config_kept = λ f s. attempt-config (needs s f.schema) f s;
  mapping_kept = λ f s. attempt-mapping (needs s f.schema) f s;
}

attempt-done :
    (b : Bool) (f : File) (s : Statement)
    → (attempt b f s).1 ≡ true
    → sql f.held.tables s ≡ some (attempt b f s).0.held.tables
attempt-done true f s h = memory-IsSql.exec_done f.held s h
attempt-done false f s h = ground arith

attempt-failed :
    (b : Bool) (f : File) (s : Statement)
    → (attempt b f s).1 ≡ false
    → (attempt b f s).0.held.tables ≡ f.held.tables
attempt-failed true f s h = memory-IsSql.exec_failed f.held s h
attempt-failed false f s h = refl

-- With both tables there, nothing is missing.
needs_complete : (s : Statement) (t : Schema) → IsComplete t → needs s t ≡ true
needs_complete create_config t h = refl
needs_complete create_mapping t h = refl
needs_complete (insert_config _ _) t h = h.0
needs_complete (update_config _ _) t h = h.0
needs_complete (insert_rule _ _ _ _ _) t h = h.1
needs_complete (delete_rule _) t h = h.1
needs_complete (update_rule _ _ _ _ _) t h = h.1
needs_complete (update_traffic _ _) t h = h.1

pub file-IsSql : IsSql file file_tables
file-IsSql = record {
  exec_done = λ f s. attempt-done (needs s f.schema) f s;
  exec_failed = λ f s. attempt-failed (needs s f.schema) f s;
  config_rows = λ f c h full. memory-IsSql.config_rows f.held c (ground arith) full;
  rule_rows = λ f c h full. memory-IsSql.rule_rows f.held c (ground arith) full;
  rule_row = λ f name r h. ground arith;
  config_unique = λ f. memory-IsSql.config_unique f.held;
  rule_unique = λ f. memory-IsSql.rule_unique f.held;
  rule_named = λ f. memory-IsSql.rule_named f.held;
}

pub file-IsSound : IsSound file file_tables file_schema
unfolding sql
file-IsSound = record {
  creates_config = λ f. memory-IsReliable.accepts f.held create_config _ refl;
  creates_mapping = λ f. memory-IsReliable.accepts f.held create_mapping _ refl;
  accepts = λ f s t there h.
      subst (λ b. (attempt b f s).1 ≡ true) (sym (needs_complete s f.schema there))
        (memory-IsReliable.accepts f.held s t h);
  finds = λ f name r there h. rw (there.1) (memory-IsReliable.finds f.held name r h);
  reads_config = λ f there. rw (there.0) (memory-IsReliable.reads_config f.held);
  reads_rules = λ f there. rw (there.1) (memory-IsReliable.reads_rules f.held);
}
