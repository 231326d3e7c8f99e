-- ===== src/Control/Stored.antt =====
-- The writes of a rule to the database, each with the change in memory that goes with it.
use gotaxy.Prelude.{
  String, ◌≡◌, ◌≢◌, ◌∙◌, refl, ap, Bool, true, false, Option, none, some, arith, str_eq, eq_iff,
  Option-cases, Bool-cases, inl, inr,
}
use gotaxy.Prelude.Dict.{lookup}
use gotaxy.Int64.{Int64}
use gotaxy.Context.{Context}
use gotaxy.Session.{Mapping, Manager, Ref, set_mapping, delete_mapping, update_mapping}
use gotaxy.Session.View.{view}
use gotaxy.Storage.Sql.{Tables, Row, Statement, sql, delete_rule, update_rule}
use gotaxy.Storage.Laws.{IsSql, IsReliable}
use gotaxy.Storage.Rules.{Rule, durable, durable_step, durable-exec, durable-failed}
use gotaxy.Storage.{Engine, insert_mpg, delete_map_by_name, update_map}
use gotaxy.Server.{GotaxyServer}
use gotaxy.Control.{mapping_of, start_listener}
use gotaxy.Control.Sync.{
  IsSynced, rule_of, tables-IsSynced, set_mapping-IsSynced, delete_mapping-IsSynced,
  update_mapping-IsSynced, mapping_of-view, write-IsSynced,
}

module _ {Db : Type 0} (engine : Engine Db) (tables : Db → Tables)
    (laws : IsSql engine tables) where
  pub start_listener-IsSynced :
      (s : GotaxyServer Db) (name : String) (r : Ref) (x : Mapping) (parent : Context)
      → mapping_of s.sessions name ≡ some (r, x)
      → IsSynced s.sessions (tables s.db)
      → IsSynced (start_listener s r parent).sessions (tables (start_listener s r parent).db)
  unfolding start_listener
  start_listener-IsSynced s name r x parent h v =
      write-IsSynced name r _ (mapping_of-view s.sessions name r x h).0 (λ x. refl) (λ x. refl) v

  failed-IsSynced :
      {m : Manager} (db : Db) (s : Statement)
      → (engine.exec db s).1 ≡ false
      → IsSynced m (tables db)
      → IsSynced m (tables (engine.exec db s).0)
  failed-IsSynced db s h v = tables-IsSynced (λ j. durable-failed engine tables laws db s j h) v

  -- A statement that does not concern the durable rules.
  pub quiet-IsSynced :
      {m : Manager} (db : Db) (s : Statement)
      → ((rules : String → Option Rule) (j : String) → durable_step s rules j ≡ rules j)
      → IsSynced m (tables db)
      → IsSynced m (tables (engine.exec db s).0)
  quiet-IsSynced db s quiet v = elim (Bool-cases (engine.exec db s).1) [
    | inr failed ↦ failed-IsSynced db s failed v
    | inl done ↦
        tables-IsSynced
          (λ j. durable-exec engine tables laws db s j done ∙ quiet (durable (tables db)) j) v
  ]

  pub insert_mpg-failed :
      {m : Manager} (db : Db) (row : Row)
      → (insert_mpg engine db row).1 ≡ false
      → IsSynced m (tables db)
      → IsSynced m (tables (insert_mpg engine db row).0)
  unfolding insert_mpg
  insert_mpg-failed db row h v = failed-IsSynced db _ h v

  pub insert_mpg-IsSynced :
      {m : Manager} (db : Db) (row : Row) (enable : Bool) (traffic : Int64)
      → row.name ≢ ""
      → (insert_mpg engine db row).1 ≡ true
      → IsSynced m (tables db)
      → IsSynced
          (set_mapping m row.name row.public_port row.target_addr enable traffic row.rate_limit)
          (tables (insert_mpg engine db row).0)
  unfolding insert_mpg
  insert_mpg-IsSynced db row enable traffic named h v =
      set_mapping-IsSynced row.name row.public_port row.target_addr enable row.enable traffic
        row.rate_limit named (λ j. durable-exec engine tables laws db _ j h) v

  -- A name that has a mapping is not empty.
  pub unempty :
      {m : Manager} {t : Tables} (name : String) (x : Mapping)
      → IsSynced m t
      → view m name ≡ some x
      → name ≢ ""
  unempty {m} name x v h p = let e : view m "" ≡ some x = rw (← p) h in ground (arith, v.unnamed)

  -- `UpdateMap` that gives no row has left the table as it was, or has found no row of the name.
  durable-row :
      (t : Tables) (name : String) (rule : Rule)
      → durable t name ≡ some rule
      → (r : Row) × (lookup t.mapping name ≡ some r)
  unfolding durable
  durable-row t name rule h = elim (Option-cases (lookup t.mapping name)) [
    | inl e ↦ ground arith
    | inr p ↦ p
  ]

  module _ (works : IsReliable engine tables) where
    delete_done : (db : Db) (name : String) → (engine.exec db (delete_rule name)).1 ≡ true
    unfolding sql
    delete_done db name = works.accepts db (delete_rule name) _ refl

    update_done :
        (db : Db) (name port addr : String) (enable : Bool) (limit : Int64)
        → (engine.exec db (update_rule port addr enable limit name)).1 ≡ true
    unfolding sql
    update_done db name port addr enable limit =
        works.accepts db (update_rule port addr enable limit name) _ refl

    pub delete_map_by_name-IsSynced :
        {m : Manager} (db : Db) (name : String) (x : Mapping)
        → view m name ≡ some x
        → IsSynced m (tables db)
        → IsSynced (delete_mapping m name) (tables (delete_map_by_name engine db name).0)
    unfolding delete_map_by_name
    delete_map_by_name-IsSynced {m} db name x h v =
        let test : str_eq name "" ≡ false = ground (arith, unempty name x v h, eq_iff name "") in
        let done = delete_done db name in
        rw test (
          delete_mapping-IsSynced name
            (λ j. durable-exec engine tables laws db (delete_rule name) j done) v)

    -- The statement of `UpdateMap` for a name that has a mapping succeeds, and so does the query.
    pub update_map-found :
        {m : Manager} (db : Db) (name port addr : String) (enable : Bool) (limit : Int64)
        (x : Mapping)
        → view m name ≡ some x
        → IsSynced m (tables db)
        → (update_map engine db name port addr enable limit).1 ≢ none
    unfolding update_map
    update_map-found {m} db name port addr enable limit x h v p =
        let s = update_rule port addr enable limit name in
        let done : (engine.exec db s).1 ≡ true = update_done db name port addr enable limit in
        let old : durable (tables db) name ≡ some (rule_of x) = ground (arith, v.rules name) in
        let new : durable (tables (engine.exec db s).0) name
            ≡ some (record { port = port; target = addr; limit = limit }) =
          ground (arith, durable-exec engine tables laws db s name done, eq_iff name name) in
        let (r, e) = durable-row _ name _ new in
        let found = works.finds (engine.exec db s).0 name r e in ground arith

  -- The tables after `UpdateMap` for a name that has a mapping.
  pub update_map-IsSynced :
      {m : Manager} (db : Db) (name port addr : String) (enable : Bool) (limit : Int64) (r : Row)
      → (update_map engine db name port addr enable limit).1 ≡ some r
      → IsSynced m (tables db)
      → IsSynced
          (update_mapping m name port addr limit)
          (tables (update_map engine db name port addr enable limit).0)
  unfolding update_map
  update_map-IsSynced db name port addr enable limit r h v =
      let s = update_rule port addr enable limit name in
      let done : (engine.exec db s).1 ≡ true = ground arith in
      update_mapping-IsSynced name port addr enable limit
        (λ j. durable-exec engine tables laws db s j done) v

  -- `UpdateMap` with the values that the mapping has, whether it succeeds or not.
  pub update_map-IsSynced_same :
      {m : Manager} (db : Db) (name : String) (enable : Bool) (x : Mapping)
      → view m name ≡ some x
      → IsSynced m (tables db)
      → IsSynced m
          (tables (update_map engine db name x.public_port x.target_addr enable x.rate_limit).0)
  unfolding update_map
  update_map-IsSynced_same db name enable x h v =
      let s = update_rule x.public_port x.target_addr enable x.rate_limit name in
      elim (Bool-cases (engine.exec db s).1) [
        | inr failed ↦ failed-IsSynced db s failed v
        | inl done ↦
            tables-IsSynced
              (λ j.
                durable-exec engine tables laws db s j done
                ∙ ground (
                  arith,
                  v.rules name,
                  v.rules j,
                  eq_iff name j,
                  λ (p : name ≡ j). ap (durable (tables db)) p,
                ))
              v
      ]
