-- ===== src/System/Restart.antt =====
-- A server that is stopped after a tick of the persistence and started again on the same database.
use mathlib.Core.Option
use mathlib.Core.Option.{get_or}
use gotaxy.Prelude.{
  ◌<◌, ◌^◌, String, ◌≡◌, ◌≢◌, ◌∙◌, refl, sym, ap, true, Option, none, some, arith, Option-cases,
  inl, inr,
}
use gotaxy.Prelude.Dict.{Dict, lookup, IsMap}
use gotaxy.Int64.{Int64, is_positive}
use gotaxy.Strconv.{parsed, parse_int}
use gotaxy.Session.{Mapping}
use gotaxy.Session.View.{view, view-name}
use gotaxy.Storage.Sql.{Tables, Row}
use gotaxy.Storage.Laws.{IsSql, IsReliable}
use gotaxy.Storage.Rules.{durable, rule_of_row}
use gotaxy.Storage.{Engine}
use gotaxy.Config.{value_of}
use gotaxy.Config.Load.{mapping_of_row}
use gotaxy.Server.{GotaxyServer, persist}
use gotaxy.Server.Persistence.{stored, persist-rows, persist-total}
use gotaxy.Control.Sync.{IsSynced, rule_of}
use gotaxy.System.{start_up}
use gotaxy.System.Startup.{IsReadable, view-start_up}

-- Nothing but the counter changes.
rule_of-stored :
    (o : Option Mapping) (r : Row) → rule_of (mapping_of_row (stored o r)) ≡ rule_of_row r
rule_of-stored none r = refl
rule_of-stored (some x) r = ground arith

stored-name : (x : Mapping) (r : Row) → (mapping_of_row (stored (some x) r)).name ≡ r.name
stored-name x r = ground arith

-- The mapping that is loaded for a rule with a row: the rule as it was in memory, the counter too if there was
-- traffic, but the flag that the row has.
pub record IsRestored (row : Row) (old new : Mapping) : Type 0 where
  pub rule : rule_of new ≡ rule_of old
  pub name : new.name ≡ old.name
  pub traffic : is_positive old.traffic ≡ true → new.traffic ≡ old.traffic
  pub enable : new.enable ≡ row.enable

module _ {Db : Type 0} (engine : Engine Db) (tables : Db → Tables) (laws : IsSql engine tables)
    (works : IsReliable engine tables) where
  row_of :
      (s : GotaxyServer Db) (k : String) (x : Mapping)
      → IsSynced s.sessions (tables s.db)
      → view s.sessions k ≡ some x
      → (r : Row) × (lookup (tables s.db).mapping k ≡ some r) × (rule_of_row r ≡ rule_of x)
  unfolding durable
  row_of s k x v h = elim (Option-cases (lookup (tables s.db).mapping k)) [
    | inl e ↦ ground (arith, v.rules k)
    | inr (r, e) ↦ (r, e, ground (arith, v.rules k))
  ]

  parsed_present :
      (m : Dict String) (k : String) (v : Int64)
      → parse_int (value_of m k) ≡ parsed v
      → (lookup m k ≢ none) × (parse_int (get_or (lookup m k) "0") ≡ parsed v)
  unfolding parse_int gotaxy.Strconv.signed
  parsed_present m k v h = elim (Option-cases (lookup m k)) [
    | inl e ↦
        let bad : parse_int "" ≡ parsed v =
          ap (λ (o : Option String). parse_int (get_or o "")) (sym e) ∙ h in
        ground arith
    | inr (w, e) ↦ (
      λ n. ground arith,
      ap (λ (o : Option String). parse_int (get_or o "0")) e
          ∙ ap (λ (o : Option String). parse_int (get_or o "")) (sym e)
          ∙ h,
    )
  ]

  -- A database to which a tick has stored can be read at the next start.
  persist-IsReadable :
      (s : GotaxyServer Db) (old : String)
      → IsMap s.sessions.table
      → IsSynced s.sessions (tables s.db)
      → s.config.total_traffic < 2 ^ 64
      → lookup (tables s.db).config "total_traffic" ≡ some old
      → IsReadable (tables (persist engine s).db) s.config.total_traffic
  unfolding durable
  persist-IsReadable s old h v fits total =
      let (there, reads) =
        parsed_present _ _ _ (persist-total engine tables laws works s old fits total) in
      record {
        parses = reads;
        present = λ _. there;
        named =
            persist-rows engine tables laws works s "" h v.linked
            ∙ ground (arith, v.rules "", v.unnamed);
      }

  -- If port, target and limit of each rule are the same in memory and in the database, names are unique, and
  -- the total is a 64-bit number with a setting of its own, on a database that fails only where SQL says: a
  -- start after a tick gives each rule in memory back, with name, port, target and limit, and with its
  -- counter if that was positive. Its flag, whether it is enabled, is the one of its row, which may be another
  -- than the one in memory.
  pub restart-IsRestored :
      (s : GotaxyServer Db) (old k : String) (x : Mapping)
      → IsMap s.sessions.table
      → IsSynced s.sessions (tables s.db)
      → s.config.total_traffic < 2 ^ 64
      → lookup (tables s.db).config "total_traffic" ≡ some old
      → view s.sessions k ≡ some x
      → (r : Row) × (lookup (tables s.db).mapping k ≡ some r)
        × (y : Mapping) × (view (start_up engine (persist engine s).db).sessions k ≡ some y)
        × IsRestored r x y
  restart-IsRestored s old k x h v fits total seen =
      let (r, e, same) = row_of s k x v seen in
      let readable = persist-IsReadable s old h v fits total in
      let row : lookup (tables (persist engine s).db).mapping k ≡ some (stored (some x) r) =
        persist-rows engine tables laws works s k h v.linked ∙ ground (arith, seen, e) in
      (
        r,
        e,
        mapping_of_row (stored (some x) r),
        view-start_up engine tables laws works (persist engine s).db s.config.total_traffic k
              readable
            ∙ ap (Option.map mapping_of_row) row,
        record {
          rule = rule_of-stored (some x) r ∙ same;
          name = stored-name x r ∙ laws.rule_named s.db k r e ∙ sym (view-name k x v.linked seen);
          traffic = λ p. ground arith;
          enable = ground arith;
        },
      )
