-- ===== src/Server/Persistence.antt =====
-- What one tick of the persistence task stores.
use mathlib.Core.Option
use gotaxy.Prelude.{
  ◌^◌, ◌<◌, String, ◌≡◌, ◌∙◌, refl, sym, ap, Bool, true, false, Option, none, some, List, [], ◌∷◌,
  map, arith, str_eq, eq_iff, if◌then◌else◌, Bool-cases, inl, inr, get_elem?,
}
use mathlib.Core.Option.{get_or}
use gotaxy.Prelude.Dict.{Dict, lookup, IsMap}
use gotaxy.Int64.{Int64, is_positive}
use gotaxy.Strconv.{parsed, parse_int, format_int}
use gotaxy.Strconv.RoundTrip.{parse_int-format_int}
use gotaxy.Session.{Mapping, Manager, Ref, read, get_all_mappings}
use gotaxy.Session.View.{view, find, IsLinked}
use gotaxy.Storage.Sql.{Row, Tables, sql, update_config, update_traffic}
use gotaxy.Storage.Laws.{IsSql, IsReliable, tables-exec, lookup-revise}
use gotaxy.Storage.{Engine, update_tra}
use gotaxy.Config.{value_of}
use gotaxy.Server.{GotaxyServer, persist_mapping, persist_mappings, persist}

-- The row of a name after a tick: the counter in memory, if it is positive.
abbrev pub stored : Option Mapping → Row → Row
stored none r = r
stored (some x) r = if is_positive x.traffic then record r { traffic = x.traffic } else r

stored_once :
    (x : Mapping) (j k : String) (o : Option Row) (rest : Option Mapping)
    → x.name ≡ j
    → (str_eq j k ≡ true → rest ≡ none)
    → Option.map (stored rest) (if str_eq x.name k then Option.map (stored (some x)) o else o)
      ≡ Option.map (stored (if str_eq j k then some x else rest)) o
stored_once x j k o rest n h = elim (Bool-cases (str_eq j k)) [
  | inl e ↦ rw (h e, e) (ground (arith, e, n, eq_iff j k, eq_iff x.name k))
  | inr e ↦ rw e (ground (arith, e, n, eq_iff j k, eq_iff x.name k))
]

find-if :
    (heap : List Mapping) (b : Bool) (r : Ref) (x : Mapping) (o : Option Ref)
    → get_elem? heap r ≡ some x
    → (if b then some x else find heap o) ≡ find heap (if b then some r else o)
find-if heap true r x o e = sym e
find-if heap false r x o e = refl

module _ {Db : Type 0} (engine : Engine Db) (tables : Db → Tables) (laws : IsSql engine tables)
    (works : IsReliable engine tables) where
  rule : Db → String → Option Row
  rule db k = lookup (tables db).mapping k

  rule-update_tra :
      (db : Db) (name k : String) (t : Int64)
      → rule (update_tra engine db name t).0 k ≡ (
          if str_eq name k
          then Option.map (λ (r : Row). record r { traffic = t }) (rule db k)
          else rule db k)
  unfolding rule update_tra sql
  rule-update_tra db name k t =
      rw (tables-exec engine tables db (update_traffic t name) laws works)
        (lookup-revise (tables db).mapping name k (λ (r : Row). record r { traffic = t }))

  rule-persist_mapping :
      (db : Db) (x : Mapping) (k : String)
      → rule (persist_mapping engine db (some x)) k
        ≡ (if str_eq x.name k then Option.map (stored (some x)) (rule db k) else rule db k)
  unfolding persist_mapping
  rule-persist_mapping db x k = elim (Bool-cases (is_positive x.traffic)) [
    | inl e ↦ rw e (ground (arith, e, rule-update_tra db x.name k x.traffic))
    | inr e ↦ rw e (ground (arith, e))
  ]

  -- Entries of the table that lead to mappings of their own names.
  abbrev Leads : List Mapping → Dict Ref → Type 0
  Leads heap entries =
      (k : String) (r : Ref)
      → lookup entries k ≡ some r
      → (x : Mapping) × (get_elem? heap r ≡ some x) × (x.name ≡ k)

  rule-persist_mappings :
      (m : Manager) (db : Db) (entries : Dict Ref) (k : String)
      → IsMap entries
      → Leads m.heap entries
      → rule (persist_mappings engine m db (map (λ e. e.1) entries)) k
        ≡ Option.map (stored (find m.heap (lookup entries k))) (rule db k)
  unfolding persist_mappings lookup
  rule-persist_mappings m db [] k h v = ground arith
  rule-persist_mappings m db ((j, r) ∷ entries) k h v =
      let (x, e, n) = v j r (ground (arith, eq_iff j j)) in
      let below : Leads m.heap entries =
        λ i q f. v i q (ground (arith, eq_iff j i, h.0, λ (p : j ≡ i). ap (lookup entries) p)) in
      rule-persist_mappings m (persist_mapping engine db (read m r)) entries k h.1 below
      ∙ ap
          (λ o.
            Option.map (stored (find m.heap (lookup entries k)))
              (rule (persist_mapping engine db o) k))
          e
      ∙ ap (Option.map (stored (find m.heap (lookup entries k)))) (rule-persist_mapping db x k)
      ∙ stored_once x j k (rule db k) (find m.heap (lookup entries k)) n
          (λ p. ap (find m.heap) (ap (lookup entries) (sym ((eq_iff j k).0 p)) ∙ h.0))
      ∙ ap (λ o. Option.map (stored o) (rule db k))
          (find-if m.heap (str_eq j k) r x (lookup entries k) e)

  -- With unique names in a linked table of pointers, and on a database that fails only where SQL
  -- says: after a tick the row of a name has the counter in memory, if the name has a mapping and
  -- its counter is positive; all else of the row stays, and no row comes or goes.
  pub persist-rows :
      (s : GotaxyServer Db) (k : String)
      → IsMap s.sessions.table
      → IsLinked s.sessions
      → lookup (tables (persist engine s).db).mapping k
        ≡ Option.map (stored (view s.sessions k)) (lookup (tables s.db).mapping k)
  unfolding persist get_all_mappings view rule sql
  persist-rows s k h v =
      rule-persist_mappings s.sessions _ s.sessions.table k h v.at
      ∙ ap (λ (t : Tables). Option.map (stored (view s.sessions k)) (lookup t.mapping k))
          (tables-exec engine tables s.db
            (update_config (format_int s.config.total_traffic) "total_traffic") laws works)

  config-persist_mapping :
      (db : Db) (o : Option Mapping)
      → (tables (persist_mapping engine db o)).config ≡ (tables db).config
  unfolding persist_mapping update_tra sql
  config-persist_mapping db none = refl
  config-persist_mapping db (some x) =
      ground (arith, tables-exec engine tables db (update_traffic x.traffic x.name) laws works)

  config-persist_mappings :
      (m : Manager) (db : Db) (l : List Ref)
      → (tables (persist_mappings engine m db l)).config ≡ (tables db).config
  unfolding persist_mappings
  config-persist_mappings m db [] = refl
  config-persist_mappings m db (r ∷ l) =
      config-persist_mappings m (persist_mapping engine db (read m r)) l
      ∙ config-persist_mapping db (read m r)

  -- If the total is below 2 ^ 64 and its setting has a row, on a database that fails only where SQL
  -- says: after a tick the text of the setting parses as the total that is in memory, which is what
  -- `ConfigLoad` would read back.
  pub persist-total :
      (s : GotaxyServer Db) (old : String)
      → s.config.total_traffic < 2 ^ 64
      → lookup (tables s.db).config "total_traffic" ≡ some old
      → parse_int (value_of (tables (persist engine s).db).config "total_traffic")
        ≡ parsed s.config.total_traffic
  unfolding persist sql
  persist-total s old fits h =
      let text = format_int s.config.total_traffic in
      let written =
        lookup-revise (tables s.db).config "total_traffic" "total_traffic" (λ (_ : String). text) in
      rw config-persist_mappings (
        rw (tables-exec engine tables s.db (update_config text "total_traffic") laws works)
          (rw (written, h) (parse_int-format_int s.config.total_traffic fits)))
