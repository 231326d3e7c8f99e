-- ===== src/Web/Mappings/Races/Rewrites.antt =====
-- Two updates of one rule at the same time.
use mathlib.Core.Option
use gotaxy.Prelude.{
  String, ◌≡◌, ◌∙◌, refl, sym, ap, false, some, [], ◌∷◌, arith, str_eq, eq_iff, Option-cases, inl,
  inr,
}
use gotaxy.Utils.{is_validate_addr}
use gotaxy.Session.{Mapping, Manager, Ref, read, get_mapping, update_mapping, with_rule}
use gotaxy.Session.View.{view, IsLinked, view-change, change-IsLinked}
use gotaxy.Storage.Sql.{Tables, Row}
use gotaxy.Storage.Laws.{IsSql, IsReliable}
use gotaxy.Storage.Rules.{Rule, durable}
use gotaxy.Storage.{Engine, update_map}
use gotaxy.Server.{GotaxyServer}
use gotaxy.Control.Sync.{IsSynced, rule_of}
use gotaxy.Control.Stored.{update_map-found, update_map-IsSynced}
use gotaxy.Web.{status_ok, rejected}
use gotaxy.Web.Mappings.{MappingRequest}
use gotaxy.Web.Mappings.Races.{update, begins, stores, answered, advance, turn, interleave, compare}

abbrev pub rule_of_req : MappingRequest → Rule
rule_of_req req = record {
  port = req.public_port;
  target = req.target_addr;
  limit = req.rate_limit;
}

abbrev rewrite : Manager → MappingRequest → Manager
rewrite m req = update_mapping m req.name req.public_port req.target_addr req.rate_limit

module _ {Db : Type 0} (engine : Engine Db) (tables : Db → Tables) (laws : IsSql engine tables)
    (works : IsReliable engine tables) where
  abbrev stored : MappingRequest → Mapping → Db → Db
  stored req x db =
      (update_map engine db req.name req.public_port req.target_addr x.enable req.rate_limit).0

  stored-IsSynced :
      {m : Manager} (req : MappingRequest) (x y : Mapping) (db : Db)
      → view m req.name ≡ some y
      → IsSynced m (tables db)
      → (row : Row) × ((update_map engine db req.name req.public_port req.target_addr x.enable
            req.rate_limit).1
          ≡ some row)
        × IsSynced (rewrite m req) (tables (stored req x db))
  stored-IsSynced {m} req x y db h v =
      let there =
        update_map-found engine tables laws works db req.name req.public_port req.target_addr
          x.enable req.rate_limit y h v in
      elim (Option-cases
        (update_map engine db req.name req.public_port req.target_addr x.enable req.rate_limit).1) [
          | inl e ↦ absurd (there e)
          | inr (row, e) ↦ (
            row,
            e,
            update_map-IsSynced engine tables laws db req.name req.public_port req.target_addr
                x.enable req.rate_limit row e v,
          )
        ]

  view-rewrite :
      {m : Manager} (req : MappingRequest) (k : String) (x : Mapping)
      → req.name ≡ k
      → IsLinked m
      → view m k ≡ some x
      → view (rewrite m req) k ≡ some (with_rule req.public_port req.target_addr req.rate_limit x)
  unfolding update_mapping
  view-rewrite {m} req k x same v h = ground (
    arith,
    view-change req.name k (with_rule req.public_port req.target_addr req.rate_limit) v,
    h,
    same,
    eq_iff req.name k,
  )

  rewrite-IsLinked : {m : Manager} (req : MappingRequest) → IsLinked m → IsLinked (rewrite m req)
  unfolding update_mapping
  rewrite-IsLinked req v =
      change-IsLinked req.name (with_rule req.public_port req.target_addr req.rate_limit)
        (λ x. refl) v

  -- The eight calls of the two handlers.
  interleave-rewrites :
      (s : GotaxyServer Db) (a b : MappingRequest) (r : Ref) (x : Mapping) (row row' : Row)
      → get_mapping s.sessions a.name ≡ some r
      → get_mapping s.sessions b.name ≡ some r
      → read s.sessions r ≡ some x
      → compare a (some x) ≡ stores a x.enable
      → compare b (some x) ≡ stores b x.enable
      → (update_map engine s.db a.name a.public_port a.target_addr x.enable a.rate_limit).1
        ≡ some row
      → (update_map engine
          (stored a x s.db)
          b.name
          b.public_port
          b.target_addr
          x.enable
          b.rate_limit).1
        ≡ some row'
      → interleave engine
          (0 ∷ 0 ∷ 1 ∷ 1 ∷ 0 ∷ 1 ∷ 1 ∷ 0 ∷ [])
          (s, begins (update a) ∷ begins (update b) ∷ [])
        ≡ (
          record s {
            sessions = rewrite (rewrite s.sessions b) a;
            db = stored b x (stored a x s.db);
          },
          answered status_ok ∷ answered status_ok ∷ [],
        )
  unfolding interleave turn advance begins
  interleave-rewrites s a b r x row row' found_a found_b seen past_a past_b first second =
      rw (found_a, found_b, advance)
        (rw (seen, advance)
          (rw (past_a, past_b, advance) (rw (first, advance) (rw (second, advance) refl))))

  -- Two requests update one rule without a listener, each to values that are accepted, on a database that
  -- fails only where SQL says: stored in one order and written to memory in the other, both are
  -- answered as done, and memory has the values of the first, the database those of the second.
  pub interleave-stale :
      (s : GotaxyServer Db) (a b : MappingRequest) (r : Ref) (x : Mapping)
      → b.name ≡ a.name
      → get_mapping s.sessions a.name ≡ some r
      → read s.sessions r ≡ some x
      → str_eq x.status "active" ≡ false
      → rejected is_validate_addr a.target_addr ≡ false
      → rejected is_validate_addr b.target_addr ≡ false
      → IsSynced s.sessions (tables s.db)
      → let (s', pool) =
          interleave engine
            (0 ∷ 0 ∷ 1 ∷ 1 ∷ 0 ∷ 1 ∷ 1 ∷ 0 ∷ [])
            (s, begins (update a) ∷ begins (update b) ∷ []) in
        (pool ≡ answered status_ok ∷ answered status_ok ∷ [])
        × (Option.map rule_of (view s'.sessions a.name) ≡ some (rule_of_req a))
        × (durable (tables s'.db) a.name ≡ some (rule_of_req b))
  unfolding compare get_mapping view
  interleave-stale s a b r x same found seen idle valid_a valid_b v =
      let m = s.sessions in
      let ax = with_rule a.public_port a.target_addr a.rate_limit x in
      let bx = with_rule b.public_port b.target_addr b.rate_limit x in
      let here : view m a.name ≡ some x = rw found seen in
      let found_b : get_mapping m b.name ≡ some r = rw same found in
      let (row, first, after) = stored-IsSynced a x x s.db here v in
      let mid : view (rewrite m a) b.name ≡ some ax =
        view-rewrite a b.name x (sym same) v.linked (rw same here) in
      let (row', second, last) = stored-IsSynced b x ax (stored a x s.db) mid after in
      let past_a : compare a (some x) ≡ stores a x.enable = rw (idle, valid_a) refl in
      let past_b : compare b (some x) ≡ stores b x.enable = rw (idle, valid_b) refl in
      let in_memory =
        view-rewrite a a.name bx refl (rewrite-IsLinked b v.linked)
          (view-rewrite b a.name x same v.linked here) in
      let in_table =
        view-rewrite b a.name ax same after.linked (view-rewrite a a.name x refl v.linked here) in
      rw (interleave-rewrites s a b r x row row' found found_b seen past_a past_b first second) (
        refl,
        ap (Option.map rule_of) in_memory,
        sym (last.rules a.name) ∙ ap (Option.map rule_of) in_table,
      )
