-- ===== src/Web/Mappings/Races/Deletions.antt =====
-- What the deletion of a rule by one handler does to the others.
use gotaxy.Prelude.{
  String, ◌≡◌, refl, ap, ◌+◌, ◌%◌, ◌^◌, true, false, none, some, [], ◌∷◌, arith, str_eq, length,
  eq_iff,
}
use gotaxy.Prelude.Dict.{lookup, erase, lookup-erase, erase-eq_self}
use gotaxy.Int64.{sub64}
use gotaxy.Session.{
  Mapping, Manager, Ref, read, get_mapping, delete_mapping, update_enable, has, change, write,
}
use gotaxy.Session.Count.{IsCounted, delete_mapping-IsCounted}
use gotaxy.Storage.{Engine}
use gotaxy.Server.{GotaxyServer}
use gotaxy.Web.Mappings.Races.{
  toggle, delete, begins, forgets, panicked, advance, turn, interleave, inspect,
}

-- A name that is not there, deleted once more.
again-miscounted :
    (m : Manager) (k : String)
    → lookup m.table k ≡ none
    → IsCounted m
    → ((delete_mapping m k).total_conns + 1) % 2 ^ 64 ≡ length (delete_mapping m k).table % 2 ^ 64
unfolding delete_mapping sub64
again-miscounted m k gone c =
    let same : length (erase m.table k) ≡ length m.table =
      ap length (erase-eq_self m.table k gone) in
    omega (arith, same, c.counted)

gone : (m : Manager) (k : String) → lookup (delete_mapping m k).table k ≡ none
unfolding delete_mapping
gone m k = ground (arith, lookup-erase m.table k k, eq_iff k k)

module _ {Db : Type 0} (engine : Engine Db) (name : String) (r : Ref) (x : Mapping)
    (s : GotaxyServer Db) (found : get_mapping s.sessions name ≡ some r)
    (seen : read s.sessions r ≡ some x) (idle : str_eq x.status "active" ≡ false) where
  -- A rule of a running service is switched on, and deleted between the two calls by which the handler
  -- looks it up: the pointer is nil, and following it panics, if the rule is there and has no listener.
  pub interleave-panicked :
      s.is_run ≡ true
      → (interleave engine (0 ∷ 1 ∷ 1 ∷ 0 ∷ 1 ∷ 0 ∷ []) (
        s,
        begins (toggle (record { name = name; enable = true })) ∷ begins (delete name) ∷ [],
      )).1
        ≡ panicked ∷ forgets name ∷ []
  unfolding interleave turn advance begins inspect update_enable delete_mapping get_mapping has
      change write
  interleave-panicked runs =
      ground
        (arith, found, seen, idle, runs, lookup-erase s.sessions.table name name, eq_iff name name)

  -- A rule without a listener is deleted by two handlers, both of which look it up before either deletes
  -- it: the counter, which was right, is one less than the number of the names in the table, modulo
  -- 2 ^ 64.
  pub interleave-miscounted :
      IsCounted s.sessions
      → let (s', pool) =
          interleave engine
            (0 ∷ 1 ∷ 0 ∷ 1 ∷ 0 ∷ 1 ∷ [])
            (s, begins (delete name) ∷ begins (delete name) ∷ []) in
        (pool ≡ forgets name ∷ forgets name ∷ [])
        × ((s'.sessions.total_conns + 1) % 2 ^ 64 ≡ length s'.sessions.table % 2 ^ 64)
  unfolding interleave turn advance begins inspect delete_mapping get_mapping
  interleave-miscounted counted =
      let once = delete_mapping s.sessions name in
      rw (found, advance)
        (rw (seen, inspect, advance)
          (rw idle (
            refl,
            again-miscounted once name (gone s.sessions name)
                (delete_mapping-IsCounted name r found counted),
          )))
