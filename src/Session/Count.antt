-- ===== src/Session/Count.antt =====
-- `totalConns` counts the names of the table, as long as a name is set only if it is new and deleted
-- only if it is there: the two methods change the counter without a look at the table.
use gotaxy.Prelude.{
  suc, ◌%◌, ◌^◌, String, ◌≡◌, refl, Bool, none, some, arith, length, Option-cases, inl, inr,
}
use gotaxy.Prelude.Dict.{
  lookup, insert, IsMap, insert-IsMap, erase-IsMap, length-insert, length-erase,
}
use gotaxy.Int64.{Int64, add64, sub64}
use gotaxy.Session.{Mapping, Manager, Ref, set_mapping, delete_mapping, change, write, new_manager}

pub record IsCounted (m : Manager) : Type 0 where
  pub keyed : IsMap m.table
  pub counted : m.total_conns ≡ length m.table % 2 ^ 64

pub new_manager-IsCounted : IsCounted new_manager
new_manager-IsCounted = record { keyed = tt; counted = refl }

-- If `totalConns` is the number of names, modulo 2 ^ 64, it is so after a name is set that is not
-- in the table.
pub set_mapping-IsCounted :
    {m : Manager} (k port target : String) (enable : Bool) (traffic limit : Int64)
    → lookup m.table k ≡ none
    → IsCounted m
    → IsCounted (set_mapping m k port target enable traffic limit)
unfolding set_mapping add64
set_mapping-IsCounted {m} k port target enable traffic limit new c = record {
  keyed = insert-IsMap m.table k (length m.heap) c.keyed;
  counted =
      let grown : length (insert m.table k (length m.heap)) ≡ suc (length m.table) =
        ground (arith, length-insert m.table k (length m.heap)) in
      omega (arith, c.counted);
}

-- If `totalConns` is the number of names, modulo 2 ^ 64, it is so after a name is deleted that is
-- in the table.
pub delete_mapping-IsCounted :
    {m : Manager} (k : String) (r : Ref)
    → lookup m.table k ≡ some r
    → IsCounted m
    → IsCounted (delete_mapping m k)
unfolding delete_mapping sub64
delete_mapping-IsCounted {m} k r old c = record {
  keyed = erase-IsMap m.table k c.keyed;
  counted = omega (arith, c.counted, length-erase m.table k r c.keyed old);
}

pub change-IsCounted :
    {m : Manager} (k : String) (f : Mapping → Mapping) → IsCounted m → IsCounted (change m k f)
unfolding change write
change-IsCounted {m} k f c = elim (Option-cases (lookup m.table k)) [
  | inl e ↦ rw (e, change) c
  | inr (r, e) ↦ rw (e, change) (record { keyed = c.keyed; counted = c.counted })
]
