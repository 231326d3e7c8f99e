-- ===== src/Control/Pointers.antt =====
-- The pointer that a name gives, after a write through it.
use gotaxy.Prelude.{
  String, ◌≡◌, sym, ap, ◌∙◌, Bool, true, none, some, ◌⊎◌, arith, ==_iff, Option-cases, inl, inr,
}
use gotaxy.Prelude.Dict.{lookup}
use gotaxy.Session.{
  Mapping, Manager, Ref, read, write, change, get_mapping, update_enable, has, with_enable,
}
use gotaxy.Session.View.{IsLinked, get_elem?-modify}
use gotaxy.Control.{mapping_of}

module _ (m : Manager) (k : String) (r : Ref) (x : Mapping) (h : mapping_of m k ≡ some (r, x)) where
  -- What the name gives.
  pub pointer : (lookup m.table k ≡ some r) × (read m r ≡ some x)
  unfolding get_mapping
  pointer = elim (Option-cases (lookup m.table k)) [
    | inl e ↦ ground arith
    | inr (q, e) ↦ elim (Option-cases (read m q)) [
      | inl g ↦ ground arith
      | inr (y, g) ↦
          let same : q ≡ r = ground arith in
          (ground arith, ap (read m) (sym same) ∙ g ∙ ground arith)
    ]
  ]

  pub read-write : (f : Mapping → Mapping) → read (write m r f) r ≡ some (f x)
  unfolding write
  read-write f = rw get_elem?-modify (rw pointer.1 (ground (arith, ==_iff r r)))

  pub mapping_of-write : (f : Mapping → Mapping) → mapping_of (write m r f) k ≡ some (r, f x)
  unfolding get_mapping write
  mapping_of-write f = let e = read-write f in rw (pointer.0, mapping_of) (rw e)

  change-write : (f : Mapping → Mapping) → change m k f ≡ write m r f
  unfolding change
  change-write f = rw (pointer.0, change)

  pub mapping_of-update_enable :
      (enable : Bool)
      → (mapping_of (update_enable m k enable).0 k ≡ some (r, with_enable enable x))
        × ((update_enable m k enable).1 ≡ true)
  unfolding update_enable has
  mapping_of-update_enable enable = (
    ap (λ n. mapping_of n k) (change-write (with_enable enable))
        ∙ mapping_of-write (with_enable enable),
    rw (pointer.0, has),
  )

-- In a table without dangling pointers: no such name, or a pointer to a mapping.
pub found-cases :
    (m : Manager) (k : String)
    → IsLinked m
    → (get_mapping m k ≡ none)
      ⊎ ((r : Ref) × (x : Mapping) × (get_mapping m k ≡ some r) × (read m r ≡ some x))
unfolding get_mapping
found-cases m k v = elim (Option-cases (lookup m.table k)) [
  | inl e ↦ inl e
  | inr (r, e) ↦ let (x, seen, _) = v.at k r e in inr (r, x, e, seen)
]
