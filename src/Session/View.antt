-- ===== src/Session/View.antt =====
-- The table of pointers seen as a map from names to mappings: each operation of the manager is an
-- operation on that map, and none reaches another name's mapping.
use mathlib.Core.Option
use mathlib.Core.Option.{some-injective}
use gotaxy.Prelude.{
  zero, suc, String, ◌≡◌, refl, sym, ap, ◌∙◌, Bool, true, false, Option, none, some, List, [], ◌∷◌,
  ◌++◌, arith, str_eq, eq_iff, ◌==◌, if◌then◌else◌, length, get_elem?, Option-cases, Bool-cases,
  inl, inr, get_elem?-append_self, get_elem?-append_lt, lt_length_of_get_elem?,
}
use gotaxy.Prelude.Dict.{lookup, lookup-insert, lookup-erase}
use gotaxy.Int64.{Int64}
use gotaxy.Session.{
  Mapping, Ref, Manager, new_manager, has, change, modify, write, new_mapping, set_mapping,
  delete_mapping, get_traffic,
}

abbrev pub find : List Mapping → Option Ref → Option Mapping
find heap none = none
find heap (some r) = get_elem? heap r

-- The mapping of a name.
unfoldable pub view : Manager → String → Option Mapping
view m k = find m.heap (lookup m.table k)

-- Each pointer of the table leads to a mapping that has the key as its name.
pub record IsLinked (m : Manager) : Type 0 where
  pub at :
      (k : String) (r : Ref)
      → lookup m.table k ≡ some r
      → (x : Mapping) × (get_elem? m.heap r ≡ some x) × (x.name ≡ k)

pub get_elem?-modify :
    (f : Mapping → Mapping) (r q : Ref) (heap : List Mapping)
    → get_elem? (modify f r heap) q
      ≡ (if r == q then Option.map f (get_elem? heap q) else get_elem? heap q)
unfolding modify
get_elem?-modify f r q [] = ground arith
get_elem?-modify f zero zero (x ∷ heap) = refl
get_elem?-modify f zero (suc q) (x ∷ heap) = ground arith
get_elem?-modify f (suc r) zero (x ∷ heap) = ground arith
get_elem?-modify f (suc r) (suc q) (x ∷ heap) = ground (arith, get_elem?-modify f r q heap)

-- Two names never share a pointer.
names_differ :
    {m : Manager} (k j : String) (r : Ref)
    → IsLinked m
    → lookup m.table k ≡ some r
    → lookup m.table j ≡ some r
    → k ≡ j
names_differ k j r v hk hj =
    let (x, ex, nx) = v.at k r hk in
    let (y, ey, ny) = v.at j r hj in
    let same : x ≡ y = cc in sym nx ∙ ap (λ (z : Mapping). z.name) same ∙ ny

view-write :
    {m : Manager} (k j : String) (r : Ref) (f : Mapping → Mapping)
    → IsLinked m
    → lookup m.table k ≡ some r
    → view (write m r f) j ≡ (if str_eq k j then Option.map f (view m j) else view m j)
unfolding view write
view-write {m} k j r f v h = elim (Option-cases (lookup m.table j)) [
  | inl e ↦ rw e (ground arith)
  | inr (q, e) ↦ rw e (
      rw get_elem?-modify (
        ground (
          arith,
          eq_iff k j,
          λ (p : r ≡ q). names_differ k j r v h (rw p e),
          λ (p : k ≡ j). some-injective r q (sym h ∙ ap (λ t. lookup m.table t) p ∙ e),
        )))
]

pub write-IsLinked :
    {m : Manager} (r : Ref) (f : Mapping → Mapping)
    → ((x : Mapping) → (f x).name ≡ x.name)
    → IsLinked m
    → IsLinked (write m r f)
unfolding write
write-IsLinked {m} r f keeps v = record {
  at = λ k q h.
      let (x, e, n) = v.at k q h in
      elim (Bool-cases (r == q)) [
        | inl same ↦ (f x, rw get_elem?-modify (rw (same, e)), keeps x ∙ n)
        | inr other ↦ (x, rw get_elem?-modify (rw (other, e)), n)
      ];
}

-- What a key leads to does not change when the heap grows.
find-append :
    {m : Manager} (j : String) (y : Mapping)
    → IsLinked m
    → find (m.heap ++ y ∷ []) (lookup m.table j) ≡ find m.heap (lookup m.table j)
find-append {m} j y v = elim (Option-cases (lookup m.table j)) [
  | inl e ↦ rw e
  | inr (r, e) ↦
      let (x, f, n) = v.at j r e in
      rw e (get_elem?-append_lt m.heap (y ∷ []) r (lt_length_of_get_elem? m.heap r x f))
]

-- A new mapping under a name, fresh or not.
pub view-set_mapping :
    {m : Manager} (k j port target : String) (enable : Bool) (traffic limit : Int64)
    → IsLinked m
    → view (set_mapping m k port target enable traffic limit) j
      ≡ (if str_eq k j then some (new_mapping k port target enable traffic limit) else view m j)
unfolding view set_mapping
view-set_mapping {m} k j port target enable traffic limit v =
    let x = new_mapping k port target enable traffic limit in
    elim (Bool-cases (str_eq k j)) [
      | inl e ↦ rw (lookup-insert, e) (get_elem?-append_self m.heap x)
      | inr e ↦ rw (lookup-insert, e) (find-append j x v)
    ]

pub set_mapping-IsLinked :
    {m : Manager} (k port target : String) (enable : Bool) (traffic limit : Int64)
    → IsLinked m
    → IsLinked (set_mapping m k port target enable traffic limit)
unfolding set_mapping
set_mapping-IsLinked {m} k port target enable traffic limit v = record {
  at = λ j r h.
      let x = new_mapping k port target enable traffic limit in
      elim (Bool-cases (str_eq k j)) [
        | inl e ↦
            let q : length m.heap ≡ r = ground (arith, lookup-insert m.table k j (length m.heap)) in
            (x, rw (← q) (get_elem?-append_self m.heap x), (eq_iff k j).0 e)
        | inr e ↦
            let q : lookup m.table j ≡ some r =
              ground (arith, lookup-insert m.table k j (length m.heap)) in
            let (y, f, n) = v.at j r q in
            (y, get_elem?-append_lt m.heap (x ∷ []) r (lt_length_of_get_elem? m.heap r y f) ∙ f, n)
      ];
}

pub view-delete_mapping :
    (m : Manager) (k j : String)
    → view (delete_mapping m k) j ≡ (if str_eq k j then none else view m j)
unfolding view delete_mapping
view-delete_mapping m k j = rw lookup-erase (ground arith)

pub delete_mapping-IsLinked :
    {m : Manager} (k : String) → IsLinked m → IsLinked (delete_mapping m k)
unfolding delete_mapping
delete_mapping-IsLinked {m} k v = record {
  at = λ j r h. v.at j r (ground (arith, lookup-erase m.table k j));
}

-- A name has a mapping exactly when it is in the table.
pub view-eq_none :
    {m : Manager} (k : String) → IsLinked m → view m k ≡ none → lookup m.table k ≡ none
unfolding view
view-eq_none {m} k v h = elim (Option-cases (lookup m.table k)) [
  | inl e ↦ e
  | inr (r, e) ↦
      let (x, f, n) = v.at k r e in
      let g : get_elem? m.heap r ≡ none = sym (ap (find m.heap) e) ∙ h in cc
]

-- A mapping has the name that gives it.
pub view-name :
    {m : Manager} (k : String) (x : Mapping) → IsLinked m → view m k ≡ some x → x.name ≡ k
unfolding view
view-name {m} k x v h = elim (Option-cases (lookup m.table k)) [
  | inl e ↦ ground arith
  | inr (r, e) ↦ let (y, f, n) = v.at k r e in ground arith
]

lookup-eq_none : (m : Manager) (k : String) → lookup m.table k ≡ none → view m k ≡ none
unfolding view
lookup-eq_none m k h = rw h

-- `has` tells whether the name has a mapping.
pub has-view :
    {m : Manager} (k : String)
    → IsLinked m
    → has m k ≡ (elim (view m k) [ some _ ↦ true | none ↦ false ])
unfolding has view
has-view {m} k v = elim (Option-cases (lookup m.table k)) [
  | inl e ↦ rw (e, has)
  | inr (r, e) ↦ let (x, f, n) = v.at k r e in rw (e, has, f)
]

-- Changing the mapping of one name changes that of no other, and nothing if the name has none.
pub view-change :
    {m : Manager} (k j : String) (f : Mapping → Mapping)
    → IsLinked m
    → view (change m k f) j ≡ (if str_eq k j then Option.map f (view m j) else view m j)
unfolding change
view-change {m} k j f v = elim (Option-cases (lookup m.table k)) [
  | inl e ↦
      rw (e, change)
        (ground (arith, eq_iff k j, lookup-eq_none m k e, λ (p : k ≡ j). ap (view m) p))
  | inr (r, e) ↦ rw (e, change) (view-write k j r f v e)
]

pub change-IsLinked :
    {m : Manager} (k : String) (f : Mapping → Mapping)
    → ((x : Mapping) → (f x).name ≡ x.name)
    → IsLinked m
    → IsLinked (change m k f)
unfolding change
change-IsLinked {m} k f keeps v = elim (Option-cases (lookup m.table k)) [
  | inl e ↦ rw (e, change) v
  | inr (r, e) ↦ rw (e, change) (write-IsLinked r f keeps v)
]

pub new_manager-IsLinked : IsLinked new_manager
unfolding lookup
new_manager-IsLinked = record { at = λ k r h. cc }

-- The traffic read for a name is that of its mapping, or 0.
pub get_traffic-view :
    {m : Manager} (k : String)
    → IsLinked m
    → get_traffic m k ≡ (elim (view m k) [ some x ↦ x.traffic | none ↦ 0 ])
unfolding get_traffic view
get_traffic-view {m} k v = elim (Option-cases (lookup m.table k)) [
  | inl e ↦ rw (e, get_traffic)
  | inr (r, e) ↦ let (x, f, n) = v.at k r e in rw (e, get_traffic, f)
]
