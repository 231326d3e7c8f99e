-- ===== src/Relay/Held.antt =====
-- A mapping while its listener runs: it stays in the table under its name, and its port, its target and
-- its limit stay as they are.
use mathlib.Core.Option.{some-injective}
use gotaxy.Prelude.{
  String, ◌≡◌, refl, sym, ap, ◌∙◌, Bool, true, false, none, some, [], ◌∷◌, arith, str_eq, eq_iff,
  ◌==◌, if◌then◌else◌, Option-cases, Bool-cases, inl, inr, get_elem?-append_lt,
  lt_length_of_get_elem?,
}
use gotaxy.Prelude.Dict.{lookup, lookup-insert, lookup-erase}
use gotaxy.Int64.{Int64}
use gotaxy.Session.{
  Mapping, Manager, Ref, read, write, change, with_rule, set_session, remove_session, get_mapping,
  set_mapping, delete_mapping, update_mapping, update_enable, add_traffic, new_mapping,
}
use gotaxy.Session.View.{get_elem?-modify}
use gotaxy.Control.{mapping_of}
use gotaxy.Control.Inv.{IsManaged}
use gotaxy.Control.Sync.{mapping_of-view}
use gotaxy.Relay.Inv.{IsRelayed}

-- The mapping `x` of a pointer, as its listener took it.
pub record IsHeld (r : Ref) (x : Mapping) (m : Manager) : Type 0 where
  pub now : Mapping
  pub found : read m r ≡ some now
  pub named : lookup m.table x.name ≡ some r
  pub active : now.status ≡ "active"
  pub port : now.public_port ≡ x.public_port
  pub target : now.target_addr ≡ x.target_addr
  pub limit : now.rate_limit ≡ x.rate_limit

-- What a change must keep of the mapping.
record Keeps (x y : Mapping) : Type 0 where
  status : x.status ≡ "active" → y.status ≡ "active"
  port : y.public_port ≡ x.public_port
  target : y.target_addr ≡ x.target_addr
  limit : y.rate_limit ≡ x.rate_limit

module _ (r : Ref) (x : Mapping) where
  found_write :
      (m : Manager) (q : Ref) (f : Mapping → Mapping) (y : Mapping)
      → read m r ≡ some y
      → read (write m q f) r ≡ some (if q == r then f y else y)
  unfolding write
  found_write m q f y h = rw get_elem?-modify (rw h (ground arith))

  write-IsHeld :
      (m : Manager) (q : Ref) (f : Mapping → Mapping)
      → ((y : Mapping) → (q == r) ≡ true → Keeps y (f y))
      → IsHeld r x m
      → IsHeld r x (write m q f)
  unfolding write
  write-IsHeld m q f keeps v = elim (Bool-cases (q == r)) [
    | inl here ↦
        let k = keeps v.now here in
        record {
          now = f v.now;
          found = found_write m q f v.now v.found ∙ (rw here);
          named = v.named;
          active = k.status v.active;
          port = k.port ∙ v.port;
          target = k.target ∙ v.target;
          limit = k.limit ∙ v.limit;
        }
    | inr there ↦ record {
      now = v.now;
      found = found_write m q f v.now v.found ∙ (rw there);
      named = v.named;
      active = v.active;
      port = v.port;
      target = v.target;
      limit = v.limit;
    }
  ]

  change-IsHeld :
      (m : Manager) (k : String) (f : Mapping → Mapping)
      → ((q : Ref) (y : Mapping) → lookup m.table k ≡ some q → (q == r) ≡ true → Keeps y (f y))
      → IsHeld r x m
      → IsHeld r x (change m k f)
  unfolding change
  change-IsHeld m k f keeps v = elim (Option-cases (lookup m.table k)) [
    | inl e ↦ rw (e, change) v
    | inr (q, e) ↦ rw (e, change) (write-IsHeld m q f (λ y here. keeps q y e here) v)
  ]

  read-mapping_of :
      (m : Manager) (k : String) (q : Ref) (y : Mapping)
      → mapping_of m k ≡ some (q, y)
      → read m q ≡ some y
  unfolding get_mapping
  read-mapping_of m k q y h = elim (Option-cases (lookup m.table k)) [
    | inl e ↦ ground arith
    | inr (p, e) ↦ elim (Option-cases (read m p)) [
      | inl g ↦ ground arith
      | inr (z, g) ↦ ground arith
    ]
  ]

  -- A mapping that is not active is another one.
  idle_other :
      (m : Manager) (k : String) (q : Ref) (y : Mapping)
      → mapping_of m k ≡ some (q, y)
      → str_eq y.status "active" ≡ false
      → IsHeld r x m
      → (q == r) ≡ false
  idle_other m k q y h idle v = elim (Bool-cases (q == r)) [
    | inr there ↦ there
    | inl here ↦
        let same : q ≡ r = ground arith in
        let now : some y ≡ some v.now =
          sym (read-mapping_of m k q y h) ∙ ap (read m) same ∙ v.found in
        let status : y.status ≡ "active" =
          ap (λ (z : Mapping). z.status) (some-injective _ _ now) ∙ v.active in
        ground (arith, eq_iff y.status "active")
  ]

  delete_mapping-IsHeld :
      (m : Manager) (k : String) (q : Ref) (y : Mapping)
      → mapping_of m k ≡ some (q, y)
      → str_eq y.status "active" ≡ false
      → IsHeld r x m
      → IsHeld r x (delete_mapping m k)
  unfolding delete_mapping
  delete_mapping-IsHeld m k q y h idle v =
      let other = idle_other m k q y h idle v in
      let (at, seen) = mapping_of-view m k q y h in
      record {
        now = v.now;
        found = v.found;
        named = lookup-erase m.table k x.name ∙ (elim (Bool-cases (str_eq k x.name)) [
          | inl e ↦
              let q_r : some q ≡ some r =
                sym at ∙ ap (lookup m.table) ((eq_iff k x.name).0 e) ∙ v.named in
              let same = some-injective _ _ q_r in ground arith
          | inr e ↦ rw e v.named
        ]);
        active = v.active;
        port = v.port;
        target = v.target;
        limit = v.limit;
      }

  set_mapping-IsHeld :
      (m : Manager) (k port target : String) (enable : Bool) (traffic limit : Int64)
      → get_mapping m k ≡ none
      → IsHeld r x m
      → IsHeld r x (set_mapping m k port target enable traffic limit)
  unfolding set_mapping get_mapping
  set_mapping-IsHeld m k port target enable traffic limit new v = record {
    now = v.now;
    found =
        get_elem?-append_lt m.heap (new_mapping k port target enable traffic limit ∷ []) r
          (lt_length_of_get_elem? m.heap r v.now v.found)
        ∙ v.found;
    named = lookup-insert m.table k x.name _ ∙ (elim (Bool-cases (str_eq k x.name)) [
      | inl e ↦
          let clash : none ≡ some r =
            sym new ∙ ap (lookup m.table) ((eq_iff k x.name).0 e) ∙ v.named in
          ground arith
      | inr e ↦ rw e v.named
    ]);
    active = v.active;
    port = v.port;
    target = v.target;
    limit = v.limit;
  }

  same_but :
      {y z : Mapping}
      → z.status ≡ y.status
      → z.public_port ≡ y.public_port
      → z.target_addr ≡ y.target_addr
      → z.rate_limit ≡ y.rate_limit
      → Keeps y z
  same_but s p t l = record { status = λ a. s ∙ a; port = p; target = t; limit = l }

  update_mapping-IsHeld :
      (m : Manager) (k port target : String) (limit : Int64) (q : Ref) (y : Mapping)
      → mapping_of m k ≡ some (q, y)
      → str_eq y.status "active" ≡ false
      → IsHeld r x m
      → IsHeld r x (update_mapping m k port target limit)
  unfolding update_mapping
  update_mapping-IsHeld m k port target limit q y h idle v =
      let other = idle_other m k q y h idle v in
      let (at, seen) = mapping_of-view m k q y h in
      change-IsHeld m k (with_rule port target limit)
        (λ p z e here.
          let same : some p ≡ some q = sym e ∙ at in
          let same' = some-injective _ _ same in ground arith)
        v

  pub IsHeld-IsManaged : IsManaged (IsHeld r x)
  unfolding update_enable add_traffic
  IsHeld-IsManaged = record {
    enabled = λ m k enable v. change-IsHeld m k _ (λ q y e h. same_but refl refl refl refl) v;
    opened = λ m q ctx c v. write-IsHeld m q _ (λ y h. same_but refl refl refl refl) v;
    added = set_mapping-IsHeld;
    deleted = delete_mapping-IsHeld;
    updated = update_mapping-IsHeld;
    counted = λ m k bytes v. change-IsHeld m k _ (λ q y e h. same_but refl refl refl refl) v;
  }

  pub IsHeld-IsRelayed : IsRelayed (IsHeld r x) (λ q. (q == r) ≡ false)
  unfolding set_session remove_session
  IsHeld-IsRelayed = record {
    opened = λ m q ctx c v. write-IsHeld m q _ (λ y h. same_but refl refl refl refl) v;
    joined = λ m id session v. record {
      now = v.now;
      found = v.found;
      named = v.named;
      active = v.active;
      port = v.port;
      target = v.target;
      limit = v.limit;
    };
    left = λ m id v. record {
      now = v.now;
      found = v.found;
      named = v.named;
      active = v.active;
      port = v.port;
      target = v.target;
      limit = v.limit;
    };
    active = λ m q v.
        write-IsHeld m q _
          (λ y h. record { status = λ _. refl; port = refl; target = refl; limit = refl }) v;
    inactive = λ m q other v. write-IsHeld m q _ (λ y here. ground arith) v;
  }
