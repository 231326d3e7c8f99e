-- ===== src/Control/Sync.antt =====
-- The rules in memory and the rows of the table `mapping` say the same of port, target and limit.
-- What the operations of the manager and the statements do to that.
use mathlib.Core.Option
use gotaxy.Prelude.{
  String, ◌≡◌, ◌≢◌, ◌∙◌, refl, sym, subst, Bool, true, false, none, some, arith, str_eq, eq_iff,
  if◌then◌else◌, Option-cases, inl, inr,
}
use gotaxy.Prelude.Dict.{lookup}
use gotaxy.Int64.{Int64}
use gotaxy.Session.{
  Mapping, Manager, Ref, get_mapping, write, set_mapping, delete_mapping, change, update_enable,
  update_mapping, with_rule,
}
use gotaxy.Session.View.{
  view, IsLinked, view-set_mapping, view-delete_mapping, view-change, set_mapping-IsLinked,
  delete_mapping-IsLinked, change-IsLinked,
}
use gotaxy.Storage.Sql.{Tables, insert_rule, delete_rule, update_rule}
use gotaxy.Storage.Rules.{Rule, durable, durable_step}
use gotaxy.Control.{mapping_of}

-- What a mapping says in its durable part.
abbrev pub rule_of : Mapping → Rule
rule_of x = record { port = x.public_port; target = x.target_addr; limit = x.rate_limit }

-- Memory and tables agree, pointers lead to their own names, and no rule has the empty name.
pub record IsSynced (m : Manager) (t : Tables) : Type 0 where
  pub linked : IsLinked m
  pub unnamed : view m "" ≡ none
  pub rules : (k : String) → Option.map rule_of (view m k) ≡ durable t k

-- A case split on a condition that keeps its equation.
pub both {ℓ p} :
    {A : Type ℓ} (P : A → Type p) (b : Bool) {x y : A}
    → (b ≡ true → P x)
    → (b ≡ false → P y)
    → P (if b then x else y)
both P true f g = f refl
both P false f g = g refl

pub tables-IsSynced :
    {m : Manager} {t u : Tables}
    → ((j : String) → durable u j ≡ durable t j)
    → IsSynced m t
    → IsSynced m u
tables-IsSynced same v = record {
  linked = v.linked;
  unnamed = v.unnamed;
  rules = λ k. v.rules k ∙ sym (same k);
}

pub set_mapping-IsSynced :
    {m : Manager} {t u : Tables} (k port target : String) (enable stored : Bool)
    (traffic limit : Int64)
    → k ≢ ""
    → ((j : String)
        → durable u j ≡ durable_step (insert_rule k port target stored limit) (durable t) j)
    → IsSynced m t
    → IsSynced (set_mapping m k port target enable traffic limit) u
set_mapping-IsSynced {m} k port target enable stored traffic limit named step v = record {
  linked = set_mapping-IsLinked k port target enable traffic limit v.linked;
  unnamed = ground (
    arith,
    view-set_mapping k "" port target enable traffic limit v.linked,
    eq_iff k "",
    v.unnamed,
  );
  rules = λ j.
      ground
        (arith, view-set_mapping k j port target enable traffic limit v.linked, step j, v.rules j);
}

pub delete_mapping-IsSynced :
    {m : Manager} {t u : Tables} (k : String)
    → ((j : String) → durable u j ≡ durable_step (delete_rule k) (durable t) j)
    → IsSynced m t
    → IsSynced (delete_mapping m k) u
delete_mapping-IsSynced {m} k step v = record {
  linked = delete_mapping-IsLinked k v.linked;
  unnamed = ground (arith, view-delete_mapping m k "", v.unnamed);
  rules = λ j. ground (arith, view-delete_mapping m k j, step j, v.rules j);
}

-- Any change of a mapping that a change of the tables follows.
pub change-IsSynced :
    {m : Manager} {t u : Tables} (k : String) (f : Mapping → Mapping)
    → ((x : Mapping) → (f x).name ≡ x.name)
    → ((j : String)
        → durable u j
          ≡ (if str_eq k j then Option.map (λ x. rule_of (f x)) (view m j) else durable t j))
    → IsSynced m t
    → IsSynced (change m k f) u
change-IsSynced {m} k f keeps step v = record {
  linked = change-IsLinked k f keeps v.linked;
  unnamed = ground (arith, view-change k "" f v.linked, v.unnamed);
  rules = λ j. ground (arith, view-change k j f v.linked, step j, v.rules j);
}

-- A change that leaves the durable part of the mapping alone.
pub change-IsSynced_same :
    {m : Manager} {t : Tables} (k : String) (f : Mapping → Mapping)
    → ((x : Mapping) → (f x).name ≡ x.name)
    → ((x : Mapping) → rule_of (f x) ≡ rule_of x)
    → IsSynced m t
    → IsSynced (change m k f) t
change-IsSynced_same {m} k f keeps same v =
    change-IsSynced k f keeps
      (λ j. elim (Option-cases (view m j)) [
        | inl e ↦ ground (arith, v.rules j)
        | inr (x, e) ↦ ground (arith, v.rules j, same x)
      ])
      v

pub update_enable-IsSynced :
    {m : Manager} {t : Tables} (k : String) (enable : Bool)
    → IsSynced m t
    → IsSynced (update_enable m k enable).0 t
unfolding update_enable
update_enable-IsSynced k enable v = change-IsSynced_same k _ (λ x. refl) (λ x. refl) v

pub update_mapping-IsSynced :
    {m : Manager} {t u : Tables} (k port target : String) (enable : Bool) (limit : Int64)
    → ((j : String)
        → durable u j ≡ durable_step (update_rule port target enable limit k) (durable t) j)
    → IsSynced m t
    → IsSynced (update_mapping m k port target limit) u
unfolding update_mapping
update_mapping-IsSynced {m} k port target enable limit step v =
    change-IsSynced k (with_rule port target limit) (λ x. refl)
      (λ j. elim (Option-cases (view m j)) [
        | inl e ↦ ground (arith, v.rules j, step j)
        | inr (x, e) ↦ ground (arith, v.rules j, step j)
      ])
      v

-- A pointer that a name gives is the one of the name's mapping.
pub mapping_of-view :
    (m : Manager) (k : String) (r : Ref) (x : Mapping)
    → mapping_of m k ≡ some (r, x)
    → (lookup m.table k ≡ some r) × (view m k ≡ some x)
unfolding get_mapping view
mapping_of-view m k r x h = elim (Option-cases (lookup m.table k)) [
  | inl e ↦ ground arith
  | inr (q, e) ↦ ground arith
]

pub mapping_of-name :
    {m : Manager} (k : String) (r : Ref) (x : Mapping)
    → IsLinked m
    → mapping_of m k ≡ some (r, x)
    → x.name ≡ k
unfolding view
mapping_of-name {m} k r x v h =
    let (found, seen) = mapping_of-view m k r x h in let (y, e, n) = v.at k r found in ground arith

-- A write through the pointer of a name.
pub write-IsSynced :
    {m : Manager} {t : Tables} (k : String) (r : Ref) (f : Mapping → Mapping)
    → lookup m.table k ≡ some r
    → ((x : Mapping) → (f x).name ≡ x.name)
    → ((x : Mapping) → rule_of (f x) ≡ rule_of x)
    → IsSynced m t
    → IsSynced (write m r f) t
write-IsSynced {m} {t} k r f h keeps same v =
    let changed : change m k f ≡ write m r f = unfold change in rw (h, change) in
    subst (λ n. IsSynced n t) changed (change-IsSynced_same k f keeps same v)
