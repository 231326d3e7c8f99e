-- ===== src/Web/Mappings/Races/Pending.antt =====
-- Rules that a handler has inserted into the table and not yet put into memory, and what the table and
-- memory say of each other meanwhile.
use mathlib.Core.Option
use gotaxy.Prelude.{
  ℕ, String, ◌≡◌, ◌∙◌, refl, sym, ap, Bool, true, false, not, Option, none, some, List, [], ◌∷◌,
  ◌++◌, arith, get_elem?, set, zero, suc, Option-cases, Bool-cases, inl, inr, eq_iff, str_eq,
  append_assoc, if◌then◌else◌,
}
use gotaxy.Prelude.Dict.{lookup}
use gotaxy.Int64.{Int64}
use gotaxy.Session.{Mapping, Manager, Ref, write, change, set_mapping}
use gotaxy.Session.View.{
  view, IsLinked, get_elem?-modify, write-IsLinked, change-IsLinked, set_mapping-IsLinked,
  view-change, view-set_mapping,
}
use gotaxy.Session.Count.{IsCounted, change-IsCounted, set_mapping-IsCounted}
use gotaxy.Storage.Sql.{Tables}
use gotaxy.Storage.Rules.{Rule, durable}
use gotaxy.Control.Sync.{rule_of}
use gotaxy.Web.Mappings.{MappingRequest}
use gotaxy.Web.Mappings.Races.{
  Progress, inserts, sets, deletes, erases, forgets, inspects, updates, compares, stores, rewrites,
}

module _ {ℓ} {A : Type ℓ} where
  abbrev pub as_list : Option A → List A
  as_list none = []
  as_list (some x) = x ∷ []

  single : (xs ys : List A) (x y : A) → xs ++ x ∷ ys ≡ y ∷ [] → (xs ≡ []) × (ys ≡ []) × (x ≡ y)
  single [] ys x y h = (refl, ground (arith, h), ground (arith, h))
  single (z ∷ []) ys x y h = ground (arith, h)
  single (z ∷ w ∷ xs) ys x y h = ground (arith, h)

  pub nothing : (xs ys : List A) → xs ++ ys ≡ [] → (xs ≡ []) × (ys ≡ [])
  nothing [] ys h = (refl, h)
  nothing (x ∷ xs) ys h = ground (arith, h)

  -- What is in a list of at most one.
  sole :
      (o p : Option A) (xs ys : List A) (x : A)
      → as_list o ≡ as_list p ++ (xs ++ x ∷ ys)
      → (o ≡ some x) × (p ≡ none) × (xs ≡ []) × (ys ≡ [])
  sole none none [] ys x h = ground (arith, h)
  sole none none (z ∷ xs) ys x h = ground (arith, h)
  sole none (some y) xs ys x h = ground (arith, h)
  sole (some y) none xs ys x h =
      let (l, r, e) = single xs ys x y (sym h) in (ap some (sym e), refl, l, r)
  sole (some y) (some z) [] ys x h = ground (arith, h)
  sole (some y) (some z) (w ∷ xs) ys x h = ground (arith, h)

  -- A place of a list, and what is before and behind it.
  pub split :
      (pool : List A) (i : ℕ) (p : A)
      → get_elem? pool i ≡ some p
      → (xs : List A) × (ys : List A) × (pool ≡ xs ++ p ∷ ys)
        × ((q : A) → set pool i q ≡ xs ++ q ∷ ys)
  split [] i p h = ground (arith, h)
  split (x ∷ pool) zero p h = ([], pool, ground (arith, h), λ q. refl)
  split (x ∷ pool) (suc i) p h =
      let (xs, ys, e, f) = split pool i p h in
      (x ∷ xs, ys, ap (λ zs. x ∷ zs) e, λ q. ap (λ zs. x ∷ zs) (f q))

-- The rules that are in the table and not yet in memory.
unfoldable pub own : Progress → String → List Rule
own (sets req limit) k =
    if str_eq req.name k
    then record { port = req.public_port; target = req.target_addr; limit = limit } ∷ []
    else []
own _ k = []

unfoldable pub pending : List Progress → String → List Rule
unfolding own
pending [] k = []
pending (p ∷ pool) k = own p k ++ pending pool k

pending-append :
    (xs ys : List Progress) (k : String) → pending (xs ++ ys) k ≡ pending xs k ++ pending ys k
unfolding pending
pending-append [] ys k = refl
pending-append (x ∷ xs) ys k =
    ap (λ zs. own x k ++ zs) (pending-append xs ys k)
    ∙ sym (append_assoc (own x k) (pending xs k) (pending ys k))

-- Neither deleting nor updating, and not about to add a rule of an empty name.
unfoldable pub is_additive : Progress → Bool
is_additive (inserts req limit) = not (str_eq req.name "")
is_additive (sets req limit) = not (str_eq req.name "")
is_additive (deletes name) = false
is_additive (inspects name r) = false
is_additive (erases name) = false
is_additive (forgets name) = false
is_additive (updates req) = false
is_additive (compares req r) = false
is_additive (stores req enable) = false
is_additive (rewrites req) = false
is_additive _ = true

abbrev pub rules_of : Manager → String → Option Rule
rules_of m k = Option.map rule_of (view m k)

-- A rule of the table is in memory, or one handler is about to put it there.
pub record IsAgreed (t : Tables) (m : Manager) (pool : List Progress) : Type 0 where
  pub linked : IsLinked m
  pub counted : IsCounted m
  pub unnamed : rules_of m "" ≡ none
  pub rules : (k : String) → as_list (durable t k) ≡ as_list (rules_of m k) ++ pending pool k

-- The pool around the handler that moves.
pub pending-split :
    (xs ys : List Progress) (p : Progress) (k : String)
    → pending (xs ++ p ∷ ys) k ≡ pending xs k ++ (own p k ++ pending ys k)
unfolding pending
pending-split xs ys p k = pending-append xs (p ∷ ys) k

-- A change of the manager that no rule shows.
pub record IsSame (m n : Manager) : Type 0 where
  pub linked : IsLinked m → IsLinked n
  pub counted : IsCounted m → IsCounted n
  pub rules : IsLinked m → (k : String) → rules_of n k ≡ rules_of m k

pub IsSame-refl : (m : Manager) → IsSame m m
IsSame-refl m = record { linked = λ v. v; counted = λ v. v; rules = λ v k. refl }

pub change-IsSame :
    (m : Manager) (k : String) (f : Mapping → Mapping)
    → ((x : Mapping) → (f x).name ≡ x.name)
    → ((x : Mapping) → rule_of (f x) ≡ rule_of x)
    → IsSame m (change m k f)
change-IsSame m k f keeps same = record {
  linked = change-IsLinked k f keeps;
  counted = change-IsCounted k f;
  rules = λ v j. elim (Option-cases (view m j)) [
    | inl e ↦ ground (arith, view-change k j f v, e)
    | inr (x, e) ↦ ground (arith, view-change k j f v, e, same x)
  ];
}

pub write-IsSame :
    (m : Manager) (r : Ref) (f : Mapping → Mapping)
    → ((x : Mapping) → (f x).name ≡ x.name)
    → ((x : Mapping) → rule_of (f x) ≡ rule_of x)
    → IsSame m (write m r f)
unfolding view
write-IsSame m r f keeps same = record {
  linked = write-IsLinked r f keeps;
  counted = λ v. unfold write in record { keyed = v.keyed; counted = v.counted };
  rules = λ v j. elim (Option-cases (lookup m.table j)) [
    | inl e ↦ unfold write in rw e refl
    | inr (q, e) ↦
        let (x, seen, _) = v.at j q e in
        unfold write in ground (arith, e, seen, get_elem?-modify f r q m.heap, same x)
  ];
}

pub quiet-IsAgreed :
    {t : Tables} {m n : Manager} (xs ys : List Progress) (p q : Progress)
    → IsSame m n
    → ((k : String) → own q k ≡ own p k)
    → IsAgreed t m (xs ++ p ∷ ys)
    → IsAgreed t n (xs ++ q ∷ ys)
quiet-IsAgreed xs ys p q same owns v = record {
  linked = same.linked v.linked;
  counted = same.counted v.counted;
  unnamed = same.rules v.linked "" ∙ v.unnamed;
  rules = λ k.
      v.rules k
      ∙ rw (pending-split xs ys p k, pending-split xs ys q k, owns k, same.rules v.linked k) refl;
}

abbrev rule_req : MappingRequest → Int64 → Rule
rule_req req limit = record { port = req.public_port; target = req.target_addr; limit = limit }

unlisted : (m : Manager) (k : String) → IsLinked m → rules_of m k ≡ none → lookup m.table k ≡ none
unfolding view
unlisted m k v h = elim (Option-cases (lookup m.table k)) [
  | inl e ↦ e
  | inr (r, e) ↦ let (x, seen, _) = v.at k r e in ground (arith, h, e, seen)
]

pub sets-IsAgreed :
    {t : Tables} (m : Manager) (xs ys : List Progress) (req : MappingRequest) (limit : Int64)
    (q : Progress)
    → str_eq req.name "" ≡ false
    → ((k : String) → own q k ≡ [])
    → IsAgreed t m (xs ++ sets req limit ∷ ys)
    → IsAgreed t
        (set_mapping m req.name req.public_port req.target_addr false 0 limit)
        (xs ++ q ∷ ys)
unfolding own
sets-IsAgreed {t} m xs ys req limit q named none_own v =
    let n = set_mapping m req.name req.public_port req.target_addr false 0 limit in
    let seen = λ (k : String).
      view-set_mapping req.name k req.public_port req.target_addr false 0 limit v.linked in
    let before = λ (k : String).
      v.rules k
      ∙ ap (λ zs. as_list (rules_of m k) ++ zs) (pending-split xs ys (sets req limit) k) in
    let here : (durable t req.name ≡ some (rule_req req limit))
        × (rules_of m req.name ≡ none)
        × (pending xs req.name ≡ [])
        × (pending ys req.name ≡ []) =
      sole (durable t req.name) (rules_of m req.name) (pending xs req.name) (pending ys req.name)
        (rule_req req limit) (ground (arith, before req.name, eq_iff req.name req.name)) in
    record {
      linked = set_mapping-IsLinked req.name req.public_port req.target_addr false 0 limit v.linked;
      counted =
          set_mapping-IsCounted req.name req.public_port req.target_addr false 0 limit
            (unlisted m req.name v.linked here.1) v.counted;
      unnamed = ground (arith, seen "", named, v.unnamed);
      rules = λ k. elim (Bool-cases (str_eq req.name k)) [
        | inl same ↦
            let e : req.name ≡ k = (eq_iff req.name k).0 same in
            rw (pending-split xs ys q k, none_own k, seen k, same, ← e, here.0, here.2, here.3) refl
        | inr other ↦
            rw (pending-split xs ys q k, none_own k, seen k, other) (before k ∙ rw other refl)
      ];
    }
