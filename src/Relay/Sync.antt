-- ===== src/Relay/Sync.antt =====
-- The tunnel keeps port, target and limit of each rule the same in memory
-- and in the database.
use mathlib.Core.Option
use gotaxy.Prelude.{
  String, ◌≡◌, refl, sym, subst, ◌∙◌, arith, ◌==◌, Option-cases, Bool-cases, inl, inr,
}
use gotaxy.Prelude.Dict.{lookup}
use gotaxy.Session.{Mapping, Manager, Ref, read, write, set_session, remove_session}
use gotaxy.Session.View.{view, get_elem?-modify, write-IsLinked}
use gotaxy.Storage.Sql.{Tables}
use gotaxy.Control.Sync.{IsSynced, rule_of}
use gotaxy.Server.{GotaxyServer}
use gotaxy.Relay.{Step, relay}
use gotaxy.Relay.Inv.{IsRelayed, any_end, relay_inv}
use gotaxy.Relay.Frame.{relay-Untouched}

-- A write through any pointer, in the table or not, that keeps the rule.
rule_of-write :
    (m : Manager) (r : Ref) (f : Mapping → Mapping) (k : String)
    → ((x : Mapping) → rule_of (f x) ≡ rule_of x)
    → Option.map rule_of (view (write m r f) k) ≡ Option.map rule_of (view m k)
unfolding view write
rule_of-write m r f k same = elim (Option-cases (lookup m.table k)) [
  | inl e ↦ rw e
  | inr (q, e) ↦ rw e (
      rw get_elem?-modify (elim (Bool-cases (r == q)) [
        | inl here ↦ elim (Option-cases (read m q)) [
          | inl g ↦ rw (here, g)
          | inr (x, g) ↦ rw (here, g) (ground (arith, same x))
        ]
        | inr there ↦ rw there
      ]))
]

write-IsSynced :
    {t : Tables} (m : Manager) (r : Ref) (f : Mapping → Mapping)
    → ((x : Mapping) → (f x).name ≡ x.name)
    → ((x : Mapping) → rule_of (f x) ≡ rule_of x)
    → IsSynced m t
    → IsSynced (write m r f) t
write-IsSynced m r f keeps same v = record {
  linked = write-IsLinked r f keeps v.linked;
  unnamed = ground (arith, rule_of-write m r f "" same, v.unnamed);
  rules = λ k. rule_of-write m r f k same ∙ v.rules k;
}

IsSynced-IsRelayed : (t : Tables) → IsRelayed (λ m. IsSynced m t) (λ _. Unit)
unfolding set_session remove_session view
IsSynced-IsRelayed t = record {
  opened = λ m r ctx c v. write-IsSynced m r _ (λ x. refl) (λ x. refl) v;
  joined = λ m id session v. record {
    linked = record { at = v.linked.at };
    unnamed = v.unnamed;
    rules = v.rules;
  };
  left = λ m id v. record {
    linked = record { at = v.linked.at };
    unnamed = v.unnamed;
    rules = v.rules;
  };
  active = λ m r v. write-IsSynced m r _ (λ x. refl) (λ x. refl) v;
  inactive = λ m r _ v. write-IsSynced m r _ (λ x. refl) (λ x. refl) v;
}

pub relay-IsSynced :
    {Db : Type 0} (tables : Db → Tables) (step : Step) (s : GotaxyServer Db)
    → IsSynced s.sessions (tables s.db)
    → IsSynced (relay step s).sessions (tables (relay step s).db)
relay-IsSynced tables step s v =
    let kept = relay_inv _ _ (IsSynced-IsRelayed (tables s.db)) step s (any_end step) v in
    subst (λ d. IsSynced (relay step s).sessions (tables d)) (sym (relay-Untouched step s).1) kept
