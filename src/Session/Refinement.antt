-- ===== src/Session/Refinement.antt =====
-- The manager's contract for mappings: a map from names to mappings, with no pointers in it.
use mathlib.Core.Option
use mathlib.Core.Path.{fun_ext}
use gotaxy.Prelude.{
  String, ◌≡◌, ◌∙◌, refl, ap, Bool, Option, none, some, List, [], ◌∷◌, str_eq, if◌then◌else◌,
}
use gotaxy.Int64.{Int64}
use gotaxy.Session.{
  Mapping, Manager, new_mapping, with_enable, with_status, with_rate_limit, with_rule,
  with_more_traffic, set_mapping, delete_mapping, update_enable, update_status, update_rate_limit,
  update_mapping, add_traffic,
}
use gotaxy.Session.View.{
  view, IsLinked, view-set_mapping, view-delete_mapping, view-change, set_mapping-IsLinked,
  delete_mapping-IsLinked, change-IsLinked,
}

-- A call of the manager that changes mappings.
pub data Call : Type 0 where
  sets : String → String → String → Bool → Int64 → Int64 → Call
  deletes : String → Call
  enables : String → Bool → Call
  marks : String → String → Call
  limits : String → Int64 → Call
  rewrites : String → String → String → Int64 → Call
  adds : String → Int64 → Call

unfoldable pub call : Manager → Call → Manager
call m (sets k port target enable traffic limit) = set_mapping m k port target enable traffic limit
call m (deletes k) = delete_mapping m k
call m (enables k enable) = (update_enable m k enable).0
call m (marks k status) = (update_status m k status).0
call m (limits k limit) = update_rate_limit m k limit
call m (rewrites k port add limit) = update_mapping m k port add limit
call m (adds k traffic) = add_traffic m k traffic

unfoldable pub calls : Manager → List Call → Manager
unfolding call
calls m [] = m
calls m (c ∷ cs) = calls (call m c) cs

abbrev pub Rules : Type 0
Rules = String → Option Mapping

abbrev alter : Rules → String → (Mapping → Mapping) → Rules
alter rules k f j = if str_eq k j then Option.map f (rules j) else rules j

-- What each call means for the map.
unfoldable pub meaning : Rules → Call → Rules
meaning rules (sets k port target enable traffic limit) j =
    if str_eq k j then some (new_mapping k port target enable traffic limit) else rules j
meaning rules (deletes k) j = if str_eq k j then none else rules j
meaning rules (enables k enable) j = alter rules k (with_enable enable) j
meaning rules (marks k status) j = alter rules k (with_status status) j
meaning rules (limits k limit) j = alter rules k (with_rate_limit limit) j
meaning rules (rewrites k port add limit) j = alter rules k (with_rule port add limit) j
meaning rules (adds k traffic) j = alter rules k (with_more_traffic traffic) j

unfoldable pub meanings : Rules → List Call → Rules
unfolding meaning
meanings rules [] = rules
meanings rules (c ∷ cs) = meanings (meaning rules c) cs

pub call-IsLinked : {m : Manager} (c : Call) → IsLinked m → IsLinked (call m c)
unfolding call update_enable update_status update_rate_limit update_mapping add_traffic
call-IsLinked (sets k port target enable traffic limit) v =
    set_mapping-IsLinked k port target enable traffic limit v
call-IsLinked (deletes k) v = delete_mapping-IsLinked k v
call-IsLinked (enables k enable) v = change-IsLinked k (with_enable enable) (λ x. refl) v
call-IsLinked (marks k status) v = change-IsLinked k (with_status status) (λ x. refl) v
call-IsLinked (limits k limit) v = change-IsLinked k (with_rate_limit limit) (λ x. refl) v
call-IsLinked (rewrites k port add limit) v =
    change-IsLinked k (with_rule port add limit) (λ x. refl) v
call-IsLinked (adds k traffic) v = change-IsLinked k (with_more_traffic traffic) (λ x. refl) v

call-meaning :
    {m : Manager} (c : Call) (j : String) → IsLinked m → view (call m c) j ≡ meaning (view m) c j
unfolding call meaning update_enable update_status update_rate_limit update_mapping add_traffic
call-meaning (sets k port target enable traffic limit) j v =
    view-set_mapping k j port target enable traffic limit v
call-meaning {m} (deletes k) j v = view-delete_mapping m k j
call-meaning (enables k enable) j v = view-change k j (with_enable enable) v
call-meaning (marks k status) j v = view-change k j (with_status status) v
call-meaning (limits k limit) j v = view-change k j (with_rate_limit limit) v
call-meaning (rewrites k port add limit) j v = view-change k j (with_rule port add limit) v
call-meaning (adds k traffic) j v = view-change k j (with_more_traffic traffic) v

calls-meanings_from :
    {m : Manager} (cs : List Call) → IsLinked m → view (calls m cs) ≡ meanings (view m) cs
unfolding calls meanings
calls-meanings_from {m} [] v = refl
calls-meanings_from {m} (c ∷ cs) v =
    calls-meanings_from {m = call m c} cs (call-IsLinked c v)
    ∙ ap (λ rules. meanings rules cs) (fun_ext (λ j. call-meaning c j v))

-- After any calls on a manager whose table is linked, each name has the mapping that the calls mean
-- for it: none was lost, and no call reached the mapping of another name.
pub calls-meanings :
    {m : Manager} (cs : List Call) (k : String)
    → IsLinked m
    → view (calls m cs) k ≡ meanings (view m) cs k
calls-meanings cs k v = ap (λ (rules : Rules). rules k) (calls-meanings_from cs v)

-- If each pointer of the table leads to a mapping of its own name, so does each after any calls.
pub calls-IsLinked : {m : Manager} (cs : List Call) → IsLinked m → IsLinked (calls m cs)
unfolding calls
calls-IsLinked {m} [] v = v
calls-IsLinked {m} (c ∷ cs) v = calls-IsLinked {m = call m c} cs (call-IsLinked c v)
