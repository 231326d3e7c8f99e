-- ===== src/Web/Mappings/Races/Panics.antt =====
-- As long as no rule is deleted, no handler follows a nil pointer, in any order of their calls.
use gotaxy.Prelude.{
  All-set, All-get_elem?, All-weaken, ℕ, zero, suc, String, ◌≡◌, ◌≢◌, refl, subst, map, Bool, true,
  false, Option, none, some, List, [], ◌∷◌, ◌++◌, arith, All, get_elem?, length, Option-cases, inl,
  inr,
}
use gotaxy.Prelude.Dict.{lookup, lookup-insert}
use gotaxy.Int64.{Int64}
use gotaxy.Session.{
  Mapping, Manager, Ref, read, write, change, get_mapping, set_mapping, update_enable,
  update_mapping, with_enable, has,
}
use gotaxy.Session.View.{IsLinked, get_elem?-modify, write-IsLinked, set_mapping-IsLinked}
use gotaxy.Storage.{Engine}
use gotaxy.Server.{GotaxyServer}
use gotaxy.Control.{start_listener}
use gotaxy.Control.Pointers.{found-cases}
use gotaxy.Web.Mappings.{MappingRequest}
use gotaxy.Web.Mappings.Races.{
  Progress, toggles, marks, enables, finds, closes, disables, derives, adds, inserts, sets, deletes,
  erases, forgets, inspects, updates, compares, stores, rewrites, answered, panicked, advance, turn,
  interleave, compare, Request, toggle, add, update, delete, begins,
}

abbrev pub is_deletion : Request → Bool
is_deletion (delete name) = true
is_deletion _ = false

-- No name and no mapping is lost, and no pointer comes to dangle.
record Grows (m n : Manager) : Type 0 where
  pub names : (k : String) → get_mapping m k ≢ none → get_mapping n k ≢ none
  pub pointers : (r : Ref) → read m r ≢ none → read n r ≢ none
  pub linked : IsLinked m → IsLinked n

same-Grows : (m : Manager) → Grows m m
same-Grows m = record { names = λ k h. h; pointers = λ r h. h; linked = λ v. v }

write-Grows :
    (m : Manager) (r : Ref) (f : Mapping → Mapping)
    → ((x : Mapping) → (f x).name ≡ x.name)
    → Grows m (write m r f)
unfolding write get_mapping
write-Grows m r f keeps = record {
  names = λ k h. h;
  pointers = λ q h. λ e. h (ground (arith, get_elem?-modify f r q m.heap, e));
  linked = write-IsLinked r f keeps;
}

change-Grows :
    (m : Manager) (k : String) (f : Mapping → Mapping)
    → ((x : Mapping) → (f x).name ≡ x.name)
    → Grows m (change m k f)
unfolding change
change-Grows m k f keeps = elim (Option-cases (lookup m.table k)) [
  | inl e ↦ rw (e, change) (same-Grows m)
  | inr (r, e) ↦ rw (e, change) (write-Grows m r f keeps)
]

append_kept : (xs ys : List Mapping) (i : ℕ) → get_elem? (xs ++ ys) i ≡ none → get_elem? xs i ≡ none
append_kept [] ys i h = refl
append_kept (x ∷ xs) ys zero h = ground (arith, h)
append_kept (x ∷ xs) ys (suc i) h = append_kept xs ys i h

set_mapping-Grows :
    (m : Manager) (k port target : String) (enable : Bool) (traffic limit : Int64)
    → Grows m (set_mapping m k port target enable traffic limit)
unfolding set_mapping get_mapping
set_mapping-Grows m k port target enable traffic limit = record {
  names = λ j h. λ e. h (ground (arith, lookup-insert m.table k j (length m.heap), e));
  pointers = λ r h. λ e. h (append_kept m.heap _ r e);
  linked = set_mapping-IsLinked k port target enable traffic limit;
}

-- Neither deleting nor panicked, and about to follow only pointers that are not nil.
unfoldable is_safe : Manager → Progress → Bool
unfolding has
is_safe m (finds name) = has m name
is_safe m (compares req r) = elim (read m r) [ none ↦ false | some x ↦ true ]
is_safe m (deletes name) = false
is_safe m (inspects name r) = false
is_safe m (erases name) = false
is_safe m panicked = false
is_safe m _ = true

abbrev IsSafe : Manager → Progress → Type 0
IsSafe m p = is_safe m p ≡ true

IsSafe-Grows : {m n : Manager} (p : Progress) → Grows m n → IsSafe m p → IsSafe n p
unfolding is_safe has get_mapping
IsSafe-Grows {m} {n} (finds name) g h = ground (arith, h, g.names name)
IsSafe-Grows (compares req r) g h = ground (arith, h, g.pointers r)
IsSafe-Grows (deletes name) g h = h
IsSafe-Grows (inspects name r) g h = h
IsSafe-Grows (erases name) g h = h
IsSafe-Grows panicked g h = h
IsSafe-Grows (toggles req) g h = refl
IsSafe-Grows (marks name) g h = refl
IsSafe-Grows (enables name) g h = refl
IsSafe-Grows (closes name) g h = refl
IsSafe-Grows (disables name) g h = refl
IsSafe-Grows (derives r) g h = refl
IsSafe-Grows (adds req) g h = refl
IsSafe-Grows (inserts req limit) g h = refl
IsSafe-Grows (sets req limit) g h = refl
IsSafe-Grows (forgets name) g h = refl
IsSafe-Grows (updates req) g h = refl
IsSafe-Grows (stores req enable) g h = refl
IsSafe-Grows (rewrites req) g h = refl
IsSafe-Grows (answered code) g h = refl

compare-IsSafe :
    (m : Manager) (req : MappingRequest) (o : Option Mapping) → o ≢ none → IsSafe m (compare req o)
unfolding compare is_safe
compare-IsSafe m req none h = absurd (h refl)
compare-IsSafe m req (some x) h = ground arith

module _ {Db : Type 0} (engine : Engine Db) where
  -- What a call leaves of the manager, and where the handler stands then.
  abbrev IsKept : GotaxyServer Db → GotaxyServer Db × Progress → Type 0
  IsKept s (s', p) = Grows s.sessions s'.sessions × IsSafe s'.sessions p

  advance-IsKept :
      (p : Progress) (s : GotaxyServer Db)
      → IsLinked s.sessions
      → IsSafe s.sessions p
      → IsKept s (advance engine p s)
  unfolding advance update_enable update_mapping start_listener is_safe has get_mapping
  advance-IsKept (toggles req) s v h = (same-Grows s.sessions, ground arith)
  advance-IsKept (marks name) s v h = (change-Grows s.sessions name _ (λ x. refl), refl)
  advance-IsKept (enables name) s v h =
      let g = change-Grows s.sessions name (with_enable true) (λ x. refl) in
      (g, ground (arith, g.names name))
  advance-IsKept (finds name) s v h = (same-Grows s.sessions, ground (arith, h))
  advance-IsKept (derives r) s v h = (write-Grows s.sessions r _ (λ x. refl), refl)
  advance-IsKept (closes name) s v h = (same-Grows s.sessions, ground arith)
  advance-IsKept (disables name) s v h = (change-Grows s.sessions name _ (λ x. refl), refl)
  advance-IsKept (adds req) s v h = (same-Grows s.sessions, ground arith)
  advance-IsKept (inserts req limit) s v h = (same-Grows s.sessions, ground arith)
  advance-IsKept (sets req limit) s v h =
      (set_mapping-Grows s.sessions req.name req.public_port req.target_addr false 0 limit, refl)
  advance-IsKept (deletes name) s v h = ground arith
  advance-IsKept (inspects name r) s v h = ground arith
  advance-IsKept (erases name) s v h = ground arith
  advance-IsKept panicked s v h = ground arith
  advance-IsKept (forgets name) s v h = (same-Grows s.sessions, refl)
  advance-IsKept (updates req) s v h = (
    same-Grows s.sessions,
    elim (found-cases s.sessions req.name v) [
      | inl e ↦ ground (arith, e)
      | inr (r, x, e, seen) ↦ ground (arith, e, seen)
    ],
  )
  advance-IsKept (compares req r) s v h = (
    same-Grows s.sessions,
    compare-IsSafe s.sessions req (read s.sessions r) (λ e. ground (arith, h, e)),
  )
  advance-IsKept (stores req enable) s v h = (same-Grows s.sessions, ground arith)
  advance-IsKept (rewrites req) s v h = (change-Grows s.sessions req.name _ (λ x. refl), refl)
  advance-IsKept (answered code) s v h = (same-Grows s.sessions, refl)

module _ {Db : Type 0} (engine : Engine Db) where
  abbrev IsSteady : GotaxyServer Db × List Progress → Type 0
  IsSteady (s, pool) = IsLinked s.sessions × All (IsSafe s.sessions) pool

  turn-IsSteady :
      (i : ℕ) (s : GotaxyServer Db) (pool : List Progress)
      → IsSteady (s, pool)
      → IsSteady (turn engine i (s, pool))
  unfolding turn
  turn-IsSteady i s pool (v, hs) = elim (Option-cases (get_elem? pool i)) [
    | inl e ↦ rw (e, turn) (v, hs)
    | inr (p, e) ↦
        let safe = All-get_elem? (IsSafe s.sessions) pool i p hs e in
        let (g, next) = advance-IsKept engine p s v safe in
        rw (e, turn)
          (
            g.linked v,
            All-set (IsSafe (advance engine p s).0.sessions) pool i (advance engine p s).1 next (
                All-weaken (IsSafe s.sessions) (IsSafe (advance engine p s).0.sessions) pool
                  (λ q. IsSafe-Grows q g) hs),
          )
  ]

  interleave-IsSteady :
      (schedule : List ℕ) (s : GotaxyServer Db) (pool : List Progress)
      → IsSteady (s, pool)
      → IsSteady (interleave engine schedule (s, pool))
  unfolding interleave
  interleave-IsSteady [] s pool v = v
  interleave-IsSteady (i ∷ schedule) s pool v =
      interleave-IsSteady schedule (turn engine i (s, pool)).0 (turn engine i (s, pool)).1
        (turn-IsSteady i s pool v)

begins-IsSafe :
    (m : Manager) (requests : List Request)
    → All (λ q. is_deletion q ≡ false) requests
    → All (IsSafe m) (map begins requests)
unfolding begins is_safe
begins-IsSafe m [] hs = tt
begins-IsSafe m (toggle req ∷ requests) (h, hs) = (refl, begins-IsSafe m requests hs)
begins-IsSafe m (add req ∷ requests) (h, hs) = (refl, begins-IsSafe m requests hs)
begins-IsSafe m (update req ∷ requests) (h, hs) = (refl, begins-IsSafe m requests hs)
begins-IsSafe m (delete name ∷ requests) (h, hs) = ground (arith, h)

IsSafe-panicked : (m : Manager) (p : Progress) → IsSafe m p → p ≢ panicked
unfolding is_safe
IsSafe-panicked m p h e = let bad : is_safe m panicked ≡ true = subst (IsSafe m) e h in ground arith

module _ {Db : Type 0} (engine : Engine Db) where
  -- However the calls of any requests to add, update and switch rules are interleaved, in a server whose
  -- table has no dangling pointer: none of the handlers follows a nil pointer, and no pointer of the
  -- table comes to dangle.
  pub interleave-IsLinked :
      (requests : List Request) (schedule : List ℕ) (s : GotaxyServer Db)
      → All (λ q. is_deletion q ≡ false) requests
      → IsLinked s.sessions
      → let (s', pool) = interleave engine schedule (s, map begins requests) in
        IsLinked s'.sessions × All (λ p. p ≢ panicked) pool
  interleave-IsLinked requests schedule s none_deletes v =
      let (linked, safe) =
        interleave-IsSteady engine schedule s (map begins requests)
          (v, begins-IsSafe s.sessions requests none_deletes) in
      (linked, All-weaken (IsSafe _) (λ p. p ≢ panicked) _ (λ p h. IsSafe-panicked _ p h) safe)
