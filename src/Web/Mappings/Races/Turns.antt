-- ===== src/Web/Mappings/Races/Turns.antt =====
-- Four calls are enough for any handler, whatever the others do.
use gotaxy.Prelude.{
  ℕ, zero, suc, ◌≤◌, ◌<◌, ◌≡◌, ◌≢◌, ◌∙◌, refl, sym, ap, subst, Bool, true, false, some, List, [],
  ◌∷◌, map, arith, All, All-by_get_elem?, get_elem?, set, length, get_elem?-set_self,
  get_elem?-set_ne, lt_length_of_get_elem?, Option-cases, Bool-cases, inl, inr, ==_iff, ◌==◌,
  if◌then◌else◌,
}
use gotaxy.Storage.{Engine}
use gotaxy.Server.{GotaxyServer}
use gotaxy.Web.Mappings.Races.{
  Progress, toggles, enables, finds, closes, adds, inserts, deletes, erases, inspects, updates,
  compares, stores, answered, panicked, advance, turn, interleave, Request, toggle, add, update,
  delete, begins, inspect, compare,
}

-- The calls that are left, at most.
unfoldable pub left : Progress → ℕ
left (toggles req) = 4
left (deletes name) = 4
left (updates req) = 4
left (enables name) = 3
left (adds req) = 3
left (inspects name r) = 3
left (compares req r) = 3
left (finds name) = 2
left (closes name) = 2
left (inserts req limit) = 2
left (erases name) = 2
left (stores req enable) = 2
left (answered code) = 0
left panicked = 0
left _ = 1

unfoldable pub turns_of : ℕ → List ℕ → ℕ
turns_of i [] = 0
turns_of i (j ∷ schedule) = if i == j then suc (turns_of i schedule) else turns_of i schedule

module _ {Db : Type 0} (engine : Engine Db) where
  advance-left :
      (p : Progress) (s : GotaxyServer Db) (n : ℕ)
      → left p ≤ suc n
      → left (advance engine p s).1 ≤ n
  unfolding advance left inspect compare
  advance-left (toggles req) s n h = ground (arith, h)
  advance-left (deletes name) s n h = ground (arith, h)
  advance-left (updates req) s n h = ground (arith, h)
  advance-left (enables name) s n h = ground (arith, h)
  advance-left (adds req) s n h = ground (arith, h)
  advance-left (inspects name r) s n h = ground (arith, h)
  advance-left (compares req r) s n h = ground (arith, h)
  advance-left (finds name) s n h = ground (arith, h)
  advance-left (closes name) s n h = ground (arith, h)
  advance-left (inserts req limit) s n h = ground (arith, h)
  advance-left (erases name) s n h = ground (arith, h)
  advance-left (stores req enable) s n h = ground (arith, h)
  advance-left p s n h = ground (arith, h)

  -- Each handler has as many turns as it has calls left.
  abbrev IsDue : List ℕ → List Progress → Type 0
  IsDue schedule pool =
      (i : ℕ) (p : Progress) → get_elem? pool i ≡ some p → left p ≤ turns_of i schedule

  turn-IsDue :
      (j : ℕ) (schedule : List ℕ) (s : GotaxyServer Db) (pool : List Progress)
      → IsDue (j ∷ schedule) pool
      → IsDue schedule (turn engine j (s, pool)).1
  unfolding turn turns_of
  turn-IsDue j schedule s pool due i q at = elim (Option-cases (get_elem? pool j)) [
    | inl e ↦
        let kept : (turn engine j (s, pool)).1 ≡ pool = rw (e, turn) refl in
        let here : get_elem? pool i ≡ some q = ap (λ zs. get_elem? zs i) (sym kept) ∙ at in
        ground (arith, due i q here, here, e, ==_iff i j)
    | inr (p, e) ↦
        let next = (advance engine p s).1 in
        let moved : (turn engine j (s, pool)).1 ≡ set pool j next = rw (e, turn) refl in
        let here : get_elem? (set pool j next) i ≡ some q =
          ap (λ zs. get_elem? zs i) (sym moved) ∙ at in
        elim (Bool-cases (i == j)) [
          | inl same ↦
              let swap : i ≡ j = (==_iff i j).0 same in
              let found : next ≡ q = ground (
                arith,
                get_elem?-set_self pool j next (lt_length_of_get_elem? pool j p e),
                here,
                swap,
              ) in
              let budget : left p ≤ suc (turns_of i schedule) =
                ground (arith, due j p e, swap, same) in
              subst (λ x. left x ≤ turns_of i schedule) found
                (advance-left p s (turns_of i schedule) budget)
          | inr other ↦
              let apart : j ≢ i = λ same. ground (arith, other, ==_iff i j, same) in
              ground (arith, due i q (sym (get_elem?-set_ne pool next apart) ∙ here), other)
        ]
  ]

  interleave-IsDue :
      (schedule : List ℕ) (s : GotaxyServer Db) (pool : List Progress)
      → IsDue schedule pool
      → IsDue [] (interleave engine schedule (s, pool)).1
  unfolding interleave
  interleave-IsDue [] s pool due = due
  interleave-IsDue (j ∷ schedule) s pool due =
      interleave-IsDue schedule (turn engine j (s, pool)).0 (turn engine j (s, pool)).1
        (turn-IsDue j schedule s pool due)

-- Answered, or ended by a panic.
abbrev pub is_over : Progress → Bool
is_over (answered code) = true
is_over panicked = true
is_over _ = false

left-over : (p : Progress) → left p ≤ 0 → is_over p ≡ true
unfolding left
left-over (answered code) h = refl
left-over panicked h = refl
left-over p h = absurd (omega (arith, h))

-- Each of so many handlers has four turns.
abbrev pub IsFair : List Request → List ℕ → Type 0
IsFair requests schedule = (i : ℕ) → i < length requests → 4 ≤ turns_of i schedule

begins-left :
    (requests : List Request) (i : ℕ) (p : Progress)
    → get_elem? (map begins requests) i ≡ some p
    → (left p ≤ 4) × (i < length requests)
unfolding begins left
begins-left [] i p h = ground (arith, h)
begins-left (toggle req ∷ requests) zero p h = ground (arith, h)
begins-left (add req ∷ requests) zero p h = ground (arith, h)
begins-left (update req ∷ requests) zero p h = ground (arith, h)
begins-left (delete name ∷ requests) zero p h = ground (arith, h)
begins-left (q ∷ requests) (suc i) p h =
    let (few, inside) = begins-left requests i p h in (few, omega (arith, inside))

module _ {Db : Type 0} (engine : Engine Db) where
  -- Whatever the requests for rules are, however their calls are interleaved, and whatever the
  -- database does: a schedule that gives each handler four turns leaves none waiting.
  pub interleave-over :
      (requests : List Request) (schedule : List ℕ) (s : GotaxyServer Db)
      → IsFair requests schedule
      → All (λ p. is_over p ≡ true) (interleave engine schedule (s, map begins requests)).1
  unfolding turns_of
  interleave-over requests schedule s fair =
      let due = interleave-IsDue engine schedule s (map begins requests) λ i p at.
        let (few, inside) = begins-left requests i p at in omega (arith, few, fair i inside) in
      All-by_get_elem? (λ p. is_over p ≡ true) _ (λ i p at. left-over p (due i p at))
