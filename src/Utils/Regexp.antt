-- ===== src/Utils/Regexp.antt =====
-- Regular expressions as Go's `regexp` reads them, matched against a whole text by derivatives.
use mathlib.Core.List.{cons-ne-nil}
use gotaxy.Prelude.{
  ℕ, zero, suc, ◌≡◌, ◌≢◌, refl, sym, ◌∙◌, ap, Bool, true, false, ◌&&◌, ◌||◌, ◌↔◌, ◌⊎◌, inl, inr,
  List, [], ◌∷◌, ◌++◌, arith, if◌then◌else◌, Bool-cases,
}

infixr 60 ◌·◌
infixr 55 ◌∣◌
pub data Regex : Type 0 where
  never : Regex
  empty : Regex
  char : (ℕ → Bool) → Regex
  ◌·◌ : Regex → Regex → Regex
  ◌∣◌ : Regex → Regex → Regex
  star : Regex → Regex

-- r?, r+ and r{n}
abbrev pub optional : Regex → Regex
optional r = r ∣ empty

abbrev pub plus : Regex → Regex
plus r = r · star r

abbrev pub times : ℕ → Regex → Regex
times zero r = empty
times (suc zero) r = r
times (suc (suc n)) r = r · times (suc n) r

-- r{0,n}
abbrev pub up_to : ℕ → Regex → Regex
up_to zero r = empty
up_to (suc n) r = optional r · up_to n r

-- whether the empty text matches
pub nullable : Regex → Bool
nullable never = false
nullable empty = true
nullable (char p) = false
nullable (r · q) = nullable r && nullable q
nullable (r ∣ q) = nullable r || nullable q
nullable (star r) = true

-- what may follow the character `c`
pub derivative : Regex → ℕ → Regex
derivative never c = never
derivative empty c = never
derivative (char p) c = if p c then empty else never
derivative (r · q) c =
    let left = derivative r c · q in
    let right = derivative q c in if nullable r then left ∣ right else left
derivative (r ∣ q) c = derivative r c ∣ derivative q c
derivative (star r) c = derivative r c · star r

unfoldable pub matches : Regex → List ℕ → Bool
unfolding derivative nullable
matches r [] = nullable r
matches r (c ∷ s) = matches (derivative r c) s

-- The texts of an expression, with no order of search in it.
pub data Matches : Regex → List ℕ → Type 0 where
  nothing : Matches empty []
  one : {p : ℕ → Bool} {c : ℕ} → p c ≡ true → Matches (char p) (c ∷ [])
  both :
      {r q : Regex} {u : List ℕ} (s t : List ℕ)
      → u ≡ s ++ t
      → Matches r s
      → Matches q t
      → Matches (r · q) u
  left : {r q : Regex} {s : List ℕ} → Matches r s → Matches (r ∣ q) s
  right : {r q : Regex} {s : List ℕ} → Matches q s → Matches (r ∣ q) s
  done : {r : Regex} → Matches (star r) []
  more :
      {r : Regex} {c : ℕ} {u : List ℕ} (s t : List ℕ)
      → u ≡ s ++ t
      → Matches r (c ∷ s)
      → Matches (star r) t
      → Matches (star r) (c ∷ u)

-- What a match of each form consists of.
abbrev pub Parts : Regex → List ℕ → Type 0
Parts never u = ⊥
Parts empty u = u ≡ []
Parts (char p) u = (c : ℕ) × (u ≡ c ∷ []) × (p c ≡ true)
Parts (r · q) u = (s : List ℕ) × (t : List ℕ) × (u ≡ s ++ t) × Matches r s × Matches q t
Parts (r ∣ q) u = Matches r u ⊎ Matches q u
Parts (star r) u =
    (u ≡ [])
    ⊎ ((s : List ℕ) × (t : List ℕ) × (u ≡ s ++ t) × (s ≢ []) × Matches r s × Matches (star r) t)

pub parts : {r : Regex} {u : List ℕ} → Matches r u → Parts r u
parts nothing = refl
parts (one {c} h) = (c, refl, h)
parts (both s t e m n) = (s, t, e, m, n)
parts (left m) = inl m
parts (right m) = inr m
parts done = inl refl
parts (more {c} s t e m n) = inr (c ∷ s, t, rw e, cons-ne-nil c s, m, n)

append-eq-nil : (s t : List ℕ) → s ++ t ≡ [] → (s ≡ []) × (t ≡ [])
append-eq-nil [] t e = (refl, e)
append-eq-nil (c ∷ s) t e = cc

nullable_sound : (r : Regex) → nullable r ≡ true → Matches r []
unfolding nullable
nullable_sound never h = cc
nullable_sound empty h = nothing
nullable_sound (char p) h = cc
nullable_sound (r · q) h =
    both [] [] refl (nullable_sound r (ground arith)) (nullable_sound q (ground arith))
nullable_sound (r ∣ q) h = elim (Bool-cases (nullable r)) [
  | inl e ↦ left (nullable_sound r e)
  | inr e ↦ right (nullable_sound q (ground arith))
]
nullable_sound (star r) h = done

nullable_complete : {r : Regex} {u : List ℕ} → Matches r u → u ≡ [] → nullable r ≡ true
unfolding nullable
nullable_complete nothing e = refl
nullable_complete (one h) e = cc
nullable_complete (both s t f m n) e =
    let (es, et) = append-eq-nil s t (sym f ∙ e) in
    rw (nullable_complete m es) (nullable_complete n et)
nullable_complete (left m) e = rw (nullable_complete m e)
nullable_complete (right m) e = ground (arith, nullable_complete m e)
nullable_complete done e = refl
nullable_complete (more s t f m n) e = cc

Matches-if :
    (b : Bool) (r q : Regex) (s : List ℕ)
    → Matches (if b then r else q) s
    → ((b ≡ true) × Matches r s) ⊎ ((b ≡ false) × Matches q s)
Matches-if true r q s m = inl (refl, m)
Matches-if false r q s m = inr (refl, m)

seq_left :
    {r q : Regex} {c : ℕ} {s : List ℕ}
    → ((u : List ℕ) → Matches (derivative r c) u → Matches r (c ∷ u))
    → Matches (derivative r c · q) s
    → Matches (r · q) (c ∷ s)
seq_left {c} sound m =
    let (u, v, e, n, k) = parts m in both (c ∷ u) v (ap (λ t. c ∷ t) e) (sound u n) k

seq_into :
    (r q : Regex) (c : ℕ) (s : List ℕ)
    → Matches (derivative r c · q) s
    → Matches (derivative (r · q) c) s
unfolding derivative
seq_into r q c s m = elim (Bool-cases (nullable r)) [ inl h ↦ rw h (left m) | inr h ↦ rw h m ]

derivative_sound : (r : Regex) (c : ℕ) (s : List ℕ) → Matches (derivative r c) s → Matches r (c ∷ s)
unfolding derivative
derivative_sound never c s m = absurd (parts m)
derivative_sound empty c s m = absurd (parts m)
derivative_sound (char p) c s m = elim (Matches-if (p c) empty never s m) [
  | inl (h, n) ↦ rw (parts n) (one h)
  | inr (_, n) ↦ absurd (parts n)
]
derivative_sound (r · q) c s m = elim (Matches-if (nullable r) _ _ s m) [
  | inl (h, n) ↦ elim (parts n) [
    | inl k ↦ seq_left (derivative_sound r c) k
    | inr k ↦ both [] (c ∷ s) refl (nullable_sound r h) (derivative_sound q c s k)
  ]
  | inr (_, n) ↦ seq_left (derivative_sound r c) n
]
derivative_sound (r ∣ q) c s m = elim (parts m) [
  | inl n ↦ left (derivative_sound r c s n)
  | inr n ↦ right (derivative_sound q c s n)
]
derivative_sound (star r) c s m =
    let (u, v, e, n, k) = parts m in more u v e (derivative_sound r c u n) k

derivative_complete :
    {r : Regex} {u : List ℕ} (c : ℕ) (s : List ℕ)
    → Matches r u
    → u ≡ c ∷ s
    → Matches (derivative r c) s
unfolding derivative
derivative_complete c s nothing e = cc
derivative_complete c s (one {c = d} h) e =
    let same : d ≡ c = cc in let rest : [] ≡ s = cc in rw (← same, ← rest, h) nothing
derivative_complete c s (both {r} [] t f m n) e = elim (Bool-cases (nullable r)) [
  | inl h ↦ rw h (right (derivative_complete c s n (sym f ∙ e)))
  | inr h ↦ absurd (let old : nullable r ≡ true = nullable_complete m refl in cc)
]
derivative_complete c s (both {r} {q} {u = w} (d ∷ u) t f m n) e =
    let whole : d ∷ (u ++ t) ≡ c ∷ s = sym f ∙ e in
    let same : d ≡ c = cc in
    let rest : s ≡ u ++ t = cc in
    seq_into r q c s (both u t rest (derivative_complete c u m (ap (λ x. x ∷ u) same)) n)
derivative_complete c s (left m) e = left (derivative_complete c s m e)
derivative_complete c s (right m) e = right (derivative_complete c s m e)
derivative_complete c s done e = cc
derivative_complete c s (more {c = d} {u = w} u t f m n) e =
    let same : d ≡ c = cc in
    let rest : s ≡ u ++ t = cc in both u t rest (derivative_complete c u m (ap (λ x. x ∷ u) same)) n

-- The derivatives decide the relation.
pub matches_iff : (r : Regex) (s : List ℕ) → (matches r s ≡ true) ↔ Matches r s
unfolding matches
matches_iff r [] = (nullable_sound r, λ m. nullable_complete m refl)
matches_iff r (c ∷ s) =
    let (sound, complete) = matches_iff (derivative r c) s in
    (λ h. derivative_sound r c s (sound h), λ m. complete (derivative_complete c s m refl))
