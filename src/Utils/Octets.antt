-- ===== src/Utils/Octets.antt =====
-- The texts of the expression for one number of an IP address.
use mathlib.Core.List.{cons-ne-nil}
use gotaxy.Prelude.{
  ℕ, zero, suc, ◌+◌, ◌-◌, ◌*◌, ◌≤◌, ◌≡◌, refl, Bool, true, ◌↔◌, ◌⊎◌, inl, inr, List, [], ◌∷◌, subst,
  sym, arith, leb, Bool-cases, All, length,
}
use gotaxy.Utils.Regexp.{
  Regex, char, ◌·◌, optional, up_to, Matches, nothing, one, both, left, right, parts,
}
use gotaxy.Utils.{digit, octet, between}

abbrev pub IsDigit : ℕ → Type 0
IsDigit c = (b'0' ≤ c) × (c ≤ b'9')

-- the number that digits spell behind `n`
abbrev pub value : ℕ → List ℕ → ℕ
value n [] = n
value n (c ∷ s) = value (n * 10 + (c - b'0')) s

-- One to three digits that spell a number up to 255; leading zeros are allowed.
abbrev pub IsOctet : List ℕ → Type 0
IsOctet s = All IsDigit s × (1 ≤ length s) × (length s ≤ 3) × (value 0 s ≤ 255)

abbrev Head : (ℕ → Bool) → Regex → List ℕ → Type 0
Head p q u = (c : ℕ) × (t : List ℕ) × (u ≡ c ∷ t) × (p c ≡ true) × Matches q t

pub char-Head : {p : ℕ → Bool} {q : Regex} {u : List ℕ} → Matches (char p · q) u → Head p q u
char-Head m = let (s, t, e, n, k) = parts m in let (c, f, h) = parts n in (c, t, rw (e, f), h, k)

pub optional-Head :
    {p : ℕ → Bool} {q : Regex} {u : List ℕ}
    → Matches (optional (char p) · q) u
    → Matches q u ⊎ Head p q u
optional-Head m =
    let (s, t, e, n, k) = parts m in
    elim (parts n) [
      | inl o ↦ let (c, f, h) = parts o in inr (c, t, rw (e, f), h, k)
      | inr o ↦ inl (rw (e, parts o) k)
    ]

pub char-cons :
    {p : ℕ → Bool} {q : Regex} (c : ℕ) {t : List ℕ}
    → p c ≡ true
    → Matches q t
    → Matches (char p · q) (c ∷ t)
char-cons c {t} h m = both (c ∷ []) t refl (one h) m

pub optional-cons :
    {p : ℕ → Bool} {q : Regex} (c : ℕ) {t : List ℕ}
    → p c ≡ true
    → Matches q t
    → Matches (optional (char p) · q) (c ∷ t)
optional-cons c {t} h m = both (c ∷ []) t refl (left (one h)) m

pub optional-skip :
    {p : ℕ → Bool} {q : Regex} {t : List ℕ} → Matches q t → Matches (optional (char p) · q) t
optional-skip {t} m = both [] t refl (right nothing) m

module _ (u : List ℕ) where
  from_250 :
      Matches (char (between b'2' b'2') · char (between b'5' b'5') · char (between b'0' b'5')) u
      → IsOctet u
  from_250 m =
      let (a, t, e, ha, m1) = char-Head m in
      let (b, t', e', hb, m2) = char-Head m1 in
      let (c, e'', hc) = parts m2 in rw (e, e', e'') (ground arith)

  from_200 : Matches (char (between b'2' b'2') · char (between b'0' b'4') · digit) u → IsOctet u
  from_200 m =
      let (a, t, e, ha, m1) = char-Head m in
      let (b, t', e', hb, m2) = char-Head m1 in
      let (c, e'', hc) = parts m2 in rw (e, e', e'') (ground arith)

  below_200 : Matches (optional (char (between b'0' b'1')) · digit · optional digit) u → IsOctet u
  below_200 m = elim (optional-Head m) [
    | inl n ↦
        let (b, t, e, hb, k) = char-Head n in
        elim (parts k) [
          | inl o ↦ let (c, f, hc) = parts o in rw (e, f) (ground arith)
          | inr o ↦ rw (e, parts o) (ground arith)
        ]
    | inr (a, t, e, ha, n) ↦
        let (b, t', e', hb, k) = char-Head n in
        elim (parts k) [
          | inl o ↦ let (c, f, hc) = parts o in rw (e, e', f) (ground arith)
          | inr o ↦ rw (e, e', parts o) (ground arith)
        ]
  ]

octet_sound : (u : List ℕ) → Matches octet u → IsOctet u
unfolding octet
octet_sound u m = elim (parts m) [
  | inl n ↦ from_250 u n
  | inr n ↦ elim (parts n) [ inl k ↦ from_200 u k | inr k ↦ below_200 u k ]
]

octet_complete : (u : List ℕ) → IsOctet u → Matches octet u
unfolding octet
octet_complete [] h = absurd (omega arith)
octet_complete (a ∷ []) h =
    right (right (optional-skip (char-cons a (ground arith) (right nothing))))
octet_complete (a ∷ b ∷ []) h =
    right (right (optional-skip (char-cons a (ground arith) (left (one (ground arith))))))
octet_complete (a ∷ b ∷ c ∷ []) h = elim (Bool-cases (leb a b'1')) [
  | inl small ↦ right (
      right
        (optional-cons a (ground arith) (char-cons b (ground arith) (left (one (ground arith))))))
  | inr large ↦ elim (Bool-cases (leb b b'4')) [
    | inl low ↦
        right (left (char-cons a (ground arith) (char-cons b (ground arith) (one (ground arith)))))
    | inr high ↦ left (char-cons a (ground arith) (char-cons b (ground arith) (one (ground arith))))
  ]
]
octet_complete (a ∷ b ∷ c ∷ d ∷ u) h = absurd (omega arith)

-- The expression for a number of an address is met exactly by the octets.
pub octet_iff : (u : List ℕ) → Matches octet u ↔ IsOctet u
octet_iff u = (octet_sound u, octet_complete u)

-- [0-9]{0,n}
pub up_to-digit_iff :
    (n : ℕ) (u : List ℕ) → Matches (up_to n digit) u ↔ (All IsDigit u × (length u ≤ n))
up_to-digit_iff zero [] = (λ m. (tt, omega arith), λ h. nothing)
up_to-digit_iff zero (c ∷ u) = (λ m. absurd (cons-ne-nil c u (parts m)), λ h. absurd (omega arith))
up_to-digit_iff (suc n) [] =
    (λ m. (tt, omega arith), λ h. optional-skip ((up_to-digit_iff n []).1 (tt, omega arith)))
up_to-digit_iff (suc n) (c ∷ u) = (
  λ m. elim (optional-Head m) [
    | inl k ↦ let (d, l) = (up_to-digit_iff n (c ∷ u)).0 k in (d, omega arith)
    | inr (d, t, e, hd, k) ↦
        let (ds, l) = (up_to-digit_iff n t).0 k in
        subst (λ x. All IsDigit x × (length x ≤ suc n)) (sym e) ((ground arith, ds), omega arith)
  ],
  λ h. optional-cons c (ground arith) ((up_to-digit_iff n u).1 (h.0.1, omega arith)),
)
