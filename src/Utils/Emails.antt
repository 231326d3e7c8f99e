-- ===== src/Utils/Emails.antt =====
-- What the validator of e-mail addresses accepts.
use mathlib.Core.List.{cons-ne-nil}
use gotaxy.Prelude.{
  ℕ, zero, suc, ◌≤◌, ◌≡◌, ◌≢◌, ◌∙◌, refl, Bool, true, ◌↔◌, inl, inr, List, [], ◌∷◌, ◌++◌, ap, arith,
  All, length, String, codes, if_true,
}
use gotaxy.Utils.Regexp.{char, star, plus, Matches, one, both, done, more, parts, matches_iff}
use gotaxy.Utils.Octets.{char-Head, char-cons}
use gotaxy.Utils.{is_letter, is_domain_char, is_local_char, email_pattern, is_validate_email}

abbrev AllOf : (ℕ → Bool) → List ℕ → Type 0
AllOf p = All (λ c. p c ≡ true)

-- A local part, `@`, a domain, a dot, and two letters or more.
abbrev pub IsEmail : List ℕ → Type 0
IsEmail u =
    (l : List ℕ) × (d : List ℕ) × (t : List ℕ) × (u ≡ l ++ b'@' ∷ (d ++ b'.' ∷ t))
    × (l ≢ [])
    × AllOf is_local_char l
    × (d ≢ [])
    × AllOf is_domain_char d
    × (2 ≤ length t)
    × AllOf is_letter t

star_sound :
    (p : ℕ → Bool) (n : ℕ) (u : List ℕ) → length u ≤ n → Matches (star (char p)) u → AllOf p u
star_sound p n [] h m = tt
star_sound p zero (c ∷ u) h m = absurd (omega arith)
star_sound p (suc n) (c ∷ u) h m = elim (parts m) [
  | inl e ↦ absurd (cons-ne-nil c u e)
  | inr (s, t, e, _, k, r) ↦
      let (d, f, hd) = parts k in
      let whole : c ∷ u ≡ d ∷ t = e ∙ ap (λ x. x ++ t) f in
      let same : d ≡ c = cc in
      let rest : t ≡ u = cc in (rw (← same) hd, star_sound p n u (omega arith) (rw (← rest) r))
]

star_complete : (p : ℕ → Bool) (u : List ℕ) → AllOf p u → Matches (star (char p)) u
star_complete p [] h = done
star_complete p (c ∷ u) h = more [] u refl (one h.0) (star_complete p u h.1)

plus_sound : (p : ℕ → Bool) (u : List ℕ) → Matches (plus (char p)) u → (u ≢ []) × AllOf p u
plus_sound p u m =
    let (c, t, e, h, k) = char-Head m in
    rw e (cons-ne-nil c t, (h, star_sound p (length t) t (omega arith) k))

plus_complete : (p : ℕ → Bool) (u : List ℕ) → u ≢ [] → AllOf p u → Matches (plus (char p)) u
plus_complete p [] n h = absurd (n refl)
plus_complete p (c ∷ u) n h = char-cons c h.0 (star_complete p u h.1)

spell :
    (l d u u1 u2 u3 u4 u5 u6 : List ℕ) (c c' x y : ℕ)
    → u ≡ l ++ u1
    → u1 ≡ c ∷ u2
    → u2 ≡ d ++ u3
    → u3 ≡ c' ∷ u4
    → u4 ≡ x ∷ u5
    → u5 ≡ y ∷ u6
    → c ≡ b'@'
    → c' ≡ b'.'
    → u ≡ l ++ b'@' ∷ (d ++ b'.' ∷ x ∷ y ∷ u6)
spell l d u u1 u2 u3 u4 u5 u6 c c' x y e1 e2 e3 e4 e5 e6 h h' = cc

IsEmail-sound : (u : List ℕ) → Matches email_pattern u → IsEmail u
unfolding email_pattern
IsEmail-sound u m =
    let (l, u1, e1, ml, m1) = parts m in
    let (c, u2, e2, hc, m2) = char-Head m1 in
    let (d, u3, e3, md, m3) = parts m2 in
    let (c', u4, e4, hc', m4) = char-Head m3 in
    let (x, u5, e5, hx, m5) = char-Head m4 in
    let (y, u6, e6, hy, m6) = char-Head m5 in
    let (nl, al) = plus_sound is_local_char l ml in
    let (nd, ad) = plus_sound is_domain_char d md in
    let at_sign : c ≡ b'@' = ground arith in
    let dot : c' ≡ b'.' = ground arith in
    (
      l,
      d,
      x ∷ y ∷ u6,
      spell l d u u1 u2 u3 u4 u5 u6 c c' x y e1 e2 e3 e4 e5 e6 at_sign dot,
      nl,
      al,
      nd,
      ad,
      omega arith,
      (hx, (hy, star_sound is_letter (length u6) u6 (omega arith) m6)),
    )

IsEmail-complete : (u : List ℕ) → IsEmail u → Matches email_pattern u
unfolding email_pattern
IsEmail-complete u (l, d, [], e, nl, al, nd, ad, two, at') = absurd (omega arith)
IsEmail-complete u (l, d, x ∷ [], e, nl, al, nd, ad, two, at') = absurd (omega arith)
IsEmail-complete u (l, d, x ∷ y ∷ t, e, nl, al, nd, ad, two, at') =
    both l (b'@' ∷ (d ++ b'.' ∷ x ∷ y ∷ t)) e (plus_complete is_local_char l nl al) (
      char-cons b'@' refl (
        both d (b'.' ∷ x ∷ y ∷ t) refl (plus_complete is_domain_char d nd ad) (
          char-cons b'.' refl
            (char-cons x at'.0 (char-cons y at'.1.0 (star_complete is_letter t at'.1.1))))))

-- `IsValidateEmail` accepts exactly a local part and a domain, neither empty and each of its own
-- characters, with `@` between them, a dot, and two or more letters.
pub is_validate_email_iff :
    (email : String) → (is_validate_email email ≡ true) ↔ IsEmail (codes email)
unfolding is_validate_email
is_validate_email_iff email =
    let (sound, complete) = matches_iff email_pattern (codes email) in
    rw if_true (λ h. IsEmail-sound _ (sound h), λ h. complete (IsEmail-complete _ h))
