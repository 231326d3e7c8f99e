-- ===== src/Wire/Plain.antt =====
-- Visible ASCII: its UTF-8 is itself, and there is nothing to trim but the spaces around it.
use mathlib.Core.List.{reverse, reverse-cons, reverse-append, reverse-reverse}
use gotaxy.Prelude.{
  ℕ, ◌<◌, ◌≡◌, refl, sym, ap, subst, ◌∙◌, true, List, [], ◌∷◌, ◌++◌, arith, All, All-append,
}
use gotaxy.Wire.{
  Bytes, encode_rune, encode_runes, equal, leading_space, trailing_space, drop_space, trim_space,
}

abbrev pub IsPlain : ℕ → Type 0
IsPlain c = (32 < c) × (c < 127)

pub encode_runes-eq_self : (s : List ℕ) → All IsPlain s → encode_runes s ≡ s
unfolding encode_runes encode_rune
encode_runes-eq_self [] h = refl
encode_runes-eq_self (c ∷ s) h = ground (arith, encode_runes-eq_self s h.1)

pub equal_self : (s : Bytes) → equal s s ≡ true
unfolding equal
equal_self [] = refl
equal_self (c ∷ s) = ground (arith, equal_self s)

leading_space-eq_zero : (c : ℕ) (s : Bytes) → IsPlain c → leading_space (c ∷ s) ≡ 0
unfolding leading_space
leading_space-eq_zero c [] h = ground arith
leading_space-eq_zero c (b ∷ []) h = ground arith
leading_space-eq_zero c (b ∷ a ∷ s) h = ground arith

trailing_space-eq_zero : (c : ℕ) (s : Bytes) → IsPlain c → trailing_space (c ∷ s) ≡ 0
unfolding trailing_space
trailing_space-eq_zero c [] h = ground arith
trailing_space-eq_zero c (b ∷ []) h = ground arith
trailing_space-eq_zero c (b ∷ a ∷ s) h = ground arith

trailing_space-newline : (s : Bytes) → trailing_space (10 ∷ s) ≡ 1
unfolding trailing_space
trailing_space-newline [] = refl
trailing_space-newline (b ∷ []) = refl
trailing_space-newline (b ∷ a ∷ s) = refl

All-reverse : (s : Bytes) → All IsPlain s → All IsPlain (reverse s)
All-reverse [] h = tt
All-reverse (c ∷ s) h =
    subst (All IsPlain) (sym (reverse-cons c s))
      (All-append IsPlain (reverse s) (c ∷ []) (All-reverse s h.1) (h.0, tt))

drop_trailing : (s : Bytes) → All IsPlain s → drop_space trailing_space 0 s ≡ s
unfolding drop_space
drop_trailing [] h = refl
drop_trailing (c ∷ s) h = rw (trailing_space-eq_zero c s h.0, drop_space)

-- Visible ASCII and a newline.
drop_leading :
    (s : Bytes)
    → All IsPlain s
    → drop_space trailing_space 0 (reverse (drop_space leading_space 0 (s ++ 10 ∷ []))) ≡ reverse s
unfolding drop_space leading_space
drop_leading [] h = refl
drop_leading (c ∷ s) h =
    rw (leading_space-eq_zero c (s ++ 10 ∷ []) h.0, drop_space)
      (rw (reverse-append (c ∷ s) (10 ∷ [])) (
        rw (trailing_space-newline (reverse (c ∷ s)), drop_space)
          (drop_trailing (reverse (c ∷ s)) (All-reverse (c ∷ s) h))))

pub trim_space-line : (s : Bytes) → All IsPlain s → trim_space (s ++ 10 ∷ []) ≡ s
unfolding trim_space
trim_space-line s h = ap reverse (drop_leading s h) ∙ reverse-reverse s
