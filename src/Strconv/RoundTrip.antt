-- ===== src/Strconv/RoundTrip.antt =====
-- What is printed by `format_int` is read back by `parse_int`.
use Prim.Native.Char.{code}
use Prim.Native.String.{[] as empty, ◌∷◌ as ◌▹◌}
use gotaxy.Prelude.{
  ℕ, zero, suc, ◌+◌, ◌-◌, ◌*◌, ◌/◌, ◌%◌, ◌^◌, ◌<◌, String, ◌≡◌, refl, sym, ap, ◌∙◌, some, List, ◌∷◌,
  arith, codes, ==_iff, all_below_sound, ◌==◌, ltb, inl, inr, Bool-cases, leb,
}
use gotaxy.Int64.{Int64, max_int64}
use gotaxy.Strconv.{
  scan, unsigned, positive, negative, signed, parsed, parse_int, digit, digits, format_int,
}

code-digit : (d : ℕ) → d < 10 → code (digit d) ≡ b'0' + d
unfolding digit
code-digit d h = (==_iff _ _).0 (all_below_sound 10 (λ d. code (digit d) == b'0' + d) d refl h)

scan-digit : (d n : ℕ) (s : List ℕ) → d < 10 → scan ((b'0' + d) ∷ s) n ≡ scan s (n * 10 + d)
unfolding scan
scan-digit d n s h = ground arith

scan-digit_char :
    (d n : ℕ) (out : String)
    → d < 10
    → scan (codes (digit d ▹ out)) n ≡ scan (codes out) (n * 10 + d)
scan-digit_char d n out h = rw code-digit (scan-digit d n (codes out) h)

-- 10 ^ f, by recursion
abbrev tens : ℕ → ℕ
tens zero = 1
tens (suc f) = 10 * tens f

scan-digits :
    (f n : ℕ) (out : String) → n < tens f → scan (codes (digits f n out)) 0 ≡ scan (codes out) n
unfolding digits
scan-digits zero n out h = let e : n ≡ 0 = omega arith in rw e
scan-digits (suc f) n out h = elim (Bool-cases (ltb n 10)) [
  | inl small ↦
      rw (small) (rw (scan-digit_char n 0 out (ground arith)) (ap (scan (codes out)) (omega arith)))
  | inr large ↦
      rw
        (
          large,
          scan-digits f (n / 10) _ (omega arith),
          scan-digit_char (n % 10) (n / 10) out (omega arith),
        )
        (ap (scan (codes out)) (omega arith))
]

leading_digit :
    (f n : ℕ) (out : String)
    → (d : ℕ) × (s : List ℕ) × (d < 10) × (codes (digits (suc f) n out) ≡ (b'0' + d) ∷ s)
unfolding digits
leading_digit zero n out = elim (Bool-cases (ltb n 10)) [
  | inl small ↦ (n, codes out, ground arith, rw (small, code-digit n (ground arith)))
  | inr large ↦ (n % 10, codes out, omega arith, rw (large, code-digit (n % 10) (omega arith)))
]
leading_digit (suc f) n out = elim (Bool-cases (ltb n 10)) [
  | inl small ↦ (n, codes out, ground arith, rw (small, code-digit n (ground arith)))
  | inr large ↦
      let (d, s, h, e) = leading_digit f (n / 10) (digit (n % 10) ▹ out) in (d, s, h, rw large e)
]

unsigned-eq-scan : (c : ℕ) (s t : List ℕ) → t ≡ c ∷ s → unsigned t ≡ scan t 0
unfolding unsigned
unsigned-eq-scan c s t e = rw e

unsigned-digits : (n : ℕ) → n < 2 ^ 64 → unsigned (codes (digits 20 n empty)) ≡ some n
unfolding scan
unsigned-digits n h =
    let (d, s, _, e) = leading_digit 19 n empty in
    unsigned-eq-scan (b'0' + d) s _ e ∙ scan-digits 20 n empty (omega arith)

-- A text that begins with a digit has no sign.
signed-digit :
    (d : ℕ) (s : List ℕ) → d < 10 → signed ((b'0' + d) ∷ s) ≡ positive (unsigned ((b'0' + d) ∷ s))
unfolding signed
signed-digit d s h = ground arith

signed-digits : (n : ℕ) → n < 2 ^ 64 → signed (codes (digits 20 n empty)) ≡ positive (some n)
signed-digits n h =
    let (d, s, k, e) = leading_digit 19 n empty in
    ap signed e
    ∙ signed-digit d s k
    ∙ ap (λ t. positive (unsigned t)) (sym e)
    ∙ ap positive (unsigned-digits n h)

signed-minus : (s : List ℕ) → signed (b'-' ∷ s) ≡ negative (unsigned s)
unfolding signed
signed-minus s = refl

-- Every 64-bit integer, negative or not, is read back from its decimal print.
pub parse_int-format_int : (x : Int64) → x < 2 ^ 64 → parse_int (format_int x) ≡ parsed x
unfolding parse_int format_int
parse_int-format_int x h = elim (Bool-cases (leb x max_int64)) [
  | inl small ↦ rw (small, signed-digits x h) (unfold positive in rw small)
  | inr large ↦
      rw (large, signed-minus, unsigned-digits (2 ^ 64 - x) (ground arith))
        (unfold negative in ground arith)
]
