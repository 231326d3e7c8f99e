-- ===== src/Strconv.antt =====
-- What the program uses of Go's `strconv`: `ParseInt(s, 10, 64)`, `Atoi` and `FormatInt(n, 10)`.
pub mod RoundTrip
use Prim.Native.Char.{Char, char, code}
use Prim.Native.String.{[] as empty, ◌∷◌ as ◌▹◌}
use gotaxy.Prelude.{
  ℕ, zero, suc, ◌+◌, ◌-◌, ◌*◌, ◌/◌, ◌%◌, ◌^◌, String, ◌≡◌, refl, Bool, true, false, ◌&&◌, Option,
  none, some, List, [], ◌∷◌, arith, codes, ltb, leb, ◌==◌, if◌then◌else◌,
}
use gotaxy.Int64.{Int64, max_int64, min_int64}

abbrev pub is_digit : ℕ → Bool
is_digit c = leb b'0' c && leb c b'9'

-- The number that the digits spell behind `n`, with no bound; `none` at any other character.
unfoldable pub scan : List ℕ → ℕ → Option ℕ
scan [] n = some n
scan (c ∷ s) n = if is_digit c then scan s (n * 10 + (c - b'0')) else none

-- The results of `ParseInt`: a value, or one of its two errors with the value that goes with it.
pub data Parsed : Type 0 where
  parsed : Int64 → Parsed
  syntax : Parsed
  out_of_range : Int64 → Parsed

unfoldable pub unsigned : List ℕ → Option ℕ
unfolding scan
unsigned [] = none
unsigned (c ∷ s) = scan (c ∷ s) 0

positive : Option ℕ → Parsed
positive none = syntax
positive (some v) = if leb v max_int64 then parsed v else out_of_range max_int64

negative : Option ℕ → Parsed
negative none = syntax
negative (some v) =
    if leb v min_int64 then parsed ((2 ^ 64 - v) % 2 ^ 64) else out_of_range min_int64

unfoldable pub signed : List ℕ → Parsed
unfolding positive negative unsigned
signed [] = syntax
signed (c ∷ s) =
    if c == b'-'
    then negative (unsigned s)
    else if c == b'+'
    then positive (unsigned s)
    else positive (unsigned (c ∷ s))

unfoldable pub parse_int : String → Parsed
parse_int s = signed (codes s)

-- `v, err := strconv.Atoi(s)`, with `none` for an error: no caller reads the value then.
unfoldable pub atoi : String → Option Int64
unfolding parse_int signed
atoi s = elim (parse_int s) [ parsed v ↦ some v | _ ↦ none ]

digit : ℕ → Char
digit d =
    if d == 0
    then char 48 tt
    else if d == 1
    then char 49 tt
    else if d == 2
    then char 50 tt
    else if d == 3
    then char 51 tt
    else if d == 4
    then char 52 tt
    else if d == 5
    then char 53 tt
    else if d == 6
    then char 54 tt
    else if d == 7
    then char 55 tt
    else if d == 8
    then char 56 tt
    else char 57 tt

-- Writes the digits of `n` in front of `out`, on fuel: a 64-bit number has at most 20.
unfoldable pub digits : ℕ → ℕ → String → String
unfolding digit
digits zero n out = out
digits (suc f) n out =
    let rest = digits f (n / 10) (digit (n % 10) ▹ out) in if ltb n 10 then digit n ▹ out else rest

unfoldable pub format_int : Int64 → String
format_int x =
    if leb x max_int64 then digits 20 x empty else char 45 tt ▹ digits 20 (2 ^ 64 - x) empty
