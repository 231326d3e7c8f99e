-- ===== src/Wire.antt =====
-- Bytes: the UTF-8 of a text, as Go keeps it, and `strings.TrimSpace` on bytes; and what a write of bytes
-- gives.
pub mod Plain
use mathlib.Core.List.{reverse}
use gotaxy.Prelude.{
  ℕ, zero, suc, ◌+◌, ◌/◌, ◌%◌, String, Bool, true, false, ◌&&◌, ◌||◌, List, [], ◌∷◌, ◌++◌, codes,
  ltb, leb, ◌==◌, take, if◌then◌else◌,
}

abbrev pub Bytes : Type 0
Bytes = List ℕ

abbrev continuation : ℕ → ℕ
continuation c = 0x80 + c % 64

unfoldable pub encode_rune : ℕ → Bytes
encode_rune c =
    if ltb c 0x80
    then c ∷ []
    else if ltb c 0x800
    then (0xC0 + c / 64) ∷ continuation c ∷ []
    else if ltb c 0x10000
    then (0xE0 + c / 4096) ∷ continuation (c / 64) ∷ continuation c ∷ []
    else (0xF0 + c / 262144) ∷ continuation (c / 4096) ∷ continuation (c / 64) ∷ continuation c ∷ []

unfoldable pub encode_runes : List ℕ → Bytes
unfolding encode_rune
encode_runes [] = []
encode_runes (c ∷ s) = encode_rune c ++ encode_runes s

-- []byte(s)
unfoldable pub encode : String → Bytes
unfolding encode_runes
encode s = encode_runes (codes s)

unfoldable pub equal : Bytes → Bytes → Bool
equal [] [] = true
equal (a ∷ s) (b ∷ t) = a == b && equal s t
equal _ _ = false

abbrev pub is_ascii_space : ℕ → Bool
is_ascii_space c = (leb 9 c && leb c 13) || c == 32

-- The third byte of a space of the form E2 80 ??
abbrev is_general_space : ℕ → Bool
is_general_space c = (leb 0x80 c && leb c 0x8A) || c == 0xA8 || c == 0xA9 || c == 0xAF

abbrev is_three_byte_space : ℕ → ℕ → ℕ → Bool
is_three_byte_space a b c =
    (a == 0xE1 && b == 0x9A && c == 0x80)
    || (a == 0xE2 && b == 0x80 && is_general_space c)
    || (a == 0xE2 && b == 0x81 && c == 0x9F)
    || (a == 0xE3 && b == 0x80 && c == 0x80)

-- How many bytes the white space takes with which a text begins; 0 if it begins with none.
unfoldable pub leading_space : Bytes → ℕ
leading_space (a ∷ b ∷ c ∷ s) =
    if is_ascii_space a
    then 1
    else if a == 0xC2 && (b == 0x85 || b == 0xA0)
    then 2
    else if is_three_byte_space a b c
    then 3
    else 0
leading_space (a ∷ b ∷ []) =
    if is_ascii_space a then 1 else if a == 0xC2 && (b == 0x85 || b == 0xA0) then 2 else 0
leading_space (a ∷ []) = if is_ascii_space a then 1 else 0
leading_space [] = 0

-- The same at the end of a text, which is given backwards.
unfoldable pub trailing_space : Bytes → ℕ
trailing_space (c ∷ b ∷ a ∷ s) =
    if is_ascii_space c
    then 1
    else if b == 0xC2 && (c == 0x85 || c == 0xA0)
    then 2
    else if is_three_byte_space a b c
    then 3
    else 0
trailing_space (c ∷ b ∷ []) =
    if is_ascii_space c then 1 else if b == 0xC2 && (c == 0x85 || c == 0xA0) then 2 else 0
trailing_space (c ∷ []) = if is_ascii_space c then 1 else 0
trailing_space [] = 0

-- Drops `n` bytes, and then spaces as long as there are some.
unfoldable pub drop_space : (Bytes → ℕ) → ℕ → Bytes → Bytes
drop_space space n [] = []
drop_space space (suc n) (c ∷ s) = drop_space space n s
drop_space space zero (c ∷ s) = elim (space (c ∷ s)) [ zero ↦ c ∷ s | suc n ↦ drop_space space n s ]

unfoldable pub trim_space : Bytes → Bytes
unfolding drop_space leading_space trailing_space
trim_space s = reverse (drop_space trailing_space 0 (reverse (drop_space leading_space 0 s)))

-- What `Write` of an `io.Writer` gives: no error, and all was written; or an error, after some bytes.
pub data Written : Type 0 where
  whole : Written
  part : ℕ → Written

abbrev pub taken : Written → Bytes → Bytes
taken whole p = p
taken (part n) p = take n p

-- err == nil
abbrev pub succeeded : Written → Bool
succeeded whole = true
succeeded (part _) = false
