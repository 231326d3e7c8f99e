-- ===== src/Strings.antt =====
-- What the program uses of Go's `strings` on a text: `TrimSpace`, `Fields`, `HasPrefix`.
pub mod Fields
use Prim.Native.Char.{Char, code}
use Prim.Native.String.{[] as empty, ◌∷◌ as ◌▹◌}
use gotaxy.Prelude.{
  ℕ, String, Bool, true, false, ◌&&◌, ◌||◌, Option, none, some, List, [], ◌∷◌, leb, ◌==◌, str_eq,
  if◌then◌else◌,
}

-- unicode.IsSpace
unfoldable pub is_space : ℕ → Bool
is_space c =
    (leb 9 c && leb c 13)
    || c == 32
    || c == 0x85
    || c == 0xA0
    || c == 0x1680
    || (leb 0x2000 c && leb c 0x200A)
    || c == 0x2028
    || c == 0x2029
    || c == 0x202F
    || c == 0x205F
    || c == 0x3000

unfoldable pub trim_left : String → String
trim_left empty = empty
trim_left (c ▹ s) = if is_space (code c) then trim_left s else c ▹ s

unfoldable pub trim_right : String → String
trim_right empty = empty
trim_right (c ▹ s) =
    let rest = trim_right s in if is_space (code c) && str_eq rest "" then empty else c ▹ rest

unfoldable pub trim_space : String → String
unfolding trim_left trim_right
trim_space s = trim_right (trim_left s)

-- A word that has characters, before the others.
abbrev pub keep_word : String → List String → List String
keep_word word words = if str_eq word "" then words else word ∷ words

-- The word that a text begins with, which is empty before a space, and the words behind it.
unfoldable pub split_words : String → String × List String
split_words empty = (empty, [])
split_words (c ▹ s) =
    let (word, words) = split_words s in
    if is_space (code c) then (empty, keep_word word words) else (c ▹ word, words)

unfoldable pub fields : String → List String
unfolding split_words
fields s = let (word, words) = split_words s in keep_word word words

-- `strings.HasPrefix(s, prefix)`, with the rest of the text.
unfoldable pub cut_prefix : String → String → Option String
cut_prefix s empty = some s
cut_prefix empty (p ▹ prefix) = none
cut_prefix (c ▹ s) (p ▹ prefix) =
    let rest = cut_prefix s prefix in if code c == code p then rest else none
