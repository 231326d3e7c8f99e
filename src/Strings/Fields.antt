-- ===== src/Strings/Fields.antt =====
-- What `Fields` gives.
use Prim.Native.Char.{Char, code}
use Prim.Native.String.{[] as empty, ◌∷◌ as ◌▹◌}
use gotaxy.Prelude.{
  String, ◌≡◌, ◌≢◌, refl, sym, ◌∙◌, true, false, List, [], arith, str_eq, eq_iff, eq_refl, All,
  Bool-cases, inl, inr,
}
use gotaxy.Strings.{is_space, trim_left, trim_right, trim_space, keep_word, split_words, fields}

abbrev pub IsFilled : String → Type 0
IsFilled a = a ≢ ""

keep_word-IsFilled :
    (word : String) (words : List String) → All IsFilled words → All IsFilled (keep_word word words)
keep_word-IsFilled word words h = elim (Bool-cases (str_eq word "")) [
  | inl e ↦ rw e h
  | inr e ↦ rw e (λ (p : word ≡ ""). ground (arith, eq_iff word ""), h)
]

split_words-IsFilled : (s : String) → All IsFilled (split_words s).1
unfolding split_words
split_words-IsFilled empty = tt
split_words-IsFilled (c ▹ s) = elim (Bool-cases (is_space (code c))) [
  | inl e ↦ rw e (keep_word-IsFilled (split_words s).0 (split_words s).1 (split_words-IsFilled s))
  | inr e ↦ rw e (split_words-IsFilled s)
]

-- No word is empty.
pub fields-IsFilled : (s : String) → All IsFilled (fields s)
unfolding fields
fields-IsFilled s = keep_word-IsFilled (split_words s).0 (split_words s).1 (split_words-IsFilled s)

cons_ne_empty : (c : Char) (s : String) → str_eq (c ▹ s) "" ≡ false
cons_ne_empty c s = elim (Bool-cases (str_eq (c ▹ s) "")) [
  | inl e ↦ let p : (c ▹ s) ≡ "" = (eq_iff (c ▹ s) "").0 e in cc
  | inr e ↦ e
]

keep_word-eq_nil :
    (word : String) (words : List String)
    → keep_word word words ≡ []
    → (str_eq word "" ≡ true) × (words ≡ [])
keep_word-eq_nil word words h = ground arith

-- A text with no word is white.
fields-eq_nil : (s : String) → fields s ≡ [] → trim_left s ≡ ""
unfolding fields split_words trim_left
fields-eq_nil empty h = refl
fields-eq_nil (c ▹ s) h = elim (Bool-cases (is_space (code c))) [
  | inl e ↦
      let shut : keep_word (split_words s).0 (split_words s).1 ≡ [] = ground (arith, eq_refl "") in
      rw e (fields-eq_nil s shut)
  | inr e ↦ ground (arith, cons_ne_empty c (split_words s).0)
]

trim_left-trim_space : (s : String) → trim_left (trim_space s) ≡ trim_space s
unfolding trim_space trim_left trim_right
trim_left-trim_space empty = refl
trim_left-trim_space (c ▹ s) = ground (arith, trim_left-trim_space s)

-- A text that is not empty when trimmed has a first word.
pub fields-trim_space_ne : (s : String) → trim_space s ≢ "" → fields (trim_space s) ≢ []
fields-trim_space_ne s h p = h (sym (trim_left-trim_space s) ∙ fields-eq_nil (trim_space s) p)
