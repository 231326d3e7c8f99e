-- ===== src/Prelude/Dict.antt =====
-- A Go map with text keys, as an association list with one entry for each key. Go leaves the order
-- of an iteration open; here it is the order in which the keys came first.
use Prim.Native.Nat.{suc}
use Prim.Native.String.{String}
use mathlib.Core.Path.{◌≡◌, refl}
use mathlib.Core.Bool.{false}
use mathlib.Core.Option.{Option, none, some}
use mathlib.Core.List.{List, [], ◌∷◌, ◌++◌}
use native.Mathlib.Omega.{arith}
use text.Mathlib.Text.{◌==◌ as str_eq}
use text.Mathlib.TextEquality.{eq_iff}
use gotaxy.Prelude.Tests.{if◌then◌else◌}
use gotaxy.Prelude.Lists.{length}

abbrev pub Dict {ℓ} : Type ℓ → Type ℓ
Dict V = List (String × V)

module _ {ℓ} {V : Type ℓ} where
  -- m[k], with `none` for a missing key
  unfoldable pub lookup : Dict V → String → Option V
  lookup [] k = none
  lookup ((j, v) ∷ m) k = if str_eq j k then some v else lookup m k

  -- m[k] = v
  unfoldable pub insert : Dict V → String → V → Dict V
  insert [] k v = (k, v) ∷ []
  insert ((j, w) ∷ m) k v = if str_eq j k then (k, v) ∷ m else (j, w) ∷ insert m k v

  -- delete(m, k)
  unfoldable pub erase : Dict V → String → Dict V
  erase [] k = []
  erase ((j, v) ∷ m) k = if str_eq j k then erase m k else (j, v) ∷ erase m k

  pub lookup-insert :
      (m : Dict V) (k j : String) (v : V)
      → lookup (insert m k v) j ≡ (if str_eq k j then some v else lookup m j)
  unfolding lookup insert
  lookup-insert [] k j v = refl
  lookup-insert ((i, w) ∷ m) k j v =
      ground (arith, eq_iff k j, eq_iff i k, eq_iff i j, lookup-insert m k j v)

  pub lookup-erase :
      (m : Dict V) (k j : String) → lookup (erase m k) j ≡ (if str_eq k j then none else lookup m j)
  unfolding lookup erase
  lookup-erase [] k j = ground arith
  lookup-erase ((i, w) ∷ m) k j =
      ground (arith, eq_iff k j, eq_iff i k, eq_iff i j, lookup-erase m k j)

  -- One entry for each key.
  abbrev pub IsMap : Dict V → Type ℓ
  IsMap [] = Unit
  IsMap ((j, v) ∷ m) = (lookup m j ≡ none) × IsMap m

  pub insert-IsMap : (m : Dict V) (k : String) (v : V) → IsMap m → IsMap (insert m k v)
  unfolding insert lookup
  insert-IsMap [] k v h = (refl, tt)
  insert-IsMap ((j, w) ∷ m) k v h =
      ground (arith, insert-IsMap m k v h.1, lookup-insert m k j v, eq_iff j k, eq_iff k j)

  pub erase-IsMap : (m : Dict V) (k : String) → IsMap m → IsMap (erase m k)
  unfolding erase
  erase-IsMap [] k h = tt
  erase-IsMap ((j, w) ∷ m) k h = ground (arith, erase-IsMap m k h.1, lookup-erase m k j, eq_iff j k)

  pub length-insert :
      (m : Dict V) (k : String) (v : V)
      → length (insert m k v) ≡ (elim (lookup m k) [ none ↦ suc (length m) | some _ ↦ length m ])
  unfolding insert lookup
  length-insert [] k v = refl
  length-insert ((j, w) ∷ m) k v = ground (arith, length-insert m k v)

  -- Erasing a key that is not there changes nothing.
  pub erase-eq_self : (m : Dict V) (k : String) → lookup m k ≡ none → erase m k ≡ m
  unfolding erase lookup
  erase-eq_self [] k h = refl
  erase-eq_self ((j, w) ∷ m) k h = ground (arith, erase-eq_self m k)

  pub length-erase :
      (m : Dict V) (k : String) (v : V)
      → IsMap m
      → lookup m k ≡ some v
      → suc (length (erase m k)) ≡ length m
  unfolding erase lookup
  length-erase [] k v h e = cc
  length-erase ((j, w) ∷ m) k v h e =
      ground (arith, length-erase m k v h.1, erase-eq_self m k, eq_iff j k)

module _ {ℓ} {V : Type ℓ} where
  -- A new key goes to the end.
  pub insert-append :
      (m : Dict V) (k : String) (v : V) → lookup m k ≡ none → insert m k v ≡ m ++ (k, v) ∷ []
  unfolding insert lookup
  insert-append [] k v h = refl
  insert-append ((j, w) ∷ m) k v h = ground (arith, insert-append m k v)

  pub lookup-append_ne :
      (m n : Dict V) (k j : String) (v : V) → lookup (m ++ (k, v) ∷ n) j ≡ none → str_eq k j ≡ false
  unfolding lookup
  lookup-append_ne [] n k j v h = ground arith
  lookup-append_ne ((i, w) ∷ m) n k j v h = ground (arith, lookup-append_ne m n k j v)

  -- In a map, a key that comes later is not among the earlier ones.
  pub lookup_before :
      (m n : Dict V) (k : String) (v : V) → IsMap (m ++ (k, v) ∷ n) → lookup m k ≡ none
  unfolding lookup
  lookup_before [] n k v h = refl
  lookup_before ((j, w) ∷ m) n k v h =
      ground
        (arith, lookup_before m n k v h.1, lookup-append_ne m n k j v h.0, eq_iff j k, eq_iff k j)

pub ruleset dict_laws = (lookup-insert, lookup-erase)
