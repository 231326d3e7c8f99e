-- ===== src/Config/Rules.antt =====
-- What loading the rules does to a manager: pointers lead to their names, and `totalConns` counts.
use gotaxy.Prelude.{String, false, none, some, [], ◌∷◌, map, ◌≡◌, ◌∙◌, ap, arith, eq_iff, str_eq}
use gotaxy.Prelude.Dict.{Dict, lookup, IsMap, lookup-insert}
use gotaxy.Session.{Manager, set_mapping}
use gotaxy.Session.View.{IsLinked, set_mapping-IsLinked}
use gotaxy.Session.Count.{IsCounted, set_mapping-IsCounted}
use gotaxy.Storage.Sql.{Row}
use gotaxy.Config.{set_rows}
use gotaxy.Config.Load.{IsNamed}

pub set_rows-IsLinked :
    (m : Manager) (rows : Dict Row) → IsLinked m → IsLinked (set_rows m (map (λ e. e.1) rows))
unfolding set_rows
set_rows-IsLinked m [] v = v
set_rows-IsLinked m ((j, r) ∷ rows) v =
    set_rows-IsLinked
      (set_mapping m r.name r.public_port r.target_addr r.enable r.traffic r.rate_limit) rows
      (set_mapping-IsLinked r.name r.public_port r.target_addr r.enable r.traffic r.rate_limit v)

lookup-set_mapping_ne :
    (m : Manager) (r : Row) (k : String)
    → str_eq r.name k ≡ false
    → lookup m.table k ≡ none
    → lookup
        (set_mapping m r.name r.public_port r.target_addr r.enable r.traffic r.rate_limit).table
        k
      ≡ none
unfolding set_mapping
lookup-set_mapping_ne m r k h e = rw lookup-insert (ground arith)

-- The rows of names that the table does not have.
pub set_rows-IsCounted :
    (m : Manager) (rows : Dict Row)
    → IsMap rows
    → IsNamed rows
    → ((k : String) (r : Row) → lookup rows k ≡ some r → lookup m.table k ≡ none)
    → IsCounted m
    → IsCounted (set_rows m (map (λ e. e.1) rows))
unfolding set_rows lookup
set_rows-IsCounted m [] h n new c = c
set_rows-IsCounted m ((j, r) ∷ rows) h n new c =
    let named : r.name ≡ j = n j r (ground (arith, eq_iff j j)) in
    let fresh : lookup m.table r.name ≡ none =
      ap (lookup m.table) named ∙ new j r (ground (arith, eq_iff j j)) in
    let below : (i : String) (q : Row)
        → lookup rows i ≡ some q
        → lookup ((j, r) ∷ rows) i ≡ some q =
      λ i q e. ground (arith, eq_iff j i, h.0, λ (p : j ≡ i). ap (lookup rows) p) in
    let other : (i : String) (q : Row) → lookup rows i ≡ some q → str_eq r.name i ≡ false = λ i q e.
      ground (arith, eq_iff r.name i, eq_iff j i, h.0, λ (p : j ≡ i). ap (lookup rows) p) in
    set_rows-IsCounted
      (set_mapping m r.name r.public_port r.target_addr r.enable r.traffic r.rate_limit) rows h.1
      (λ i q e. n i q (below i q e))
      (λ i q e. lookup-set_mapping_ne m r i (other i q e) (new i q (below i q e)))
      (set_mapping-IsCounted r.name r.public_port r.target_addr r.enable r.traffic r.rate_limit
        fresh c)
