-- ===== src/Web/Mappings/Races/Additions.antt =====
-- Handlers that add and switch rules, in any order of their calls: a name is inserted into the table of
-- rules once, by the unique column, and who inserted it puts the rule into memory.
use gotaxy.Prelude.{
  All-set, All-get_elem?, ℕ, String, ◌≡◌, ◌∙◌, refl, sym, subst, ap, Bool, true, false, none, List,
  [], ◌∷◌, ◌++◌, arith, All, get_elem?, Option-cases, Bool-cases, inl, inr, eq_iff, str_eq,
}
use gotaxy.Prelude.Dict.{lookup}
use gotaxy.Int64.{Int64}
use gotaxy.Session.{Manager, update_enable, with_enable}
use gotaxy.Storage.Sql.{Tables, sql, insert_rule}
use gotaxy.Storage.Laws.{IsSql}
use gotaxy.Storage.Rules.{durable, durable-exec}
use gotaxy.Storage.{Engine, insert_mpg}
use gotaxy.Server.{GotaxyServer}
use gotaxy.Control.{start_listener}
use gotaxy.Web.{status_internal_server_error}
use gotaxy.Web.Mappings.{MappingRequest}
use gotaxy.Web.Mappings.Races.{
  Progress, toggles, marks, enables, finds, closes, disables, derives, adds, inserts, sets, deletes,
  erases, forgets, inspects, updates, compares, stores, rewrites, answered, panicked, advance, turn,
  interleave, is_rejected,
}
use gotaxy.Web.Mappings.Races.Pending.{
  as_list, nothing, split, own, pending, is_additive, rules_of, IsAgreed, IsSame, IsSame-refl,
  pending-split, change-IsSame, write-IsSame, quiet-IsAgreed, sets-IsAgreed,
}

module _ {Db : Type 0} (engine : Engine Db) (tables : Db → Tables)
    (laws : IsSql engine tables) where
  -- A row that the table has taken was not there.
  absent :
      (db : Db) (name port addr : String) (enable : Bool) (limit : Int64)
      → (engine.exec db (insert_rule name port addr enable limit)).1 ≡ true
      → durable (tables db) name ≡ none
  unfolding durable sql
  absent db name port addr enable limit done =
      elim (Option-cases (lookup (tables db).mapping name)) [
        | inl e ↦ rw e refl
        | inr (r, e) ↦
            ground (arith, laws.exec_done db (insert_rule name port addr enable limit) done, e)
      ]

  inserts-IsAgreed :
      (db : Db) (m : Manager) (xs ys : List Progress) (req : MappingRequest) (limit : Int64)
      → let s = insert_rule req.name req.public_port req.target_addr false limit in
        (engine.exec db s).1 ≡ true
        → IsAgreed (tables db) m (xs ++ inserts req limit ∷ ys)
        → IsAgreed (tables (engine.exec db s).0) m (xs ++ sets req limit ∷ ys)
  unfolding own
  inserts-IsAgreed db m xs ys req limit done v =
      let s = insert_rule req.name req.public_port req.target_addr false limit in
      let stepped = λ (k : String). durable-exec engine tables laws db s k done in
      let before = λ (k : String).
        v.rules k
        ∙ ap (λ zs. as_list (rules_of m k) ++ zs) (pending-split xs ys (inserts req limit) k) in
      let gone : as_list (durable (tables db) req.name) ≡ [] =
        ap as_list (absent db req.name req.public_port req.target_addr false limit done) in
      let (out, rest) =
        nothing (as_list (rules_of m req.name)) (pending xs req.name ++ pending ys req.name)
          (sym (before req.name) ∙ gone) in
      let (l, r) = nothing (pending xs req.name) (pending ys req.name) rest in
      record {
        linked = v.linked;
        counted = v.counted;
        unnamed = v.unnamed;
        rules = λ k. elim (Bool-cases (str_eq req.name k)) [
          | inl same ↦
              let e : req.name ≡ k = (eq_iff req.name k).0 same in
              rw (pending-split xs ys (sets req limit) k, stepped k, same, ← e, out, l, r) refl
          | inr other ↦ rw (pending-split xs ys (sets req limit) k, stepped k, other) (before k)
        ];
      }

  abbrev IsMoved : List Progress → List Progress → GotaxyServer Db × Progress → Type 0
  IsMoved xs ys (s, p) = IsAgreed (tables s.db) s.sessions (xs ++ p ∷ ys) × (is_additive p ≡ true)

  quiet-IsMoved :
      {u : Tables} {m n : Manager} (xs ys : List Progress) (p q : Progress)
      → IsSame m n
      → ((k : String) → own q k ≡ own p k)
      → is_additive q ≡ true
      → IsAgreed u m (xs ++ p ∷ ys)
      → IsAgreed u n (xs ++ q ∷ ys) × (is_additive q ≡ true)
  quiet-IsMoved xs ys p q same owns additive v = (quiet-IsAgreed xs ys p q same owns v, additive)

  inserts-IsMoved :
      (req : MappingRequest) (limit : Int64) (xs ys : List Progress) (s : GotaxyServer Db)
      → str_eq req.name "" ≡ false
      → IsAgreed (tables s.db) s.sessions (xs ++ inserts req limit ∷ ys)
      → IsMoved xs ys (advance engine (inserts req limit) s)
  unfolding advance insert_mpg own is_additive
  inserts-IsMoved req limit xs ys s named v =
      let stmt = insert_rule req.name req.public_port req.target_addr false limit in
      elim (Bool-cases (engine.exec s.db stmt).1) [
        | inl done ↦
            rw done (inserts-IsAgreed s.db s.sessions xs ys req limit done v, ground (arith, named))
        | inr failed ↦
            let kept =
              quiet-IsAgreed xs ys (inserts req limit) (answered status_internal_server_error)
                (IsSame-refl s.sessions) (λ k. refl) v in
            rw failed (
              subst (λ t. IsAgreed t s.sessions (xs ++ answered status_internal_server_error ∷ ys))
                  (sym (laws.exec_failed s.db stmt failed)) kept,
              refl,
            )
      ]

  advance-IsMoved :
      (p : Progress) (xs ys : List Progress) (s : GotaxyServer Db)
      → is_additive p ≡ true
      → IsAgreed (tables s.db) s.sessions (xs ++ p ∷ ys)
      → IsMoved xs ys (advance engine p s)
  unfolding advance update_enable start_listener own is_additive is_rejected
  advance-IsMoved (toggles req) xs ys s h v =
      quiet-IsMoved xs ys (toggles req) _ (IsSame-refl s.sessions) (λ k. ground arith)
        (ground arith) v
  advance-IsMoved (marks name) xs ys s h v =
      quiet-IsMoved xs ys (marks name) _
        (change-IsSame s.sessions name (with_enable true) (λ x. refl) (λ x. refl)) (λ k. refl) refl
        v
  advance-IsMoved (enables name) xs ys s h v =
      quiet-IsMoved xs ys (enables name) _
        (change-IsSame s.sessions name (with_enable true) (λ x. refl) (λ x. refl))
        (λ k. ground arith) (ground arith) v
  advance-IsMoved (finds name) xs ys s h v =
      quiet-IsMoved xs ys (finds name) _ (IsSame-refl s.sessions) (λ k. ground arith) (ground arith)
        v
  advance-IsMoved (derives r) xs ys s h v =
      quiet-IsMoved xs ys (derives r) _ (write-IsSame s.sessions r _ (λ x. refl) (λ x. refl))
        (λ k. refl) refl v
  advance-IsMoved (closes name) xs ys s h v =
      quiet-IsMoved xs ys (closes name) _ (IsSame-refl s.sessions) (λ k. ground arith)
        (ground arith) v
  advance-IsMoved (disables name) xs ys s h v =
      quiet-IsMoved xs ys (disables name) _
        (change-IsSame s.sessions name (with_enable false) (λ x. refl) (λ x. refl)) (λ k. refl) refl
        v
  advance-IsMoved (adds req) xs ys s h v =
      quiet-IsMoved xs ys (adds req) _ (IsSame-refl s.sessions) (λ k. ground arith) (ground arith) v
  advance-IsMoved (inserts req limit) xs ys s h v =
      inserts-IsMoved req limit xs ys s (ground (arith, h)) v
  advance-IsMoved (sets req limit) xs ys s h v =
      (sets-IsAgreed s.sessions xs ys req limit _ (ground (arith, h)) (λ k. refl) v, refl)
  advance-IsMoved (answered code) xs ys s h v = (v, h)
  advance-IsMoved panicked xs ys s h v = (v, h)
  advance-IsMoved (deletes name) xs ys s h v = ground (arith, h)
  advance-IsMoved (inspects name r) xs ys s h v = ground (arith, h)
  advance-IsMoved (erases name) xs ys s h v = ground (arith, h)
  advance-IsMoved (forgets name) xs ys s h v = ground (arith, h)
  advance-IsMoved (updates req) xs ys s h v = ground (arith, h)
  advance-IsMoved (compares req r) xs ys s h v = ground (arith, h)
  advance-IsMoved (stores req enable) xs ys s h v = ground (arith, h)
  advance-IsMoved (rewrites req) xs ys s h v = ground (arith, h)

  turn-IsAgreed :
      (i : ℕ) (s : GotaxyServer Db) (pool : List Progress)
      → All (λ p. is_additive p ≡ true) pool
      → IsAgreed (tables s.db) s.sessions pool
      → let (s', pool') = turn engine i (s, pool) in
        IsAgreed (tables s'.db) s'.sessions pool' × All (λ p. is_additive p ≡ true) pool'
  unfolding turn
  turn-IsAgreed i s pool hs v = elim (Option-cases (get_elem? pool i)) [
    | inl e ↦ rw (e, turn) (v, hs)
    | inr (p, e) ↦
        let (xs, ys, there, put) = split pool i p e in
        let here = All-get_elem? (λ p. is_additive p ≡ true) pool i p hs e in
        let (kept, additive) =
          advance-IsMoved p xs ys s here
            (subst (λ zs. IsAgreed (tables s.db) s.sessions zs) there v) in
        rw (e, turn)
          (
            subst
                (λ zs.
                  IsAgreed (tables (advance engine p s).0.db) (advance engine p s).0.sessions zs)
                (sym (put (advance engine p s).1)) kept,
            All-set (λ p. is_additive p ≡ true) pool i (advance engine p s).1 additive hs,
          )
  ]

  pub interleave-IsAgreed :
      (schedule : List ℕ) (s : GotaxyServer Db) (pool : List Progress)
      → All (λ p. is_additive p ≡ true) pool
      → IsAgreed (tables s.db) s.sessions pool
      → let (s', pool') = interleave engine schedule (s, pool) in
        IsAgreed (tables s'.db) s'.sessions pool'
  unfolding interleave
  interleave-IsAgreed [] s pool hs v = v
  interleave-IsAgreed (i ∷ schedule) s pool hs v =
      let (kept, additive) = turn-IsAgreed i s pool hs v in
      interleave-IsAgreed schedule (turn engine i (s, pool)).0 (turn engine i (s, pool)).1 additive
        kept
