-- ===== src/Web/Mappings/Races/Synced.antt =====
-- Requests that add and switch rules, from before the first call until all have answered.
use mathlib.Core.Option
use gotaxy.Prelude.{
  ℕ, String, ◌≡◌, ◌∙◌, refl, sym, ap, Bool, true, false, Option, none, some, List, [], ◌∷◌, ◌++◌,
  map, arith, All, append-nil,
}
use gotaxy.Session.{Manager}
use gotaxy.Session.Count.{IsCounted}
use gotaxy.Storage.Sql.{Tables}
use gotaxy.Storage.Laws.{IsSql}
use gotaxy.Storage.Rules.{durable}
use gotaxy.Storage.{Engine}
use gotaxy.Server.{GotaxyServer}
use gotaxy.Control.Sync.{IsSynced, rule_of}
use gotaxy.Web.Mappings.Races.{
  Progress, sets, answered, interleave, Request, toggle, add, update, delete, begins,
}
use gotaxy.Web.Mappings.Races.Pending.{as_list, own, pending, is_additive, rules_of, IsAgreed}
use gotaxy.Web.Mappings.Races.Additions.{interleave-IsAgreed}

-- A request that adds or switches a rule.
abbrev pub is_addition : Request → Bool
is_addition (toggle req) = true
is_addition (add req) = true
is_addition _ = false

abbrev pub is_finished : Progress → Bool
is_finished (answered code) = true
is_finished _ = false

begins-additive :
    (requests : List Request)
    → All (λ q. is_addition q ≡ true) requests
    → All (λ p. is_additive p ≡ true) (map begins requests)
      × ((k : String) → pending (map begins requests) k ≡ [])
unfolding begins is_additive pending own
begins-additive [] hs = (tt, λ k. refl)
begins-additive (toggle req ∷ requests) (h, hs) =
    let (a, e) = begins-additive requests hs in ((refl, a), e)
begins-additive (add req ∷ requests) (h, hs) =
    let (a, e) = begins-additive requests hs in ((refl, a), e)
begins-additive (update req ∷ requests) (h, hs) = ground (arith, h)
begins-additive (delete name ∷ requests) (h, hs) = ground (arith, h)

own-finished : (p : Progress) (k : String) → is_finished p ≡ true → own p k ≡ []
unfolding own
own-finished (sets req limit) k h = ground (arith, h)
own-finished p k h = refl

pending-finished :
    (pool : List Progress) (k : String) → All (λ p. is_finished p ≡ true) pool → pending pool k ≡ []
unfolding pending
pending-finished [] k hs = refl
pending-finished (p ∷ pool) k (h, hs) = rw (own-finished p k h, pending-finished pool k hs) refl

same_lists : {A : Type 0} (o p : Option A) → as_list o ≡ as_list p ++ [] → o ≡ p
same_lists none none h = refl
same_lists none (some y) h = ground (arith, h)
same_lists (some x) none h = ground (arith, h)
same_lists (some x) (some y) h = ground (arith, h)

module _ {Db : Type 0} (engine : Engine Db) (tables : Db → Tables)
    (laws : IsSql engine tables) where
  start-IsAgreed :
      (s : GotaxyServer Db) (pool : List Progress)
      → ((k : String) → pending pool k ≡ [])
      → IsSynced s.sessions (tables s.db)
      → IsCounted s.sessions
      → IsAgreed (tables s.db) s.sessions pool
  start-IsAgreed s pool idle v c = record {
    linked = v.linked;
    counted = c;
    unnamed = ap (Option.map rule_of) v.unnamed;
    rules = λ k.
        rw (idle k, append-nil (as_list (rules_of s.sessions k))) (ap as_list (sym (v.rules k)));
  }

  end-IsSynced :
      (t : Tables) (m : Manager) (pool : List Progress)
      → All (λ p. is_finished p ≡ true) pool
      → IsAgreed t m pool
      → IsSynced m t
  end-IsSynced t m pool finished v = record {
    linked = v.linked;
    unnamed = ground (arith, v.unnamed);
    rules = λ k. sym (
        same_lists (durable t k) (rules_of m k)
          (v.rules k ∙ ap (λ zs. as_list (rules_of m k) ++ zs) (pending-finished pool k finished)));
  }

  -- However the calls of any requests to add and to switch rules are interleaved, and whatever the
  -- database refuses: once all have answered, memory and database have the same rules, but for the flags,
  -- and the counter is right, if both were so before.
  pub interleave-IsSynced :
      (requests : List Request) (schedule : List ℕ) (s : GotaxyServer Db)
      → All (λ q. is_addition q ≡ true) requests
      → IsSynced s.sessions (tables s.db)
      → IsCounted s.sessions
      → All (λ p. is_finished p ≡ true) (interleave engine schedule (s, map begins requests)).1
      → let s' = (interleave engine schedule (s, map begins requests)).0 in
        IsSynced s'.sessions (tables s'.db) × IsCounted s'.sessions
  interleave-IsSynced requests schedule s additions v c finished =
      let (additive, idle) = begins-additive requests additions in
      let (s', pool) = interleave engine schedule (s, map begins requests) in
      let agreed =
        interleave-IsAgreed engine tables laws schedule s (map begins requests) additive
          (start-IsAgreed s (map begins requests) idle v c) in
      (end-IsSynced (tables s'.db) s'.sessions pool finished agreed, agreed.counted)
