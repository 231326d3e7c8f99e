-- ===== src/Web/Mappings/Races/Settled.antt =====
-- Requests that add rules at the same time, while others switch them, to their end.
use gotaxy.Prelude.{ℕ, ◌≡◌, ◌≢◌, refl, true, false, List, map, arith, All, All-weaken, All-both}
use gotaxy.Session.Count.{IsCounted}
use gotaxy.Storage.Sql.{Tables}
use gotaxy.Storage.Laws.{IsSql}
use gotaxy.Storage.{Engine}
use gotaxy.Server.{GotaxyServer}
use gotaxy.Control.Sync.{IsSynced}
use gotaxy.Web.Mappings.Races.{
  Progress, Request, toggle, add, update, delete, answered, panicked, begins, interleave,
}
use gotaxy.Web.Mappings.Races.Panics.{is_deletion, interleave-IsLinked}
use gotaxy.Web.Mappings.Races.Synced.{is_addition, is_finished, interleave-IsSynced}
use gotaxy.Web.Mappings.Races.Turns.{IsFair, is_over, interleave-over}

keeps_all : (q : Request) → is_addition q ≡ true → is_deletion q ≡ false
keeps_all (toggle req) h = refl
keeps_all (add req) h = refl
keeps_all (update req) h = refl
keeps_all (delete name) h = ground (arith, h)

over-finished : (p : Progress) → (is_over p ≡ true) × (p ≢ panicked) → is_finished p ≡ true
over-finished (answered code) h = refl
over-finished panicked h = absurd (h.1 refl)
over-finished p h = h.0

module _ {Db : Type 0} (engine : Engine Db) (tables : Db → Tables)
    (laws : IsSql engine tables) where
  -- However the calls of any requests to add rules are interleaved, with requests that switch rules among
  -- them, and whatever the database refuses: when each handler has had four turns, all have answered, memory
  -- and database have the same rules, with the same port, target address and rate limit for each name, and the
  -- counter is right, if both was so before. Flags are not compared: a switch is not stored.
  pub interleave-settled :
      (requests : List Request) (schedule : List ℕ) (s : GotaxyServer Db)
      → All (λ q. is_addition q ≡ true) requests
      → IsFair requests schedule
      → IsSynced s.sessions (tables s.db)
      → IsCounted s.sessions
      → let (s', pool) = interleave engine schedule (s, map begins requests) in
        All (λ p. is_finished p ≡ true) pool
        × IsSynced s'.sessions (tables s'.db)
        × IsCounted s'.sessions
  interleave-settled requests schedule s additions fair v c =
      let (s', pool) = interleave engine schedule (s, map begins requests) in
      let over = interleave-over engine requests schedule s fair in
      let (linked, running) =
        interleave-IsLinked engine requests schedule s
          (All-weaken (λ q. is_addition q ≡ true) (λ q. is_deletion q ≡ false) requests keeps_all
            additions)
          v.linked in
      let finished : All (λ p. is_finished p ≡ true) pool =
        All-weaken (λ p. (is_over p ≡ true) × (p ≢ panicked)) (λ p. is_finished p ≡ true) pool
          over-finished (All-both (λ p. is_over p ≡ true) (λ p. p ≢ panicked) pool over running) in
      let (synced, counted) =
        interleave-IsSynced engine tables laws requests schedule s additions v c finished in
      (finished, synced, counted)
