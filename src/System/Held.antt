-- ===== src/System/Held.antt =====
-- A rule is not taken away under a listener that runs.
use gotaxy.Prelude.{◌≡◌, ◌==◌, false, List, All}
use gotaxy.Session.{Mapping, Ref}
use gotaxy.Storage.{Engine}
use gotaxy.Server.{GotaxyServer}
use gotaxy.Relay.Held.{IsHeld, IsHeld-IsManaged, IsHeld-IsRelayed}
use gotaxy.System.{Event, run}
use gotaxy.System.Inv.{Allows, run_inv}

module _ {Db : Type 0} (engine : Engine Db) where
  -- As long as the listener of a mapping does not end, whatever else the server serves: the mapping stays
  -- in the table under its name, active, and its port, its target and its limit are those that the
  -- listener took.
  pub run-IsHeld :
      (r : Ref) (x : Mapping) (s : GotaxyServer Db) (events : List Event)
      → All (Allows (λ q. (q == r) ≡ false)) events
      → IsHeld r x s.sessions
      → IsHeld r x (run engine s events).sessions
  run-IsHeld r x s events h v =
      run_inv engine (IsHeld r x) (IsHeld-IsManaged r x) (λ q. (q == r) ≡ false)
        (IsHeld-IsRelayed r x) s events h v
