-- ===== src/System/Counted.antt =====
-- The counter of rules stays right under every event.
use gotaxy.Prelude.{String, ◌≡◌, none, List}
use gotaxy.Int64.{Int64}
use gotaxy.Storage.{Engine}
use gotaxy.Session.{
  Manager, Mapping, Ref, get_mapping, set_mapping, update_enable, update_mapping, add_traffic,
  write, set_session, remove_session,
}
use gotaxy.Session.Count.{
  IsCounted, change-IsCounted, set_mapping-IsCounted, delete_mapping-IsCounted,
}
use gotaxy.Server.{GotaxyServer}
use gotaxy.Control.Inv.{IsManaged}
use gotaxy.Control.Sync.{mapping_of-view}
use gotaxy.Relay.Inv.{IsRelayed}
use gotaxy.System.{Event, run}
use gotaxy.System.Inv.{run_inv, always_allowed}

write-IsCounted :
    {m : Manager} (r : Ref) (f : Mapping → Mapping) → IsCounted m → IsCounted (write m r f)
unfolding write
write-IsCounted r f v = record { keyed = v.keyed; counted = v.counted }

added-IsCounted :
    (m : Manager) (k port target : String) (enable : _) (traffic limit : Int64)
    → get_mapping m k ≡ none
    → IsCounted m
    → IsCounted (set_mapping m k port target enable traffic limit)
unfolding get_mapping
added-IsCounted m k port target enable traffic limit new v =
    set_mapping-IsCounted k port target enable traffic limit new v

IsCounted-IsManaged : IsManaged IsCounted
unfolding update_enable update_mapping add_traffic
IsCounted-IsManaged = record {
  enabled = λ m k enable v. change-IsCounted k _ v;
  opened = λ m r ctx c v. write-IsCounted r _ v;
  added = added-IsCounted;
  deleted = λ m k r x old idle v. delete_mapping-IsCounted k r (mapping_of-view m k r x old).0 v;
  updated = λ m k port target limit r x old idle v. change-IsCounted k _ v;
  counted = λ m k bytes v. change-IsCounted k _ v;
}

IsCounted-IsRelayed : IsRelayed IsCounted (λ r. Unit)
unfolding set_session remove_session
IsCounted-IsRelayed = record {
  opened = λ m r ctx c v. write-IsCounted r _ v;
  joined = λ m id session v. record { keyed = v.keyed; counted = v.counted };
  left = λ m id v. record { keyed = v.keyed; counted = v.counted };
  active = λ m r v. write-IsCounted r _ v;
  inactive = λ m r _ v. write-IsCounted r _ v;
}

module _ {Db : Type 0} (engine : Engine Db) where
  -- Whatever the server serves, and whatever of it the database refuses: if `totalConns` is the
  -- number of names in the table, modulo 2 ^ 64, it stays so.
  pub run-IsCounted :
      (s : GotaxyServer Db) (events : List Event)
      → IsCounted s.sessions
      → IsCounted (run engine s events).sessions
  run-IsCounted s events v =
      run_inv engine IsCounted IsCounted-IsManaged (λ r. Unit) IsCounted-IsRelayed s events
        (always_allowed events) v
