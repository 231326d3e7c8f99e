-- ===== src/Examples/Races.antt =====
-- Requests for one rule that are served at the same time.
use gotaxy.Prelude.{
  zero, suc, arith, ℕ, ◌≡◌, ◌≢◌, refl, ◌+◌, ◌%◌, ◌^◌, true, false, some, List, [], ◌∷◌, All, length,
  map,
}
use gotaxy.Prelude.Dict.{lookup, insert}
use gotaxy.Int64.{add64}
use gotaxy.Session.{
  Mapping, get_mapping, read, set_mapping, add_traffic, change, modify, new_mapping, write,
}
use gotaxy.Session.View.{IsLinked}
use gotaxy.Session.Count.{IsCounted, new_manager-IsCounted, set_mapping-IsCounted, change-IsCounted}
use gotaxy.Session.Refinement.{call, calls}
use gotaxy.Storage.Memory.{memory}
use gotaxy.Web.Mappings.Races.{
  Request, toggle, add, update, delete, begins, forgets, panicked, answered, interleave,
}
use gotaxy.Web.Mappings.Races.Panics.{interleave-IsLinked}
use gotaxy.Web.Mappings.Races.Deletions.{interleave-panicked, interleave-miscounted}
use mathlib.Core.Option
use gotaxy.Web.Mappings.Races.Synced.{is_finished}
use gotaxy.Web.Mappings.Races.Turns.{IsFair, turns_of}
use gotaxy.Web.Mappings.Races.Settled.{interleave-settled}
use gotaxy.Web.Mappings.Races.Rewrites.{rule_of_req, interleave-stale}
use gotaxy.Control.Sync.{IsSynced, rule_of}
use gotaxy.Storage.Rules.{durable}
use gotaxy.Session.View.{view}
use gotaxy.Utils.{is_validate_addr}
use gotaxy.Web.{rejected, status_ok}
use gotaxy.Web.Mappings.{MappingRequest}
use gotaxy.Storage.Memory.{memory-IsSql, memory-IsReliable, tables}
use gotaxy.Examples.{web_server-IsSynced, web_manager, web_manager-IsLinked, web_server}

abbrev switching : Request
switching = toggle (record { name = "web"; enable = true })

abbrev requests : List Request
requests =
    switching
    ∷ update (record {
      name = "web";
      public_port = "8081";
      target_addr = "127.0.0.1:81";
      rate_limit = 1000;
    })
    ∷ add (record {
      name = "db";
      public_port = "3306";
      target_addr = "127.0.0.1:3306";
      rate_limit = 0;
    })
    ∷ toggle (record { name = "web"; enable = false })
    ∷ []

abbrev schedule : List ℕ
schedule = 1 ∷ 0 ∷ 2 ∷ 0 ∷ 1 ∷ 3 ∷ 2 ∷ 1 ∷ 0 ∷ 3 ∷ 2 ∷ 0 ∷ 1 ∷ 3 ∷ []

interleave-IsLinked_example :
    let (s', pool) = interleave memory schedule (web_server true, map begins requests) in
    IsLinked s'.sessions × All (λ p. p ≢ panicked) pool
interleave-IsLinked_example =
    interleave-IsLinked memory requests schedule (web_server true)
      (refl, (refl, (refl, (refl, tt)))) web_manager-IsLinked

abbrev web_mapping : Mapping
web_mapping = record (new_mapping "web" "8080" "127.0.0.1:80" true 0 2097152) { traffic = 300 }

found : get_mapping web_manager "web" ≡ some 0
unfolding calls call set_mapping add_traffic change insert lookup get_mapping write
found = refl

seen : read web_manager 0 ≡ some web_mapping
unfolding calls call set_mapping add_traffic change insert lookup write modify add64
seen = refl

web_manager-IsCounted : IsCounted web_manager
unfolding calls call add_traffic lookup
web_manager-IsCounted =
    change-IsCounted "web" _
      (set_mapping-IsCounted "web" "8080" "127.0.0.1:80" true 0 2097152 refl new_manager-IsCounted)

interleave-panicked_example :
    (interleave memory
      (0 ∷ 1 ∷ 1 ∷ 0 ∷ 1 ∷ 0 ∷ [])
      (web_server true, begins switching ∷ begins (delete "web") ∷ [])).1
    ≡ panicked ∷ forgets "web" ∷ []
interleave-panicked_example =
    interleave-panicked memory "web" 0 web_mapping (web_server true) found seen refl refl

interleave-miscounted_example :
    let (s', pool) =
      interleave memory
        (0 ∷ 1 ∷ 0 ∷ 1 ∷ 0 ∷ 1 ∷ [])
        (web_server true, begins (delete "web") ∷ begins (delete "web") ∷ []) in
    (pool ≡ forgets "web" ∷ forgets "web" ∷ [])
    × ((s'.sessions.total_conns + 1) % 2 ^ 64 ≡ length s'.sessions.table % 2 ^ 64)
interleave-miscounted_example =
    interleave-miscounted memory "web" 0 web_mapping (web_server true) found seen refl
      web_manager-IsCounted

abbrev additions : List Request
additions =
    switching
    ∷ add (record {
      name = "db";
      public_port = "3306";
      target_addr = "127.0.0.1:3306";
      rate_limit = 0;
    })
    ∷ add (record {
      name = "db";
      public_port = "5432";
      target_addr = "127.0.0.1:5432";
      rate_limit = 0;
    })
    ∷ []

abbrev rounds : List ℕ
rounds = 1 ∷ 2 ∷ 0 ∷ 2 ∷ 1 ∷ 1 ∷ 2 ∷ 0 ∷ 0 ∷ 2 ∷ 1 ∷ 0 ∷ []

rounds-IsFair : IsFair additions rounds
unfolding turns_of
rounds-IsFair zero h = omega arith
rounds-IsFair (suc zero) h = omega arith
rounds-IsFair (suc (suc zero)) h = omega arith
rounds-IsFair (suc (suc (suc i))) h = absurd (omega (arith, h))

interleave-settled_example :
    let (s', pool) = interleave memory rounds (web_server true, map begins additions) in
    All (λ p. is_finished p ≡ true) pool
    × IsSynced s'.sessions (tables s'.db)
    × IsCounted s'.sessions
interleave-settled_example =
    interleave-settled memory tables memory-IsSql additions rounds (web_server true)
      (refl, (refl, (refl, tt))) rounds-IsFair web_server-IsSynced web_manager-IsCounted

abbrev first : MappingRequest
first = record {
  name = "web";
  public_port = "8081";
  target_addr = "127.0.0.1:81";
  rate_limit = 1000;
}

abbrev second : MappingRequest
second = record first { target_addr = "127.0.0.1:82" }

first-passes : rejected is_validate_addr first.target_addr ≡ false
unfolding is_validate_addr
first-passes = refl

second-passes : rejected is_validate_addr second.target_addr ≡ false
unfolding is_validate_addr
second-passes = refl

interleave-stale_example :
    let (s', pool) =
      interleave memory
        (0 ∷ 0 ∷ 1 ∷ 1 ∷ 0 ∷ 1 ∷ 1 ∷ 0 ∷ [])
        (web_server true, begins (update first) ∷ begins (update second) ∷ []) in
    (pool ≡ answered status_ok ∷ answered status_ok ∷ [])
    × (Option.map rule_of (view s'.sessions "web") ≡ some (rule_of_req first))
    × (durable (tables s'.db) "web" ≡ some (rule_of_req second))
interleave-stale_example =
    interleave-stale memory tables memory-IsSql memory-IsReliable (web_server true) first second 0
      web_mapping refl found seen refl first-passes second-passes web_server-IsSynced
