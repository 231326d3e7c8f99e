-- ===== src/Examples/Listeners.antt =====
-- The theorems on the listeners and on a server from its start on, for the rule `web`.
use gotaxy.Prelude.{
  ◌+◌, ◌%◌, ◌^◌, ◌≡◌, refl, true, false, some, List, [], ◌∷◌, ◌++◌, arith, length, if◌then◌else◌,
}
use gotaxy.Prelude.Dict.{lookup, insert}
use gotaxy.Int64.{add64}
use gotaxy.Context.{done}
use gotaxy.Utils.{is_validate_addr}
use gotaxy.Session.{
  Mapping, Manager, read, write, modify, change, set_mapping, add_traffic, new_mapping, get_mapping,
  set_session, get_default_session,
}
use gotaxy.Session.View.{view}
use gotaxy.Session.Refinement.{call, calls}
use gotaxy.Storage.Memory.{Memory, tables, memory, memory-IsSql, memory-IsReliable}
use gotaxy.Server.{GotaxyServer, persist}
use gotaxy.Control.{mapping_of}
use gotaxy.Shell.Terminal.{line}
use gotaxy.Shell.Mappings.{handle_mapping}
use gotaxy.Shell.Mappings.Stopping.{handle_mapping-ends, handle_mapping-leaves}
use gotaxy.Wire.{Bytes, encode}
use gotaxy.Client.{handle_stream, forwards, closed}
use gotaxy.Client.Protocol.{joined}
use gotaxy.Proxy.{
  unaccepted, accepted, carries, ends, listener_round, carry, stream_header, Turn,
  rate_limited_proxy,
}
use gotaxy.Prelude.{◌<◌}
use gotaxy.Storage.Sql.{Row}
use gotaxy.Wire.{whole, part}
use gotaxy.Proxy.Copying.{handled, unreported, rate_limited_proxy-counted}
use gotaxy.Relay.{gives_up, unlistens}
use gotaxy.Relay.Held.{IsHeld}
use gotaxy.System.{Event, terminal, api_mappings_delete, tunnel, start_up, run}
use gotaxy.System.Held.{run-IsHeld}
use gotaxy.System.Restart.{IsRestored, restart-IsRestored}
use gotaxy.System.Forwarding.{listener_round-forwarded}
use gotaxy.Examples.{
  web_server-IsSynced, web_manager, web_manager-IsLinked, web_manager-IsMap, web_server, all_files,
}

-- The rule `web` with a listener, in a running server with a client.
abbrev web_mapping : Mapping
web_mapping = record (new_mapping "web" "8080" "127.0.0.1:80" true 0 2097152) {
  traffic = 300;
  status = "active";
  ctx = some (1 ∷ 0 ∷ []);
  ctx_cancel = some 1;
}

abbrev listening_manager : Manager
listening_manager = set_session (write web_manager 0 (λ x. web_mapping)) "a" 7

abbrev listening : GotaxyServer Memory
listening = record (web_server true) {
  contexts = record { next = 2; cancelled = [] };
  sessions = listening_manager;
}

listening-mapping_of : mapping_of listening_manager "web" ≡ some (0, web_mapping)
unfolding get_mapping set_session write modify calls call set_mapping add_traffic change insert
    lookup add64
listening-mapping_of = refl

handle_mapping-ends_example :
    let stopped = (handle_mapping memory ("stop" ∷ "web" ∷ []) listening).0 in
    (listener_round (0 ∷ []) 0 "127.0.0.1:80" stopped (accepted true true) stopped ≡ ends true)
    × (listener_round (0 ∷ []) 0 "127.0.0.1:80" listening unaccepted stopped ≡ ends false)
handle_mapping-ends_example =
    handle_mapping-ends memory "web" listening 0 web_mapping 1 (0 ∷ []) (0 ∷ []) "127.0.0.1:80"
      (accepted true true) (handle_mapping memory ("stop" ∷ "web" ∷ []) listening).0
      listening-mapping_of refl refl refl refl

handle_mapping-leaves_example :
    let started = (handle_mapping memory ("start" ∷ "web" ∷ []) listening).0 in
    let stopped = (handle_mapping memory ("stop" ∷ "web" ∷ []) started).0 in
    (done stopped.contexts (1 ∷ 0 ∷ []) ≡ done listening.contexts (1 ∷ 0 ∷ []))
    × (y : Mapping) × (read stopped.sessions 0 ≡ some y)
    × (y.enable ≡ false)
handle_mapping-leaves_example =
    handle_mapping-leaves memory "web" listening 0 web_mapping (1 ∷ 0 ∷ []) listening-mapping_of
      refl (omega arith, (omega arith, tt))

listening-IsHeld : IsHeld 0 web_mapping listening_manager
unfolding set_session write modify calls call set_mapping add_traffic change insert lookup add64
listening-IsHeld = record {
  now = web_mapping;
  found = refl;
  named = refl;
  active = refl;
  port = refl;
  target = refl;
  limit = refl;
}

abbrev held_events : List Event
held_events =
    terminal all_files (line "mapping del web")
    ∷ api_mappings_delete (some "web")
    ∷ tunnel (gives_up 9 "a" 7)
    ∷ tunnel (unlistens 3)
    ∷ terminal all_files (line "mapping stop web")
    ∷ []

run-IsHeld_example : IsHeld 0 web_mapping (run memory listening held_events).sessions
run-IsHeld_example =
    run-IsHeld memory 0 web_mapping listening held_events (tt, (tt, (tt, (refl, (tt, tt)))))
      listening-IsHeld

listening-round :
    listener_round (0 ∷ []) 0 "127.0.0.1:80" listening (accepted true true) listening
    ≡ carries 7 (stream_header "127.0.0.1:80")
unfolding listener_round carry get_default_session get_mapping set_session write modify calls call
    set_mapping add_traffic change insert lookup add64
listening-round = refl

abbrev header_chunks : List Bytes
header_chunks = (stream_header "127.0.0.1:80" ++ (1 ∷ [])) ∷ (2 ∷ 3 ∷ []) ∷ []

joined-header_chunks : joined header_chunks ≡ stream_header "127.0.0.1:80" ++ (1 ∷ 2 ∷ 3 ∷ [])
unfolding stream_header encode gotaxy.Wire.encode_runes gotaxy.Wire.encode_rune
joined-header_chunks = refl

target-valid : is_validate_addr "127.0.0.1:80" ≡ true
unfolding is_validate_addr
target-valid = refl

listener_round-forwarded_example :
    (get_default_session listening.sessions ≡ some 7)
    × (first : List Bytes) × (last : Bytes) × (left : List Bytes) × (header_chunks
        ≡ first ++ last ∷ left)
    × (length (joined first) < length (stream_header "127.0.0.1:80"))
    × (lost : Bytes) × (1 ∷ 2 ∷ 3 ∷ [] ≡ lost ++ joined left)
    × (handle_stream (λ t. true) header_chunks
        ≡ (if true then forwards (encode "127.0.0.1:80") left else closed []))
listener_round-forwarded_example =
    listener_round-forwarded (0 ∷ []) 0 "127.0.0.1:80" listening listening (accepted true true) 7
      (stream_header "127.0.0.1:80") (1 ∷ 2 ∷ 3 ∷ []) (λ t. true) header_chunks listening-round
      target-valid joined-header_chunks

abbrev two_turns : List Turn
two_turns =
    record { ended = false; read = some (5 ∷ 6 ∷ []); waits = true; writes = whole }
    ∷ record { ended = false; read = some (7 ∷ 8 ∷ 9 ∷ []); waits = true; writes = part 1 }
    ∷ []

abbrev web_counted : Mapping
web_counted = record (new_mapping "web" "8080" "127.0.0.1:80" true 0 2097152) { traffic = 300 }

view-counted : view web_manager "web" ≡ some web_counted
unfolding view calls call set_mapping add_traffic change insert lookup modify add64
view-counted = refl

rate_limited_proxy-counted_example :
    let copied = rate_limited_proxy (some web_mapping) two_turns in
    let later = handled (web_server true) copied.published in
    let missed = length (unreported two_turns) in
    ((later.config.total_traffic + missed) % 2 ^ 64 ≡ (1000 + length copied.written) % 2 ^ 64)
    × (new : Mapping) × (view later.sessions "web" ≡ some new)
    × ((new.traffic + missed) % 2 ^ 64 ≡ (web_counted.traffic + length copied.written) % 2 ^ 64)
rate_limited_proxy-counted_example =
    rate_limited_proxy-counted web_mapping web_counted two_turns (web_server true)
      web_manager-IsLinked view-counted

restart-IsRestored_example :
    (r : Row) × (lookup (tables (web_server true).db).mapping "web" ≡ some r)
    × (y : Mapping) × (view (start_up memory (persist memory (web_server true)).db).sessions "web"
        ≡ some y)
    × IsRestored r web_counted y
restart-IsRestored_example =
    restart-IsRestored memory tables memory-IsSql memory-IsReliable (web_server true) "700" "web"
      web_counted web_manager-IsMap web_server-IsSynced (omega arith) (unfold lookup in refl)
      view-counted
