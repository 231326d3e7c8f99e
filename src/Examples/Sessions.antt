-- ===== src/Examples/Sessions.antt =====
-- The theorems on the manager, for histories of calls and of clients.
use gotaxy.Prelude.{◌≡◌, refl, true, none, List, [], ◌∷◌}
use gotaxy.Session.{new_manager, get_default_session}
use gotaxy.Session.View.{view, new_manager-IsLinked}
use gotaxy.Session.Refinement.{
  Call, sets, deletes, marks, rewrites, adds, calls, meanings, calls-meanings,
}
use gotaxy.Session.Clients.{ClientEvent, connects, leaves, after, get_default_session-latest}
use gotaxy.Examples.{word}

abbrev history : List Call
history =
    sets "web" "8080" "127.0.0.1:80" true 0 2097152
    ∷ sets "db" "3306" "127.0.0.1:3306" true 0 1000
    ∷ adds "web" 300
    ∷ marks "db" "active"
    ∷ rewrites "web" "8081" "127.0.0.1:81" 1000
    ∷ deletes "db"
    ∷ []

calls-meanings_example :
    view (calls new_manager history) "web" ≡ meanings (view new_manager) history "web"
calls-meanings_example = calls-meanings history "web" new_manager-IsLinked

-- The newest event first: the second of two clients has left.
abbrev clients : List ClientEvent
clients = leaves "b" ∷ connects "b" 2 ∷ connects "a" 1 ∷ []

get_default_session-latest_example : get_default_session (after clients) ≡ none
get_default_session-latest_example =
    get_default_session-latest clients (tt, (word "b" refl, (word "a" refl, tt)))
