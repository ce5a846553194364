-- ===== src/Sessions/Tracked.antt =====
-- The table of connections and the running sessions (relay_vless.py: `_run_vless_session`).
use lumen_project_final.Prelude.{Bool, ◌≡◌, refl, String, Option, none, some, List, [], ◌∷◌, arith}
use lumen_project_final.Prelude.Eq.{string_eq, ==_iff}
use lumen_project_final.Prelude.Dict.{Dict, get, get-put, get-remove}
use lumen_project_final.Panel.{Sub, Services}
use lumen_project_final.Panel.Access.{Connection}
use lumen_project_final.Exits.{World}
use lumen_project_final.Sessions.{
  Phase, Session, Node, leave, enter, go_to, on_connection, Event, step, run,
}
use lumen_project_final.Sessions.Moves.{
  IsLike, KeepsPlace, Move, stays, enters, leaves, goes, Any, Reads-Any, conn_of, step-Move,
}

abbrev pub config_of : Option Connection → Option String
config_of none = none
config_of (some c) = some c.uuid

abbrev pub session_config : Option Session → Option String
session_config none = none
session_config (some s) = some s.uuid

-- Each connection of the table is that of a running session, of the same config, and each running
-- session has one.
unfoldable pub IsTracked : Node → Type 0
IsTracked n =
    (conn_id : String)
    → config_of (get conn_id n.connections) ≡ session_config (get conn_id n.sessions)

enter-IsTracked :
    (conn_id : String) (c : Connection) (s : Session) (n : Node)
    → s.uuid ≡ c.uuid
    → IsTracked n
    → IsTracked (enter conn_id c s n)
unfolding IsTracked enter
enter-IsTracked conn_id c s n same v j =
    ground (arith, get-put conn_id j c n.connections, get-put conn_id j s n.sessions, same, v j)

leave-IsTracked :
    (conn_id : String) (n m : Node) → IsLike n m → IsTracked n → IsTracked (leave conn_id m)
unfolding IsTracked leave
leave-IsTracked conn_id n m like v j =
    rw (like.connections, like.sessions)
      (ground (arith, get-remove conn_id j n.connections, get-remove conn_id j n.sessions, v j))

on_connection-config_of :
    (f : Connection → Connection) (o : Option Connection) (conn_id j : String)
    (m : Dict String Connection)
    → get conn_id m ≡ o
    → KeepsPlace f
    → config_of (get j (on_connection f o conn_id m)) ≡ config_of (get j m)
unfolding on_connection
on_connection-config_of f none conn_id j m found keeps = refl
on_connection-config_of f (some c) conn_id j m found keeps =
    ground (arith, get-put conn_id j (f c) m, (keeps c).0, found, ==_iff conn_id j)

go_to-IsTracked :
    (conn_id : String) (s : Session) (phase : Phase) (f : Connection → Connection) (n m : Node)
    → IsLike n m
    → get conn_id n.sessions ≡ some s
    → KeepsPlace f
    → IsTracked n
    → IsTracked (go_to conn_id s phase f m)
unfolding IsTracked go_to
go_to-IsTracked conn_id s phase f n m like found keeps v j =
    let now : Session = record s { phase = phase } in
    rw (like.connections, like.sessions)
      (ground (
        arith,
        on_connection-config_of f (get conn_id n.connections) conn_id j n.connections refl keeps,
        get-put conn_id j now n.sessions,
        found,
        v j,
        ==_iff conn_id j,
      ))

Move-IsTracked :
    (Q : String → World → Bool → Type 0) (subs : Dict String Sub) (n : Node) {m : Node}
    → Move Q subs n m
    → IsTracked n
    → IsTracked m
Move-IsTracked Q subs n stays v = v
Move-IsTracked Q subs n (enters conn_id ip c s link known allowed u p) v =
    enter-IsTracked conn_id c s n u v
Move-IsTracked Q subs n (leaves conn_id m like) v = leave-IsTracked conn_id n m like v
Move-IsTracked Q subs n (goes conn_id s phase f m like found keeps next) v =
    go_to-IsTracked conn_id s phase f n m like found keeps v

-- From a node where it holds, as one without connections and sessions, whatever sessions arrive,
-- read, dial and end, in whatever order and with whatever errors, each connection of the table is
-- that of a running session of the same config, and each running session has one.
pub run-IsTracked :
    (e : Services) (subs : Dict String Sub) (events : List Event) (n : Node)
    → IsTracked n
    → IsTracked (run e subs events n)
unfolding run
run-IsTracked e subs [] n v = v
run-IsTracked e subs (event ∷ events) n v =
    run-IsTracked e subs events (step e subs event n).1
      (Move-IsTracked Any subs n (step-Move Any e subs event n (Reads-Any (conn_of event) event)) v)
