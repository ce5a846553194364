-- ===== src/Sessions.antt =====
-- Sessions of the relay (relay_vless.py: `_run_vless_session`). Each runs from one wait to the next,
-- and between two waits of a session come those of others: an event is one such stretch.
pub mod Addresses
pub mod Moves
pub mod Limit
pub mod Tracked
pub mod Chosen
pub mod FailClosed
use lumen_project_final.Prelude.{
  ℕ, ◌+◌, String, Bool, true, false, not, Option, none, some, List, [], ◌∷◌, if◌then◌else◌,
}
use lumen_project_final.Prelude.Eq.{◌==◌, string_eq}
use lumen_project_final.Prelude.Dict.{Dict, get, put, remove}
use lumen_project_final.Panel.{Link, Sub, Services}
use lumen_project_final.Panel.Access.{
  Connection, Traffic, is_link_allowed, is_ip_allowed, check_and_use,
}
use lumen_project_final.Vless.{
  VlessHeader, Collected, got, waiting, bad_version, too_large, disconnected, timed_out,
}
use lumen_project_final.Exits.{
  World, Selection, Resolved, unavailable, chosen, resolve_exit_selection,
}
use lumen_project_final.Outbound.{Health, Opened, direct, via, open_outbound}

-- What a session waits for: its header, its exit, the dial by at most one endpoint, or the end.
pub data Phase : Type 0 where
  reading : Phase
  routing : VlessHeader → Phase
  dialing : VlessHeader → List String → Phase
  relaying : Opened → Phase

-- A running session; `link` is its config at the start.
pub record Session : Type 0 where
  pub uuid : String
  pub link : Option Link
  pub location_id : String
  pub phase : Phase

-- `connections` and `sessions` go by the random `conn_id`.
pub record Node : Type 0 where
  pub traffic : Traffic
  pub connections : Dict String Connection
  pub sessions : Dict String Session
  pub health : Health
  pub total_requests : ℕ
  pub total_errors : ℕ

-- The reasons of `io.close`
pub data Closed : Type 0 where
  not_authorized ip_limit_reached quota_or_disabled proxy_unavailable : Closed

abbrev pub values : Dict String Connection → List Connection
values [] = []
values ((k, c) ∷ m) = c ∷ values m

-- The `finally` of a session
unfoldable pub leave : String → Node → Node
leave conn_id n = record n {
  connections = remove conn_id n.connections;
  sessions = remove conn_id n.sessions;
}

unfoldable pub fail : String → Node → Node
unfolding leave
fail conn_id n = leave conn_id (record n { total_errors = n.total_errors + 1 })

unfoldable pub enter : String → Connection → Session → Node → Node
enter conn_id c s n = record n {
  connections = put conn_id c n.connections;
  sessions = put conn_id s n.sessions;
}

unfoldable pub arrive :
    Services → Dict String Sub → ℕ → String → String → String → String → Node → Option Closed × Node
unfolding enter
arrive e subs now conn_id uuid ip location_id n =
    let link = get uuid n.traffic.links in
    if not (is_link_allowed e link subs now)
    then (some not_authorized, n)
    else if not (is_ip_allowed link uuid ip (values n.connections))
    then (some ip_limit_reached, n)
    else (
      none,
      enter conn_id
          (record { uuid = uuid; ip = ip; bytes = 0; proxy_id = none; location_id = none })
          (record { uuid = uuid; link = link; location_id = location_id; phase = reading }) n,
    )

unfoldable pub on_connection :
    (Connection → Connection)
    → Option Connection
    → String
    → Dict String Connection
    → Dict String Connection
on_connection f none conn_id m = m
on_connection f (some c) conn_id m = put conn_id (f c) m

-- The session goes on to another phase, with a note on its connection if that is still there.
unfoldable pub go_to : String → Session → Phase → (Connection → Connection) → Node → Node
unfolding on_connection
go_to conn_id s phase f n = record n {
  connections = on_connection f (get conn_id n.connections) conn_id n.connections;
  sessions = put conn_id (record s { phase = phase }) n.sessions;
}

abbrev pub add_bytes : ℕ → Connection → Connection
add_bytes size c = record c { bytes = c.bytes + size }

unfoldable pub charged :
    String → Session → VlessHeader → ℕ → Bool × Traffic → Node → Option Closed × Node
unfolding leave go_to
charged conn_id s h size (false, t) n =
    (some quota_or_disabled, leave conn_id (record n { traffic = t }))
charged conn_id s h size (true, t) n = (
  none,
  go_to conn_id s (routing h) (add_bytes size)
      (record n { traffic = t; total_requests = n.total_requests + 1 }),
)

-- What the collection of the header came to
unfoldable pub header_read :
    Services → Dict String Sub → ℕ → ℕ → String → Session → Collected → Node → Option Closed × Node
unfolding charged fail leave
header_read e subs now hour conn_id s (got h size uuid) n =
    charged conn_id s h size (check_and_use e subs s.uuid size now hour n.traffic) n
header_read e subs now hour conn_id s (waiting buffer) n = (none, n)
header_read e subs now hour conn_id s disconnected n = (none, leave conn_id n)
header_read e subs now hour conn_id s timed_out n = (none, fail conn_id n)
header_read e subs now hour conn_id s bad_version n = (none, fail conn_id n)
header_read e subs now hour conn_id s too_large n = (none, fail conn_id n)

abbrev pub exit_endpoints : Option Selection → List String
exit_endpoints none = []
exit_endpoints (some s) = s.endpoint ∷ []

-- `selected_proxy_id or None`
abbrev pub proxy_of : Option Selection → Option String
proxy_of none = none
proxy_of (some s) = if s.proxy_id == "" then none else some s.proxy_id

abbrev pub location_of : Option Selection → Option String
location_of none = none
location_of (some s) = s.location_id

unfoldable pub route : String → Session → VlessHeader → Resolved → Node → Option Closed × Node
unfolding fail go_to
route conn_id s h (unavailable reason) n = (some proxy_unavailable, fail conn_id n)
route conn_id s h (chosen o) n = (
  none,
  go_to conn_id s (dialing h (exit_endpoints o))
      (λ c. record c { proxy_id = proxy_of o; location_id = location_of o }) n,
)

-- What the dial came to: a connection is relayed, all else is an error.
unfoldable pub dial : String → Session → Opened × Health → Node → Option Closed × Node
unfolding fail go_to
dial conn_id s (direct, health) n =
    (none, go_to conn_id s (relaying direct) (λ c. c) (record n { health = health }))
dial conn_id s (via endpoint, health) n =
    (none, go_to conn_id s (relaying (via endpoint)) (λ c. c) (record n { health = health }))
dial conn_id s (refused, health) n = (none, fail conn_id (record n { health = health }))

pub data Event : Type 0 where
  arrives : (conn_id uuid ip location_id : String) → (now : ℕ) → Event
  collects : (conn_id : String) → Collected → (now hour : ℕ) → Event
  routes : (conn_id : String) → World → (migration_required : Bool) → Event
  dials : (conn_id : String) → World → (reached : Bool) → (now : ℕ) → Event
  ends : (conn_id : String) → (with_error : Bool) → Event

-- One stretch of a session: only what it waits for moves it, but an error, a cancellation or, once
-- it relays, the end of the stream may come at any wait.
unfoldable pub advance :
    Services → Dict String Sub → Event → String → Session → Phase → Node → Option Closed × Node
unfolding header_read route dial fail leave
advance e subs (collects _ m now hour) conn_id s reading n =
    header_read e subs now hour conn_id s m n
advance e subs (routes _ w migration_required) conn_id s (routing h) n =
    route conn_id s h (resolve_exit_selection w migration_required s.link subs s.location_id) n
advance e subs (dials _ w reached now) conn_id s (dialing h endpoints) n =
    dial conn_id s (open_outbound w none (some endpoints) reached now n.health) n
advance e subs (ends _ with_error) conn_id s phase n =
    if with_error then (none, fail conn_id n) else (none, leave conn_id n)
advance e subs event conn_id s phase n = (none, n)

unfoldable pub with_session :
    Services → Dict String Sub → Event → String → Option Session → Node → Option Closed × Node
unfolding advance
with_session e subs event conn_id none n = (none, n)
with_session e subs event conn_id (some s) n = advance e subs event conn_id s s.phase n

unfoldable pub step : Services → Dict String Sub → Event → Node → Option Closed × Node
unfolding arrive with_session
step e subs (arrives conn_id uuid ip location_id now) n =
    arrive e subs now conn_id uuid ip location_id n
step e subs (collects conn_id m now hour) n =
    with_session e subs (collects conn_id m now hour) conn_id (get conn_id n.sessions) n
step e subs (routes conn_id w required) n =
    with_session e subs (routes conn_id w required) conn_id (get conn_id n.sessions) n
step e subs (dials conn_id w reached now) n =
    with_session e subs (dials conn_id w reached now) conn_id (get conn_id n.sessions) n
step e subs (ends conn_id with_error) n =
    with_session e subs (ends conn_id with_error) conn_id (get conn_id n.sessions) n

unfoldable pub run : Services → Dict String Sub → List Event → Node → Node
unfolding step
run e subs [] n = n
run e subs (event ∷ events) n = run e subs events (step e subs event n).1
