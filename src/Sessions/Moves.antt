-- ===== src/Sessions/Moves.antt =====
-- What one event does to the sessions of the relay (relay_vless.py: `_run_vless_session`), apart from
-- the counters.
use lumen_project_final.Prelude.{
  ℕ, ◌+◌, ◌≡◌, refl, ap, String, Bool, true, false, not, Option, none, some, List, arith,
  Bool-cases, inl, inr, if_cases, nat_eqb,
}
use lumen_project_final.Prelude.Eq.{◌==◌, string_eq, ==_iff}
use lumen_project_final.Prelude.Dict.{Dict, get, get-put}
use lumen_project_final.Panel.{Link, Sub, Services}
use lumen_project_final.Panel.Access.{
  Connection, Traffic, is_link_allowed, is_ip_allowed, check_and_use, charge,
}
use lumen_project_final.Vless.{
  VlessHeader, Collected, got, waiting, bad_version, too_large, disconnected, timed_out,
}
use lumen_project_final.Exits.{
  World, Selection, Resolved, unavailable, chosen, resolve_exit_selection,
}
use lumen_project_final.Outbound.{
  Health, Opened, direct, via, too_many, unreachable, failed_closed, open_outbound,
}
use lumen_project_final.Sessions.{
  Phase, reading, routing, dialing, relaying, Session, Node, Closed, values, leave, fail, enter,
  arrive, go_to, charged, header_read, exit_endpoints, route, dial, Event, arrives, collects,
  routes, dials, ends, advance, with_session, step, add_bytes,
}

-- No config's limit has changed.
abbrev pub SameLimits : Dict String Link → Dict String Link → Type 0
SameLimits before after =
    (uuid : String) (link : Link)
    → get uuid after ≡ some link
    → (old : Link) × (get uuid before ≡ some old) × (old.ip_limit ≡ link.ip_limit)

-- The same connections, sessions and limits: only counters differ.
pub record IsLike (n m : Node) : Type 0 where
  pub connections : m.connections ≡ n.connections
  pub sessions : m.sessions ≡ n.sessions
  pub limits : SameLimits n.traffic.links m.traffic.links

-- A change of a connection keeps its config and its address.
abbrev pub KeepsPlace : (Connection → Connection) → Type 0
KeepsPlace f = (c : Connection) → ((f c).uuid ≡ c.uuid) × ((f c).ip ≡ c.ip)

-- How a session comes to its next phase
abbrev pub Next :
    (String → World → Bool → Type 0) → Dict String Sub → String → Session → Phase → Type 0
Next Q subs conn_id s reading = ⊥
Next Q subs conn_id s (routing h) = Unit {0}
Next Q subs conn_id s (dialing h endpoints) =
    (w : World) × (required : Bool) × (o : Option Selection) × Q conn_id w required
    × (resolve_exit_selection w required s.link subs s.location_id ≡ chosen o)
    × (endpoints ≡ exit_endpoints o)
Next Q subs conn_id s (relaying opened) =
    (h : VlessHeader) × (endpoints : List String) × (w : World) × (reached : Bool) × (now : ℕ)
    × (health : Health) × (s.phase ≡ dialing h endpoints)
    × ((open_outbound w none (some endpoints) reached now health).0 ≡ opened)

pub data Move (Q : String → World → Bool → Type 0) (subs : Dict String Sub) (n : Node)
    : Node → Type 0 where
  stays : Move Q subs n n
  enters :
      (conn_id ip : String) (c : Connection) (s : Session) (link : Link)
      → get c.uuid n.traffic.links ≡ some link
      → is_ip_allowed (some link) c.uuid c.ip (values n.connections) ≡ true
      → s.uuid ≡ c.uuid
      → s.phase ≡ reading
      → Move Q subs n (enter conn_id c s n)
  leaves : (conn_id : String) (m : Node) → IsLike n m → Move Q subs n (leave conn_id m)
  goes :
      (conn_id : String) (s : Session) (phase : Phase) (f : Connection → Connection) (m : Node)
      → IsLike n m
      → get conn_id n.sessions ≡ some s
      → KeepsPlace f
      → Next Q subs conn_id s phase
      → Move Q subs n (go_to conn_id s phase f m)

SameLimits-refl : (links : Dict String Link) → SameLimits links links
SameLimits-refl links uuid link h = (link, h, refl)

abbrev like :
    (n m : Node)
    → m.connections ≡ n.connections
    → m.sessions ≡ n.sessions
    → m.traffic.links ≡ n.traffic.links
    → IsLike n m
like n m c s t = record {
  connections = c;
  sessions = s;
  limits = λ uuid link h. (link, rw⁻¹ t h, refl);
}

charge-SameLimits :
    (o : Option Link) (uid : String) (nbytes hour : ℕ) (t : Traffic)
    → get uid t.links ≡ o
    → SameLimits t.links (charge o uid nbytes hour t).links
unfolding charge
charge-SameLimits none uid nbytes hour t e uuid link h = SameLimits-refl t.links uuid link h
charge-SameLimits (some old) uid nbytes hour t e uuid link h =
    let new : Link = record old { used_bytes = old.used_bytes + nbytes } in
    elim (Bool-cases (uid == uuid)) [
      | inl same ↦
          let d : new ≡ link = ground (arith, get-put uid uuid new t.links, h, same) in
          (old, ground (arith, e, same, ==_iff uid uuid), ap (λ l. l.ip_limit) d)
      | inr other ↦ (link, ground (arith, get-put uid uuid new t.links, h, other), refl)
    ]

check_and_use-SameLimits :
    (e : Services) (subs : Dict String Sub) (uid : String) (nbytes now hour : ℕ) (t : Traffic)
    → SameLimits t.links (check_and_use e subs uid nbytes now hour t).1.links
unfolding check_and_use
check_and_use-SameLimits e subs uid nbytes now hour t =
    if_cases (λ (r : Bool × Traffic). SameLimits t.links r.1.links) (nat_eqb nbytes 0)
      (λ z. SameLimits-refl t.links)
      (λ z.
        if_cases (λ (r : Bool × Traffic). SameLimits t.links r.1.links)
          (is_link_allowed e (get uid t.links) subs now)
          (λ a. charge-SameLimits (get uid t.links) uid nbytes hour t refl)
          (λ a. SameLimits-refl t.links))

header_read-Move :
    (Q : String → World → Bool → Type 0) (e : Services) (subs : Dict String Sub) (now hour : ℕ)
    (conn_id : String) (s : Session) (m : Collected) (n : Node)
    → get conn_id n.sessions ≡ some s
    → Move Q subs n (header_read e subs now hour conn_id s m n).1
unfolding header_read fail charged
header_read-Move Q e subs now hour conn_id s (got h size uuid) n found =
    charged_move (check_and_use e subs s.uuid size now hour n.traffic)
      (check_and_use-SameLimits e subs s.uuid size now hour n.traffic)
  where
    charged_move :
        (r : Bool × Traffic)
        → SameLimits n.traffic.links r.1.links
        → Move Q subs n (charged conn_id s h size r n).1
    charged_move (false, t) same =
        Move.leaves conn_id (record n { traffic = t })
          (record { connections = refl; sessions = refl; limits = same })
    charged_move (true, t) same =
        Move.goes conn_id s (routing h) (add_bytes size)
          (record n { traffic = t; total_requests = n.total_requests + 1 })
          (record { connections = refl; sessions = refl; limits = same }) found (λ c. (refl, refl))
          tt
header_read-Move Q e subs now hour conn_id s (waiting buffer) n found = Move.stays
header_read-Move Q e subs now hour conn_id s disconnected n found =
    Move.leaves conn_id n (like n n refl refl refl)
header_read-Move Q e subs now hour conn_id s timed_out n found =
    Move.leaves conn_id _ (like n _ refl refl refl)
header_read-Move Q e subs now hour conn_id s bad_version n found =
    Move.leaves conn_id _ (like n _ refl refl refl)
header_read-Move Q e subs now hour conn_id s too_large n found =
    Move.leaves conn_id _ (like n _ refl refl refl)

fail-Move :
    (Q : String → World → Bool → Type 0) (subs : Dict String Sub) (conn_id : String)
    (health : Health) (n : Node)
    → Move Q subs n (fail conn_id (record n { health = health }))
unfolding fail
fail-Move Q subs conn_id health n = Move.leaves conn_id _ (like n _ refl refl refl)

route-Move :
    (Q : String → World → Bool → Type 0) (subs : Dict String Sub) (w : World) (required : Bool)
    (conn_id : String) (s : Session) (h : VlessHeader) (r : Resolved) (n : Node)
    → get conn_id n.sessions ≡ some s
    → Q conn_id w required
    → resolve_exit_selection w required s.link subs s.location_id ≡ r
    → Move Q subs n (route conn_id s h r n).1
unfolding route
route-Move Q subs w required conn_id s h (unavailable reason) n found q e =
    fail-Move Q subs conn_id n.health n
route-Move Q subs w required conn_id s h (chosen o) n found q e =
    Move.goes conn_id s (dialing h (exit_endpoints o)) _ n (like n n refl refl refl) found
      (λ c. (refl, refl)) (w, required, o, q, e, refl)

dial-Move :
    (Q : String → World → Bool → Type 0) (subs : Dict String Sub) (conn_id : String) (s : Session)
    (n : Node) (r : Opened × Health)
    → get conn_id n.sessions ≡ some s
    → Next Q subs conn_id s (relaying r.0)
    → Move Q subs n (dial conn_id s r n).1
unfolding dial
dial-Move Q subs conn_id s n (direct, health) found next =
    Move.goes conn_id s (relaying direct) (λ c. c) (record n { health = health })
      (like n _ refl refl refl) found (λ c. (refl, refl)) next
dial-Move Q subs conn_id s n (via endpoint, health) found next =
    Move.goes conn_id s (relaying (via endpoint)) (λ c. c) (record n { health = health })
      (like n _ refl refl refl) found (λ c. (refl, refl)) next
dial-Move Q subs conn_id s n (Opened.unavailable, health) found next =
    fail-Move Q subs conn_id health n
dial-Move Q subs conn_id s n (too_many, health) found next = fail-Move Q subs conn_id health n
dial-Move Q subs conn_id s n (unreachable, health) found next = fail-Move Q subs conn_id health n
dial-Move Q subs conn_id s n (failed_closed endpoint, health) found next =
    fail-Move Q subs conn_id health n

-- The session whose stretch an event is
abbrev pub conn_of : Event → String
conn_of (arrives conn_id uuid ip location_id now) = conn_id
conn_of (collects conn_id m now hour) = conn_id
conn_of (routes conn_id w required) = conn_id
conn_of (dials conn_id w reached now) = conn_id
conn_of (ends conn_id with_error) = conn_id

-- What the resolution of a session reads is as `Q` says.
abbrev pub Reads : (String → World → Bool → Type 0) → String → Event → Type 0
Reads Q conn_id (arrives id uuid ip location_id now) = Unit {0}
Reads Q conn_id (collects id m now hour) = Unit {0}
Reads Q conn_id (routes id w required) = Q conn_id w required
Reads Q conn_id (dials id w reached now) = Unit {0}
Reads Q conn_id (ends id with_error) = Unit {0}

advance-Move :
    (Q : String → World → Bool → Type 0) (e : Services) (subs : Dict String Sub) (event : Event)
    (conn_id : String) (s : Session) (phase : Phase) (n : Node)
    → get conn_id n.sessions ≡ some s
    → s.phase ≡ phase
    → Reads Q conn_id event
    → Move Q subs n (advance e subs event conn_id s phase n).1
unfolding advance
advance-Move Q e subs (arrives id uuid ip location_id now) conn_id s phase n found p r = Move.stays
advance-Move Q e subs (collects id m now hour) conn_id s reading n found p r =
    header_read-Move Q e subs now hour conn_id s m n found
advance-Move Q e subs (collects id m now hour) conn_id s (routing h) n found p r = Move.stays
advance-Move Q e subs (collects id m now hour) conn_id s (dialing h endpoints) n found p r =
    Move.stays
advance-Move Q e subs (collects id m now hour) conn_id s (relaying o) n found p r = Move.stays
advance-Move Q e subs (routes id w required) conn_id s reading n found p r = Move.stays
advance-Move Q e subs (routes id w required) conn_id s (routing h) n found p r =
    route-Move Q subs w required conn_id s h _ n found r refl
advance-Move Q e subs (routes id w required) conn_id s (dialing h endpoints) n found p r =
    Move.stays
advance-Move Q e subs (routes id w required) conn_id s (relaying o) n found p r = Move.stays
advance-Move Q e subs (dials id w reached now) conn_id s reading n found p r = Move.stays
advance-Move Q e subs (dials id w reached now) conn_id s (routing h) n found p r = Move.stays
advance-Move Q e subs (dials id w reached now) conn_id s (dialing h endpoints) n found p r =
    dial-Move Q subs conn_id s n (open_outbound w none (some endpoints) reached now n.health) found
      (h, endpoints, w, reached, now, n.health, p, refl)
advance-Move Q e subs (dials id w reached now) conn_id s (relaying o) n found p r = Move.stays
advance-Move Q e subs (ends id with_error) conn_id s phase n found p r =
    if_cases (λ (r : Option Closed × Node). Move Q subs n r.1) with_error
      (λ k. fail-Move Q subs conn_id n.health n)
      (λ k. Move.leaves conn_id n (like n n refl refl refl))

with_session-Move :
    (Q : String → World → Bool → Type 0) (e : Services) (subs : Dict String Sub) (event : Event)
    (conn_id : String) (o : Option Session) (n : Node)
    → get conn_id n.sessions ≡ o
    → Reads Q conn_id event
    → Move Q subs n (with_session e subs event conn_id o n).1
unfolding with_session
with_session-Move Q e subs event conn_id none n found r = Move.stays
with_session-Move Q e subs event conn_id (some s) n found r =
    advance-Move Q e subs event conn_id s s.phase n found refl r

admitted-Move :
    (Q : String → World → Bool → Type 0) (e : Services) (subs : Dict String Sub)
    (conn_id uuid ip location_id : String) (o : Option Link) (n : Node)
    → get uuid n.traffic.links ≡ o
    → is_ip_allowed o uuid ip (values n.connections) ≡ true
    → Move Q subs n (
        enter conn_id
          (record { uuid = uuid; ip = ip; bytes = 0; proxy_id = none; location_id = none })
          (record { uuid = uuid; link = o; location_id = location_id; phase = reading })
          n)
unfolding is_ip_allowed
admitted-Move Q e subs conn_id uuid ip location_id none n found allowed = cc
admitted-Move Q e subs conn_id uuid ip location_id (some link) n found allowed =
    Move.enters conn_id ip _ _ link found allowed refl refl

arrive-Move :
    (Q : String → World → Bool → Type 0) (e : Services) (subs : Dict String Sub) (now : ℕ)
    (conn_id uuid ip location_id : String) (n : Node)
    → Move Q subs n (arrive e subs now conn_id uuid ip location_id n).1
unfolding arrive
arrive-Move Q e subs now conn_id uuid ip location_id n =
    let o = get uuid n.traffic.links in
    if_cases (λ (r : Option Closed × Node). Move Q subs n r.1) (not (is_link_allowed e o subs now))
      (λ k. Move.stays)
      (λ k.
        if_cases (λ (r : Option Closed × Node). Move Q subs n r.1)
          (not (is_ip_allowed o uuid ip (values n.connections))) (λ a. Move.stays)
          (λ a. admitted-Move Q e subs conn_id uuid ip location_id o n refl (ground (arith, a))))

-- Every event is such a move.
pub step-Move :
    (Q : String → World → Bool → Type 0) (e : Services) (subs : Dict String Sub) (event : Event)
    (n : Node)
    → Reads Q (conn_of event) event
    → Move Q subs n (step e subs event n).1
unfolding step
step-Move Q e subs (arrives conn_id uuid ip location_id now) n r =
    arrive-Move Q e subs now conn_id uuid ip location_id n
step-Move Q e subs (collects conn_id m now hour) n r =
    with_session-Move Q e subs (collects conn_id m now hour) conn_id (get conn_id n.sessions) n refl
      r
step-Move Q e subs (routes conn_id w required) n r =
    with_session-Move Q e subs (routes conn_id w required) conn_id (get conn_id n.sessions) n refl r
step-Move Q e subs (dials conn_id w reached now) n r =
    with_session-Move Q e subs (dials conn_id w reached now) conn_id (get conn_id n.sessions) n refl
      r
step-Move Q e subs (ends conn_id with_error) n r =
    with_session-Move Q e subs (ends conn_id with_error) conn_id (get conn_id n.sessions) n refl r

abbrev pub Any : String → World → Bool → Type 0
Any conn_id w required = Unit {0}

pub Reads-Any : (conn_id : String) (event : Event) → Reads Any conn_id event
Reads-Any conn_id (arrives id uuid ip location_id now) = tt
Reads-Any conn_id (collects id m now hour) = tt
Reads-Any conn_id (routes id w required) = tt
Reads-Any conn_id (dials id w reached now) = tt
Reads-Any conn_id (ends id with_error) = tt
