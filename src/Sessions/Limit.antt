-- ===== src/Sessions/Limit.antt =====
-- The limit on a config's addresses, over sessions that run side by side (relay_vless.py:
-- `_run_vless_session`; main.py: `is_ip_allowed`).
use lumen_project_final.Prelude.{
  Bool, ◌+◌, ◌≤◌, ◌<◌, ◌≡◌, refl, String, true, false, not, ◌&&◌, Option, none, some, List, [], ◌∷◌,
  arith, length, Bool-cases, inl, inr,
}
use lumen_project_final.Prelude.Eq.{◌==◌, string_eq, ==_iff}
use lumen_project_final.Prelude.Dict.{Dict, get, put, remove}
use lumen_project_final.Prelude.Member.{contains}
use lumen_project_final.Panel.{Link, Sub, Services}
use lumen_project_final.Panel.Access.{Connection, is_ip_allowed, unique_ips}
use lumen_project_final.Sessions.{
  Session, Node, values, leave, enter, go_to, on_connection, Event, step, run,
}
use lumen_project_final.Exits.{World}
use lumen_project_final.Sessions.Addresses.{
  is_from, is_used_from, contains-unique_ips, distinct-unique_ips, length-unique_ips,
  distinct-length, is_used_from-remove, is_used_from-put, is_used_from-get,
}
use lumen_project_final.Sessions.Moves.{
  SameLimits, KeepsPlace, Move, stays, enters, leaves, goes, Any, Reads-Any, conn_of, step-Move,
}

-- A config with a limit is connected from no more addresses than that.
unfoldable pub WithinLimit : Node → Type 0
WithinLimit n =
    (uuid : String) (link : Link)
    → get uuid n.traffic.links ≡ some link
    → 0 < link.ip_limit
    → length (unique_ips uuid (values n.connections)) ≤ link.ip_limit

NoMoreUsed : Dict String Connection → Dict String Connection → Type 0
NoMoreUsed m k =
    (uuid ip : String)
    → is_used_from uuid ip (values k) ≡ true
    → is_used_from uuid ip (values m) ≡ true

fewer-WithinLimit :
    (n : Node) (m : Node)
    → NoMoreUsed n.connections m.connections
    → SameLimits n.traffic.links m.traffic.links
    → WithinLimit n
    → WithinLimit m
unfolding WithinLimit NoMoreUsed
fewer-WithinLimit n m fewer same v uuid link found limited =
    let old = same uuid link found in
    let before = v uuid old.0 old.1 (rw old.2 limited) in
    let shrunk =
      length-unique_ips uuid (values m.connections) (values n.connections) (fewer uuid) in
    ground (arith, old.2, before, shrunk)

remove-NoMoreUsed :
    (conn_id : String) (m : Dict String Connection) → NoMoreUsed m (remove conn_id m)
unfolding NoMoreUsed
remove-NoMoreUsed conn_id m uuid ip h = is_used_from-remove uuid ip conn_id m h

on_connection-NoMoreUsed :
    (f : Connection → Connection) (o : Option Connection) (conn_id : String)
    (m : Dict String Connection)
    → get conn_id m ≡ o
    → KeepsPlace f
    → NoMoreUsed m (on_connection f o conn_id m)
unfolding NoMoreUsed on_connection is_from
on_connection-NoMoreUsed f none conn_id m found keeps uuid ip h = h
on_connection-NoMoreUsed f (some c) conn_id m found keeps uuid ip h = ground (
  arith,
  is_used_from-put uuid ip conn_id (f c) m h,
  (keeps c).0,
  (keeps c).1,
  is_used_from-get uuid ip conn_id c m found,
)

-- An admission adds one address at most.
length-admitted :
    (conn_id : String) (c : Connection) (uuid : String) (m : Dict String Connection)
    → length (unique_ips uuid (values (put conn_id c m))) ≤ length (unique_ips uuid (values m)) + 1
unfolding is_from contains
length-admitted conn_id c uuid m =
    let more =
      distinct-length (unique_ips uuid (values (put conn_id c m)))
        (c.ip ∷ unique_ips uuid (values m)) (distinct-unique_ips uuid (values (put conn_id c m)))
        (λ x h. ground (
          arith,
          h,
          contains-unique_ips uuid x (values (put conn_id c m)),
          contains-unique_ips uuid x (values m),
          is_used_from-put uuid x conn_id c m,
        )) in
    ground (arith, more)

-- It adds none where its address was there, or for another config.
length-readmitted :
    (conn_id : String) (c : Connection) (uuid : String) (m : Dict String Connection)
    → (c.uuid == uuid && not (contains c.ip (unique_ips uuid (values m)))) ≡ false
    → length (unique_ips uuid (values (put conn_id c m))) ≤ length (unique_ips uuid (values m))
unfolding is_from
length-readmitted conn_id c uuid m known =
    length-unique_ips uuid (values (put conn_id c m)) (values m) (λ x h. ground (
      arith,
      known,
      is_used_from-put uuid x conn_id c m h,
      contains-unique_ips uuid c.ip (values m),
      ==_iff c.ip x,
    ))

enter-WithinLimit :
    (conn_id : String) (c : Connection) (s : Session) (link : Link) (n : Node)
    → get c.uuid n.traffic.links ≡ some link
    → is_ip_allowed (some link) c.uuid c.ip (values n.connections) ≡ true
    → WithinLimit n
    → WithinLimit (enter conn_id c s n)
unfolding WithinLimit enter is_ip_allowed
enter-WithinLimit conn_id c s link n known allowed v uuid other found limited =
    let before = v uuid other found limited in
    let any = length-admitted conn_id c uuid n.connections in
    let again = length-readmitted conn_id c uuid n.connections in
    elim (Bool-cases (c.uuid == uuid)) [
      | inl same ↦
          let u : c.uuid ≡ uuid = (==_iff c.uuid uuid).0 same in
          let l : link ≡ other = ground (arith, known, found, u) in
          ground (arith, before, any, again, l, u, allowed, limited)
      | inr differs ↦ ground (arith, before, again, differs)
    ]

Move-WithinLimit :
    (Q : String → World → Bool → Type 0) (subs : Dict String Sub) (n : Node) {m : Node}
    → Move Q subs n m
    → WithinLimit n
    → WithinLimit m
unfolding leave go_to
Move-WithinLimit Q subs n stays v = v
Move-WithinLimit Q subs n (enters conn_id ip c s link known allowed u p) v =
    enter-WithinLimit conn_id c s link n known allowed v
Move-WithinLimit Q subs n (leaves conn_id m like) v =
    fewer-WithinLimit n (leave conn_id m)
      (rw like.connections (remove-NoMoreUsed conn_id n.connections)) like.limits v
Move-WithinLimit Q subs n (goes conn_id s phase f m like found keeps next) v =
    fewer-WithinLimit n (go_to conn_id s phase f m)
      (rw like.connections
        (on_connection-NoMoreUsed f (get conn_id n.connections) conn_id n.connections refl keeps))
      like.limits v

-- From a node where it holds, as one without connections, whatever sessions arrive, read, dial and
-- end, in whatever order, a config with a limit on its addresses is connected from no more of them.
pub run-WithinLimit :
    (e : Services) (subs : Dict String Sub) (events : List Event) (n : Node)
    → WithinLimit n
    → WithinLimit (run e subs events n)
unfolding run
run-WithinLimit e subs [] n v = v
run-WithinLimit e subs (event ∷ events) n v =
    run-WithinLimit e subs events (step e subs event n).1 (
      Move-WithinLimit Any subs n (step-Move Any e subs event n (Reads-Any (conn_of event) event))
        v)
