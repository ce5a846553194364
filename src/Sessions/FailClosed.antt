-- ===== src/Sessions/FailClosed.antt =====
-- A config that selects a proxy does not leave without one (relay_vless.py: `_run_vless_session`;
-- main.py: `resolve_exit_selection`; outbound.py: `open_outbound`).
use lumen_project_final.Prelude.{
  ℕ, ◌≡◌, ◌≢◌, ◌⊎◌, refl, ap, ◌∙◌, String, Bool, true, Option, none, some, List, [], ◌∷◌, arith,
  Bool-cases, inl, inr, if_cases,
}
use lumen_project_final.Prelude.Eq.{◌==◌, string_eq, ==_iff}
use lumen_project_final.Prelude.Dict.{Dict, get, get-put, get-remove}
use lumen_project_final.Prelude.Member.{contains, add_once}
use lumen_project_final.Panel.{Sub, Services}
use lumen_project_final.Panel.Access.{Connection}
use lumen_project_final.Vless.{VlessHeader}
use lumen_project_final.Exits.{World, Selection, chosen, resolve_exit_selection}
use lumen_project_final.Outbound.{
  Health, Opened, direct, via, open_outbound, open_exact, open_via, exact_endpoints,
}
use lumen_project_final.Sessions.{
  Phase, reading, routing, dialing, relaying, Session, Node, leave, enter, go_to, Event, step, run,
  routes, arrives, collects, dials, ends, exit_endpoints,
}
use lumen_project_final.Sessions.Moves.{
  IsLike, Move, stays, enters, leaves, goes, Reads, Next, step-Move, conn_of,
}
use lumen_project_final.Sessions.Chosen.{HasEndpoints, uses_exit, Leaves, resolve-Leaves, leaves_at}

-- An event of a run
abbrev pub Occurs : Event → List Event → Type 0
Occurs event [] = ⊥
Occurs event (other ∷ events) = (other ≡ event) ⊎ Occurs event events

-- The run resolves the exit of that session, in a world whose catalogue lists no empty endpoint.
abbrev pub Ran : List Event → String → World → Bool → Type 0
Ran all conn_id w required = HasEndpoints w × Occurs (routes conn_id w required) all

-- The session leaves by that endpoint: one of the run's resolutions for its config and its location
-- chose it.
pub record IsSelected (all : List Event) (id : String) (subs : Dict String Sub) (s : Session)
    (endpoint : String) : Type 0 where
  pub world : World
  pub required : Bool
  pub selection : Selection
  pub ran : Occurs (routes id world required) all
  pub resolved :
      resolve_exit_selection world required s.link subs s.location_id ≡ chosen (some selection)
  pub same : endpoint ≡ selection.endpoint
  pub full : endpoint ≢ ""

abbrev pub Through : List Event → String → Dict String Sub → Session → Phase → Type 0
Through all id subs s (dialing h endpoints) =
    (e : String) × (endpoints ≡ e ∷ []) × IsSelected all id subs s e
Through all id subs s (relaying direct) = ⊥
Through all id subs s (relaying (via e)) = IsSelected all id subs s e
Through all id subs s phase = Unit {0}

-- A session whose config uses an exit dials and relays by the endpoint selected for it, never
-- directly.
unfoldable pub IsFailClosed : List Event → Dict String Sub → Node → Type 0
IsFailClosed all subs n =
    (conn_id : String) (s : Session)
    → get conn_id n.sessions ≡ some s
    → uses_exit s.link subs ≡ true
    → Through all conn_id subs s s.phase

selected-Through :
    (all : List Event) (id : String) (subs : Dict String Sub) (s : Session) (h : VlessHeader)
    (w : World) (required : Bool) (o : Option Selection)
    → resolve_exit_selection w required s.link subs s.location_id ≡ chosen o
    → Occurs (routes id w required) all
    → Leaves (chosen o)
    → Through all id subs s (dialing h (exit_endpoints o))
selected-Through all id subs s h w required none e ran l = absurd l
selected-Through all id subs s h w required (some selection) e ran l = (
  selection.endpoint,
  refl,
  record {
    world = w;
    required = required;
    selection = selection;
    ran = ran;
    resolved = e;
    same = refl;
    full = l;
  },
)

-- One endpoint that is not empty is the way of the dial.
open_outbound-via :
    (w : World) (endpoint : String) (reached : Bool) (now : ℕ) (health : Health) (all : List Event)
    (id : String) (subs : Dict String Sub) (s : Session)
    → IsSelected all id subs s endpoint
    → Through all id subs s
        (relaying (open_outbound w none (some (endpoint ∷ [])) reached now health).0)
unfolding open_outbound open_exact open_via exact_endpoints add_once contains
open_outbound-via w endpoint reached now health all id subs s sel =
    elim (Bool-cases (endpoint == "")) [
      | inl empty ↦ absurd (sel.full ((==_iff endpoint "").0 empty))
      | inr given ↦ rw given (
          if_cases (λ (r : Opened × Health). Through all id subs s (relaying r.0)) reached
            (λ k. sel) (λ k. tt))
    ]

-- A session that has gone on is the same but for its phase.
resolved-IsSelected :
    (all : List Event) (id : String) (subs : Dict String Sub) (s : Session) (p : Phase) (e : String)
    → IsSelected all id subs s e
    → IsSelected all id subs (record s { phase = p }) e
resolved-IsSelected all id subs s p e h = record {
  world = h.world;
  required = h.required;
  selection = h.selection;
  ran = h.ran;
  resolved = h.resolved;
  same = h.same;
  full = h.full;
}

moved-Through :
    (all : List Event) (id : String) (subs : Dict String Sub) (s : Session) (p q : Phase)
    → Through all id subs s q
    → Through all id subs (record s { phase = p }) q
moved-Through all id subs s p reading h = tt
moved-Through all id subs s p (routing header) h = tt
moved-Through all id subs s p (dialing header endpoints) h =
    (h.0, h.1, resolved-IsSelected all id subs s p h.0 h.2)
moved-Through all id subs s p (relaying direct) h = h
moved-Through all id subs s p (relaying (via e)) h = resolved-IsSelected all id subs s p e h
moved-Through all id subs s p (relaying Opened.unavailable) h = tt
moved-Through all id subs s p (relaying Opened.too_many) h = tt
moved-Through all id subs s p (relaying Opened.unreachable) h = tt
moved-Through all id subs s p (relaying (Opened.failed_closed e)) h = tt

at-Through :
    (all : List Event) (id : String) (subs : Dict String Sub) (s : Session) {p q : Phase}
    → p ≡ q
    → Through all id subs s p
    → Through all id subs s q
at-Through all id subs s e h = rw⁻¹ e h

next-Through :
    (all : List Event) (id : String) (subs : Dict String Sub) (s : Session) (phase : Phase)
    → uses_exit s.link subs ≡ true
    → Through all id subs s s.phase
    → Next (Ran all) subs id s phase
    → Through all id subs s phase
next-Through all id subs s reading uses v next = tt
next-Through all id subs s (routing h) uses v next = tt
next-Through all id subs s (dialing h endpoints) uses v (w, required, o, ran, e, same) = rw same (
    selected-Through all id subs s h w required o e ran.1
      (leaves_at e (resolve-Leaves w required s.link subs s.location_id ran.0 uses)))
next-Through all id subs s (relaying opened) uses v
      (h, endpoints, w, reached, now, health, was, opens) =
    let before : Through all id subs s (dialing h endpoints) = at-Through all id subs s was v in
    rw⁻¹ opens
      (rw before.1 (open_outbound-via w before.0 reached now health all id subs s before.2))

enter-IsFailClosed :
    (all : List Event) (subs : Dict String Sub) (conn_id : String) (c : Connection) (s : Session)
    (n : Node)
    → s.phase ≡ reading
    → IsFailClosed all subs n
    → IsFailClosed all subs (enter conn_id c s n)
unfolding IsFailClosed enter
enter-IsFailClosed all subs conn_id c s n new v j t found uses = elim (Bool-cases (conn_id == j)) [
  | inl e ↦
      let same : s ≡ t = ground (arith, get-put conn_id j s n.sessions, e, found) in
      rw⁻¹ same (rw new tt)
  | inr e ↦ v j t (ground (arith, get-put conn_id j s n.sessions, e, found)) uses
]

go_to-IsFailClosed :
    (all : List Event) (subs : Dict String Sub) (conn_id : String) (s : Session) (phase : Phase)
    (f : Connection → Connection) (n m : Node)
    → IsLike n m
    → get conn_id n.sessions ≡ some s
    → Next (Ran all) subs conn_id s phase
    → IsFailClosed all subs n
    → IsFailClosed all subs (go_to conn_id s phase f m)
unfolding IsFailClosed go_to
go_to-IsFailClosed all subs conn_id s phase f n m like here next v j t found uses =
    let moved : Session = record s { phase = phase } in
    elim (Bool-cases (conn_id == j)) [
      | inl e ↦
          let same : moved ≡ t = ground (arith, get-put conn_id j moved m.sessions, e, found) in
          let name : conn_id ≡ j = (==_iff conn_id j).0 e in
          rw⁻¹ (same, name)
            (let u : uses_exit s.link subs ≡ true = ap (λ x. uses_exit x.link subs) same ∙ uses in
              moved-Through all conn_id subs s phase phase
                (next-Through all conn_id subs s phase u (v conn_id s here u) next))
      | inr e ↦
          v j t (ground (arith, get-put conn_id j moved m.sessions, e, found, like.sessions)) uses
    ]

leave-IsFailClosed :
    (all : List Event) (subs : Dict String Sub) (conn_id : String) (n m : Node)
    → IsLike n m
    → IsFailClosed all subs n
    → IsFailClosed all subs (leave conn_id m)
unfolding IsFailClosed leave
leave-IsFailClosed all subs conn_id n m like v j t found uses =
    v j t (ground (arith, get-remove conn_id j m.sessions, found, like.sessions)) uses

Move-IsFailClosed :
    (all : List Event) (subs : Dict String Sub) (n : Node) {m : Node}
    → Move (Ran all) subs n m
    → IsFailClosed all subs n
    → IsFailClosed all subs m
Move-IsFailClosed all subs n stays v = v
Move-IsFailClosed all subs n (enters conn_id ip c s link known allowed u new) v =
    enter-IsFailClosed all subs conn_id c s n new v
Move-IsFailClosed all subs n (leaves conn_id m like) v =
    leave-IsFailClosed all subs conn_id n m like v
Move-IsFailClosed all subs n (goes conn_id s phase f m like found keeps next) v =
    go_to-IsFailClosed all subs conn_id s phase f n m like found next v

-- The catalogue that an event reads, if any, lists no empty endpoint.
abbrev pub Lists : Event → Type 0
Lists (routes conn_id w required) = HasEndpoints w
Lists event = Unit {0}

abbrev pub AllLists : List Event → Type 0
AllLists [] = Unit {0}
AllLists (event ∷ events) = Lists event × AllLists events

Reads-Ran :
    (all : List Event) (event : Event)
    → Lists event
    → Occurs event all
    → Reads (Ran all) (conn_of event) event
Reads-Ran all (arrives conn_id uuid ip location_id now) lists here = tt
Reads-Ran all (collects conn_id m now hour) lists here = tt
Reads-Ran all (routes conn_id w required) lists here = (lists, here)
Reads-Ran all (dials conn_id w reached now) lists here = tt
Reads-Ran all (ends conn_id with_error) lists here = tt

part-IsFailClosed :
    (all : List Event) (e : Services) (subs : Dict String Sub) (events : List Event) (n : Node)
    → AllLists events
    → ((event : Event) → Occurs event events → Occurs event all)
    → IsFailClosed all subs n
    → IsFailClosed all subs (run e subs events n)
unfolding run
part-IsFailClosed all e subs [] n lists among v = v
part-IsFailClosed all e subs (event ∷ events) n lists among v =
    part-IsFailClosed all e subs events (step e subs event n).1 lists.1
      (λ other later. among other (inr later))
      (Move-IsFailClosed all subs n
        (step-Move (Ran all) e subs event n (Reads-Ran all event lists.0 (among event (inl refl))))
        v)

empty-IsFailClosed :
    (all : List Event) (subs : Dict String Sub) (n : Node)
    → n.sessions ≡ []
    → IsFailClosed all subs n
unfolding IsFailClosed get
empty-IsFailClosed all subs n none_yet id s found uses =
    absurd (ground (arith, rw none_yet at found))

-- From a node without sessions, whatever sessions arrive, read, resolve, dial and end, in whatever
-- order, while the catalogue lists no empty endpoint and the groups stay: a session whose config's
-- group has Multi-Location on, or whose config has a managed or custom proxy, dials and relays only
-- by an endpoint that is not empty and that `resolve_exit_selection` chose, for its config and its
-- location, in one of the resolutions of the run under its `conn_id`, never directly.
pub run-IsFailClosed :
    (e : Services) (subs : Dict String Sub) (events : List Event) (n : Node)
    → AllLists events
    → n.sessions ≡ []
    → IsFailClosed events subs (run e subs events n)
run-IsFailClosed e subs events n lists none_yet =
    part-IsFailClosed events e subs events n lists (λ event here. here)
      (empty-IsFailClosed events subs n none_yet)
