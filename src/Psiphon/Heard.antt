-- ===== src/Psiphon/Heard.antt =====
-- What reading the Core's notices leaves as it was (psiphon/manager.py: _consume_notices).
use lumen_project_final.Prelude.{◌≤◌, ◌≡◌, ◌∙◌, true, Option, none, some, List, [], ◌∷◌, arith}
use lumen_project_final.Prelude.Eq.{string_eq}
use lumen_project_final.Psiphon.{Manager, has_port, port_number}
use lumen_project_final.Psiphon.Notices.{
  ℤ, Letters, Line, Notice, wake, set_port, listening, tunnels, dispatch_notice, handle_notice,
  read_line, hear,
}

-- The process, the gate and the leases stay; the port may change, to another port.
pub record Heard (m m' : Manager) : Type 0 where
  pub settings : m'.settings ≡ m.settings
  pub process : m'.process ≡ m.process
  pub accepting : m'.accepting ≡ m.accepting
  pub generation : m'.generation ≡ m.generation
  pub leases : m'.leases ≡ m.leases
  pub stop_event : m'.stop_event ≡ m.stop_event
  pub state : m'.status.state ≡ m.status.state
  pub last_error : m'.status.last_error ≡ m.status.last_error
  pub sessions : m'.status.active_psiphon_ws_sessions ≡ m.status.active_psiphon_ws_sessions
  pub dialable : has_port m.socks_port ≡ true → has_port m'.socks_port ≡ true
  pub in_range : port_number m.socks_port ≤ 65535 → port_number m'.socks_port ≤ 65535

pub Heard-refl : (m : Manager) → Heard m m
Heard-refl m = ground arith

pub Heard-trans : {m n k : Manager} → Heard m n → Heard n k → Heard m k
Heard-trans f g = record {
  settings = g.settings ∙ f.settings;
  process = g.process ∙ f.process;
  accepting = g.accepting ∙ f.accepting;
  generation = g.generation ∙ f.generation;
  leases = g.leases ∙ f.leases;
  stop_event = g.stop_event ∙ f.stop_event;
  state = g.state ∙ f.state;
  last_error = g.last_error ∙ f.last_error;
  sessions = g.sessions ∙ f.sessions;
  dialable = λ h. g.dialable (f.dialable h);
  in_range = λ h. g.in_range (f.in_range h);
}

wake-Heard : (m : Manager) → Heard m (wake m)
unfolding wake
wake-Heard m = ground arith

set_port-Heard : (p : ℤ) (m : Manager) → Heard m (set_port p m)
unfolding set_port
set_port-Heard (ℤ.pos p) m = ground arith
set_port-Heard (ℤ.negsuc p) m = Heard-refl m

listening-Heard : (p : Option ℤ) (m : Manager) → Heard m (listening p m)
unfolding listening
listening-Heard none m = Heard-refl m
listening-Heard (some p) m = Heard-trans (set_port-Heard p m) (wake-Heard _)

tunnels-Heard : (n : Option ℤ) (m : Manager) → Heard m (tunnels n m)
unfolding tunnels wake
tunnels-Heard none m = Heard-refl m
tunnels-Heard (some n) m = ground arith

handle_notice-Heard :
    (letters : Letters) (n : Option Notice) (m : Manager) → Heard m (handle_notice letters n m)
unfolding handle_notice dispatch_notice wake
handle_notice-Heard letters none m = Heard-refl m
handle_notice-Heard letters (some n) m =
    ground (arith, listening-Heard n.port m, tunnels-Heard n.count m)

read_line-Heard : (letters : Letters) (l : Line) (m : Manager) → Heard m (read_line letters l m).1
unfolding read_line
read_line-Heard letters Line.overrun m = ground arith
read_line-Heard letters Line.end_of_stream m = Heard-refl m
read_line-Heard letters (Line.line size notice) m =
    ground (arith, handle_notice-Heard letters notice m)

pub hear-Heard : (letters : Letters) (ls : List Line) (m : Manager) → Heard m (hear letters ls m)
unfolding hear
hear-Heard letters [] m = Heard-refl m
hear-Heard letters (l ∷ ls) m =
    Heard-trans (read_line-Heard letters l m) (hear-Heard letters ls (read_line letters l m).1)
