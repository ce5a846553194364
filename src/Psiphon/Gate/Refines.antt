-- ===== src/Psiphon/Gate/Refines.antt =====
-- The manager's operations (psiphon/manager.py) against the gate, over any sequence of calls.
use lumen_project_final.Prelude.{
  ℕ, ◌+◌, ◌≡◌, refl, String, Bool, true, false, not, Option, none, some, List, [], ◌∷◌, arith,
  Bool-cases, if_cases, leb, inl, inr, if◌then◌else◌,
}
use lumen_project_final.Prelude.Eq.{◌==◌, string_eq}
use lumen_project_final.Psiphon.{
  State, Ending, BackendLease, Manager, Settings, or_text, vless_transport_available,
  acquire_vless_backend, release_vless_backend, new_manager, port_number,
}
use lumen_project_final.Psiphon.Notices.{Letters, Line, hear}
use lumen_project_final.Psiphon.Heard.{hear-Heard}
use lumen_project_final.Psiphon.Session.{Attempt, start_session}
use lumen_project_final.Psiphon.Supervisor.{
  Turn, Watch, Loop, Next, Supervised, Persisted, again, returned, count_restart, note_rotation,
  finish, crash, back_off, start_failed, session_lost, session_over, serve, started, supervise_turn,
  proceed, supervise, start, started_up, restore_persisted, stop, monitor_turn,
}
use lumen_project_final.Psiphon.Sound.{
  IsSound, acquire_vless_backend-IsSound, release_vless_backend-IsSound, new_manager-IsSound,
}
use lumen_project_final.Psiphon.Opening.{IsDown, IsUp, Outcome, start_session_outcome}
use lumen_project_final.Psiphon.Gate.{Door, shut_gate, Move, Reach, view}
use lumen_project_final.Psiphon.Gate.Moves.{
  Follows, Follows-trans, move-Follows, same-Follows, IsShut-Follows, IsUp-Follows, Heard-Follows,
  set_state-Follows, fail_with-Follows, stop_active_process-Follows, stopping-Follows,
  monitor_turn-Follows, monitor_active_session-Follows,
}

start_session-Follows :
    (letters : Letters) (w r : Bool) (a : Attempt) (m : Manager)
    → IsSound m
    → Follows m (start_session letters w r a m).1
start_session-Follows letters w r a m h =
    ended (start_session letters w r a m) (start_session_outcome letters w r a m h)
  where
    ended : (o : Option (Unit {0}) × Manager) → Outcome (IsDown m) (IsUp m) o → Follows m o.1
    ended (none, m') d = IsShut-Follows d.shut
    ended (some u, m') d = IsUp-Follows h d

abbrev pub manager_of : Next → Manager
manager_of (again d l m) = m
manager_of (returned m) = m

abbrev pub Leaves : Manager → Next → Type 0
Leaves m n = Follows m (manager_of n)

count_restart-Follows : (n : ℕ) (m : Manager) → IsSound m → Follows m (count_restart n m)
unfolding view vless_transport_available
count_restart-Follows n m h = same-Follows (ground arith) refl

note_rotation-Follows :
    (b : Bool) (at : String) (m : Manager) → IsSound m → Follows m (note_rotation b at m)
unfolding view vless_transport_available
note_rotation-Follows false at m h = same-Follows h refl
note_rotation-Follows true at m h = same-Follows (ground arith) refl

finish-Follows : (late : Option Ending) (m : Manager) → IsSound m → Follows m (finish late m)
unfolding finish
finish-Follows late m h =
    if_cases (Follows m) m.stop_event (λ t. stop_active_process-Follows late m h)
      (λ f. same-Follows h refl)

back_off-Follows : (t : Turn) (l : Loop) (m : Manager) → IsSound m → Leaves m (back_off t l m)
unfolding back_off
back_off-Follows t l m h =
    if_cases (Leaves m) t.stop_in_backoff
      (λ b.
        let k = stopping-Follows true m h in Follows-trans k (finish-Follows t.ending _ k.sound))
      (λ b. same-Follows h refl)

start_failed-Follows :
    (t : Turn) (l : Loop) (m : Manager) → IsSound m → Leaves m (start_failed t l m)
unfolding start_failed
start_failed-Follows t l m h =
    let c = count_restart-Follows (l.attempts + 1) m h in
    if_cases (Leaves m) (leb m.settings.max_reconnect_attempts (l.attempts + 1))
      (λ b.
        let k =
          Follows-trans c
            (fail_with-Follows (or_text m.status.last_error "core_spawn_failed") _ c.sound) in
        Follows-trans k (finish-Follows t.ending _ k.sound))
      (λ b.
        let k =
          Follows-trans c
            (set_state-Follows State.reconnecting m.status.last_error _ refl c.sound) in
        Follows-trans k (back_off-Follows t _ _ k.sound))

session_lost-Follows :
    (t : Turn) (attempts : ℕ) (reason : String) (m : Manager)
    → IsSound m
    → Leaves m (session_lost t attempts reason m)
unfolding session_lost
session_lost-Follows t attempts reason m h =
    let n = (if m.stabilized then 0 else attempts) + 1 in
    let c = count_restart-Follows n m h in
    if_cases (Leaves m) (leb m.settings.max_reconnect_attempts n)
      (λ b.
        let k = Follows-trans c (stop_active_process-Follows t.ending _ c.sound) in
        let j = Follows-trans k (fail_with-Follows reason _ k.sound) in
        Follows-trans j (finish-Follows t.ending _ j.sound))
      (λ b.
        let k = Follows-trans c (set_state-Follows State.reconnecting reason _ refl c.sound) in
        let j = Follows-trans k (stop_active_process-Follows t.ending _ k.sound) in
        Follows-trans j (back_off-Follows t _ _ j.sound))

session_over-Follows :
    (t : Turn) (attempts : ℕ) (reason : String) (m : Manager)
    → IsSound m
    → Leaves m (session_over t attempts reason m)
unfolding session_over
session_over-Follows t attempts reason m h =
    if_cases (Leaves m) m.stop_event (λ b. finish-Follows t.ending m h)
      (λ b.
        if_cases (Leaves m) (reason == "expired")
          (λ e.
            let k = set_state-Follows State.rotating "" m refl h in
            Follows-trans k (stop_active_process-Follows t.ending _ k.sound))
          (λ e. session_lost-Follows t attempts reason m h))

serve-Follows :
    (letters : Letters) (t : Turn) (l : Loop) (m : Manager)
    → IsSound m
    → Leaves m (serve letters t l m)
unfolding serve
serve-Follows letters t l m h =
    let k = note_rotation-Follows l.rotate_pending t.rotated_at m h in
    let j = Follows-trans k (monitor_active_session-Follows letters t.watches _ k.sound) in
    Follows-trans j (session_over-Follows t _ _ _ j.sound)

started-Follows :
    (o : Option (Unit {0})) (letters : Letters) (t : Turn) (l : Loop) (m : Manager)
    → IsSound m
    → Leaves m (started o letters t l m)
unfolding started
started-Follows none letters t l m h = start_failed-Follows t l m h
started-Follows (some u) letters t l m h = serve-Follows letters t l m h

pub supervise_turn-Follows :
    (letters : Letters) (t : Turn) (l : Loop) (m : Manager)
    → IsSound m
    → Leaves m (supervise_turn letters t l m)
unfolding supervise_turn
supervise_turn-Follows letters t l m h =
    if_cases (Leaves m) m.stop_event (λ b. finish-Follows t.ending m h)
      (λ b.
        let s = start_session letters l.retest_before_start l.rotate_pending t.attempt m in
        let k =
          start_session-Follows letters l.retest_before_start l.rotate_pending t.attempt m h in
        Follows-trans k (started-Follows s.0 letters t l s.1 k.sound))

proceed-Follows :
    (rest : Loop → Manager → Supervised) (n : Next) (m : Manager)
    → ((l : Loop) (k : Manager) → IsSound k → Leaves k (rest l k).next)
    → Leaves m n
    → Leaves m (proceed rest n).next
unfolding proceed
proceed-Follows rest (again d l k) m h f = Follows-trans f (h l k f.sound)
proceed-Follows rest (returned k) m h f = f

supervise-Follows :
    (letters : Letters) (ts : List Turn) (l : Loop) (m : Manager)
    → IsSound m
    → Leaves m (supervise letters ts l m).next
unfolding supervise
supervise-Follows letters [] l m h = same-Follows h refl
supervise-Follows letters (t ∷ ts) l m h =
    proceed-Follows (supervise letters ts) (supervise_turn letters t l m) m
      (λ l' k s. supervise-Follows letters ts l' k s) (supervise_turn-Follows letters t l m h)

-- What may happen to the manager between two points where a task waits: calls of the endpoint and
-- of the host, notices, and the steps of the supervisor, one by one or many turns on end.
pub data Op : Type 0 where
  acquire : String → Op
  release : Option BackendLease → Op
  start_up : Bool → Option String → Persisted → Op
  attempt : Bool → Bool → Attempt → Op
  note_start : Bool → String → Op
  watch : Watch → Op
  conclude : Turn → ℕ → String → Op
  supervise_turns : List Turn → Loop → Op
  read_notices : List Line → Op
  break_down : Option Ending → Op
  shut_down : Option Ending → Op

unfoldable pub apply : Letters → Op → Manager → Manager
unfolding acquire_vless_backend release_vless_backend start start_session monitor_turn session_over
    supervise hear crash stop
apply letters (acquire i) m = (acquire_vless_backend i m).1
apply letters (release lease) m = release_vless_backend lease m
apply letters (start_up is_supervised refusal p) m = (start letters is_supervised refusal p m).1
apply letters (attempt retest_first is_rotating a) m =
    (start_session letters retest_first is_rotating a m).1
apply letters (note_start b at) m = note_rotation b at m
apply letters (watch w) m = (monitor_turn letters w m).1
apply letters (conclude t n reason) m = manager_of (session_over t n reason m)
apply letters (supervise_turns ts l) m = manager_of (supervise letters ts l m).next
apply letters (read_notices ls) m = hear letters ls m
apply letters (break_down late) m = crash late m
apply letters (shut_down late) m = stop late m

unfoldable pub run : Letters → List Op → Manager → Manager
unfolding apply
run letters [] m = m
run letters (o ∷ ops) m = run letters ops (apply letters o m)

-- The lease that an open door gives.
abbrev pub lease_at : String → Option Door → Option BackendLease
lease_at i none = none
lease_at i (some d) =
    some record { lease_id = i; generation = d.generation; host = "127.0.0.1"; port = d.port }

pub acquire_vless_backend-view :
    (i : String) (m : Manager) → (acquire_vless_backend i m).0 ≡ lease_at i (view m).door
unfolding acquire_vless_backend view
acquire_vless_backend-view i m = ground arith

acquire_vless_backend-Follows :
    (i : String) (m : Manager) → IsSound m → Follows m (acquire_vless_backend i m).1
unfolding acquire_vless_backend view
acquire_vless_backend-Follows i m h =
    let s = acquire_vless_backend-IsSound i m h in
    elim (Bool-cases (vless_transport_available m)) [
      | inl a ↦ move-Follows s (
          Move.lease i (record { generation = m.generation; port = port_number m.socks_port })
            (ground (arith, a)) (ground (arith, a)))
      | inr a ↦ rw (a, acquire_vless_backend) (same-Follows h refl)
    ]

release_vless_backend-Follows :
    (lease : Option BackendLease) (m : Manager)
    → IsSound m
    → Follows m (release_vless_backend lease m)
unfolding release_vless_backend view vless_transport_available
release_vless_backend-Follows none m h = same-Follows h refl
release_vless_backend-Follows (some lease) m h =
    move-Follows (release_vless_backend-IsSound (some lease) m h) (Move.drop lease.lease_id refl)

started_up-Follows :
    (letters : Letters) (refusal : Option String) (p : Persisted) (m : Manager)
    → IsSound m
    → Follows m (started_up letters refusal p m).1
unfolding started_up restore_persisted view vless_transport_available
started_up-Follows letters none p m h = same-Follows (ground arith) refl
started_up-Follows letters (some reason) p m h =
    let s : Follows m (record m { status = record m.status { core_available = false } }) =
      same-Follows (ground arith) refl in
    Follows-trans s (fail_with-Follows reason _ s.sound)

start-Follows :
    (letters : Letters) (b : Bool) (refusal : Option String) (p : Persisted) (m : Manager)
    → IsSound m
    → Follows m (start letters b refusal p m).1
unfolding start
start-Follows letters b refusal p m h =
    if_cases (λ (r : Bool × Manager). Follows m r.1) (not m.settings.enabled)
      (λ e. set_state-Follows State.disabled "" m refl h)
      (λ e.
        if_cases (λ (r : Bool × Manager). Follows m r.1) b (λ e. same-Follows h refl)
          (λ e. started_up-Follows letters refusal p m h))

crash-Follows : (late : Option Ending) (m : Manager) → IsSound m → Follows m (crash late m)
unfolding crash
crash-Follows late m h =
    let k = fail_with-Follows "core_spawn_failed" m h in
    Follows-trans k (finish-Follows late _ k.sound)

stop-Follows : (late : Option Ending) (m : Manager) → IsSound m → Follows m (stop late m)
unfolding stop
stop-Follows late m h =
    let k = stopping-Follows true m h in
    let j = Follows-trans k (stop_active_process-Follows late _ k.sound) in
    if_cases (Follows m) m.settings.enabled
      (λ e. Follows-trans j (set_state-Follows State.stopped "shutdown" _ refl j.sound))
      (λ e. Follows-trans j (set_state-Follows State.disabled "" _ refl j.sound))

apply-Follows :
    (letters : Letters) (o : Op) (m : Manager) → IsSound m → Follows m (apply letters o m)
unfolding apply
apply-Follows letters (acquire i) m h = acquire_vless_backend-Follows i m h
apply-Follows letters (release lease) m h = release_vless_backend-Follows lease m h
apply-Follows letters (start_up b refusal p) m h = start-Follows letters b refusal p m h
apply-Follows letters (attempt w r a) m h = start_session-Follows letters w r a m h
apply-Follows letters (note_start b at) m h = note_rotation-Follows b at m h
apply-Follows letters (watch w) m h = monitor_turn-Follows letters w m h
apply-Follows letters (conclude t n reason) m h = session_over-Follows t n reason m h
apply-Follows letters (supervise_turns ts l) m h = supervise-Follows letters ts l m h
apply-Follows letters (read_notices ls) m h = Heard-Follows h (hear-Heard letters ls m)
apply-Follows letters (break_down late) m h = crash-Follows late m h
apply-Follows letters (shut_down late) m h = stop-Follows late m h

pub run-Follows :
    (letters : Letters) (ops : List Op) (m : Manager) → IsSound m → Follows m (run letters ops m)
unfolding run
run-Follows letters [] m h = same-Follows h refl
run-Follows letters (o ∷ ops) m h =
    let k = apply-Follows letters o m h in Follows-trans k (run-Follows letters ops _ k.sound)

-- From a new manager, any sequence of acquires, releases, starts, sessions, monitor's turns,
-- notices, crashes and stops is a sequence of moves of the gate, and what `acquire_vless_backend`
-- then answers is the lease of the gate's door, or nothing if it is shut. After it, while leases
-- are open there is a process and a port, at most 65535; an error shown is empty or a listed
-- reason; and the number of sessions shown is the number of leases, no two of them the same.
pub run-new_manager_refines :
    (letters : Letters) (s : Settings) (ops : List Op) (i : String)
    → let m = run letters ops (new_manager s) in
      Reach shut_gate (view m)
      × ((acquire_vless_backend i m).0 ≡ lease_at i (view m).door)
      × IsSound m
unfolding new_manager view vless_transport_available
run-new_manager_refines letters s ops i = (
  (run-Follows letters ops (new_manager s) (new_manager-IsSound s)).reach,
  acquire_vless_backend-view i (run letters ops (new_manager s)),
  (run-Follows letters ops (new_manager s) (new_manager-IsSound s)).sound,
)
